-- ===== src/Api.antt =====
-- src/ocr_engine/api/servicer.py: the gRPC service.
pub mod Request
pub mod Validation
pub mod Response
pub mod Servicer

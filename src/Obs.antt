-- ===== src/Obs.antt =====
-- src/ocr_engine/obs: what is logged, counted and exported.
pub mod Logging
pub mod Exporters
pub mod Instruments

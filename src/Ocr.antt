-- ===== src/Ocr.antt =====
-- src/ocr_engine/ocr: the OCR provider.
pub mod Json
pub mod Baidu

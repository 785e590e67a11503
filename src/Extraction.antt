-- ===== src/Extraction.antt =====
-- src/ocr_engine/extraction: from scored lines to the fields of a result.
pub mod Money
pub mod Schema
pub mod Loader
pub mod Layout
pub mod Extract
pub mod Validate

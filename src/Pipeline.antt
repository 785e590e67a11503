-- ===== src/Pipeline.antt =====
-- src/ocr_engine/pipeline: download, inspection, OCR, extraction and the terminal outcome.
pub mod Outcome
pub mod Inspect
pub mod Download
pub mod Analysis
pub mod Process

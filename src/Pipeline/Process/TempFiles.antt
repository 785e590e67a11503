-- ===== src/Pipeline/Process/TempFiles.antt =====
-- The `finally` of `process_document` (src/ocr_engine/pipeline/pipeline.py).
use ocr.Pipeline.Outcome.{Outcome}

-- ===== src/Worker.antt =====
-- src/ocr_engine/worker/settings.py: the jobs that the worker runs.
pub mod Cleanup
pub mod Retries
use ocr.Base.{ℕ, ◌-◌, ◌*◌, List, [], ◌∷◌}
use ocr.Store.Rows.{Uuid, Time, Db}
use ocr.Store.Documents.{list_expired_documents, purge_document_results}
use ocr.Store.Outbox.{second}
use ocr.Pipeline.Analysis.{PipelineCtx}
use ocr.Pipeline.Process.{Moment, World, Ended, returned, raised, process_document}

-- `process_document_job`
unfoldable pub process_document_job : PipelineCtx → Moment → Uuid → World → Ended × World
process_document_job = process_document

-- On to the next attempt if this one raised.
pub after_attempt : (World → Ended × World) → Ended × World → Ended × World
after_attempt again (returned, w) = (returned, w)
after_attempt again (raised e, w) = again w

-- Calls of the job one after another, each with what it draws from outside, until one returns.
unfoldable pub run_job : PipelineCtx → Moment → List Moment → Uuid → World → Ended × World
unfolding process_document_job after_attempt
run_job ctx at [] i w = process_document_job ctx at i w
run_job ctx at (next ∷ more) i w =
    after_attempt (run_job ctx next more i) (process_document_job ctx at i w)

-- `RESULT_RETENTION`
abbrev pub result_retention : ℕ
result_retention = 24 * 3600 * second

-- `if ids:`
abbrev purge_some : List Uuid → Time → Db → Db
purge_some [] now db = db
purge_some (i ∷ ids) now db = purge_document_results (i ∷ ids) now db

-- `cleanup_expired_results`; the clock is a day or more past its zero.
unfoldable pub cleanup_expired_results : Time → Db → Db
cleanup_expired_results now db =
    purge_some (list_expired_documents (now - result_retention) db) now db

-- ===== src/Examples/Jobs.antt =====
-- The theorems on the worker's jobs, on a small receipt.
use ocr.Base.{ℕ, ◌-◌, ◌*◌, ◌≡◌, refl, none, some, [], ◌∷◌, arith}
use ocr.Base.Tests.{if◌then◌else◌}
use ocr.Store.Table.{any_row}
use ocr.Store.Rows.{Document, Db}
use ocr.Store.Documents.{get_document}
use ocr.Pipeline.Inspect.{inspect, digitalborn_lines, downscale_if_needed}
use ocr.Pipeline.Download.{download_to_temp}
use ocr.Pipeline.Analysis.{run_stages}
use ocr.Worker.{result_retention, cleanup_expired_results, run_job}
use ocr.Worker.Cleanup.{is_expired_with, cleanup_expired_results_lem}
use ocr.Worker.Retries.{IsLeft, run_job-IsLeft}
use ocr.Examples.Installation.{down, ctx_with, quiet}
use ocr.Examples.Data.{document, world_of, queued_db}

abbrev old : Document
old = record document { processed_at = some 1 }

abbrev old_db : Db
old_db = record { documents = old ∷ []; outbox = [] }

abbrev later : ℕ
later = 2 * result_retention

cleanup_expired_results_lem_example :
    get_document 1 (cleanup_expired_results later old_db)
    ≡ some (
        if any_row (is_expired_with (later - result_retention) 1) (old ∷ [])
        then record old { result = none; error_message = none; updated_at = later }
        else old)
unfolding get_document
cleanup_expired_results_lem_example =
    cleanup_expired_results_lem later 1 old old_db (omega arith) refl

run_job-IsLeft_example :
    IsLeft
      (ctx_with down)
      "503"
      document
      queued_db
      (run_job (ctx_with down) quiet (quiet ∷ quiet ∷ []) 1 (world_of queued_db))
unfolding get_document run_stages download_to_temp inspect digitalborn_lines downscale_if_needed
run_job-IsLeft_example =
    run_job-IsLeft (ctx_with down) quiet (quiet ∷ quiet ∷ []) document (world_of queued_db) "503"
      refl refl refl

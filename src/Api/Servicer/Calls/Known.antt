-- ===== src/Api/Servicer/Calls/Known.antt =====
-- A key that is known already: `ProcessDocument` of src/ocr_engine/api/servicer.py.
use ocr.Base.{◌≡◌, refl, false, none, some}
use ocr.Base.Int.{ltb_ℤ}
use ocr.Store.Rows.{Key, Document}
use ocr.Store.Documents.{get_idempotent_document}
use ocr.Pipeline.Outcome.{ok}
use ocr.Pipeline.Analysis.{PipelineCtx}
use ocr.Api.Request.{SubmitDocumentRequest}
use ocr.Api.Servicer.{Api, Servicer, Call, submission, validate, reply_for, respond_found}
use ocr.Api.Servicer.Replay.{submit_document-known}
use ocr.Api.Servicer.Calls.{handle_process, process_valid, with_pipeline, submit_key, after_submit}

module _ (s : Servicer) (c : Call) where
  -- The synchronous call of a key that has a row, also after what other processes write in the
  -- meantime, of a size within its cap and valid otherwise, is answered with the row's current
  -- state; nothing is processed.
  pub handle_process-known :
      (request : SubmitDocumentRequest) (ctx : PipelineCtx) (key : Key) (a : Api)
      (old doc : Document)
      → validate s c request ≡ none
      → ltb_ℤ s.settings.sync_max_bytes request.source.size_bytes ≡ false
      → s.pipeline_ctx ≡ some ctx
      → s.key_column request.idempotency_key ≡ ok key
      → get_idempotent_document key a.world.db ≡ some old
      → get_idempotent_document key (c.between a.world.db) ≡ some doc
      → let (reply, after) = handle_process s c request a in
        (reply ≡ reply_for s c doc)
        × (after.world.db ≡ c.between a.world.db)
        × (after.queue ≡ a.queue)
  unfolding handle_process process_valid with_pipeline submit_key after_submit respond_found
  handle_process-known request ctx key a old doc valid small configured column known found =
      rw
        (
          valid,
          small,
          configured,
          column,
          submit_document-known (submission s c request key) c.now a.world.db old known,
          found,
        )
        (refl, refl, refl)

-- ===== src/Api/Servicer/Calls/Inline.antt =====
-- `ProcessDocument` (src/ocr_engine/api/servicer.py) on a new key: the inline run and its answer.
use ocr.Base.{◌≡◌, refl, true, false, none, some, arith}
use ocr.Base.Int.{ltb_ℤ}
use ocr.Store.Rows.{Key, Document, Db}
use ocr.Store.Documents.{queued_document, submit_document, get_document}
use ocr.Store.Submit.{submit_accepted}
use ocr.Pipeline.Outcome.{ok}
use ocr.Pipeline.Analysis.{PipelineCtx}
use ocr.Pipeline.Process.{World, Ended, returned, raised}
use ocr.Pipeline.Process.Verdict.{Verdict, concluded, left, settled, verdict, stages, Ends}
use ocr.Pipeline.Process.Terminal.{process_document-Ends}
use ocr.Api.Request.{SubmitDocumentRequest, GetDocumentResponse}
use ocr.Api.Servicer.{
  Reply, aborted, internal, Api, Servicer, Call, submission, validate, reply_for, respond_found,
}
use ocr.Api.Servicer.Calls.{
  handle_process, process_valid, with_pipeline, submit_key, after_submit, run, after_run,
}

module _ (s : Servicer) (c : Call) where
  -- What the caller is told: the state of the row after a run that returns, and an error otherwise.
  abbrev pub IsTold : Verdict → Reply GetDocumentResponse → Db → Type 0
  IsTold (concluded returned status result error_code) reply db =
      (d : Document) × (get_document c.document_id db ≡ some d)
      × (d.status ≡ status)
      × (reply ≡ reply_for s c d)
  IsTold (concluded (raised e) status result error_code) reply db =
      reply ≡ aborted internal "processing failed"
  IsTold (left e) reply db = reply ≡ aborted internal "processing failed"

  -- The run ended by its verdict, the caller is told, and no job is queued.
  abbrev pub IsAnswered :
      PipelineCtx → Verdict → Db → Api → Reply GetDocumentResponse × Api → Type 0
  IsAnswered ctx v inserted before (reply, after) =
      ((ended : Ended) × Ends c.moment c.document_id v inserted (ended, after.world))
      × IsTold v reply after.world.db
      × (after.queue ≡ before.queue)

  after_run_lem :
      (ctx : PipelineCtx) (v : Verdict) (inserted : Db) (a : Api) (ending : Ended × World)
      → ((db : Db) → c.between db ≡ db)
      → Ends c.moment c.document_id v inserted ending
      → IsAnswered ctx v inserted a (after_run s c ending a)
  unfolding after_run respond_found
  after_run_lem ctx (concluded returned status r code) inserted a (returned, w) alone
        (same, (d, e, found, out, (is, columns, code_is, at_is), event)) =
      rw (alone w.db, found)
        (
          (returned, (same, (d, e, found, out, (is, columns, code_is, at_is), event))),
          (d, found, is, refl),
          refl,
        )
  after_run_lem ctx (concluded (raised e) status r code) inserted a (returned, w) alone h =
      ground (arith, h.0)
  after_run_lem ctx (left e) inserted a (returned, w) alone h = ground (arith, h.0)
  after_run_lem ctx (concluded returned status r code) inserted a (raised e, w) alone h =
      ground (arith, h.0)
  after_run_lem ctx (concluded (raised e') status r code) inserted a (raised e, w) alone h =
      ((raised e, h), refl, refl)
  after_run_lem ctx (left e') inserted a (raised e, w) alone h = ((raised e, h), refl, refl)

  -- A valid call on a new key and within the size cap that is not cancelled, on a database that
  -- raises nothing of its own and that no other process writes meanwhile: the run ends by the
  -- verdict on the stages of the new row and by its key, and the caller is told the state of the
  -- row, or `INTERNAL` if the run raises; no job is queued. For a key that the column gives as a
  -- `uuid.UUID` the run always raises, and leaves the row in `processing`.
  pub handle_process_lem :
      (request : SubmitDocumentRequest) (ctx : PipelineCtx) (key : Key) (a : Api)
      → validate s c request ≡ none
      → ltb_ℤ s.settings.sync_max_bytes request.source.size_bytes ≡ false
      → s.pipeline_ctx ≡ some ctx
      → s.key_column request.idempotency_key ≡ ok key
      → (submit_document (submission s c request key) c.now a.world.db).0 ≡ true
      → c.cancel ≡ none
      → c.moment.finish_fault ≡ none
      → c.moment.fail_fault ≡ none
      → ((db : Db) → c.between db ≡ db)
      → let doc = queued_document (submission s c request key) c.now in
        IsAnswered ctx
          (settled (verdict ctx (stages ctx doc)) key)
          (submit_document (submission s c request key) c.now a.world.db).1
          a
          (handle_process s c request a)
  unfolding handle_process process_valid with_pipeline submit_key after_submit run
  handle_process_lem request ctx key a valid small configured column inserted stays quiet quiet'
        alone =
      rw (valid, small, configured, column, inserted, stays)
        (after_run_lem ctx _ _ _ _ alone (
          process_document-Ends ctx c.moment (queued_document (submission s c request key) c.now) _
            (submit_accepted (submission s c request key) c.now a.world.db inserted).1 refl quiet
            quiet'))

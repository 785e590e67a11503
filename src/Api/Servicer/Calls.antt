-- ===== src/Api/Servicer/Calls.antt =====
-- `ProcessDocument` and `_mark_cancelled` (src/ocr_engine/api/servicer.py).
pub mod Known
pub mod Inline
pub mod Cancel
use ocr.Pipeline.Download.{unlink_quiet}
use ocr.Base.{ℕ, ◌+◌, ◌-◌, String, ◌<>◌, Bool, true, false, Option, none, some, List, [], ◌∷◌, ◌++◌}
use ocr.Base.Tests.{if◌then◌else◌}
use ocr.Base.Int.{ltb_ℤ}
use ocr.Store.Rows.{Uuid, Key, Time, failed, Document, Db}
use ocr.Store.Documents.{
  submit_document, get_idempotent_document, get_document, mark_processing, Finish, finish_document,
  committed,
}
use ocr.Events.Envelope.{build_envelope}
use ocr.Pipeline.Outcome.{Exception, Outcome, ok, raise}
use ocr.Pipeline.Analysis.{PipelineCtx}
use ocr.Pipeline.Process.{World, Ended, returned, raised, process_document}
use ocr.Api.Request.{SubmitDocumentRequest, GetDocumentResponse}
use ocr.Api.Servicer.{
  StatusCode, invalid_argument, failed_precondition, unavailable, internal, Reply, aborted, escaped,
  cancelled, ok_status, cancelled_status, Api, Servicer, CancelPoint, before_start, during_download,
  during_stages, after_commit, Call, with_db, rpc_done, abort, submission, validate, respond,
  respond_found,
}

-- The text of `_mark_cancelled`.
abbrev pub cancelled_message : String
cancelled_message = "synchronous processing cancelled before completion"

module _ (s : Servicer) (c : Call) where
  abbrev pub cancellation : Document → Finish
  cancellation doc = record {
    status = failed;
    result = none;
    avg_confidence = none;
    error_code = some "INTERNAL";
    error_message = some cancelled_message;
    payload =
        build_envelope doc failed none
          (some (record { code = "INTERNAL"; message = cancelled_message })) c.cancel_event_id
          c.cancelled_at;
    topic = s.settings.kafka_topic;
    trace_id = c.trace_id;
  }

  -- On the row that `get_document` finds; whatever is raised is swallowed.
  abbrev mark_found : Option Document → Db → Db
  mark_found none db = db
  mark_found (some doc) db =
      if c.cancel_fault
      then db
      else committed
          (finish_document c.document_id (cancellation doc) c.cancel_event_row c.cancelled_at db) db

  -- `_mark_cancelled`
  unfoldable pub mark_cancelled : Db → Db
  mark_cancelled db = mark_found (get_document c.document_id db) db

  -- What the inline run has written when the caller gives up; its `finally` has run. The handler
  -- of the download does not catch a `CancelledError`, and the path of its file is lost.
  cancelled_world : PipelineCtx → CancelPoint → World → World
  cancelled_world ctx before_start w = w
  cancelled_world ctx during_download w = record w {
    db = mark_processing c.document_id c.moment.started w.db;
    temp_files = w.temp_files + 1;
  }
  cancelled_world ctx during_stages w = record w {
    db = mark_processing c.document_id c.moment.started w.db;
    temp_files = w.temp_files + 1 - unlink_quiet ctx.storage.unlink_fails;
  }
  cancelled_world ctx after_commit w = (process_document ctx c.moment c.document_id w).1

  after_run : Ended × World → Api → Reply GetDocumentResponse × Api
  unfolding respond_found
  after_run (raised e, w) a = abort c internal "processing failed" (record a { world = w })
  after_run (returned, w) a =
      let a' = with_db c.between (record a { world = w }) in
      respond_found s c internal "document vanished after processing"
        (get_document c.document_id a'.world.db) a'

  run : PipelineCtx → Option CancelPoint → Api → Reply GetDocumentResponse × Api
  unfolding cancelled_world after_run mark_cancelled respond_found
  run ctx (some point) a = (
    cancelled,
    rpc_done c cancelled_status
        (with_db mark_cancelled (record a { world = cancelled_world ctx point a.world })),
  )
  run ctx none a = after_run (process_document ctx c.moment c.document_id a.world) a

  after_submit : PipelineCtx → Key → Bool × Db → Api → Reply GetDocumentResponse × Api
  unfolding run respond_found
  after_submit ctx key (false, db) a =
      respond_found s c internal "idempotent document vanished"
        (get_idempotent_document key (c.between db)) (with_db (λ _. c.between db) a)
  after_submit ctx key (true, db) a = run ctx c.cancel (with_db (λ _. db) a)

  submit_key :
      SubmitDocumentRequest → PipelineCtx → Outcome Key → Api → Reply GetDocumentResponse × Api
  unfolding after_submit
  submit_key request ctx (raise e) a = (escaped e, a)
  submit_key request ctx (ok key) a =
      after_submit ctx key (submit_document (submission s c request key) c.now a.world.db) a

  with_pipeline : SubmitDocumentRequest → Option PipelineCtx → Api → Reply GetDocumentResponse × Api
  unfolding submit_key
  with_pipeline request none a = abort c unavailable "processing not configured" a
  with_pipeline request (some ctx) a =
      submit_key request ctx (s.key_column request.idempotency_key) a

  abbrev too_large : SubmitDocumentRequest → String
  too_large request =
      "size_bytes "
      <> (s.storage.str_int request.source.size_bytes
          <> (" exceeds the synchronous cap ("
              <> (s.storage.str_int s.settings.sync_max_bytes
                  <> "); submit via SubmitDocument instead")))

  process_valid : SubmitDocumentRequest → Option String → Api → Reply GetDocumentResponse × Api
  unfolding with_pipeline
  process_valid request (some message) a = abort c invalid_argument message a
  process_valid request none a =
      if ltb_ℤ s.settings.sync_max_bytes request.source.size_bytes
      then abort c failed_precondition (too_large request) a
      else with_pipeline request s.pipeline_ctx a

  -- `ProcessDocument`
  unfoldable pub handle_process : SubmitDocumentRequest → Api → Reply GetDocumentResponse × Api
  unfolding process_valid
  handle_process request a = process_valid request (validate s c request) a

-- ===== src/Pipeline/Process.antt =====
-- `process_document` and `_fail` (src/ocr_engine/pipeline/pipeline.py), as steps on the database.
pub mod Verdict
pub mod Written
pub mod Terminal
pub mod Stuck
pub mod TempFiles
pub mod Again
pub mod Transient
use ocr.Base.{ℕ, ◌+◌, ◌-◌, String, ◌<>◌, Bool, true, false, Option, none, some, List, [], ◌∷◌, ◌++◌}
use ocr.Base.Tests.{if◌then◌else◌}
use ocr.Store.Rows.{
  Uuid, Time, Status, failed, is_processable, Document, DocumentResult, ErrorDict, Db,
}
use ocr.Store.Documents.{get_document, mark_processing, Finish, finish_document}
use ocr.Events.Envelope.{build_envelope}
use ocr.Extraction.Validate.{to_dict}
use ocr.Pipeline.Outcome.{
  Exception, Outcome, ok, raise, document_failed, storage_object_missing, value_error,
  unsupported_file_type, resource_limit, provider_permanent, provider_transient, transient_job,
  http_error, timeout_error, other,
}
use ocr.Pipeline.Inspect.{Bytes}
use ocr.Pipeline.Download.{Downloaded, download_to_temp, cleanup_temp}
use ocr.Pipeline.Analysis.{PipelineCtx, run_stages}

-- The counters that a run adds to, in order.
pub data Metric : Type 0 where
  documents_processed : Status → Metric
  documents_failed : String → Metric
  transient_errors : Metric
  provider_errors : String → Metric
  pipeline_duration : String → Metric

-- What a run draws from outside: the times of its writes, the ids that it and the database
-- generate, and what the database raises at a call of `finish_document`, if anything.
pub record Moment : Type 0 where
  pub started : Time
  pub ended : Time
  pub event_id : Uuid
  pub event_row : Uuid
  pub finish_fault : Option Exception
  pub failed_event_id : Uuid
  pub failed_event_row : Uuid
  pub fail_fault : Option Exception

pub record World : Type 0 where
  pub db : Db
  pub temp_files : ℕ
  pub metrics : List Metric

-- How a call ends.
pub data Ended : Type 0 where
  returned : Ended
  raised : Exception → Ended

-- `str(exc)`
abbrev pub text_of : Exception → String
text_of (document_failed code m) = code <> (": " <> m)
text_of (storage_object_missing m) = m
text_of (value_error m) = m
text_of (unsupported_file_type m) = m
text_of (resource_limit m) = m
text_of (provider_permanent m) = m
text_of (provider_transient m) = m
text_of (transient_job m) = m
text_of (http_error m) = m
text_of (timeout_error m) = m
text_of (other m) = m

abbrev pub count : List Metric → World → World
count ms w = record w { metrics = w.metrics ++ ms }

module _ (ctx : PipelineCtx) (at : Moment) where
  abbrev pub failure : Document → String → String → Finish
  failure doc code message = record {
    status = failed;
    result = none;
    avg_confidence = none;
    error_code = some code;
    error_message = some message;
    payload =
        build_envelope doc failed none (some (record { code = code; message = message }))
          at.failed_event_id at.ended;
    topic = ctx.settings.kafka_topic;
    trace_id = doc.trace_id;
  }

  abbrev pub success : Document → DocumentResult → Status → Finish
  success doc result status = record {
    status = status;
    result = some (to_dict ctx.tools.floats result);
    avg_confidence = some result.avg_confidence;
    error_code = none;
    error_message = none;
    payload =
        build_envelope doc status (some (to_dict ctx.tools.floats result)) none at.event_id
          at.ended;
    topic = ctx.settings.kafka_topic;
    trace_id = doc.trace_id;
  }

  -- What follows the write of `_fail`: its counts, and then `ends`.
  abbrev pub after_fail : Outcome Db → String → Ended → World → Ended × World
  after_fail (raise e) code ends w = (raised e, w)
  after_fail (ok db) code ends w = (
    ends,
    count (documents_processed failed ∷ documents_failed code ∷ pipeline_duration "failed" ∷ [])
        (record w { db = db }),
  )

  -- `_fail`, and then `ends`.
  fail_unless : Option Exception → Document → String → String → Ended → World → Ended × World
  fail_unless (some e) doc code message ends w = (raised e, w)
  fail_unless none doc code message ends w =
      after_fail
        (finish_document doc.id (failure doc code message) at.failed_event_row at.ended w.db) code
        ends w

  unfoldable pub fail : Document → String → String → Ended → World → Ended × World
  unfolding fail_unless
  fail = fail_unless at.fail_fault

  -- The `except` clauses.
  unfoldable pub handle : Document → Exception → World → Ended × World
  unfolding fail
  handle doc (document_failed code message) w = fail doc code message returned w
  handle doc (provider_transient m) w =
      (raised (transient_job m), count (transient_errors ∷ provider_errors "transient" ∷ []) w)
  handle doc (provider_permanent m) w =
      fail doc "INTERNAL" m returned (count (provider_errors "permanent" ∷ []) w)
  handle doc (unsupported_file_type m) w = fail doc "UNSUPPORTED_FILE_TYPE" m returned w
  handle doc (resource_limit m) w = fail doc "RESOURCE_LIMIT" m returned w
  handle doc e w = fail doc "INTERNAL" (text_of e) (raised e) w

  after_finish : Outcome Db → Document → Status → World → Ended × World
  unfolding handle
  after_finish (raise e) doc status w = handle doc e w
  after_finish (ok db) doc status w = (
    returned,
    count (documents_processed status ∷ pipeline_duration "ok" ∷ []) (record w { db = db }),
  )

  finish_unless : Option Exception → Document → DocumentResult → Status → World → Ended × World
  unfolding handle after_finish
  finish_unless (some e) doc result status w = handle doc e w
  finish_unless none doc result status w =
      after_finish (finish_document doc.id (success doc result status) at.event_row at.ended w.db)
        doc status w

  conclude : Document → Outcome (DocumentResult × Status) → World → Ended × World
  unfolding finish_unless
  conclude doc (ok (result, status)) w = finish_unless at.finish_fault doc result status w
  conclude doc (raise e) w = handle doc e w

  -- `finally: cleanup_temp(tmp_path)`
  abbrev pub clean_up : Outcome Bytes → Ended × World → Ended × World
  clean_up file (e, w) =
      (e, record w { temp_files = w.temp_files - cleanup_temp ctx.storage.unlink_fails file })

  process_row : Document → World → Ended × World
  unfolding conclude
  process_row doc w =
      let file = download_to_temp ctx.storage ctx.settings doc.source_bucket doc.source_path in
      let w' = record w {
        db = mark_processing doc.id at.started w.db;
        temp_files = w.temp_files + file.left_files;
      } in
      clean_up file.result (conclude doc (run_stages ctx doc file) w')

  process_found : Option Document → World → Ended × World
  unfolding process_row
  process_found none w = (returned, w)
  process_found (some doc) w =
      if is_processable doc.status then process_row doc w else (returned, w)

  unfoldable pub process_document : Uuid → World → Ended × World
  unfolding process_found
  process_document i w = process_found (get_document i w.db) w

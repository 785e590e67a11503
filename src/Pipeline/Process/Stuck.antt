-- ===== src/Pipeline/Process/Stuck.antt =====
-- A run of `process_document` (src/ocr_engine/pipeline/pipeline.py) on a row whose key is a
-- `uuid.UUID`, as asyncpg reads the column.
use ocr.Base.{◌≡◌, refl, true, ◌&&◌, Option, none, some, String, List, [], ◌∷◌, arith}
use ocr.Base.Tests.{nat_eq}
use ocr.Store.Table.{update_where}
use ocr.Store.Rows.{
  Uuid, uuid_key, Time, Status, processing, is_processable, Document, DocumentResult, Db,
}
use ocr.Store.Documents.{has_id, is_queued, get_document, mark_processing, type_error}
use ocr.Store.Finish.{finish_document-uuid_key}
use ocr.Events.Envelope.{build_envelope}
use ocr.Pipeline.Outcome.{
  Exception, Outcome, ok, raise, document_failed, storage_object_missing, value_error,
  unsupported_file_type, resource_limit, provider_permanent, provider_transient, transient_job,
  http_error, timeout_error, other,
}
use ocr.Pipeline.Analysis.{PipelineCtx}
use ocr.Pipeline.Process.{
  Moment, World, Ended, raised, failure, success, fail, fail_unless, handle, after_finish,
  finish_unless, conclude, process_row, process_found, process_document,
}

-- The run raises, and the database is this one.
abbrev pub IsRaised : Db → Ended × World → Type 0
IsRaised db ending = (e : Exception) × (ending.0 ≡ raised e) × (ending.1.db ≡ db)

module _ (ctx : PipelineCtx) (at : Moment) (doc : Document) (k : Uuid)
    (key : doc.idempotency_key ≡ uuid_key k) where
  fail_unless-IsRaised :
      (fault : Option Exception) (code message : String) (end : Ended) (w : World)
      → IsRaised w.db (fail_unless ctx at fault doc code message end w)
  unfolding fail_unless build_envelope
  fail_unless-IsRaised (some e) code message end w = (e, refl, refl)
  fail_unless-IsRaised none code message end w =
      rw
        (finish_document-uuid_key doc.id (failure ctx at doc code message) at.failed_event_row
          at.ended w.db k key)
        (type_error, refl, refl)

  handle-IsRaised : (e : Exception) (w : World) → IsRaised w.db (handle ctx at doc e w)
  unfolding handle fail
  handle-IsRaised (provider_transient m) w = (transient_job m, refl, refl)
  handle-IsRaised (document_failed c m) w = fail_unless-IsRaised at.fail_fault _ _ _ w
  handle-IsRaised (provider_permanent m) w = fail_unless-IsRaised at.fail_fault _ _ _ _
  handle-IsRaised (unsupported_file_type m) w = fail_unless-IsRaised at.fail_fault _ _ _ w
  handle-IsRaised (resource_limit m) w = fail_unless-IsRaised at.fail_fault _ _ _ w
  handle-IsRaised (storage_object_missing m) w = fail_unless-IsRaised at.fail_fault _ _ _ w
  handle-IsRaised (value_error m) w = fail_unless-IsRaised at.fail_fault _ _ _ w
  handle-IsRaised (transient_job m) w = fail_unless-IsRaised at.fail_fault _ _ _ w
  handle-IsRaised (http_error m) w = fail_unless-IsRaised at.fail_fault _ _ _ w
  handle-IsRaised (timeout_error m) w = fail_unless-IsRaised at.fail_fault _ _ _ w
  handle-IsRaised (other m) w = fail_unless-IsRaised at.fail_fault _ _ _ w

  finish_unless-IsRaised :
      (fault : Option Exception) (r : DocumentResult) (status : Status) (w : World)
      → IsRaised w.db (finish_unless ctx at fault doc r status w)
  unfolding finish_unless after_finish build_envelope
  finish_unless-IsRaised (some e) r status w = handle-IsRaised e w
  finish_unless-IsRaised none r status w =
      rw
        (finish_document-uuid_key doc.id (success ctx at doc r status) at.event_row at.ended w.db k
          key)
        (handle-IsRaised type_error w)

  conclude-IsRaised :
      (o : Outcome (DocumentResult × Status)) (w : World) → IsRaised w.db (conclude ctx at doc o w)
  unfolding conclude
  conclude-IsRaised (ok (r, status)) w = finish_unless-IsRaised at.finish_fault r status w
  conclude-IsRaised (raise e) w = handle-IsRaised e w

  -- Whatever the stages come to and the database raises: such a run raises, and has written nothing
  -- but `mark_processing`.
  pub process_document-IsRaised :
      (w : World)
      → get_document doc.id w.db ≡ some doc
      → is_processable doc.status ≡ true
      → IsRaised (mark_processing doc.id at.started w.db) (process_document ctx at doc.id w)
  unfolding process_document process_found process_row
  process_document-IsRaised w found p = rw (found, p) (conclude-IsRaised _ _)

mark_twice :
    (i : Uuid) (now later : Time) (docs : List Document)
    → update_where
        (λ d. has_id i d && is_queued d.status)
        (λ d. record d { status = processing; updated_at = later })
        (update_where
          (λ d. has_id i d && is_queued d.status)
          (λ d. record d { status = processing; updated_at = now })
          docs)
      ≡ update_where
          (λ d. has_id i d && is_queued d.status)
          (λ d. record d { status = processing; updated_at = now })
          docs
mark_twice i now later [] = refl
mark_twice i now later (d ∷ docs) = ground (arith, mark_twice i now later docs)

-- A row that is marked is not marked again.
pub mark_processing-twice :
    (i : Uuid) (now later : Time) (db : Db)
    → mark_processing i later (mark_processing i now db) ≡ mark_processing i now db
unfolding mark_processing
mark_processing-twice i now later db = rw (mark_twice i now later db.documents) refl

-- ===== src/Pipeline/Process/Terminal.antt =====
-- How a run of `process_document` (src/ocr_engine/pipeline/pipeline.py) ends when the database
-- answers: in an outcome with its event, or in a retry.
use ocr.Base.{◌≡◌, refl, sym, String, true, ◌&&◌, Option, none, some, arith}
use ocr.Base.Tests.{nat_eq, nat_beq_iff, if◌then◌else◌}
use mathlib.Core.Path.{subst}
use ocr.Store.Table.Lemmas.{find_row-update_where}
use ocr.Store.Rows.{
  Uuid, Key, uuid_key, text_key, Time, Status, processing, failed, is_processable, Document,
  DocumentResult, Db,
}
use ocr.Store.Documents.{has_id, is_queued, get_document, mark_processing, type_error}
use ocr.Extraction.Validate.{to_dict}
use ocr.Pipeline.Outcome.{
  Exception, Outcome, ok, raise, document_failed, storage_object_missing, value_error,
  unsupported_file_type, resource_limit, provider_permanent, provider_transient, transient_job,
  http_error, timeout_error, other,
}
use ocr.Pipeline.Inspect.{Bytes}
use ocr.Pipeline.Analysis.{PipelineCtx}
use ocr.Pipeline.Analysis.Statuses.{IsFinal, run_stages-IsFinal}
use ocr.Pipeline.Process.Verdict.{
  Ends, Verdict, concluded, left, stages, verdict_on, verdict, settled,
}
use ocr.Pipeline.Process.{
  clean_up, Moment, World, Ended, returned, after_fail, fail, fail_unless, handle, after_finish,
  finish_unless, conclude, process_row, process_found, process_document,
}
use ocr.Pipeline.Process.Written.{
  Writes, IsStarted, finish_document-failure, finish_document-success,
}

-- A found row, as `mark_processing` and `finish_document` leave it.
pub has_id_refl : (d : Document) → has_id d.id d ≡ true
has_id_refl d = (nat_beq_iff d.id d.id).1 refl

abbrev started_row : Time → Document → Document
started_row now d = record d { status = processing; updated_at = now }

get_document-mark_processing :
    (doc : Document) (now : Time) (db : Db)
    → get_document doc.id db ≡ some doc
    → is_processable doc.status ≡ true
    → (d : Document) × (get_document doc.id (mark_processing doc.id now db) ≡ some d)
      × (d.status ≡ processing)
      × (d.id ≡ doc.id)
unfolding get_document mark_processing
get_document-mark_processing doc now db found p = (
  if has_id doc.id doc && is_queued doc.status then started_row now doc else doc,
  find_row-update_where (has_id doc.id) (λ d. has_id doc.id d && is_queued d.status)
      (started_row now) (λ d. refl) db.documents doc found,
  ground (arith, has_id_refl doc),
  ground arith,
)

module _ (ctx : PipelineCtx) (at : Moment) where
  after_fail-Ends :
      (k : Key) (o : Outcome Db) (doc : Document) (code : String) (end : Ended) (before : Db)
      (w : World)
      → Writes k doc.id failed none (some code) at.ended before o
      → IsStarted ctx at doc w.db
      → w.db.outbox ≡ before.outbox
      → Ends at doc.id
          (settled (concluded end failed none (some code)) k)
          before
          (after_fail ctx at o code end w)
  after_fail-Ends (text_key t) (ok after) doc code end before w h start out = (refl, h)
  after_fail-Ends (text_key t) (raise e) doc code end before w h start out = absurd h
  after_fail-Ends (uuid_key i) (ok after) doc code end before w h start out = absurd (cc h)
  after_fail-Ends (uuid_key i) (raise e) doc code end before w h (d, found, p, _) out =
      (cc h, (d, found, p, out))

  fail_lem :
      (doc : Document) (code message : String) (end : Ended) (before : Db) (w : World)
      → at.fail_fault ≡ none
      → IsStarted ctx at doc w.db
      → w.db.outbox ≡ before.outbox
      → Ends at doc.id
          (settled (concluded end failed none (some code)) doc.idempotency_key)
          before
          (fail ctx at doc code message end w)
  unfolding fail fail_unless
  fail_lem doc code message end before w quiet start out = rw quiet (
      after_fail-Ends doc.idempotency_key _ doc code end before w
        (finish_document-failure ctx at doc.idempotency_key doc code message before w.db refl start
          out)
        start out)

  handle_lem :
      (doc : Document) (e : Exception) (before : Db) (w : World)
      → at.fail_fault ≡ none
      → IsStarted ctx at doc w.db
      → w.db.outbox ≡ before.outbox
      → Ends at doc.id (settled (verdict_on e) doc.idempotency_key) before (handle ctx at doc e w)
  unfolding handle
  handle_lem doc (provider_transient m) before w quiet (d, found, p, _) out =
      (refl, (d, found, p, out))
  handle_lem doc (document_failed code m) before w quiet start out =
      fail_lem doc code m returned before w quiet start out
  handle_lem doc (provider_permanent m) before w quiet start out =
      fail_lem doc "INTERNAL" m returned before _ quiet start out
  handle_lem doc (unsupported_file_type m) before w quiet start out =
      fail_lem doc "UNSUPPORTED_FILE_TYPE" m returned before w quiet start out
  handle_lem doc (resource_limit m) before w quiet start out =
      fail_lem doc "RESOURCE_LIMIT" m returned before w quiet start out
  handle_lem doc (storage_object_missing m) before w quiet start out =
      fail_lem doc "INTERNAL" m _ before w quiet start out
  handle_lem doc (value_error m) before w quiet start out =
      fail_lem doc "INTERNAL" m _ before w quiet start out
  handle_lem doc (transient_job m) before w quiet start out =
      fail_lem doc "INTERNAL" m _ before w quiet start out
  handle_lem doc (http_error m) before w quiet start out =
      fail_lem doc "INTERNAL" m _ before w quiet start out
  handle_lem doc (timeout_error m) before w quiet start out =
      fail_lem doc "INTERNAL" m _ before w quiet start out
  handle_lem doc (other m) before w quiet start out =
      fail_lem doc "INTERNAL" m _ before w quiet start out

  after_finish-Ends :
      (k : Key) (o : Outcome Db) (doc : Document) (status : Status) (result : Option DocumentResult)
      (before : Db) (w : World)
      → doc.idempotency_key ≡ k
      → at.fail_fault ≡ none
      → Writes k doc.id status result none at.ended before o
      → IsStarted ctx at doc w.db
      → w.db.outbox ≡ before.outbox
      → Ends at doc.id
          (settled (concluded returned status result none) k)
          before
          (after_finish ctx at o doc status w)
  unfolding after_finish
  after_finish-Ends (text_key t) (ok after) doc status result before w key quiet h start out =
      (refl, h)
  after_finish-Ends (text_key t) (raise e) doc status result before w key quiet h start out =
      absurd h
  after_finish-Ends (uuid_key i) (ok after) doc status result before w key quiet h start out =
      absurd (cc h)
  after_finish-Ends (uuid_key i) (raise e) doc status result before w key quiet h start out =
      let same : e ≡ type_error = cc h in
      subst
        (λ x.
          Ends at doc.id (settled (concluded returned status result none) (uuid_key i)) before
            (handle ctx at doc x w))
        (sym same)
        (subst
          (λ k.
            Ends at doc.id (settled (verdict_on type_error) k) before
              (handle ctx at doc type_error w))
          key (handle_lem doc type_error before w quiet start out))

  conclude_lem :
      (doc : Document) (o : Outcome (DocumentResult × Status)) (before : Db) (w : World)
      → at.finish_fault ≡ none
      → at.fail_fault ≡ none
      → IsFinal o
      → IsStarted ctx at doc w.db
      → w.db.outbox ≡ before.outbox
      → Ends at doc.id
          (settled (verdict ctx o) doc.idempotency_key)
          before
          (conclude ctx at doc o w)
  unfolding conclude finish_unless
  conclude_lem doc (ok (r, status)) before w quiet quiet' final start out = rw quiet (
      after_finish-Ends doc.idempotency_key _ doc status (some (to_dict ctx.tools.floats r)) before
        w refl quiet'
        (finish_document-success ctx at doc.idempotency_key doc r status before w.db refl final
          start out)
        start out)
  conclude_lem doc (raise e) before w quiet quiet' final start out =
      handle_lem doc e before w quiet' start out

  -- The clean-up keeps the database.
  Ends-clean_up :
      (i : Uuid) (v : Verdict) (before : Db) (file : Outcome Bytes) (ending : Ended × World)
      → Ends at i v before ending
      → Ends at i v before (clean_up ctx at file ending)
  Ends-clean_up i (concluded end status result error_code) before file ending h = h
  Ends-clean_up i (left e) before file ending h = h

  -- For a queued or processing document and a database that raises nothing of its own, by what the
  -- stages come to and by the key of the row. A transient provider error leaves the row in
  -- `processing`, without an event, and is raised for a retry. For a key that is a `str`, a result
  -- is written as the row's outcome, and any other exception as a failure, under its code, and
  -- leaves the run if it is none of the four expected kinds; an outcome is written with exactly one
  -- new event, unpublished, locked by nobody and due at once, about the row and with the same data
  -- or error. For a key that is a `uuid.UUID`, neither is written: the run raises the `TypeError` of
  -- `json.dumps` and leaves the row in `processing`, without an event.
  pub process_document-Ends :
      (doc : Document) (w : World)
      → get_document doc.id w.db ≡ some doc
      → is_processable doc.status ≡ true
      → at.finish_fault ≡ none
      → at.fail_fault ≡ none
      → Ends at doc.id
          (settled (verdict ctx (stages ctx doc)) doc.idempotency_key)
          w.db
          (process_document ctx at doc.id w)
  unfolding process_document process_found process_row mark_processing
  process_document-Ends doc w found p quiet quiet' =
      rw (found, p)
        (Ends-clean_up doc.id (settled (verdict ctx (stages ctx doc)) doc.idempotency_key) w.db _ _
          (conclude_lem doc (stages ctx doc) w.db _ quiet quiet' (run_stages-IsFinal ctx doc _)
            (get_document-mark_processing doc at.started w.db found p) refl))

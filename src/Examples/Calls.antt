-- ===== src/Examples/Calls.antt =====
-- The theorems on the gRPC service, on a small receipt.
use ocr.Base.{◌≡◌, refl, ◌↔◌, ◌<>◌, true, false, ◌⊎◌, none, some, [], ◌∷◌}
use ocr.Base.Tests.{nat_eq, string_eq}
use ocr.Base.Int.{pos}
use ocr.Store.Rows.{text_key, completed, extracted, money_body, Document, DocumentResult}
use ocr.Store.Documents.{queued_document, submit_document, get_document, get_idempotent_document}
use ocr.Pipeline.Outcome.{ok}
use ocr.Pipeline.Download.{validate_ref}
use ocr.Pipeline.Process.Verdict.{verdict, settled, stages}
use ocr.Api.Request.{GetDocumentResponse, document_status_completed}
use ocr.Api.Response.{assign_int, response_for}
use ocr.Api.Response.Totality.{Details, response_for_total}
use ocr.Api.Validation.{validate_submit}
use ocr.Api.Validation.Order.{IsAcceptable, validate_submit_iff, validate_submit-validate_ref}
use ocr.Api.Servicer.{
  aborted, already_exists, submission as submission_of, reply_for, handle_submit,
}
use ocr.Api.Servicer.Submit.{IsAccepted, IsUntouched, handle_submit_lem}
use ocr.Api.Servicer.Replay.{handle_submit-known}
use ocr.Api.Servicer.Calls.{handle_process, mark_cancelled}
use ocr.Api.Servicer.Calls.Known.{handle_process-known}
use ocr.Api.Servicer.Calls.Inline.{IsAnswered, handle_process_lem}
use ocr.Api.Servicer.Calls.Cancel.{IsMarked, mark_cancelled_lem}
use ocr.Examples.Installation.{settings, storage, schemas, percent, reading, down, ctx_with}
use ocr.Examples.Data.{
  key, column_key, document, declared, declared_db, empty_db, queued_db, request, servicer, call,
  api_of,
}

validate_submit_iff_example :
    (validate_submit storage settings schemas request ≡ none)
    ↔ IsAcceptable storage settings schemas request
validate_submit_iff_example = validate_submit_iff storage settings schemas request

validate_submit-validate_ref_example : validate_ref storage settings "receipts" "a.png" ≡ ok tt
unfolding validate_submit
validate_submit-validate_ref_example =
    validate_submit-validate_ref storage settings schemas request refl

handle_submit_lem_example :
    IsAccepted
      (servicer reading)
      (call true)
      request
      (api_of empty_db)
      (handle_submit (servicer reading) (call true) request (api_of empty_db))
    ⊎ IsUntouched
        (servicer reading)
        (call true)
        (api_of empty_db)
        (handle_submit (servicer reading) (call true) request (api_of empty_db))
handle_submit_lem_example =
    handle_submit_lem (servicer reading) (call true) request (api_of empty_db) refl

handle_submit-known_example :
    let (reply, after) = handle_submit (servicer reading) (call false) request (api_of queued_db) in
    (reply ≡ aborted already_exists ("document_id=" <> key))
    × (after.world.db ≡ queued_db)
    × (after.queue ≡ [])
unfolding validate_submit get_idempotent_document
handle_submit-known_example =
    handle_submit-known (servicer reading) (call false) request column_key (api_of queued_db)
      document document refl refl refl refl

handle_process-known_example :
    let (reply, after) =
      handle_process (servicer reading) (call false) request (api_of queued_db) in
    (reply ≡ reply_for (servicer reading) (call false) document)
    × (after.world.db ≡ queued_db)
    × (after.queue ≡ [])
unfolding validate_submit get_idempotent_document
handle_process-known_example =
    handle_process-known (servicer reading) (call false) request (ctx_with reading) column_key
      (api_of queued_db) document document refl refl refl refl refl refl

handle_process_lem_example :
    let new = submission_of (servicer down) (call false) request column_key in
    IsAnswered
      (servicer down)
      (call false)
      (ctx_with down)
      (settled
        (verdict (ctx_with down) (stages (ctx_with down) (queued_document new 5)))
        column_key)
      (submit_document new 5 empty_db).1
      (api_of empty_db)
      (handle_process (servicer down) (call false) request (api_of empty_db))
unfolding validate_submit submit_document
handle_process_lem_example =
    handle_process_lem (servicer down) (call false) request (ctx_with down) column_key
      (api_of empty_db) refl refl refl refl refl refl refl refl (λ db. refl)

mark_cancelled_lem_example :
    IsMarked
      (servicer reading)
      (call false)
      (text_key key)
      declared_db
      (mark_cancelled (servicer reading) (call false) declared_db)
unfolding get_document
mark_cancelled_lem_example =
    mark_cancelled_lem (servicer reading) (call false) declared declared_db refl refl

-- As asyncpg reads the key, the cancellation is lost.
cancellation_is_lost : mark_cancelled (servicer reading) (call false) queued_db ≡ queued_db
unfolding get_document
cancellation_is_lost =
    mark_cancelled_lem (servicer reading) (call false) document queued_db refl refl

abbrev read_result : DocumentResult
read_result = record {
  schema_version = "1.0";
  avg_confidence = percent 95;
  fields =
      record {
        name = "total";
        confidence = percent 95;
        status = extracted;
        body = money_body (some (pos 27800)) (some "IDR");
        place = some (record { x1 = pos 10; y1 = pos 20; x2 = pos 90; y2 = pos 40 }, pos 1);
      }
      ∷ [];
  issues = [];
}

abbrev answered : Document
answered = record document { status = completed; result = some read_result }

response_for_total_example :
    (m : GetDocumentResponse) × (response_for key answered ≡ ok m)
    × (m.status ≡ document_status_completed)
    × Details completed answered m
unfolding assign_int
response_for_total_example =
    response_for_total key answered ((refl, (refl, refl, refl, refl, refl)), tt)

-- ===== src/Examples/Stores.antt =====
-- The theorems on the tables, the publisher and the settings, on concrete rows.
use ocr.Base.{ℕ, zero, suc, ◌≡◌, refl, ◌≢◌, false, not, none, some, List, [], ◌∷◌, map, arith}
use ocr.Base.Tests.{nat_eq, string_eq}
use ocr.Base.Lists.{All, length}
use ocr.Store.Table.{any_row}
use ocr.Store.Rows.{Document, Envelope, failed, Db}
use ocr.Store.Documents.{
  submit_document, get_document, get_idempotent_document, queued_document, list_expired_documents,
  purge_document_results, mark_processing, Finish, finish_document, committed,
}
use ocr.Store.Outbox.{claim_pending_outbox, select_pending, has_event_id, reclaim_abandoned_outbox}
use ocr.Store.Outbox.Claims.{IsSettled}
use ocr.Store.Submit.{submit_accepted}
use ocr.Store.Submit.Again.{submit-again}
use ocr.Store.Steps.{StoreReach, here, next, submit, start, finish, reclaim}
use ocr.Store.Atomicity.{IsConsistent, StoreReach-IsConsistent}
use ocr.Store.Retention.{list_expired_documents-starved}
use ocr.Events.Envelope.{build_envelope, is_present, build_envelope_exclusive}
use ocr.Events.Publisher.{message, poll_once}
use ocr.Events.Publisher.Delivery.{poll_once_lem, poll_once-never_again}
use ocr.Events.Publisher.Retry.{IsKept, poll_once-Waits}
use ocr.Settings.{baidu_aistudio, problems}
use ocr.Settings.Validity.{IsUsable, IsReachable, problems-nil}
use ocr.Examples.Installation.{host, settings}
use ocr.Examples.Data.{
  column_key, empty_db, submission, document, envelope, event, event_db, losing,
}

submit_accepted_example :
    (get_idempotent_document column_key (submit_document (submission 1) 5 empty_db).1
      ≡ some (queued_document (submission 1) 5))
    × (get_document 1 (submit_document (submission 1) 5 empty_db).1
        ≡ some (queued_document (submission 1) 5))
unfolding submit_document
submit_accepted_example = submit_accepted (submission 1) 5 empty_db refl

-- A document that was queued, started and finished.
abbrev pub outcome : Finish
outcome = record {
  status = failed;
  result = none;
  avg_confidence = none;
  error_code = some "INTERNAL";
  error_message = some "broken";
  payload = envelope;
  topic = "document.processed";
  trace_id = none;
}

abbrev finished_db : Db
finished_db =
    committed
      (finish_document 1 outcome 71 20
        (mark_processing 1 10 (submit_document (submission 1) 5 empty_db).1))
      (mark_processing 1 10 (submit_document (submission 1) 5 empty_db).1)

finished : StoreReach empty_db finished_db
finished =
    next (next (next here (submit (submission 1) 5 refl)) (start 1 10))
      (finish 1 outcome 71 20 refl)

StoreReach-IsConsistent_example : IsConsistent finished_db
StoreReach-IsConsistent_example = StoreReach-IsConsistent finished

-- The key of that document, once more.
since : StoreReach (submit_document (submission 1) 5 empty_db).1 finished_db
since = next (next here (start 1 10)) (finish 1 outcome 71 20 refl)

submit-again_example : submit_document (submission 2) 30 finished_db ≡ (false, finished_db)
unfolding submit_document since
submit-again_example =
    submit-again (submission 1) (submission 2) 5 30 empty_db finished_db refl since ((tt, tt), tt)
      refl

-- A hundred documents that were processed at time 1.
abbrev expired : ℕ → List Document
expired zero = []
expired (suc n) = record document { id = n; processed_at = some 1 } ∷ expired n

abbrev full_db : Db
full_db = record { documents = expired 100; outbox = [] }

list_expired_documents-starved_example :
    list_expired_documents 9 (purge_document_results (list_expired_documents 5 full_db) 8 full_db)
    ≡ list_expired_documents 5 full_db
list_expired_documents-starved_example =
    list_expired_documents-starved 5 9 8 full_db (omega arith) (omega arith)

abbrev published_db : Db
published_db = record { documents = []; outbox = record event { published_at = some 3 } ∷ [] }

poll_once_lem_example :
    let rows = (claim_pending_outbox "w" 10 50 event_db).0 in
    let p = poll_once losing "document.processed" (λ i. 60) "w" 10 50 event_db in
    (1 ≡ length rows)
    × (p.sent ≡ map (message "document.processed") rows)
    × All (λ r. IsSettled r.id p.db.outbox) rows
unfolding poll_once claim_pending_outbox select_pending
poll_once_lem_example =
    poll_once_lem losing "document.processed" (λ i. 60) "w" 10 1 50 event_db refl

abbrev ticked_db : Db
ticked_db = (poll_once losing "document.processed" (λ i. 60) "w" 10 50 event_db).db

abbrev released_db : Db
released_db = (reclaim_abandoned_outbox 70 ticked_db).1

released : StoreReach ticked_db released_db
released = next here (reclaim 70)

poll_once-never_again_example :
    any_row (has_event_id 71) (claim_pending_outbox "v" 10 80 released_db).0 ≡ false
unfolding poll_once claim_pending_outbox select_pending released
poll_once-never_again_example =
    poll_once-never_again losing "document.processed" (λ i. 60) "w" 10 1 50 event_db released_db 71
      "v" 10 80 refl refl released (tt, tt)

poll_once-Waits_example :
    IsKept losing "document.processed"
      (λ i. 60)
      90000000
      71
      (claim_pending_outbox "w" 10 50 event_db).0
      (poll_once losing "document.processed" (λ i. 60) "w" 10 50 event_db)
poll_once-Waits_example =
    poll_once-Waits losing "document.processed" (λ i. 60) "w" 10 50 90000000 71 event event_db
      (omega arith) refl refl

abbrev failed_envelope : Envelope
failed_envelope =
    build_envelope document failed none (some (record { code = "INTERNAL"; message = "" })) 70 20

build_envelope_exclusive_example :
    (is_present failed_envelope.payload ≡ not (is_present failed_envelope.error))
    × (failed_envelope.payload ≢ some none)
build_envelope_exclusive_example =
    build_envelope_exclusive document failed none
      (some (record { code = "INTERNAL"; message = "" })) 70 20 refl (λ e h. ground arith)
      (λ h. absurd (h refl))

problems-nil_example :
    IsUsable host settings × (settings.provider ≡ baidu_aistudio → IsReachable host settings)
unfolding problems
problems-nil_example = problems-nil host settings refl

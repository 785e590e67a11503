-- ===== src/Store/Atomicity.antt =====
-- Result and event commit together: `finish_document` (src/ocr_engine/repo/store.py) among all the
-- other writes of the database.
use ocr.Base.{◌≡◌, refl, ◌∙◌, Bool, true, false, not, ◌&&◌, List, [], ◌∷◌, ◌++◌, arith, inl, inr}
use ocr.Base.Tests.{nat_eq, Bool-cases}
use ocr.Base.Lists.{All, keep, contains}
use ocr.Store.Table.{any_row, update_where}
use ocr.Store.Table.Lemmas.{any_row-append, any_row-update_where}
use ocr.Store.Rows.{Uuid, Time, is_terminal, processing, Envelope, Document, OutboxEvent, Db}
use ocr.Pipeline.Outcome.{Outcome, ok, raise}
use ocr.Store.Documents.{
  Submission, conflicts, queued_document, has_id, submit_document, mark_processing, is_queued,
  Finish, finish_row, outbox_row, json_dumps, write_outcome, finish_document, committed,
  delete_document, purge_document_results,
}
use ocr.Store.Outbox.{
  is_null, is_selected, claim_row, has_event_id, published_row, defer_row, is_abandoned,
  release_row, claim_pending_outbox, select_pending, mark_published, defer_outbox_event,
  reclaim_abandoned_outbox,
}
use ocr.Store.Steps.{
  is_about, StoreStep, submit, start, finish, roll_back, purge, claim, publish, defer, reclaim,
  StoreReach, here, next,
}

-- The document has an outcome, a `processed_at` and an event in the outbox, or none of the three.
abbrev pub Agrees : List OutboxEvent → Document → Type 0
Agrees outbox d =
    (any_row (is_about d.id) outbox ≡ is_terminal d.status)
    × (is_null d.processed_at ≡ not (is_terminal d.status))

abbrev pub IsConsistent : Db → Type 0
IsConsistent db = All (Agrees db.outbox) db.documents

-- An update of the outbox that keeps what the events are about.
All-Agrees-outbox :
    (p : OutboxEvent → Bool) (f : OutboxEvent → OutboxEvent)
    → ((i : Uuid) (e : OutboxEvent) → is_about i (f e) ≡ is_about i e)
    → (outbox : List OutboxEvent) (docs : List Document) → All (Agrees outbox) docs
    → All (Agrees (update_where p f outbox)) docs
All-Agrees-outbox p f h outbox [] a = tt
All-Agrees-outbox p f h outbox (d ∷ docs) a = (
  (any_row-update_where (is_about d.id) p f (h d.id) outbox ∙ a.0.0, a.0.1),
  All-Agrees-outbox p f h outbox docs a.1,
)

-- An update of the documents that keeps each one's agreement.
All-update_where :
    (P : Document → Type 0) (p : Document → Bool) (f : Document → Document)
    → ((d : Document) → p d ≡ true → P d → P (f d))
    → (docs : List Document) → All P docs
    → All P (update_where p f docs)
All-update_where P p f h [] a = tt
All-update_where P p f h (d ∷ docs) a = elim (Bool-cases (p d)) [
  | inl e ↦ rw e (h d e a.0, All-update_where P p f h docs a.1)
  | inr e ↦ rw e (a.0, All-update_where P p f h docs a.1)
]

All-keep :
    (P : Document → Type 0) (p : Document → Bool) (docs : List Document)
    → All P docs
    → All P (keep p docs)
All-keep P p [] a = tt
All-keep P p (d ∷ docs) a = elim (Bool-cases (p d)) [
  | inl e ↦ rw e (a.0, All-keep P p docs a.1)
  | inr e ↦ rw e (All-keep P p docs a.1)
]

All-append_one :
    (P : Document → Type 0) (docs : List Document) (d : Document)
    → All P docs
    → P d
    → All P (docs ++ (d ∷ []))
All-append_one P [] d a p = (p, tt)
All-append_one P (x ∷ docs) d a p = (a.0, All-append_one P docs d a.1 p)

submit-IsConsistent :
    (s : Submission) (now : Time) (db : Db)
    → any_row (is_about s.document_id) db.outbox ≡ false
    → IsConsistent db
    → IsConsistent (submit_document s now db).1
unfolding submit_document
submit-IsConsistent s now db fresh a = elim (Bool-cases (any_row (conflicts s) db.documents)) [
  | inl old ↦ rw old a
  | inr new ↦
      rw new
        (All-append_one (Agrees db.outbox) db.documents (queued_document s now) a (fresh, refl))
]

finish-Agrees :
    (i : Uuid) (f : Finish) (event_row : Uuid) (now : Time) (outbox : List OutboxEvent)
    → is_terminal f.status ≡ true
    → (docs : List Document) → All (Agrees outbox) docs
    → All
        (Agrees (outbox ++ (outbox_row i f event_row now ∷ [])))
        (update_where (has_id i) (finish_row f now) docs)
finish-Agrees i f event_row now outbox t [] a = tt
finish-Agrees i f event_row now outbox t (d ∷ docs) a = (
  ground (arith, any_row-append (is_about d.id) outbox (outbox_row i f event_row now ∷ [])),
  finish-Agrees i f event_row now outbox t docs a.1,
)

-- The transaction, whether it commits or is rolled back.
write_outcome-IsConsistent :
    (o : Outcome Envelope) (i : Uuid) (f : Finish) (event_row : Uuid) (now : Time) (db : Db)
    → is_terminal f.status ≡ true
    → IsConsistent db
    → IsConsistent (committed (write_outcome o i f event_row now db) db)
write_outcome-IsConsistent (raise e) i f event_row now db outcome a = a
write_outcome-IsConsistent (ok payload) i f event_row now db outcome a =
    finish-Agrees i f event_row now db.outbox outcome db.documents a

-- Every write of the database keeps the invariant.
StoreStep-IsConsistent : {t u : Db} → StoreStep t u → IsConsistent t → IsConsistent u
unfolding mark_processing finish_document delete_document purge_document_results
    claim_pending_outbox mark_published defer_outbox_event reclaim_abandoned_outbox
StoreStep-IsConsistent {t} (submit s now fresh) a = submit-IsConsistent s now t fresh a
StoreStep-IsConsistent {t} (start i now) a =
    All-update_where (Agrees t.outbox) (λ d. has_id i d && is_queued d.status)
      (λ d. record d { status = processing; updated_at = now }) (λ d e p. ground arith) t.documents
      a
StoreStep-IsConsistent {t} (finish i f event_row now outcome) a =
    write_outcome-IsConsistent (json_dumps f.payload.idempotency_key f.payload) i f event_row now t
      outcome a
StoreStep-IsConsistent {t} (roll_back i) a =
    All-keep (Agrees t.outbox) (λ d. not (has_id i d)) t.documents a
StoreStep-IsConsistent {t} (purge ids now) a =
    All-update_where (Agrees t.outbox) (λ d. contains ids d.id) _ (λ d e p. p) t.documents a
StoreStep-IsConsistent {t} (claim worker batch now) a =
    All-Agrees-outbox (is_selected (select_pending now batch t.outbox)) (claim_row worker now)
      (λ i e. refl) t.outbox t.documents a
StoreStep-IsConsistent {t} (publish i now) a =
    All-Agrees-outbox (has_event_id i) (published_row now) (λ i e. refl) t.outbox t.documents a
StoreStep-IsConsistent {t} (defer i error now) a =
    All-Agrees-outbox (has_event_id i) (defer_row error now) (λ i e. refl) t.outbox t.documents a
StoreStep-IsConsistent {t} (reclaim older_than) a =
    All-Agrees-outbox (is_abandoned older_than) release_row (λ i e. refl) t.outbox t.documents a

-- Whatever the processes write, in any order: from an empty database, a document has an outcome
-- exactly if the outbox holds an event about it, and exactly if its `processed_at` is set.
pub StoreReach-IsConsistent :
    {db : Db} → StoreReach (record { documents = []; outbox = [] }) db → IsConsistent db
StoreReach-IsConsistent here = tt
StoreReach-IsConsistent (next r s) = StoreStep-IsConsistent s (StoreReach-IsConsistent r)

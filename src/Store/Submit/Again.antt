-- ===== src/Store/Submit/Again.antt =====
-- What becomes of an idempotency key once `submit_document` (src/ocr_engine/repo/store.py) has
-- accepted it, while the processes go on to write.
use ocr.Base.{◌≡◌, ◌≢◌, refl, ◌∙◌, Bool, true, false, not, ◌&&◌, List, [], ◌∷◌, arith, inl, inr}
use ocr.Base.Tests.{nat_eq, Bool-cases}
use ocr.Base.Lists.{keep, contains}
use ocr.Store.Table.{any_row}
use ocr.Store.Table.Lemmas.{any_row-append, any_row-update_where}
use ocr.Store.Rows.{Uuid, Key, key_eq, key_eq_refl, Time, Envelope, Document, processing, Db}
use ocr.Pipeline.Outcome.{Outcome, ok, raise}
use ocr.Store.Documents.{
  Submission, has_id, is_queued, conflicts, queued_document, submit_document, mark_processing,
  Finish, finish_row, json_dumps, write_outcome, finish_document, committed, purge_row,
  delete_document, purge_document_results,
}
use ocr.Store.Outbox.{
  claim_pending_outbox, mark_published, defer_outbox_event, reclaim_abandoned_outbox,
}
use ocr.Store.Steps.{
  StoreStep, submit, start, finish, roll_back, purge, claim, publish, defer, reclaim, StoreReach,
  here, next,
}
use ocr.Store.Submit.{has_key, has_key-conflicts}

-- The writes do not delete the row: none of them is the servicer's `_rollback` of it.
abbrev pub Keeps : {t u : Db} → Uuid → StoreStep t u → Type 0
Keeps i (roll_back j) = j ≢ i
Keeps i _ = Unit

abbrev pub AllKeep : {t u : Db} → Uuid → StoreReach t u → Type 0
AllKeep i here = Unit
AllKeep i (next r s) = AllKeep i r × Keeps i s

-- The row of a submission, by its two unique columns.
abbrev is_row : Uuid → Key → Document → Bool
is_row i k d = has_id i d && has_key k d

any_row-keep :
    (q p : Document → Bool) (rows : List Document)
    → ((d : Document) → q d ≡ true → p d ≡ true)
    → any_row q rows ≡ true
    → any_row q (keep p rows) ≡ true
any_row-keep q p [] h any = any
any_row-keep q p (d ∷ rows) h any = ground (arith, h d, any_row-keep q p rows h)

any_row-weaken :
    (p q : Document → Bool) (rows : List Document)
    → ((d : Document) → p d ≡ true → q d ≡ true)
    → any_row p rows ≡ true
    → any_row q rows ≡ true
any_row-weaken p q [] h any = any
any_row-weaken p q (d ∷ rows) h any = ground (arith, h d, any_row-weaken p q rows h)

module _ (i : Uuid) (k : Key) where
  abbrev HasRow : Db → Type 0
  HasRow db = any_row (is_row i k) db.documents ≡ true

  submit-HasRow :
      (s : Submission) (now : Time) (db : Db) → HasRow db → HasRow (submit_document s now db).1
  unfolding submit_document
  submit-HasRow s now db h = elim (Bool-cases (any_row (conflicts s) db.documents)) [
    | inl old ↦ rw old h
    | inr new ↦
        rw (new, any_row-append (is_row i k) db.documents (queued_document s now ∷ []), h) refl
  ]

  write_outcome-HasRow :
      (o : Outcome Envelope) (j : Uuid) (f : Finish) (event_row : Uuid) (now : Time) (db : Db)
      → HasRow db
      → HasRow (committed (write_outcome o j f event_row now db) db)
  write_outcome-HasRow (raise e) j f event_row now db h = h
  write_outcome-HasRow (ok payload) j f event_row now db h =
      any_row-update_where (is_row i k) (has_id j) (finish_row f now) (λ d. refl) db.documents ∙ h

  StoreStep-HasRow : {t u : Db} (s : StoreStep t u) → Keeps i s → HasRow t → HasRow u
  unfolding mark_processing finish_document delete_document purge_document_results
      claim_pending_outbox mark_published defer_outbox_event reclaim_abandoned_outbox
  StoreStep-HasRow {t} (submit s now fresh) keeps h = submit-HasRow s now t h
  StoreStep-HasRow {t} (start j now) keeps h =
      any_row-update_where (is_row i k) (λ d. has_id j d && is_queued d.status)
        (λ d. record d { status = processing; updated_at = now }) (λ d. refl) t.documents
      ∙ h
  StoreStep-HasRow {t} (finish j f event_row now outcome) keeps h =
      write_outcome-HasRow (json_dumps f.payload.idempotency_key f.payload) j f event_row now t h
  StoreStep-HasRow {t} (roll_back j) keeps h =
      any_row-keep (is_row i k) (λ d. not (has_id j d)) t.documents (λ d q. ground (arith, keeps)) h
  StoreStep-HasRow {t} (purge ids now) keeps h =
      any_row-update_where (is_row i k) (λ d. contains ids d.id) (purge_row now) (λ d. refl)
        t.documents
      ∙ h
  StoreStep-HasRow (claim worker batch now) keeps h = h
  StoreStep-HasRow (publish j now) keeps h = h
  StoreStep-HasRow (defer j error now) keeps h = h
  StoreStep-HasRow (reclaim older_than) keeps h = h

  StoreReach-HasRow : {t u : Db} (r : StoreReach t u) → AllKeep i r → HasRow t → HasRow u
  StoreReach-HasRow here keeps h = h
  StoreReach-HasRow (next r s) keeps h = StoreStep-HasRow s keeps.1 (StoreReach-HasRow r keeps.0 h)

accepted-HasRow :
    (s : Submission) (now : Time) (db : Db)
    → (submit_document s now db).0 ≡ true
    → HasRow s.document_id s.idempotency_key (submit_document s now db).1
unfolding submit_document
accepted-HasRow s now db h = elim (Bool-cases (any_row (conflicts s) db.documents)) [
  | inl old ↦ ground arith
  | inr new ↦
      rw
        (
          new,
          any_row-append (is_row s.document_id s.idempotency_key) db.documents
              (queued_document s now ∷ []),
        )
        (ground (arith, key_eq_refl s.idempotency_key))
]

-- Once a submission has been accepted, and whatever the processes have written since, but for a
-- rollback of its own row: every submission with its idempotency key is refused and changes
-- nothing.
pub submit-again :
    (s t : Submission) (now later : Time) (db reached : Db)
    → (submit_document s now db).0 ≡ true
    → (r : StoreReach (submit_document s now db).1 reached) → AllKeep s.document_id r
    → t.idempotency_key ≡ s.idempotency_key
    → submit_document t later reached ≡ (false, reached)
unfolding submit_document
submit-again s t now later db reached accepted r keeps same =
    let held =
      StoreReach-HasRow s.document_id s.idempotency_key r keeps
        (accepted-HasRow s now db accepted) in
    let known =
      any_row-weaken (is_row s.document_id s.idempotency_key) (has_key s.idempotency_key)
        reached.documents (λ d q. ground arith) held in
    rw (has_key-conflicts t reached.documents (rw same known)) refl

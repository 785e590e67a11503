-- ===== src/Api/Servicer/Submit.antt =====
-- `SubmitDocument` (src/ocr_engine/api/servicer.py): all or nothing, and once for each key.
use ocr.Base.{
  ◌≡◌, refl, ap, String, Bool, true, false, not, ◌⊎◌, inl, inr, Option, none, some, List, [], ◌∷◌,
  ◌++◌, arith,
}
use ocr.Base.Tests.{Bool-cases}
use ocr.Base.Lists.{keep}
use ocr.Store.Table.{any_row}
use ocr.Store.Rows.{Key, Time, Document, Db}
use ocr.Store.Documents.{
  Submission, conflicts, has_id, queued_document, submit_document, get_document,
  get_idempotent_document, delete_document,
}
use ocr.Store.Submit.{conflicts-has_id, submit_accepted}
use ocr.Pipeline.Outcome.{Outcome, ok, raise}
use ocr.Api.Request.{SubmitDocumentRequest, SubmitDocumentResponse, document_status_queued}
use ocr.Api.Servicer.{
  Reply, response, Api, Servicer, Call, with_db, submission, validate, enqueue, after_submit,
  submit_key, submit_valid, handle_submit, already,
}

-- Deleting the row that was appended, if no other has its id.
keep-append_one :
    (s : Document) (rows : List Document)
    → any_row (has_id s.id) rows ≡ false
    → keep (λ d. not (has_id s.id d)) (rows ++ (s ∷ [])) ≡ rows
keep-append_one s [] h = ground (arith)
keep-append_one s (d ∷ rows) h = ground (arith, keep-append_one s rows)

-- A refused submission changes nothing.
submit_refused :
    (s : Submission) (now : Time) (db : Db)
    → (submit_document s now db).0 ≡ false
    → (submit_document s now db).1 ≡ db
unfolding submit_document
submit_refused s now db h = elim (Bool-cases (any_row (conflicts s) db.documents)) [
  | inl old ↦ rw old refl
  | inr new ↦ ground arith
]

delete-submit :
    (s : Submission) (now : Time) (db : Db)
    → (submit_document s now db).0 ≡ true
    → delete_document s.document_id (submit_document s now db).1 ≡ db
unfolding submit_document delete_document
delete-submit s now db h = elim (Bool-cases (any_row (conflicts s) db.documents)) [
  | inl old ↦ ground arith
  | inr new ↦
      rw
        (
          new,
          keep-append_one (queued_document s now) db.documents
              (conflicts-has_id s db.documents new),
        )
        refl
]

module _ (s : Servicer) (c : Call) where
  -- The call is answered, and there is a queued row and one job for it.
  abbrev pub IsAccepted : SubmitDocumentRequest → Api → Reply SubmitDocumentResponse × Api → Type 0
  IsAccepted request before (reply, after) =
      (key : Key) × (reply
        ≡ response
            (record { document_id = s.uuid_text c.document_id; status = document_status_queued }))
      × (s.key_column request.idempotency_key ≡ ok key)
      × (get_document c.document_id after.world.db
          ≡ some (queued_document (submission s c request key) c.now))
      × (get_idempotent_document key after.world.db
          ≡ some (queued_document (submission s c request key) c.now))
      × (after.queue ≡ before.queue ++ (c.document_id ∷ []))

  -- The caller gets no response.
  abbrev pub IsRefusal : Reply SubmitDocumentResponse → Type 0
  IsRefusal (response r) = ⊥
  IsRefusal _ = Unit

  -- The call is refused, and the tables and the queue are as they were, up to what other processes
  -- write.
  abbrev pub IsUntouched : Api → Reply SubmitDocumentResponse × Api → Type 0
  IsUntouched before (reply, after) =
      IsRefusal reply
      × (after.queue ≡ before.queue)
      × ((after.world.db ≡ before.world.db) ⊎ (after.world.db ≡ c.between before.world.db))

  -- What `submit_document` promises of the pair that it returns.
  abbrev Promise : SubmitDocumentRequest → Key → Db → Bool × Db → Type 0
  Promise request key before (false, after) = after ≡ before
  Promise request key before (true, after) =
      (delete_document c.document_id after ≡ before)
      × (get_document c.document_id after
          ≡ some (queued_document (submission s c request key) c.now))
      × (get_idempotent_document key after
          ≡ some (queued_document (submission s c request key) c.now))

  submit_document-Promise :
      (request : SubmitDocumentRequest) (key : Key) (db : Db) (inserted : Bool)
      → let p = submit_document (submission s c request key) c.now db in
        p.0 ≡ inserted → Promise request key db (inserted, p.1)
  submit_document-Promise request key db false h =
      submit_refused (submission s c request key) c.now db h
  submit_document-Promise request key db true h =
      let (by_key, by_id) = submit_accepted (submission s c request key) c.now db h in
      (delete-submit (submission s c request key) c.now db h, by_id, by_key)

  already-IsUntouched :
      (o : Option Document) (before a : Api)
      → (a.queue ≡ before.queue)
        × ((a.world.db ≡ before.world.db) ⊎ (a.world.db ≡ c.between before.world.db))
      → IsUntouched before (already s c o a)
  already-IsUntouched none before a h = (tt, h.0, h.1)
  already-IsUntouched (some doc) before a h = (tt, h.0, h.1)

  enqueue_lem :
      (request : SubmitDocumentRequest) (key : Key) (a : Api) (db : Db) (fault : Bool)
      → c.rollback_fault ≡ false
      → s.key_column request.idempotency_key ≡ ok key
      → Promise request key a.world.db (true, db)
      → let ending = enqueue s c fault (with_db (λ _. db) a) in
        IsAccepted request a ending ⊎ IsUntouched a ending
  enqueue_lem request key a db true quiet column (restored, _, _) =
      inr (rw quiet (tt, refl, inl restored))
  enqueue_lem request key a db false quiet column (_, by_id, by_key) =
      inl (key, refl, column, by_id, by_key, refl)

  after_submit_lem :
      (request : SubmitDocumentRequest) (key : Key) (a : Api) (p : Bool × Db)
      → c.rollback_fault ≡ false
      → s.key_column request.idempotency_key ≡ ok key
      → Promise request key a.world.db p
      → let ending = after_submit s c key p a in IsAccepted request a ending ⊎ IsUntouched a ending
  unfolding after_submit
  after_submit_lem request key a (false, db) quiet column same = inr (
      already-IsUntouched (get_idempotent_document key (c.between db)) a _
        (refl, inr (ap c.between same)))
  after_submit_lem request key a (true, db) quiet column promise =
      enqueue_lem request key a db c.enqueue_fault quiet column promise

  submit_key_lem :
      (request : SubmitDocumentRequest) (o : Outcome Key) (a : Api)
      → c.rollback_fault ≡ false
      → s.key_column request.idempotency_key ≡ o
      → let ending = submit_key s c request o a in
        IsAccepted request a ending ⊎ IsUntouched a ending
  unfolding submit_key
  submit_key_lem request (raise e) a quiet column = inr (tt, refl, inl refl)
  submit_key_lem request (ok key) a quiet column =
      after_submit_lem request key a _ quiet column
        (submit_document-Promise request key a.world.db _ refl)

  submit_valid_lem :
      (request : SubmitDocumentRequest) (o : Option String) (a : Api)
      → c.rollback_fault ≡ false
      → let ending = submit_valid s c request o a in
        IsAccepted request a ending ⊎ IsUntouched a ending
  unfolding submit_valid
  submit_valid_lem request (some message) a quiet = inr (tt, refl, inl refl)
  submit_valid_lem request none a quiet =
      submit_key_lem request (s.key_column request.idempotency_key) a quiet refl

  -- Unless the database fails in a rollback: a submission is either accepted, with its row queued,
  -- found by its id and by its key, and one job in the queue; or it gets no response, and neither
  -- the queue nor, but for what other processes write, the database is changed, whatever the queue
  -- or the check did.
  pub handle_submit_lem :
      (request : SubmitDocumentRequest) (a : Api)
      → c.rollback_fault ≡ false
      → IsAccepted request a (handle_submit s c request a)
        ⊎ IsUntouched a (handle_submit s c request a)
  unfolding handle_submit
  handle_submit_lem request a quiet = submit_valid_lem request (validate s c request) a quiet

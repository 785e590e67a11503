-- ===== src/Store/Submit.antt =====
-- Idempotency of `submit_document` (src/ocr_engine/repo/store.py): the unique key admits one row.
pub mod Again
use ocr.Base.{◌≡◌, refl, String, Bool, true, false, some, List, [], ◌∷◌, arith, inl, inr, eq_iff}
use ocr.Base.Tests.{◌==◌, nat_eq, string_eq, Bool-cases}
use ocr.Store.Table.{any_row}
use ocr.Store.Table.Lemmas.{any_row-append, find_row-append_none}
use ocr.Store.Rows.{Key, key_eq, key_eq_refl, Time, Document, Db}
use ocr.Store.Documents.{
  Submission, queued_document, conflicts, has_id, submit_document, get_idempotent_document,
  get_document,
}

abbrev pub has_key : Key → Document → Bool
has_key k d = d.idempotency_key == k

conflicts-has_key :
    (s : Submission) (rows : List Document)
    → any_row (conflicts s) rows ≡ false
    → any_row (has_key s.idempotency_key) rows ≡ false
conflicts-has_key s [] h = refl
conflicts-has_key s (d ∷ rows) h = ground (arith, conflicts-has_key s rows)

pub conflicts-has_id :
    (s : Submission) (rows : List Document)
    → any_row (conflicts s) rows ≡ false
    → any_row (has_id s.document_id) rows ≡ false
conflicts-has_id s [] h = refl
conflicts-has_id s (d ∷ rows) h = ground (arith, conflicts-has_id s rows)

-- A row with the key conflicts with every submission of that key.
pub has_key-conflicts :
    (s : Submission) (rows : List Document)
    → any_row (has_key s.idempotency_key) rows ≡ true
    → any_row (conflicts s) rows ≡ true
has_key-conflicts s [] h = ground arith
has_key-conflicts s (d ∷ rows) h = ground (arith, has_key-conflicts s rows)

-- What a submission that was accepted leaves: the queued row, found by its key and by its id.
pub submit_accepted :
    (s : Submission) (now : Time) (db : Db)
    → (submit_document s now db).0 ≡ true
    → (get_idempotent_document s.idempotency_key (submit_document s now db).1
        ≡ some (queued_document s now))
      × (get_document s.document_id (submit_document s now db).1 ≡ some (queued_document s now))
unfolding submit_document get_idempotent_document get_document
submit_accepted s now db h = elim (Bool-cases (any_row (conflicts s) db.documents)) [
  | inl old ↦ ground arith
  | inr new ↦
      rw
        (
          new,
          find_row-append_none (has_key s.idempotency_key) db.documents _
              (conflicts-has_key s db.documents new),
          find_row-append_none (has_id s.document_id) db.documents _
              (conflicts-has_id s db.documents new),
        )
        (ground (arith, key_eq_refl s.idempotency_key))
]

-- ===== src/Api/Servicer/Calls/Cancel.antt =====
-- `_mark_cancelled` (src/ocr_engine/api/servicer.py), which swallows whatever is raised.
use mathlib.Core.Path.{subst}
use ocr.Base.{◌≡◌, refl, sym, false, none, some}
use ocr.Base.Tests.{nat_beq_iff}
use ocr.Store.Table.Lemmas.{find_row_sound}
use ocr.Store.Rows.{Key, uuid_key, text_key, failed, Document, Db}
use ocr.Store.Documents.{has_id, get_document, finish_row, outbox_row, finish_document, committed}
use ocr.Store.Finish.{finish_document-text_key, finish_document-uuid_key}
use ocr.Events.Envelope.{build_envelope}
use ocr.Pipeline.Process.Verdict.{IsConcluded}
use ocr.Pipeline.Process.Written.{get_document-finish_row}
use ocr.Api.Servicer.{Servicer, Call}
use ocr.Api.Servicer.Calls.{mark_cancelled, cancellation}

module _ (s : Servicer) (c : Call) where
  -- What the mark has done, by the key of the row: a failure under `INTERNAL` with its event, or
  -- nothing.
  abbrev pub IsMarked : Key → Db → Db → Type 0
  IsMarked (text_key t) before after =
      IsConcluded c.document_id failed none (some "INTERNAL") c.cancelled_at before after
  IsMarked (uuid_key k) before after = after ≡ before

  finish-IsMarked :
      (k : Key) (doc : Document) (db : Db)
      → doc.idempotency_key ≡ k
      → get_document c.document_id db ≡ some doc
      → doc.id ≡ c.document_id
      → IsMarked k db (
          committed
            (finish_document c.document_id
              (cancellation s c doc)
              c.cancel_event_row
              c.cancelled_at
              db)
            db)
  unfolding build_envelope get_document
  finish-IsMarked (uuid_key k) doc db key found same =
      rw
        (finish_document-uuid_key c.document_id (cancellation s c doc) c.cancel_event_row
          c.cancelled_at db k key)
        refl
  finish-IsMarked (text_key t) doc db key found same =
      let f = cancellation s c doc in
      subst
        (λ o.
          IsConcluded c.document_id failed none (some "INTERNAL") c.cancelled_at db
            (committed o db))
        (sym (finish_document-text_key c.document_id f c.cancel_event_row c.cancelled_at db t key))
        (
          finish_row f c.cancelled_at doc,
          outbox_row c.document_id f c.cancel_event_row c.cancelled_at,
          get_document-finish_row c.document_id f c.cancelled_at db doc same found,
          refl,
          (refl, refl, refl, refl),
          (refl, refl, refl, refl, same, refl, refl),
        )

  -- On a row that is found, in a database that raises nothing of its own: for a key that is a
  -- `str`, the row becomes a failure under `INTERNAL`, with a new event that says so, whatever its
  -- status was, also if it was an outcome already; for a key that is a `uuid.UUID`, nothing is
  -- written at all.
  pub mark_cancelled_lem :
      (doc : Document) (db : Db)
      → get_document c.document_id db ≡ some doc
      → c.cancel_fault ≡ false
      → IsMarked doc.idempotency_key db (mark_cancelled s c db)
  unfolding mark_cancelled get_document
  mark_cancelled_lem doc db found quiet =
      let same =
        (nat_beq_iff doc.id c.document_id).0
          (find_row_sound (has_id c.document_id) db.documents doc found) in
      rw (found, quiet) (finish-IsMarked doc.idempotency_key doc db refl found same)

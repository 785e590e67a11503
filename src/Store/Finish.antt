-- ===== src/Store/Finish.antt =====
-- How `finish_document` (src/ocr_engine/repo/store.py) ends, by the key in the event's payload.
use ocr.Base.{◌≡◌, refl, [], ◌∷◌, ◌++◌}
use ocr.Store.Table.{update_where}
use ocr.Store.Rows.{Uuid, uuid_key, text_key, Time, Envelope, Db}
use ocr.Pipeline.Outcome.{Outcome, ok, raise}
use ocr.Store.Documents.{
  Finish, has_id, finish_row, outbox_row, type_error, json_dumps, write_outcome, finish_document,
}
use ocr.Base.{String}

module _ (i : Uuid) (f : Finish) (row : Uuid) (now : Time) (db : Db) where
  -- The database with the outcome and its event.
  abbrev pub finished : Db
  finished = record {
    documents = update_where (has_id i) (finish_row f now) db.documents;
    outbox = db.outbox ++ (outbox_row i f row now ∷ []);
  }

  -- A key that is a text: both tables are written.
  pub finish_document-text_key :
      (t : String)
      → f.payload.idempotency_key ≡ text_key t
      → finish_document i f row now db ≡ ok finished
  unfolding finish_document
  finish_document-text_key t key = rw key refl

  -- A key that is a `uuid.UUID`: the transaction raises.
  pub finish_document-uuid_key :
      (k : Uuid)
      → f.payload.idempotency_key ≡ uuid_key k
      → finish_document i f row now db ≡ raise type_error
  unfolding finish_document
  finish_document-uuid_key k key = rw key refl

  write_outcome-finished :
      (o : Outcome Envelope) (after : Db)
      → write_outcome o i f row now db ≡ ok after
      → after ≡ finished
  write_outcome-finished (ok payload) after h = cc h
  write_outcome-finished (raise e) after h = absurd (cc h)

  -- A transaction that returns has written both tables.
  pub finish_document-finished :
      (after : Db) → finish_document i f row now db ≡ ok after → after ≡ finished
  unfolding finish_document
  finish_document-finished after h =
      write_outcome-finished (json_dumps f.payload.idempotency_key f.payload) after h

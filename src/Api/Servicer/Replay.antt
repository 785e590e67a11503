-- ===== src/Api/Servicer/Replay.antt =====
-- A key that is known already: `SubmitDocument` of src/ocr_engine/api/servicer.py.
use ocr.Base.{◌≡◌, refl, ◌<>◌, false, none, some}
use ocr.Store.Table.Lemmas.{any_row_of_find_row}
use ocr.Store.Rows.{Key, Time, Document, Db}
use ocr.Store.Documents.{Submission, submit_document, get_idempotent_document}
use ocr.Store.Submit.{has_key, has_key-conflicts}
use ocr.Pipeline.Outcome.{ok}
use ocr.Api.Request.{SubmitDocumentRequest}
use ocr.Api.Servicer.{
  aborted, already_exists, Api, Servicer, Call, submission, validate, after_submit, submit_key,
  submit_valid, handle_submit,
}

pub submit_document-known :
    (s : Submission) (now : Time) (db : Db) (doc : Document)
    → get_idempotent_document s.idempotency_key db ≡ some doc
    → submit_document s now db ≡ (false, db)
unfolding submit_document get_idempotent_document
submit_document-known s now db doc found =
    rw
      (has_key-conflicts s db.documents
        (any_row_of_find_row (has_key s.idempotency_key) db.documents doc found))
      refl

module _ (s : Servicer) (c : Call) where
  -- A valid submission of a key that has a row, also after what other processes write in the
  -- meantime, is aborted with the id of that row; no row is inserted and no job is queued.
  pub handle_submit-known :
      (request : SubmitDocumentRequest) (key : Key) (a : Api) (old doc : Document)
      → validate s c request ≡ none
      → s.key_column request.idempotency_key ≡ ok key
      → get_idempotent_document key a.world.db ≡ some old
      → get_idempotent_document key (c.between a.world.db) ≡ some doc
      → let (reply, after) = handle_submit s c request a in
        (reply ≡ aborted already_exists ("document_id=" <> s.uuid_text doc.id))
        × (after.world.db ≡ c.between a.world.db)
        × (after.queue ≡ a.queue)
  unfolding handle_submit submit_valid submit_key after_submit
  handle_submit-known request key a old doc valid column known found =
      rw
        (
          valid,
          column,
          submit_document-known (submission s c request key) c.now a.world.db old known,
          found,
        )
        (refl, refl, refl)

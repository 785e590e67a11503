-- ===== src/Pipeline/Process/Written.antt =====
-- What the writes of an outcome (src/ocr_engine/pipeline/pipeline.py) come to, by the key of the row.
use ocr.Base.{◌≡◌, refl, sym, ap, ◌∙◌, String, ◌⊎◌, Option, none, some, [], ◌∷◌, ◌++◌, arith}
use ocr.Base.Tests.{nat_eq, nat_beq_iff}
use mathlib.Core.Path.{subst}
use ocr.Store.Finish.{finish_document-text_key, finish_document-uuid_key}
use ocr.Store.Table.{find_row, update_where}
use ocr.Store.Table.Lemmas.{find_row-update_where}
use ocr.Store.Rows.{
  Uuid, Key, uuid_key, text_key, Time, Status, processing, completed, needs_review, failed,
  Document, DocumentResult, Db,
}
use ocr.Store.Documents.{
  has_id, get_document, Finish, finish_row, outbox_row, finish_document, type_error,
}
use ocr.Events.Envelope.{build_envelope}
use ocr.Extraction.Validate.{to_dict}
use ocr.Pipeline.Outcome.{Outcome, ok, raise}
use ocr.Pipeline.Analysis.{PipelineCtx}
use ocr.Pipeline.Process.Verdict.{IsConcluded}
use ocr.Pipeline.Process.{Moment, failure, success}

pub get_document-finish_row :
    (i : Uuid) (f : Finish) (now : Time) (db : Db) (d : Document)
    → d.id ≡ i
    → get_document i db ≡ some d
    → find_row (has_id i) (update_where (has_id i) (finish_row f now) db.documents)
      ≡ some (finish_row f now d)
unfolding get_document
get_document-finish_row i f now db d same found =
    find_row-update_where (has_id i) (has_id i) (finish_row f now) (λ r. refl) db.documents d found
    ∙ rw ((nat_beq_iff d.id i).1 same) refl

-- What `finish_document` does with an event under such a key: it commits the outcome and the event,
-- or raises the `TypeError` of `json.dumps`.
abbrev pub Writes :
    Key → Uuid → Status → Option DocumentResult → Option String → Time → Db → Outcome Db → Type 0
Writes (text_key t) i status result error_code now before (ok after) =
    IsConcluded i status result error_code now before after
Writes (text_key t) i status result error_code now before (raise e) = ⊥
Writes (uuid_key k) i status result error_code now before o = o ≡ raise type_error

module _ (ctx : PipelineCtx) (at : Moment) where
  abbrev pub IsStarted : Document → Db → Type 0
  IsStarted doc db =
      (d : Document) × (get_document doc.id db ≡ some d) × (d.status ≡ processing) × (d.id ≡ doc.id)

  pub finish_document-failure :
      (k : Key) (doc : Document) (code message : String) (before db : Db)
      → doc.idempotency_key ≡ k
      → IsStarted doc db
      → db.outbox ≡ before.outbox
      → Writes k doc.id failed none
          (some code)
          at.ended
          before
          (finish_document doc.id (failure ctx at doc code message) at.failed_event_row at.ended db)
  unfolding build_envelope get_document
  finish_document-failure (uuid_key i) doc code message before db key start out =
      finish_document-uuid_key doc.id (failure ctx at doc code message) at.failed_event_row at.ended
        db i key
  finish_document-failure (text_key t) doc code message before db key (d, found, _, same) out =
      let f = failure ctx at doc code message in
      subst (Writes (text_key t) doc.id failed none (some code) at.ended before)
        (sym (finish_document-text_key doc.id f at.failed_event_row at.ended db t key))
        (
          finish_row f at.ended d,
          outbox_row doc.id f at.failed_event_row at.ended,
          get_document-finish_row doc.id f at.ended db d same found,
          ap (λ events. events ++ (outbox_row doc.id f at.failed_event_row at.ended ∷ [])) out,
          (refl, refl, refl, refl),
          (refl, refl, refl, refl, refl, refl, refl),
        )

  pub finish_document-success :
      (k : Key) (doc : Document) (r : DocumentResult) (status : Status) (before db : Db)
      → doc.idempotency_key ≡ k
      → (status ≡ completed) ⊎ (status ≡ needs_review)
      → IsStarted doc db
      → db.outbox ≡ before.outbox
      → Writes k doc.id status
          (some (to_dict ctx.tools.floats r))
          none
          at.ended
          before
          (finish_document doc.id (success ctx at doc r status) at.event_row at.ended db)
  unfolding build_envelope get_document
  finish_document-success (uuid_key i) doc r status before db key final start out =
      finish_document-uuid_key doc.id (success ctx at doc r status) at.event_row at.ended db i key
  finish_document-success (text_key t) doc r status before db key final (d, found, _, same) out =
      let f = success ctx at doc r status in
      subst
        (Writes (text_key t) doc.id status (some (to_dict ctx.tools.floats r)) none at.ended before)
        (sym (finish_document-text_key doc.id f at.event_row at.ended db t key))
        (
          finish_row f at.ended d,
          outbox_row doc.id f at.event_row at.ended,
          get_document-finish_row doc.id f at.ended db d same found,
          ap (λ events. events ++ (outbox_row doc.id f at.event_row at.ended ∷ [])) out,
          (refl, refl, refl, refl),
          (refl, refl, refl, refl, refl, ground (arith, final), ground (arith, final)),
        )

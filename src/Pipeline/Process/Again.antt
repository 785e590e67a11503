-- ===== src/Pipeline/Process/Again.antt =====
-- Redelivered jobs: a second run of `process_document` (src/ocr_engine/pipeline/pipeline.py).
use ocr.Base.{◌≡◌, refl, Bool, true, false, some, inl, inr}
use ocr.Base.Tests.{Option-cases}
use ocr.Store.Rows.{Uuid, Key, uuid_key, text_key, is_processable, Document}
use ocr.Store.Documents.{get_document}
use ocr.Pipeline.Outcome.{Outcome}
use ocr.Pipeline.Analysis.{PipelineCtx}
use ocr.Pipeline.Process.{Moment, World, Ended, returned, process_found, process_document}
use ocr.Pipeline.Process.Verdict.{Verdict, concluded, left}

-- The status of a verdict that is not left open is an outcome.
abbrev Concludes : Verdict → Type 0
Concludes (concluded end status result error_code) = is_processable status ≡ false
Concludes (left e) = Unit {0}

abbrev pub is_left : Verdict → Bool
is_left (concluded end status result error_code) = false
is_left (left e) = true

module _ (ctx : PipelineCtx) where
  -- A document that is missing, or that has an outcome, is left alone with everything else.
  pub process_document_skips :
      (at : Moment) (i : Uuid) (w : World)
      → ((doc : Document) → get_document i w.db ≡ some doc → is_processable doc.status ≡ false)
      → process_document ctx at i w ≡ (returned, w)
  unfolding process_document process_found
  process_document_skips at i w h = elim (Option-cases (get_document i w.db)) [
    | inl e ↦ rw e refl
    | inr (doc, e) ↦ rw (e, h doc e) refl
  ]

-- What a second run has done after a first one, by the key of the row.
abbrev pub Repeats : Key → World → Ended × World → Type 0
Repeats (text_key t) first second = second ≡ (returned, first)
Repeats (uuid_key k) first second = second.1.db ≡ first.db

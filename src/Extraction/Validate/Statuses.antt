-- ===== src/Extraction/Validate/Statuses.antt =====
-- The statuses that `build_result` (src/ocr_engine/extraction/validate.py) gives.
use ocr.Base.{◌≡◌, refl, ◌⊎◌, inl, inr, Bool, ◌||◌, Option, none, some, List}
use ocr.Base.Tests.{Bool-cases}
use ocr.Base.Float.{FloatOps}
use ocr.Store.Rows.{Status, completed, needs_review, DocumentResult}
use ocr.Extraction.Schema.{Schema}
use ocr.Extraction.Extract.{ExtractedField}
use ocr.Extraction.Validate.{Draft, build_result, finish_draft, with_blocking, has_issues, blocks}

abbrev pub HasResultStatus : Option (DocumentResult × Status) → Type 0
HasResultStatus none = Unit {0}
HasResultStatus (some (r, status)) = (status ≡ completed) ⊎ (status ≡ needs_review)

module _ (floats : FloatOps) where
  with_blocking-status : (d : Draft) (b : Option Bool) → HasResultStatus (with_blocking floats d b)
  unfolding with_blocking
  with_blocking-status d none = tt
  with_blocking-status d (some b) = elim (Bool-cases (b || has_issues floats d.issues)) [
    | inl e ↦ rw e (inr refl)
    | inr e ↦ rw e (inl refl)
  ]

  finish_draft-status :
      (schema : Schema) (o : Option (Draft)) → HasResultStatus (finish_draft floats schema o)
  unfolding finish_draft
  finish_draft-status schema none = tt
  finish_draft-status schema (some d) =
      with_blocking-status d (blocks floats schema.fields d.fields)

  -- A result comes with `completed` or `needs_review`.
  pub build_result-status :
      (schema : Schema) (items : List ExtractedField)
      → HasResultStatus (build_result floats schema items)
  unfolding build_result
  build_result-status schema items = finish_draft-status schema _

-- ===== src/Extraction/Validate/Outcome.antt =====
-- What `build_result` (src/ocr_engine/extraction/validate.py) decides, field by field.
use mathlib.Core.List.{append-nil, append_assoc}
use ocr.Base.{
  ◌≡◌, refl, ap, ◌∙◌, String, Bool, true, false, not, ◌&&◌, ◌||◌, some, List, [], ◌∷◌, ◌++◌, map,
  arith, inl, inr,
}
use ocr.Base.Tests.{if◌then◌else◌, Bool-cases}
use ocr.Base.Lists.{length}
use ocr.Base.Float.{Float, FloatOps}
use ocr.Store.Rows.{
  completed, needs_review, FieldStatus, extracted, low_confidence, missing, FieldDict, Issue,
  DocumentResult,
}
use ocr.Extraction.Schema.{FieldSchema, Schema}
use ocr.Extraction.Extract.{ExtractedField, has_value}
use ocr.Extraction.Validate.{
  Draft, is_blocking, extracted_dict, low_confidence_dict, missing_dict, not_found, below_threshold,
  draft_step, draft_loop, empty_draft, average, blocks, has_issues, with_blocking, finish_draft,
  build_result,
}

module _ (floats : FloatOps) where
  -- The status that the field gets.
  abbrev pub verdict : FieldSchema → ExtractedField → FieldStatus
  verdict f item =
      if not (has_value item)
      then missing
      else if floats.lt item.confidence f.threshold
      then low_confidence
      else extracted

  -- The field asks for no review: it is extracted, or missing where it is optional.
  abbrev pub passes : FieldSchema → ExtractedField → Bool
  passes f item =
      if has_value item then not (floats.lt item.confidence f.threshold) else not f.required

  abbrev pub all_pass : List FieldSchema → List ExtractedField → Bool
  all_pass (f ∷ fs) (item ∷ items) = passes f item && all_pass fs items
  all_pass _ _ = true

  dict_of : FieldSchema → ExtractedField → FieldDict
  dict_of f item =
      if not (has_value item)
      then missing_dict floats f
      else if floats.lt item.confidence f.threshold
      then low_confidence_dict floats f item
      else extracted_dict floats f item

  issues_of : FieldSchema → ExtractedField → List Issue
  issues_of f item =
      if not (has_value item)
      then (if f.required then not_found floats f ∷ [] else [])
      else if floats.lt item.confidence f.threshold
      then below_threshold floats f item ∷ []
      else []

  confidences_of : ExtractedField → List Float
  confidences_of item = if has_value item then item.confidence ∷ [] else []

  all_dicts : List FieldSchema → List ExtractedField → List FieldDict
  all_dicts (f ∷ fs) (item ∷ items) = dict_of f item ∷ all_dicts fs items
  all_dicts _ _ = []

  all_issues : List FieldSchema → List ExtractedField → List Issue
  all_issues (f ∷ fs) (item ∷ items) = issues_of f item ++ all_issues fs items
  all_issues _ _ = []

  all_confidences : List ExtractedField → List Float
  all_confidences [] = []
  all_confidences (item ∷ items) = confidences_of item ++ all_confidences items

  draft_step_lem :
      (f : FieldSchema) (item : ExtractedField) (d : Draft)
      → draft_step floats f item d ≡ record {
        fields = d.fields ++ (dict_of f item ∷ []);
        issues = d.issues ++ issues_of f item;
        confidences = d.confidences ++ confidences_of item;
      }
  unfolding draft_step dict_of issues_of confidences_of
  draft_step_lem f item d = elim (Bool-cases (has_value item)) [
    | inr e ↦ elim (Bool-cases f.required) [
      | inl r ↦ rw (e, r, append-nil d.confidences)
      | inr r ↦ rw (e, r, append-nil d.confidences, append-nil d.issues)
    ]
    | inl e ↦ elim (Bool-cases (floats.lt item.confidence f.threshold)) [
      | inl l ↦ rw (e, l)
      | inr l ↦ rw (e, l, append-nil d.issues)
    ]
  ]

  draft_loop_lem :
      (fs : List FieldSchema) (items : List ExtractedField) (d : Draft)
      → length fs ≡ length items
      → draft_loop floats fs items d
        ≡ some (record {
          fields = d.fields ++ all_dicts fs items;
          issues = d.issues ++ all_issues fs items;
          confidences = d.confidences ++ all_confidences items;
        })
  unfolding draft_loop all_dicts all_issues all_confidences
  draft_loop_lem [] [] d h = rw (append-nil d.fields, append-nil d.issues, append-nil d.confidences)
  draft_loop_lem [] (item ∷ items) d h = absurd (omega arith)
  draft_loop_lem (f ∷ fs) [] d h = absurd (omega arith)
  draft_loop_lem (f ∷ fs) (item ∷ items) d h =
      rw (draft_loop_lem fs items (draft_step floats f item d) (omega arith))
        (rw (draft_step_lem f item d) (simp append_assoc))

  has_issues-append :
      (xs ys : List Issue)
      → has_issues floats (xs ++ ys) ≡ (has_issues floats xs || has_issues floats ys)
  has_issues-append [] ys = refl
  has_issues-append (x ∷ xs) ys = refl

  has_issues-issues_of :
      (f : FieldSchema) (item : ExtractedField)
      → has_issues floats (issues_of f item) ≡ not (passes f item)
  unfolding issues_of
  has_issues-issues_of f item = elim (Bool-cases (has_value item)) [
    | inr e ↦ elim (Bool-cases f.required) [ inl r ↦ rw (e, r) | inr r ↦ rw (e, r) ]
    | inl e ↦ elim (Bool-cases (floats.lt item.confidence f.threshold)) [
      | inl l ↦ rw (e, l)
      | inr l ↦ rw (e, l)
    ]
  ]

  has_issues-all_issues :
      (fs : List FieldSchema) (items : List ExtractedField)
      → has_issues floats (all_issues fs items) ≡ not (all_pass fs items)
  unfolding all_issues
  has_issues-all_issues [] items = refl
  has_issues-all_issues (f ∷ fs) [] = refl
  has_issues-all_issues (f ∷ fs) (item ∷ items) =
      rw (has_issues-append, has_issues-issues_of f item, has_issues-all_issues fs items)
        (ground arith)

  -- A field that blocks does not pass.
  dict_of-blocks :
      (f : FieldSchema) (item : ExtractedField)
      → (f.required && is_blocking (dict_of f item).status) ≡ true
      → passes f item ≡ false
  unfolding dict_of missing_dict low_confidence_dict extracted_dict
  dict_of-blocks f item h = ground arith

  blocks_lem :
      (fs : List FieldSchema) (items : List ExtractedField)
      → length fs ≡ length items
      → (b : Bool) × (blocks floats fs (all_dicts fs items) ≡ some b)
        × ((b || not (all_pass fs items)) ≡ not (all_pass fs items))
  unfolding blocks all_dicts
  blocks_lem [] [] h = (false, refl, refl)
  blocks_lem [] (item ∷ items) h = absurd (omega arith)
  blocks_lem (f ∷ fs) [] h = absurd (omega arith)
  blocks_lem (f ∷ fs) (item ∷ items) h =
      elim (Bool-cases (f.required && is_blocking (dict_of f item).status)) [
        | inl e ↦ (true, rw e, rw (dict_of-blocks f item e))
        | inr e ↦
            let (b, eq, agree) = blocks_lem fs items (omega arith) in (b, rw e eq, ground arith)
      ]

  abbrev pub dict_key : FieldDict → String × FieldStatus
  dict_key d = (d.name, d.status)

  abbrev pub issue_key : Issue → String × String
  issue_key i = (i.field, i.code)

  -- Each field's name and verdict.
  abbrev pub verdicts : List FieldSchema → List ExtractedField → List (String × FieldStatus)
  verdicts (f ∷ fs) (item ∷ items) = (f.name, verdict f item) ∷ verdicts fs items
  verdicts _ _ = []

  -- The fields that do not pass, each with the code of its issue.
  abbrev pub complaints : List FieldSchema → List ExtractedField → List (String × String)
  complaints (f ∷ fs) (item ∷ items) =
      let rest = complaints fs items in
      if passes f item
      then rest
      else (f.name, if has_value item then "LOW_CONFIDENCE" else "VALIDATION_FAILED") ∷ rest
  complaints _ _ = []

  map-dict_key :
      (fs : List FieldSchema) (items : List ExtractedField)
      → map dict_key (all_dicts fs items) ≡ verdicts fs items
  unfolding all_dicts dict_of missing_dict low_confidence_dict extracted_dict
  map-dict_key [] items = refl
  map-dict_key (f ∷ fs) [] = refl
  map-dict_key (f ∷ fs) (item ∷ items) = ground (arith, map-dict_key fs items)

  map-issue_key :
      (fs : List FieldSchema) (items : List ExtractedField)
      → map issue_key (all_issues fs items) ≡ complaints fs items
  unfolding all_issues issues_of not_found below_threshold
  map-issue_key [] items = refl
  map-issue_key (f ∷ fs) [] = refl
  map-issue_key (f ∷ fs) (item ∷ items) = ground (arith, map-issue_key fs items)

  -- With an item for each field of the schema, a result comes about: it lists each field's verdict
  -- in the schema's order and an issue for each field that does not pass, and the status is
  -- `completed` exactly if all fields pass, optional ones included.
  pub build_result_lem :
      (schema : Schema) (items : List ExtractedField)
      → length schema.fields ≡ length items
      → (r : DocumentResult) × (build_result floats schema items
          ≡ some (r, if all_pass schema.fields items then completed else needs_review))
        × (map dict_key r.fields ≡ verdicts schema.fields items)
        × (map issue_key r.issues ≡ complaints schema.fields items)
  unfolding build_result finish_draft with_blocking
  build_result_lem schema items h =
      let (b, eq, agree) = blocks_lem schema.fields items h in
      (
        record {
          schema_version = "1.0";
          avg_confidence = average floats (all_confidences items);
          fields = all_dicts schema.fields items;
          issues = all_issues schema.fields items;
        },
        ap (finish_draft floats schema) (draft_loop_lem schema.fields items (empty_draft floats) h)
            ∙ ap (with_blocking floats _) eq
            ∙ rw (has_issues-all_issues schema.fields items, agree) (ground arith),
        map-dict_key schema.fields items,
        map-issue_key schema.fields items,
      )

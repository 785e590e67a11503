-- ===== src/Extraction/Validate.antt =====
-- src/ocr_engine/extraction/validate.py.
pub mod Outcome
pub mod Statuses
use ocr.Base.{◌<>◌, Bool, true, false, not, ◌&&◌, ◌||◌, Option, none, some, List, [], ◌∷◌, ◌++◌}
use ocr.Base.Tests.{if◌then◌else◌}
use ocr.Base.Lists.{length}
use ocr.Base.Int.{ℤ, pos}
use ocr.Base.Float.{Float, FloatOps, float_zero}
use ocr.Store.Rows.{
  Status, completed, needs_review, FieldStatus, extracted, low_confidence, missing, invalid, Bbox,
  FieldBody, money_body, text_body, FieldDict, Issue, DocumentResult,
}
use ocr.Extraction.Schema.{Line, FieldType, money, FieldSchema, Schema}
use ocr.Extraction.Extract.{ExtractedField, has_value}

abbrev body_of : FieldType → ExtractedField → FieldBody
body_of money item = money_body item.amount item.currency
body_of _ item = text_body item.value

abbrev place_of : Option Line → Option (Bbox × ℤ)
place_of none = none
place_of (some line) = some (line.bbox, pos line.page)

abbrev missing_body : FieldSchema → FieldType → FieldBody
missing_body f money = money_body (some (pos 0)) (some f.currency)
missing_body f _ = text_body (some [])

-- What the loop over the fields has built up.
pub record Draft : Type 0 where
  pub fields : List FieldDict
  pub issues : List Issue
  pub confidences : List Float

-- `f["status"] in ("missing", "low_confidence", "invalid")`
abbrev pub is_blocking : FieldStatus → Bool
is_blocking extracted = false
is_blocking low_confidence = true
is_blocking missing = true
is_blocking invalid = true

module _ (floats : FloatOps) where
  -- `_extracted`
  extracted_dict : FieldSchema → ExtractedField → FieldDict
  extracted_dict f item = record {
    name = f.name;
    confidence = floats.round4 item.confidence;
    status = extracted;
    body = body_of f.type item;
    place = place_of item.source_line;
  }

  -- `_low_confidence`
  low_confidence_dict : FieldSchema → ExtractedField → FieldDict
  unfolding extracted_dict
  low_confidence_dict f item = record (extracted_dict f item) { status = low_confidence }

  -- `_missing`
  missing_dict : FieldSchema → FieldDict
  missing_dict f = record {
    name = f.name;
    confidence = float_zero;
    status = missing;
    body = missing_body f f.type;
    place = none;
  }

  not_found : FieldSchema → Issue
  not_found f = record { code = "VALIDATION_FAILED"; field = f.name; detail = "not found" }

  below_threshold : FieldSchema → ExtractedField → Issue
  below_threshold f item = record {
    code = "LOW_CONFIDENCE";
    field = f.name;
    detail = floats.fixed2 item.confidence <> (" < threshold " <> floats.fixed2 f.threshold);
  }

  -- One round of the loop, on what it has built up.
  draft_step : FieldSchema → ExtractedField → Draft → Draft
  unfolding extracted_dict low_confidence_dict missing_dict not_found below_threshold
  draft_step f item d =
      if not (has_value item)
      then record {
        fields = d.fields ++ (missing_dict f ∷ []);
        issues = if f.required then d.issues ++ (not_found f ∷ []) else d.issues;
        confidences = d.confidences;
      }
      else if floats.lt item.confidence f.threshold
      then record {
        fields = d.fields ++ (low_confidence_dict f item ∷ []);
        issues = d.issues ++ (below_threshold f item ∷ []);
        confidences = d.confidences ++ (item.confidence ∷ []);
      }
      else record {
        fields = d.fields ++ (extracted_dict f item ∷ []);
        issues = d.issues;
        confidences = d.confidences ++ (item.confidence ∷ []);
      }

  -- `zip(…, strict=True)`: `none` is the `ValueError` of lists that differ in length.
  draft_loop : List FieldSchema → List ExtractedField → Draft → Option Draft
  unfolding draft_step
  draft_loop [] [] d = some d
  draft_loop [] (item ∷ items) d = none
  draft_loop (f ∷ fs) [] d = none
  draft_loop (f ∷ fs) (item ∷ items) d = draft_loop fs items (draft_step f item d)

  average : List Float → Float
  average [] = float_zero
  average (c ∷ cs) = floats.div (floats.sum (c ∷ cs)) (floats.of_int (pos (length (c ∷ cs))))

  -- `any(… for f, fs in zip(fields, schema.fields, strict=True) if fs.required)`
  blocks : List FieldSchema → List FieldDict → Option Bool
  blocks [] [] = some false
  blocks [] (d ∷ ds) = none
  blocks (f ∷ fs) [] = none
  blocks (f ∷ fs) (d ∷ ds) = if f.required && is_blocking d.status then some true else blocks fs ds

  abbrev has_issues : List Issue → Bool
  has_issues [] = false
  has_issues (i ∷ is) = true

  with_blocking : Draft → Option Bool → Option (DocumentResult × Status)
  unfolding average
  with_blocking d none = none
  with_blocking d (some blocking) = some (
    record {
      schema_version = "1.0";
      avg_confidence = average d.confidences;
      fields = d.fields;
      issues = d.issues;
    },
    if blocking || has_issues d.issues then needs_review else completed,
  )

  finish_draft : Schema → Option Draft → Option (DocumentResult × Status)
  unfolding blocks with_blocking
  finish_draft schema none = none
  finish_draft schema (some d) = with_blocking d (blocks schema.fields d.fields)

  abbrev empty_draft : Draft
  empty_draft = record { fields = []; issues = []; confidences = [] }

  unfoldable pub build_result : Schema → List ExtractedField → Option (DocumentResult × Status)
  unfolding draft_loop finish_draft
  build_result schema items = finish_draft schema (draft_loop schema.fields items empty_draft)

  -- `DocumentResult.to_dict`
  unfoldable pub to_dict : DocumentResult → DocumentResult
  to_dict r = record r { avg_confidence = floats.round4 r.avg_confidence }

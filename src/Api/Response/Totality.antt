-- ===== src/Api/Response/Totality.antt =====
-- `_response_for` and `_fill_result` (src/ocr_engine/api/servicer.py) on numbers that fit.
use ocr.Base.{ℕ, ◌≡◌, refl, String, Option, none, some, List, [], ◌∷◌, map}
use ocr.Base.Int.{ℤ}
use ocr.Base.Lists.{All}
use ocr.Store.Rows.{
  Status, queued, processing, completed, needs_review, failed, Bbox, FieldDict, DocumentResult,
  ErrorDict, Document,
}
use ocr.Pipeline.Outcome.{ok}
use ocr.Api.Request.{FieldStatusCode, FieldMessage, ResultMessage, GetDocumentResponse}
use ocr.Api.Response.{
  status_code, field_status_code, assign_int, int32_limit, int64_limit, fill_bbox, amount_of,
  with_place, placeless, fill_field, fill_fields, fill_result, or_default, no_details, with_result,
  response_by, response_for,
}

-- The number can be assigned to a field of this limit.
abbrev pub Fits : ℕ → ℤ → Type 0
Fits limit a = assign_int limit a ≡ ok a

abbrev pub PlaceFits : Option (Bbox × ℤ) → Type 0
PlaceFits none = Unit {0}
PlaceFits (some (b, page)) =
    Fits int32_limit b.x1
    × Fits int32_limit b.y1
    × Fits int32_limit b.x2
    × Fits int32_limit b.y2
    × Fits int32_limit page

abbrev pub FieldFits : FieldDict → Type 0
FieldFits item = Fits int64_limit (amount_of item.body) × PlaceFits item.place

abbrev pub ResultFits : Option DocumentResult → Type 0
ResultFits none = Unit {0}
ResultFits (some r) = All FieldFits r.fields

abbrev pub told : FieldMessage → String × FieldStatusCode
told m = (m.name, m.status)

abbrev pub stored : FieldDict → String × FieldStatusCode
stored d = (d.name, field_status_code d.status)

with_place_total :
    (m : FieldMessage) (place : Option (Bbox × ℤ))
    → PlaceFits place
    → (m' : FieldMessage) × (with_place m place ≡ ok m') × (told m' ≡ told m)
unfolding fill_bbox
with_place_total m none h = (m, refl, refl)
with_place_total m (some (b, page)) (x1, y1, x2, y2, p) =
    (record m { bbox = some b; page = page }, rw (x1, y1, x2, y2, p) refl, refl)

fill_field_total :
    (item : FieldDict)
    → FieldFits item
    → (m : FieldMessage) × (fill_field item ≡ ok m) × (told m ≡ stored item)
unfolding fill_field
fill_field_total item (amount, place) =
    let (m, filled, same) =
      with_place_total (placeless item (amount_of item.body)) item.place place in
    (m, rw amount filled, same)

fill_fields_total :
    (items : List FieldDict)
    → All FieldFits items
    → (ms : List FieldMessage) × (fill_fields items ≡ ok ms) × (map told ms ≡ map stored items)
unfolding fill_fields
fill_fields_total [] h = ([], refl, refl)
fill_fields_total (item ∷ items) h =
    let (m, filled, same) = fill_field_total item h.0 in
    let (ms, filled', same') = fill_fields_total items h.1 in
    (m ∷ ms, rw (filled, filled') refl, rw (same, same') refl)

-- The error that a response about a row carries.
abbrev pub error_for : Document → Option ErrorDict
error_for d =
    some (record {
      code = or_default d.error_code "INTERNAL";
      message = or_default d.error_message "";
    })

-- A result is shown with each field's name and status, in order; a row without one shows none.
abbrev pub IsShown : Option DocumentResult → Option ResultMessage → Type 0
IsShown none shown = shown ≡ none
IsShown (some r) shown =
    (m : ResultMessage) × (shown ≡ some m) × (map told m.fields ≡ map stored r.fields)

-- What a response has to say of a row of this status.
abbrev pub Details : Status → Document → GetDocumentResponse → Type 0
Details failed d m = (m.result ≡ none) × (m.error ≡ error_for d)
Details queued d m = (m.result ≡ none) × (m.error ≡ none)
Details processing d m = (m.result ≡ none) × (m.error ≡ none)
Details s d m = IsShown d.result m.result × (m.error ≡ none)

with_result_total :
    (response : GetDocumentResponse) (o : Option DocumentResult)
    → response.result ≡ none
    → ResultFits o
    → (m : GetDocumentResponse) × (with_result response o ≡ ok m)
      × IsShown o m.result
      × (m.status ≡ response.status)
      × (m.error ≡ response.error)
unfolding fill_result
with_result_total response none bare h = (response, refl, bare, refl, refl)
with_result_total response (some r) bare h =
    let (ms, filled, same) = fill_fields_total r.fields h in
    let shown : ResultMessage = record {
      schema_version = r.schema_version;
      avg_confidence = r.avg_confidence;
      fields = ms;
      issues = r.issues;
    } in
    (record response { result = some shown }, rw filled refl, (shown, refl, same), refl, refl)

response_by_total :
    (status : Status) (id_text : String) (d : Document)
    → ResultFits d.result
    → (m : GetDocumentResponse) × (response_by status (no_details id_text d) d ≡ ok m)
      × (m.status ≡ status_code d.status)
      × Details status d m
response_by_total queued id_text d h = (no_details id_text d, refl, refl, (refl, refl))
response_by_total processing id_text d h = (no_details id_text d, refl, refl, (refl, refl))
response_by_total failed id_text d h = (_, refl, refl, (refl, refl))
response_by_total completed id_text d h =
    let (m, filled, shown, same, bare) = with_result_total (no_details id_text d) d.result refl h in
    (m, filled, same, (shown, bare))
response_by_total needs_review id_text d h =
    let (m, filled, shown, same, bare) = with_result_total (no_details id_text d) d.result refl h in
    (m, filled, same, (shown, bare))

-- A row whose result has amounts of 64 bits, and places and pages of 32, is always answered: with
-- its status; with an error exactly if it failed; and with its result, each field's name and status
-- in order, exactly if it has one and is completed or needs review.
pub response_for_total :
    (id_text : String) (d : Document)
    → ResultFits d.result
    → (m : GetDocumentResponse) × (response_for id_text d ≡ ok m)
      × (m.status ≡ status_code d.status)
      × Details d.status d m
unfolding response_for
response_for_total id_text d h = response_by_total d.status id_text d h

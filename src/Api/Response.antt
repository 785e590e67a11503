-- ===== src/Api/Response.antt =====
-- `_response_for` and `_fill_result` (src/ocr_engine/api/servicer.py). A number that does not fit
-- its field is the `ValueError` that protobuf raises.
pub mod Totality
use ocr.Base.{ℕ, ◌-◌, String, ◌&&◌, Option, none, some, List, [], ◌∷◌}
use ocr.Base.Tests.{◌==◌, string_eq, if◌then◌else◌}
use ocr.Base.Int.{ℤ, pos, negsuc, leb_ℤ}
use ocr.Base.Text.{Text}
use ocr.Store.Rows.{
  Status, queued, processing, completed, needs_review, failed, FieldStatus, extracted,
  low_confidence, missing, invalid, Bbox, FieldBody, money_body, text_body, FieldDict,
  DocumentResult, Document,
}
use ocr.Pipeline.Outcome.{Outcome, ok, raise, ◌>>=◌, value_error}
use ocr.Api.Request.{
  DocumentStatus, document_status_queued, document_status_processing, document_status_completed,
  document_status_needs_review, document_status_failed, FieldStatusCode, field_status_extracted,
  field_status_low_confidence, field_status_missing, field_status_invalid, FieldMessage,
  ResultMessage, GetDocumentResponse,
}

-- `STATUS_MAP`
abbrev pub status_code : Status → DocumentStatus
status_code queued = document_status_queued
status_code processing = document_status_processing
status_code completed = document_status_completed
status_code needs_review = document_status_needs_review
status_code failed = document_status_failed

-- `FIELD_STATUS_MAP`
abbrev pub field_status_code : FieldStatus → FieldStatusCode
field_status_code extracted = field_status_extracted
field_status_code low_confidence = field_status_low_confidence
field_status_code missing = field_status_missing
field_status_code invalid = field_status_invalid

-- An assignment to an integer field that holds -limit to limit - 1.
unfoldable pub assign_int : ℕ → ℤ → Outcome ℤ
assign_int limit a =
    if leb_ℤ (negsuc (limit - 1)) a && leb_ℤ a (pos (limit - 1))
    then ok a
    else raise (value_error "Value out of range")

abbrev pub int32_limit : ℕ
int32_limit = 2147483648

abbrev pub int64_limit : ℕ
int64_limit = 9223372036854775808

unfoldable pub fill_bbox : Bbox → Outcome Bbox
unfolding assign_int
fill_bbox b = assign_int int32_limit b.x1 >>= λ x1. assign_int int32_limit b.y1 >>= λ y1.
    assign_int int32_limit b.x2 >>= λ x2.
    assign_int int32_limit b.y2 >>= λ y2. ok (record { x1 = x1; y1 = y1; x2 = x2; y2 = y2 })

abbrev pub value_of : FieldBody → Text
value_of (text_body (some t)) = t
value_of _ = []

abbrev pub amount_of : FieldBody → ℤ
amount_of (money_body (some a) c) = a
amount_of _ = pos 0

abbrev pub currency_of : FieldBody → String
currency_of (money_body a (some c)) = c
currency_of _ = ""

abbrev pub with_place : FieldMessage → Option (Bbox × ℤ) → Outcome FieldMessage
with_place m none = ok m
with_place m (some (b, page)) = fill_bbox b >>= λ bbox.
    assign_int int32_limit page >>= λ page'. ok (record m { bbox = some bbox; page = page' })

-- The message before its place is filled in.
abbrev pub placeless : FieldDict → ℤ → FieldMessage
placeless item amount = record {
  name = item.name;
  status = field_status_code item.status;
  confidence = item.confidence;
  value = value_of item.body;
  amount = amount;
  currency = currency_of item.body;
  bbox = none;
  page = pos 1;
}

-- One round of the loop over the fields.
unfoldable pub fill_field : FieldDict → Outcome FieldMessage
unfolding assign_int fill_bbox
fill_field item = assign_int int64_limit (amount_of item.body) >>= λ amount.
    with_place (placeless item amount) item.place

unfoldable pub fill_fields : List FieldDict → Outcome (List FieldMessage)
unfolding fill_field
fill_fields [] = ok []
fill_fields (item ∷ items) = fill_field item >>= λ m. fill_fields items >>= λ ms. ok (m ∷ ms)

unfoldable pub fill_result : DocumentResult → Outcome ResultMessage
unfolding fill_fields
fill_result r = fill_fields r.fields >>= λ fields. ok (record {
  schema_version = r.schema_version;
  avg_confidence = r.avg_confidence;
  fields = fields;
  issues = r.issues;
})

-- `x or default`, on a text that may be `None`.
abbrev pub or_default : Option String → String → String
or_default none default = default
or_default (some t) default = if t == "" then default else t

abbrev pub no_details : String → Document → GetDocumentResponse
no_details id_text doc = record {
  document_id = id_text;
  status = status_code doc.status;
  result = none;
  error = none;
}

abbrev pub with_result : GetDocumentResponse → Option DocumentResult → Outcome GetDocumentResponse
with_result response none = ok response
with_result response (some r) = fill_result r >>= λ m. ok (record response { result = some m })

-- The response, by the status of the row; `id_text` is `str(doc.id)`.
abbrev pub response_by : Status → GetDocumentResponse → Document → Outcome GetDocumentResponse
response_by completed response doc = with_result response doc.result
response_by needs_review response doc = with_result response doc.result
response_by failed response doc = ok (record response {
  error = some (record {
    code = or_default doc.error_code "INTERNAL";
    message = or_default doc.error_message "";
  });
})
response_by _ response doc = ok response

unfoldable pub response_for : String → Document → Outcome GetDocumentResponse
unfolding fill_result
response_for id_text doc = response_by doc.status (no_details id_text doc) doc

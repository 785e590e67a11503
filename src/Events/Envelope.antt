-- ===== src/Events/Envelope.antt =====
-- `build_envelope` (src/ocr_engine/events/envelope.py). The event id is a `uuid4` argument.
use ocr.Base.{◌≡◌, ◌≢◌, Bool, true, false, not, Option, none, some, arith}
use ocr.Store.Rows.{
  Uuid, Time, Status, completed, needs_review, failed, is_terminal, Document, DocumentResult,
  ErrorDict, Envelope,
}

-- `if status in ("completed", "needs_review"): envelope["data"] = result`
abbrev pub data_entry : Status → Option DocumentResult → Option (Option DocumentResult)
data_entry completed result = some result
data_entry needs_review result = some result
data_entry _ result = none

-- `if status == "failed" and error is not None: envelope["error"] = error`
abbrev pub error_entry : Status → Option ErrorDict → Option ErrorDict
error_entry failed error = error
error_entry _ error = none

unfoldable pub build_envelope :
    Document → Status → Option DocumentResult → Option ErrorDict → Uuid → Time → Envelope
build_envelope doc status result error event_id now = record {
  schema_version = "1.0";
  event_id = event_id;
  event_type = "document.processed";
  occurred_at = now;
  document_id = doc.id;
  external_ref = doc.external_ref;
  caller_id = doc.caller_id;
  idempotency_key = doc.idempotency_key;
  producer = "ocr";
  payload = data_entry status result;
  error = error_entry status error;
}

abbrev pub is_present {ℓ} : {A : Type ℓ} → Option A → Bool
is_present none = false
is_present (some _) = true

-- For an outcome, with an error whenever it is a failure, exactly one of `data` and `error` is
-- present; and `data` is never present and null if a result is given whenever it is none.
pub build_envelope_exclusive :
    (doc : Document) (status : Status) (result : Option DocumentResult) (error : Option ErrorDict)
    (event_id : Uuid) (now : Time)
    → is_terminal status ≡ true
    → (status ≡ failed → error ≢ none)
    → (status ≢ failed → result ≢ none)
    → let e = build_envelope doc status result error event_id now in
      (is_present e.payload ≡ not (is_present e.error)) × (e.payload ≢ some none)
unfolding build_envelope
build_envelope_exclusive doc status result error event_id now t h k = ground (arith, h, k)

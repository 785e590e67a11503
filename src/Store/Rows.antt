-- ===== src/Store/Rows.antt =====
-- The rows of the two tables: migrations/versions/0002_documents.py and 0003_outbox_events.py, the
-- `DocumentRow` of src/ocr_engine/repo/store.py, and the JSON values that their columns hold.
use ocr.Base.{ℕ, ◌≡◌, ◌↔◌, refl, ap, String, Option, List, Bool, true, false}
use ocr.Base.Tests.{HasEquals, ◌==◌, nat_eq, string_eq}
use ocr.Base.Int.{ℤ}
use ocr.Base.Text.{Text}
use ocr.Base.Float.{Float}

-- A UUID, as the 128-bit number that it is; its text form is not distinguished from it.
abbrev pub Uuid : Type 0
Uuid = ℕ

-- The value of the column `idempotency_key` in a row: a `uuid.UUID`, which is what asyncpg makes of
-- a UUID column, or a `str`, which is what `DocumentRow` declares.
pub data Key : Type 0 where
  uuid_key : Uuid → Key
  text_key : String → Key

abbrev equal_keys : Key → Key → Bool
equal_keys (uuid_key i) (uuid_key j) = i == j
equal_keys (text_key t) (text_key u) = t == u
equal_keys (uuid_key i) (text_key u) = false
equal_keys (text_key t) (uuid_key j) = false

pub equal_keys_iff : (k l : Key) → (equal_keys k l ≡ true) ↔ (k ≡ l)
equal_keys_iff (uuid_key i) (uuid_key j) =
    (λ h. ap uuid_key ((nat_eq.equals_iff i j).0 h), λ e. (nat_eq.equals_iff i j).1 (cc e))
equal_keys_iff (text_key t) (text_key u) =
    (λ h. ap text_key ((string_eq.equals_iff t u).0 h), λ e. (string_eq.equals_iff t u).1 (cc e))
equal_keys_iff (uuid_key i) (text_key u) = (λ h. cc h, λ e. cc e)
equal_keys_iff (text_key t) (uuid_key j) = (λ h. cc h, λ e. cc e)

instance abbrev pub key_eq : HasEquals Key
key_eq = record { equals = equal_keys; equals_iff = equal_keys_iff }

pub key_eq_refl : (k : Key) → (k == k) ≡ true
key_eq_refl k = (equal_keys_iff k k).1 refl

-- A point in time, in microseconds.
abbrev pub Time : Type 0
Time = ℕ

-- `ck_documents_status`.
pub data Status : Type 0 where
  queued processing completed needs_review failed : Status

-- The `status` of a field dict; the pipeline never writes `invalid`.
pub data FieldStatus : Type 0 where
  extracted low_confidence missing invalid : FieldStatus

pub record Bbox : Type 0 where
  pub x1 : ℤ
  pub y1 : ℤ
  pub x2 : ℤ
  pub y2 : ℤ

-- The keys that depend on the field's type: `amount` and `currency`, or `value`.
pub data FieldBody : Type 0 where
  money_body : Option ℤ → Option String → FieldBody
  text_body : Option Text → FieldBody

-- A field dict of extraction/validate.py; `bbox` and `page` are present together or not at all.
pub record FieldDict : Type 0 where
  pub name : String
  pub confidence : Float
  pub status : FieldStatus
  pub body : FieldBody
  pub place : Option (Bbox × ℤ)

pub record Issue : Type 0 where
  pub code : String
  pub field : String
  pub detail : String

-- `DocumentResult`, and the dict that its `to_dict` makes.
pub record DocumentResult : Type 0 where
  pub schema_version : String
  pub avg_confidence : Float
  pub fields : List FieldDict
  pub issues : List Issue

pub record ErrorDict : Type 0 where
  pub code : String
  pub message : String

-- The envelope dict. `none` is an absent key; `data` may be present and null.
pub record Envelope : Type 0 where
  pub schema_version : String
  pub event_id : Uuid
  pub event_type : String
  pub occurred_at : Time
  pub document_id : Uuid
  pub external_ref : String
  pub caller_id : String
  pub idempotency_key : Key
  pub producer : String
  pub payload : Option (Option DocumentResult)
  pub error : Option ErrorDict

-- A row of `documents`.
pub record Document : Type 0 where
  pub id : Uuid
  pub idempotency_key : Key
  pub external_ref : String
  pub doc_type : String
  pub status : Status
  pub caller_id : String
  pub source_bucket : String
  pub source_path : String
  pub declared_mime : String
  pub size_bytes : ℤ
  pub result : Option DocumentResult
  pub avg_confidence : Option Float
  pub error_code : Option String
  pub error_message : Option String
  pub trace_id : Option String
  pub processed_at : Option Time
  pub created_at : Time
  pub updated_at : Time

-- A row of `outbox_events`.
pub record OutboxEvent : Type 0 where
  pub id : Uuid
  pub aggregate_type : String
  pub aggregate_id : Uuid
  pub event_type : String
  pub event_version : ℕ
  pub topic : String
  pub payload : Envelope
  pub created_at : Time
  pub published_at : Option Time
  pub trace_id : Option String
  pub attempt_count : ℕ
  pub next_attempt_at : Option Time
  pub locked_at : Option Time
  pub locked_by : Option String
  pub last_error : Option String

-- The database: both tables, each in the order of insertion.
pub record Db : Type 0 where
  pub documents : List Document
  pub outbox : List OutboxEvent

-- The statuses that are an outcome.
abbrev pub is_terminal : Status → Bool
is_terminal queued = false
is_terminal processing = false
is_terminal completed = true
is_terminal needs_review = true
is_terminal failed = true

-- `doc.status in ("queued", "processing")`
abbrev pub is_processable : Status → Bool
is_processable queued = true
is_processable processing = true
is_processable completed = false
is_processable needs_review = false
is_processable failed = false

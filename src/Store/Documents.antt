-- ===== src/Store/Documents.antt =====
-- The operations of `Store` on the `documents` table, and `finish_document`, which writes both
-- tables. `now` is the transaction's time; a generated id is an argument.
use ocr.Base.{
  ℕ, String, Bool, true, false, ◌&&◌, ◌||◌, not, Option, none, some, List, [], ◌∷◌, ◌++◌, map,
}
use ocr.Base.Int.{ℤ}
use ocr.Base.Tests.{ltb, ◌==◌, nat_eq, string_eq, if◌then◌else◌}
use ocr.Base.Lists.{take, keep, contains}
use ocr.Store.Table.{find_row, update_where, any_row, sort_by}
use ocr.Store.Rows.{
  Uuid, Key, uuid_key, text_key, key_eq, Time, Status, queued, processing, DocumentResult, Envelope,
  Document, OutboxEvent, Db,
}
use ocr.Base.Float.{Float}
use ocr.Pipeline.Outcome.{Exception, Outcome, ok, raise, other}

-- The keyword arguments of `submit_document`.
pub record Submission : Type 0 where
  pub document_id : Uuid
  pub idempotency_key : Key
  pub external_ref : String
  pub schema_id : String
  pub caller_id : String
  pub source_bucket : String
  pub source_path : String
  pub declared_mime : String
  pub size_bytes : ℤ
  pub trace_id : Option String

abbrev pub queued_document : Submission → Time → Document
queued_document s now = record {
  id = s.document_id;
  idempotency_key = s.idempotency_key;
  external_ref = s.external_ref;
  doc_type = s.schema_id;
  status = queued;
  caller_id = s.caller_id;
  source_bucket = s.source_bucket;
  source_path = s.source_path;
  declared_mime = s.declared_mime;
  size_bytes = s.size_bytes;
  result = none;
  avg_confidence = none;
  error_code = none;
  error_message = none;
  trace_id = s.trace_id;
  processed_at = none;
  created_at = now;
  updated_at = now;
}

-- A row breaks a unique index: the primary key or `ux_documents_idempotency_key`.
abbrev pub conflicts : Submission → Document → Bool
conflicts s d = d.id == s.document_id || d.idempotency_key == s.idempotency_key

unfoldable pub submit_document : Submission → Time → Db → Bool × Db
submit_document s now db =
    if any_row (conflicts s) db.documents
    then (false, db)
    else (true, record db { documents = db.documents ++ (queued_document s now ∷ []) })

unfoldable pub get_idempotent_document : Key → Db → Option Document
get_idempotent_document key db = find_row (λ d. d.idempotency_key == key) db.documents

abbrev pub has_id : Uuid → Document → Bool
has_id i d = d.id == i

unfoldable pub get_document : Uuid → Db → Option Document
get_document i db = find_row (has_id i) db.documents

abbrev pub is_queued : Status → Bool
is_queued queued = true
is_queued _ = false

unfoldable pub mark_processing : Uuid → Time → Db → Db
mark_processing i now db = record db {
  documents =
      update_where (λ d. has_id i d && is_queued d.status)
        (λ d. record d { status = processing; updated_at = now }) db.documents;
}

-- The keyword arguments of `finish_document`.
pub record Finish : Type 0 where
  pub status : Status
  pub result : Option DocumentResult
  pub avg_confidence : Option Float
  pub error_code : Option String
  pub error_message : Option String
  pub payload : Envelope
  pub topic : String
  pub trace_id : Option String

abbrev pub finish_row : Finish → Time → Document → Document
finish_row f now d = record d {
  status = f.status;
  result = f.result;
  avg_confidence = f.avg_confidence;
  error_code = f.error_code;
  error_message = f.error_message;
  processed_at = some now;
  updated_at = now;
}

abbrev pub outbox_row : Uuid → Finish → Uuid → Time → OutboxEvent
outbox_row i f event_row now = record {
  id = event_row;
  aggregate_type = "document";
  aggregate_id = i;
  event_type = "document.processed";
  event_version = 1;
  topic = f.topic;
  payload = f.payload;
  created_at = now;
  published_at = none;
  trace_id = f.trace_id;
  attempt_count = 0;
  next_attempt_at = none;
  locked_at = none;
  locked_by = none;
  last_error = none;
}

-- What `json.dumps` raises at a `uuid.UUID`.
abbrev pub type_error : Exception
type_error = other "Object of type UUID is not JSON serializable"

-- `json.dumps(payload)`, by the value under `idempotency_key`; all other values have a JSON form.
abbrev pub json_dumps : Key → Envelope → Outcome Envelope
json_dumps (text_key t) payload = ok payload
json_dumps (uuid_key i) payload = raise type_error

-- The two writes of the transaction, unless the text of the payload could not be made.
abbrev pub write_outcome : Outcome Envelope → Uuid → Finish → Uuid → Time → Db → Outcome Db
write_outcome (raise e) i f event_row now db = raise e
write_outcome (ok payload) i f event_row now db = ok (record {
  documents = update_where (has_id i) (finish_row f now) db.documents;
  outbox = db.outbox ++ (outbox_row i f event_row now ∷ []);
})

-- One transaction: the document's update, by its id alone, and the outbox row; or what it raises.
unfoldable pub finish_document : Uuid → Finish → Uuid → Time → Db → Outcome Db
finish_document i f event_row now db =
    write_outcome (json_dumps f.payload.idempotency_key f.payload) i f event_row now db

-- The database after a transaction: as it was where the transaction raised.
abbrev pub committed : Outcome Db → Db → Db
committed (ok after) db = after
committed (raise e) db = db

-- `_rollback` of the servicer: `DELETE FROM documents WHERE id = $1`.
unfoldable pub delete_document : Uuid → Db → Db
delete_document i db = record db { documents = keep (λ d. not (has_id i d)) db.documents }

-- `processed_at IS NOT NULL AND processed_at < $1`
abbrev pub is_expired : Time → Document → Bool
is_expired older_than d = elim d.processed_at [ none ↦ false | some t ↦ ltb t older_than ]

abbrev pub processed_key : Document → ℕ
processed_key d = elim d.processed_at [ none ↦ 0 | some t ↦ t ]

abbrev pub expiry_limit : ℕ
expiry_limit = 100

abbrev pub document_id : Document → Uuid
document_id d = d.id

unfoldable pub list_expired_documents : Time → Db → List Uuid
list_expired_documents older_than db =
    map document_id
      (take expiry_limit (sort_by processed_key (keep (is_expired older_than) db.documents)))

abbrev pub purge_row : Time → Document → Document
purge_row now d = record d { result = none; error_message = none; updated_at = now }

unfoldable pub purge_document_results : List Uuid → Time → Db → Db
purge_document_results ids now db = record db {
  documents = update_where (λ d. contains ids d.id) (purge_row now) db.documents;
}

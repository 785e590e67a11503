-- ===== src/Examples/Data.antt =====
-- The calls and the rows that the examples use.
use ocr.Base.{String, Bool, true, false, none, some, [], ◌∷◌}
use ocr.Base.Tests.{string_eq}
use ocr.Base.Int.{pos}
use ocr.Store.Rows.{Uuid, Key, uuid_key, text_key, queued, Document, OutboxEvent, Envelope, Db}
use ocr.Store.Documents.{Submission}
use ocr.Events.Publisher.{Kafka}
use ocr.Pipeline.Outcome.{ok}
use ocr.Pipeline.Analysis.{OcrProvider}
use ocr.Pipeline.Process.{World}
use ocr.Api.Request.{SubmitDocumentRequest}
use ocr.Api.Servicer.{Api, Servicer, Call}
use ocr.Examples.Installation.{settings, storage, schemas, ctx_with, quiet}

abbrev pub empty_db : Db
empty_db = record { documents = []; outbox = [] }

abbrev pub key : String
key = "00000000-0000-4000-8000-000000000001"

-- The key as asyncpg reads it.
abbrev pub column_key : Key
column_key = uuid_key 0x40008000000000000001

abbrev pub submission : Uuid → Submission
submission i = record {
  document_id = i;
  idempotency_key = column_key;
  external_ref = "invoice-7";
  schema_id = "receipt@1";
  caller_id = "expense";
  source_bucket = "receipts";
  source_path = "a.png";
  declared_mime = "image/png";
  size_bytes = pos 5;
  trace_id = none;
}

abbrev pub document : Document
document = record {
  id = 1;
  idempotency_key = column_key;
  external_ref = "invoice-7";
  doc_type = "receipt@1";
  status = queued;
  caller_id = "expense";
  source_bucket = "receipts";
  source_path = "a.png";
  declared_mime = "image/png";
  size_bytes = pos 5;
  result = none;
  avg_confidence = none;
  error_code = none;
  error_message = none;
  trace_id = none;
  processed_at = none;
  created_at = 5;
  updated_at = 5;
}

abbrev pub world_of : Db → World
world_of db = record { db = db; temp_files = 0; metrics = [] }

abbrev pub queued_db : Db
queued_db = record { documents = document ∷ []; outbox = [] }

-- The row as `DocumentRow` declares it, with a text for its key.
abbrev pub declared : Document
declared = record document { idempotency_key = text_key key }

abbrev pub declared_db : Db
declared_db = record { documents = declared ∷ []; outbox = [] }

abbrev pub request : SubmitDocumentRequest
request = record {
  idempotency_key = key;
  external_ref = "invoice-7";
  schema_id = "receipt@1";
  caller_id = "expense";
  source = record {
    bucket = "receipts";
    storage_path = "a.png";
    size_bytes = pos 5;
    declared_mime = "image/png";
  };
}

abbrev pub servicer : OcrProvider → Servicer
servicer provider = record {
  settings = settings;
  schemas = schemas;
  storage = storage;
  pipeline_ctx = some (ctx_with provider);
  uuid_text = λ i. key;
  read_uuid = λ t. some 1;
  key_column = λ t. ok column_key;
}

abbrev pub call : Bool → Call
call enqueue_fails = record {
  method = "SubmitDocument";
  document_id = 1;
  trace_id = none;
  now = 5;
  enqueue_fault = enqueue_fails;
  rollback_fault = false;
  between = λ db. db;
  moment = quiet;
  cancel = none;
  cancel_fault = false;
  cancel_event_id = 80;
  cancel_event_row = 81;
  cancelled_at = 30;
}

abbrev pub api_of : Db → Api
api_of db = record { world = world_of db; queue = []; rpc_requests = [] }

-- A Kafka that takes every message and delivers none.
abbrev pub losing : Kafka
losing = record { accepts = λ sent m. true; delivers = λ m. false }

abbrev pub envelope : Envelope
envelope = record {
  schema_version = "1.0";
  event_id = 70;
  event_type = "document.processed";
  occurred_at = 20;
  document_id = 1;
  external_ref = "invoice-7";
  caller_id = "expense";
  idempotency_key = text_key key;
  producer = "ocr";
  payload = some none;
  error = none;
}

abbrev pub event : OutboxEvent
event = record {
  id = 71;
  aggregate_type = "document";
  aggregate_id = 1;
  event_type = "document.processed";
  event_version = 1;
  topic = "document.processed";
  payload = envelope;
  created_at = 20;
  published_at = none;
  trace_id = none;
  attempt_count = 0;
  next_attempt_at = none;
  locked_at = none;
  locked_by = none;
  last_error = none;
}

abbrev pub event_db : Db
event_db = record { documents = []; outbox = event ∷ [] }

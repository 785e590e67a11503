-- ===== src/Examples/Installation.antt =====
-- The surroundings of the examples: settings, a schema, an object store with one image, and an OCR
-- provider.
use ocr.Base.{ℕ, ◌+◌, ◌*◌, ◌/◌, ◌<>◌, true, false, none, some, List, [], ◌∷◌}
use ocr.Base.Tests.{ltb, leb, ◌==◌, string_eq, if◌then◌else◌}
use ocr.Base.Int.{pos, pos_part}
use ocr.Base.Float.{Float, FloatOps}
use ocr.Base.Text.{codes, is_one_of}
use ocr.Base.Regex.{one, plus, group}
use ocr.Settings.{Settings, paddleocr_local, sync, Host}
use ocr.Extraction.Schema.{Line, money, regex, FieldSchema, Schema, Schemas}
use ocr.Extraction.Extract.{Tools}
use ocr.Pipeline.Outcome.{ok, raise, provider_transient, unsupported_file_type}
use ocr.Pipeline.Inspect.{Bytes, Media}
use ocr.Pipeline.Download.{no_such_key, body, Storage}
use ocr.Pipeline.Analysis.{PipelineCtx, OcrProvider}
use ocr.Pipeline.Process.{Moment}

abbrev total : List Float → ℕ
total [] = 0
total (x ∷ xs) = x.bits + total xs

-- Floats as whole percents.
abbrev pub floats : FloatOps
floats = record {
  lt = λ a b. ltb a.bits b.bits;
  le = λ a b. leb a.bits b.bits;
  of_int = λ n. record { bits = pos_part n };
  trunc = λ a. pos a.bits;
  mul = λ a b. record { bits = a.bits * b.bits };
  div = λ a b. record { bits = a.bits / b.bits };
  sum = λ xs. record { bits = total xs };
  round4 = λ a. a;
  fixed2 = λ a. "0.90";
}

abbrev pub percent : ℕ → Float
percent n = record { bits = n }

abbrev pub host : Host
host = record { floats = floats; is_dir = λ d. d == "schemas"; upper = λ t. t; cpu_count = some 4 }

abbrev pub settings : Settings
settings = record {
  database_dsn = "postgresql://db/ocr";
  redis_url = "redis://redis";
  kafka_brokers = "kafka:9092";
  kafka_topic = "document.processed";
  allowed_buckets = "receipts" ∷ [];
  max_file_bytes = pos 16;
  max_pages = pos 5;
  max_image_dim = pos 4000;
  grpc_port = pos 50051;
  worker_concurrency = pos 4;
  semaphore_override = none;
  storage_endpoint_url = none;
  storage_access_key_id = none;
  storage_secret_access_key = none;
  storage_region = "auto";
  schema_dir = "schemas";
  provider = paddleocr_local;
  baidu_api_url = none;
  baidu_async_url = "https://async";
  baidu_mode = sync;
  baidu_unwarp = false;
  baidu_poll_interval = percent 5;
  baidu_poll_timeout = percent 300;
  baidu_token = none;
  baidu_timeout = percent 60;
  log_level = "INFO";
  log_format = "json";
  service_name = "ocr";
  service_env = "test";
  otel_endpoint = none;
  otel_sdk_disabled = true;
  metric_interval_ms = pos 1000;
  sync_max_bytes = pos 12;
}

abbrev pub png_image : Bytes
png_image = 0x89 ∷ b'P' ∷ b'N' ∷ b'G' ∷ 0x0d ∷ []

abbrev pub storage : Storage
storage = record {
  get_object = λ kwargs bucket path.
      if path == "a.png" then body (png_image ∷ []) none none else no_such_key;
  unlink_fails = false;
  repr = λ t. "'" <> (t <> "'");
  str_int = λ n. "16";
}

abbrev pub media : Media
media = record {
  floats = floats;
  open_pdf = λ content. raise (unsupported_file_type "no document");
  render = λ page. png_image;
  image_size = λ content. ok (100, 200);
  resize_jpeg = λ content w h. content;
  str_int = λ n. "200";
}

abbrev pub total_line : Line
total_line = record {
  text = codes "TOTAL 27800";
  score = percent 95;
  bbox = record { x1 = pos 10; y1 = pos 20; x2 = pos 90; y2 = pos 40 };
  page = 1;
}

-- A provider that reads the line on every image, and one whose service is down.
abbrev pub reading : OcrProvider
reading content mime = ok (total_line ∷ [])

abbrev pub down : OcrProvider
down content mime = raise (provider_transient "503")

abbrev pub total_field : FieldSchema
total_field = record {
  name = "total";
  type = money;
  required = true;
  threshold = percent 90;
  currency = "IDR";
  matchers =
      record {
        kind = regex;
        labels = [];
        pattern = some (group 1 (plus (one (is_one_of (codes "0123456789")))));
        near_right = false;
        x_min_ratio = none;
        max_top_n = none;
        label_fuzzy_min = pos 85;
      }
      ∷ [];
}

abbrev pub receipt : Schema
receipt = record { schema_id = "receipt@1"; doc_type = "receipt"; fields = total_field ∷ [] }

abbrev pub tools : Tools
tools = record {
  floats = floats;
  lower = λ t. t;
  partial_ratio = λ a b. percent 0;
  parse_date = λ t. none;
}

abbrev pub schemas : Schemas
schemas = ("receipt@1", receipt) ∷ []

abbrev pub ctx_with : OcrProvider → PipelineCtx
ctx_with provider = record {
  settings = settings;
  schemas = schemas;
  provider = provider;
  tools = tools;
  media = media;
  storage = storage;
}

abbrev pub quiet : Moment
quiet = record {
  started = 10;
  ended = 20;
  event_id = 70;
  event_row = 71;
  finish_fault = none;
  failed_event_id = 72;
  failed_event_row = 73;
  fail_fault = none;
}

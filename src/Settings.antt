-- ===== src/Settings.antt =====
-- src/ocr_engine/settings.py. The fields have passed pydantic's type checks, which are not
-- modelled; an int is an integer, a float is a `Float`, a secret is its text.
pub mod Validity
use text.Mathlib.Text.{starts_with}
use ocr.Base.{
  ℕ, zero, suc, ◌/◌, String, ◌<>◌, Bool, true, false, not, ◌&&◌, ◌||◌, Option, none, some, List, [],
  ◌∷◌, ◌++◌, max,
}
use ocr.Base.Tests.{nat_beq, ltb, leb, ◌==◌, string_eq, if◌then◌else◌}
use ocr.Base.Lists.{keep, contains}
use ocr.Base.Int.{ℤ, pos, negsuc, leb_ℤ, ltb_ℤ}
use ocr.Base.Float.{Float, FloatOps, float_zero}
use ocr.Base.Text.{Text, strip}

pub data Provider : Type 0 where
  baidu_aistudio paddleocr_local : Provider

pub data BaiduMode : Type 0 where
  sync async : BaiduMode

pub record Settings : Type 0 where
  pub database_dsn : String
  pub redis_url : String
  pub kafka_brokers : String
  pub kafka_topic : String
  pub allowed_buckets : List String
  pub max_file_bytes : ℤ
  pub max_pages : ℤ
  pub max_image_dim : ℤ
  pub grpc_port : ℤ
  pub worker_concurrency : ℤ
  pub semaphore_override : Option ℤ
  pub storage_endpoint_url : Option String
  pub storage_access_key_id : Option String
  pub storage_secret_access_key : Option String
  pub storage_region : String
  pub schema_dir : String
  pub provider : Provider
  pub baidu_api_url : Option String
  pub baidu_async_url : String
  pub baidu_mode : BaiduMode
  pub baidu_unwarp : Bool
  pub baidu_poll_interval : Float
  pub baidu_poll_timeout : Float
  pub baidu_token : Option String
  pub baidu_timeout : Float
  pub log_level : String
  pub log_format : String
  pub service_name : String
  pub service_env : String
  pub otel_endpoint : Option String
  pub otel_sdk_disabled : Bool
  pub metric_interval_ms : ℤ
  pub sync_max_bytes : ℤ

-- What the validator asks of its surroundings.
pub record Host : Type 0 where
  pub floats : FloatOps
  pub is_dir : String → Bool
  -- `str.upper`
  pub upper : String → String
  -- `os.cpu_count()`
  pub cpu_count : Option ℕ

prepend : ℕ → List Text → List Text
prepend c [] = (c ∷ []) ∷ []
prepend c (w ∷ ws) = (c ∷ w) ∷ ws

-- `value.split(",")`
split_commas : Text → List Text
unfolding prepend
split_commas [] = [] ∷ []
split_commas (c ∷ t) =
    let rest = split_commas t in if nat_beq c b',' then [] ∷ rest else prepend c rest

abbrev is_blank : Text → Bool
is_blank [] = true
is_blank (c ∷ t) = false

strip_each : List Text → List Text
unfolding strip
strip_each [] = []
strip_each (w ∷ ws) = strip w ∷ strip_each ws

-- `_split_buckets` on a text: the items between commas, stripped, without the empty ones.
unfoldable pub split_buckets : Text → List Text
unfolding split_commas strip_each
split_buckets value = keep (λ w. not (is_blank w)) (strip_each (split_commas value))

-- `if test: problems.append(message)`, one after another.
abbrev pub collect : List (Bool × String) → List String
collect [] = []
collect ((test, message) ∷ checks) =
    let rest = collect checks in if test then message ∷ rest else rest

-- `not self.x` of a text, and of a text that may be absent.
abbrev pub is_empty : String → Bool
is_empty s = s == ""

abbrev pub is_absent : Option String → Bool
is_absent none = true
is_absent (some s) = is_empty s

abbrev pub not_positive : ℤ → Bool
not_positive n = leb_ℤ n (pos 0)

-- The option is a text that is not empty and fails a test.
abbrev pub given_but : (String → Bool) → Option String → Bool
given_but test none = false
given_but test (some s) = not (is_empty s) && not (test s)

abbrev pub has_http_scheme : String → Bool
has_http_scheme s = starts_with s "http://" || starts_with s "https://"

abbrev pub is_https : String → Bool
is_https s = starts_with s "https://"

abbrev pub no_buckets : List String → Bool
no_buckets [] = true
no_buckets (b ∷ bs) = false

abbrev pub is_sync : BaiduMode → Bool
is_sync sync = true
is_sync async = false

module _ (host : Host) (s : Settings) where
  abbrev pub bad_limits : Bool
  bad_limits =
      not_positive s.max_file_bytes || (not_positive s.max_pages || not_positive s.max_image_dim)

  abbrev pub bad_level : Bool
  bad_level = not (contains ("DEBUG" ∷ "INFO" ∷ "WARNING" ∷ "ERROR" ∷ []) (host.upper s.log_level))

  abbrev pub bad_format : Bool
  bad_format = not (contains ("json" ∷ "text" ∷ []) s.log_format)

  abbrev pub bad_polling : Bool
  bad_polling =
      host.floats.le s.baidu_poll_interval float_zero
      || host.floats.le s.baidu_poll_timeout float_zero

  abbrev pub baidu_checks : Provider → List (Bool × String)
  baidu_checks paddleocr_local = []
  baidu_checks baidu_aistudio =
      (is_absent s.baidu_token, "OCR_BAIDU_TOKEN is required when OCR_PROVIDER=baidu_aistudio")
      ∷ (
        is_sync s.baidu_mode && is_absent s.baidu_api_url,
        "OCR_BAIDU_API_URL is required when OCR_BAIDU_MODE=sync",
      )
      ∷ (given_but is_https s.baidu_api_url, "OCR_BAIDU_API_URL must be https")
      ∷ (
        not (is_sync s.baidu_mode) && not (is_https s.baidu_async_url),
        "OCR_BAIDU_ASYNC_URL must be https",
      )
      ∷ (bad_polling, "OCR_BAIDU_POLL_INTERVAL / OCR_BAIDU_POLL_TIMEOUT must be > 0")
      ∷ []

  -- The tests of `_validate`; the second test of `sync_max_bytes` is an `elif`.
  abbrev pub checks : List (Bool × String)
  checks =
      (is_empty s.database_dsn, "OCR_DATABASE_DSN must not be empty")
      ∷ (is_empty s.kafka_brokers, "OCR_KAFKA_BROKERS must not be empty")
      ∷ (
        no_buckets s.allowed_buckets,
        "OCR_ALLOWED_BUCKETS must not be empty - an empty allowlist reads nothing",
      )
      ∷ (bad_limits, "OCR_MAX_FILE_BYTES / OCR_MAX_PAGES / OCR_MAX_IMAGE_DIM must be > 0")
      ∷ (not_positive s.worker_concurrency, "OCR_WORKER_CONCURRENCY must be > 0")
      ∷ (not (host.is_dir s.schema_dir), "OCR_SCHEMA_DIR does not exist: " <> s.schema_dir)
      ∷ (bad_level, "LOG_LEVEL must be one of debug|info|warning|error")
      ∷ (bad_format, "LOG_FORMAT must be one of json|text")
      ∷ (
        given_but has_http_scheme s.otel_endpoint,
        "OTEL_EXPORTER_OTLP_ENDPOINT requires a scheme - the scheme selects TLS "
            <> "(http:// locally, https:// in production)",
      )
      ∷ (not_positive s.sync_max_bytes, "OCR_SYNC_MAX_BYTES must be > 0")
      ∷ (
        not (not_positive s.sync_max_bytes) && ltb_ℤ s.max_file_bytes s.sync_max_bytes,
        "OCR_SYNC_MAX_BYTES must not exceed OCR_MAX_FILE_BYTES",
      )
      ∷ (
        not_positive s.metric_interval_ms,
        "OTEL_METRIC_EXPORT_INTERVAL must be > 0 (milliseconds)",
      )
      ∷ []

  -- The list that `_validate` collects; the settings are refused if it is not empty.
  unfoldable pub problems : List String
  problems = collect (checks ++ baidu_checks s.provider)

  -- `os_cpu_count() or 2`
  abbrev pub cpus : ℕ
  cpus = elim host.cpu_count [ none ↦ 2 | some n ↦ if nat_beq n 0 then 2 else n ]

  -- The property `ocr_semaphore`.
  unfoldable pub ocr_semaphore : ℤ
  ocr_semaphore = elim s.semaphore_override [
    | none ↦ pos (max 1 (cpus / 2))
    | some n ↦ if ltb_ℤ (pos 0) n then n else pos (max 1 (cpus / 2))
  ]

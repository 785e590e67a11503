-- ===== src/Settings/Validity.antt =====
-- What settings that pass `_validate` (src/ocr_engine/settings.py) can be relied on for.
use ocr.Base.{◌≡◌, ◌≢◌, refl, String, Bool, true, false, List, [], ◌∷◌, ◌++◌, arith}
use ocr.Base.Tests.{string_eq}
use ocr.Base.Lists.{All}
use ocr.Base.Int.{pos, ◌≤ℤ◌}
use ocr.Settings.{
  Provider, baidu_aistudio, paddleocr_local, sync, async, Settings, Host, collect, checks,
  baidu_checks, is_empty, is_absent, has_http_scheme, is_https, given_but, bad_level, bad_format,
  bad_polling, problems, ocr_semaphore,
}

pub record IsUsable (host : Host) (s : Settings) : Type 0 where
  pub dsn : is_empty s.database_dsn ≡ false
  pub brokers : is_empty s.kafka_brokers ≡ false
  pub buckets : s.allowed_buckets ≢ []
  pub file_limit : pos 1 ≤ℤ s.max_file_bytes
  pub page_limit : pos 1 ≤ℤ s.max_pages
  pub image_limit : pos 1 ≤ℤ s.max_image_dim
  pub workers : pos 1 ≤ℤ s.worker_concurrency
  pub schemas : host.is_dir s.schema_dir ≡ true
  pub level : bad_level host s ≡ false
  pub format : bad_format host s ≡ false
  pub telemetry : given_but has_http_scheme s.otel_endpoint ≡ false
  pub sync_low : pos 1 ≤ℤ s.sync_max_bytes
  pub sync_high : s.sync_max_bytes ≤ℤ s.max_file_bytes
  pub interval : pos 1 ≤ℤ s.metric_interval_ms

-- With the hosted provider there is a token, the URL that the mode needs, and it is https.
pub record IsReachable (host : Host) (s : Settings) : Type 0 where
  pub token : is_absent s.baidu_token ≡ false
  pub api_url : s.baidu_mode ≡ sync → is_absent s.baidu_api_url ≡ false
  pub api_https : given_but is_https s.baidu_api_url ≡ false
  pub async_https : s.baidu_mode ≡ async → is_https s.baidu_async_url ≡ true
  pub polling : bad_polling host s ≡ false

collect-nil : (cs : List (Bool × String)) → collect cs ≡ [] → All (λ c. c.0 ≡ false) cs
collect-nil [] h = tt
collect-nil ((true, m) ∷ cs) h = cc
collect-nil ((false, m) ∷ cs) h = (refl, collect-nil cs h)

All-append-left :
    (xs ys : List (Bool × String))
    → All (λ c. c.0 ≡ false) (xs ++ ys)
    → All (λ c. c.0 ≡ false) xs × All (λ c. c.0 ≡ false) ys
All-append-left [] ys h = (tt, h)
All-append-left (x ∷ xs) ys h = let (l, r) = All-append-left xs ys h.1 in ((h.0, l), r)

module _ (host : Host) (s : Settings) where
  checks-IsUsable : All (λ c. c.0 ≡ false) (checks host s) → IsUsable host s
  checks-IsUsable
        (
          dsn,
          (
            brokers,
            (
              buckets,
              (
                limits,
                (workers, (schemas, (level, (format, (telemetry, (low, (high, (interval, _)))))))),
              ),
            ),
          ),
        ) =
      record {
        dsn = dsn;
        brokers = brokers;
        buckets = λ e. ground arith;
        file_limit = ground arith;
        page_limit = ground arith;
        image_limit = ground arith;
        workers = ground arith;
        schemas = ground arith;
        level = level;
        format = format;
        telemetry = telemetry;
        sync_low = ground arith;
        sync_high = ground arith;
        interval = ground arith;
      }

  baidu_checks-IsReachable :
      All (λ c. c.0 ≡ false) (baidu_checks host s baidu_aistudio) → IsReachable host s
  baidu_checks-IsReachable (token, (api_url, (api_https, (async_https, (polling, _))))) = record {
    token = token;
    api_url = λ e. ground arith;
    api_https = api_https;
    async_https = λ e. ground arith;
    polling = polling;
  }

  checks_of-IsReachable :
      (p : Provider)
      → All (λ c. c.0 ≡ false) (baidu_checks host s p)
      → p ≡ baidu_aistudio
      → IsReachable host s
  checks_of-IsReachable baidu_aistudio h e = baidu_checks-IsReachable h
  checks_of-IsReachable paddleocr_local h e = cc

  -- Settings that pass are usable: limits, workers and intervals are positive, the synchronous cap
  -- lies within the file limit, the allowlist is not empty; and with the hosted provider the token
  -- and the https URL of the mode are there.
  pub problems-nil :
      problems host s ≡ [] → IsUsable host s × (s.provider ≡ baidu_aistudio → IsReachable host s)
  unfolding problems
  problems-nil h =
      let (general, baidu) =
        All-append-left (checks host s) (baidu_checks host s s.provider)
          (collect-nil (checks host s ++ baidu_checks host s s.provider) h) in
      (checks-IsUsable general, checks_of-IsReachable s.provider baidu)

  -- The semaphore of the OCR stage always admits at least one call.
  pub ocr_semaphore_pos : pos 1 ≤ℤ ocr_semaphore host s
  unfolding ocr_semaphore
  ocr_semaphore_pos = ground arith

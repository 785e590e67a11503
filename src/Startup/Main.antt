-- ===== src/Startup/Main.antt =====
-- The `main` of the three processes (src/ocr_engine/cli): settings, telemetry, and the run.
pub mod Configured
pub mod Usable
use ocr.Base.{
  ℕ, zero, suc, ◌-◌, ◌*◌, ◌/◌, String, ◌<>◌, Bool, true, false, Option, none, some, List, [], ◌∷◌,
}
use ocr.Base.Int.{ℤ, pos}
use ocr.Store.Rows.{Uuid, Time, Db}
use ocr.Settings.{Settings, problems}
use ocr.Events.Publisher.{Kafka, run}
use ocr.Pipeline.Outcome.{Outcome, ok, raise, ◌>>=◌, value_error}
use ocr.Obs.Logging.{Logs, configure_logging}
use ocr.Obs.Exporters.{Exporter, MetricReader, setup_tracing, setup_metrics}
use ocr.Startup.{Site, ProducerConfig, Running, Services, serve, stop, startup, shutdown}

-- What `main` sets up before it runs: logs, the exporter of spans, the role of the process, and the
-- reader of metrics.
pub record Telemetry : Type 0 where
  pub logs : Logs
  pub tracer : Option Exporter
  pub role : String
  pub reader : Option MetricReader

-- `"\n".join(problems)`
abbrev join_lines : String → List String → String
join_lines p [] = p
join_lines p (q ∷ qs) = p <> ("\n" <> join_lines q qs)

-- The settings of `saq_settings`, with those of its one cron job.
pub record SaqSettings : Type 0 where
  pub concurrency : ℤ
  pub cron : String
  pub max_tries : ℕ
  pub job_timeout : ℕ
  pub heartbeat : ℕ

module _ (site : Site) (s : Settings) where
  abbrev pub refuse_any : List String → Outcome Settings
  refuse_any [] = ok s
  refuse_any (p ∷ ps) = raise (value_error ("invalid settings:\n" <> join_lines p ps))

  -- `get_settings`, where the environment gives these fields.
  unfoldable pub get_settings : Outcome Settings
  unfolding problems
  get_settings = refuse_any (problems site.host s)

  -- The calls of `main` before its run.
  unfoldable pub configure : String → Telemetry
  unfolding configure_logging setup_tracing setup_metrics
  configure role = record {
    logs = configure_logging site.host s.log_level s.log_format;
    tracer = setup_tracing s.otel_endpoint s.otel_sdk_disabled s.service_name s.service_env;
    role = role;
    reader =
        setup_metrics site.hostname s.otel_endpoint s.otel_sdk_disabled s.metric_interval_ms
          s.service_name s.service_env;
  }

  -- `run` of the api process, once the signal to stop is there.
  abbrev pub serve_until_stop : Outcome Services × Running → Outcome Unit × Running
  serve_until_stop (raise e, w) = (raise e, w)
  serve_until_stop (ok sv, w) = stop w

  abbrev pub api_run : Outcome Settings → Running → Outcome Unit × Running
  api_run (raise e) w = (raise e, w)
  api_run (ok settings) w = serve_until_stop (serve site s s.grpc_port w)

  -- `main` of src/ocr_engine/cli/api.py
  unfoldable pub api_main : Running → Outcome Unit × Running
  unfolding get_settings serve stop
  api_main w = api_run get_settings w

  -- `saq_settings`
  unfoldable pub saq_settings : Outcome SaqSettings
  saq_settings = site.queue_from_url s.redis_url >>= λ queue. ok (record {
    concurrency = s.worker_concurrency;
    cron = "*/30 * * * *";
    max_tries = 3;
    job_timeout = 300;
    heartbeat = 15;
  })

  abbrev producer_config : ProducerConfig
  producer_config = record {
    bootstrap_servers = s.kafka_brokers;
    client_id = "ocr-outbox";
    enable_idempotence = true;
    acks = "all";
  }

abbrev hex_digits : List String
hex_digits =
    "0" ∷ "1" ∷ "2" ∷ "3" ∷ "4" ∷ "5" ∷ "6" ∷ "7" ∷ "8" ∷ "9" ∷ "a" ∷ "b" ∷ "c" ∷ "d" ∷ "e" ∷ "f"
    ∷ []

abbrev at_index : List String → ℕ → String
at_index [] n = ""
at_index (d ∷ ds) zero = d
at_index (d ∷ ds) (suc n) = at_index ds n

-- The last so many hexadecimal digits of a number.
abbrev hex_string : ℕ → ℕ → String
hex_string zero n = ""
hex_string (suc width) n = hex_string width (n / 16) <> at_index hex_digits (n - n / 16 * 16)

-- `new_worker_id`: the first 8 digits of the UUID's 32.
unfoldable pub new_worker_id : String → Uuid → String
new_worker_id hostname uuid4 =
    hostname <> ("-" <> hex_string 8 (uuid4 / 79228162514264337593543950336))

-- What SAQ does with a worker: what `Worker` makes of the settings as its only argument, how the
-- queue connects, and what `worker.start` does, by the start
-- and the shutdown hook that it is given.
pub record Saq : Type 0 where
  pub new_worker : SaqSettings → Outcome Unit
  pub connect : Outcome Unit
  pub start :
      (Running → Outcome Services × Running)
      → (Running → Running)
      → Running
      → Outcome Unit × Running

module _ (site : Site) (s : Settings) (saq : Saq) where
  -- `finally: await worker.queue.disconnect()`
  abbrev disconnected : Outcome Unit × Running → Outcome Unit × Running
  disconnected (o, w) = (o, record w { queues = w.queues - 1 })

  abbrev connected : Outcome Unit → Running → Outcome Unit × Running
  connected (raise e) w = (raise e, w)
  connected (ok u) w =
      disconnected (saq.start (startup site s) shutdown (record w { queues = suc w.queues }))

  abbrev with_worker : Outcome Unit → Running → Outcome Unit × Running
  with_worker (raise e) w = (raise e, w)
  with_worker (ok worker) w = connected saq.connect w

  abbrev work : Outcome SaqSettings → Running → Outcome Unit × Running
  work (raise e) w = (raise e, w)
  work (ok settings) w = with_worker (saq.new_worker settings) w

  abbrev worker_run : Outcome Settings → Running → Outcome Unit × Running
  worker_run (raise e) w = (raise e, w)
  worker_run (ok settings) w = work (saq_settings site s) w

  -- `main` of src/ocr_engine/cli/worker.py
  unfoldable pub worker_main : Running → Outcome Unit × Running
  unfolding get_settings saq_settings startup
  worker_main w = worker_run (get_settings site s) w

module _ (site : Site) (s : Settings) (kafka : Kafka) (marked_at : Uuid → Time) (uuid4 : Uuid)
    (ticks : List Time) where
  -- `try: await publisher.run(stop) finally: await store.close()`
  abbrev publish : Outcome Unit → Running → Db → Outcome Unit × Running × Db
  publish (raise e) w db = (raise e, w, db)
  publish (ok u) w db = (
    ok tt,
    record w { pools = w.pools - 1 },
    run kafka s.kafka_topic marked_at (new_worker_id site.hostname uuid4) 100 ticks db,
  )

  abbrev with_outbox_pool : Outcome Unit → Running → Db → Outcome Unit × Running × Db
  with_outbox_pool (raise e) w db = (raise e, w, db)
  with_outbox_pool (ok u) w db =
      publish (site.new_producer (producer_config site s)) (record w { pools = suc w.pools }) db

  abbrev outbox_run : Outcome Settings → Running → Db → Outcome Unit × Running × Db
  outbox_run (raise e) w db = (raise e, w, db)
  outbox_run (ok settings) w db =
      with_outbox_pool (site.create_pool s.database_dsn (pos 1) (pos 4)) w db

  -- `main` of src/ocr_engine/cli/outbox.py, with a tick for each time until the signal.
  unfoldable pub outbox_main : Running → Db → Outcome Unit × Running × Db
  unfolding get_settings run new_worker_id
  outbox_main w db = outbox_run (get_settings site s) w db

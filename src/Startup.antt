-- ===== src/Startup.antt =====
-- How the processes start and stop: `serve` (src/ocr_engine/api/server.py), `_startup` and
-- `_shutdown` (src/ocr_engine/worker/settings.py).
pub mod Schemes
pub mod Ready
pub mod Worker
pub mod Main
use ocr.Base.{ℕ, zero, suc, ◌-◌, String, ◌<>◌, Bool, Option, List}
use ocr.Base.Int.{ℤ, pos}
use ocr.Settings.{Settings, Host, ocr_semaphore}
use ocr.Extraction.Schema.{Line, Schemas}
use ocr.Extraction.Loader.{Reading}
use ocr.Extraction.Loader.Files.{load_schemas}
use ocr.Pipeline.Outcome.{Exception, Outcome, ok, raise, other}
use ocr.Pipeline.Inspect.{Bytes, Mime}
use ocr.Ocr.Baidu.{Conversions}
use ocr.Ocr.Baidu.Requests.{Client}
use ocr.Ocr.Baidu.Provider.{build_provider}

-- The configuration of Kafka's producer.
pub record ProducerConfig : Type 0 where
  pub bootstrap_servers : String
  pub client_id : String
  pub enable_idempotence : Bool
  pub acks : String

-- What a start draws from outside: the host and its name, the files of a directory, the values of
-- the loader and of the provider; how the pool, the queue and the producer of Kafka are made; the
-- gRPC server's port and start.
pub record Site : Type 0 where
  pub host : Host
  pub hostname : String
  pub yaml_files : String → List String
  pub reading : Reading
  pub conversions : Conversions
  pub create_pool : String → ℤ → ℤ → Outcome Unit
  pub queue_from_url : String → Outcome Unit
  pub new_producer : ProducerConfig → Outcome Unit
  pub add_insecure_port : ℤ → Outcome ℕ
  pub start_server : Outcome Unit
  pub str_port : ℤ → String

-- What the health service says; `unset` before it is told.
pub data Health : Type 0 where
  unset serving not_serving : Health

-- What the process holds: open pools, open HTTP clients, servers that run, connected queues; and
-- its health.
pub record Running : Type 0 where
  pub pools : ℕ
  pub clients : ℕ
  pub servers : ℕ
  pub queues : ℕ
  pub health : Health

-- The provider of the pipeline, by what a call draws from outside.
abbrev pub HostedProvider : Type 0
HostedProvider = Client → Bytes → Mime → Option (Outcome (List Line))

-- What the context of the pipeline holds, but for what `Running` counts.
pub record Services : Type 0 where
  pub schemas : Schemas
  pub provider : HostedProvider
  pub ocr_semaphore : ℤ

module _ (site : Site) (s : Settings) where
  abbrev pub services : Schemas → HostedProvider → Services
  services schemas provider = record {
    schemas = schemas;
    provider = provider;
    ocr_semaphore = ocr_semaphore site.host s;
  }

  abbrev pub schemas_of_dir : Outcome Schemas
  schemas_of_dir = load_schemas site.reading s.schema_dir (site.yaml_files s.schema_dir)

  -- The end of `serve`: `server.start()`, and then the health service is told.
  abbrev pub started : Services → Outcome Unit → Running → Outcome Services × Running
  started sv (raise e) w = (raise e, w)
  started sv (ok u) w = (ok sv, record w { servers = suc w.servers; health = serving })

  abbrev pub bound : ℤ → Services → Outcome ℕ → Running → Outcome Services × Running
  bound port sv (raise e) w = (raise e, w)
  bound port sv (ok zero) w = (raise (other ("failed to bind gRPC port " <> site.str_port port)), w)
  bound port sv (ok (suc p)) w = started sv site.start_server w

  abbrev pub queued : ℤ → Services → Outcome Unit → Running → Outcome Services × Running
  queued port sv (raise e) w = (raise e, w)
  queued port sv (ok u) w = bound port sv (site.add_insecure_port port) w

  abbrev pub with_provider :
      ℤ → Schemas → Outcome HostedProvider → Running → Outcome Services × Running
  with_provider port schemas (raise e) w = (raise e, w)
  with_provider port schemas (ok provider) w =
      queued port (services schemas provider) (site.queue_from_url s.redis_url) w

  abbrev pub with_schemas : ℤ → Outcome Schemas → Running → Outcome Services × Running
  with_schemas port (raise e) w = (raise e, w)
  with_schemas port (ok schemas) w =
      with_provider port schemas (build_provider site.conversions s)
        (record w { clients = suc w.clients })

  abbrev pub with_pool : ℤ → Outcome Unit → Running → Outcome Services × Running
  with_pool port (raise e) w = (raise e, w)
  with_pool port (ok u) w = with_schemas port schemas_of_dir (record w { pools = suc w.pools })

  -- `serve`
  unfoldable pub serve : ℤ → Running → Outcome Services × Running
  unfolding load_schemas build_provider ocr_semaphore
  serve port w = with_pool port (site.create_pool s.database_dsn (pos 1) (pos 5)) w

  abbrev pub worker_provider :
      Schemas → Outcome HostedProvider → Running → Outcome Services × Running
  worker_provider schemas (raise e) w = (raise e, w)
  worker_provider schemas (ok provider) w = (ok (services schemas provider), w)

  abbrev pub worker_schemas : Outcome Schemas → Running → Outcome Services × Running
  worker_schemas (raise e) w = (raise e, w)
  worker_schemas (ok schemas) w = worker_provider schemas (build_provider site.conversions s) w

  abbrev pub worker_pool : Outcome Unit → Running → Outcome Services × Running
  worker_pool (raise e) w = (raise e, w)
  worker_pool (ok u) w =
      worker_schemas schemas_of_dir (record w { pools = suc w.pools; clients = suc w.clients })

  -- `_startup` of the worker.
  unfoldable pub startup : Running → Outcome Services × Running
  unfolding load_schemas build_provider ocr_semaphore
  startup w = worker_pool (site.create_pool s.database_dsn (pos 1) s.worker_concurrency) w

-- `_shutdown` of the worker.
abbrev pub shutdown : Running → Running
shutdown w = record w { pools = w.pools - 1; clients = w.clients - 1 }

-- What `server.grace` raises: `grpc.aio.Server` has no such attribute.
abbrev pub no_grace : Exception
no_grace = other "'Server' object has no attribute 'grace'"

-- The `stop` that `serve` returns; the three lines after `server.grace` are never reached.
unfoldable pub stop : Running → Outcome Unit × Running
stop w = (raise no_grace, record w { health = not_serving })

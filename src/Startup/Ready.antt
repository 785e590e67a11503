-- ===== src/Startup/Ready.antt =====
-- What a process that has started can rely on, and what it holds (src/ocr_engine/api/server.py,
-- src/ocr_engine/worker/settings.py).
use ocr.Base.{ℕ, zero, suc, ◌≡◌, ◌≢◌, refl, []}
use ocr.Base.Int.{ℤ, pos, ◌≤ℤ◌}
use ocr.Settings.{Settings, Provider, baidu_aistudio, paddleocr_local}
use ocr.Settings.Validity.{ocr_semaphore_pos}
use ocr.Extraction.Schema.{Schemas}
use ocr.Extraction.Loader.Files.{sorted}
use ocr.Extraction.Loader.Files.Loaded.{IsLoaded, load_schemas-IsLoaded}
use ocr.Pipeline.Outcome.{Outcome, ok, raise}
use ocr.Pipeline.Outcome.Holds.{Yields}
use ocr.Ocr.Baidu.Provider.{extract_lines, provider_of, build_provider}
use ocr.Startup.{
  Site, serving, not_serving, Running, HostedProvider, Services, services, schemas_of_dir, started,
  bound, queued, with_provider, with_schemas, with_pool, serve, no_grace,
}

-- The end of a stop that has closed nothing of what a start opened.
abbrev pub IsLeaked : Running → Outcome Unit × Running → Type 0
IsLeaked before r =
    (r.0 ≡ raise no_grace)
    × (r.1.pools ≡ suc before.pools)
    × (r.1.clients ≡ suc before.clients)
    × (r.1.servers ≡ suc before.servers)
    × (r.1.health ≡ not_serving)

module _ (site : Site) (s : Settings) where
  -- The schemas of the directory, sound and under ids that differ; the provider of the hosted
  -- service, which is the one chosen; and a semaphore that admits a call.
  pub record IsServiceable (sv : Services) : Type 0 where
    pub some_schemas : sv.schemas ≢ []
    pub loaded : IsLoaded site.reading (sorted (site.yaml_files s.schema_dir)) sv.schemas
    pub hosted : s.provider ≡ baidu_aistudio
    pub provider : sv.provider ≡ extract_lines site.conversions s
    pub admits : pos 1 ≤ℤ sv.ocr_semaphore

  abbrev pub AreLoaded : Schemas → Type 0
  AreLoaded schemas =
      (schemas ≢ []) × IsLoaded site.reading (sorted (site.yaml_files s.schema_dir)) schemas

  -- The provider that `build_provider` returns.
  abbrev pub IsBuilt : Outcome HostedProvider → Type 0
  IsBuilt (ok provider) =
      (s.provider ≡ baidu_aistudio) × (provider ≡ extract_lines site.conversions s)
  IsBuilt (raise e) = Unit

  pub build_provider-IsBuilt : IsBuilt (build_provider site.conversions s)
  unfolding build_provider
  build_provider-IsBuilt = by_choice s.provider refl
    where
      by_choice : (p : Provider) → s.provider ≡ p → IsBuilt (provider_of site.conversions s p)
      by_choice baidu_aistudio e = (e, refl)
      by_choice paddleocr_local e = tt

  -- A start that returns: the process is serviceable, holds one pool and one client more, its
  -- server runs, and it says that it is serving. One that raises: no server and no word on health.
  abbrev pub Boots : Outcome Services → Running → Running → Type 0
  Boots (ok sv) before after =
      IsServiceable sv
      × (after.pools ≡ suc before.pools)
      × (after.clients ≡ suc before.clients)
      × (after.servers ≡ suc before.servers)
      × (after.health ≡ serving)
  Boots (raise e) before after = (after.servers ≡ before.servers) × (after.health ≡ before.health)

  abbrev BootsFrom : Running → Outcome Services × Running → Type 0
  BootsFrom before r = Boots r.0 before r.1

  -- What the process holds while it starts.
  abbrev pub holding : Running → Running
  holding w = record w { pools = suc w.pools; clients = suc w.clients }

  started-Boots :
      (sv : Services) (o : Outcome Unit) (w : Running)
      → IsServiceable sv
      → BootsFrom w (started site s sv o (holding w))
  started-Boots sv (raise e) w fit = (refl, refl)
  started-Boots sv (ok u) w fit = (fit, refl, refl, refl, refl)

  bound-Boots :
      (port : ℤ) (sv : Services) (o : Outcome ℕ) (w : Running)
      → IsServiceable sv
      → BootsFrom w (bound site s port sv o (holding w))
  bound-Boots port sv (raise e) w fit = (refl, refl)
  bound-Boots port sv (ok zero) w fit = (refl, refl)
  bound-Boots port sv (ok (suc p)) w fit = started-Boots sv site.start_server w fit

  queued-Boots :
      (port : ℤ) (sv : Services) (o : Outcome Unit) (w : Running)
      → IsServiceable sv
      → BootsFrom w (queued site s port sv o (holding w))
  queued-Boots port sv (raise e) w fit = (refl, refl)
  queued-Boots port sv (ok u) w fit = bound-Boots port sv (site.add_insecure_port port) w fit

  pub services-IsServiceable :
      (schemas : Schemas) (provider : HostedProvider)
      → AreLoaded schemas
      → IsBuilt (ok provider)
      → IsServiceable (services site s schemas provider)
  services-IsServiceable schemas provider loaded built = record {
    some_schemas = loaded.0;
    loaded = loaded.1;
    hosted = built.0;
    provider = built.1;
    admits = ocr_semaphore_pos site.host s;
  }

  with_provider-Boots :
      (port : ℤ) (schemas : Schemas) (o : Outcome HostedProvider) (w : Running)
      → AreLoaded schemas
      → IsBuilt o
      → BootsFrom w (with_provider site s port schemas o (holding w))
  with_provider-Boots port schemas (raise e) w loaded built = (refl, refl)
  with_provider-Boots port schemas (ok provider) w loaded built =
      queued-Boots port (services site s schemas provider) (site.queue_from_url s.redis_url) w
        (services-IsServiceable schemas provider loaded built)

  with_schemas-Boots :
      (port : ℤ) (o : Outcome Schemas) (w : Running)
      → Yields AreLoaded o
      → BootsFrom w (with_schemas site s port o (record w { pools = suc w.pools }))
  with_schemas-Boots port (raise e) w loaded = (refl, refl)
  with_schemas-Boots port (ok schemas) w loaded =
      with_provider-Boots port schemas (build_provider site.conversions s) w loaded
        build_provider-IsBuilt

  with_pool-Boots :
      (port : ℤ) (o : Outcome Unit) (w : Running) → BootsFrom w (with_pool site s port o w)
  with_pool-Boots port (raise e) w = (refl, refl)
  with_pool-Boots port (ok u) w =
      with_schemas-Boots port (schemas_of_dir site s) w
        (load_schemas-IsLoaded site.reading s.schema_dir (site.yaml_files s.schema_dir))

  -- A start of the api process ends with a server that runs and a health of "serving" exactly if it
  -- returns; and then it holds the sound schemas of its directory, under ids that differ, the
  -- hosted provider, which is the one chosen, a semaphore that admits a call, and one pool and one
  -- HTTP client more.
  pub serve-Boots :
      (port : ℤ) (w : Running) → Boots (serve site s port w).0 w (serve site s port w).1
  unfolding serve
  serve-Boots port w = with_pool-Boots port (site.create_pool s.database_dsn (pos 1) (pos 5)) w

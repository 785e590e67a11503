-- ===== src/Startup/Worker.antt =====
-- What a worker that has started can rely on (src/ocr_engine/worker/settings.py).
use ocr.Base.{suc, ◌≡◌, refl, arith}
use ocr.Base.Int.{pos}
use ocr.Settings.{Settings}
use ocr.Extraction.Schema.{Schemas}
use ocr.Extraction.Loader.Files.Loaded.{load_schemas-IsLoaded}
use ocr.Pipeline.Outcome.{Outcome, ok, raise}
use ocr.Pipeline.Outcome.Holds.{Yields}
use ocr.Ocr.Baidu.Provider.{build_provider}
use ocr.Startup.{
  Site, Running, HostedProvider, Services, schemas_of_dir, worker_provider, worker_schemas,
  worker_pool, startup, shutdown,
}
use ocr.Startup.Ready.{
  IsServiceable, AreLoaded, IsBuilt, holding, services-IsServiceable, build_provider-IsBuilt,
}

module _ (site : Site) (s : Settings) where
  -- A worker that starts.
  abbrev pub Works : Outcome Services → Running → Running → Type 0
  Works (ok sv) before after =
      IsServiceable site s sv
      × (after.pools ≡ suc before.pools)
      × (after.clients ≡ suc before.clients)
      × (shutdown after ≡ before)
  Works (raise e) before after = after.health ≡ before.health

  abbrev WorksFrom : Running → Outcome Services × Running → Type 0
  WorksFrom before r = Works r.0 before r.1

  worker_provider-Works :
      (schemas : Schemas) (o : Outcome HostedProvider) (w : Running)
      → (AreLoaded site s) schemas
      → IsBuilt site s o
      → WorksFrom w (worker_provider site s schemas o (holding site s w))
  worker_provider-Works schemas (raise e) w loaded built = refl
  worker_provider-Works schemas (ok provider) w loaded built =
      (services-IsServiceable site s schemas provider loaded built, refl, refl, ground arith)

  worker_schemas-Works :
      (o : Outcome Schemas) (w : Running)
      → Yields (AreLoaded site s) o
      → WorksFrom w (worker_schemas site s o (holding site s w))
  worker_schemas-Works (raise e) w loaded = refl
  worker_schemas-Works (ok schemas) w loaded =
      worker_provider-Works schemas (build_provider site.conversions s) w loaded
        (build_provider-IsBuilt site s)

  worker_pool-Works : (o : Outcome Unit) (w : Running) → WorksFrom w (worker_pool site s o w)
  worker_pool-Works (raise e) w = refl
  worker_pool-Works (ok u) w =
      worker_schemas-Works (schemas_of_dir site s) w
        (load_schemas-IsLoaded site.reading s.schema_dir (site.yaml_files s.schema_dir))

  -- A worker whose start returns has the same services, and its shutdown closes what the start
  -- opened, and nothing else.
  pub startup-Works : (w : Running) → Works (startup site s w).0 w (startup site s w).1
  unfolding startup
  startup-Works w =
      worker_pool-Works (site.create_pool s.database_dsn (pos 1) s.worker_concurrency) w

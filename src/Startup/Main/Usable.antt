-- ===== src/Startup/Main/Usable.antt =====
-- What an api process that has spoken about its health has checked (src/ocr_engine/cli/api.py).
use ocr.Base.{◌≡◌, ◌≢◌, refl, String, List, [], ◌∷◌}
use ocr.Settings.{Settings, problems}
use ocr.Settings.Validity.{IsUsable, IsReachable, problems-nil}
use ocr.Pipeline.Outcome.{Outcome, ok, raise}
use ocr.Startup.{Site, Running, Services, serve, stop}
use ocr.Startup.Ready.{Boots, serve-Boots}
use ocr.Startup.Main.{refuse_any, get_settings, serve_until_stop, api_run, api_main}

module _ (site : Site) (s : Settings) where
  abbrev pub IsChecked : Type 0
  IsChecked = IsUsable site.host s × IsReachable site.host s

  serve_until_stop-IsChecked :
      (o : Outcome Services) (before after : Running)
      → problems site.host s ≡ []
      → Boots site s o before after
      → (serve_until_stop site s (o, after)).1.health ≢ before.health
      → IsChecked
  serve_until_stop-IsChecked (raise e) before after valid boots spoke = absurd (spoke boots.1)
  serve_until_stop-IsChecked (ok sv) before after valid boots spoke =
      let (usable, reachable) = problems-nil site.host s valid in (usable, reachable boots.0.hosted)

  api_run-IsChecked :
      (ps : List String) (w : Running)
      → problems site.host s ≡ ps
      → (api_run site s (refuse_any site s ps) w).1.health ≢ w.health
      → IsChecked
  unfolding serve stop
  api_run-IsChecked [] w valid spoke =
      serve_until_stop-IsChecked (serve site s s.grpc_port w).0 w (serve site s s.grpc_port w).1
        valid (serve-Boots site s s.grpc_port w) spoke
  api_run-IsChecked (p ∷ ps) w valid spoke = absurd (spoke refl)

  -- An api process that changes its word on health, from start to stop, has settings that are
  -- usable, and that reach the hosted provider: a wrong value ends the process before.
  pub api_main-IsChecked : (w : Running) → (api_main site s w).1.health ≢ w.health → IsChecked
  unfolding api_main get_settings
  api_main-IsChecked w spoke = api_run-IsChecked (problems site.host s) w refl spoke

-- ===== src/Startup/Main/Configured.antt =====
-- How `main` (src/ocr_engine/cli) sets up logs and exporters.
use ocr.Base.{
  ℕ, ◌≡◌, ◌⊎◌, refl, inl, inr, String, Bool, true, false, not, Option, none, some, [], ◌∷◌, arith,
  eq_iff,
}
use text.Mathlib.Text.{starts_with}
use ocr.Base.Tests.{◌==◌, string_eq, Bool-cases, if◌then◌else◌}
use ocr.Base.Lists.{contains}
use ocr.Base.Int.{ℤ}
use ocr.Settings.{
  Settings, is_empty, is_absent, is_https, has_http_scheme, given_but, bad_level, bad_format,
  problems,
}
use ocr.Settings.Validity.{problems-nil}
use ocr.Obs.Logging.{Renderer, console, json_lines, levels, level_or, configure_logging}
use ocr.Obs.Exporters.{Exporter, MetricReader, setup_tracing, setup_metrics}
use ocr.Startup.{Site}
use ocr.Startup.Schemes.{https-http}
use ocr.Startup.Main.{configure}

-- The number of the level that a name stands for.
abbrev pub IsLevel : String → ℕ → Type 0
IsLevel name n =
    ((name ≡ "DEBUG") × (n ≡ 10))
    ⊎ ((name ≡ "INFO") × (n ≡ 20))
    ⊎ ((name ≡ "WARNING") × (n ≡ 30))
    ⊎ ((name ≡ "ERROR") × (n ≡ 40))

abbrev pub IsForm : String → Renderer → Type 0
IsForm format r = ((format ≡ "json") × (r ≡ json_lines)) ⊎ ((format ≡ "text") × (r ≡ console))

-- Nothing is exported, since it is disabled or has no endpoint.
abbrev pub IsOff : Option String → Bool → Option Exporter → Option MetricReader → Type 0
IsOff endpoint disabled tracer reader =
    (tracer ≡ none) × (reader ≡ none) × ((disabled ≡ true) ⊎ (is_absent endpoint ≡ true))

-- Spans and metrics go to the endpoint, with TLS exactly if it is https, and metrics at the
-- interval.
abbrev pub IsOn : Option String → Bool → ℤ → Option Exporter → Option MetricReader → Type 0
IsOn endpoint disabled interval tracer reader =
    (e : Exporter) × (r : MetricReader) × (tracer ≡ some e)
    × (reader ≡ some r)
    × (r.exporter ≡ e)
    × (r.interval_ms ≡ interval)
    × (disabled ≡ false)
    × (endpoint ≡ some e.endpoint)
    × (e.insecure ≡ not (is_https e.endpoint))

named-IsLevel :
    (u : String)
    → contains ("DEBUG" ∷ "INFO" ∷ "WARNING" ∷ "ERROR" ∷ []) u ≡ true
    → IsLevel u (level_or 20 levels u)
named-IsLevel u h = elim (Bool-cases (u == "DEBUG")) [
  | inl e ↦ rw e (inl ((eq_iff u "DEBUG").0 e, refl))
  | inr e ↦ elim (Bool-cases (u == "INFO")) [
    | inl f ↦ rw (e, f) (inr (inl ((eq_iff u "INFO").0 f, refl)))
    | inr f ↦ elim (Bool-cases (u == "WARNING")) [
      | inl g ↦ rw (e, f, g) (inr (inr (inl ((eq_iff u "WARNING").0 g, refl))))
      | inr g ↦ elim (Bool-cases (u == "ERROR")) [
        | inl k ↦ rw (e, f, g, k) (inr (inr (inr ((eq_iff u "ERROR").0 k, refl))))
        | inr k ↦ absurd (ground (arith, e, f, g, k, h))
      ]
    ]
  ]
]

named-IsForm :
    (f : String)
    → contains ("json" ∷ "text" ∷ []) f ≡ true
    → IsForm f (if f == "text" then console else json_lines)
named-IsForm f h = elim (Bool-cases (f == "text")) [
  | inl e ↦ rw e (inr ((eq_iff f "text").0 e, refl))
  | inr e ↦ elim (Bool-cases (f == "json")) [
    | inl g ↦ rw e (inl ((eq_iff f "json").0 g, refl))
    | inr g ↦ absurd (ground (arith, e, g, h))
  ]
]

insecure_lem : (e : String) → has_http_scheme e ≡ true → starts_with e "http://" ≡ not (is_https e)
insecure_lem e h = elim (Bool-cases (is_https e)) [
  | inl https ↦ rw https (https-http e https)
  | inr plain ↦ ground (arith, plain, h)
]

exports :
    (host : String) (endpoint : Option String) (disabled : Bool) (interval : ℤ) (name env : String)
    → given_but has_http_scheme endpoint ≡ false
    → IsOff endpoint disabled
        (setup_tracing endpoint disabled name env)
        (setup_metrics host endpoint disabled interval name env)
      ⊎ IsOn endpoint disabled interval
          (setup_tracing endpoint disabled name env)
          (setup_metrics host endpoint disabled interval name env)
unfolding setup_tracing setup_metrics
exports host none disabled interval name env h = inl (refl, refl, inr refl)
exports host (some e) true interval name env h = inl (refl, refl, inl refl)
exports host (some e) false interval name env h = elim (Bool-cases (is_empty e)) [
  | inl empty ↦ rw empty (inl (refl, refl, inr refl))
  | inr full ↦
      rw full
        (inr (_, _, refl, refl, refl, refl, refl, refl, insecure_lem e (ground (arith, full, h))))
]

module _ (site : Site) (s : Settings) where
  level-IsLevel :
      bad_level site.host s ≡ false
      → IsLevel
          (site.host.upper s.log_level)
          (configure_logging site.host s.log_level s.log_format).level
  unfolding configure_logging
  level-IsLevel h = named-IsLevel (site.host.upper s.log_level) (ground (arith, h))

  renderer-IsForm :
      bad_format site.host s ≡ false
      → IsForm s.log_format (configure_logging site.host s.log_level s.log_format).renderer
  unfolding configure_logging
  renderer-IsForm h = named-IsForm s.log_format (ground (arith, h))

  -- With settings that validate, every process logs at the level that their name stands for and in
  -- the form that they name; and it exports either nothing, if telemetry is disabled or has no
  -- endpoint, or both spans and metrics to the endpoint, with TLS exactly if it is https, and
  -- metrics at the interval of the settings.
  pub configure_lem :
      (role : String)
      → problems site.host s ≡ []
      → IsLevel (site.host.upper s.log_level) (configure site s role).logs.level
        × IsForm s.log_format (configure site s role).logs.renderer
        × (IsOff s.otel_endpoint s.otel_sdk_disabled
              (configure site s role).tracer
              (configure site s role).reader
            ⊎ IsOn s.otel_endpoint s.otel_sdk_disabled s.metric_interval_ms
                (configure site s role).tracer
                (configure site s role).reader)
  unfolding configure
  configure_lem role valid =
      let usable = (problems-nil site.host s valid).0 in
      (
        level-IsLevel usable.level,
        renderer-IsForm usable.format,
        exports site.hostname s.otel_endpoint s.otel_sdk_disabled s.metric_interval_ms
            s.service_name s.service_env usable.telemetry,
      )

-- ===== src/Obs/Exporters.antt =====
-- `setup_tracing` (src/ocr_engine/obs/tracing.py) and `setup_metrics`
-- (src/ocr_engine/obs/metrics.py): whether anything is exported, and how.
use ocr.Base.{String, Bool, ◌||◌, Option, none, some}
use ocr.Base.Tests.{if◌then◌else◌}
use ocr.Base.Int.{ℤ}
use text.Mathlib.Text.{starts_with}
use ocr.Settings.{is_empty}

-- An OTLP exporter, with the attributes of its resource.
pub record Exporter : Type 0 where
  pub endpoint : String
  pub insecure : Bool
  pub service_name : String
  pub service_env : String

-- A reader that exports all metrics at an interval, for one instance of the service.
pub record MetricReader : Type 0 where
  pub exporter : Exporter
  pub instance : String
  pub interval_ms : ℤ

abbrev exporter_to : String → String → String → Exporter
exporter_to endpoint service_name service_env = record {
  endpoint = endpoint;
  insecure = starts_with endpoint "http://";
  service_name = service_name;
  service_env = service_env;
}

-- `setup_tracing`: the exporter of the provider that it installs.
unfoldable pub setup_tracing : Option String → Bool → String → String → Option Exporter
setup_tracing none sdk_disabled service_name service_env = none
setup_tracing (some endpoint) sdk_disabled service_name service_env =
    if sdk_disabled || is_empty endpoint
    then none
    else some (exporter_to endpoint service_name service_env)

-- `setup_metrics`, on a host of a name.
unfoldable pub setup_metrics :
    String → Option String → Bool → ℤ → String → String → Option MetricReader
setup_metrics host none sdk_disabled interval_ms service_name service_env = none
setup_metrics host (some endpoint) sdk_disabled interval_ms service_name service_env =
    if sdk_disabled || is_empty endpoint
    then none
    else some (record {
      exporter = exporter_to endpoint service_name service_env;
      instance = host;
      interval_ms = interval_ms;
    })

-- ===== src/Examples/Boot.antt =====
-- A start of the api process and its stop, and instruments and ids of the telemetry.
use ocr.Base.{◌≡◌, ◌⊎◌, refl, String, Bool, true, false, not, ◌&&◌, some, List, [], ◌∷◌, arith}
use ocr.Base.Tests.{string_eq}
use ocr.Base.Lists.{contains}
use ocr.Base.Int.{pos}
use ocr.Base.Text.{codes}
use ocr.Settings.{Settings, paddleocr_local, problems}
use ocr.Pipeline.Outcome.{Exception, Outcome, ok, raise, other}
use ocr.Obs.Logging.{SpanContext, trace_id}
use ocr.Obs.Instruments.{Instrument, instruments}
use ocr.Startup.{Site, Running, unset, serving, Services, serve}
use ocr.Startup.Ready.{Boots, serve-Boots}
use ocr.Startup.Main.{configure, api_main, Saq, worker_main, new_worker_id}
use ocr.Startup.Main.Configured.{IsLevel, IsForm, IsOff, IsOn, configure_lem}
use ocr.Startup.Main.Usable.{IsChecked, api_main-IsChecked}
use ocr.Examples.Installation.{host}
use ocr.Examples.Provider.{hosted, seconds}
use ocr.Examples.Loading.{receipts}

-- A machine on which everything is there.
abbrev site : Site
site = record {
  host = host;
  hostname = "ocr-1";
  yaml_files = λ dir. "receipt.yaml" ∷ [];
  reading = receipts;
  conversions = seconds;
  create_pool = λ dsn low high. ok tt;
  queue_from_url = λ url. ok tt;
  new_producer = λ config. ok tt;
  add_insecure_port = λ port. ok 9094;
  start_server = ok tt;
  str_port = λ port. "9094";
}

abbrev idle : Running
idle = record { pools = 0; clients = 0; servers = 0; queues = 0; health = unset }

abbrev traced : Settings
traced = record hosted { otel_endpoint = some "https://collector"; otel_sdk_disabled = false }

starts :
    (serve site hosted (pos 9094) idle).1
    ≡ record { pools = 1; clients = 1; servers = 1; queues = 0; health = serving }
unfolding serve
starts = refl

serve-Boots_example :
    Boots site hosted
      (serve site hosted (pos 9094) idle).0
      idle
      (serve site hosted (pos 9094) idle).1
serve-Boots_example = serve-Boots site hosted (pos 9094) idle

configure_lem_example :
    IsLevel "INFO" (configure site traced "api").logs.level
    × IsForm "json" (configure site traced "api").logs.renderer
    × (IsOff
          (some "https://collector")
          false
          (configure site traced "api").tracer
          (configure site traced "api").reader
        ⊎ IsOn
            (some "https://collector")
            false
            (pos 1000)
            (configure site traced "api").tracer
            (configure site traced "api").reader)
unfolding problems
configure_lem_example = configure_lem site traced "api" refl

api_main-IsChecked_example : IsChecked site hosted
unfolding api_main
api_main-IsChecked_example = api_main-IsChecked site hosted idle (λ e. ground (arith, e))

-- No two instruments share a name.
abbrev names : List Instrument → List String
names [] = []
names (i ∷ is) = i.name ∷ names is

abbrev differ : List String → Bool
differ [] = true
differ (n ∷ ns) = not (contains ns n) && differ ns

names_are_distinct : differ (names instruments) ≡ true
names_are_distinct = refl

-- The ids of a span are padded to 32 and 16 digits.
abbrev span : SpanContext
span = record { is_valid = true; trace_id = 0xabc; span_id = 0x1f }

trace_is_padded : trace_id span ≡ some (codes "00000000000000000000000000000abc")
unfolding trace_id
trace_is_padded = refl

-- SAQ's `Worker` wants the functions of its jobs as a second argument.
abbrev closed_by : (Running → Running) → Outcome Services × Running → Outcome Unit × Running
closed_by down (ok sv, w) = (ok tt, down w)
closed_by down (raise e, w) = (raise e, w)

abbrev missing_functions : Exception
missing_functions = other "Worker.__init__() missing 1 required positional argument: 'functions'"

abbrev saq : Saq
saq = record {
  new_worker = λ settings. raise missing_functions;
  connect = ok tt;
  start = λ up down w. closed_by down (up w);
}

worker_does_not_start : worker_main site hosted saq idle ≡ (raise missing_functions, idle)
unfolding worker_main
worker_does_not_start = refl

-- A worker that is made, and starts and shuts down, leaves nothing open; where the provider is not
-- there, it leaves the queue closed and the pool open.
abbrev lenient : Saq
lenient = record saq { new_worker = λ settings. ok tt }

worker_comes_and_goes : worker_main site hosted lenient idle ≡ (ok tt, idle)
unfolding worker_main
worker_comes_and_goes = refl

worker_without_provider :
    (worker_main site (record hosted { provider = paddleocr_local }) lenient idle).1
    ≡ record idle { pools = 1; clients = 1 }
unfolding worker_main
worker_without_provider = refl

id_of_worker : new_worker_id "ocr-1" 0x0123456789abcdef0123456789abcdef ≡ "ocr-1-01234567"
unfolding new_worker_id
id_of_worker = refl

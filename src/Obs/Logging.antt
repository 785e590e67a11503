-- ===== src/Obs/Logging.antt =====
-- src/ocr_engine/obs/logging.py: the level and the form of the logs, and the ids of the span in
-- every line.
use ocr.Base.{
  ℕ, zero, suc, ◌+◌, ◌*◌, ◌-◌, ◌/◌, String, Bool, false, ◌||◌, ◌⊎◌, inl, inr, Option, none, some,
  List, [], ◌∷◌, ◌++◌,
}
use ocr.Base.Tests.{◌==◌, string_eq, ltb, if◌then◌else◌}
use ocr.Base.Text.{Text}
use ocr.Settings.{Host}

-- `_LEVELS`, with the numbers of `logging`.
abbrev pub levels : List (String × ℕ)
levels = ("DEBUG", 10) ∷ ("INFO", 20) ∷ ("WARNING", 30) ∷ ("ERROR", 40) ∷ []

abbrev pub level_or : ℕ → List (String × ℕ) → String → ℕ
level_or default [] name = default
level_or default ((key, n) ∷ rest) name = if name == key then n else level_or default rest name

-- What formats a record: `ConsoleRenderer` or `JSONRenderer`.
pub data Renderer : Type 0 where
  console json_lines : Renderer

-- The level of the root logger, and its only handler's renderer.
pub record Logs : Type 0 where
  pub level : ℕ
  pub renderer : Renderer

-- `configure_logging`
unfoldable pub configure_logging : Host → String → String → Logs
configure_logging host level format = record {
  level = level_or 20 levels (host.upper level);
  renderer = if format == "text" then console else json_lines;
}

-- One lower-case hexadecimal digit, and the last so many of a number.
abbrev hex_digit : ℕ → ℕ
hex_digit d = if ltb d 10 then d + 48 else d + 87

-- `format(n, "032x")` and `format(n, "016x")`, of a number of so many digits.
abbrev pub hex : ℕ → ℕ → Text
hex zero n = []
hex (suc width) n = hex width (n / 16) ++ (hex_digit (n - n / 16 * 16) ∷ [])

-- The context of a span: whether it is valid, its trace and its own id.
pub record SpanContext : Type 0 where
  pub is_valid : Bool
  pub trace_id : ℕ
  pub span_id : ℕ

abbrev pub EventDict : Type 0
EventDict = List (String × Text)

abbrev pub has_key : EventDict → String → Bool
has_key [] key = false
has_key ((k, v) ∷ rest) key = k == key || has_key rest key

-- `event_dict[key] = value`
abbrev pub set_key : String → Text → EventDict → EventDict
set_key key value [] = (key, value) ∷ []
set_key key value ((k, v) ∷ rest) =
    let more = set_key key value rest in if k == key then (k, value) ∷ rest else (k, v) ∷ more

abbrev set_default : String → Text → EventDict → EventDict
set_default key value event_dict =
    if has_key event_dict key then event_dict else set_key key value event_dict

-- `_inject_trace`, with the context of the current span, or the text of what its lookup raised.
unfoldable pub inject_trace : SpanContext ⊎ Text → EventDict → EventDict
inject_trace (inl c) event_dict =
    if c.is_valid
    then set_key "span_id" (hex 16 c.span_id) (set_key "trace_id" (hex 32 c.trace_id) event_dict)
    else event_dict
inject_trace (inr text) event_dict = set_default "trace_inject_error" text event_dict

-- `_trace_id` (src/ocr_engine/api/servicer.py)
unfoldable pub trace_id : SpanContext → Option Text
trace_id c = if c.is_valid then some (hex 32 c.trace_id) else none

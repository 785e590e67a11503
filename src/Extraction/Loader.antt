-- ===== src/Extraction/Loader.antt =====
-- `Matcher` with its validators, and the values of the YAML files
-- (src/ocr_engine/extraction/schema.py). A YAML value is one of `Ocr.Json`.
pub mod Matchers
pub mod Files
use ocr.Base.{
  ℕ, String, ◌<>◌, Bool, true, false, not, ◌&&◌, ◌||◌, Option, none, some, List, [], ◌∷◌,
}
use ocr.Base.Tests.{if◌then◌else◌}
use ocr.Base.Int.{ℤ, pos}
use ocr.Base.Float.{Float, FloatOps}
use ocr.Base.Regex.{Regex}
use ocr.Base.Text.{Text, codes, text_beq}
use ocr.Extraction.Schema.{Kind, label, regex, positional, Matcher}
use ocr.Pipeline.Outcome.{Outcome, ok, raise, ◌>>=◌, value_error}
use ocr.Ocr.Json.{
  Json, nil, boolean, whole, string, array, object, Elements, no_more, element, get, item,
  empty_array,
}

-- What the loader takes from outside: the files of the directory, YAML, `re.compile`, the
-- conversions of pydantic to `bool`, `float` and `int`, `float` of a text, a value as it is shown
-- in a message, and a value that is kept as a name, which need not be a text.
pub record Reading : Type 0 where
  pub floats : FloatOps
  pub read_text : String → Outcome Text
  pub safe_load : Text → Outcome Json
  pub compile : Text → Outcome Regex
  pub lax_bool : Json → Option Bool
  pub lax_float : Json → Option Float
  pub lax_int : Json → Option ℤ
  pub float_text : Text → Outcome Float
  pub repr : Json → String
  pub as_name : Json → String

-- `Literal["label", "regex", "positional"]`
abbrev pub kind_named : Text → Option Kind
kind_named t =
    if text_beq t (codes "label")
    then some label
    else if text_beq t (codes "regex")
    then some regex
    else if text_beq t (codes "positional")
    then some positional
    else none

abbrev pub kind_of : Json → Option Kind
kind_of (string t) = kind_named t
kind_of x = none

abbrev pub onto : Text → Option (List Text) → Option (List Text)
onto t none = none
onto t (some ts) = some (t ∷ ts)

-- `list[str]`
abbrev pub texts_of : Elements → Option (List Text)
texts_of no_more = some []
texts_of (element (string t) xs) = onto t (texts_of xs)
texts_of (element x xs) = none

abbrev pub labels_of : Json → Option (List Text)
labels_of (array xs) = texts_of xs
labels_of x = none

-- `T | None`
abbrev pub given_or_null {ℓ} : {A : Type ℓ} → Option A → Option (Option A)
given_or_null none = none
given_or_null (some a) = some (some a)

abbrev pub nullable {ℓ} : {A : Type ℓ} → (Json → Option A) → Json → Option (Option A)
nullable of nil = some none
nullable of x = given_or_null (of x)

-- A pattern with its text.
abbrev pub Pattern : Type 0
Pattern = Option (Text × Regex)

abbrev compiled : Pattern → Option Regex
compiled none = none
compiled (some (t, r)) = some r

abbrev no_labels : List Text → Bool
no_labels [] = true
no_labels (t ∷ ts) = false

-- `not self.pattern`
abbrev no_pattern : Pattern → Bool
no_pattern none = true
no_pattern (some ([], r)) = true
no_pattern (some (c ∷ t, r)) = false

abbrev is_none {ℓ} : {A : Type ℓ} → Option A → Bool
is_none none = true
is_none (some a) = false

-- The test of `Matcher._validate` for each kind.
abbrev pub lacks : Kind → List Text → Pattern → Option Float → Option ℤ → Bool
lacks label labels pattern x_min top_n = no_labels labels
lacks regex labels pattern x_min top_n = no_pattern pattern
lacks positional labels pattern x_min top_n = is_none x_min && is_none top_n

-- The values of the fields, once each is of its type.
abbrev pub checked_matcher :
    Kind → List Text → Pattern → Bool → Option Float → Option ℤ → ℤ → Outcome Matcher
checked_matcher kind labels pattern near_right x_min top_n fuzzy_min =
    if lacks kind labels pattern x_min top_n
    then raise (value_error "matcher lacks what its kind needs")
    else ok (record {
      kind = kind;
      labels = labels;
      pattern = compiled pattern;
      near_right = near_right;
      x_min_ratio = x_min;
      max_top_n = top_n;
      label_fuzzy_min = fuzzy_min;
    })

-- A field that is not of its type is a `ValidationError`.
abbrev pub valid : {A : Type 0} → Option A → Outcome A
valid none = raise (value_error "validation error for Matcher")
valid (some a) = ok a

module _ (py : Reading) where
  abbrev with_text : Text → Outcome Regex → Outcome (Option Pattern)
  with_text t (ok r) = ok (some (some (t, r)))
  with_text t (raise e) = raise e

  -- The pattern, which `_pattern_compiles` compiles; `none` if it is no text.
  abbrev pub pattern_of : Json → Outcome (Option Pattern)
  pattern_of nil = ok (some none)
  pattern_of (string t) = with_text t (py.compile t)
  pattern_of x = ok none

  -- `Matcher(…)`: an error of `re.compile` comes before those of other fields.
  unfoldable pub new_matcher : Json → Json → Json → Json → Json → Json → Json → Outcome Matcher
  new_matcher kind labels pattern near_right x_min top_n fuzzy_min = pattern_of pattern >>= λ p.
      valid (kind_of kind) >>= λ k. valid (labels_of labels) >>= λ ls. valid p >>= λ p'.
      valid (py.lax_bool near_right) >>= λ near. valid (nullable py.lax_float x_min) >>= λ x.
      valid (nullable py.lax_int top_n) >>= λ n.
      valid (py.lax_int fuzzy_min) >>= λ fuzzy. checked_matcher k ls p' near x n fuzzy

  -- One round of the generator of matchers in `_parse_schema`.
  unfoldable pub matcher_of : Json → Outcome Matcher
  unfolding new_matcher get item
  matcher_of m = item m "kind" >>= λ kind. get m "labels" empty_array >>= λ labels.
      get m "pattern" nil >>= λ pattern. get m "near_right" (boolean false) >>= λ near_right.
      get m "x_min_ratio" nil >>= λ x_min. get m "max_top_n" nil >>= λ top_n.
      get m "label_fuzzy_min" (whole (pos 82)) >>= λ fuzzy_min.
      new_matcher kind labels pattern near_right x_min top_n fuzzy_min

  unfoldable pub matchers_of : List Json → Outcome (List Matcher)
  unfolding matcher_of
  matchers_of [] = ok []
  matchers_of (m ∷ ms) = matcher_of m >>= λ matcher. matchers_of ms >>= λ more. ok (matcher ∷ more)

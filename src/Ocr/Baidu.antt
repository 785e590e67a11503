-- ===== src/Ocr/Baidu.antt =====
-- `BaiduProvider._extract_sync` on a response, and `normalize_layout_parsing`
-- (src/ocr_engine/ocr/baidu.py).
pub mod Lines
pub mod Malformed
pub mod Requests
pub mod Jobs
pub mod Provider
use ocr.Base.{
  ℕ, suc, ◌+◌, String, ◌<>◌, Bool, true, false, not, ◌&&◌, ◌||◌, Option, none, some, List, [], ◌∷◌,
  ◌++◌,
}
use ocr.Base.Tests.{nat_beq, leb, ltb, if◌then◌else◌}
use ocr.Base.Lists.{length, contains}
use ocr.Base.Tests.{nat_eq}
use ocr.Base.Int.{ℤ, pos}
use ocr.Base.Float.{Float, FloatOps, float_zero, float_one}
use ocr.Base.Text.{Text, strip}
use ocr.Store.Rows.{Bbox}
use ocr.Extraction.Schema.{Line}
use ocr.Pipeline.Outcome.{
  Outcome, ok, raise, ◌>>=◌, provider_transient, provider_permanent, value_error, other,
}
use ocr.Ocr.Json.{
  Json, nil, boolean, whole, real, string, array, object, get, or_value, iterate, empty_object,
  empty_array, is_minus_zero,
}

-- Python's conversions: `str` of a value that is no text, `int` of a text, and the texts of numbers
-- in messages; `json.loads`; and a span of time in seconds, in microseconds.
pub record Conversions : Type 0 where
  pub floats : FloatOps
  pub str_json : Json → Text
  pub int_text : Text → Outcome ℤ
  pub str_status : ℕ → String
  pub message_of : ℕ → String → String
  pub error_message : Json → Json → String
  pub format_json : Json → String
  pub format_text : Text → String
  pub format_http_error : ℕ → String
  pub loads : Text → Outcome Json
  pub micros : Float → ℕ

-- A response: its status, its text, and the value of `json()`, which may raise a `ValueError`.
pub record Response : Type 0 where
  pub status_code : ℕ
  pub text : String
  pub json : Option Json

-- `BAIDU_RETRYABLE_HTTP`
abbrev pub baidu_retryable_http : List ℕ
baidu_retryable_http = 429 ∷ 503 ∷ 504 ∷ []

-- `x in (0, None)`
abbrev pub is_zero_or_none : Json → Bool
is_zero_or_none nil = true
is_zero_or_none (boolean b) = not b
is_zero_or_none (whole (pos n)) = nat_beq n 0
is_zero_or_none (real x) = nat_beq x.bits 0 || is_minus_zero x
is_zero_or_none x = false

module _ (py : Conversions) where
  abbrev check_code : Json → Json → Json → Outcome Json
  check_code body code message =
      if is_zero_or_none code
      then ok body
      else raise (provider_permanent (py.error_message code message))

  abbrev checked : Json → Outcome Json
  checked body = get body "errorCode" nil >>= λ code.
      get body "errorMsg" nil >>= λ message. check_code body code message

  abbrev body_of : Option Json → Outcome Json
  body_of none = raise (value_error "Expecting value")
  body_of (some body) = ok body

  -- `_extract_sync`, after the request.
  unfoldable pub extract_sync : Response → Outcome Json
  unfolding get
  extract_sync r =
      if contains baidu_retryable_http r.status_code
      then raise (provider_transient ("baidu sync " <> py.str_status r.status_code))
      else if not (nat_beq r.status_code 200)
      then raise (provider_permanent (py.message_of r.status_code r.text))
      else body_of r.json >>= checked

  -- `str(x)`, `x <= 0.0`, `float(x)` and `int(x)`.
  abbrev pub str_of : Json → Text
  str_of (string t) = t
  str_of x = py.str_json x

  abbrev pub float_of : Json → Outcome Float
  float_of (boolean b) = ok (if b then float_one else float_zero)
  float_of (whole n) = ok (py.floats.of_int n)
  float_of (real x) = ok x
  float_of x = raise (other "'<=' not supported")

  abbrev pub int_of : Json → Outcome ℤ
  int_of (boolean b) = ok (if b then pos 1 else pos 0)
  int_of (whole n) = ok n
  int_of (real x) = ok (py.floats.trunc x)
  int_of (string t) = py.int_text t
  int_of x = raise (other "int() argument must be a string or a real number")

  abbrev no_box : Bbox
  no_box = record { x1 = pos 0; y1 = pos 0; x2 = pos 0; y2 = pos 0 }

  abbrev box_of_list : List Json → Outcome Bbox
  box_of_list (a ∷ b ∷ c ∷ d ∷ rest) = int_of a >>= λ x1. int_of b >>= λ y1.
      int_of c >>= λ x2. int_of d >>= λ y2. ok (record { x1 = x1; y1 = y1; x2 = x2; y2 = y2 })
  box_of_list _ = ok no_box

  box_of : Json → Outcome Bbox
  unfolding iterate
  box_of box = iterate box >>= box_of_list

  abbrev is_ascii : Text → Bool
  is_ascii [] = true
  is_ascii (c ∷ t) = ltb c 128 && is_ascii t

  -- The two tests of a text that `continue`, but for the score.
  abbrev pub is_stray : Text → Bool
  is_stray t = nat_beq (length t) 1 && not (is_ascii t)

  abbrev with_box : ℕ → Text → Float → Outcome Bbox → Outcome (List Line)
  with_box page t score (raise e) = raise e
  with_box page t score (ok box) =
      ok (record { text = t; score = score; bbox = box; page = page } ∷ [])

  line_of_score : ℕ → Text → Json → Outcome Float → Outcome (List Line)
  unfolding box_of
  line_of_score page t box (raise e) = raise e
  line_of_score page t box (ok score) =
      let boxed = with_box page t score (box_of box) in
      if py.floats.le score float_zero then ok [] else if is_stray t then ok [] else boxed

  -- One round of the inner loop: no line, or one; an empty text is dropped before its score is
  -- read.
  line_of_text : ℕ → Text → Json → Json → Outcome (List Line)
  unfolding line_of_score
  line_of_text page [] score box = ok []
  line_of_text page (c ∷ t) score box = line_of_score page (c ∷ t) box (float_of score)

  -- `zip(texts, scores, boxes)`: as long as the shortest.
  lines_of_zip : ℕ → List Json → List Json → List Json → Outcome (List Line)
  unfolding line_of_text strip
  lines_of_zip page (t ∷ ts) (s ∷ ss) (b ∷ bs) =
      line_of_text page (strip (str_of t)) s b >>= λ lines.
      lines_of_zip page ts ss bs >>= λ more. ok (lines ++ more)
  lines_of_zip page _ _ _ = ok []

  abbrev list_or_empty : Json → String → Outcome (List Json)
  list_or_empty ocr key = get ocr key nil >>= λ x. iterate (or_value x empty_array)

  zip_page : ℕ → Json → Outcome (List Line)
  unfolding lines_of_zip get or_value iterate
  zip_page page ocr = list_or_empty ocr "rec_texts" >>= λ texts.
      list_or_empty ocr "rec_scores" >>= λ scores.
      list_or_empty ocr "rec_boxes" >>= λ boxes. lines_of_zip page texts scores boxes

  -- One page: `overall_ocr_res` of `prunedResult`.
  lines_of_page : ℕ → Json → Outcome (List Line)
  unfolding zip_page
  lines_of_page page result = get result "prunedResult" nil >>= λ pruned.
      get (or_value pruned empty_object) "overall_ocr_res" nil >>= λ ocr.
      zip_page page (or_value ocr empty_object)

  lines_of_pages : ℕ → List Json → Outcome (List Line)
  unfolding lines_of_page
  lines_of_pages page [] = ok []
  lines_of_pages page (r ∷ rs) =
      lines_of_page page r >>= λ lines. lines_of_pages (suc page) rs >>= λ more. ok (lines ++ more)

  -- `normalize_layout_parsing`
  unfoldable pub normalize_layout_parsing : Json → Outcome (List Line)
  unfolding lines_of_pages get iterate
  normalize_layout_parsing body = get body "result" empty_object >>= λ result.
      get result "layoutParsingResults" empty_array >>= λ pages. iterate pages >>= lines_of_pages 1

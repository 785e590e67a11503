-- ===== src/Examples/Normalizer.antt =====
-- The two pages of tests/unit/test_baidu_normalizer.py.
use ocr.Base.{ℕ, String, ◌≡◌, refl, none, [], ◌∷◌, ◌<>◌}
use ocr.Base.Int.{pos}
use ocr.Base.Lists.{All}
use ocr.Base.Text.{codes, strip}
use ocr.Extraction.Schema.{Line}
use ocr.Pipeline.Outcome.{ok, raise, value_error, provider_transient}
use ocr.Pipeline.Outcome.Holds.{Yields}
use ocr.Ocr.Json.{
  Json, whole, real, string, array, object, no_more, element, no_members, member, get, iterate,
}
use ocr.Ocr.Baidu.{Conversions, extract_sync, normalize_layout_parsing}
use ocr.Ocr.Baidu.Lines.{IsRead, normalize_layout_parsing-IsRead}
use ocr.Examples.Installation.{floats, percent}

abbrev pub py : Conversions
py = record {
  floats = floats;
  str_json = λ x. [];
  int_text = λ t. raise (value_error "invalid literal for int()");
  str_status = λ n. "503";
  message_of = λ n t. "baidu sync " <> t;
  error_message = λ c m. "baidu sync errorCode";
  format_json = λ x. "…";
  format_text = λ t. "…";
  format_http_error = λ n. "HTTP error";
  loads = λ t. raise (value_error "Expecting value");
  micros = λ x. 0;
}

abbrev zero : Json
zero = whole (pos 0)

abbrev ten : Json
ten = whole (pos 10)

abbrev page_result : String → Json
page_result t = object (
    member (codes "prunedResult")
      (object (
        member (codes "overall_ocr_res")
          (object (
            member (codes "rec_texts") (array (element (string (codes t)) no_more)) (
              member (codes "rec_scores") (array (element (real (percent 90)) no_more)) (
                member (codes "rec_boxes")
                  (array (
                    element
                      (array (element zero (element zero (element ten (element ten no_more)))))
                      no_more))
                  no_members))))
          no_members))
      no_members)

abbrev pages : Json
pages = array (element (page_result "p1") (element (page_result "p2") no_more))

abbrev result : Json
result = object (member (codes "layoutParsingResults") pages no_members)

abbrev pub body : Json
body = object (member (codes "result") result no_members)

abbrev pub line_on : String → ℕ → Line
line_on t n = record {
  text = codes t;
  score = percent 90;
  bbox = record { x1 = pos 0; y1 = pos 0; x2 = pos 10; y2 = pos 10 };
  page = n;
}

two_pages : normalize_layout_parsing py body ≡ ok (line_on "p1" 1 ∷ line_on "p2" 2 ∷ [])
unfolding normalize_layout_parsing strip
two_pages = refl

normalize_layout_parsing-IsRead_example :
    Yields (All (IsRead py 2)) (normalize_layout_parsing py body)
unfolding get iterate
normalize_layout_parsing-IsRead_example =
    normalize_layout_parsing-IsRead py body result pages (page_result "p1" ∷ page_result "p2" ∷ [])
      refl refl refl

busy_is_transient :
    extract_sync py (record { status_code = 503; text = ""; json = none })
    ≡ raise (provider_transient "baidu sync 503")
unfolding extract_sync
busy_is_transient = refl

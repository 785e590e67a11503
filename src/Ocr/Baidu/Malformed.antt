-- ===== src/Ocr/Baidu/Malformed.antt =====
-- What `normalize_layout_parsing` (src/ocr_engine/ocr/baidu.py) raises.
use ocr.Base.{ℕ, suc, String, Bool, true, false, List, [], ◌∷◌, ◌++◌}
use ocr.Base.Tests.{nat_eq, if◌then◌else◌}
use ocr.Base.Text.{Text, strip}
use ocr.Base.Float.{Float, float_zero}
use ocr.Store.Rows.{Bbox}
use ocr.Extraction.Schema.{Line}
use ocr.Pipeline.Outcome.{Exception, value_error, other, Outcome, ok, raise, ◌>>=◌}
use ocr.Pipeline.Outcome.Holds.{Raises, Raises-bind}
use ocr.Ocr.Json.{
  Json, nil, boolean, whole, real, string, array, object, get, or_value, iterate, empty_object,
  empty_array,
}
use ocr.Ocr.Baidu.{
  Conversions, str_of, float_of, int_of, is_stray, with_box, box_of, box_of_list, line_of_score,
  line_of_text, lines_of_zip, list_or_empty, zip_page, lines_of_page, lines_of_pages,
  normalize_layout_parsing,
}

-- The value is of another type, or a text is no value of its type.
pub data IsMalformed : Exception → Type 0 where
  bad_value : {m : String} → IsMalformed (value_error m)
  bad_type : {m : String} → IsMalformed (other m)

pub get-Raises : (x : Json) (key : String) (d : Json) → Raises IsMalformed (get x key d)
unfolding get
get-Raises (object ms) key d = tt
get-Raises nil key d = bad_type
get-Raises (boolean b) key d = bad_type
get-Raises (whole n) key d = bad_type
get-Raises (real x) key d = bad_type
get-Raises (string t) key d = bad_type
get-Raises (array xs) key d = bad_type

iterate-Raises : (x : Json) → Raises IsMalformed (iterate x)
unfolding iterate
iterate-Raises (object ms) = tt
iterate-Raises nil = bad_type
iterate-Raises (boolean b) = bad_type
iterate-Raises (whole n) = bad_type
iterate-Raises (real x) = bad_type
iterate-Raises (string t) = tt
iterate-Raises (array xs) = tt

module _ (py : Conversions)
    (int_text-Raises : (t : Text) → Raises IsMalformed (py.int_text t)) where
  float_of-Raises : (x : Json) → Raises IsMalformed (float_of py x)
  float_of-Raises (object ms) = bad_type
  float_of-Raises nil = bad_type
  float_of-Raises (boolean b) = tt
  float_of-Raises (whole n) = tt
  float_of-Raises (real x) = tt
  float_of-Raises (string t) = bad_type
  float_of-Raises (array xs) = bad_type

  int_of-Raises : (x : Json) → Raises IsMalformed (int_of py x)
  int_of-Raises (object ms) = bad_type
  int_of-Raises nil = bad_type
  int_of-Raises (boolean b) = tt
  int_of-Raises (whole n) = tt
  int_of-Raises (real x) = tt
  int_of-Raises (string t) = int_text-Raises t
  int_of-Raises (array xs) = bad_type

  box_of_list-Raises : (xs : List Json) → Raises IsMalformed (box_of_list py xs)
  box_of_list-Raises (a ∷ b ∷ c ∷ d ∷ rest) =
      Raises-bind IsMalformed (int_of py a) _ (int_of-Raises a) (λ x1.
        Raises-bind IsMalformed (int_of py b) _ (int_of-Raises b) (λ y1.
          Raises-bind IsMalformed (int_of py c) _ (int_of-Raises c)
            (λ x2. Raises-bind IsMalformed (int_of py d) _ (int_of-Raises d) (λ y2. tt))))
  box_of_list-Raises [] = tt
  box_of_list-Raises (a ∷ []) = tt
  box_of_list-Raises (a ∷ b ∷ []) = tt
  box_of_list-Raises (a ∷ b ∷ c ∷ []) = tt

  with_box-Raises :
      (page : ℕ) (t : Text) (score : Float) (o : Outcome Bbox)
      → Raises IsMalformed o
      → Raises IsMalformed (with_box py page t score o)
  with_box-Raises page t score (ok box) h = tt
  with_box-Raises page t score (raise e) h = h

  unless-Raises :
      {A : Type 0} (b c : Bool) (x y z : Outcome A)
      → Raises IsMalformed x
      → Raises IsMalformed y
      → Raises IsMalformed z
      → Raises IsMalformed (if b then x else if c then y else z)
  unless-Raises true c x y z f g h = f
  unless-Raises false true x y z f g h = g
  unless-Raises false false x y z f g h = h

  box_of-Raises : (box : Json) → Raises IsMalformed (box_of py box)
  unfolding box_of
  box_of-Raises box =
      Raises-bind IsMalformed (iterate box) (box_of_list py) (iterate-Raises box) box_of_list-Raises

  line_of_score-Raises :
      (page : ℕ) (t : Text) (box : Json) (o : Outcome Float)
      → Raises IsMalformed o
      → Raises IsMalformed (line_of_score py page t box o)
  unfolding line_of_score
  line_of_score-Raises page t box (raise e) h = h
  line_of_score-Raises page t box (ok score) h =
      unless-Raises (py.floats.le score float_zero) (is_stray py t) (ok []) (ok []) _ tt tt
        (with_box-Raises page t score (box_of py box) (box_of-Raises box))

  line_of_text-Raises :
      (page : ℕ) (t : Text) (score box : Json)
      → Raises IsMalformed (line_of_text py page t score box)
  unfolding line_of_text
  line_of_text-Raises page [] score box = tt
  line_of_text-Raises page (c ∷ t) score box =
      line_of_score-Raises page (c ∷ t) box (float_of py score) (float_of-Raises score)

  append-Raises :
      (m k : Outcome (List Line))
      → Raises IsMalformed m
      → Raises IsMalformed k
      → Raises IsMalformed (m >>= λ lines. k >>= λ more. ok (lines ++ more))
  append-Raises (raise e) k f g = f
  append-Raises (ok lines) (raise e) f g = g
  append-Raises (ok lines) (ok more) f g = tt

  lines_of_zip-Raises :
      (page : ℕ) (ts ss bs : List Json) → Raises IsMalformed (lines_of_zip py page ts ss bs)
  unfolding lines_of_zip
  lines_of_zip-Raises page [] ss bs = tt
  lines_of_zip-Raises page (t ∷ ts) [] bs = tt
  lines_of_zip-Raises page (t ∷ ts) (s ∷ ss) [] = tt
  lines_of_zip-Raises page (t ∷ ts) (s ∷ ss) (b ∷ bs) =
      append-Raises (line_of_text py page (strip (str_of py t)) s b) (lines_of_zip py page ts ss bs)
        (line_of_text-Raises page (strip (str_of py t)) s b) (lines_of_zip-Raises page ts ss bs)

  list_or_empty-Raises : (ocr : Json) (key : String) → Raises IsMalformed (list_or_empty py ocr key)
  list_or_empty-Raises ocr key =
      Raises-bind IsMalformed (get ocr key nil) _ (get-Raises ocr key nil)
        (λ x. iterate-Raises (or_value x empty_array))

  zip_page-Raises : (page : ℕ) (ocr : Json) → Raises IsMalformed (zip_page py page ocr)
  unfolding zip_page
  zip_page-Raises page ocr =
      Raises-bind IsMalformed (list_or_empty py ocr "rec_texts") _
        (list_or_empty-Raises ocr "rec_texts")
        (λ texts.
          Raises-bind IsMalformed (list_or_empty py ocr "rec_scores") _
            (list_or_empty-Raises ocr "rec_scores")
            (λ scores.
              Raises-bind IsMalformed (list_or_empty py ocr "rec_boxes") _
                (list_or_empty-Raises ocr "rec_boxes")
                (λ boxes. lines_of_zip-Raises page texts scores boxes)))

  lines_of_page-Raises : (page : ℕ) (r : Json) → Raises IsMalformed (lines_of_page py page r)
  unfolding lines_of_page
  lines_of_page-Raises page r =
      Raises-bind IsMalformed (get r "prunedResult" nil) _ (get-Raises r "prunedResult" nil)
        (λ pruned.
          Raises-bind IsMalformed (get (or_value pruned empty_object) "overall_ocr_res" nil) _
            (get-Raises (or_value pruned empty_object) "overall_ocr_res" nil)
            (λ ocr. zip_page-Raises page (or_value ocr empty_object)))

  lines_of_pages-Raises :
      (page : ℕ) (rs : List Json) → Raises IsMalformed (lines_of_pages py page rs)
  unfolding lines_of_pages
  lines_of_pages-Raises page [] = tt
  lines_of_pages-Raises page (r ∷ rs) =
      append-Raises (lines_of_page py page r) (lines_of_pages py (suc page) rs)
        (lines_of_page-Raises page r) (lines_of_pages-Raises (suc page) rs)

  pub normalize_layout_parsing-Raises :
      (body : Json) → Raises IsMalformed (normalize_layout_parsing py body)
  unfolding normalize_layout_parsing
  normalize_layout_parsing-Raises body =
      Raises-bind IsMalformed (get body "result" empty_object) _
        (get-Raises body "result" empty_object)
        (λ result.
          Raises-bind IsMalformed (get result "layoutParsingResults" empty_array) _
            (get-Raises result "layoutParsingResults" empty_array)
            (λ pages.
              Raises-bind IsMalformed (iterate pages) (lines_of_pages py 1) (iterate-Raises pages)
                (lines_of_pages-Raises 1)))

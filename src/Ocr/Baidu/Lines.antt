-- ===== src/Ocr/Baidu/Lines.antt =====
-- What `normalize_layout_parsing` (src/ocr_engine/ocr/baidu.py) lets through.
use ocr.Base.{◌++◌, ℕ, suc, ◌+◌, ◌≤◌, ◌<◌, ◌≡◌, ◌≢◌, refl, false, List, [], ◌∷◌, arith, inl, inr}
use ocr.Base.Tests.{Bool-cases}
use ocr.Base.Lists.{All, length}
use ocr.Base.Text.{Text, strip}
use ocr.Base.Float.{Float, float_zero}
use ocr.Store.Rows.{Bbox}
use ocr.Extraction.Schema.{Line}
use ocr.Pipeline.Outcome.{Outcome, ok, raise, ◌>>=◌}
use ocr.Pipeline.Outcome.Holds.{Yields, Yields-bind}
use ocr.Ocr.Json.{Json, nil, get, or_value, iterate, empty_object, empty_array}
use ocr.Ocr.Baidu.{
  Conversions, str_of, float_of, is_stray, with_box, box_of, line_of_score, line_of_text,
  lines_of_zip, list_or_empty, zip_page, lines_of_page, lines_of_pages, normalize_layout_parsing,
}

All-append : (P : Line → Type 0) (xs ys : List Line) → All P xs → All P ys → All P (xs ++ ys)
All-append P [] ys a b = b
All-append P (x ∷ xs) ys a b = (a.0, All-append P xs ys a.1 b)

Yields-append :
    (P : Line → Type 0) (m k : Outcome (List Line))
    → Yields (All P) m
    → Yields (All P) k
    → Yields (All P) (m >>= λ lines. k >>= λ more. ok (lines ++ more))
Yields-append P (raise e) k a b = tt
Yields-append P (ok lines) (raise e) a b = tt
Yields-append P (ok lines) (ok more) a b = All-append P lines more a b

All-weaken : (P Q : Line → Type 0) (xs : List Line) → ((l : Line) → P l → Q l) → All P xs → All Q xs
All-weaken P Q [] h a = tt
All-weaken P Q (x ∷ xs) h a = (h x a.0, All-weaken P Q xs h a.1)

Yields-weaken :
    (P Q : Line → Type 0) (m : Outcome (List Line))
    → ((l : Line) → P l → Q l)
    → Yields (All P) m
    → Yields (All Q) m
Yields-weaken P Q (ok xs) h a = All-weaken P Q xs h a
Yields-weaken P Q (raise e) h a = tt

module _ (py : Conversions) where
  -- A text that is not empty and no stray glyph, with a positive score.
  abbrev pub IsLegible : Line → Type 0
  IsLegible l =
      (l.text ≢ []) × (py.floats.le l.score float_zero ≡ false) × (is_stray py l.text ≡ false)

  abbrev IsOn : ℕ → Line → Type 0
  IsOn page l = IsLegible l × (l.page ≡ page)

  -- The line stands on one of so many pages, counted from 1.
  abbrev pub IsRead : ℕ → Line → Type 0
  IsRead pages l = IsLegible l × (1 ≤ l.page) × (l.page ≤ pages)

  with_box-IsOn :
      (page : ℕ) (t : Text) (score : Float) (box : Outcome Bbox)
      → t ≢ []
      → py.floats.le score float_zero ≡ false
      → is_stray py t ≡ false
      → Yields (All (IsOn page)) (with_box py page t score box)
  with_box-IsOn page t score (ok box) full positive legible =
      (((full, positive, legible), refl), tt)
  with_box-IsOn page t score (raise e) full positive legible = tt

  line_of_score-IsOn :
      (page : ℕ) (t : Text) (box : Json) (o : Outcome Float)
      → t ≢ []
      → Yields (All (IsOn page)) (line_of_score py page t box o)
  unfolding line_of_score
  line_of_score-IsOn page t box (raise e) full = tt
  line_of_score-IsOn page t box (ok score) full =
      elim (Bool-cases (py.floats.le score float_zero)) [
        | inl e ↦ rw e tt
        | inr e ↦ elim (Bool-cases (is_stray py t)) [
          | inl s ↦ rw (e, s) tt
          | inr s ↦ rw (e, s) (with_box-IsOn page t score (box_of py box) full e s)
        ]
      ]

  line_of_text-IsOn :
      (page : ℕ) (t : Text) (score box : Json)
      → Yields (All (IsOn page)) (line_of_text py page t score box)
  unfolding line_of_text
  line_of_text-IsOn page [] score box = tt
  line_of_text-IsOn page (c ∷ t) score box =
      line_of_score-IsOn page (c ∷ t) box (float_of py score) (λ e. ground (arith, e))

  lines_of_zip-IsOn :
      (page : ℕ) (ts ss bs : List Json) → Yields (All (IsOn page)) (lines_of_zip py page ts ss bs)
  unfolding lines_of_zip
  lines_of_zip-IsOn page [] ss bs = tt
  lines_of_zip-IsOn page (t ∷ ts) [] bs = tt
  lines_of_zip-IsOn page (t ∷ ts) (s ∷ ss) [] = tt
  lines_of_zip-IsOn page (t ∷ ts) (s ∷ ss) (b ∷ bs) =
      Yields-append (IsOn page) (line_of_text py page (strip (str_of py t)) s b)
        (lines_of_zip py page ts ss bs) (line_of_text-IsOn page (strip (str_of py t)) s b)
        (lines_of_zip-IsOn page ts ss bs)

  zip_page-IsOn : (page : ℕ) (ocr : Json) → Yields (All (IsOn page)) (zip_page py page ocr)
  unfolding zip_page
  zip_page-IsOn page ocr =
      Yields-bind (All (IsOn page)) (list_or_empty py ocr "rec_texts") _ (λ texts.
        Yields-bind (All (IsOn page)) (list_or_empty py ocr "rec_scores") _ (λ scores.
          Yields-bind (All (IsOn page)) (list_or_empty py ocr "rec_boxes") _
            (λ boxes. lines_of_zip-IsOn page texts scores boxes)))

  lines_of_page-IsOn : (page : ℕ) (r : Json) → Yields (All (IsOn page)) (lines_of_page py page r)
  unfolding lines_of_page
  lines_of_page-IsOn page r = Yields-bind (All (IsOn page)) (get r "prunedResult" nil) _ (λ pruned.
      Yields-bind (All (IsOn page)) (get (or_value pruned empty_object) "overall_ocr_res" nil) _
        (λ ocr. zip_page-IsOn page (or_value ocr empty_object)))

  abbrev IsBetween : ℕ → ℕ → Line → Type 0
  IsBetween first after l = IsLegible l × (first ≤ l.page) × (l.page < after)

  lines_of_pages-IsBetween :
      (page : ℕ) (rs : List Json)
      → Yields (All (IsBetween page (page + length rs))) (lines_of_pages py page rs)
  unfolding lines_of_pages
  lines_of_pages-IsBetween page [] = tt
  lines_of_pages-IsBetween page (r ∷ rs) =
      Yields-append (IsBetween page (page + length (r ∷ rs))) (lines_of_page py page r)
        (lines_of_pages py (suc page) rs)
        (Yields-weaken (IsOn page) (IsBetween page (page + length (r ∷ rs))) _
          (λ l h. (h.0, omega (arith, h.1), omega (arith, h.1))) (lines_of_page-IsOn page r))
        (Yields-weaken (IsBetween (suc page) (suc page + length rs))
          (IsBetween page (page + length (r ∷ rs))) _
          (λ l h. (h.0, omega (arith, h.1), omega (arith, h.2)))
          (lines_of_pages-IsBetween (suc page) rs))

  -- Every line of a body with a list of page results has a text that is neither empty nor a single
  -- character outside ASCII, a score that is not at most 0, and the number of one of these pages.
  pub normalize_layout_parsing-IsRead :
      (body result pages : Json) (rs : List Json)
      → get body "result" empty_object ≡ ok result
      → get result "layoutParsingResults" empty_array ≡ ok pages
      → iterate pages ≡ ok rs
      → Yields (All (IsRead (length rs))) (normalize_layout_parsing py body)
  unfolding normalize_layout_parsing
  normalize_layout_parsing-IsRead body result pages rs e1 e2 e3 =
      rw (e1, e2, e3)
        (Yields-weaken (IsBetween 1 (1 + length rs)) (IsRead (length rs)) _
          (λ l h. (h.0, h.1, omega (arith, h.2))) (lines_of_pages-IsBetween 1 rs))

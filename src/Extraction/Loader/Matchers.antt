-- ===== src/Extraction/Loader/Matchers.antt =====
-- Every matcher that is loaded has what its kind needs (src/ocr_engine/extraction/schema.py).
use ocr.Base.{◌≤◌, ◌≢◌, ◌⊎◌, inl, inr, Bool, false, Option, none, some, List, [], ◌∷◌, arith}
use ocr.Base.Lists.{All, length}
use ocr.Base.Int.{ℤ, pos}
use ocr.Base.Float.{Float}
use ocr.Base.Text.{Text}
use ocr.Extraction.Schema.{Kind, label, regex, positional, Matcher}
use ocr.Pipeline.Outcome.Holds.{Yields, Yields-bind, Yields-cons}
use ocr.Ocr.Json.{Json, nil, boolean, whole, get, item, empty_array}
use ocr.Extraction.Loader.{
  Reading, Pattern, checked_matcher, valid, kind_of, labels_of, pattern_of, nullable, new_matcher,
  matcher_of, matchers_of,
}

-- A label matcher has labels, a regex matcher a pattern, and a positional one a bound.
abbrev pub Serves : Kind → Matcher → Type 0
Serves label m = 1 ≤ length m.labels
Serves regex m = m.pattern ≢ none
Serves positional m = (m.x_min_ratio ≢ none) ⊎ (m.max_top_n ≢ none)

abbrev pub IsServing : Matcher → Type 0
IsServing m = Serves m.kind m

checked_matcher-IsServing :
    (kind : Kind) (labels : List Text) (pattern : Pattern) (near_right : Bool)
    (x_min : Option Float) (top_n : Option ℤ) (fuzzy_min : ℤ)
    → Yields IsServing (checked_matcher kind labels pattern near_right x_min top_n fuzzy_min)
checked_matcher-IsServing label [] p b x n z = tt
checked_matcher-IsServing label (t ∷ ts) p b x n z = omega arith
checked_matcher-IsServing regex ls none b x n z = tt
checked_matcher-IsServing regex ls (some ([], r)) b x n z = tt
checked_matcher-IsServing regex ls (some (c ∷ t, r)) b x n z = λ e. ground (arith, e)
checked_matcher-IsServing positional ls p b none none z = tt
checked_matcher-IsServing positional ls p b none (some n) z = inr (λ e. ground (arith, e))
checked_matcher-IsServing positional ls p b (some x) n z = inl (λ e. ground (arith, e))

module _ (py : Reading) where
  new_matcher-IsServing :
      (kind labels pattern near_right x_min top_n fuzzy_min : Json)
      → Yields IsServing (new_matcher py kind labels pattern near_right x_min top_n fuzzy_min)
  unfolding new_matcher
  new_matcher-IsServing kind labels pattern near_right x_min top_n fuzzy_min =
      Yields-bind IsServing (pattern_of py pattern) _ (λ p.
        Yields-bind IsServing (valid (kind_of kind)) _ (λ k.
          Yields-bind IsServing (valid (labels_of labels)) _ (λ ls.
            Yields-bind IsServing (valid p) _ (λ p'.
              Yields-bind IsServing (valid (py.lax_bool near_right)) _ (λ near.
                Yields-bind IsServing (valid (nullable py.lax_float x_min)) _ (λ x.
                  Yields-bind IsServing (valid (nullable py.lax_int top_n)) _ (λ n.
                    Yields-bind IsServing (valid (py.lax_int fuzzy_min)) _
                      (λ fuzzy. checked_matcher-IsServing k ls p' near x n fuzzy))))))))

  matcher_of-IsServing : (m : Json) → Yields IsServing (matcher_of py m)
  unfolding matcher_of
  matcher_of-IsServing m = Yields-bind IsServing (item m "kind") _ (λ kind.
      Yields-bind IsServing (get m "labels" empty_array) _ (λ labels.
        Yields-bind IsServing (get m "pattern" nil) _ (λ pattern.
          Yields-bind IsServing (get m "near_right" (boolean false)) _ (λ near_right.
            Yields-bind IsServing (get m "x_min_ratio" nil) _ (λ x_min.
              Yields-bind IsServing (get m "max_top_n" nil) _ (λ top_n.
                Yields-bind IsServing (get m "label_fuzzy_min" (whole (pos 82))) _ (λ fuzzy_min.
                  new_matcher-IsServing kind labels pattern near_right x_min top_n fuzzy_min)))))))

  pub matchers_of-IsServing : (ms : List Json) → Yields (All IsServing) (matchers_of py ms)
  unfolding matchers_of
  matchers_of-IsServing [] = tt
  matchers_of-IsServing (m ∷ ms) =
      Yields-cons IsServing (matcher_of py m) (matchers_of py ms) (matcher_of-IsServing m)
        (matchers_of-IsServing ms)

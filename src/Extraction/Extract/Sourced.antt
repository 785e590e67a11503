-- ===== src/Extraction/Extract/Sourced.antt =====
-- What each kind of matcher (src/ocr_engine/extraction/extract.py) reads from a line.
use ocr.Base.{◌≡◌, refl, Bool, true, false, Option, none, some, List, [], ◌∷◌}
use ocr.Base.Tests.{if◌then◌else◌}
use ocr.Base.Regex.{Regex}
use ocr.Base.Text.{Text, text_beq}
use ocr.Extraction.Layout.{Ranked, line_to_the_right}
use ocr.Extraction.Layout.Lines.{HasAll, HasOption, line_to_the_right-Has}
use ocr.Extraction.Schema.{Line, Matcher, FieldSchema}
use ocr.Extraction.Extract.{
  Tools, Value, amount, words, ExtractedField, has_value, or_next, parse_typed, field_of, placed,
  found_at, raw_value, pattern_value, in_pool, first_in_pool, near_right_value, label_value,
  first_label, regex_value,
}

module _ (tools : Tools) (P : Line → Type 0) where
  -- The field has a value, read from a line with the property, whose score is its confidence.
  abbrev pub IsSourced : FieldSchema → ExtractedField → Type 0
  IsSourced f x =
      (x.name ≡ f.name)
      × (has_value x ≡ true)
      × ((l : Line) × P l × (x.source_line ≡ some l) × (x.confidence ≡ l.score))

  abbrev pub Sourced : FieldSchema → Option ExtractedField → Type 0
  Sourced f none = Unit
  Sourced f (some x) = IsSourced f x

  pub or_next-Sourced :
      (f : FieldSchema) (a b : Option ExtractedField)
      → Sourced f a
      → Sourced f b
      → Sourced f (or_next tools a b)
  or_next-Sourced f none b ha hb = hb
  or_next-Sourced f (some x) b ha hb = ha

  field_of-Sourced :
      (f : FieldSchema) (line : Line) (v : Value) → P line → IsSourced f (field_of tools f line v)
  unfolding field_of
  field_of-Sourced f line (amount n) p = (refl, refl, (line, p, refl, refl))
  field_of-Sourced f line (words t) p = (refl, refl, (line, p, refl, refl))

  placed-Sourced :
      (f : FieldSchema) (line : Line) (v : Option Value)
      → P line
      → Sourced f (placed tools f line v)
  unfolding placed
  placed-Sourced f line none p = tt
  placed-Sourced f line (some v) p = field_of-Sourced f line v p

  found_at-Sourced :
      (f : FieldSchema) (line : Line) (t : Text) → P line → Sourced f (found_at tools f line t)
  unfolding found_at
  found_at-Sourced f line t p = placed-Sourced f line (parse_typed tools f t) p

  if-Sourced :
      (f : FieldSchema) (b : Bool) (x y : Option ExtractedField)
      → Sourced f x
      → Sourced f y
      → Sourced f (if b then x else y)
  if-Sourced f true x y hx hy = hx
  if-Sourced f false x y hx hy = hy

  if-line : (b : Bool) (x y : Line) → P x → P y → P (if b then x else y)
  if-line true x y hx hy = hx
  if-line false x y hx hy = hy

  pub first_in_pool-Sourced :
      (f : FieldSchema) (m : Matcher) (candidates ranked : List Ranked)
      → HasAll P ranked
      → Sourced f (first_in_pool tools f m candidates ranked)
  unfolding first_in_pool
  first_in_pool-Sourced f m candidates [] h = tt
  first_in_pool-Sourced f m candidates ((i, line) ∷ rest) h =
      let later = first_in_pool tools f m candidates rest in
      let more = first_in_pool-Sourced f m candidates rest h.1 in
      if-Sourced f (in_pool tools m candidates line) _ later
        (or_next-Sourced f (found_at tools f line line.text) later
          (found_at-Sourced f line line.text h.0) more)
        more

  near_right_value-Sourced :
      (f : FieldSchema) (line : Line) (value_part : Text) (right : Option Line)
      → P line
      → HasOption P right
      → Sourced f (near_right_value tools f line value_part right)
  unfolding near_right_value
  near_right_value-Sourced f line value_part none p h =
      or_next-Sourced f (found_at tools f line value_part) none
        (found_at-Sourced f line value_part p) tt
  near_right_value-Sourced f line value_part (some r) p h =
      or_next-Sourced f (found_at tools f line value_part) _ (found_at-Sourced f line value_part p)
        (found_at-Sourced f _ r.text (if-line (text_beq r.text value_part) line r p h))

  label_value-Sourced :
      (f : FieldSchema) (m : Matcher) (ranked : List Ranked) (line : Ranked) (l : Text)
      → P line.1
      → HasAll P ranked
      → Sourced f (label_value tools f m ranked line l)
  unfolding label_value
  label_value-Sourced f m ranked line l p h =
      if-Sourced f _ _ none
        (if-Sourced f m.near_right _ _
          (near_right_value-Sourced f line.1 _ (line_to_the_right line ranked none) p
            (line_to_the_right-Has P line ranked none h tt))
          (found_at-Sourced f line.1 _ p))
        tt

  pub first_label-Sourced :
      (f : FieldSchema) (m : Matcher) (ranked : List Ranked) (line : Ranked) (labels : List Text)
      → P line.1
      → HasAll P ranked
      → Sourced f (first_label tools f m ranked line labels)
  unfolding first_label
  first_label-Sourced f m ranked line [] p h = tt
  first_label-Sourced f m ranked line (l ∷ labels) p h =
      or_next-Sourced f (label_value tools f m ranked line l) _
        (label_value-Sourced f m ranked line l p h) (first_label-Sourced f m ranked line labels p h)

  raw_value-Sourced :
      (f : FieldSchema) (line : Line) (raw : Option (Option Text))
      → P line
      → Sourced f (raw_value tools f line raw)
  unfolding raw_value
  raw_value-Sourced f line none p = tt
  raw_value-Sourced f line (some raw) p = found_at-Sourced f line _ p

  pattern_value-Sourced :
      (f : FieldSchema) (line : Line) (r : Option Regex)
      → P line
      → Sourced f (pattern_value tools f line r)
  unfolding pattern_value
  pattern_value-Sourced f line none p = tt
  pattern_value-Sourced f line (some r) p = raw_value-Sourced f line _ p

  pub regex_value-Sourced :
      (f : FieldSchema) (m : Matcher) (line : Line)
      → P line
      → Sourced f (regex_value tools f m line)
  unfolding regex_value
  regex_value-Sourced f m line p = pattern_value-Sourced f line m.pattern p

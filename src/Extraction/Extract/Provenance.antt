-- ===== src/Extraction/Extract/Provenance.antt =====
-- Where the fields of `extract_fields` (src/ocr_engine/extraction/extract.py) come from.
use ocr.Base.{◌≡◌, ◌⊎◌, inl, inr, refl, Option, none, some, List, [], ◌∷◌}
use ocr.Base.Lists.{All, Pairs}
use ocr.Extraction.Layout.{Ranked, enumerate, sort_ranked, candidates_of}
use ocr.Extraction.Layout.Lines.{HasAll, HasAll-candidates, HasAll-sort_ranked, HasAll-enumerate}
use ocr.Extraction.Schema.{Line, Kind, label, regex, positional, Matcher, FieldSchema, Schema}
use ocr.Extraction.Extract.{
  Tools, ExtractedField, or_empty_field, line_value, first_line, positional_value, apply_matcher,
  empty_field, first_match, extract_one, extract_each, extract_fields,
}
use ocr.Extraction.Extract.Sourced.{
  IsSourced, Sourced, or_next-Sourced, first_label-Sourced, regex_value-Sourced,
  first_in_pool-Sourced,
}

abbrev pub Occurs : Line → List Line → Type 0
Occurs l [] = ⊥
Occurs l (k ∷ ks) = (k ≡ l) ⊎ Occurs l ks

module _ (tools : Tools) (P : Line → Type 0) where
  line_value-Sourced :
      (k : Kind) (f : FieldSchema) (m : Matcher) (ranked : List Ranked) (line : Ranked)
      → P line.1
      → HasAll P ranked
      → Sourced tools P f (line_value tools k f m ranked line)
  unfolding line_value
  line_value-Sourced label f m ranked line p h =
      first_label-Sourced tools P f m ranked line m.labels p h
  line_value-Sourced regex f m ranked line p h = regex_value-Sourced tools P f m line.1 p
  line_value-Sourced positional f m ranked line p h = tt

  first_line-Sourced :
      (f : FieldSchema) (m : Matcher) (ranked rest : List Ranked)
      → HasAll P ranked
      → HasAll P rest
      → Sourced tools P f (first_line tools f m ranked rest)
  unfolding first_line
  first_line-Sourced f m ranked [] h k = tt
  first_line-Sourced f m ranked (line ∷ rest) h k =
      or_next-Sourced tools P f (line_value tools m.kind f m ranked line) _
        (line_value-Sourced m.kind f m ranked line k.0 h) (first_line-Sourced f m ranked rest h k.1)

  positional_value-Sourced :
      (k : Kind) (f : FieldSchema) (m : Matcher) (candidates : List Ranked)
      → HasAll P candidates
      → Sourced tools P f (positional_value tools k f m candidates)
  unfolding positional_value
  positional_value-Sourced positional f m candidates h =
      first_in_pool-Sourced tools P f m candidates candidates h
  positional_value-Sourced _ f m candidates h = tt

  apply_matcher-Sourced :
      (f : FieldSchema) (m : Matcher) (ranked : List Ranked)
      → HasAll P ranked
      → Sourced tools P f (apply_matcher tools f m ranked)
  unfolding apply_matcher
  apply_matcher-Sourced f m ranked h =
      let some_of = HasAll-candidates P m.max_top_n ranked h in
      or_next-Sourced tools P f (positional_value tools m.kind f m (candidates_of m ranked)) _
        (positional_value-Sourced m.kind f m (candidates_of m ranked) some_of)
        (first_line-Sourced f m ranked (candidates_of m ranked) h some_of)

  first_match-Sourced :
      (f : FieldSchema) (matchers : List Matcher) (ranked : List Ranked)
      → HasAll P ranked
      → Sourced tools P f (first_match tools f matchers ranked)
  unfolding first_match
  first_match-Sourced f [] ranked h = tt
  first_match-Sourced f (m ∷ matchers) ranked h =
      or_next-Sourced tools P f (apply_matcher tools f m ranked) _
        (apply_matcher-Sourced f m ranked h) (first_match-Sourced f matchers ranked h)

  -- The field of the schema, with a value from such a line, or with none.
  abbrev pub Outcome : FieldSchema → ExtractedField → Type 0
  Outcome f x = IsSourced tools P f x ⊎ (x ≡ empty_field tools f)

  or_empty_field-Outcome :
      (f : FieldSchema) (o : Option ExtractedField)
      → Sourced tools P f o
      → Outcome f (or_empty_field tools f o)
  unfolding or_empty_field
  or_empty_field-Outcome f none h = inr refl
  or_empty_field-Outcome f (some x) h = inl h

  extract_each-Outcome :
      (fields : List FieldSchema) (ranked : List Ranked)
      → HasAll P ranked
      → Pairs Outcome fields (extract_each tools fields ranked)
  unfolding extract_each extract_one
  extract_each-Outcome [] ranked h = tt
  extract_each-Outcome (f ∷ fields) ranked h = (
    or_empty_field-Outcome f (first_match tools f f.matchers ranked)
        (first_match-Sourced f f.matchers ranked h),
    extract_each-Outcome fields ranked h,
  )

  extract_fields-Outcome :
      (schema : Schema) (lines : List Line)
      → All P lines
      → Pairs Outcome schema.fields (extract_fields tools schema lines)
  unfolding extract_fields
  extract_fields-Outcome schema lines h =
      extract_each-Outcome schema.fields (sort_ranked (enumerate 0 lines))
        (HasAll-sort_ranked P (enumerate 0 lines) (HasAll-enumerate P 0 lines h))

All-Occurs :
    (more lines : List Line)
    → ((l : Line) → Occurs l lines → Occurs l more)
    → All (λ l. Occurs l more) lines
All-Occurs more [] h = tt
All-Occurs more (l ∷ lines) h = (h l (inl refl), All-Occurs more lines (λ k o. h k (inr o)))

-- The result has one field for each field of the schema, in its order and under its name: either
-- with a value whose source line is one of the given lines and whose confidence is that line's
-- score, or with no value, no source line and confidence 0.
pub extract_fields-Pairs :
    (tools : Tools) (schema : Schema) (lines : List Line)
    → Pairs (Outcome tools (λ l. Occurs l lines)) schema.fields (extract_fields tools schema lines)
extract_fields-Pairs tools schema lines =
    extract_fields-Outcome tools (λ l. Occurs l lines) schema lines
      (All-Occurs lines lines (λ l o. o))

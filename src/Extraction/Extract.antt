-- ===== src/Extraction/Extract.antt =====
-- src/ocr_engine/extraction/extract.py. Fuzzy matching, date parsing and `str.lower` are arguments.
pub mod Sourced
pub mod Provenance
use ocr.Base.{
  ℕ, zero, suc, ◌+◌, ◌-◌, String, Bool, true, false, not, ◌&&◌, ◌||◌, Option, none, some, List, [],
  ◌∷◌, ◌++◌, min,
}
use ocr.Base.Tests.{nat_beq, if◌then◌else◌}
use ocr.Base.Lists.{length, take, drop, keep}
use ocr.Base.Int.{ℤ, pos, negsuc, ◌+ℤ◌, leb_ℤ, ltb_ℤ}
use ocr.Base.Text.{Text, codes, text_beq, is_one_of, lstrip_set, strip, find}
use ocr.Base.Float.{Float, FloatOps, float_zero}
use ocr.Base.Regex.{
  Regex, empty, one, seq, alt, star, group, not_behind, not_ahead, Position, group_of, search_re,
}
use ocr.Store.Rows.{Bbox}
use ocr.Extraction.Money.{parse_money}
use ocr.Extraction.Layout.{
  Ranked, enumerate, sort_ranked, candidates_of, page_width, line_to_the_right,
}
use ocr.Extraction.Schema.{
  Line, FieldType, money, text, date, Kind, label, regex, positional, Matcher, FieldSchema, Schema,
}

-- What extraction calls outside the repository.
pub record Tools : Type 0 where
  pub floats : FloatOps
  -- `str.lower`
  pub lower : Text → Text
  -- `rapidfuzz.fuzz.partial_ratio`
  pub partial_ratio : Text → Text → Float
  -- `dateparser.parse` with the sources' settings, and `strftime("%Y-%m-%d")` of a date found
  pub parse_date : Text → Option Text

-- A parsed value: a money field's is an amount, any other's is a text.
pub data Value : Type 0 where
  amount : ℤ → Value
  words : Text → Value

pub record ExtractedField : Type 0 where
  pub name : String
  pub value : Option Text
  pub amount : Option ℤ
  pub currency : Option String
  pub confidence : Float
  pub source_line : Option Line

abbrev pub has_value : ExtractedField → Bool
has_value f = elim f.value [ some _ ↦ true | none ↦ elim f.amount [ some _ ↦ true | none ↦ false ] ]

-- The pattern has a group.
abbrev has_groups : Regex → Bool
has_groups empty = false
has_groups (one _) = false
has_groups (seq a b) = has_groups a || has_groups b
has_groups (alt a b) = has_groups a || has_groups b
has_groups (star r) = has_groups r
has_groups (group _ _) = true
has_groups (not_behind _) = false
has_groups (not_ahead _) = false

-- `match.group(1) if match.groups() else match.group(0)`; a group that took no part is `none`.
regex_raw : Regex → Text → Option (Option Text)
regex_raw r t = elim (search_re (group 0 r) t) [
  | none ↦ none
  | some m ↦ some (group_of (if has_groups r then 1 else 0) m.groups)
]

-- `text or ""`
abbrev or_empty : Option Text → Text
or_empty none = []
or_empty (some t) = t

module _ (tools : Tools) where
  label_matches : Text → Text → ℤ → Bool
  label_matches t l min_score =
      tools.floats.le (tools.floats.of_int min_score) (tools.partial_ratio l t)

  value_after_label : Text → Text → Text
  value_after_label t l = elim (find (tools.lower t) (take (min (length l) 6) l)) [
    | none ↦ t
    | some i ↦ lstrip_set (is_one_of (codes " ：:=-")) (drop (i + length l) t)
  ]

  typed_value : FieldType → Text → Option Value
  typed_value type [] = none
  typed_value money t = elim (parse_money t) [ none ↦ none | some n ↦ some (amount n) ]
  typed_value date t = elim (tools.parse_date t) [ none ↦ none | some d ↦ some (words d) ]
  typed_value text t = some (words t)

  parse_typed : FieldSchema → Text → Option Value
  unfolding typed_value
  parse_typed f t = typed_value f.type (strip t)

  field_of : FieldSchema → Line → Value → ExtractedField
  field_of f line (amount n) = record {
    name = f.name;
    value = none;
    amount = some n;
    currency = some f.currency;
    confidence = line.score;
    source_line = some line;
  }
  field_of f line (words t) = record {
    name = f.name;
    value = some t;
    amount = none;
    currency = none;
    confidence = line.score;
    source_line = some line;
  }

  -- The first of two attempts that finds something.
  abbrev pub or_next : Option ExtractedField → Option ExtractedField → Option ExtractedField
  or_next none next = next
  or_next (some x) next = some x

  placed : FieldSchema → Line → Option Value → Option ExtractedField
  unfolding field_of
  placed f line none = none
  placed f line (some v) = some (field_of f line v)

  -- The field that a text gives, read from a line.
  found_at : FieldSchema → Line → Text → Option ExtractedField
  unfolding parse_typed placed
  found_at f line t = placed f line (parse_typed f t)

  -- The positional pool: `line.bbox[0] >= matcher.x_min_ratio * _page_width(candidates)`.
  abbrev in_pool : Matcher → List Ranked → Line → Bool
  in_pool m candidates line = elim m.x_min_ratio [
    | none ↦ true
    | some ratio ↦
        tools.floats.le (tools.floats.mul ratio (tools.floats.of_int (page_width candidates)))
          (tools.floats.of_int line.bbox.x1)
  ]

  pub first_in_pool : FieldSchema → Matcher → List Ranked → List Ranked → Option ExtractedField
  unfolding found_at page_width
  first_in_pool f m candidates [] = none
  first_in_pool f m candidates ((_, line) ∷ rest) =
      let later = first_in_pool f m candidates rest in
      if in_pool m candidates line then or_next (found_at f line line.text) later else later

  near_right_value : FieldSchema → Line → Text → Option Line → Option ExtractedField
  unfolding found_at
  near_right_value f line value_part right = or_next (found_at f line value_part) (elim right [
    | none ↦ none
    | some r ↦ found_at f (if text_beq r.text value_part then line else r) r.text
  ])

  -- One label of the inner loop.
  label_value : FieldSchema → Matcher → List Ranked → Ranked → Text → Option ExtractedField
  unfolding label_matches value_after_label near_right_value line_to_the_right found_at
  label_value f m ranked line l =
      if label_matches (tools.lower line.1.text) l m.label_fuzzy_min
      then (let value_part = value_after_label line.1.text l in
          if m.near_right
          then near_right_value f line.1 value_part (line_to_the_right line ranked none)
          else found_at f line.1 value_part)
      else none

  pub first_label : FieldSchema → Matcher → List Ranked → Ranked → List Text → Option ExtractedField
  unfolding label_value
  first_label f m ranked line [] = none
  first_label f m ranked line (l ∷ labels) =
      or_next (label_value f m ranked line l) (first_label f m ranked line labels)

  raw_value : FieldSchema → Line → Option (Option Text) → Option ExtractedField
  unfolding found_at
  raw_value f line none = none
  raw_value f line (some raw) = found_at f line (or_empty raw)

  pattern_value : FieldSchema → Line → Option Regex → Option ExtractedField
  unfolding regex_raw raw_value
  pattern_value f line none = none
  pattern_value f line (some r) = raw_value f line (regex_raw r line.text)

  pub regex_value : FieldSchema → Matcher → Line → Option ExtractedField
  unfolding pattern_value
  regex_value f m line = pattern_value f line m.pattern

  -- The body of the second loop, for the matcher's kind.
  line_value : Kind → FieldSchema → Matcher → List Ranked → Ranked → Option ExtractedField
  unfolding first_label regex_value
  line_value label f m ranked line = first_label f m ranked line m.labels
  line_value regex f m ranked line = regex_value f m line.1
  line_value positional f m ranked line = none

  first_line : FieldSchema → Matcher → List Ranked → List Ranked → Option ExtractedField
  unfolding line_value
  first_line f m ranked [] = none
  first_line f m ranked (line ∷ rest) =
      or_next (line_value m.kind f m ranked line) (first_line f m ranked rest)

  positional_value : Kind → FieldSchema → Matcher → List Ranked → Option ExtractedField
  unfolding first_in_pool
  positional_value positional f m candidates = first_in_pool f m candidates candidates
  positional_value _ f m candidates = none

  apply_matcher : FieldSchema → Matcher → List Ranked → Option ExtractedField
  unfolding positional_value first_line
  apply_matcher f m ranked =
      let candidates = candidates_of m ranked in
      or_next (positional_value m.kind f m candidates) (first_line f m ranked candidates)

  pub empty_field : FieldSchema → ExtractedField
  empty_field f = record {
    name = f.name;
    value = none;
    amount = none;
    currency = none;
    confidence = float_zero;
    source_line = none;
  }

  first_match : FieldSchema → List Matcher → List Ranked → Option ExtractedField
  unfolding apply_matcher
  first_match f [] ranked = none
  first_match f (m ∷ matchers) ranked =
      or_next (apply_matcher f m ranked) (first_match f matchers ranked)

  or_empty_field : FieldSchema → Option ExtractedField → ExtractedField
  unfolding empty_field
  or_empty_field f none = empty_field f
  or_empty_field f (some found) = found

  extract_one : FieldSchema → List Ranked → ExtractedField
  unfolding first_match or_empty_field
  extract_one f ranked = or_empty_field f (first_match f f.matchers ranked)

  extract_each : List FieldSchema → List Ranked → List ExtractedField
  unfolding extract_one
  extract_each [] ranked = []
  extract_each (f ∷ fields) ranked = extract_one f ranked ∷ extract_each fields ranked

  unfoldable pub extract_fields : Schema → List Line → List ExtractedField
  unfolding sort_ranked extract_each
  extract_fields schema lines = extract_each schema.fields (sort_ranked (enumerate 0 lines))

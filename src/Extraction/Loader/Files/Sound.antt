-- ===== src/Extraction/Loader/Files/Sound.antt =====
-- What `load_schemas` (src/ocr_engine/extraction/schema.py) lets through.
use ocr.Base.{
  ◌≤◌, ◌≡◌, inl, inr, String, Bool, true, false, ◌&&◌, Option, none, some, List, [], ◌∷◌, arith,
}
use ocr.Base.Tests.{Bool-cases, string_eq}
use ocr.Base.Lists.{All, length}
use ocr.Base.Float.{Float, float_zero, float_one}
use ocr.Base.Text.{codes}
use ocr.Extraction.Schema.{FieldType, Matcher, FieldSchema, Schema}
use ocr.Pipeline.Outcome.Holds.{Yields, Yields-bind, Yields-then, Yields-cons}
use ocr.Ocr.Json.{
  Json, nil, boolean, whole, real, string, array, object, lookup, get, item, iterate, empty_array,
}
use ocr.Extraction.Loader.{Reading, matchers_of}
use ocr.Extraction.Loader.Matchers.{IsServing, matchers_of-IsServing}
use ocr.Extraction.Loader.Files.{
  has_key, type_of, default_threshold, float_of, with_type, with_threshold, with_matchers,
  with_name, field_of, fields_of, with_id, with_fields, parse_schema, before_at, read_schema,
  is_some,
}

module _ (py : Reading) where
  -- A field has a matcher, its matchers have what their kinds need, and its threshold lies between
  -- 0 and 1.
  abbrev pub IsFieldSound : FieldSchema → Type 0
  IsFieldSound f =
      (1 ≤ length f.matchers)
      × All IsServing f.matchers
      × (py.floats.le float_zero f.threshold ≡ true)
      × (py.floats.le f.threshold float_one ≡ true)

  abbrev pub IsSound : Schema → Type 0
  IsSound s = (1 ≤ length s.fields) × All IsFieldSound s.fields

  with_type-IsFieldSound :
      (source : String) (f name : Json) (m : Matcher) (ms : List Matcher) (t : Float) (ftype : Json)
      (type : Option FieldType)
      → All IsServing (m ∷ ms)
      → py.floats.le float_zero t ≡ true
      → py.floats.le t float_one ≡ true
      → Yields IsFieldSound (with_type py source f name (m ∷ ms) t ftype type)
  with_type-IsFieldSound source f name m ms t ftype none serving low high = tt
  with_type-IsFieldSound source f name m ms t ftype (some type) serving low high =
      Yields-bind IsFieldSound (get f "required" (boolean true)) _ (λ required.
        Yields-bind IsFieldSound (get f "currency" (string (codes "IDR"))) _
          (λ currency. (omega arith, serving, low, high)))

  with_threshold-IsFieldSound :
      (source : String) (f name : Json) (m : Matcher) (ms : List Matcher) (t : Float)
      → All IsServing (m ∷ ms)
      → Yields IsFieldSound (with_threshold py source f name (m ∷ ms) t)
  with_threshold-IsFieldSound source f name m ms t serving =
      elim (Bool-cases (py.floats.le float_zero t)) [
        | inr e ↦ rw e tt
        | inl e ↦ elim (Bool-cases (py.floats.le t float_one)) [
          | inr e' ↦ rw (e, e') tt
          | inl e' ↦
              rw (e, e')
                (Yields-bind IsFieldSound (get f "type" (string (codes "text"))) _ (λ ftype.
                  Yields-bind IsFieldSound (type_of ftype) _
                    (λ type. with_type-IsFieldSound source f name m ms t ftype type serving e e')))
        ]
      ]

  with_matchers-IsFieldSound :
      (source : String) (f name : Json) (ms : List Matcher)
      → All IsServing ms
      → Yields IsFieldSound (with_matchers py source f name ms)
  with_matchers-IsFieldSound source f name [] serving = tt
  with_matchers-IsFieldSound source f name (m ∷ ms) serving =
      Yields-bind IsFieldSound (get f "threshold" (real default_threshold)) _ (λ x.
        Yields-bind IsFieldSound (float_of py x) _
          (λ t. with_threshold-IsFieldSound source f name m ms t serving))

  field_of-IsFieldSound : (source : String) (f : Json) → Yields IsFieldSound (field_of py source f)
  unfolding field_of
  field_of-IsFieldSound source f =
      Yields-bind IsFieldSound (has_key "name" f) (with_name py source f) by_name
    where
      by_name : (b : Bool) → Yields IsFieldSound (with_name py source f b)
      by_name false = tt
      by_name true = Yields-bind IsFieldSound (get f "matchers" empty_array) _ (λ given.
          Yields-bind IsFieldSound (iterate given) _ (λ ms.
            Yields-then (All IsServing) IsFieldSound (matchers_of py ms) _
              (matchers_of-IsServing py ms)
              (λ matchers serving.
                Yields-bind IsFieldSound (item f "name") _
                  (λ name. with_matchers-IsFieldSound source f name matchers serving))))

  fields_of-IsFieldSound :
      (source : String) (fs : List Json) → Yields (All IsFieldSound) (fields_of py source fs)
  unfolding fields_of
  fields_of-IsFieldSound source [] = tt
  fields_of-IsFieldSound source (f ∷ fs) =
      Yields-cons IsFieldSound (field_of py source f) (fields_of py source fs)
        (field_of-IsFieldSound source f) (fields_of-IsFieldSound source fs)

  with_id-IsSound :
      (raw : Json) (fs : List FieldSchema) (x : Json)
      → 1 ≤ length fs
      → All IsFieldSound fs
      → Yields IsSound (with_id py raw fs x)
  with_id-IsSound raw fs nil some_fields sound = tt
  with_id-IsSound raw fs (boolean b) some_fields sound = tt
  with_id-IsSound raw fs (whole n) some_fields sound = tt
  with_id-IsSound raw fs (real x) some_fields sound = tt
  with_id-IsSound raw fs (array xs) some_fields sound = tt
  with_id-IsSound raw fs (object ms) some_fields sound = tt
  with_id-IsSound raw fs (string t) some_fields sound =
      Yields-bind IsSound (get raw "doc_type" (string (before_at t))) _
        (λ doc_type. (some_fields, sound))

  with_fields-IsSound :
      (source : String) (raw : Json) (fs : List FieldSchema)
      → All IsFieldSound fs
      → Yields IsSound (with_fields py source raw fs)
  with_fields-IsSound source raw [] sound = tt
  with_fields-IsSound source raw (f ∷ fs) sound =
      Yields-bind IsSound (item raw "schema_id") (with_id py raw (f ∷ fs))
        (λ x. with_id-IsSound raw (f ∷ fs) x (omega arith) sound)

  parse_schema-IsSound :
      (raw : Json) (source : String) → Yields IsSound (parse_schema py raw source)
  unfolding parse_schema
  parse_schema-IsSound nil source = tt
  parse_schema-IsSound (boolean b) source = tt
  parse_schema-IsSound (whole n) source = tt
  parse_schema-IsSound (real x) source = tt
  parse_schema-IsSound (string t) source = tt
  parse_schema-IsSound (array xs) source = tt
  parse_schema-IsSound (object ms) source =
      elim (Bool-cases
        (is_some (lookup (codes "schema_id") ms) && is_some (lookup (codes "fields") ms))) [
          | inr e ↦ rw e tt
          | inl e ↦ rw e (
              Yields-bind IsSound (item (object ms) "fields") _ (λ given.
                Yields-bind IsSound (iterate given) _ (λ fs.
                  Yields-then (All IsFieldSound) IsSound (fields_of py source fs)
                    (with_fields py source (object ms)) (fields_of-IsFieldSound source fs)
                    (with_fields-IsSound source (object ms)))))
        ]

  pub read_schema-IsSound : (name : String) → Yields IsSound (read_schema py name)
  unfolding read_schema
  read_schema-IsSound name =
      Yields-bind IsSound (py.read_text name) _
        (λ t. Yields-bind IsSound (py.safe_load t) _ (λ raw. parse_schema-IsSound raw name))

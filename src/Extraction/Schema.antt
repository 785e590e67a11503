-- ===== src/Extraction/Schema.antt =====
-- The values of src/ocr_engine/ocr/base.py (`Line`) and src/ocr_engine/extraction/schema.py, as
-- they are after validation. A pattern is the compiled one.
use ocr.Base.{ℕ, String, Bool, Option, none, some, List, [], ◌∷◌}
use ocr.Base.Int.{ℤ}
use ocr.Base.Text.{Text}
use ocr.Base.Float.{Float}
use ocr.Base.Regex.{Regex}
use ocr.Base.Tests.{◌==◌, string_eq, if◌then◌else◌}
use ocr.Store.Rows.{Bbox}

pub record Line : Type 0 where
  pub text : Text
  pub score : Float
  pub bbox : Bbox
  pub page : ℕ

-- `KNOWN_TYPES`
pub data FieldType : Type 0 where
  money text date : FieldType

pub data Kind : Type 0 where
  label regex positional : Kind

pub record Matcher : Type 0 where
  pub kind : Kind
  pub labels : List Text
  pub pattern : Option Regex
  pub near_right : Bool
  pub x_min_ratio : Option Float
  pub max_top_n : Option ℤ
  pub label_fuzzy_min : ℤ

pub record FieldSchema : Type 0 where
  pub name : String
  pub type : FieldType
  pub required : Bool
  pub threshold : Float
  pub currency : String
  pub matchers : List Matcher

pub record Schema : Type 0 where
  pub schema_id : String
  pub doc_type : String
  pub fields : List FieldSchema

-- The dict of the loaded schemas, by their id.
abbrev pub Schemas : Type 0
Schemas = List (String × Schema)

abbrev pub get_schema : Schemas → String → Option Schema
get_schema [] key = none
get_schema ((k, s) ∷ rest) key = if k == key then some s else get_schema rest key

abbrev field_named : String → List FieldSchema → Option FieldSchema
field_named name [] = none
field_named name (f ∷ fs) = if f.name == name then some f else field_named name fs

-- `Schema.field`
abbrev pub field : Schema → String → Option FieldSchema
field schema name = field_named name schema.fields

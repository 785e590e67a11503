-- ===== src/Extraction/Loader/Files.antt =====
-- `load_schemas` and `_parse_schema` (src/ocr_engine/extraction/schema.py).
pub mod Sound
pub mod Loaded
use ocr.Base.{
  ℕ, String, ◌<>◌, Bool, true, false, not, ◌&&◌, ◌||◌, Option, none, some, List, [], ◌∷◌, ◌++◌,
}
use Prim.Native.Nat.{Ordering}
use Prim.Native.String.{compare}
use ocr.Base.Tests.{nat_beq, if◌then◌else◌}
use ocr.Base.Float.{Float, float_zero, float_one}
use ocr.Base.Text.{Text, codes, text_beq, find}
use ocr.Extraction.Schema.{
  FieldType, money, text, date, Matcher, FieldSchema, Schema, Schemas, get_schema,
}
use ocr.Pipeline.Outcome.{Outcome, ok, raise, ◌>>=◌, value_error, other}
use ocr.Ocr.Json.{
  Json, nil, boolean, whole, real, string, array, object, Elements, no_more, element, get, item,
  lookup, iterate, is_falsy, empty_array,
}
use ocr.Extraction.Loader.{Reading, matchers_of}

abbrev pub is_some {ℓ} : {A : Type ℓ} → Option A → Bool
is_some none = false
is_some (some a) = true

abbrev has_text : Text → Elements → Bool
has_text t no_more = false
has_text t (element (string u) xs) = text_beq u t || has_text t xs
has_text t (element x xs) = has_text t xs

-- `"…" in x`
unfoldable pub has_key : String → Json → Outcome Bool
has_key key (object ms) = ok (is_some (lookup (codes key) ms))
has_key key (array xs) = ok (has_text (codes key) xs)
has_key key (string t) = ok (is_some (find t (codes key)))
has_key key x = raise (other "argument is not iterable")

-- 0.7
abbrev pub default_threshold : Float
default_threshold = record { bits = 0x3fe6666666666666 }

-- `ftype not in KNOWN_TYPES`
abbrev pub type_named : Text → Option FieldType
type_named t =
    if text_beq t (codes "money")
    then some money
    else if text_beq t (codes "text")
    then some text
    else if text_beq t (codes "date")
    then some date
    else none

abbrev pub type_of : Json → Outcome (Option FieldType)
type_of (string t) = ok (type_named t)
type_of (array xs) = raise (other "unhashable type: 'list'")
type_of (object ms) = raise (other "unhashable type: 'dict'")
type_of x = ok none

-- `t.split("@")[0]`
abbrev pub before_at : Text → Text
before_at [] = []
before_at (c ∷ t) = let rest = before_at t in if nat_beq c b'@' then [] else c ∷ rest

-- `sorted(…)`, of names in one directory.
abbrev is_after : Ordering → Bool
is_after Ordering.gt = true
is_after o = false

abbrev pub insert_name : String → List String → List String
insert_name n [] = n ∷ []
insert_name n (m ∷ ms) =
    let rest = insert_name n ms in if is_after (compare n m) then m ∷ rest else n ∷ (m ∷ ms)

abbrev pub sorted : List String → List String
sorted [] = []
sorted (n ∷ ns) = insert_name n (sorted ns)

abbrev pub value_error_of : {A : Type 0} → String → String → Outcome A
value_error_of source what = raise (value_error (source <> (": " <> what)))

module _ (py : Reading) where
  -- `float(x)`
  abbrev pub float_of : Json → Outcome Float
  float_of (boolean b) = ok (if b then float_one else float_zero)
  float_of (whole n) = ok (py.floats.of_int n)
  float_of (real x) = ok x
  float_of (string t) = py.float_text t
  float_of x = raise (other "float() argument must be a string or a real number")

  abbrev new_field : Json → List Matcher → Float → FieldType → Json → Json → FieldSchema
  new_field name matchers threshold type required currency = record {
    name = py.as_name name;
    type = type;
    required = not (is_falsy required);
    threshold = threshold;
    currency = py.as_name currency;
    matchers = matchers;
  }

  abbrev pub with_type :
      String → Json → Json → List Matcher → Float → Json → Option FieldType → Outcome FieldSchema
  with_type source f name matchers threshold ftype none =
      value_error_of source ("unknown type " <> (py.repr ftype <> (" for " <> py.repr name)))
  with_type source f name matchers threshold ftype (some type) =
      get f "required" (boolean true) >>= λ required.
      get f "currency" (string (codes "IDR")) >>= λ currency.
      ok (new_field name matchers threshold type required currency)

  abbrev pub with_threshold : String → Json → Json → List Matcher → Float → Outcome FieldSchema
  with_threshold source f name matchers threshold =
      if py.floats.le float_zero threshold && py.floats.le threshold float_one
      then (get f "type" (string (codes "text")) >>= λ ftype.
          type_of ftype >>= with_type source f name matchers threshold ftype)
      else value_error_of source ("threshold for " <> (py.repr name <> " outside 0-1"))

  abbrev pub with_matchers : String → Json → Json → List Matcher → Outcome FieldSchema
  with_matchers source f name [] =
      value_error_of source ("field " <> (py.repr name <> " has no matchers"))
  with_matchers source f name (m ∷ ms) = get f "threshold" (real default_threshold) >>= λ x.
      float_of x >>= with_threshold source f name (m ∷ ms)

  abbrev pub with_name : String → Json → Bool → Outcome FieldSchema
  with_name source f false = value_error_of source "field without name"
  with_name source f true = get f "matchers" empty_array >>= λ given. iterate given >>= λ ms.
      matchers_of py ms >>= λ matchers.
      item f "name" >>= λ name. with_matchers source f name matchers

  -- One round of the loop over the fields.
  unfoldable pub field_of : String → Json → Outcome FieldSchema
  unfolding has_key matchers_of get item iterate
  field_of source f = has_key "name" f >>= with_name source f

  unfoldable pub fields_of : String → List Json → Outcome (List FieldSchema)
  unfolding field_of
  fields_of source [] = ok []
  fields_of source (f ∷ fs) =
      field_of source f >>= λ field. fields_of source fs >>= λ more. ok (field ∷ more)

  -- A text has `split`, and no other value.
  abbrev pub with_id : Json → List FieldSchema → Json → Outcome Schema
  with_id raw fields (string t) = get raw "doc_type" (string (before_at t)) >>= λ doc_type.
      ok (record {
        schema_id = py.as_name (string t);
        doc_type = py.as_name doc_type;
        fields = fields;
      })
  with_id raw fields x = raise (other "object has no attribute 'split'")

  abbrev pub with_fields : String → Json → List FieldSchema → Outcome Schema
  with_fields source raw [] = value_error_of source "schema has no fields"
  with_fields source raw (f ∷ fs) = item raw "schema_id" >>= with_id raw (f ∷ fs)

  abbrev pub no_schema : String → Outcome Schema
  no_schema source = value_error_of source "schema must define schema_id and fields"

  -- `_parse_schema`
  unfoldable pub parse_schema : Json → String → Outcome Schema
  unfolding fields_of item iterate get
  parse_schema (object ms) source =
      if is_some (lookup (codes "schema_id") ms) && is_some (lookup (codes "fields") ms)
      then (item (object ms) "fields" >>= λ given.
          iterate given >>= λ fs. fields_of source fs >>= with_fields source (object ms))
      else no_schema source
  parse_schema x source = no_schema source

  unfoldable pub read_schema : String → Outcome Schema
  unfolding parse_schema
  read_schema name = py.read_text name >>= λ t. py.safe_load t >>= λ raw. parse_schema raw name

  abbrev pub add_schema : String → Schemas → Schema → Outcome Schemas
  add_schema name schemas schema =
      if is_some (get_schema schemas schema.schema_id)
      then raise (
          value_error (
            "duplicate schema_id "
            <> (py.repr (string (codes schema.schema_id)) <> (" in " <> name))))
      else ok (schemas ++ ((schema.schema_id, schema) ∷ []))

  -- The loop of `load_schemas` over the files that are left.
  unfoldable pub load_each : List String → Schemas → Outcome Schemas
  unfolding read_schema
  load_each [] schemas = ok schemas
  load_each (name ∷ names) schemas =
      read_schema name >>= λ schema. add_schema name schemas schema >>= load_each names

  abbrev pub some_schemas : String → Schemas → Outcome Schemas
  some_schemas dir [] = raise (value_error ("no extraction schemas found in " <> dir))
  some_schemas dir (s ∷ ss) = ok (s ∷ ss)

  -- `load_schemas` of a directory with these `*.yaml` files.
  unfoldable pub load_schemas : String → List String → Outcome Schemas
  unfolding load_each
  load_schemas dir names = load_each (sorted names) [] >>= some_schemas dir

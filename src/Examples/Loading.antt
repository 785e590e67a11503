-- ===== src/Examples/Loading.antt =====
-- The loader of schemas, on files of one field.
use ocr.Base.{◌≡◌, ◌≢◌, refl, String, none, some, [], ◌∷◌, false, true}
use ocr.Base.Tests.{string_eq}
use ocr.Base.Int.{pos}
use ocr.Base.Regex.{empty}
use ocr.Base.Text.{codes}
use ocr.Extraction.Schema.{money, label, Schema}
use ocr.Pipeline.Outcome.{ok, raise, value_error}
use ocr.Pipeline.Outcome.Holds.{Yields}
use ocr.Ocr.Json.{Json, string, array, object, no_more, element, no_members, member}
use ocr.Extraction.Loader.{Reading}
use ocr.Extraction.Loader.Files.{load_schemas, sorted, default_threshold}
use ocr.Extraction.Loader.Files.Loaded.{IsLoaded, load_schemas-IsLoaded}
use ocr.Examples.Installation.{floats}

abbrev labels : Json
labels = array (element (string (codes "total")) no_more)

abbrev by_label : Json → Json
by_label labels =
    object
      (member (codes "kind") (string (codes "label")) (member (codes "labels") labels no_members))

abbrev total_of : Json → Json
total_of matcher = object (
    member (codes "name") (string (codes "total")) (
      member (codes "type") (string (codes "money"))
        (member (codes "matchers") (array (element matcher no_more)) no_members)))

abbrev file_of : String → Json → Json
file_of i f = object (
    member (codes "schema_id") (string (codes i))
      (member (codes "fields") (array (element f no_more)) no_members))

abbrev name_of : Json → String
name_of x = "receipt@1"

-- A directory whose files all hold this value.
abbrev holding : Json → Reading
holding x = record {
  floats = floats;
  read_text = λ name. ok (codes name);
  safe_load = λ t. ok x;
  compile = λ t. ok empty;
  lax_bool = λ y. some false;
  lax_float = λ y. none;
  lax_int = λ y. some (pos 82);
  float_text = λ t. raise (value_error "could not convert string to float");
  repr = λ y. "'receipt@1'";
  as_name = name_of;
}

abbrev pub receipts : Reading
receipts = holding (file_of "receipt@1" (total_of (by_label labels)))

abbrev pub receipt : Schema
receipt = record {
  schema_id = "receipt@1";
  doc_type = "receipt@1";
  fields =
      record {
        name = "receipt@1";
        type = money;
        required = true;
        threshold = default_threshold;
        currency = "receipt@1";
        matchers =
            record {
              kind = label;
              labels = codes "total" ∷ [];
              pattern = none;
              near_right = false;
              x_min_ratio = none;
              max_top_n = none;
              label_fuzzy_min = pos 82;
            }
            ∷ [];
      }
      ∷ [];
}

loads_one : load_schemas receipts "schemas" ("receipt.yaml" ∷ []) ≡ ok (("receipt@1", receipt) ∷ [])
unfolding load_schemas
loads_one = refl

refuses_second :
    load_schemas receipts "schemas" ("b.yaml" ∷ "a.yaml" ∷ [])
    ≡ raise (value_error "duplicate schema_id 'receipt@1' in b.yaml")
unfolding load_schemas
refuses_second = refl

refuses_no_labels :
    load_schemas
      (holding (file_of "receipt@1" (total_of (by_label (array no_more)))))
      "schemas"
      ("a.yaml" ∷ [])
    ≡ raise (value_error "matcher lacks what its kind needs")
unfolding load_schemas
refuses_no_labels = refl

refuses_none :
    load_schemas receipts "schemas" []
    ≡ raise (value_error "no extraction schemas found in schemas")
unfolding load_schemas
refuses_none = refl

load_schemas-IsLoaded_example :
    Yields
      (λ schemas. (schemas ≢ []) × IsLoaded receipts (sorted ("receipt.yaml" ∷ [])) schemas)
      (load_schemas receipts "schemas" ("receipt.yaml" ∷ []))
load_schemas-IsLoaded_example = load_schemas-IsLoaded receipts "schemas" ("receipt.yaml" ∷ [])

-- ===== src/Ocr/Json.antt =====
-- The values of `response.json()`, with what src/ocr_engine/ocr/baidu.py does to them. What Python
-- raises on a value of another type is the constructor `other` of `Exception`.
use ocr.Base.{String, Bool, true, false, ◌||◌, Option, none, some, List, [], ◌∷◌}
use ocr.Base.Tests.{nat_beq, if◌then◌else◌}
use ocr.Base.Int.{ℤ, pos}
use ocr.Base.Float.{Float}
use ocr.Base.Text.{Text, codes, text_beq}
use ocr.Pipeline.Outcome.{Outcome, ok, raise, other}

mutual
  pub data Json : Type 0 where
    nil : Json
    boolean : Bool → Json
    whole : ℤ → Json
    real : Float → Json
    string : Text → Json
    array : Elements → Json
    object : Members → Json

  pub data Elements : Type 0 where
    no_more : Elements
    element : Json → Elements → Elements

  pub data Members : Type 0 where
    no_members : Members
    member : Text → Json → Members → Members

abbrev pub elements : Elements → List Json
elements no_more = []
elements (element x xs) = x ∷ elements xs

-- The value of a key; a document's last one counts.
abbrev pub lookup : Text → Members → Option Json
lookup key no_members = none
lookup key (member k x rest) = elim (lookup key rest) [
  | some y ↦ some y
  | none ↦ if text_beq k key then some x else none
]

abbrev pub or_json : Json → Option Json → Json
or_json default none = default
or_json default (some x) = x

-- `x.get(key, default)`
unfoldable pub get : Json → String → Json → Outcome Json
get (object ms) key default = ok (or_json default (lookup (codes key) ms))
get x key default = raise (other "object has no attribute 'get'")

abbrev pub or_key_error : Option Json → Outcome Json
or_key_error (some x) = ok x
or_key_error none = raise (other "key not found")

-- `x[key]`: a `KeyError` or a `TypeError` where there is none.
unfoldable pub item : Json → String → Outcome Json
item (object ms) key = or_key_error (lookup (codes key) ms)
item x key = raise (other "object is not subscriptable by a text")

abbrev pub empty_object : Json
empty_object = object no_members

abbrev pub empty_array : Json
empty_array = array no_more

abbrev pub is_minus_zero : Float → Bool
is_minus_zero x = nat_beq x.bits 0x8000000000000000

-- The value is false in a condition.
abbrev pub is_falsy : Json → Bool
is_falsy nil = true
is_falsy (boolean b) = if b then false else true
is_falsy (whole (pos n)) = nat_beq n 0
is_falsy (whole n) = false
is_falsy (real x) = nat_beq x.bits 0 || is_minus_zero x
is_falsy (string []) = true
is_falsy (string (c ∷ t)) = false
is_falsy (array no_more) = true
is_falsy (array (element x xs)) = false
is_falsy (object no_members) = true
is_falsy (object (member k x rest)) = false

-- `x or default`
unfoldable pub or_value : Json → Json → Json
or_value x default = if is_falsy x then default else x

abbrev pub letters : Text → List Json
letters [] = []
letters (c ∷ t) = string (c ∷ []) ∷ letters t

abbrev pub contains_text : List Text → Text → Bool
contains_text [] key = false
contains_text (k ∷ ks) key = text_beq k key || contains_text ks key

-- The keys of a dict, each where it first appears, but for those seen before.
abbrev pub keys_after : List Text → Members → List Json
keys_after seen no_members = []
keys_after seen (member k x rest) =
    let more = keys_after (k ∷ seen) rest in if contains_text seen k then more else string k ∷ more

-- The elements that a `for` goes through.
unfoldable pub iterate : Json → Outcome (List Json)
iterate (array xs) = ok (elements xs)
iterate (string t) = ok (letters t)
iterate (object ms) = ok (keys_after [] ms)
iterate x = raise (other "object is not iterable")

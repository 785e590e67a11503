-- ===== src/Base/Text.antt =====
-- Python texts as lists of code points, with the methods of `str` that the sources call and the
-- parts of the Unicode tables (15.0, Python 3.12) that they rest on.
use Prim.Native.Char.{code}
use Prim.Native.String.{String}
use Prim.Native.Nat.{ℕ, ◌+◌, ◌-◌, ◌*◌}
use mathlib.Core.Bool.{Bool, true, false, ◌&&◌, ◌||◌}
use mathlib.Core.Option.{Option, none, some}
use mathlib.Core.List.{List, [], ◌∷◌, reverse}
use ocr.Base.Tests.{leb, nat_beq, if◌then◌else◌}

abbrev pub Text : Type 0
Text = List ℕ

abbrev pub codes : String → Text
codes String.[] = []
codes (String.◌∷◌ c s) = code c ∷ codes s

-- A character of a set that is written out, such as `"., "`.
abbrev pub is_one_of : Text → ℕ → Bool
is_one_of [] c = false
is_one_of (d ∷ ds) c = nat_beq c d || is_one_of ds c

abbrev pub between : ℕ → ℕ → ℕ → Bool
between lo hi c = leb lo c && leb c hi

-- `str.isspace`, and `\s` in a pattern.
unfoldable pub is_space : ℕ → Bool
is_space c =
    between 9 13 c
    || between 28 32 c
    || is_one_of (0x85 ∷ 0xa0 ∷ 0x1680 ∷ 0x2028 ∷ 0x2029 ∷ 0x202f ∷ 0x205f ∷ 0x3000 ∷ []) c
    || between 0x2000 0x200a c

-- The zero digit of every run of ten decimal digits (category Nd).
abbrev zero_digits : List ℕ
zero_digits =
    0x30 ∷ 0x660 ∷ 0x6f0 ∷ 0x7c0 ∷ 0x966 ∷ 0x9e6 ∷ 0xa66 ∷ 0xae6 ∷ 0xb66 ∷ 0xbe6 ∷ 0xc66 ∷ 0xce6
    ∷ 0xd66 ∷ 0xde6 ∷ 0xe50 ∷ 0xed0 ∷ 0xf20 ∷ 0x1040 ∷ 0x1090 ∷ 0x17e0 ∷ 0x1810 ∷ 0x1946 ∷ 0x19d0
    ∷ 0x1a80 ∷ 0x1a90 ∷ 0x1b50 ∷ 0x1bb0 ∷ 0x1c40 ∷ 0x1c50 ∷ 0xa620 ∷ 0xa8d0 ∷ 0xa900 ∷ 0xa9d0
    ∷ 0xa9f0 ∷ 0xaa50 ∷ 0xabf0 ∷ 0xff10 ∷ 0x104a0 ∷ 0x10d30 ∷ 0x11066 ∷ 0x110f0 ∷ 0x11136 ∷ 0x111d0
    ∷ 0x112f0 ∷ 0x11450 ∷ 0x114d0 ∷ 0x11650 ∷ 0x116c0 ∷ 0x11730 ∷ 0x118e0 ∷ 0x11950 ∷ 0x11c50
    ∷ 0x11d50 ∷ 0x11da0 ∷ 0x11f50 ∷ 0x16a60 ∷ 0x16ac0 ∷ 0x16b50 ∷ 0x1d7ce ∷ 0x1d7d8 ∷ 0x1d7e2
    ∷ 0x1d7ec ∷ 0x1d7f6 ∷ 0x1e140 ∷ 0x1e2f0 ∷ 0x1e4f0 ∷ 0x1e950 ∷ 0x1fbf0 ∷ []

abbrev digit_of_run : List ℕ → ℕ → Option ℕ
digit_of_run [] c = none
digit_of_run (z ∷ zs) c = if between z (z + 9) c then some (c - z) else digit_of_run zs c

-- `unicodedata.decimal`: the value of a decimal digit.
unfoldable pub decimal : ℕ → Option ℕ
decimal c = digit_of_run zero_digits c

-- `\d` in a pattern.
unfoldable pub is_digit : ℕ → Bool
unfolding decimal
is_digit c = elim (decimal c) [ none ↦ false | some _ ↦ true ]

unfoldable pub lstrip_set : (ℕ → Bool) → Text → Text
lstrip_set p [] = []
lstrip_set p (c ∷ t) = let rest = lstrip_set p t in if p c then rest else c ∷ t

-- `str.strip()`
unfoldable pub strip : Text → Text
unfolding is_space lstrip_set
strip t = reverse (lstrip_set is_space (reverse (lstrip_set is_space t)))

-- `str.replace` of one character by another.
abbrev pub replace_char : ℕ → ℕ → Text → Text
replace_char a b [] = []
replace_char a b (c ∷ t) = (if nat_beq c a then b else c) ∷ replace_char a b t

abbrev pub text_beq : Text → Text → Bool
text_beq [] [] = true
text_beq (a ∷ s) (b ∷ t) = nat_beq a b && text_beq s t
text_beq _ _ = false

abbrev pub starts_with : Text → Text → Bool
starts_with t [] = true
starts_with [] (p ∷ ps) = false
starts_with (c ∷ t) (p ∷ ps) = nat_beq c p && starts_with t ps

-- `str.find`
abbrev pub find : Text → Text → Option ℕ
find [] p = if text_beq p [] then some 0 else none
find (c ∷ t) p =
    let rest = find t p in
    if starts_with (c ∷ t) p then some 0 else elim rest [ none ↦ none | some i ↦ some (i + 1) ]

-- The value of the digits of a text, or `none` at any other character.
abbrev pub digits_value : ℕ → Text → Option ℕ
digits_value acc [] = some acc
digits_value acc (c ∷ t) = elim (decimal c) [ none ↦ none | some d ↦ digits_value (acc * 10 + d) t ]

-- The characters that `str.splitlines` splits at.
abbrev pub is_line_break : ℕ → Bool
is_line_break c = is_one_of (10 ∷ 11 ∷ 12 ∷ 13 ∷ 28 ∷ 29 ∷ 30 ∷ 0x85 ∷ 0x2028 ∷ 0x2029 ∷ []) c

abbrev pub until_break : Text → Text
until_break [] = []
until_break (c ∷ t) = let rest = until_break t in if is_line_break c then [] else c ∷ rest

-- `str.splitlines()[0]`, where there is a line.
abbrev pub first_line : Text → Option Text
first_line [] = none
first_line (c ∷ t) = some (until_break (c ∷ t))

-- ===== src/Extraction/Money.antt =====
-- src/ocr_engine/extraction/money.py.
pub mod Groups
pub mod Digits
pub mod Matching
pub mod Amounts
pub mod Pattern
pub mod Search
pub mod Characters
pub mod RoundTrip
use Prim.Native.Nat.{◌%◌}
use ocr.Base.{
  ℕ, zero, suc, ◌+◌, ◌-◌, ◌/◌, ◌++◌, String, Bool, false, not, ◌&&◌, ◌||◌, Option, none, some, List,
  [], ◌∷◌,
}
use ocr.Base.Tests.{ltb, nat_beq, if◌then◌else◌}
use ocr.Base.Lists.{length, keep}
use ocr.Base.Int.{ℤ, pos, negsuc}
use ocr.Base.Text.{
  Text, codes, is_one_of, between, is_space, is_digit, strip, replace_char, digits_value, decimal,
}
use ocr.Base.Regex.{
  Regex, one, seq, alt, star, group, not_behind, not_ahead, group_of, search_re, opt, plus, times,
  repeat,
}

abbrev pub is_ascii_digit : ℕ → Bool
is_ascii_digit c = between b'0' b'9' c

-- `[.,]`
abbrev pub is_mark : ℕ → Bool
is_mark = is_one_of (b'.' ∷ b',' ∷ [])

-- `[.,\s]`
unfoldable pub is_separator : ℕ → Bool
unfolding is_space
is_separator c = is_mark c || is_space c

-- `(?:rp\.?\s*)?`, whatever the case of the letters.
unfoldable pub currency_prefix : Regex
currency_prefix = opt (
    seq (one (is_one_of (b'r' ∷ b'R' ∷ []))) (
      seq (one (is_one_of (b'p' ∷ b'P' ∷ [])))
        (seq (opt (one (is_one_of (b'.' ∷ [])))) (star (one is_space)))))

-- `\d{1,3}`, `[.,\s]\d{1,3}` and `(?:[.,]\d{2})?`
abbrev pub up_to_three : Regex
up_to_three = repeat 1 3 (one is_digit)

abbrev pub separated : Regex
separated = seq (one is_separator) up_to_three

abbrev pub cents : Regex
cents = opt (seq (one is_mark) (times 2 (one is_digit)))

-- `(?:\d{1,3}(?:[.,\s]\d{1,3})+|\d+)(?:[.,]\d{2})?`
unfoldable pub amount_pattern : Regex
amount_pattern = seq (alt (seq up_to_three (plus separated)) (plus (one is_digit))) cents

-- `_MONEY_RE`
unfoldable pub money_re : Regex
unfolding currency_prefix amount_pattern is_space is_digit is_separator
money_re = seq (not_behind (λ c. is_ascii_digit c || is_mark c)) (
    seq (star (one is_space)) (
      seq currency_prefix (
        seq (group 1 (opt (one (is_one_of (b'-' ∷ b'+' ∷ [])))))
          (seq (group 2 amount_pattern) (not_ahead is_ascii_digit)))))

-- The index of the last character of `"., "`.
last_separator : Text → Option ℕ
last_separator [] = none
last_separator (c ∷ t) = elim (last_separator t) [
  | some i ↦ some (i + 1)
  | none ↦ if is_one_of (b'.' ∷ b',' ∷ b' ' ∷ []) c then some 0 else none
]

-- `re.sub(r"[.,\s]", "", digits)`
unfoldable pub remove_separators : Text → Text
unfolding is_separator
remove_separators = keep (λ c. not (is_separator c))

-- `digits[i] in ".,"`
abbrev pub mark_at : Text → ℕ → Bool
mark_at [] i = false
mark_at (c ∷ t) zero = is_mark c
mark_at (c ∷ t) (suc i) = mark_at t i

-- Both branches of the source remove every separator.
unfoldable pub cleaned_digits : Text → Text
unfolding last_separator remove_separators
cleaned_digits digits = elim (last_separator digits) [
  | none ↦ remove_separators digits
  | some i ↦
      if nat_beq (length digits - i - 1) 2 && mark_at digits i
      then remove_separators digits
      else remove_separators digits
]

-- `sys.get_int_max_str_digits()`: `int` refuses a longer text.
abbrev pub max_str_digits : ℕ
max_str_digits = 4300

-- `int(text)` on a text of digits; `none` is a `ValueError`.
unfoldable pub parse_int : Text → Option ℕ
unfolding decimal
parse_int [] = none
parse_int t = if ltb max_str_digits (length t) then none else digits_value 0 t

abbrev pub negate : ℕ → ℤ
negate zero = pos zero
negate (suc n) = negsuc n

-- The value under the sign group, which is empty, `-` or `+`.
abbrev pub signed : Text → ℕ → ℤ
signed [] n = pos n
signed (c ∷ _) n = if nat_beq c b'-' then negate n else pos n

abbrev pub group_text : ℕ → List (ℕ × Text) → Text
group_text n gs = elim (group_of n gs) [ none ↦ [] | some t ↦ t ]

-- `parse_money`
unfoldable pub parse_money : Text → Option ℤ
unfolding search_re money_re cleaned_digits parse_int strip
parse_money text = elim (search_re money_re (replace_char 0xa0 b' ' text)) [
  | none ↦ none
  | some m ↦ elim (parse_int (cleaned_digits (strip (group_text 2 m.groups)))) [
    | none ↦ none
    | some value ↦ some (signed (group_text 1 m.groups) value)
  ]
]

-- `f"{n:,}"`: the groups of three digits of a number, the leading one apart.
unfoldable pub leading : ℕ → ℕ → ℕ
leading zero n = n
leading (suc fuel) n = let h = leading fuel (n / 1000) in if ltb n 1000 then n else h

unfoldable pub following : ℕ → ℕ → List ℕ
following zero n = []
following (suc fuel) n =
    let gs = following fuel (n / 1000) in if ltb n 1000 then [] else gs ++ (n % 1000 ∷ [])

abbrev pub digit : ℕ → ℕ
digit d = 48 + d

-- Up to three digits, and exactly three.
abbrev pub short : ℕ → Text
short n =
    if ltb n 10
    then digit n ∷ []
    else if ltb n 100
    then digit (n / 10) ∷ digit (n % 10) ∷ []
    else digit (n / 100) ∷ digit (n / 10 % 10) ∷ digit (n % 10) ∷ []

abbrev pub groups_after : ℕ → List ℕ → Text
groups_after mark [] = []
groups_after mark (g ∷ gs) =
    mark ∷ digit (g / 100) ∷ digit (g / 10 % 10) ∷ digit (g % 10) ∷ groups_after mark gs

-- A number has fewer groups than it is large.
unfoldable pub with_commas : ℕ → Text
unfolding leading following
with_commas n = short (leading n n) ++ groups_after b',' (following n n)

abbrev pub sign_of : ℤ → Text
sign_of (pos n) = []
sign_of (negsuc n) = b'-' ∷ []

abbrev pub magnitude : ℤ → ℕ
magnitude (pos n) = n
magnitude (negsuc n) = suc n

-- `format_money`
unfoldable pub format_money : ℤ → String → Text
unfolding with_commas
format_money amount currency =
    replace_char b',' b'.'
      (sign_of amount ++ (codes currency ++ (b' ' ∷ with_commas (magnitude amount))))

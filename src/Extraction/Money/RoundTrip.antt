-- ===== src/Extraction/Money/RoundTrip.antt =====
-- `parse_money` reads what `format_money` writes (src/ocr_engine/extraction/money.py).
use ocr.Base.{
  ℕ, suc, ◌≤◌, ◌<◌, ◌≡◌, refl, ap, ◌∙◌, false, Option, none, some, List, [], ◌∷◌, ◌++◌, arith,
}
use ocr.Base.Tests.{ltb, nat_beq, if◌then◌else◌}
use ocr.Base.Lists.{All, length}
use ocr.Base.Int.{ℤ, pos, negsuc}
use ocr.Base.Text.{Text, is_space, strip, replace_char, digits_value}
use ocr.Base.Regex.{Position, search_re}
use ocr.Extraction.Money.{
  digit, short, leading, following, with_commas, magnitude, format_money, cleaned_digits,
  max_str_digits, parse_int, signed, group_text, parse_money, money_re,
}
use ocr.Extraction.Money.Groups.{
  IsGroup, value_after, leading-lt, following-All, value_after-following,
}
use ocr.Extraction.Money.Digits.{digit-IsDigitChar, short-cases, digits_after, digits_value-short}
use ocr.Extraction.Money.Matching.{dot_mark}
use ocr.Extraction.Money.Pattern.{dotted, found}
use ocr.Extraction.Money.Search.{search_plain, search_signed}
use ocr.Extraction.Money.Characters.{
  dotted-All, replace_char-absent, strip-absent, replace_char-commas, cleaned_digits-dotted,
}

-- The decimal digits of a number.
abbrev pub digits_of : ℕ → Text
digits_of n = short (leading n n) ++ digits_after (following n n)

space_free : (d : ℕ) → d < 10 → is_space (digit d) ≡ false
space_free d b = (digit-IsDigitChar d b).no_space

nbsp_free : (d : ℕ) → d < 10 → nat_beq (digit d) 0xa0 ≡ false
nbsp_free d b = ground (arith, b)

dot_no_space : is_space dot_mark ≡ false
unfolding is_space
dot_no_space = refl

length-short : (h : ℕ) (t : Text) → h < 1000 → 1 ≤ length (short h ++ t)
length-short h t bound =
    short-cases (λ x. 1 ≤ length (x ++ t)) h bound (λ a _ _. omega arith) (λ a b _ _ _. omega arith)
      (λ a b c _ _ _ _. omega arith)

parse_int-digits_value :
    (t : Text)
    → 1 ≤ length t
    → ltb max_str_digits (length t) ≡ false
    → parse_int t ≡ digits_value 0 t
unfolding parse_int
parse_int-digits_value [] full e = absurd (omega (arith, full))
parse_int-digits_value (c ∷ t) full e = ap (λ x. if x then none else digits_value 0 (c ∷ t)) e

module _ (h : ℕ) (gs : List ℕ) (bound : h < 1000) (a : All IsGroup gs) where
  spaces_stay : replace_char 0xa0 b' ' (dotted h gs) ≡ dotted h gs
  spaces_stay =
      replace_char-absent 0xa0 b' ' (dotted h gs)
        (dotted-All (λ c. nat_beq c 0xa0 ≡ false) nbsp_free refl h gs bound a)

  strip-dotted : strip (dotted h gs) ≡ dotted h gs
  strip-dotted =
      strip-absent (dotted h gs)
        (dotted-All (λ c. is_space c ≡ false) space_free dot_no_space h gs bound a)

  parse_int-dotted :
      ltb max_str_digits (length (short h ++ digits_after gs)) ≡ false
      → parse_int (cleaned_digits (strip (dotted h gs))) ≡ some (value_after h gs)
  parse_int-dotted short_enough =
      ap (λ t. parse_int (cleaned_digits t)) strip-dotted
      ∙ ap parse_int (cleaned_digits-dotted h gs bound a)
      ∙ parse_int-digits_value (short h ++ digits_after gs) (length-short h (digits_after gs) bound)
          short_enough
      ∙ digits_value-short h gs bound a

amount_of : Text → Option ℕ → Option ℤ
amount_of sign o = elim o [ none ↦ none | some value ↦ some (signed sign value) ]

amount_at : Option Position → Option ℤ
amount_at o = elim o [
  | none ↦ none
  | some m ↦
      amount_of (group_text 1 m.groups) (parse_int (cleaned_digits (strip (group_text 2 m.groups))))
]

-- From the position that the search finds.
parse_money-found :
    (text t b : Text) (v : ℕ)
    → search_re money_re (replace_char 0xa0 b' ' text) ≡ some (found t b)
    → parse_int (cleaned_digits (strip t)) ≡ some v
    → parse_money text ≡ some (pos v)
unfolding parse_money amount_at amount_of
parse_money-found text t b v e f = ap (λ o. amount_at o) e ∙ ap (λ o. amount_of [] o) f

abbrev leading_of : ℕ → ℕ
leading_of n = leading n n

abbrev following_of : ℕ → List ℕ
following_of n = following n n

parse_int-amount :
    (n : ℕ)
    → length (digits_of n) ≤ max_str_digits
    → parse_int (cleaned_digits (strip (dotted (leading_of n) (following_of n)))) ≡ some n
parse_int-amount n short_enough =
    parse_int-dotted (leading_of n) (following_of n) (leading-lt n n (omega arith))
      (following-All n n (omega arith)) (ground (arith, short_enough))
    ∙ ap some (value_after-following n n (omega arith))

module _ (n : ℕ) where
  abbrev amount_text : Text
  amount_text = b'I' ∷ b'D' ∷ b'R' ∷ b' ' ∷ dotted (leading_of n) (following_of n)

  dotted_commas : replace_char b',' b'.' (with_commas n) ≡ dotted (leading_of n) (following_of n)
  unfolding with_commas
  dotted_commas =
      replace_char-commas (leading_of n) (following_of n) (leading-lt n n (omega arith))
        (following-All n n (omega arith))

  nbsp_stays :
      replace_char 0xa0 b' ' (dotted (leading_of n) (following_of n))
      ≡ dotted (leading_of n) (following_of n)
  nbsp_stays =
      spaces_stay (leading_of n) (following_of n) (leading-lt n n (omega arith))
        (following-All n n (omega arith))

  read_plain :
      length (digits_of n) ≤ max_str_digits
      → parse_money (b'I' ∷ b'D' ∷ b'R' ∷ b' ' ∷ replace_char b',' b'.' (with_commas n))
        ≡ some (pos n)
  read_plain short_enough =
      ap (λ t. parse_money (b'I' ∷ b'D' ∷ b'R' ∷ b' ' ∷ t)) dotted_commas
      ∙ parse_money-found amount_text (dotted (leading_of n) (following_of n)) _ n
          (ap (λ t. search_re money_re (b'I' ∷ b'D' ∷ b'R' ∷ b' ' ∷ t)) nbsp_stays
            ∙ search_plain (leading_of n) (following_of n) (leading-lt n n (omega arith))
                (following-All n n (omega arith)))
          (parse_int-amount n short_enough)

  read_signed :
      length (digits_of n) ≤ max_str_digits
      → parse_money (b'-' ∷ b'I' ∷ b'D' ∷ b'R' ∷ b' ' ∷ replace_char b',' b'.' (with_commas n))
        ≡ some (pos n)
  read_signed short_enough =
      ap (λ t. parse_money (b'-' ∷ b'I' ∷ b'D' ∷ b'R' ∷ b' ' ∷ t)) dotted_commas
      ∙ parse_money-found (b'-' ∷ amount_text) (dotted (leading_of n) (following_of n)) _ n
          (ap (λ t. search_re money_re (b'-' ∷ b'I' ∷ b'D' ∷ b'R' ∷ b' ' ∷ t)) nbsp_stays
            ∙ search_signed (leading_of n) (following_of n) (leading-lt n n (omega arith))
                (following-All n n (omega arith)))
          (parse_int-amount n short_enough)

-- The amount that is read is the magnitude of the one that was written in rupiah, if its decimal
-- digits are no more than `int` reads: so an amount that is not negative is read as it was written,
-- and a negative one without its sign.
pub parse_money-format_money :
    (amount : ℤ)
    → length (digits_of (magnitude amount)) ≤ max_str_digits
    → parse_money (format_money amount "IDR") ≡ some (pos (magnitude amount))
unfolding format_money
parse_money-format_money (pos n) short_enough = read_plain n short_enough
parse_money-format_money (negsuc n) short_enough = read_signed (suc n) short_enough

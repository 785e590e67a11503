-- ===== src/Extraction/Money/Digits.antt =====
-- What the characters of a formatted amount are to the parser
-- (src/ocr_engine/extraction/money.py).
use Prim.Native.Nat.{◌%◌}
use ocr.Base.{
  ℕ, zero, suc, ◌+◌, ◌-◌, ◌*◌, ◌/◌, ◌<◌, ◌≡◌, refl, ap, ◌∙◌, inl, inr, true, false, some, List, [],
  ◌∷◌, ◌++◌, arith,
}
use ocr.Base.Tests.{ltb, Bool-cases}
use ocr.Base.Lists.{All}
use ocr.Base.Text.{Text, is_space, is_digit, is_one_of, decimal, digits_value}
use ocr.Extraction.Money.{digit, short, is_separator, is_ascii_digit, is_mark}
use ocr.Extraction.Money.Groups.{IsGroup, value_after}

-- What holds of each of the ten digits.
ten :
    (P : ℕ → Type 0)
    → P 48 × P 49 × P 50 × P 51 × P 52 × P 53 × P 54 × P 55 × P 56 × P 57
    → (d : ℕ) → d < 10
    → P (digit d)
ten P h zero b = h.0
ten P h (suc zero) b = h.1
ten P h (suc (suc zero)) b = h.2
ten P h (suc (suc (suc zero))) b = h.3
ten P h (suc (suc (suc (suc zero)))) b = h.4
ten P h (suc (suc (suc (suc (suc zero))))) b = h.5
ten P h (suc (suc (suc (suc (suc (suc zero)))))) b = h.6
ten P h (suc (suc (suc (suc (suc (suc (suc zero))))))) b = h.7
ten P h (suc (suc (suc (suc (suc (suc (suc (suc zero)))))))) b = h.8
ten P h (suc (suc (suc (suc (suc (suc (suc (suc (suc zero))))))))) b = h.9
ten P h (suc (suc (suc (suc (suc (suc (suc (suc (suc (suc d)))))))))) b = absurd (omega (arith, b))

-- A digit is that for every class of the pattern, and in no other class.
pub record IsDigitChar (c : ℕ) : Type 0 where
  pub digits : is_digit c ≡ true
  pub ascii : is_ascii_digit c ≡ true
  pub no_space : is_space c ≡ false
  pub no_separator : is_separator c ≡ false
  pub no_mark : is_mark c ≡ false
  pub no_r : is_one_of (b'r' ∷ b'R' ∷ []) c ≡ false
  pub no_sign : is_one_of (b'-' ∷ b'+' ∷ []) c ≡ false

digits_are :
    {c : ℕ}
    → is_digit c ≡ true
    → is_ascii_digit c ≡ true
    → is_separator c ≡ false
    → is_space c ≡ false
    → is_mark c ≡ false
    → is_one_of (b'r' ∷ b'R' ∷ []) c ≡ false
    → is_one_of (b'-' ∷ b'+' ∷ []) c ≡ false
    → IsDigitChar c
digits_are a b c d e f g = record {
  digits = a;
  ascii = b;
  no_separator = c;
  no_space = d;
  no_mark = e;
  no_r = f;
  no_sign = g;
}

pub digit-IsDigitChar : (d : ℕ) → d < 10 → IsDigitChar (digit d)
unfolding is_digit is_space is_separator
digit-IsDigitChar = ten IsDigitChar (
  digits_are refl refl refl refl refl refl refl,
  digits_are refl refl refl refl refl refl refl,
  digits_are refl refl refl refl refl refl refl,
  digits_are refl refl refl refl refl refl refl,
  digits_are refl refl refl refl refl refl refl,
  digits_are refl refl refl refl refl refl refl,
  digits_are refl refl refl refl refl refl refl,
  digits_are refl refl refl refl refl refl refl,
  digits_are refl refl refl refl refl refl refl,
  digits_are refl refl refl refl refl refl refl,
)

decimal-digit : (d : ℕ) → d < 10 → decimal (digit d) ≡ some d
unfolding decimal
decimal-digit d b =
    ten (λ c. decimal c ≡ some (c - 48))
      (refl, refl, refl, refl, refl, refl, refl, refl, refl, refl) d b
    ∙ ap some (omega arith)

digits_value-digit :
    (acc d : ℕ) (t : Text) → d < 10 → digits_value acc (digit d ∷ t) ≡ digits_value (acc * 10 + d) t
digits_value-digit acc d t b = rw (decimal-digit d b, digits_value) refl

digits_value-two :
    (acc a b : ℕ) (t : Text)
    → a < 10
    → b < 10
    → digits_value acc (digit a ∷ digit b ∷ t) ≡ digits_value ((acc * 10 + a) * 10 + b) t
digits_value-two acc a b t a<10 b<10 =
    digits_value-digit acc a (digit b ∷ t) a<10 ∙ digits_value-digit (acc * 10 + a) b t b<10

digits_value-three :
    (acc a b c : ℕ) (t : Text)
    → a < 10
    → b < 10
    → c < 10
    → digits_value acc (digit a ∷ digit b ∷ digit c ∷ t)
      ≡ digits_value (((acc * 10 + a) * 10 + b) * 10 + c) t
digits_value-three acc a b c t a<10 b<10 c<10 =
    digits_value-two acc a b (digit c ∷ t) a<10 b<10
    ∙ digits_value-digit ((acc * 10 + a) * 10 + b) c t c<10

-- The digits of groups, without a mark.
abbrev pub digits_after : List ℕ → Text
digits_after [] = []
digits_after (g ∷ gs) = digit (g / 100) ∷ digit (g / 10 % 10) ∷ digit (g % 10) ∷ digits_after gs

digits_value-digits_after :
    (acc : ℕ) (gs : List ℕ)
    → All IsGroup gs
    → digits_value acc (digits_after gs) ≡ some (value_after acc gs)
digits_value-digits_after acc [] a = refl
digits_value-digits_after acc (g ∷ gs) a =
    digits_value-three acc (g / 100) (g / 10 % 10) (g % 10) (digits_after gs) (omega (arith, a.0))
      (omega arith) (omega arith)
    ∙ ap (λ v. digits_value v (digits_after gs)) (omega (arith, a.0))
    ∙ digits_value-digits_after (acc * 1000 + g) gs a.1

-- A number below 1000, and what stands after it.
pub short-cases :
    (P : Text → Type 0) (n : ℕ)
    → n < 1000
    → ((a : ℕ) → a < 10 → a ≡ n → P (digit a ∷ []))
    → ((a b : ℕ) → a < 10 → b < 10 → a * 10 + b ≡ n → P (digit a ∷ digit b ∷ []))
    → ((a b c : ℕ)
        → a < 10
        → b < 10
        → c < 10
        → (a * 10 + b) * 10 + c ≡ n
        → P (digit a ∷ digit b ∷ digit c ∷ []))
    → P (short n)
short-cases P n h one two three = elim (Bool-cases (ltb n 10)) [
  | inl e ↦ rw e (one n (ground (arith, e)) refl)
  | inr e ↦ elim (Bool-cases (ltb n 100)) [
    | inl f ↦ rw (e, f) (two (n / 10) (n % 10) (ground (arith, f)) (omega arith) (omega arith))
    | inr f ↦
        rw (e, f)
          (three (n / 100) (n / 10 % 10) (n % 10) (omega (arith, h)) (omega arith) (omega arith)
            (omega (arith, h)))
  ]
]

pub digits_value-short :
    (h : ℕ) (gs : List ℕ)
    → h < 1000
    → All IsGroup gs
    → digits_value 0 (short h ++ digits_after gs) ≡ some (value_after h gs)
digits_value-short h gs b a =
    short-cases (λ t. digits_value 0 (t ++ digits_after gs) ≡ some (value_after h gs)) h b
      (λ x x<10 e.
        digits_value-digit 0 x (digits_after gs) x<10
        ∙ ap (λ v. digits_value v (digits_after gs)) (omega (arith, e))
        ∙ digits_value-digits_after h gs a)
      (λ x y x<10 y<10 e.
        digits_value-two 0 x y (digits_after gs) x<10 y<10
        ∙ ap (λ v. digits_value v (digits_after gs)) (omega (arith, e))
        ∙ digits_value-digits_after h gs a)
      (λ x y z x<10 y<10 z<10 e.
        digits_value-three 0 x y z (digits_after gs) x<10 y<10 z<10
        ∙ ap (λ v. digits_value v (digits_after gs)) (omega (arith, e))
        ∙ digits_value-digits_after h gs a)

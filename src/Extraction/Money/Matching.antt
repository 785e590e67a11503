-- ===== src/Extraction/Money/Matching.antt =====
-- How the pattern of amounts (src/ocr_engine/extraction/money.py) matches groups of digits.
use Prim.Native.Nat.{◌%◌}
use ocr.Base.{
  ℕ, suc, ◌/◌, ◌<◌, ◌≡◌, refl, ap, ◌∙◌, Bool, true, false, Option, none, some, List, [], ◌∷◌, ◌++◌,
  arith,
}
use ocr.Base.Tests.{ltb}
use ocr.Base.Lists.{length}
use ocr.Base.Text.{Text, is_digit}
use ocr.Base.Regex.{Regex, Position, empty, one, seq, alt, match_at, star_loop}
use ocr.Extraction.Money.{digit, short, is_separator, up_to_three, separated}
use ocr.Extraction.Money.Digits.{IsDigitChar, digit-IsDigitChar, short-cases}

abbrev pub at : Text → Text → List (ℕ × Text) → Position
at b t gs = record { before = b; rest = t; groups = gs }

-- The text before the position, once `t` is read.
abbrev pub read : Text → Text → Text
read [] b = b
read (c ∷ t) b = read t (c ∷ b)

-- One step of the matcher.
abbrev pub Cont : Type 0
Cont = Position → Option Position

abbrev pub when : Bool → Option Position → Option Position
when b x = elim b [ true ↦ x | false ↦ none ]

abbrev pub or_else : Option Position → Option Position → Option Position
or_else x y = elim x [ some t ↦ some t | none ↦ y ]

pub match-one :
    (p : ℕ → Bool) (c : ℕ) (b t : Text) (gs : List (ℕ × Text)) (k : Cont)
    → p c ≡ true
    → match_at (one p) (at b (c ∷ t) gs) k ≡ k (at (c ∷ b) t gs)
unfolding match_at
match-one p c b t gs k e = ap (λ x. when x (k (at (c ∷ b) t gs))) e

pub match-one_refused :
    (p : ℕ → Bool) (c : ℕ) (b t : Text) (gs : List (ℕ × Text)) (k : Cont)
    → p c ≡ false
    → match_at (one p) (at b (c ∷ t) gs) k ≡ none
unfolding match_at
match-one_refused p c b t gs k e = ap (λ x. when x (k (at (c ∷ b) t gs))) e

pub match-alt_first :
    (a b : Regex) (s r : Position) (k : Cont)
    → match_at a s k ≡ some r
    → match_at (alt a b) s k ≡ some r
unfolding match_at
match-alt_first a b s r k e = ap (λ x. or_else x (match_at b s k)) e

pub match-alt_second :
    (a b : Regex) (s : Position) (k : Cont)
    → match_at a s k ≡ none
    → match_at (alt a b) s k ≡ match_at b s k
unfolding match_at
match-alt_second a b s k e = ap (λ x. or_else x (match_at b s k)) e

-- Up to three digits, as `up_to_three` goes on after the first, and after the second.
abbrev pub a_digit : Regex
a_digit = one is_digit

abbrev pub up_to_one : Regex
up_to_one = alt (seq a_digit empty) empty

abbrev pub up_to_two : Regex
up_to_two = alt (seq a_digit up_to_one) empty

-- Where no digit follows, a digit of the pattern is refused.
abbrev pub StopsAt : Text → Type 0
StopsAt [] = Unit
StopsAt (c ∷ t) = is_digit c ≡ false

pub no_digit :
    (b t : Text) (gs : List (ℕ × Text)) (k : Cont)
    → StopsAt t
    → match_at a_digit (at b t gs) k ≡ none
unfolding match_at
no_digit b [] gs k h = refl
no_digit b (c ∷ t) gs k h = match-one_refused is_digit c b t gs k h

module _ (gs : List (ℕ × Text)) (k : Cont) (r : Position) where
  three_digits :
      (a b c : ℕ) (before t : Text)
      → IsDigitChar a
      → IsDigitChar b
      → IsDigitChar c
      → k (at (c ∷ b ∷ a ∷ before) t gs) ≡ some r
      → match_at up_to_three (at before (a ∷ b ∷ c ∷ t) gs) k ≡ some r
  unfolding match_at
  three_digits a b c before t da db dc h =
      match-one is_digit a before (b ∷ c ∷ t) gs (λ s. match_at up_to_two s k) da.digits
      ∙ match-alt_first (seq a_digit up_to_one) empty (at (a ∷ before) (b ∷ c ∷ t) gs) r k (
          match-one is_digit b (a ∷ before) (c ∷ t) gs (λ s. match_at up_to_one s k) db.digits
          ∙ match-alt_first (seq a_digit empty) empty (at (b ∷ a ∷ before) (c ∷ t) gs) r k
              (match-one is_digit c (b ∷ a ∷ before) t gs k dc.digits ∙ h))

  two_digits :
      (a b : ℕ) (before t : Text)
      → IsDigitChar a
      → IsDigitChar b
      → StopsAt t
      → k (at (b ∷ a ∷ before) t gs) ≡ some r
      → match_at up_to_three (at before (a ∷ b ∷ t) gs) k ≡ some r
  unfolding match_at
  two_digits a b before t da db stops h =
      match-one is_digit a before (b ∷ t) gs (λ s. match_at up_to_two s k) da.digits
      ∙ match-alt_first (seq a_digit up_to_one) empty (at (a ∷ before) (b ∷ t) gs) r k (
          match-one is_digit b (a ∷ before) t gs (λ s. match_at up_to_one s k) db.digits
          ∙ match-alt_second (seq a_digit empty) empty (at (b ∷ a ∷ before) t gs) k
              (no_digit (b ∷ a ∷ before) t gs k stops)
          ∙ h)

  one_digit :
      (a : ℕ) (before t : Text)
      → IsDigitChar a
      → StopsAt t
      → k (at (a ∷ before) t gs) ≡ some r
      → match_at up_to_three (at before (a ∷ t) gs) k ≡ some r
  unfolding match_at
  one_digit a before t da stops h =
      match-one is_digit a before t gs (λ s. match_at up_to_two s k) da.digits
      ∙ match-alt_second (seq a_digit up_to_one) empty (at (a ∷ before) t gs) k
          (no_digit (a ∷ before) t gs (λ s. match_at up_to_one s k) stops)
      ∙ h

  -- A leading group before a text without a digit at its start.
  pub short_matches :
      (h : ℕ) (before t : Text)
      → h < 1000
      → StopsAt t
      → k (at (read (short h) before) t gs) ≡ some r
      → match_at up_to_three (at before (short h ++ t) gs) k ≡ some r
  short_matches h before t bound stops =
      short-cases
        (λ x.
          k (at (read x before) t gs) ≡ some r
          → match_at up_to_three (at before (x ++ t) gs) k ≡ some r)
        h bound (λ a a<10 e. one_digit (digit a) before t (digit-IsDigitChar a a<10) stops)
        (λ a b a<10 b<10 e.
          two_digits (digit a) (digit b) before t (digit-IsDigitChar a a<10)
            (digit-IsDigitChar b b<10) stops)
        (λ a b c a<10 b<10 c<10 e.
          three_digits (digit a) (digit b) (digit c) before t (digit-IsDigitChar a a<10)
            (digit-IsDigitChar b b<10) (digit-IsDigitChar c c<10))

-- A mark and a group.
abbrev pub dot_mark : ℕ
dot_mark = b'.'

dot_separates : is_separator dot_mark ≡ true
unfolding is_separator
dot_separates = refl

pub dot_stops : is_digit dot_mark ≡ false
unfolding is_digit
dot_stops = refl

pub separated_matches :
    (g : ℕ) (before t : Text) (gs : List (ℕ × Text)) (k : Cont) (r : Position)
    → g < 1000
    → k (at (digit (g % 10) ∷ digit (g / 10 % 10) ∷ digit (g / 100) ∷ dot_mark ∷ before) t gs)
      ≡ some r
    → match_at separated
        (at before (dot_mark ∷ digit (g / 100) ∷ digit (g / 10 % 10) ∷ digit (g % 10) ∷ t) gs)
        k
      ≡ some r
unfolding match_at
separated_matches g before t gs k r bound h =
    match-one is_separator dot_mark before
      (digit (g / 100) ∷ digit (g / 10 % 10) ∷ digit (g % 10) ∷ t) gs
      (λ s. match_at up_to_three s k) dot_separates
    ∙ three_digits gs k r (digit (g / 100)) (digit (g / 10 % 10)) (digit (g % 10))
        (dot_mark ∷ before) t (digit-IsDigitChar (g / 100) (omega (arith, bound)))
        (digit-IsDigitChar (g / 10 % 10) (omega arith)) (digit-IsDigitChar (g % 10) (omega arith)) h

pub ltb-four : (n : ℕ) → ltb n (suc (suc (suc (suc n)))) ≡ true
ltb-four n = ground arith

-- One round of a repetition that consumes something.
pub star_loop-goes_on :
    (m : Position → Cont → Option Position) (fuel : ℕ) (s r : Position) (k : Cont)
    → m s (λ t. when (ltb (length t.rest) (length s.rest)) (star_loop m fuel t k)) ≡ some r
    → star_loop m (suc fuel) s k ≡ some r
unfolding star_loop
star_loop-goes_on m fuel s r k h = ap (λ x. or_else x (k s)) h

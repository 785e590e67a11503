-- ===== src/Extraction/Money/Amounts.antt =====
-- The pattern of amounts (src/ocr_engine/extraction/money.py) takes a formatted number whole.
use Prim.Native.Nat.{◌%◌}
use ocr.Base.{
  ℕ, zero, suc, ◌/◌, ◌<◌, ◌≡◌, refl, ap, ◌∙◌, true, none, some, List, [], ◌∷◌, ◌++◌, arith,
}
use ocr.Base.Tests.{ltb}
use ocr.Base.Lists.{All, length}
use ocr.Base.Text.{Text, is_digit}
use ocr.Base.Regex.{Regex, Position, empty, seq, star, plus, match_at, star_loop}
use ocr.Extraction.Money.{digit, short, groups_after, is_separator, up_to_three, separated}
use ocr.Extraction.Money.Groups.{IsGroup}
use ocr.Extraction.Money.Digits.{IsDigitChar, digit-IsDigitChar, short-cases}
use ocr.Extraction.Money.Matching.{
  at, read, Cont, when, a_digit, up_to_one, up_to_two, dot_mark, match-one, match-one_refused,
  match-alt_second, no_digit, separated_matches, star_loop-goes_on, ltb-four,
}

pub read-append : (x y b : Text) → read (x ++ y) b ≡ read y (read x b)
read-append [] y b = refl
read-append (c ∷ x) y b = read-append x y (c ∷ b)

length-groups_after : (gs : List ℕ) → length gs < suc (length (groups_after dot_mark gs))
length-groups_after [] = omega arith
length-groups_after (g ∷ gs) = omega (arith, length-groups_after gs)

pub ltb-one : (n : ℕ) → ltb n (suc n) ≡ true
ltb-one n = ground arith

module _ (G : List (ℕ × Text)) (k : Cont) (r : Position) where
  groups_loop :
      (gs : List ℕ) (fuel : ℕ) (before : Text)
      → All IsGroup gs
      → length gs < fuel
      → k (at (read (groups_after dot_mark gs) before) [] G) ≡ some r
      → star_loop (match_at separated) fuel (at before (groups_after dot_mark gs) G) k ≡ some r
  unfolding star_loop match_at
  groups_loop gs zero before a enough h = absurd (omega (arith, enough))
  groups_loop [] (suc fuel) before a enough h = h
  groups_loop (g ∷ gs) (suc fuel) before a enough h =
      star_loop-goes_on (match_at separated) fuel (at before (groups_after dot_mark (g ∷ gs)) G) r k
        (separated_matches g before (groups_after dot_mark gs) G
          (λ t.
            when (ltb (length t.rest) (length (groups_after dot_mark (g ∷ gs))))
              (star_loop (match_at separated) fuel t k))
          r a.0
          (ap
              (λ b. when b (
                star_loop (match_at separated) fuel
                  (at (digit (g % 10) ∷ digit (g / 10 % 10) ∷ digit (g / 100) ∷ dot_mark ∷ before)
                    (groups_after dot_mark gs) G)
                  k))
              (ltb-four (length (groups_after dot_mark gs)))
            ∙ groups_loop gs fuel _ a.1 (omega (arith, enough)) h))

  pub plus_groups :
      (g : ℕ) (gs : List ℕ) (before : Text)
      → All IsGroup (g ∷ gs)
      → k (at (read (groups_after dot_mark (g ∷ gs)) before) [] G) ≡ some r
      → match_at (plus separated) (at before (groups_after dot_mark (g ∷ gs)) G) k ≡ some r
  unfolding match_at
  plus_groups g gs before a h =
      separated_matches g before (groups_after dot_mark gs) G (λ t. match_at (star separated) t k) r
        a.0
        (groups_loop gs (suc (length (groups_after dot_mark gs))) _ a.1 (length-groups_after gs) h)

  star_digit :
      (fuel c : ℕ) (before t : Text)
      → IsDigitChar c
      → star_loop (match_at a_digit) fuel (at (c ∷ before) t G) k ≡ some r
      → star_loop (match_at a_digit) (suc fuel) (at before (c ∷ t) G) k ≡ some r
  unfolding match_at
  star_digit fuel c before t dc h =
      star_loop-goes_on (match_at a_digit) fuel (at before (c ∷ t) G) r k (
        match-one is_digit c before t G
          (λ x. when (ltb (length x.rest) (suc (length t))) (star_loop (match_at a_digit) fuel x k))
          dc.digits
        ∙ ap (λ b. when b (star_loop (match_at a_digit) fuel (at (c ∷ before) t G) k))
            (ltb-one (length t))
        ∙ h)

  -- A number of one to three digits at the end of the text.
  pub plus_digits :
      (h : ℕ) (before : Text)
      → h < 1000
      → k (at (read (short h) before) [] G) ≡ some r
      → match_at (plus a_digit) (at before (short h) G) k ≡ some r
  unfolding match_at star_loop
  plus_digits h before bound =
      short-cases
        (λ x.
          k (at (read x before) [] G) ≡ some r → match_at (plus a_digit) (at before x G) k ≡ some r)
        h bound
        (λ a a<10 e ends.
          match-one is_digit (digit a) before [] G (λ t. match_at (star a_digit) t k)
            (digit-IsDigitChar a a<10).digits
          ∙ ends)
        (λ a b a<10 b<10 e ends.
          match-one is_digit (digit a) before (digit b ∷ []) G (λ t. match_at (star a_digit) t k)
            (digit-IsDigitChar a a<10).digits
          ∙ star_digit 1 (digit b) (digit a ∷ before) [] (digit-IsDigitChar b b<10) ends)
        (λ a b c a<10 b<10 c<10 e ends.
          match-one is_digit (digit a) before (digit b ∷ digit c ∷ []) G
            (λ t. match_at (star a_digit) t k) (digit-IsDigitChar a a<10).digits
          ∙ star_digit 2 (digit b) (digit a ∷ before) (digit c ∷ []) (digit-IsDigitChar b b<10) (
              star_digit 1 (digit c) (digit b ∷ digit a ∷ before) [] (digit-IsDigitChar c c<10)
                ends))

-- Without a mark, the first alternative of the pattern fails on it.
module _ (G : List (ℕ × Text)) (k : Cont) where
  fails_at_digit :
      (c : ℕ) (before t : Text)
      → IsDigitChar c
      → match_at (plus separated) (at before (c ∷ t) G) k ≡ none
  unfolding match_at
  fails_at_digit c before t dc =
      match-one_refused is_separator c before t G
        (λ s. match_at up_to_three s (λ t. match_at (star separated) t k)) dc.no_separator

  fails_at_end : (before : Text) → match_at (plus separated) (at before [] G) k ≡ none
  unfolding match_at
  fails_at_end before = refl

  abbrev pub grouping : Regex
  grouping = seq up_to_three (plus separated)

  goes : Cont
  goes t = match_at (plus separated) t k

  one_fails :
      (a : ℕ) (before : Text) → IsDigitChar a → match_at grouping (at before (a ∷ []) G) k ≡ none
  unfolding match_at goes
  one_fails a before da =
      match-one is_digit a before [] G (λ s. match_at up_to_two s goes) da.digits
      ∙ match-alt_second (seq a_digit up_to_one) empty (at (a ∷ before) [] G) goes
          (no_digit (a ∷ before) [] G (λ s. match_at up_to_one s goes) tt)
      ∙ fails_at_end (a ∷ before)

  two_fail :
      (a b : ℕ) (before : Text)
      → IsDigitChar a
      → IsDigitChar b
      → match_at grouping (at before (a ∷ b ∷ []) G) k ≡ none
  unfolding match_at goes
  two_fail a b before da db =
      match-one is_digit a before (b ∷ []) G (λ s. match_at up_to_two s goes) da.digits
      ∙ match-alt_second (seq a_digit up_to_one) empty (at (a ∷ before) (b ∷ []) G) goes (
          match-one is_digit b (a ∷ before) [] G (λ s. match_at up_to_one s goes) db.digits
          ∙ match-alt_second (seq a_digit empty) empty (at (b ∷ a ∷ before) [] G) goes
              (no_digit (b ∷ a ∷ before) [] G goes tt)
          ∙ fails_at_end (b ∷ a ∷ before))
      ∙ fails_at_digit b (a ∷ before) [] db

  three_fail :
      (a b c : ℕ) (before : Text)
      → IsDigitChar a
      → IsDigitChar b
      → IsDigitChar c
      → match_at grouping (at before (a ∷ b ∷ c ∷ []) G) k ≡ none
  unfolding match_at goes
  three_fail a b c before da db dc =
      match-one is_digit a before (b ∷ c ∷ []) G (λ s. match_at up_to_two s goes) da.digits
      ∙ match-alt_second (seq a_digit up_to_one) empty (at (a ∷ before) (b ∷ c ∷ []) G) goes (
          match-one is_digit b (a ∷ before) (c ∷ []) G (λ s. match_at up_to_one s goes) db.digits
          ∙ match-alt_second (seq a_digit empty) empty (at (b ∷ a ∷ before) (c ∷ []) G) goes (
              match-one is_digit c (b ∷ a ∷ before) [] G goes dc.digits
              ∙ fails_at_end (c ∷ b ∷ a ∷ before))
          ∙ fails_at_digit c (b ∷ a ∷ before) [] dc)
      ∙ fails_at_digit b (a ∷ before) (c ∷ []) db

  pub short_fails :
      (h : ℕ) (before : Text) → h < 1000 → match_at grouping (at before (short h) G) k ≡ none
  short_fails h before bound =
      short-cases (λ x. match_at grouping (at before x G) k ≡ none) h bound
        (λ a a<10 e. one_fails (digit a) before (digit-IsDigitChar a a<10))
        (λ a b a<10 b<10 e.
          two_fail (digit a) (digit b) before (digit-IsDigitChar a a<10) (digit-IsDigitChar b b<10))
        (λ a b c a<10 b<10 c<10 e.
          three_fail (digit a) (digit b) (digit c) before (digit-IsDigitChar a a<10)
            (digit-IsDigitChar b b<10) (digit-IsDigitChar c c<10))

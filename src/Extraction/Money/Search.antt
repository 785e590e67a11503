-- ===== src/Extraction/Money/Search.antt =====
-- The search of `parse_money` (src/ocr_engine/extraction/money.py) finds the amount that
-- `format_money` writes.
use mathlib.Core.Path.{subst}
use ocr.Base.{
  ℕ, suc, ◌-◌, ◌<◌, ◌≡◌, refl, sym, ap, ◌∙◌, Bool, true, false, none, some, List, [], ◌∷◌, ◌++◌,
  ◌||◌, arith,
}
use ocr.Base.Tests.{ltb}
use ocr.Base.Lists.{All, length, take}
use mathlib.Core.List.{reverse}
use ocr.Base.Text.{Text, is_space, is_one_of}
use ocr.Base.Regex.{
  Regex, Position, empty, one, seq, star, opt, group, not_ahead, match_at, star_loop, search_from,
  search_re, consumed, first_passes,
}
use ocr.Extraction.Money.{
  digit, groups_after, is_ascii_digit, is_mark, amount_pattern, currency_prefix, money_re,
}
use ocr.Extraction.Money.Groups.{IsGroup}
use ocr.Extraction.Money.Digits.{IsDigitChar, digit-IsDigitChar, short-cases}
use ocr.Extraction.Money.Matching.{
  at, Cont, when, or_else, dot_mark, match-one_refused, match-alt_second, star_loop-goes_on,
}
use ocr.Extraction.Money.Amounts.{ltb-one}
use ocr.Extraction.Money.Pattern.{
  dotted, found, amount_group, search-skip, search-hit, skips_i, skips_sign, skips_signed_i,
  skips_d, skips_r,
}

-- The pattern from its spaces, its currency, its sign and its amount on.
abbrev bars : ℕ → Bool
bars c = is_ascii_digit c || is_mark c

abbrev from_amount : Regex
from_amount = seq (group 2 amount_pattern) (not_ahead is_ascii_digit)

abbrev from_sign : Regex
from_sign = seq (group 1 (opt (one (is_one_of (b'-' ∷ b'+' ∷ []))))) from_amount

abbrev from_currency : Regex
from_currency = seq currency_prefix from_sign

take-none : (n : ℕ) (t : Text) → take (n - n) t ≡ []
take-none n t = let e : n - n ≡ 0 = omega arith in ap (λ m. take m t) e

module _ (c : ℕ) (t b : Text) (r : Position) (dc : IsDigitChar c) where
  sign_goes : Cont
  sign_goes s =
      match_at from_amount (record s { groups = (1, consumed (at b (c ∷ t) []) s) ∷ s.groups }) some

  sign_passes :
      match_at from_amount (at b (c ∷ t) ((1, []) ∷ [])) some ≡ some r
      → match_at from_sign (at b (c ∷ t) []) some ≡ some r
  unfolding match_at sign_goes
  sign_passes h =
      match-alt_second (one (is_one_of (b'-' ∷ b'+' ∷ []))) empty (at b (c ∷ t) []) sign_goes
        (match-one_refused (is_one_of (b'-' ∷ b'+' ∷ [])) c b t [] sign_goes dc.no_sign)
      ∙ ap (λ x. match_at from_amount (at b (c ∷ t) ((1, x) ∷ [])) some)
          (ap reverse (take-none (length b) b))
      ∙ h

  currency_passes :
      match_at from_sign (at b (c ∷ t) []) some ≡ some r
      → match_at from_currency (at b (c ∷ t) []) some ≡ some r
  unfolding match_at currency_prefix
  currency_passes h =
      match-alt_second
        (seq (one (is_one_of (b'r' ∷ b'R' ∷ []))) (
          seq (one (is_one_of (b'p' ∷ b'P' ∷ [])))
            (seq (opt (one (is_one_of (b'.' ∷ [])))) (star (one is_space)))))
        empty (at b (c ∷ t) []) (λ s. match_at from_sign s some)
        (match-one_refused (is_one_of (b'r' ∷ b'R' ∷ [])) c b t []
          (λ s.
            match_at
              (seq (one (is_one_of (b'p' ∷ b'P' ∷ [])))
                (seq (opt (one (is_one_of (b'.' ∷ [])))) (star (one is_space))))
              s (λ u. match_at from_sign u some))
          dc.no_r)
      ∙ h

  spaces_stop :
      (fuel : ℕ)
      → match_at from_currency (at b (c ∷ t) []) some ≡ some r
      → star_loop
          (match_at (one is_space))
          (suc fuel)
          (at b (c ∷ t) [])
          (λ s. match_at from_currency s some)
        ≡ some r
  unfolding star_loop match_at
  spaces_stop fuel h =
      ap (λ x. or_else x (match_at from_currency (at b (c ∷ t) []) some))
        (match-one_refused is_space c b t []
          (λ u.
            when (ltb (length u.rest) (suc (length t)))
              (star_loop (match_at (one is_space)) fuel u (λ s. match_at from_currency s some)))
          dc.no_space)
      ∙ h

-- After the space that no digit or mark precedes, the pattern takes the whole amount.
space_matches :
    (c : ℕ) (t b : Text) (r : Position)
    → IsDigitChar c
    → first_passes bars b ≡ false
    → match_at from_amount (at (b' ' ∷ b) (c ∷ t) ((1, []) ∷ [])) some ≡ some r
    → match_at money_re (at b (b' ' ∷ c ∷ t) []) some ≡ some r
unfolding match_at money_re is_space
space_matches c t b r dc e h =
    ap
      (λ x. elim x [
        | true ↦ none
        | false ↦ match_at (seq (star (one is_space)) from_currency) (at b (b' ' ∷ c ∷ t) []) some
      ])
      e
    ∙ star_loop-goes_on (match_at (one is_space)) (suc (suc (length t))) (at b (b' ' ∷ c ∷ t) []) r
        (λ s. match_at from_currency s some)
        (ap
            (λ x. when x (
              star_loop (match_at (one is_space)) (suc (suc (length t))) (at (b' ' ∷ b) (c ∷ t) [])
                (λ s. match_at from_currency s some)))
            (ltb-one (suc (length t)))
          ∙ spaces_stop c t (b' ' ∷ b) r dc (suc (length t))
              (currency_passes c t (b' ' ∷ b) r dc (sign_passes c t (b' ' ∷ b) r dc h)))

-- An amount starts with a digit.
abbrev Starts : Text → Type 0
Starts x = (c : ℕ) × (t : Text) × IsDigitChar c × (x ≡ c ∷ t)

dotted-Starts : (h : ℕ) (gs : List ℕ) → h < 1000 → Starts (dotted h gs)
dotted-Starts h gs bound =
    short-cases (λ x. Starts (x ++ groups_after dot_mark gs)) h bound
      (λ a a<10 e. (digit a, _, digit-IsDigitChar a a<10, refl))
      (λ a b a<10 b<10 e. (digit a, _, digit-IsDigitChar a a<10, refl))
      (λ a b c a<10 b<10 c<10 e. (digit a, _, digit-IsDigitChar a a<10, refl))

amount_after :
    (h : ℕ) (gs : List ℕ) (b : Text)
    → h < 1000
    → All IsGroup gs
    → first_passes bars b ≡ false
    → match_at money_re (at b (b' ' ∷ dotted h gs) []) some ≡ some (found (dotted h gs) (b' ' ∷ b))
amount_after h gs b bound a e =
    let (c, t, dc, starts) = dotted-Starts h gs bound in
    subst (λ x. match_at money_re (at b (b' ' ∷ x) []) some ≡ some (found (dotted h gs) (b' ' ∷ b)))
      (sym starts)
      (space_matches c t b (found (dotted h gs) (b' ' ∷ b)) dc e (
        subst
          (λ x.
            match_at from_amount (at (b' ' ∷ b) x ((1, []) ∷ [])) some
            ≡ some (found (dotted h gs) (b' ' ∷ b)))
          starts (amount_group h gs (b' ' ∷ b) bound a)))

-- The letters of the currency, after a sign or at the start.
currency_search :
    (h : ℕ) (gs : List ℕ) (b : Text)
    → h < 1000
    → All IsGroup gs
    → match_at money_re (at b (b'I' ∷ b'D' ∷ b'R' ∷ b' ' ∷ dotted h gs) []) some ≡ none
    → search_from money_re b (b'I' ∷ b'D' ∷ b'R' ∷ b' ' ∷ dotted h gs)
      ≡ some (found (dotted h gs) (b' ' ∷ b'R' ∷ b'D' ∷ b'I' ∷ b))
currency_search h gs b bound a skips =
    search-skip money_re b'I' b (b'D' ∷ b'R' ∷ b' ' ∷ dotted h gs) skips
    ∙ search-skip money_re b'D' (b'I' ∷ b) (b'R' ∷ b' ' ∷ dotted h gs)
        (skips_d b (b'R' ∷ b' ' ∷ dotted h gs))
    ∙ search-skip money_re b'R' (b'D' ∷ b'I' ∷ b) (b' ' ∷ dotted h gs)
        (skips_r (b'I' ∷ b) (dotted h gs))
    ∙ search-hit money_re b' ' (b'R' ∷ b'D' ∷ b'I' ∷ b) (dotted h gs)
        (found (dotted h gs) (b' ' ∷ b'R' ∷ b'D' ∷ b'I' ∷ b))
        (amount_after h gs (b'R' ∷ b'D' ∷ b'I' ∷ b) bound a refl)

pub search_plain :
    (h : ℕ) (gs : List ℕ)
    → h < 1000
    → All IsGroup gs
    → search_re money_re (b'I' ∷ b'D' ∷ b'R' ∷ b' ' ∷ dotted h gs)
      ≡ some (found (dotted h gs) (b' ' ∷ b'R' ∷ b'D' ∷ b'I' ∷ []))
unfolding search_re
search_plain h gs bound a =
    currency_search h gs [] bound a (skips_i (b'D' ∷ b'R' ∷ b' ' ∷ dotted h gs))

pub search_signed :
    (h : ℕ) (gs : List ℕ)
    → h < 1000
    → All IsGroup gs
    → search_re money_re (b'-' ∷ b'I' ∷ b'D' ∷ b'R' ∷ b' ' ∷ dotted h gs)
      ≡ some (found (dotted h gs) (b' ' ∷ b'R' ∷ b'D' ∷ b'I' ∷ b'-' ∷ []))
unfolding search_re
search_signed h gs bound a =
    search-skip money_re b'-' [] (b'I' ∷ b'D' ∷ b'R' ∷ b' ' ∷ dotted h gs)
      (skips_sign (b'D' ∷ b'R' ∷ b' ' ∷ dotted h gs))
    ∙ currency_search h gs (b'-' ∷ []) bound a (skips_signed_i (b'D' ∷ b'R' ∷ b' ' ∷ dotted h gs))

-- ===== src/Extraction/Money/Pattern.antt =====
-- The pattern of `parse_money` (src/ocr_engine/extraction/money.py) on the text that `format_money`
-- writes.
use mathlib.Core.Path.{subst}
use ocr.Base.{ℕ, ◌-◌, ◌<◌, ◌≡◌, refl, sym, ap, ◌∙◌, none, some, List, [], ◌∷◌, ◌++◌, arith}
use mathlib.Core.List.{reverse, reverse_aux-eq, reverse-reverse}
use ocr.Base.Lists.{All, length, take, length-append}
use ocr.Base.Text.{Text}
use ocr.Base.Regex.{
  Regex, Position, seq, plus, group, not_ahead, match_at, star_loop, search_from, consumed,
}
use ocr.Extraction.Money.{
  short, groups_after, is_ascii_digit, up_to_three, separated, cents, amount_pattern, money_re,
}
use ocr.Extraction.Money.Groups.{IsGroup}
use ocr.Extraction.Money.Matching.{
  at, read, Cont, or_else, a_digit, dot_mark, dot_stops, match-alt_first, match-alt_second,
  short_matches,
}
use ocr.Extraction.Money.Amounts.{read-append, plus_groups, plus_digits, short_fails}

-- The digits of an amount, with a dot before every group.
abbrev pub dotted : ℕ → List ℕ → Text
dotted h gs = short h ++ groups_after dot_mark gs

append_nil : (t : Text) → t ++ [] ≡ t
append_nil [] = refl
append_nil (c ∷ t) = ap (λ u. c ∷ u) (append_nil t)

module _ (G : List (ℕ × Text)) (k : Cont) (r : Position) where
  short_amount :
      (h : ℕ) (before : Text)
      → h < 1000
      → k (at (read (short h) before) [] G) ≡ some r
      → match_at amount_pattern (at before (short h) G) k ≡ some r
  unfolding match_at amount_pattern
  short_amount h before bound ends =
      match-alt_second (seq up_to_three (plus separated)) (plus a_digit) (at before (short h) G)
        (λ t. match_at cents t k) (short_fails G (λ t. match_at cents t k) h before bound)
      ∙ plus_digits G (λ t. match_at cents t k) r h before bound ends

  pub amount_matches :
      (h : ℕ) (gs : List ℕ) (before : Text)
      → h < 1000
      → All IsGroup gs
      → k (at (read (dotted h gs) before) [] G) ≡ some r
      → match_at amount_pattern (at before (dotted h gs) G) k ≡ some r
  unfolding match_at amount_pattern
  amount_matches h [] before bound a ends =
      subst (λ t. match_at amount_pattern (at before t G) k ≡ some r) (sym (append_nil (short h)))
        (short_amount h before bound
          (subst (λ t. k (at (read t before) [] G) ≡ some r) (append_nil (short h)) ends))
  amount_matches h (g ∷ gs) before bound a ends =
      match-alt_first (seq up_to_three (plus separated)) (plus a_digit)
        (at before (dotted h (g ∷ gs)) G) r (λ t. match_at cents t k)
        (short_matches G (λ t. match_at (plus separated) t (λ u. match_at cents u k)) r h before
          (groups_after dot_mark (g ∷ gs)) bound dot_stops
          (plus_groups G (λ t. match_at cents t k) r g gs (read (short h) before) a
            (subst (λ t. k (at t [] G) ≡ some r)
              (read-append (short h) (groups_after dot_mark (g ∷ gs)) before) ends)))

pub search-skip :
    (x : Regex) (c : ℕ) (b t : Text)
    → match_at x (at b (c ∷ t) []) some ≡ none
    → search_from x b (c ∷ t) ≡ search_from x (c ∷ b) t
unfolding search_from
search-skip x c b t e = ap (λ o. or_else o (search_from x (c ∷ b) t)) e

pub search-hit :
    (x : Regex) (c : ℕ) (b t : Text) (r : Position)
    → match_at x (at b (c ∷ t) []) some ≡ some r
    → search_from x b (c ∷ t) ≡ some r
unfolding search_from
search-hit x c b t r e = ap (λ o. or_else o (search_from x (c ∷ b) t)) e

-- The letters of the currency and its sign, at which no amount begins.
pub skips_i : (t : Text) → match_at money_re (at [] (b'I' ∷ t) []) some ≡ none
unfolding match_at star_loop money_re
skips_i t = refl

pub skips_sign : (t : Text) → match_at money_re (at [] (b'-' ∷ b'I' ∷ t) []) some ≡ none
unfolding match_at star_loop money_re
skips_sign t = refl

pub skips_signed_i : (t : Text) → match_at money_re (at (b'-' ∷ []) (b'I' ∷ t) []) some ≡ none
unfolding match_at star_loop money_re
skips_signed_i t = refl

pub skips_d : (b t : Text) → match_at money_re (at (b'I' ∷ b) (b'D' ∷ t) []) some ≡ none
unfolding match_at star_loop money_re
skips_d b t = refl

pub skips_r : (b t : Text) → match_at money_re (at (b'D' ∷ b) (b'R' ∷ b' ' ∷ t) []) some ≡ none
unfolding match_at star_loop money_re
skips_r b t = refl

take-length : (x y : Text) → take (length x) (x ++ y) ≡ x
take-length [] y = refl
take-length (c ∷ x) y = ap (λ t. c ∷ t) (take-length x y)

take-append : (x y : Text) → take (length (x ++ y) - length y) (x ++ y) ≡ x
take-append x y = ap (λ n. take n (x ++ y)) (omega (arith, length-append x y)) ∙ take-length x y

-- What a group holds that read `t`.
consumed-read : (t b : Text) (G H : List (ℕ × Text)) → consumed (at b [] G) (at (read t b) [] H) ≡ t
consumed-read t b G H =
    ap (λ l. reverse (take (length l - length b) l)) (reverse_aux-eq t b)
    ∙ ap reverse (take-append (reverse t) b)
    ∙ reverse-reverse t

-- Where the amount has been read.
abbrev pub found : Text → Text → Position
found t b = at (read t b) [] ((2, t) ∷ (1, []) ∷ [])

pub amount_group :
    (h : ℕ) (gs : List ℕ) (b : Text)
    → h < 1000
    → All IsGroup gs
    → match_at
        (seq (group 2 amount_pattern) (not_ahead is_ascii_digit))
        (at b (dotted h gs) ((1, []) ∷ []))
        some
      ≡ some (found (dotted h gs) b)
unfolding match_at
amount_group h gs b bound a =
    amount_matches ((1, []) ∷ []) _ (found (dotted h gs) b) h gs b bound a (
      ap (λ t. some (at (read (dotted h gs) b) [] ((2, t) ∷ (1, []) ∷ [])))
        (consumed-read (dotted h gs) b [] []))

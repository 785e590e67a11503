-- ===== src/Extraction/Layout.antt =====
-- The layout of a page in src/ocr_engine/extraction/extract.py: reading order, the line to the
-- right, and the width of the page.
pub mod Lines
use ocr.Base.{
  ℕ, suc, ◌+◌, ◌-◌, Bool, true, false, not, ◌&&◌, ◌||◌, Option, none, some, List, [], ◌∷◌,
}
use ocr.Base.Tests.{nat_beq, if◌then◌else◌}
use ocr.Base.Lists.{length, take}
use ocr.Base.Int.{ℤ, pos, negsuc, ◌+ℤ◌, leb_ℤ, ltb_ℤ}
use ocr.Extraction.Schema.{Line, Matcher}

-- A line with its place in the input, by which it is told apart from the others.
abbrev pub Ranked : Type 0
Ranked = ℕ × Line

abbrev pub enumerate : ℕ → List Line → List Ranked
enumerate n [] = []
enumerate n (l ∷ ls) = (n, l) ∷ enumerate (n + 1) ls

-- The key `(y1, x1)` of the first is below that of the second.
abbrev pub ranks_before : Line → Line → Bool
ranks_before a b =
    ltb_ℤ a.bbox.y1 b.bbox.y1 || (leb_ℤ a.bbox.y1 b.bbox.y1 && ltb_ℤ a.bbox.x1 b.bbox.x1)

unfoldable pub insert_ranked : Ranked → List Ranked → List Ranked
insert_ranked x [] = x ∷ []
insert_ranked x (y ∷ ys) =
    let rest = insert_ranked x ys in if ranks_before y.1 x.1 then y ∷ rest else x ∷ y ∷ ys

-- `sorted` by that key, which is stable.
unfoldable pub sort_ranked : List Ranked → List Ranked
unfolding insert_ranked
sort_ranked [] = []
sort_ranked (x ∷ xs) = insert_ranked x (sort_ranked xs)

-- `ranked_lines[:n]`; a negative bound counts from the end.
abbrev pub up_to_bound {ℓ} : {A : Type ℓ} → ℤ → List A → List A
up_to_bound (pos n) xs = take n xs
up_to_bound (negsuc n) xs = take (length xs - suc n) xs

abbrev pub candidates_of : Matcher → List Ranked → List Ranked
candidates_of m ranked = elim m.max_top_n [ none ↦ ranked | some n ↦ up_to_bound n ranked ]

abbrev max_ℤ : ℤ → ℤ → ℤ
max_ℤ a b = if ltb_ℤ a b then b else a

abbrev widest : ℤ → List Ranked → ℤ
widest w [] = w
widest w ((_, l) ∷ ls) = widest (max_ℤ w l.bbox.x2) ls

-- `max(…, default=1)`
unfoldable pub page_width : List Ranked → ℤ
page_width [] = pos 1
page_width ((_, l) ∷ ls) = widest l.bbox.x2 ls

-- `b.bbox[1] <= a_mid <= b.bbox[3]`, with both sides doubled.
unfoldable pub vertically_overlaps : Line → Line → Bool
vertically_overlaps a b =
    let doubled_mid = a.bbox.y1 +ℤ a.bbox.y2 in
    leb_ℤ (b.bbox.y1 +ℤ b.bbox.y1) doubled_mid && leb_ℤ doubled_mid (b.bbox.y2 +ℤ b.bbox.y2)

abbrev is_better : Line → Option Line → Bool
is_better other none = true
is_better other (some best) = ltb_ℤ other.bbox.x1 best.bbox.x1

unfoldable pub line_to_the_right : Ranked → List Ranked → Option Line → Option Line
unfolding vertically_overlaps
line_to_the_right line [] best = best
line_to_the_right line ((i, other) ∷ rest) best = line_to_the_right line rest (
    if not (nat_beq i line.0)
      && (leb_ℤ line.1.bbox.x2 other.bbox.x1
          && (vertically_overlaps line.1 other && is_better other best))
    then some other
    else best)

-- ===== src/Extraction/Money/Groups.antt =====
-- The groups of digits that `format_money` (src/ocr_engine/extraction/money.py) writes.
use Prim.Native.Nat.{◌%◌}
use ocr.Base.{
  ℕ, zero, suc, ◌+◌, ◌*◌, ◌/◌, ◌≤◌, ◌<◌, ◌≡◌, refl, ◌∙◌, inl, inr, List, [], ◌∷◌, ◌++◌, arith,
}
use ocr.Base.Tests.{ltb, Bool-cases}
use ocr.Base.Lists.{All}
use ocr.Extraction.Money.{leading, following}

-- The number of a leading group and of those that follow.
abbrev pub value_after : ℕ → List ℕ → ℕ
value_after acc [] = acc
value_after acc (g ∷ gs) = value_after (acc * 1000 + g) gs

value_after-snoc :
    (acc : ℕ) (gs : List ℕ) (g : ℕ)
    → value_after acc (gs ++ (g ∷ [])) ≡ value_after acc gs * 1000 + g
value_after-snoc acc [] g = refl
value_after-snoc acc (x ∷ gs) g = value_after-snoc (acc * 1000 + x) gs g

abbrev pub IsGroup : ℕ → Type 0
IsGroup g = g < 1000

All-snoc : (gs : List ℕ) (g : ℕ) → All IsGroup gs → g < 1000 → All IsGroup (gs ++ (g ∷ []))
All-snoc [] g a p = (p, tt)
All-snoc (x ∷ gs) g a p = (a.0, All-snoc gs g a.1 p)

pub leading-lt : (fuel n : ℕ) → n ≤ fuel → leading fuel n < 1000
unfolding leading
leading-lt zero n h = omega (arith, h)
leading-lt (suc fuel) n h = elim (Bool-cases (ltb n 1000)) [
  | inl e ↦ rw e (ground (arith, e))
  | inr e ↦ rw e (leading-lt fuel (n / 1000) (ground (arith, e, h)))
]

pub following-All : (fuel n : ℕ) → n ≤ fuel → All IsGroup (following fuel n)
unfolding following
following-All zero n h = tt
following-All (suc fuel) n h = elim (Bool-cases (ltb n 1000)) [
  | inl e ↦ rw e tt
  | inr e ↦ rw e (
      All-snoc (following fuel (n / 1000)) (n % 1000)
        (following-All fuel (n / 1000) (ground (arith, e, h))) (omega arith))
]

pub value_after-following :
    (fuel n : ℕ) → n ≤ fuel → value_after (leading fuel n) (following fuel n) ≡ n
unfolding leading following
value_after-following zero n h = refl
value_after-following (suc fuel) n h = elim (Bool-cases (ltb n 1000)) [
  | inl e ↦ rw e refl
  | inr e ↦ rw e (
      value_after-snoc (leading fuel (n / 1000)) (following fuel (n / 1000)) (n % 1000)
      ∙ rw (value_after-following fuel (n / 1000) (ground (arith, e, h))) (omega arith))
]

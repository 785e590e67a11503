-- ===== src/Extraction/Layout/Lines.antt =====
-- What the layout functions of src/ocr_engine/extraction/extract.py select are lines of their
-- input: a property of every line is one of every line that they return.
use ocr.Base.{ℕ, zero, suc, ◌+◌, inl, inr, Bool, true, false, Option, none, some, List, [], ◌∷◌}
use ocr.Base.Tests.{if◌then◌else◌, Bool-cases}
use ocr.Base.Lists.{take, All}
use ocr.Base.Int.{ℤ, pos, negsuc}
use ocr.Extraction.Layout.{
  Ranked, enumerate, insert_ranked, sort_ranked, ranks_before, up_to_bound, line_to_the_right,
}
use ocr.Extraction.Schema.{Line}

module _ (P : Line → Type 0) where
  abbrev pub HasAll : List Ranked → Type 0
  HasAll = All (λ r. P r.1)

  abbrev pub HasOption : Option Line → Type 0
  HasOption none = Unit
  HasOption (some l) = P l

  if-Has :
      (b : Bool) (x y : Option Line) → HasOption x → HasOption y → HasOption (if b then x else y)
  if-Has true x y hx hy = hx
  if-Has false x y hx hy = hy

  pub line_to_the_right-Has :
      (line : Ranked) (ranked : List Ranked) (best : Option Line)
      → HasAll ranked
      → HasOption best
      → HasOption (line_to_the_right line ranked best)
  unfolding line_to_the_right
  line_to_the_right-Has line [] best h b = b
  line_to_the_right-Has line ((i, other) ∷ rest) best h b =
      line_to_the_right-Has line rest _ h.1 (if-Has _ (some other) best h.0 b)

  HasAll-take : (n : ℕ) (ranked : List Ranked) → HasAll ranked → HasAll (take n ranked)
  HasAll-take zero ranked h = tt
  HasAll-take (suc n) [] h = tt
  HasAll-take (suc n) (r ∷ ranked) h = (h.0, HasAll-take n ranked h.1)

  HasAll-up_to_bound :
      (n : ℤ) (ranked : List Ranked) → HasAll ranked → HasAll (up_to_bound n ranked)
  HasAll-up_to_bound (pos n) ranked h = HasAll-take n ranked h
  HasAll-up_to_bound (negsuc n) ranked h = HasAll-take _ ranked h

  pub HasAll-candidates :
      (n : Option ℤ) (ranked : List Ranked)
      → HasAll ranked
      → HasAll (elim n [ none ↦ ranked | some k ↦ up_to_bound k ranked ])
  HasAll-candidates none ranked h = h
  HasAll-candidates (some n) ranked h = HasAll-up_to_bound n ranked h

  HasAll-insert_ranked :
      (x : Ranked) (ranked : List Ranked) → P x.1 → HasAll ranked → HasAll (insert_ranked x ranked)
  unfolding insert_ranked
  HasAll-insert_ranked x [] p h = (p, tt)
  HasAll-insert_ranked x (y ∷ ys) p h = elim (Bool-cases (ranks_before y.1 x.1)) [
    | inl e ↦ rw e (h.0, HasAll-insert_ranked x ys p h.1)
    | inr e ↦ rw e (p, h)
  ]

  pub HasAll-sort_ranked : (ranked : List Ranked) → HasAll ranked → HasAll (sort_ranked ranked)
  unfolding sort_ranked
  HasAll-sort_ranked [] h = tt
  HasAll-sort_ranked (x ∷ xs) h =
      HasAll-insert_ranked x (sort_ranked xs) h.0 (HasAll-sort_ranked xs h.1)

  pub HasAll-enumerate : (n : ℕ) (lines : List Line) → All P lines → HasAll (enumerate n lines)
  HasAll-enumerate n [] h = tt
  HasAll-enumerate n (l ∷ lines) h = (h.0, HasAll-enumerate (n + 1) lines h.1)

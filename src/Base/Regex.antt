-- ===== src/Base/Regex.antt =====
-- The backtracking matcher of Python's `re`, for the constructs that the sources' patterns use.
-- A matched text is consumed from the left; alternatives and repetitions are tried in order.
use ocr.Base.Tests.{if◌then◌else◌, nat_beq, ltb}
use ocr.Base.Lists.{length, take}
use ocr.Base.Text.{Text}
use Prim.Native.Nat.{ℕ, zero, suc, ◌-◌}
use mathlib.Core.Bool.{Bool, true, false}
use mathlib.Core.Option.{Option, none, some}
use mathlib.Core.List.{List, [], ◌∷◌, reverse}

-- A single character is a predicate, which also carries `re.IGNORECASE`.
pub data Regex : Type 0 where
  empty : Regex
  one : (ℕ → Bool) → Regex
  seq : Regex → Regex → Regex
  alt : Regex → Regex → Regex
  star : Regex → Regex
  group : ℕ → Regex → Regex
  not_behind : (ℕ → Bool) → Regex
  not_ahead : (ℕ → Bool) → Regex

-- What stands before the position, nearest first; what is left; and the groups matched so far.
pub record Position : Type 0 where
  pub before : Text
  pub rest : Text
  pub groups : List (ℕ × Text)

abbrev pub group_of : ℕ → List (ℕ × Text) → Option Text
group_of n [] = none
group_of n ((m, t) ∷ gs) = if nat_beq n m then some t else group_of n gs

abbrev pub first_passes : (ℕ → Bool) → Text → Bool
first_passes p [] = false
first_passes p (c ∷ _) = p c

-- The text between two positions.
abbrev pub consumed : Position → Position → Text
consumed s t = reverse (take (length t.before - length s.before) t.before)

-- One round after another, each of which consumes something; then on with what follows.
unfoldable pub star_loop :
    (Position → (Position → Option Position) → Option Position)
    → ℕ
    → Position
    → (Position → Option Position)
    → Option Position
star_loop m zero s k = k s
star_loop m (suc fuel) s k =
    elim (m s λ t. elim (ltb (length t.rest) (length s.rest)) [
      | true ↦ star_loop m fuel t k
      | false ↦ none
    ]) [ some t ↦ some t | none ↦ k s ]

unfoldable pub match_at : Regex → Position → (Position → Option Position) → Option Position
unfolding star_loop
match_at empty s k = k s
match_at (one p) s k = elim s.rest [
  | [] ↦ none
  | c ∷ cs ↦ elim (p c) [ true ↦ k (record s { before = c ∷ s.before; rest = cs }) | false ↦ none ]
]
match_at (seq a b) s k = match_at a s (λ t. match_at b t k)
match_at (alt a b) s k = elim (match_at a s k) [ some t ↦ some t | none ↦ match_at b s k ]
match_at (star r) s k = star_loop (match_at r) (suc (length s.rest)) s k
match_at (group n r) s k =
    match_at r s (λ t. k (record t { groups = (n, consumed s t) ∷ t.groups }))
match_at (not_behind p) s k = elim (first_passes p s.before) [ true ↦ none | false ↦ k s ]
match_at (not_ahead p) s k = elim (first_passes p s.rest) [ true ↦ none | false ↦ k s ]

unfoldable pub search_from : Regex → Text → Text → Option Position
unfolding match_at
search_from r before [] = match_at r (record { before = before; rest = []; groups = [] }) some
search_from r before (c ∷ rest) =
    let later = search_from r (c ∷ before) rest in
    elim (match_at r (record { before = before; rest = c ∷ rest; groups = [] }) some) [
      | some t ↦ some t
      | none ↦ later
    ]

-- `pattern.search(text)`, as the position after the match.
unfoldable pub search_re : Regex → Text → Option Position
unfolding search_from
search_re r t = search_from r [] t

-- `r?`, `r+` and `r{m,n}`.
abbrev pub opt : Regex → Regex
opt r = alt r empty

abbrev pub plus : Regex → Regex
plus r = seq r (star r)

abbrev pub up_to : ℕ → Regex → Regex
up_to zero r = empty
up_to (suc n) r = opt (seq r (up_to n r))

abbrev pub times : ℕ → Regex → Regex
times zero r = empty
times (suc n) r = seq r (times n r)

abbrev pub repeat : ℕ → ℕ → Regex → Regex
repeat m n r = seq (times m r) (up_to (n - m) r)

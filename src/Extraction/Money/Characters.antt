-- ===== src/Extraction/Money/Characters.antt =====
-- What `parse_money` makes of the characters that `format_money` writes
-- (src/ocr_engine/extraction/money.py).
use Prim.Native.Nat.{◌%◌}
use mathlib.Core.List.{reverse, reverse_aux, reverse-reverse}
use ocr.Base.{
  ℕ, ◌-◌, ◌/◌, ◌<◌, ◌≡◌, refl, ap, ◌∙◌, inl, inr, Bool, false, not, ◌&&◌, Option, none, some, List,
  [], ◌∷◌, ◌++◌, arith,
}
use ocr.Base.Tests.{nat_beq, Bool-cases, if◌then◌else◌}
use ocr.Base.Lists.{All, length}
use ocr.Base.Text.{Text, is_space, strip, lstrip_set, replace_char}
use ocr.Extraction.Money.{
  digit, short, groups_after, remove_separators, cleaned_digits, last_separator, mark_at,
}
use ocr.Extraction.Money.Groups.{IsGroup}
use ocr.Extraction.Money.Digits.{digit-IsDigitChar, short-cases, digits_after}
use ocr.Extraction.Money.Matching.{dot_mark}
use ocr.Extraction.Money.Pattern.{dotted}

-- What every character of an amount is.
groups-All :
    (P : ℕ → Type 0)
    → ((d : ℕ) → d < 10 → P (digit d))
    → P dot_mark
    → (gs : List ℕ) → All IsGroup gs
    → All P (groups_after dot_mark gs)
groups-All P f dot [] a = tt
groups-All P f dot (g ∷ gs) a = (
  dot,
  (
    f (g / 100) (omega (arith, a.0)),
    (f (g / 10 % 10) (omega arith), (f (g % 10) (omega arith), groups-All P f dot gs a.1)),
  ),
)

pub dotted-All :
    (P : ℕ → Type 0)
    → ((d : ℕ) → d < 10 → P (digit d))
    → P dot_mark
    → (h : ℕ) (gs : List ℕ) → h < 1000
    → All IsGroup gs
    → All P (dotted h gs)
dotted-All P f dot h gs bound a =
    let rest = groups-All P f dot gs a in
    short-cases (λ x. All P (x ++ groups_after dot_mark gs)) h bound (λ x x<10 e. (f x x<10, rest))
      (λ x y x<10 y<10 e. (f x x<10, (f y y<10, rest)))
      (λ x y z x<10 y<10 z<10 e. (f x x<10, (f y y<10, (f z z<10, rest))))

pub replace_char-absent :
    (a b : ℕ) (t : Text) → All (λ c. nat_beq c a ≡ false) t → replace_char a b t ≡ t
replace_char-absent a b [] h = refl
replace_char-absent a b (c ∷ t) h =
    rw (h.0, replace_char) (ap (λ u. c ∷ u) (replace_char-absent a b t h.1))

lstrip_set-absent : (p : ℕ → Bool) (t : Text) → All (λ c. p c ≡ false) t → lstrip_set p t ≡ t
unfolding lstrip_set
lstrip_set-absent p [] h = refl
lstrip_set-absent p (c ∷ t) h = rw h.0 refl

reverse_aux-All : (P : ℕ → Type 0) (t u : Text) → All P t → All P u → All P (reverse_aux t u)
reverse_aux-All P [] u a b = b
reverse_aux-All P (c ∷ t) u a b = reverse_aux-All P t (c ∷ u) a.1 (a.0, b)

pub strip-absent : (t : Text) → All (λ c. is_space c ≡ false) t → strip t ≡ t
unfolding strip
strip-absent t h =
    ap (λ u. reverse (lstrip_set is_space (reverse u))) (lstrip_set-absent is_space t h)
    ∙ ap reverse (
        lstrip_set-absent is_space (reverse t)
          (reverse_aux-All (λ c. is_space c ≡ false) t [] h tt))
    ∙ reverse-reverse t

-- The commas of the groups become dots.
comma_free : (d : ℕ) → d < 10 → nat_beq (digit d) b',' ≡ false
comma_free d b = ground (arith, b)

replace_char-digit :
    (d : ℕ) (t : Text)
    → d < 10
    → replace_char b',' b'.' (digit d ∷ t) ≡ digit d ∷ replace_char b',' b'.' t
replace_char-digit d t b =
    ap (λ x. (if x then b'.' else digit d) ∷ replace_char b',' b'.' t) (comma_free d b)

-- A function on texts that keeps digits.
module _ (F : Text → Text)
    (keeps : (d : ℕ) (t : Text) → d < 10 → F (digit d ∷ t) ≡ digit d ∷ F t) where
  keeps-three :
      (a b c : ℕ) (t u : Text)
      → a < 10
      → b < 10
      → c < 10
      → F t ≡ u
      → F (digit a ∷ digit b ∷ digit c ∷ t) ≡ digit a ∷ digit b ∷ digit c ∷ u
  keeps-three a b c t u a<10 b<10 c<10 e =
      keeps a (digit b ∷ digit c ∷ t) a<10
      ∙ ap (λ x. digit a ∷ x) (keeps b (digit c ∷ t) b<10)
      ∙ ap (λ x. digit a ∷ digit b ∷ x) (keeps c t c<10)
      ∙ ap (λ x. digit a ∷ digit b ∷ digit c ∷ x) e

  keeps-short : (h : ℕ) (t u : Text) → h < 1000 → F t ≡ u → F (short h ++ t) ≡ short h ++ u
  keeps-short h t u bound e =
      short-cases (λ x. F (x ++ t) ≡ x ++ u) h bound
        (λ a a<10 _. keeps a t a<10 ∙ ap (λ x. digit a ∷ x) e)
        (λ a b a<10 b<10 _.
          keeps a (digit b ∷ t) a<10
          ∙ ap (λ x. digit a ∷ x) (keeps b t b<10)
          ∙ ap (λ x. digit a ∷ digit b ∷ x) e)
        (λ a b c a<10 b<10 c<10 _. keeps-three a b c t u a<10 b<10 c<10 e)

  keeps-group :
      (g : ℕ) (t u : Text)
      → g < 1000
      → F t ≡ u
      → F (digit (g / 100) ∷ digit (g / 10 % 10) ∷ digit (g % 10) ∷ t)
        ≡ digit (g / 100) ∷ digit (g / 10 % 10) ∷ digit (g % 10) ∷ u
  keeps-group g t u bound e =
      keeps-three (g / 100) (g / 10 % 10) (g % 10) t u (omega (arith, bound)) (omega arith)
        (omega arith) e

replace_char-groups :
    (gs : List ℕ)
    → All IsGroup gs
    → replace_char b',' b'.' (groups_after b',' gs) ≡ groups_after dot_mark gs
replace_char-groups [] a = refl
replace_char-groups (g ∷ gs) a =
    ap (λ t. dot_mark ∷ t)
      (keeps-group (replace_char b',' b'.') replace_char-digit g (groups_after b',' gs)
        (groups_after dot_mark gs) a.0 (replace_char-groups gs a.1))

pub replace_char-commas :
    (h : ℕ) (gs : List ℕ)
    → h < 1000
    → All IsGroup gs
    → replace_char b',' b'.' (short h ++ groups_after b',' gs) ≡ dotted h gs
replace_char-commas h gs bound a =
    keeps-short (replace_char b',' b'.') replace_char-digit h (groups_after b',' gs)
      (groups_after dot_mark gs) bound (replace_char-groups gs a)

-- The separators are removed, and the digits stay.
remove_separators-digit :
    (d : ℕ) (t : Text) → d < 10 → remove_separators (digit d ∷ t) ≡ digit d ∷ remove_separators t
unfolding remove_separators
remove_separators-digit d t b =
    ap (λ x. if not x then digit d ∷ remove_separators t else remove_separators t)
      (digit-IsDigitChar d b).no_separator

remove_separators-groups :
    (gs : List ℕ) → All IsGroup gs → remove_separators (groups_after dot_mark gs) ≡ digits_after gs
unfolding remove_separators
remove_separators-groups [] a = refl
remove_separators-groups (g ∷ gs) a =
    keeps-group remove_separators remove_separators-digit g (groups_after dot_mark gs)
      (digits_after gs) a.0 (remove_separators-groups gs a.1)

-- Both branches of the source remove the separators.
both_alike :
    (o : Option ℕ) (x : Text) (test : ℕ → Bool)
    → elim o as (λ _. Text) [ none ↦ x | some i ↦ if test i then x else x ] ≡ x
both_alike none x test = refl
both_alike (some i) x test = elim (Bool-cases (test i)) [ inl e ↦ rw e refl | inr e ↦ rw e refl ]

pub cleaned_digits-dotted :
    (h : ℕ) (gs : List ℕ)
    → h < 1000
    → All IsGroup gs
    → cleaned_digits (dotted h gs) ≡ short h ++ digits_after gs
unfolding cleaned_digits
cleaned_digits-dotted h gs bound a =
    both_alike (last_separator (dotted h gs)) (remove_separators (dotted h gs))
      (λ i. nat_beq (length (dotted h gs) - i - 1) 2 && mark_at (dotted h gs) i)
    ∙ keeps-short remove_separators remove_separators-digit h (groups_after dot_mark gs)
        (digits_after gs) bound (remove_separators-groups gs a)

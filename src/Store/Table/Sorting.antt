-- ===== src/Store/Table/Sorting.antt =====
-- ORDER BY and LIMIT over a table: how they meet UPDATE, and a split of the table by a bound.
use ocr.Base.{
  ℕ, zero, suc, ◌≤◌, ◌<◌, ◌≡◌, refl, ap, Bool, not, ◌&&◌, List, [], ◌∷◌, ◌++◌, map, arith, inl, inr,
}
use ocr.Base.Tests.{ltb, if◌then◌else◌, Bool-cases}
use ocr.Base.Lists.{length, take, keep, All}
use ocr.Store.Table.{update_where, insert_by, sort_by}

module _ {ℓ} {A : Type ℓ} where
  pub take-append_of_le : (n : ℕ) (xs ys : List A) → n ≤ length xs → take n (xs ++ ys) ≡ take n xs
  take-append_of_le zero xs ys h = refl
  take-append_of_le (suc n) [] ys h = absurd (omega arith)
  take-append_of_le (suc n) (x ∷ xs) ys h =
      ap (λ l. x ∷ l) (take-append_of_le n xs ys (omega arith))

-- An update that keeps the key, the test and the projection is invisible to a sorted selection.
module _ {ℓ κ} {A : Type ℓ} {B : Type κ} (key : A → ℕ) (p q : A → Bool) (f : A → A) (g : A → B)
    (same_key : (a : A) → key (f a) ≡ key a) (same_test : (a : A) → p (f a) ≡ p a)
    (same_value : (a : A) → g (f a) ≡ g a) where
  abbrev patch : A → A
  patch a = if q a then f a else a

  patch-key : (a : A) → key (patch a) ≡ key a
  patch-key a = ground (arith, same_key a)

  patch-value : (a : A) → g (patch a) ≡ g a
  patch-value a = ground (arith, same_value a)

  keep-update_where : (xs : List A) → keep p (update_where q f xs) ≡ map patch (keep p xs)
  keep-update_where [] = refl
  keep-update_where (x ∷ xs) = ground (arith, same_test x, keep-update_where xs)

  insert_by-map :
      (x : A) (xs : List A)
      → insert_by key (patch x) (map patch xs) ≡ map patch (insert_by key x xs)
  insert_by-map x [] = refl
  insert_by-map x (y ∷ ys) = rw (patch-key x, patch-key y) (ground (arith, insert_by-map x ys))

  sort_by-map : (xs : List A) → sort_by key (map patch xs) ≡ map patch (sort_by key xs)
  sort_by-map [] = refl
  sort_by-map (x ∷ xs) = rw (sort_by-map xs) (insert_by-map x (sort_by key xs))

  map-take-map : (n : ℕ) (xs : List A) → map g (take n (map patch xs)) ≡ map g (take n xs)
  map-take-map zero xs = refl
  map-take-map (suc n) [] = refl
  map-take-map (suc n) (x ∷ xs) = rw (patch-value x, map-take-map n xs)

  pub selection-update_where :
      (n : ℕ) (xs : List A)
      → map g (take n (sort_by key (keep p (update_where q f xs))))
        ≡ map g (take n (sort_by key (keep p xs)))
  selection-update_where n xs =
      rw (keep-update_where xs, sort_by-map (keep p xs)) (map-take-map n (sort_by key (keep p xs)))

-- A bound on the key splits a sorted selection.
module _ {ℓ} {A : Type ℓ} (key : A → ℕ) where
  All-insert_by :
      (P : A → Type 0) (x : A) (xs : List A) → P x → All P xs → All P (insert_by key x xs)
  All-insert_by P x [] px h = (px, tt)
  All-insert_by P x (y ∷ ys) px h = elim (Bool-cases (ltb (key y) (key x))) [
    | inl lower ↦ rw lower (h.0, All-insert_by P x ys px h.1)
    | inr higher ↦ rw higher (px, h)
  ]

  insert_by-append_low :
      (b : ℕ) (x : A) (lo hi : List A)
      → key x < b
      → All (λ a. b ≤ key a) hi
      → insert_by key x (lo ++ hi) ≡ insert_by key x lo ++ hi
  insert_by-append_low b x [] [] lt h = refl
  insert_by-append_low b x [] (y ∷ ys) lt h = ground arith
  insert_by-append_low b x (y ∷ ys) hi lt h = ground (arith, insert_by-append_low b x ys hi)

  insert_by-append_high :
      (b : ℕ) (x : A) (lo hi : List A)
      → b ≤ key x
      → All (λ a. key a < b) lo
      → insert_by key x (lo ++ hi) ≡ lo ++ insert_by key x hi
  insert_by-append_high b x [] hi le h = refl
  insert_by-append_high b x (y ∷ ys) hi le h = ground (arith, insert_by-append_high b x ys hi)

  module _ (p q : A → Bool) (b : ℕ) (split : (a : A) → p a ≡ (q a && ltb (key a) b)) where
    abbrev rest : A → Bool
    rest a = q a && not (ltb (key a) b)

    sort_by-keep_low : (xs : List A) → All (λ a. key a < b) (sort_by key (keep p xs))
    sort_by-keep_low [] = tt
    sort_by-keep_low (x ∷ xs) = elim (Bool-cases (p x)) [
      | inl e ↦ rw e (
          All-insert_by (λ a. key a < b) x (sort_by key (keep p xs)) (ground (arith, split x))
            (sort_by-keep_low xs))
      | inr e ↦ rw e (sort_by-keep_low xs)
    ]

    sort_by-keep_high : (xs : List A) → All (λ a. b ≤ key a) (sort_by key (keep rest xs))
    sort_by-keep_high [] = tt
    sort_by-keep_high (x ∷ xs) = elim (Bool-cases (rest x)) [
      | inl e ↦ rw e (
          All-insert_by (λ a. b ≤ key a) x (sort_by key (keep rest xs)) (ground arith)
            (sort_by-keep_high xs))
      | inr e ↦ rw e (sort_by-keep_high xs)
    ]

    pub sort_by-split :
        (xs : List A)
        → sort_by key (keep q xs) ≡ sort_by key (keep p xs) ++ sort_by key (keep rest xs)
    sort_by-split [] = refl
    sort_by-split (x ∷ xs) = elim (Bool-cases (q x)) [
      | inr e ↦ rw (split x, e) (sort_by-split xs)
      | inl e ↦ elim (Bool-cases (ltb (key x) b)) [
        | inl low ↦
            rw (split x, e, low, sort_by-split xs)
              (insert_by-append_low b x (sort_by key (keep p xs)) (sort_by key (keep rest xs))
                (ground arith) (sort_by-keep_high xs))
        | inr high ↦
            rw (split x, e, high, sort_by-split xs)
              (insert_by-append_high b x (sort_by key (keep p xs)) (sort_by key (keep rest xs))
                (ground arith) (sort_by-keep_low xs))
      ]
    ]

-- ===== src/Store/Table/Lemmas.antt =====
-- How reads of a table see its writes.
use ocr.Base.{
  ℕ, zero, suc, ◌≡◌, refl, ap, ◌∙◌, Bool, true, false, ◌||◌, none, some, List, [], ◌∷◌, ◌++◌, arith,
}
use ocr.Base.Tests.{if◌then◌else◌}
use ocr.Base.Lists.{length, take}
use ocr.Store.Table.{find_row, update_where, any_row, insert_by, sort_by}

module _ {ℓ} {A : Type ℓ} where
  pub any_row-append :
      (p : A → Bool) (xs ys : List A) → any_row p (xs ++ ys) ≡ (any_row p xs || any_row p ys)
  any_row-append p [] ys = refl
  any_row-append p (x ∷ xs) ys = ground (arith, any_row-append p xs ys)

  -- An update that keeps what a test reads is invisible to the test.
  pub any_row-update_where :
      (q p : A → Bool) (f : A → A)
      → ((a : A) → q (f a) ≡ q a)
      → (xs : List A) → any_row q (update_where p f xs) ≡ any_row q xs
  any_row-update_where q p f h [] = refl
  any_row-update_where q p f h (x ∷ xs) = ground (arith, h x, any_row-update_where q p f h xs)

  pub find_row-append_none :
      (p : A → Bool) (xs ys : List A) → any_row p xs ≡ false → find_row p (xs ++ ys) ≡ find_row p ys
  find_row-append_none p [] ys h = refl
  find_row-append_none p (x ∷ xs) ys h = ground (arith, find_row-append_none p xs ys)

  pub find_row-append_some :
      (p : A → Bool) (xs ys : List A) (a : A)
      → find_row p xs ≡ some a
      → find_row p (xs ++ ys) ≡ some a
  find_row-append_some p [] ys a h = ground arith
  find_row-append_some p (x ∷ xs) ys a h = ground (arith, find_row-append_some p xs ys a)

  pub any_row_of_find_row :
      (p : A → Bool) (xs : List A) (a : A) → find_row p xs ≡ some a → any_row p xs ≡ true
  any_row_of_find_row p [] a h = ground arith
  any_row_of_find_row p (x ∷ xs) a h = ground (arith, any_row_of_find_row p xs a)

  -- A row that is found passes the test.
  pub find_row_sound : (p : A → Bool) (xs : List A) (a : A) → find_row p xs ≡ some a → p a ≡ true
  find_row_sound p [] a h = ground arith
  find_row_sound p (x ∷ xs) a h = ground (arith, find_row_sound p xs a)

  -- A row found by what the update keeps is found as the update leaves it.
  pub find_row-update_where :
      (q p : A → Bool) (f : A → A)
      → ((a : A) → q (f a) ≡ q a)
      → (xs : List A) (a : A) → find_row q xs ≡ some a
      → find_row q (update_where p f xs) ≡ some (if p a then f a else a)
  find_row-update_where q p f h [] a e = ground arith
  find_row-update_where q p f h (x ∷ xs) a e =
      ground (arith, h x, find_row-update_where q p f h xs a)

  pub find_row-update_where-none :
      (q p : A → Bool) (f : A → A)
      → ((a : A) → q (f a) ≡ q a)
      → (xs : List A) → find_row q xs ≡ none
      → find_row q (update_where p f xs) ≡ none
  find_row-update_where-none q p f h [] e = refl
  find_row-update_where-none q p f h (x ∷ xs) e =
      ground (arith, h x, find_row-update_where-none q p f h xs)

  pub length-update_where :
      (p : A → Bool) (f : A → A) (xs : List A) → length (update_where p f xs) ≡ length xs
  length-update_where p f [] = refl
  length-update_where p f (x ∷ xs) = ap suc (length-update_where p f xs)

  pub length-insert_by :
      (key : A → ℕ) (x : A) (xs : List A) → length (insert_by key x xs) ≡ suc (length xs)
  length-insert_by key x [] = refl
  length-insert_by key x (y ∷ ys) = ground (arith, length-insert_by key x ys)

  pub length-sort_by : (key : A → ℕ) (xs : List A) → length (sort_by key xs) ≡ length xs
  length-sort_by key [] = refl
  length-sort_by key (x ∷ xs) =
      length-insert_by key x (sort_by key xs) ∙ ap suc (length-sort_by key xs)

module _ {ℓ} {A : Type ℓ} (q : A → Bool) where
  pub any_row-take : (n : ℕ) (xs : List A) → any_row q xs ≡ false → any_row q (take n xs) ≡ false
  any_row-take zero xs h = refl
  any_row-take (suc n) [] h = refl
  any_row-take (suc n) (x ∷ xs) h = ground (arith, any_row-take n xs)

  any_row-insert_by :
      (key : A → ℕ) (x : A) (xs : List A) → any_row q (insert_by key x xs) ≡ (q x || any_row q xs)
  any_row-insert_by key x [] = refl
  any_row-insert_by key x (y ∷ ys) = ground (arith, any_row-insert_by key x ys)

  pub any_row-sort_by : (key : A → ℕ) (xs : List A) → any_row q (sort_by key xs) ≡ any_row q xs
  any_row-sort_by key [] = refl
  any_row-sort_by key (x ∷ xs) =
      any_row-insert_by key x (sort_by key xs) ∙ ap (λ b. q x || b) (any_row-sort_by key xs)

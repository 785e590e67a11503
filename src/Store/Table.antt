-- ===== src/Store/Table.antt =====
-- SQL over a table that is a list of rows: the row-wise SELECT, UPDATE and ORDER BY of store.py.
pub mod Lemmas
pub mod Sorting
use ocr.Base.{ℕ, Bool, true, false, ◌||◌, Option, none, some, List, [], ◌∷◌}
use ocr.Base.Tests.{ltb, if◌then◌else◌}

-- The first row that passes a test: `fetchrow` on an indexed column.
abbrev pub find_row {ℓ} : {A : Type ℓ} → (A → Bool) → List A → Option A
find_row p [] = none
find_row p (r ∷ rs) = if p r then some r else find_row p rs

-- `UPDATE … SET f WHERE p`
abbrev pub update_where {ℓ} : {A : Type ℓ} → (A → Bool) → (A → A) → List A → List A
update_where p f [] = []
update_where p f (r ∷ rs) = (if p r then f r else r) ∷ update_where p f rs

abbrev pub any_row {ℓ} : {A : Type ℓ} → (A → Bool) → List A → Bool
any_row p [] = false
any_row p (r ∷ rs) = p r || any_row p rs

-- `ORDER BY` a key: a stable insertion sort on a key.
abbrev pub insert_by {ℓ} : {A : Type ℓ} → (A → ℕ) → A → List A → List A
insert_by key x [] = x ∷ []
insert_by key x (y ∷ ys) =
    let rest = insert_by key x ys in if ltb (key y) (key x) then y ∷ rest else x ∷ y ∷ ys

abbrev pub sort_by {ℓ} : {A : Type ℓ} → (A → ℕ) → List A → List A
sort_by key [] = []
sort_by key (x ∷ xs) = insert_by key x (sort_by key xs)

-- ===== src/Extraction/Loader/Files/Loaded.antt =====
-- The dict that `load_schemas` (src/ocr_engine/extraction/schema.py) returns.
use ocr.Base.{◌≡◌, ◌≢◌, refl, sym, ap, inl, inr, String, false, List, [], ◌∷◌, ◌++◌, arith, eq_iff}
use mathlib.Core.Path.{subst}
use ocr.Base.Tests.{Bool-cases, ◌==◌, string_eq}
use ocr.Base.Lists.{All, Pairs}
use ocr.Extraction.Schema.{Schema, Schemas, get_schema}
use ocr.Pipeline.Outcome.{Outcome, ok, raise, ◌>>=◌}
use ocr.Pipeline.Outcome.Holds.{Yields, Yields-then}
use ocr.Extraction.Loader.{Reading}
use ocr.Extraction.Loader.Files.{
  is_some, sorted, read_schema, add_schema, load_each, some_schemas, load_schemas,
}
use ocr.Extraction.Loader.Files.Sound.{IsSound, read_schema-IsSound}

-- The entries have ids that differ.
abbrev pub HasDistinctIds : Schemas → Type 0
HasDistinctIds [] = Unit
HasDistinctIds ((k, s) ∷ rest) = All (λ e. e.0 ≢ k) rest × HasDistinctIds rest

-- Lists that grow at their end.
All-snoc :
    {A : Type 0} (P : A → Type 0) (xs : List A) (y : A) → All P xs → P y → All P (xs ++ (y ∷ []))
All-snoc P [] y a p = (p, tt)
All-snoc P (x ∷ xs) y a p = (a.0, All-snoc P xs y a.1 p)

Pairs-snoc :
    {A B : Type 0} (R : A → B → Type 0) (xs : List A) (ys : List B) (x : A) (y : B)
    → Pairs R xs ys
    → R x y
    → Pairs R (xs ++ (x ∷ [])) (ys ++ (y ∷ []))
Pairs-snoc R [] [] x y rs r = (r, tt)
Pairs-snoc R [] (y' ∷ ys) x y rs r = elim rs [ ]
Pairs-snoc R (x' ∷ xs) [] x y rs r = elim rs [ ]
Pairs-snoc R (x' ∷ xs) (y' ∷ ys) x y rs r = (rs.0, Pairs-snoc R xs ys x y rs.1 r)

snoc-append : {A : Type 0} (xs ys : List A) (x : A) → (xs ++ (x ∷ [])) ++ ys ≡ xs ++ (x ∷ ys)
snoc-append [] ys x = refl
snoc-append (x' ∷ xs) ys x = ap (λ zs. x' ∷ zs) (snoc-append xs ys x)

append-nil : {A : Type 0} (xs : List A) → xs ≡ xs ++ []
append-nil [] = refl
append-nil (x ∷ xs) = ap (λ zs. x ∷ zs) (append-nil xs)

HasDistinctIds-snoc :
    (schemas : Schemas) (k : String) (s : Schema)
    → HasDistinctIds schemas
    → All (λ e. e.0 ≢ k) schemas
    → HasDistinctIds (schemas ++ ((k, s) ∷ []))
HasDistinctIds-snoc [] k s d a = (tt, tt)
HasDistinctIds-snoc ((k', s') ∷ rest) k s d a = (
  All-snoc (λ e. e.0 ≢ k') rest (k, s) d.0 (λ e. a.0 (sym e)),
  HasDistinctIds-snoc rest k s d.1 a.1,
)

absent-All :
    (schemas : Schemas) (k : String)
    → is_some (get_schema schemas k) ≡ false
    → All (λ e. e.0 ≢ k) schemas
absent-All [] k h = tt
absent-All ((k', s') ∷ rest) k h = elim (Bool-cases (k' == k)) [
  | inl e ↦ absurd (ground (arith, e, h))
  | inr e ↦
      ((λ same. ground (arith, e, (eq_iff k' k).1 same)), absent-All rest k (ground (arith, e, h)))
]

module _ (py : Reading) where
  -- The entry of a file: the sound schema that it parses to, under its id.
  abbrev pub IsEntry : String → String × Schema → Type 0
  IsEntry name e = (read_schema py name ≡ ok e.1) × (e.0 ≡ e.1.schema_id) × IsSound py e.1

  abbrev pub IsLoaded : List String → Schemas → Type 0
  IsLoaded names schemas = Pairs IsEntry names schemas × HasDistinctIds schemas

  add_schema-IsLoaded :
      (done : List String) (name : String) (schemas : Schemas) (schema : Schema)
      → IsLoaded done schemas
      → read_schema py name ≡ ok schema
      → IsSound py schema
      → Yields (IsLoaded (done ++ (name ∷ []))) (add_schema py name schemas schema)
  add_schema-IsLoaded done name schemas schema loaded read sound =
      elim (Bool-cases (is_some (get_schema schemas schema.schema_id))) [
        | inl e ↦ rw e tt
        | inr e ↦ rw e (
          Pairs-snoc IsEntry done schemas name (schema.schema_id, schema) loaded.0
              (read, refl, sound),
          HasDistinctIds-snoc schemas schema.schema_id schema loaded.1
              (absent-All schemas schema.schema_id e),
        )
      ]

  after_read-IsLoaded :
      (done : List String) (name : String) (names : List String) (schemas : Schemas)
      (o : Outcome Schema)
      → IsLoaded done schemas
      → read_schema py name ≡ o
      → Yields (IsSound py) o
      → ((next : Schemas)
          → IsLoaded (done ++ (name ∷ [])) next
          → Yields (IsLoaded (done ++ (name ∷ names))) (load_each py names next))
      → Yields
          (IsLoaded (done ++ (name ∷ names)))
          (o >>= λ schema. add_schema py name schemas schema >>= load_each py names)
  after_read-IsLoaded done name names schemas (raise e) loaded read sound again = tt
  after_read-IsLoaded done name names schemas (ok schema) loaded read sound again =
      Yields-then (IsLoaded (done ++ (name ∷ []))) (IsLoaded (done ++ (name ∷ names)))
        (add_schema py name schemas schema) (load_each py names)
        (add_schema-IsLoaded done name schemas schema loaded read sound) again

  load_each-IsLoaded :
      (done names : List String) (schemas : Schemas)
      → IsLoaded done schemas
      → Yields (IsLoaded (done ++ names)) (load_each py names schemas)
  unfolding load_each
  load_each-IsLoaded done [] schemas loaded =
      subst (λ l. IsLoaded l schemas) (append-nil done) loaded
  load_each-IsLoaded done (name ∷ names) schemas loaded =
      after_read-IsLoaded done name names schemas (read_schema py name) loaded refl
        (read_schema-IsSound py name)
        (λ next loaded'.
          subst (λ l. Yields (IsLoaded l) (load_each py names next)) (snoc-append done names name)
            (load_each-IsLoaded (done ++ (name ∷ [])) names next loaded'))

  some_schemas-IsLoaded :
      (dir : String) (names : List String) (schemas : Schemas)
      → IsLoaded names schemas
      → Yields (λ loaded. (loaded ≢ []) × IsLoaded names loaded) (some_schemas py dir schemas)
  some_schemas-IsLoaded dir names [] loaded = tt
  some_schemas-IsLoaded dir names (s ∷ ss) loaded = ((λ e. ground (arith, e)), loaded)

  -- Where the schemas load, there is one, and the dict has one entry for each file, in the order of
  -- the files' names: the schema of the file, under its id, and no two ids are the same. Each
  -- schema has a field, each field a matcher and a threshold between 0 and 1, and each matcher what
  -- its kind needs: labels, a pattern, or a bound.
  pub load_schemas-IsLoaded :
      (dir : String) (names : List String)
      → Yields
          (λ schemas. (schemas ≢ []) × IsLoaded (sorted names) schemas)
          (load_schemas py dir names)
  unfolding load_schemas
  load_schemas-IsLoaded dir names =
      Yields-then (IsLoaded (sorted names))
        (λ schemas. (schemas ≢ []) × IsLoaded (sorted names) schemas)
        (load_each py (sorted names) []) (some_schemas py dir)
        (load_each-IsLoaded [] (sorted names) [] (tt, tt))
        (some_schemas-IsLoaded dir (sorted names))

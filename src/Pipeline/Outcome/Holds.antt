-- ===== src/Pipeline/Outcome/Holds.antt =====
-- What holds of the value or of the exception of code that may raise one.
use ocr.Base.{List, ◌∷◌}
use ocr.Base.Lists.{All}
use ocr.Pipeline.Outcome.{Exception, Outcome, ok, raise, ◌>>=◌}

-- What holds of the value, if there is one.
abbrev pub Yields : {A : Type 0} → (A → Type 0) → Outcome A → Type 0
Yields P (ok a) = P a
Yields P (raise e) = Unit {0}

-- What holds of the exception, if there is one.
abbrev pub Raises : {A : Type 0} → (Exception → Type 0) → Outcome A → Type 0
Raises Q (ok a) = Unit {0}
Raises Q (raise e) = Q e

pub Yields-bind :
    {A B : Type 0} (P : B → Type 0) (m : Outcome A) (f : A → Outcome B)
    → ((a : A) → Yields P (f a))
    → Yields P (m >>= f)
Yields-bind P (ok a) f h = h a
Yields-bind P (raise e) f h = tt

pub Yields-then :
    {A B : Type 0} (P : A → Type 0) (Q : B → Type 0) (m : Outcome A) (f : A → Outcome B)
    → Yields P m
    → ((a : A) → P a → Yields Q (f a))
    → Yields Q (m >>= f)
Yields-then P Q (ok a) f p h = h a p
Yields-then P Q (raise e) f p h = tt

pub Raises-bind :
    {A B : Type 0} (Q : Exception → Type 0) (m : Outcome A) (f : A → Outcome B)
    → Raises Q m
    → ((a : A) → Raises Q (f a))
    → Raises Q (m >>= f)
Raises-bind Q (ok a) f h k = k a
Raises-bind Q (raise e) f h k = h

pub Raises-weaken :
    {A : Type 0} (P Q : Exception → Type 0) (m : Outcome A)
    → ((e : Exception) → P e → Q e)
    → Raises P m
    → Raises Q m
Raises-weaken P Q (ok a) h p = tt
Raises-weaken P Q (raise e) h p = h e p

-- A list whose first element and whose rest are computed one after the other.
pub Yields-cons :
    {A : Type 0} (P : A → Type 0) (m : Outcome A) (k : Outcome (List A))
    → Yields P m
    → Yields (All P) k
    → Yields (All P) (m >>= λ x. k >>= λ xs. ok (x ∷ xs))
Yields-cons P (raise e) k h g = tt
Yields-cons P (ok x) (raise e) h g = tt
Yields-cons P (ok x) (ok xs) h g = (h, g)

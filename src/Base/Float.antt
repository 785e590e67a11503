-- ===== src/Base/Float.antt =====
-- Python floats. What the sources compute with them is an argument of the definitions that do.
use ocr.Base.{ℕ, String, Bool, List}
use ocr.Base.Int.{ℤ}

-- A float, by its 64 bits (IEEE 754, binary64).
pub record Float : Type 0 where
  pub bits : ℕ

-- 0.0
abbrev pub float_zero : Float
float_zero = record { bits = 0 }

-- 1.0
abbrev pub float_one : Float
float_one = record { bits = 0x3ff0000000000000 }

pub record FloatOps : Type 0 where
  pub lt : Float → Float → Bool
  pub le : Float → Float → Bool
  pub of_int : ℤ → Float
  -- `int(x)`, towards zero.
  pub trunc : Float → ℤ
  pub mul : Float → Float → Float
  pub div : Float → Float → Float
  -- `sum(xs)` of a list that is not empty.
  pub sum : List Float → Float
  -- `round(x, 4)`
  pub round4 : Float → Float
  -- `f"{x:.2f}"`
  pub fixed2 : Float → String

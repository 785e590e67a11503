-- ===== src/Base/PosixPath.antt =====
-- The part of `pathlib` that the sources use on object keys: the components between slashes.
use ocr.Base.{ℕ, Bool, false, ◌||◌, List, [], ◌∷◌}
use ocr.Base.Tests.{nat_beq, if◌then◌else◌}
use ocr.Base.Text.{Text, text_beq}

abbrev pub onto_first : ℕ → List Text → List Text
onto_first c [] = (c ∷ []) ∷ []
onto_first c (w ∷ ws) = (c ∷ w) ∷ ws

-- The components, with the empty and `.` ones that `Path.parts` drops.
abbrev pub components : Text → List Text
components [] = [] ∷ []
components (c ∷ t) =
    let rest = components t in if nat_beq c b'/' then [] ∷ rest else onto_first c rest

abbrev pub any_is : Text → List Text → Bool
any_is w [] = false
any_is w (v ∷ vs) = text_beq v w || any_is w vs

-- `".." in Path(path).parts`
abbrev pub has_parent_part : Text → Bool
has_parent_part path = any_is (b'.' ∷ b'.' ∷ []) (components path)

-- `path.startswith("/")`
abbrev pub is_absolute : Text → Bool
is_absolute [] = false
is_absolute (c ∷ t) = nat_beq c b'/'

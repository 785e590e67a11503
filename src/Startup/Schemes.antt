-- ===== src/Startup/Schemes.antt =====
-- The schemes of an endpoint: `http://` and `https://` exclude each other.
use Prim.Native.String.{String, ◌++◌ as ◌<>◌}
use Prim.Native.String.append
use text.Mathlib.Text.{starts_with}
use text.Mathlib.TextEquality.{starts_with_iff}
use ocr.Base.{ℕ, ◌≡◌, sym, ap, ◌∙◌, inl, inr, true, false, Option, none, some, ◌∷◌, ◌++◌, arith}
use ocr.Base.Tests.{Bool-cases}
use ocr.Base.Text.{Text, codes}
use Prim.Native.Char.{code}

codes-append : (s t : String) → codes (s <> t) ≡ codes s ++ codes t
codes-append String.[] t = ap codes (append.nil t)
codes-append (String.◌∷◌ c s) t =
    ap codes (append.cons c s t) ∙ ap (λ l. code c ∷ l) (codes-append s t)

-- The character that tells the schemes apart.
fifth : Text → Option ℕ
fifth (a ∷ b ∷ c ∷ d ∷ e ∷ t) = some e
fifth _ = none

fifth_of_prefix : (p s u : String) → p <> u ≡ s → fifth (codes s) ≡ fifth (codes p ++ codes u)
fifth_of_prefix p s u e = ap (λ v. fifth (codes v)) (sym e) ∙ ap fifth (codes-append p u)

pub https-http : (s : String) → starts_with s "https://" ≡ true → starts_with s "http://" ≡ false
unfolding fifth
https-http s https = elim (Bool-cases (starts_with s "http://")) [
  | inr e ↦ e
  | inl e ↦
      let (u, p) = (starts_with_iff s "https://").0 https in
      let (v, q) = (starts_with_iff s "http://").0 e in
      let colon : fifth (codes s) ≡ some 58 = fifth_of_prefix "http://" s v q in
      let letter : fifth (codes s) ≡ some 115 = fifth_of_prefix "https://" s u p in
      absurd (ground (arith, colon, letter))
]

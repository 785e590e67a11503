-- ===== src/Pipeline/Inspect/Sniff.antt =====
-- `sniff` (src/ocr_engine/pipeline/inspect_file.py) against a table of signatures.
use ocr.Base.{ℕ, ◌≡◌, ◌↔◌, ◌⊎◌, Bool, true, false, ◌||◌, Option, none, some, List, [], ◌∷◌, arith}
use ocr.Base.Tests.{if◌then◌else◌}
use ocr.Pipeline.Inspect.{Bytes, Mime, pdf, png, jpeg, gif, tiff, bmp, webp, sniff}
use ocr.Pipeline.Inspect.Signatures.{
  fits, fits_any, exactly, signatures, first_byte, fits-first_byte, or_false, first_fit,
  sniff-first_fit,
}

-- The first of seven tests that passes, where each asks for a first byte of its own.
module _ (p n j g t b w : Bool) (x : ℕ) where
  abbrev pick : Option Mime
  pick =
      if p
      then some pdf
      else if n
      then some png
      else if j
      then some jpeg
      else if g
      then some gif
      else if t
      then some tiff
      else if b
      then some bmp
      else if w
      then some webp
      else none

  abbrev test_of : Mime → Bool
  test_of pdf = p
  test_of png = n
  test_of jpeg = j
  test_of gif = g
  test_of tiff = t
  test_of bmp = b
  test_of webp = w

  abbrev FirstBytes : Type 0
  FirstBytes =
      (p ≡ true → x ≡ b'%')
      × (n ≡ true → x ≡ 0x89)
      × (j ≡ true → x ≡ 0xff)
      × (g ≡ true → x ≡ b'G')
      × (t ≡ true → (x ≡ b'I') ⊎ (x ≡ b'M'))
      × (b ≡ true → x ≡ b'B')
      × (w ≡ true → x ≡ b'R')

pick_sound :
    (p n j g t b w : Bool) (x : ℕ) (m : Mime)
    → pick p n j g t b w x ≡ some m
    → test_of p n j g t b w x m ≡ true
pick_sound true n j g t b w x m h = ground arith
pick_sound false true j g t b w x m h = ground arith
pick_sound false false true g t b w x m h = ground arith
pick_sound false false false true t b w x m h = ground arith
pick_sound false false false false true b w x m h = ground arith
pick_sound false false false false false true w x m h = ground arith
pick_sound false false false false false false w x m h = ground arith

pick_complete :
    (p n j g t b w : Bool) (x : ℕ) (m : Mime)
    → FirstBytes p n j g t b w x
    → test_of p n j g t b w x m ≡ true
    → pick p n j g t b w x ≡ some m
pick_complete p n j g t b w x pdf f h = rw h
pick_complete p n j g t b w x png f h = ground arith
pick_complete p n j g t b w x jpeg f h = ground arith
pick_complete p n j g t b w x gif f h = ground arith
pick_complete p n j g t b w x tiff f h = ground arith
pick_complete p n j g t b w x bmp f h = ground arith
pick_complete p n j g t b w x webp f h = ground arith

module _ (content : Bytes) where
  abbrev test : Mime → Bool
  test m = fits_any (signatures m) content

  first_bytes :
      FirstBytes
        (test pdf)
        (test png)
        (test jpeg)
        (test gif)
        (test tiff)
        (test bmp)
        (test webp)
        (first_byte content)
  first_bytes = (
    λ h. starts b'%' (some b'P' ∷ some b'D' ∷ some b'F' ∷ []) h,
    λ h. starts 0x89 (some b'P' ∷ some b'N' ∷ some b'G' ∷ []) h,
    λ h. starts 0xff (some 0xd8 ∷ some 0xff ∷ []) h,
    λ h. starts b'G' (some b'I' ∷ some b'F' ∷ []) h,
    λ h. ground (
      arith,
      fits-first_byte b'I' (exactly (b'I' ∷ b'*' ∷ 0 ∷ [])) content,
      fits-first_byte b'M' (exactly (b'M' ∷ 0 ∷ b'*' ∷ [])) content,
    ),
    λ h. starts b'B' (some b'M' ∷ []) h,
    λ h.
        starts b'R'
          (some b'I'
            ∷ some b'F'
            ∷ some b'F'
            ∷ none
            ∷ none
            ∷ none
            ∷ none
            ∷ exactly (b'W' ∷ b'E' ∷ b'B' ∷ b'P' ∷ []))
          h,
  )
    where
      starts :
          (b : ℕ) (ps : List (Option ℕ))
          → (fits (some b ∷ ps) content || false) ≡ true
          → first_byte content ≡ b
      starts b ps h = fits-first_byte b ps content (rw or_false at h)

  first_fit_sound : (m : Mime) → first_fit content ≡ some m → test m ≡ true
  first_fit_sound pdf h = pick_sound _ _ _ _ _ _ _ (first_byte content) pdf h
  first_fit_sound m h = pick_sound _ _ _ _ _ _ _ (first_byte content) m h

  first_fit_complete : (m : Mime) → test m ≡ true → first_fit content ≡ some m
  first_fit_complete pdf h = pick_complete _ _ _ _ _ _ _ (first_byte content) pdf first_bytes h
  first_fit_complete m h = pick_complete _ _ _ _ _ _ _ (first_byte content) m first_bytes h

-- `sniff` finds a type exactly if the content has one of its signatures, whatever the order in
-- which the source tries them.
pub sniff_iff :
    (content : Bytes) (m : Mime)
    → (sniff content ≡ some m) ↔ (fits_any (signatures m) content ≡ true)
sniff_iff content m = (
  λ e. first_fit_sound content m (rw (sniff-first_fit content) at e),
  λ h. rw (sniff-first_fit content) (first_fit_complete content m h),
)

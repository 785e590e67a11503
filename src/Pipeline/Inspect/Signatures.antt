-- ===== src/Pipeline/Inspect/Signatures.antt =====
-- The signatures of the types, by byte, and `sniff` as the first of them that fits
-- (src/ocr_engine/pipeline/inspect_file.py).
use ocr.Base.{ℕ, ◌≡◌, refl, Bool, true, false, ◌&&◌, ◌||◌, Option, none, some, List, [], ◌∷◌, arith}
use ocr.Base.Tests.{nat_beq, if◌then◌else◌}
use ocr.Base.Lists.{length, take, drop}
use ocr.Base.Text.{text_beq, starts_with}
use ocr.Pipeline.Inspect.{Bytes, Mime, pdf, png, jpeg, gif, tiff, bmp, webp, sniff}

-- A signature: the bytes at the front, where `none` stands for any byte.
abbrev pub fits : List (Option ℕ) → Bytes → Bool
fits [] content = true
fits (p ∷ ps) [] = false
fits (none ∷ ps) (c ∷ content) = fits ps content
fits (some b ∷ ps) (c ∷ content) = nat_beq c b && fits ps content

abbrev pub fits_any : List (List (Option ℕ)) → Bytes → Bool
fits_any [] content = false
fits_any (s ∷ ss) content = fits s content || fits_any ss content

abbrev pub exactly : Bytes → List (Option ℕ)
exactly [] = []
exactly (b ∷ bs) = some b ∷ exactly bs

abbrev pub signatures : Mime → List (List (Option ℕ))
signatures pdf = exactly (b'%' ∷ b'P' ∷ b'D' ∷ b'F' ∷ []) ∷ []
signatures png = exactly (0x89 ∷ b'P' ∷ b'N' ∷ b'G' ∷ []) ∷ []
signatures jpeg = exactly (0xff ∷ 0xd8 ∷ 0xff ∷ []) ∷ []
signatures gif = exactly (b'G' ∷ b'I' ∷ b'F' ∷ []) ∷ []
signatures tiff = exactly (b'I' ∷ b'I' ∷ b'*' ∷ 0 ∷ []) ∷ exactly (b'M' ∷ b'M' ∷ 0 ∷ b'*' ∷ []) ∷ []
signatures bmp = exactly (b'B' ∷ b'M' ∷ []) ∷ []
signatures webp =
    (some b'R'
      ∷ some b'I'
      ∷ some b'F'
      ∷ some b'F'
      ∷ none
      ∷ none
      ∷ none
      ∷ none
      ∷ exactly (b'W' ∷ b'E' ∷ b'B' ∷ b'P' ∷ []))
    ∷ []

starts_with-exactly : (content bs : Bytes) → starts_with content bs ≡ fits (exactly bs) content
starts_with-exactly [] [] = refl
starts_with-exactly (c ∷ content) [] = refl
starts_with-exactly [] (b ∷ bs) = refl
starts_with-exactly (c ∷ content) (b ∷ bs) = rw (starts_with-exactly content bs)

text_beq-take :
    (content bs : Bytes) → text_beq (take (length bs) content) bs ≡ fits (exactly bs) content
text_beq-take [] [] = refl
text_beq-take (c ∷ content) [] = refl
text_beq-take [] (b ∷ bs) = refl
text_beq-take (c ∷ content) (b ∷ bs) = rw (text_beq-take content bs)

-- The first byte, or a number that is no byte.
abbrev pub first_byte : Bytes → ℕ
first_byte [] = 256
first_byte (c ∷ content) = c

pub fits-first_byte :
    (b : ℕ) (ps : List (Option ℕ)) (content : Bytes)
    → fits (some b ∷ ps) content ≡ true
    → first_byte content ≡ b
fits-first_byte b ps [] h = cc
fits-first_byte b ps (c ∷ content) h = ground arith

webp_test :
    (content : Bytes)
    → (text_beq (take 4 content) (b'R' ∷ b'I' ∷ b'F' ∷ b'F' ∷ [])
        && text_beq (take 4 (drop 8 content)) (b'W' ∷ b'E' ∷ b'B' ∷ b'P' ∷ []))
      ≡ fits_any (signatures webp) content
webp_test (a ∷ b ∷ c ∷ d ∷ e ∷ f ∷ g ∷ h ∷ rest) =
    rw (text_beq-take rest (b'W' ∷ b'E' ∷ b'B' ∷ b'P' ∷ [])) (ground arith)
webp_test _ = ground arith

bmp_test :
    (content : Bytes)
    → (text_beq (take 4 content) (b'B' ∷ b'M' ∷ 0x8a ∷ 0 ∷ [])
        || text_beq (take 2 content) (b'B' ∷ b'M' ∷ []))
      ≡ fits_any (signatures bmp) content
bmp_test (a ∷ b ∷ rest) = ground arith
bmp_test _ = ground arith

pub or_false : (b : Bool) → (b || false) ≡ b
or_false true = refl
or_false false = refl

abbrev pub first_fit : Bytes → Option Mime
first_fit content =
    if fits_any (signatures pdf) content
    then some pdf
    else if fits_any (signatures png) content
    then some png
    else if fits_any (signatures jpeg) content
    then some jpeg
    else if fits_any (signatures gif) content
    then some gif
    else if fits_any (signatures tiff) content
    then some tiff
    else if fits_any (signatures bmp) content
    then some bmp
    else if fits_any (signatures webp) content
    then some webp
    else none

pub sniff-first_fit : (content : Bytes) → sniff content ≡ first_fit content
unfolding sniff
sniff-first_fit content =
    rw
      (
        webp_test content,
        bmp_test content,
        text_beq-take content (b'G' ∷ b'I' ∷ b'F' ∷ []),
        starts_with-exactly content (b'%' ∷ b'P' ∷ b'D' ∷ b'F' ∷ []),
        starts_with-exactly content (0x89 ∷ b'P' ∷ b'N' ∷ b'G' ∷ []),
        starts_with-exactly content (0xff ∷ 0xd8 ∷ 0xff ∷ []),
        starts_with-exactly content (b'I' ∷ b'I' ∷ b'*' ∷ 0 ∷ []),
        starts_with-exactly content (b'M' ∷ b'M' ∷ 0 ∷ b'*' ∷ []),
      )
      (simp or_false)

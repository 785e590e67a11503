-- ===== src/Pipeline/Inspect.antt =====
-- src/ocr_engine/pipeline/inspect_file.py. PyMuPDF and Pillow are the argument `Media`.
pub mod Signatures
pub mod Sniff
use ocr.Base.{
  ℕ, suc, ◌+◌, String, ◌<>◌, Bool, true, false, not, ◌&&◌, ◌||◌, Option, none, some, List, [], ◌∷◌,
  ◌++◌, max,
}
use ocr.Base.Tests.{ltb, leb, nat_beq, if◌then◌else◌}
use ocr.Base.Lists.{length, take, drop}
use ocr.Base.Int.{ℤ, pos, ltb_ℤ, leb_ℤ, pos_part}
use ocr.Base.Float.{Float, FloatOps, float_one}
use ocr.Base.Text.{Text, text_beq, starts_with, strip, replace_char}
use ocr.Settings.{Settings}
use ocr.Extraction.Schema.{Line}
use ocr.Pipeline.Outcome.{Outcome, ok, raise, ◌>>=◌, unsupported_file_type, resource_limit}

-- File contents, byte by byte.
abbrev pub Bytes : Type 0
Bytes = List ℕ

-- The strings that `sniff` returns.
pub data Mime : Type 0 where
  pdf png jpeg gif tiff bmp webp : Mime

abbrev pub pdf_magic : Bytes
pdf_magic = b'%' ∷ b'P' ∷ b'D' ∷ b'F' ∷ []

unfoldable pub sniff : Bytes → Option Mime
sniff content =
    if starts_with content pdf_magic
    then some pdf
    else if starts_with content (0x89 ∷ b'P' ∷ b'N' ∷ b'G' ∷ [])
    then some png
    else if starts_with content (0xff ∷ 0xd8 ∷ 0xff ∷ [])
    then some jpeg
    else if text_beq (take 3 content) (b'G' ∷ b'I' ∷ b'F' ∷ [])
    then some gif
    else if starts_with content (b'I' ∷ b'I' ∷ b'*' ∷ 0 ∷ [])
        || starts_with content (b'M' ∷ b'M' ∷ 0 ∷ b'*' ∷ [])
    then some tiff
    else if text_beq (take 4 content) (b'B' ∷ b'M' ∷ 0x8a ∷ 0 ∷ [])
        || text_beq (take 2 content) (b'B' ∷ b'M' ∷ [])
    then some bmp
    else if text_beq (take 4 content) (b'R' ∷ b'I' ∷ b'F' ∷ b'F' ∷ [])
        && text_beq (take 4 (drop 8 content)) (b'W' ∷ b'E' ∷ b'B' ∷ b'P' ∷ [])
    then some webp
    else none

-- A block of `page.get_text("blocks")`, and a page with its `get_text()`.
pub record Block : Type 0 where
  pub x0 : Float
  pub y0 : Float
  pub x1 : Float
  pub y1 : Float
  pub text : Text

pub record Page : Type 0 where
  pub text : Text
  pub blocks : List Block

pub record Media : Type 0 where
  pub floats : FloatOps
  -- `fitz.open(stream=content, filetype="pdf")`, which may raise.
  pub open_pdf : Bytes → Outcome (List Page)
  -- `page.get_pixmap(dpi=200).tobytes("png")`
  pub render : Page → Bytes
  -- The width and height of `Image.open(content)`, which may raise.
  pub image_size : Bytes → Outcome (ℕ × ℕ)
  -- The image, resized to a width and a height and saved as JPEG.
  pub resize_jpeg : Bytes → ℕ → ℕ → Bytes
  -- `str` of an int.
  pub str_int : ℤ → String

pub record Inspected : Type 0 where
  pub mime : Mime
  pub pages : ℕ

abbrev pub is_pdf : Mime → Bool
is_pdf pdf = true
is_pdf _ = false

-- `file_suffix`
abbrev pub file_suffix : Mime → String
file_suffix pdf = ".pdf"
file_suffix png = ".png"
file_suffix jpeg = ".jpg"
file_suffix _ = ""

abbrev pub or_unsupported : Option Mime → Outcome Mime
or_unsupported none =
    raise (unsupported_file_type "magic bytes do not match a supported image or PDF")
or_unsupported (some m) = ok m

module _ (media : Media) (settings : Settings) where
  check_pages : ℕ → Outcome ℕ
  check_pages pages =
      if ltb_ℤ settings.max_pages (pos pages)
      then raise (
          resource_limit (
            "PDF has "
            <> (media.str_int (pos pages)
                <> (" pages, limit is " <> media.str_int settings.max_pages))))
      else ok pages

  count_pages : Bytes → Mime → Outcome ℕ
  unfolding check_pages
  count_pages content pdf = media.open_pdf content >>= λ pages. check_pages (length pages)
  count_pages content _ = ok 1

  -- `page_count`
  abbrev pub page_count : Bytes → Outcome ℕ
  page_count content = media.open_pdf content >>= λ pages. ok (length pages)

  unfoldable pub inspect : Bytes → Outcome Inspected
  unfolding sniff count_pages
  inspect content = or_unsupported (sniff content) >>= λ mime.
      if ltb_ℤ settings.max_file_bytes (pos (length content))
      then raise (
          resource_limit
            ("file exceeds OCR_MAX_FILE_BYTES (" <> (media.str_int settings.max_file_bytes <> ")")))
      else (count_pages content mime >>= λ pages. ok (record { mime = mime; pages = pages }))

  -- `max(1, int(side * scale))`, where `scale` is `max_image_dim / largest`.
  scaled : ℕ → ℕ → ℕ
  scaled largest side = max 1 (
      pos_part (
        media.floats.trunc (
          media.floats.mul (media.floats.of_int (pos side)) (
            media.floats.div (media.floats.of_int settings.max_image_dim)
              (media.floats.of_int (pos largest))))))

  unfoldable pub downscale_if_needed : Bytes → Outcome Bytes
  unfolding scaled
  downscale_if_needed content = media.image_size content >>= λ (width, height).
      let largest = max width height in
      if leb_ℤ (pos largest) settings.max_image_dim
      then ok content
      else ok (media.resize_jpeg content (scaled largest width) (scaled largest height))

  downscale_each : List Page → Outcome (List Bytes)
  unfolding downscale_if_needed
  downscale_each [] = ok []
  downscale_each (page ∷ pages) = downscale_if_needed (media.render page) >>= λ image.
      downscale_each pages >>= λ images. ok (image ∷ images)

  unfoldable pub pdf_page_images : Bytes → Outcome (List Bytes)
  unfolding downscale_each
  pdf_page_images content = media.open_pdf content >>= downscale_each

  abbrev is_blank : Text → Bool
  is_blank [] = true
  is_blank (c ∷ t) = false

  block_line : ℕ → Block → Text → Line
  block_line page b t = record {
    text = replace_char 10 32 t;
    score = float_one;
    bbox = record {
      x1 = media.floats.trunc b.x0;
      y1 = media.floats.trunc b.y0;
      x2 = media.floats.trunc b.x1;
      y2 = media.floats.trunc b.y1;
    };
    page = page;
  }

  block_lines : ℕ → List Block → List Line
  unfolding block_line
  block_lines page [] = []
  block_lines page (b ∷ blocks) =
      let t = strip b.text in
      let rest = block_lines page blocks in if is_blank t then rest else block_line page b t ∷ rest

  -- The loop over the pages; a page with no text ends it with `None`.
  page_lines : ℕ → List Page → Option (List Line)
  unfolding block_lines
  page_lines n [] = some []
  page_lines n (page ∷ pages) =
      let rest = page_lines (suc n) pages in
      if is_blank (strip page.text)
      then none
      else elim rest [ none ↦ none | some ls ↦ some (block_lines n page.blocks ++ ls) ]

  -- `lines or None`
  abbrev or_none : Option (List Line) → Option (List Line)
  or_none none = none
  or_none (some []) = none
  or_none (some (l ∷ ls)) = some (l ∷ ls)

  unfoldable pub digitalborn_lines : Bytes → Outcome (Option (List Line))
  unfolding page_lines
  digitalborn_lines content =
      if not (starts_with content pdf_magic)
      then ok none
      else (media.open_pdf content >>= λ pages. ok (or_none (page_lines 1 pages)))

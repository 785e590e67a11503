-- ===== src/Api/Validation.antt =====
-- `_validate_submit` (src/ocr_engine/api/servicer.py): the order of its checks is part of the
-- contract.
pub mod Order
use ocr.Base.{
  ℕ, zero, suc, String, ◌<>◌, Bool, true, false, not, ◌&&◌, ◌||◌, Option, none, some, List, [], ◌∷◌,
}
use ocr.Base.Tests.{nat_beq, ◌==◌, string_eq, if◌then◌else◌}
use ocr.Base.Lists.{contains}
use ocr.Base.Int.{ℤ, pos, ltb_ℤ, leb_ℤ}
use ocr.Base.Text.{Text, codes, between}
use ocr.Base.PosixPath.{has_parent_part, is_absolute}
use ocr.Settings.{Settings}
use ocr.Extraction.Schema.{Schemas, get_schema}
use ocr.Pipeline.Download.{Storage}
use ocr.Api.Request.{FileSource, SubmitDocumentRequest}

-- `[0-9a-f]`, whatever the case.
abbrev is_hex : ℕ → Bool
is_hex c = between b'0' b'9' c || (between b'a' b'f' c || between b'A' b'F' c)

abbrev is_dash : ℕ → Bool
is_dash c = nat_beq c b'-'

-- The rest of a text after `n` hexadecimal digits.
abbrev after_hex : ℕ → Text → Option Text
after_hex zero t = some t
after_hex (suc n) [] = none
after_hex (suc n) (c ∷ t) = if is_hex c then after_hex n t else none

abbrev after_dash : Option Text → Option Text
after_dash none = none
after_dash (some []) = none
after_dash (some (c ∷ t)) = if is_dash c then some t else none

abbrev then_hex : ℕ → Option Text → Option Text
then_hex n none = none
then_hex n (some t) = after_hex n t

-- `$` also matches before a newline that ends the text.
abbrev at_end : Option Text → Bool
at_end (some []) = true
at_end (some (c ∷ [])) = nat_beq c 10
at_end _ = false

-- `_UUID_RE.match`
unfoldable pub is_uuid : Text → Bool
is_uuid t = at_end (
    then_hex 12 (
      after_dash (
        then_hex 4
          (after_dash (then_hex 4 (after_dash (then_hex 4 (after_dash (after_hex 8 t)))))))))

-- `ALLOWED_MIMES`
abbrev pub allowed_mimes : List String
allowed_mimes =
    "image/jpeg" ∷ "image/png" ∷ "image/gif" ∷ "image/tiff" ∷ "image/bmp" ∷ "image/webp"
    ∷ "application/pdf" ∷ []

-- `in ALLOWED_MIMES`
unfoldable pub is_allowed_mime : String → Bool
is_allowed_mime = contains allowed_mimes

abbrev pub has_schema : {A : Type 0} → Option A → Bool
has_schema none = false
has_schema (some _) = true

module _ (storage : Storage) (settings : Settings) (schemas : Schemas) where
  -- The checks from the source on. `none` is a request that passes, and `some` the text of
  -- `_Invalid`.
  unfoldable pub validate_source : FileSource → Option String
  unfolding is_allowed_mime
  validate_source source =
      if source.bucket == "" || source.storage_path == ""
      then some "source.bucket and source.storage_path are required"
      else if not (contains settings.allowed_buckets source.bucket)
      then some ("bucket " <> (storage.repr source.bucket <> " is not in the allowlist"))
      else if has_parent_part (codes source.storage_path) || is_absolute (codes source.storage_path)
      then some ("invalid storage_path " <> storage.repr source.storage_path)
      else if leb_ℤ source.size_bytes (pos 0) || ltb_ℤ settings.max_file_bytes source.size_bytes
      then some ("size_bytes out of range (1.." <> (storage.str_int settings.max_file_bytes <> ")"))
      else if not (source.declared_mime == "") && not (is_allowed_mime source.declared_mime)
      then some ("unsupported declared_mime " <> storage.repr source.declared_mime)
      else none

  unfoldable pub validate_submit : SubmitDocumentRequest → Option String
  unfolding is_uuid validate_source
  validate_submit request =
      if not (is_uuid (codes request.idempotency_key))
      then some "idempotency_key must be a UUID"
      else if request.external_ref == ""
      then some "external_ref must not be empty"
      else if not (has_schema (get_schema schemas request.schema_id))
      then some ("unknown schema_id " <> storage.repr request.schema_id)
      else if request.caller_id == ""
      then some "caller_id must not be empty"
      else validate_source request.source

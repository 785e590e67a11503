-- ===== src/Api/Validation/Order.antt =====
-- What `_validate_submit` (src/ocr_engine/api/servicer.py) accepts, and how that fits the pipeline.
use ocr.Base.{
  ◌≡◌, refl, sym, ◌≢◌, ◌↔◌, String, Bool, true, false, not, ◌&&◌, ◌||◌, Option, none, some, arith,
  eq_iff,
}
use ocr.Base.Tests.{◌==◌, string_eq, if◌then◌else◌}
use ocr.Base.Lists.{contains}
use ocr.Base.Int.{ℤ, pos, ltb_ℤ, leb_ℤ, ◌≤ℤ◌}
use ocr.Base.Text.{codes}
use ocr.Base.PosixPath.{has_parent_part, is_absolute}
use ocr.Settings.{Settings}
use ocr.Extraction.Schema.{Schemas, get_schema}
use ocr.Pipeline.Outcome.{ok}
use ocr.Pipeline.Download.{Storage, validate_ref}
use ocr.Api.Request.{FileSource, SubmitDocumentRequest}
use ocr.Api.Validation.{is_uuid, is_allowed_mime, validate_source, validate_submit, has_schema}

-- A check that raises if a test holds, before the others.
guard-none :
    (b : Bool) (message : String) (rest : Option String)
    → (if b then some message else rest) ≡ none
    → (b ≡ false) × (rest ≡ none)
guard-none true message rest h = ground arith
guard-none false message rest h = (refl, h)

not-false : (b : Bool) → not b ≡ false → b ≡ true
not-false true h = refl
not-false false h = sym h

or-false : (a b : Bool) → (a || b) ≡ false → (a ≡ false) × (b ≡ false)
or-false true b h = ground arith
or-false false b h = (refl, h)

filled : (t : String) → (t == "") ≡ false → t ≢ ""
filled t h e = ground (arith, eq_iff t "")

filled_back : (t : String) → t ≢ "" → (t == "") ≡ false
filled_back t h = ground (arith, eq_iff t "")

module _ (storage : Storage) (settings : Settings) (schemas : Schemas) where
  abbrev pub IsAcceptableSource : FileSource → Type 0
  IsAcceptableSource f =
      ((f.bucket ≢ "") × (f.storage_path ≢ ""))
      × (contains settings.allowed_buckets f.bucket ≡ true)
      × ((has_parent_part (codes f.storage_path) ≡ false)
          × (is_absolute (codes f.storage_path) ≡ false))
      × ((pos 1 ≤ℤ f.size_bytes) × (f.size_bytes ≤ℤ settings.max_file_bytes))
      × (f.declared_mime ≢ "" → is_allowed_mime f.declared_mime ≡ true)

  -- The contract, clause by clause.
  abbrev pub IsAcceptable : SubmitDocumentRequest → Type 0
  IsAcceptable r =
      (is_uuid (codes r.idempotency_key) ≡ true)
      × (r.external_ref ≢ "")
      × (has_schema (get_schema schemas r.schema_id) ≡ true)
      × (r.caller_id ≢ "")
      × IsAcceptableSource r.source

  size_in_range : (n m : ℤ) → ((leb_ℤ n (pos 0) || ltb_ℤ m n) ≡ false) ↔ ((pos 1 ≤ℤ n) × (n ≤ℤ m))
  size_in_range n m = ground arith

  mime_passes :
      (t : String)
      → ((not (t == "") && not (is_allowed_mime t)) ≡ false) ↔ (t ≢ "" → is_allowed_mime t ≡ true)
  mime_passes t = ground (arith, eq_iff t "")

  validate_source_sound :
      (f : FileSource) → validate_source storage settings schemas f ≡ none → IsAcceptableSource f
  unfolding validate_source
  validate_source_sound f h =
      let (e1, h1) = guard-none _ _ _ h in
      let (e2, h2) = guard-none _ _ _ h1 in
      let (e3, h3) = guard-none _ _ _ h2 in
      let (e4, h4) = guard-none _ _ _ h3 in
      let (e5, h5) = guard-none _ _ _ h4 in
      let (bucket, path) = or-false _ _ e1 in
      (
        (filled f.bucket bucket, filled f.storage_path path),
        not-false _ e2,
        or-false _ _ e3,
        (size_in_range f.size_bytes settings.max_file_bytes).0 e4,
        (mime_passes f.declared_mime).0 e5,
      )

  validate_source_complete :
      (f : FileSource) → IsAcceptableSource f → validate_source storage settings schemas f ≡ none
  unfolding validate_source
  validate_source_complete f ((bucket, path), listed, (parent, absolute), size, mime) =
      rw
        (
          filled_back f.bucket bucket,
          filled_back f.storage_path path,
          listed,
          parent,
          absolute,
          (size_in_range f.size_bytes settings.max_file_bytes).1 size,
          (mime_passes f.declared_mime).1 mime,
        )
        refl

  validate_submit_sound :
      (r : SubmitDocumentRequest)
      → validate_submit storage settings schemas r ≡ none
      → IsAcceptable r
  unfolding validate_submit
  validate_submit_sound r h =
      let (e1, h1) = guard-none _ _ _ h in
      let (e2, h2) = guard-none _ _ _ h1 in
      let (e3, h3) = guard-none _ _ _ h2 in
      let (e4, h4) = guard-none _ _ _ h3 in
      (
        not-false _ e1,
        filled r.external_ref e2,
        not-false _ e3,
        filled r.caller_id e4,
        validate_source_sound r.source h4,
      )

  -- A request passes exactly if it meets every clause of the contract.
  pub validate_submit_iff :
      (r : SubmitDocumentRequest)
      → (validate_submit storage settings schemas r ≡ none) ↔ IsAcceptable r
  unfolding validate_submit
  validate_submit_iff r = (
    validate_submit_sound r,
    λ (key, ref, schema, caller, source).
        rw
          (
            key,
            filled_back r.external_ref ref,
            schema,
            filled_back r.caller_id caller,
            validate_source_complete r.source source,
          )
          refl,
  )

  -- What passes here is never refused by the pipeline's own check of the storage reference.
  pub validate_submit-validate_ref :
      (r : SubmitDocumentRequest)
      → validate_submit storage settings schemas r ≡ none
      → validate_ref storage settings r.source.bucket r.source.storage_path ≡ ok tt
  unfolding validate_ref
  validate_submit-validate_ref r h =
      let (_, _, _, _, ((_, path), listed, (parent, absolute), _, _)) = validate_submit_sound r h in
      rw (listed, filled_back r.source.storage_path path, parent, absolute) refl

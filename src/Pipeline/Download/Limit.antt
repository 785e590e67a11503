-- ===== src/Pipeline/Download/Limit.antt =====
-- The size cap of the download loop (src/ocr_engine/pipeline/download.py).
use ocr.Base.{
  ℕ, ◌+◌, ◌≡◌, ◌⊎◌, refl, ◌∙◌, ap, inl, inr, String, ◌<>◌, Bool, true, false, ◌||◌, List, [], ◌∷◌,
  none, ◌-◌, ◌++◌, arith,
}
use mathlib.Core.List.{append-nil, append_assoc}
use native.Mathlib.Nat.{add_assoc, zero-add}
use ocr.Base.Tests.{◌==◌, string_eq, if◌then◌else◌, Bool-cases}
use ocr.Base.Lists.{length, contains, length-append}
use ocr.Base.Text.{codes}
use ocr.Base.PosixPath.{has_parent_part, is_absolute}
use ocr.Base.Int.{pos, ltb_ℤ, ◌≤ℤ◌}
use ocr.Settings.{Settings}
use ocr.Pipeline.Inspect.{Bytes}
use ocr.Pipeline.Outcome.{ok, raise, value_error}
use ocr.Pipeline.Download.{
  unlink_quiet, ClientKwargs, client_kwargs, Storage, Fetched, body, too_large, read_chunks,
  write_file, fetch, after_check, validate_ref, download_to_temp,
}

-- What the stream holds up to its end.
abbrev pub contents : List Bytes → Bytes
contents [] = []
contents ([] ∷ rest) = []
contents ((c ∷ chunk) ∷ rest) = (c ∷ chunk) ++ contents rest

module _ (storage : Storage) (settings : Settings) where
  -- From a count within the limit, the loop returns all that was written and is left to read, or
  -- raises as the count passes the limit.
  read_chunks_lem :
      (chunks : List Bytes) (n : ℕ) (written : Bytes)
      → pos n ≤ℤ settings.max_file_bytes
      → read_chunks storage settings chunks none n written ≡ (
          if ltb_ℤ settings.max_file_bytes (pos (n + length (contents chunks)))
          then raise (too_large storage settings)
          else ok (written ++ contents chunks))
  unfolding read_chunks
  read_chunks_lem [] n written h = rw (append-nil written) (ground arith)
  read_chunks_lem ([] ∷ rest) n written h = rw (append-nil written) (ground arith)
  read_chunks_lem ((c ∷ chunk) ∷ rest) n written h =
      let total : ℕ = n + length (c ∷ chunk) in
      elim (Bool-cases (ltb_ℤ settings.max_file_bytes (pos total))) [
        | inl over ↦ rw over (ground (arith, length-append (c ∷ chunk) (contents rest)))
        | inr within ↦
            rw (within, read_chunks_lem rest total (written ++ (c ∷ chunk)) (ground arith))
              (rw
                (
                  append_assoc written (c ∷ chunk) (contents rest),
                  length-append (c ∷ chunk) (contents rest),
                )
                (rw (add_assoc n (length (c ∷ chunk)) (length (contents rest)))))
      ]

  -- A reference that passes the check and names an object whose body is read to its end: the file
  -- holds all of it if it is within the limit; else the call raises, and leaves no file unless
  -- `unlink` fails. Neither the reads nor the exit of the client raise.
  pub download_to_temp_lem :
      (bucket path : String) (chunks : List Bytes)
      → pos 0 ≤ℤ settings.max_file_bytes
      → validate_ref storage settings bucket path ≡ ok tt
      → storage.get_object (client_kwargs settings) bucket path ≡ body chunks none none
      → download_to_temp storage settings bucket path ≡ (
          if ltb_ℤ settings.max_file_bytes (pos (length (contents chunks)))
          then record {
            result = raise (too_large storage settings);
            left_files = 1 - unlink_quiet storage.unlink_fails;
          }
          else record { result = ok (contents chunks); left_files = 1 })
  unfolding download_to_temp after_check fetch write_file
  download_to_temp_lem bucket path chunks h valid found =
      ap (after_check storage settings bucket path) valid
      ∙ ap (fetch storage settings bucket path) found
      ∙ ap (λ o. write_file storage settings o none)
          (rw zero-add at (read_chunks_lem chunks 0 [] h))
      ∙ written (ltb_ℤ settings.max_file_bytes (pos (length (contents chunks))))
    where
      written :
          (over : Bool)
          → write_file storage settings
              (if over then raise (too_large storage settings) else ok (contents chunks))
              none
            ≡ (if over
                then record {
                  result = raise (too_large storage settings);
                  left_files = 1 - unlink_quiet storage.unlink_fails;
                }
                else record { result = ok (contents chunks); left_files = 1 })
      written true = refl
      written false = refl

  -- No request is made for a bucket outside the allowlist, nor for a path that is empty, absolute
  -- or has a `..` component: the call raises a `ValueError`, whatever the storage would answer.
  pub download_to_temp_refuses :
      (bucket path : String) (answer : ClientKwargs → String → String → Fetched)
      → (contains settings.allowed_buckets bucket ≡ false)
        ⊎ ((path == "" || (has_parent_part (codes path) || is_absolute (codes path))) ≡ true)
      → (message : String) × (download_to_temp
            (record storage { get_object = answer })
            settings
            bucket
            path
          ≡ record { result = raise (value_error message); left_files = 0 })
  unfolding download_to_temp validate_ref after_check
  download_to_temp_refuses bucket path answer bad =
      elim (Bool-cases (contains settings.allowed_buckets bucket)) [
        | inr out ↦ ("bucket " <> (storage.repr bucket <> " is not in the allowlist"), rw out)
        | inl listed ↦ ("invalid storage path " <> storage.repr path, ground arith)
      ]

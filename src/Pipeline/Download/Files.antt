-- ===== src/Pipeline/Download/Files.antt =====
-- Which temporary files a download (src/ocr_engine/pipeline/download.py) leaves.
use ocr.Base.{◌≡◌, refl, String, false, Option, none, some, []}
use ocr.Settings.{Settings}
use ocr.Pipeline.Inspect.{Bytes}
use ocr.Pipeline.Outcome.{Exception, Outcome, ok, raise}
use ocr.Pipeline.Download.{
  Storage, Fetched, no_such_key, fails, body, client_kwargs, cleanup_temp, write_file, fetch,
  after_check, validate_ref, download_to_temp,
}

-- The exit of the client raises nothing.
abbrev pub Exits : Fetched → Type 0
Exits (body chunks fault (some e)) = ⊥
Exits _ = Unit

module _ (storage : Storage) (settings : Settings) where
  write_file-left :
      (o : Outcome Bytes) (exit : Option Exception)
      → Exits (body [] none exit)
      → storage.unlink_fails ≡ false
      → let file = write_file storage settings o exit in
        file.left_files ≡ cleanup_temp storage.unlink_fails file.result
  unfolding write_file
  write_file-left (ok content) none exits deletes = rw deletes refl
  write_file-left (raise e) none exits deletes = rw deletes refl
  write_file-left o (some e) exits deletes = absurd exits

  fetch-left :
      (bucket path : String) (f : Fetched)
      → Exits f
      → storage.unlink_fails ≡ false
      → let file = fetch storage settings bucket path f in
        file.left_files ≡ cleanup_temp storage.unlink_fails file.result
  unfolding fetch
  fetch-left bucket path no_such_key exits deletes = refl
  fetch-left bucket path (fails e) exits deletes = refl
  fetch-left bucket path (body chunks fault none) exits deletes = write_file-left _ none tt deletes
  fetch-left bucket path (body chunks fault (some e)) exits deletes = absurd exits

  after_check-left :
      (bucket path : String) (o : Outcome Unit)
      → Exits (storage.get_object (client_kwargs settings) bucket path)
      → storage.unlink_fails ≡ false
      → let file = after_check storage settings bucket path o in
        file.left_files ≡ cleanup_temp storage.unlink_fails file.result
  unfolding after_check
  after_check-left bucket path (raise e) exits deletes = refl
  after_check-left bucket path (ok u) exits deletes = fetch-left bucket path _ exits deletes

  -- A download whose client exits, and whose files can be deleted, leaves the file that it returns,
  -- and no other.
  pub download_to_temp-left :
      (bucket path : String)
      → Exits (storage.get_object (client_kwargs settings) bucket path)
      → storage.unlink_fails ≡ false
      → let file = download_to_temp storage settings bucket path in
        file.left_files ≡ cleanup_temp storage.unlink_fails file.result
  unfolding download_to_temp
  download_to_temp-left bucket path exits deletes =
      after_check-left bucket path (validate_ref storage settings bucket path) exits deletes

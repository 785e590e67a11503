-- ===== src/Pipeline/Download.antt =====
-- src/ocr_engine/pipeline/download.py. Object storage is an argument. A temporary file is its
-- contents; how many there are on disk is counted.
pub mod Limit
pub mod Files
use ocr.Base.{
  ℕ, ◌+◌, ◌-◌, String, ◌<>◌, Bool, true, false, not, ◌&&◌, ◌||◌, Option, none, some, List, [], ◌∷◌,
  ◌++◌,
}
use ocr.Base.Tests.{◌==◌, string_eq, if◌then◌else◌}
use ocr.Base.Lists.{length, contains}
use ocr.Base.Int.{ℤ, pos, ltb_ℤ}
use ocr.Base.Text.{codes}
use ocr.Base.PosixPath.{has_parent_part, is_absolute}
use ocr.Settings.{Settings}
use ocr.Pipeline.Inspect.{Bytes}
use ocr.Pipeline.Outcome.{Exception, Outcome, ok, raise, ◌>>=◌, value_error, storage_object_missing}

-- What `get_object` does: `NoSuchKey`, another exception, or a body that is read in chunks, with what
-- the read after the last of them, or the file, raises, if anything, and what the exit of the
-- client raises, if anything.
pub data Fetched : Type 0 where
  no_such_key : Fetched
  fails : Exception → Fetched
  body : List Bytes → Option Exception → Option Exception → Fetched

-- The arguments of the S3 client: a region, and an endpoint and a pair of keys where they are given.
pub record ClientKwargs : Type 0 where
  pub region_name : String
  pub endpoint_url : Option String
  pub aws_keys : Option (String × String)

-- A text that may be absent; the empty one counts as absent.
abbrev given : Option String → Option String
given none = none
given (some t) = if t == "" then none else some t

abbrev both : Option String → Option String → Option (String × String)
both (some key) (some secret) = some (key, secret)
both _ _ = none

-- `_client_kwargs`
abbrev pub client_kwargs : Settings → ClientKwargs
client_kwargs s = record {
  region_name = s.storage_region;
  endpoint_url = given s.storage_endpoint_url;
  aws_keys = both (given s.storage_access_key_id) (given s.storage_secret_access_key);
}

pub record Storage : Type 0 where
  -- `get_object` of a client, by its arguments, of a bucket and a path.
  pub get_object : ClientKwargs → String → String → Fetched
  -- `path.unlink` raises an `OSError`.
  pub unlink_fails : Bool
  -- `repr` of a text, and `str` of an int.
  pub repr : String → String
  pub str_int : ℤ → String

-- A file on disk after a download, and how many temporary files the call has left there.
pub record Downloaded : Type 0 where
  pub result : Outcome Bytes
  pub left_files : ℕ

-- How many files `_unlink_quiet` deletes, which suppresses an `OSError`.
abbrev pub unlink_quiet : Bool → ℕ
unlink_quiet unlink_fails = if unlink_fails then 0 else 1

-- How many files `cleanup_temp` deletes; the path is `None` unless the download returned it.
abbrev pub cleanup_temp : Bool → Outcome Bytes → ℕ
cleanup_temp unlink_fails (ok content) = unlink_quiet unlink_fails
cleanup_temp unlink_fails (raise e) = 0

module _ (storage : Storage) (settings : Settings) where
  -- `_validate_ref`
  unfoldable pub validate_ref : String → String → Outcome (Unit {0})
  validate_ref bucket path =
      if not (contains settings.allowed_buckets bucket)
      then raise (value_error ("bucket " <> (storage.repr bucket <> " is not in the allowlist")))
      else if path == "" || (has_parent_part (codes path) || is_absolute (codes path))
      then raise (value_error ("invalid storage path " <> storage.repr path))
      else ok tt

  abbrev pub too_large : Exception
  too_large =
      value_error
        ("object exceeds OCR_MAX_FILE_BYTES (" <> (storage.str_int settings.max_file_bytes <> ")"))

  -- The loop over the chunks, with what is raised after them; an empty chunk is the end of the
  -- stream.
  unfoldable pub read_chunks : List Bytes → Option Exception → ℕ → Bytes → Outcome Bytes
  read_chunks [] none downloaded written = ok written
  read_chunks [] (some e) downloaded written = raise e
  read_chunks ([] ∷ rest) fault downloaded written = ok written
  read_chunks ((c ∷ chunk) ∷ rest) fault downloaded written =
      let total = downloaded + length (c ∷ chunk) in
      let more = read_chunks rest fault total (written ++ (c ∷ chunk)) in
      if ltb_ℤ settings.max_file_bytes (pos total) then raise too_large else more

  -- The file is created before the loop, and the handler of the loop deletes it; an exception of
  -- the client's exit takes the place of the path or of the exception.
  write_file : Outcome Bytes → Option Exception → Downloaded
  write_file (ok content) none = record { result = ok content; left_files = 1 }
  write_file (ok content) (some e) = record { result = raise e; left_files = 1 }
  write_file (raise e) none = record {
    result = raise e;
    left_files = 1 - unlink_quiet storage.unlink_fails;
  }
  write_file (raise e) (some e') = record {
    result = raise e';
    left_files = 1 - unlink_quiet storage.unlink_fails;
  }

  fetch : String → String → Fetched → Downloaded
  unfolding read_chunks write_file
  fetch bucket path no_such_key = record {
    result = raise (storage_object_missing (bucket <> ("/" <> path)));
    left_files = 0;
  }
  fetch bucket path (fails e) = record { result = raise e; left_files = 0 }
  fetch bucket path (body chunks fault exit) = write_file (read_chunks chunks fault 0 []) exit

  after_check : String → String → Outcome (Unit {0}) → Downloaded
  unfolding fetch
  after_check bucket path (raise e) = record { result = raise e; left_files = 0 }
  after_check bucket path (ok _) =
      fetch bucket path (storage.get_object (client_kwargs settings) bucket path)

  unfoldable pub download_to_temp : String → String → Downloaded
  unfolding validate_ref after_check
  download_to_temp bucket path = after_check bucket path (validate_ref bucket path)

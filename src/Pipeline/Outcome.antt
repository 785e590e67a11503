-- ===== src/Pipeline/Outcome.antt =====
-- The exceptions that meet in src/ocr_engine/pipeline/pipeline.py and src/ocr_engine/ocr/baidu.py,
-- and code that may raise one.
pub mod Holds
use ocr.Base.{String}

pub data Exception : Type 0 where
  document_failed : String → String → Exception
  storage_object_missing : String → Exception
  value_error : String → Exception
  unsupported_file_type : String → Exception
  resource_limit : String → Exception
  provider_permanent : String → Exception
  provider_transient : String → Exception
  transient_job : String → Exception
  -- `httpx.HTTPError` and `TimeoutError`
  http_error : String → Exception
  timeout_error : String → Exception
  -- Any other subclass of `Exception`, with its text.
  other : String → Exception

pub data Outcome (A : Type 0) : Type 0 where
  ok : A → Outcome A
  raise : Exception → Outcome A

infixl 5 ◌>>=◌
abbrev pub ◌>>=◌ : {A B : Type 0} → Outcome A → (A → Outcome B) → Outcome B
ok a >>= f = f a
raise e >>= f = raise e

-- `try: m except …: raise …`, with the handler by cases on the exception.
abbrev pub on_raise : {A : Type 0} → Outcome A → (Exception → Exception) → Outcome A
on_raise (ok a) h = ok a
on_raise (raise e) h = raise (h e)

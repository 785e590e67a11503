-- ===== src/Ocr/Baidu/Requests.antt =====
-- The requests that `BaiduProvider` (src/ocr_engine/ocr/baidu.py) sends, and the client and the
-- clock that it has.
use ocr.Base.{
  ℕ, ◌+◌, ◌*◌, ◌-◌, ◌/◌, String, Bool, true, false, Option, none, some, List, [], ◌∷◌, ◌++◌,
}
use ocr.Base.Tests.{leb, if◌then◌else◌}
use ocr.Base.Float.{Float}
use ocr.Base.Text.{Text, codes}
use ocr.Settings.{Settings}
use ocr.Pipeline.Outcome.{Outcome, ok, raise, ◌>>=◌, other}
use ocr.Pipeline.Inspect.{Bytes, Mime, is_pdf}
use ocr.Ocr.Json.{Json}
use ocr.Ocr.Baidu.{Response}

-- The four requests, with what of each the code sets.
pub data Request : Type 0 where
  -- url, file, fileType, useDocOrientationClassify, useDocUnwarping, visualize, headers, timeout
  post_layout :
      Option String → Text → ℕ → Bool → Bool → Bool → List (String × Text) → Float → Request
  -- url, content, mime, model, optionalPayload, Authorization
  post_job : Text → Bytes → Mime → Text → Text → Text → Request
  -- url, Authorization
  get_job : Text → Text → Request
  get_result : Json → Request

-- What one call of `extract_lines` draws from outside: how its n-th request ends, and the n-th
-- reading of the loop's clock, in microseconds.
pub record Client : Type 0 where
  pub send : ℕ → Request → Outcome Response
  pub time : ℕ → ℕ

-- The 64 digits of base64.
abbrev base64_digit : ℕ → ℕ
base64_digit n =
    if leb n 25
    then n + 65
    else if leb n 51
    then n + 71
    else if leb n 61
    then n - 4
    else if leb n 62
    then 43
    else 47

abbrev modulo : ℕ → ℕ → ℕ
modulo a b = a - a / b * b

-- `base64.b64encode`, as a text.
abbrev pub b64encode : Bytes → Text
b64encode [] = []
b64encode (a ∷ []) = base64_digit (a / 4) ∷ base64_digit (modulo a 4 * 16) ∷ 61 ∷ 61 ∷ []
b64encode (a ∷ b ∷ []) =
    base64_digit (a / 4)
    ∷ base64_digit (modulo a 4 * 16 + b / 16)
    ∷ base64_digit (modulo b 16 * 4)
    ∷ 61
    ∷ []
b64encode (a ∷ b ∷ c ∷ rest) =
    base64_digit (a / 4)
    ∷ base64_digit (modulo a 4 * 16 + b / 16)
    ∷ base64_digit (modulo b 16 * 4 + c / 64)
    ∷ base64_digit (modulo c 64)
    ∷ b64encode rest

abbrev pub secret_of : Option String → Outcome Text
secret_of (some t) = ok (codes t)
secret_of none = raise (other "'NoneType' object has no attribute 'get_secret_value'")

module _ (s : Settings) where
  -- `self._settings.baidu_token.get_secret_value()`
  abbrev pub secret : Outcome Text
  secret = secret_of s.baidu_token

  abbrev pub bearer : Outcome Text
  bearer = secret >>= λ t. ok (codes "Bearer " ++ t)

  -- `_sync_headers`
  abbrev pub sync_headers : Outcome (List (String × Text))
  sync_headers = secret >>= λ t.
      ok (("Authorization", codes "token " ++ t) ∷ ("Content-Type", codes "application/json") ∷ [])

  -- The request of `_extract_sync`.
  abbrev pub layout_request : Bytes → Mime → Outcome Request
  layout_request content mime = sync_headers >>= λ headers. ok (
      post_layout s.baidu_api_url (b64encode content) (if is_pdf mime then 0 else 1) s.baidu_unwarp
        s.baidu_unwarp false headers s.baidu_timeout)

  abbrev jobs_url : Text
  jobs_url = codes s.baidu_async_url ++ codes "/api/v2/ocr/jobs"

  abbrev optional_payload : Bool → String
  optional_payload true = "{\"useDocOrientationClassify\": true, \"useDocUnwarping\": true}"
  optional_payload false = "{\"useDocOrientationClassify\": false, \"useDocUnwarping\": false}"

  -- The request of `_submit_async_job`.
  abbrev pub job_request : Bytes → Mime → Outcome Request
  job_request content mime = bearer >>= λ authorization. ok (
      post_job jobs_url content mime (codes "PP-StructureV3")
        (codes (optional_payload s.baidu_unwarp)) authorization)

  -- The request of every round of `_poll_async_job`.
  abbrev pub poll_request : Text → Outcome Request
  poll_request job_id =
      bearer >>= λ authorization. ok (get_job (jobs_url ++ (codes "/" ++ job_id)) authorization)

-- ===== src/Ocr/Baidu/Jobs.antt =====
-- The asynchronous surface of `BaiduProvider` (src/ocr_engine/ocr/baidu.py): `_submit_async_job`,
-- `_poll_async_job` and `_extract_async`.
pub mod Polling
use ocr.Base.{
  ℕ, zero, suc, ◌+◌, ◌/◌, String, ◌<>◌, Bool, true, false, not, ◌||◌, ◌&&◌, Option, none, some,
  List, [], ◌∷◌,
}
use ocr.Base.Tests.{nat_beq, nat_eq, leb, ltb, if◌then◌else◌}
use ocr.Base.Lists.{contains}
use ocr.Base.Int.{ℤ, pos}
use ocr.Base.Float.{Float, float_one}
use ocr.Base.Text.{Text, codes, text_beq, strip, first_line}
use ocr.Settings.{Settings}
use ocr.Pipeline.Outcome.{
  Outcome, ok, raise, ◌>>=◌, provider_transient, provider_permanent, http_error, other,
}
use ocr.Pipeline.Inspect.{Bytes, Mime}
use ocr.Ocr.Json.{
  Json, nil, boolean, whole, real, string, array, object, get, item, or_value, empty_object,
  is_minus_zero,
}
use ocr.Ocr.Baidu.{Conversions, Response, str_of}
use ocr.Ocr.Baidu.Requests.{Client, get_result, job_request, poll_request}

-- `x == 0`
abbrev pub is_zero : Json → Bool
is_zero (boolean b) = not b
is_zero (whole (pos n)) = nat_beq n 0
is_zero (real x) = nat_beq x.bits 0 || is_minus_zero x
is_zero x = false

-- `BAIDU_ASYNC_ERROR_PERMANENT`
abbrev pub baidu_async_error_permanent : List ℕ
baidu_async_error_permanent =
    401 ∷ 10001 ∷ 10002 ∷ 10003 ∷ 10004 ∷ 10005 ∷ 10006 ∷ 10007 ∷ 10008 ∷ 11001 ∷ 11002 ∷ 11003 ∷ []

-- `x == "…"`
abbrev pub is_text : String → Json → Bool
is_text w (string t) = text_beq t (codes w)
is_text w x = false

abbrev pub settled_or {ℓ} : {A : Type ℓ} → ℕ → Option A → Option (ℕ × A) → Option (ℕ × A)
settled_or n (some a) rest = some (suc n, a)
settled_or n none rest = rest

-- How many rounds a loop has made, and how it ended: the first round that settles it is the last.
-- `none` is a loop that has not ended within its fuel.
unfoldable pub poll {ℓ} : {A : Type ℓ} → (ℕ → Option A) → ℕ → ℕ → Option (ℕ × A)
poll round zero n = none
poll round (suc fuel) n = let rest = poll round fuel (suc n) in settled_or n (round n) rest

module _ (py : Conversions) where
  abbrev pub body_or_transient : ℕ → Option Json → Outcome Json
  body_or_transient status_code (some body) = ok body
  body_or_transient status_code none =
      raise (provider_transient ("baidu non-JSON response " <> py.str_status status_code))

  -- `_safe_json`
  unfoldable pub safe_json : Response → Outcome Json
  safe_json r = body_or_transient r.status_code r.json

  abbrev is_among : List ℕ → Float → Bool
  is_among [] x = false
  is_among (n ∷ ns) x = nat_beq x.bits (py.floats.of_int (pos n)).bits || is_among ns x

  -- `code in BAIDU_ASYNC_ERROR_PERMANENT`; a list or a dict has no hash.
  abbrev pub is_permanent : Json → Outcome Bool
  is_permanent (whole (pos n)) = ok (contains baidu_async_error_permanent n)
  is_permanent (real x) = ok (is_among baidu_async_error_permanent x)
  is_permanent (array xs) = raise (other "unhashable type: 'list'")
  is_permanent (object ms) = raise (other "unhashable type: 'dict'")
  is_permanent x = ok false

  abbrev pub refusal : Response → Json → Json → Bool → Outcome Text
  refusal r code message permanent =
      if permanent || contains (401 ∷ 413 ∷ []) r.status_code
      then raise (
          provider_permanent (
            "baidu async submit code="
            <> (py.format_json code <> (": " <> py.format_json message))))
      else raise (
          provider_transient (
            "baidu async submit code="
            <> (py.format_json code <> (" http=" <> py.str_status r.status_code))))

  -- `str(body["data"]["jobId"])`
  abbrev pub job_id_of : Json → Outcome Text
  job_id_of body = item body "data" >>= λ d. item d "jobId" >>= λ job_id. ok (str_of py job_id)

  abbrev pub refused : Response → Json → Json → Outcome Text
  refused r body code = is_permanent code >>= λ permanent.
      get body "msg" nil >>= λ message. refusal r code message permanent

  abbrev pub by_code : Response → Json → Json → Outcome Text
  by_code r body code = if is_zero code then job_id_of body else refused r body code

  -- `_submit_async_job`, after its request.
  unfoldable pub job_id_from : Response → Outcome Text
  unfolding safe_json get item
  job_id_from r = safe_json r >>= λ body. get body "code" nil >>= λ code. by_code r body code

  -- `body["data"]["resultUrl"]["jsonUrl"]`
  abbrev pub result_url : Json → Outcome Json
  result_url body = item body "data" >>= λ d. item d "resultUrl" >>= λ urls. item urls "jsonUrl"

  abbrev pub job_failed : Json → Outcome Json
  job_failed d = get d "errorMsg" (string []) >>= λ detail.
      raise (provider_permanent ("baidu async job failed: " <> py.format_json detail))

  abbrev pub poll_timeout : Text → Outcome Json
  poll_timeout job_id =
      raise (provider_transient ("baidu async job " <> (py.format_text job_id <> " poll timeout")))

  -- What the loop does with a body, its data and its state.
  abbrev pub by_state : Text → Bool → Json → Json → Json → Option (Outcome Json)
  by_state job_id late body d state =
      if is_text "done" state
      then some (result_url body)
      else if is_text "failed" state
      then some (job_failed d)
      else if late
      then some (poll_timeout job_id)
      else none

  -- The state of a reply, with the body and its data.
  unfoldable pub state_of : Outcome Response → Outcome (Json × Json × Json)
  unfolding safe_json get or_value
  state_of reply = reply >>= λ r. safe_json r >>= λ body. get body "data" nil >>= λ d.
      get (or_value d empty_object) "state" nil >>= λ state.
      ok (body, or_value d empty_object, state)

  abbrev pub settled_by : Text → Bool → Outcome (Json × Json × Json) → Option (Outcome Json)
  settled_by job_id late (raise e) = some (raise e)
  settled_by job_id late (ok (body, d, state)) = by_state job_id late body d state

  -- As many rounds as there are intervals in the timeout, and two.
  unfoldable pub rounds_enough : Settings → ℕ
  rounds_enough s = py.micros s.baidu_poll_timeout / py.micros s.baidu_poll_interval + 2

  -- `raise_for_status`, and the first line of the text.
  abbrev pub text_line : Option Text → Outcome Text
  text_line none = raise (other "list index out of range")
  text_line (some t) = ok t

  unfoldable pub result_from : Response → Outcome Json
  unfolding strip
  result_from r =
      if leb 200 r.status_code && leb r.status_code 299
      then text_line (first_line (strip (codes r.text))) >>= py.loads
      else raise (http_error (py.format_http_error r.status_code))

module _ (py : Conversions) (s : Settings) (c : Client) where
  -- `_submit_async_job`
  unfoldable pub submit_async_job : Bytes → Mime → Outcome Text
  unfolding job_id_from
  submit_async_job content mime =
      job_request s content mime >>= λ request. c.send 0 request >>= job_id_from py

  -- The deadline, and whether the clock is past it after the n-th reply.
  unfoldable pub deadline : ℕ
  deadline = c.time 0 + py.micros s.baidu_poll_timeout

  -- One round: how the loop ends in it, or `none` where it sleeps and goes on.
  unfoldable pub poll_round : Text → ℕ → Option (Outcome Json)
  unfolding state_of deadline get item
  poll_round job_id n =
      settled_by py job_id (ltb deadline (c.time (suc n)))
        (state_of py (poll_request s job_id >>= c.send (suc n)))

  -- `_poll_async_job`, with the number of its requests.
  unfoldable pub poll_async_job : Text → Option (ℕ × Outcome Json)
  unfolding poll poll_round rounds_enough
  poll_async_job job_id = poll (poll_round job_id) (rounds_enough py s) 0

  abbrev pub fetch_result : ℕ × Outcome Json → Outcome Json
  fetch_result (rounds, url) = url >>= λ u. c.send (suc rounds) (get_result u) >>= result_from py

  abbrev pub fetch_after : Option (ℕ × Outcome Json) → Option (Outcome Json)
  fetch_after none = none
  fetch_after (some polled) = some (fetch_result polled)

  abbrev pub poll_submitted : Outcome Text → Option (Outcome Json)
  poll_submitted (raise e) = some (raise e)
  poll_submitted (ok job_id) = fetch_after (poll_async_job job_id)

  -- `_extract_async`
  unfoldable pub extract_async : Bytes → Mime → Option (Outcome Json)
  unfolding submit_async_job poll_async_job result_from
  extract_async content mime = poll_submitted (submit_async_job content mime)

-- ===== src/Ocr/Baidu/Provider/Exchange.antt =====
-- What the exchange of `extract_lines` (src/ocr_engine/ocr/baidu.py) with the service raises.
use ocr.Base.{ℕ, Bool, not, inl, inr, ◌||◌, Option, none, some, [], ◌∷◌}
use ocr.Base.Tests.{nat_eq, Bool-cases, nat_beq}
use ocr.Base.Lists.{contains}
use ocr.Base.Int.{pos, negsuc}
use ocr.Base.Text.{Text}
use ocr.Pipeline.Outcome.{Outcome, ok, raise}
use ocr.Pipeline.Outcome.Holds.{Raises, Raises-bind}
use ocr.Ocr.Json.{
  Json, nil, boolean, whole, real, string, array, object, get, item, or_value, empty_object,
}
use ocr.Ocr.Baidu.{
  Conversions, Response, extract_sync, checked, check_code, body_of, is_zero_or_none,
  baidu_retryable_http,
}
use ocr.Ocr.Baidu.Malformed.{bad_value, bad_type, get-Raises}
use ocr.Ocr.Baidu.Jobs.{
  body_or_transient, is_text, safe_json, is_zero, is_permanent, refusal, by_code, job_id_from,
  by_state, state_of, settled_by,
}
use ocr.Ocr.Baidu.Provider.Raised.{
  IsRaw, as-IsRaw, get-IsRaw, item-IsRaw, Settles, malformed, permanent, transient, failed,
}

module _ (py : Conversions) where
  check_code-Raises : (body code message : Json) → Raises IsRaw (check_code py body code message)
  check_code-Raises body code message = elim (Bool-cases (is_zero_or_none code)) [
    | inl e ↦ rw e tt
    | inr e ↦ rw e (failed permanent)
  ]

  checked-Raises : (body : Json) → Raises IsRaw (checked py body)
  checked-Raises body =
      Raises-bind IsRaw (get body "errorCode" nil) _ (as-IsRaw _ (get-Raises body "errorCode" nil))
        (λ code.
          Raises-bind IsRaw (get body "errorMsg" nil) _
            (as-IsRaw _ (get-Raises body "errorMsg" nil))
            (λ message. check_code-Raises body code message))

  body_of-Raises : (o : Option Json) → Raises IsRaw (body_of py o)
  body_of-Raises none = failed (malformed bad_value)
  body_of-Raises (some body) = tt

  pub extract_sync-Raises : (r : Response) → Raises IsRaw (extract_sync py r)
  unfolding extract_sync
  extract_sync-Raises r = elim (Bool-cases (contains baidu_retryable_http r.status_code)) [
    | inl e ↦ rw e (failed transient)
    | inr e ↦ elim (Bool-cases (not (nat_beq r.status_code 200))) [
      | inl f ↦ rw (e, f) (failed permanent)
      | inr f ↦
          rw (e, f)
            (Raises-bind IsRaw (body_of py r.json) (checked py) (body_of-Raises r.json)
              checked-Raises)
    ]
  ]

  body_or_transient-Raises :
      (status_code : ℕ) (o : Option Json) → Raises IsRaw (body_or_transient py status_code o)
  body_or_transient-Raises status_code (some body) = tt
  body_or_transient-Raises status_code none = failed transient

  safe_json-Raises : (r : Response) → Raises IsRaw (safe_json py r)
  unfolding safe_json
  safe_json-Raises r = body_or_transient-Raises r.status_code r.json

  is_permanent-Raises : (code : Json) → Raises IsRaw (is_permanent py code)
  is_permanent-Raises (object ms) = failed (malformed bad_type)
  is_permanent-Raises nil = tt
  is_permanent-Raises (boolean b) = tt
  is_permanent-Raises (whole (pos n)) = tt
  is_permanent-Raises (whole (negsuc n)) = tt
  is_permanent-Raises (real x) = tt
  is_permanent-Raises (string t) = tt
  is_permanent-Raises (array xs) = failed (malformed bad_type)

  refusal-Raises :
      (r : Response) (code message : Json) (b : Bool) → Raises IsRaw (refusal py r code message b)
  refusal-Raises r code message b =
      elim (Bool-cases (b || contains (401 ∷ 413 ∷ []) r.status_code)) [
        | inl e ↦ rw e (failed permanent)
        | inr e ↦ rw e (failed transient)
      ]

  by_code-Raises : (r : Response) (body code : Json) → Raises IsRaw (by_code py r body code)
  by_code-Raises r body code = elim (Bool-cases (is_zero code)) [
    | inl e ↦ rw e (
        Raises-bind IsRaw (item body "data") _ (item-IsRaw body "data")
          (λ d. Raises-bind IsRaw (item d "jobId") _ (item-IsRaw d "jobId") (λ job_id. tt)))
    | inr e ↦ rw e (
        Raises-bind IsRaw (is_permanent py code) _ (is_permanent-Raises code) (λ b.
          Raises-bind IsRaw (get body "msg" nil) _ (get-IsRaw body "msg" nil)
            (λ message. refusal-Raises r code message b)))
  ]

  pub job_id_from-Raises : (r : Response) → Raises IsRaw (job_id_from py r)
  unfolding job_id_from
  job_id_from-Raises r = Raises-bind IsRaw (safe_json py r) _ (safe_json-Raises r) (λ body.
      Raises-bind IsRaw (get body "code" nil) _ (get-IsRaw body "code" nil)
        (λ code. by_code-Raises r body code))

  by_state-Settles :
      (job_id : Text) (late : Bool) (body d state : Json)
      → Settles (by_state py job_id late body d state)
  by_state-Settles job_id late body d state = elim (Bool-cases (is_text "done" state)) [
    | inl e ↦ rw e (
        Raises-bind IsRaw (item body "data") _ (item-IsRaw body "data") (λ x.
          Raises-bind IsRaw (item x "resultUrl") _ (item-IsRaw x "resultUrl")
            (λ urls. item-IsRaw urls "jsonUrl")))
    | inr e ↦ elim (Bool-cases (is_text "failed" state)) [
      | inl f ↦
          rw (e, f)
            (Raises-bind IsRaw (get d "errorMsg" (string [])) _ (get-IsRaw d "errorMsg" (string []))
              (λ detail. failed permanent))
      | inr f ↦ elim (Bool-cases late) [
        | inl l ↦ rw (e, f, l) (failed transient)
        | inr l ↦ rw (e, f, l) tt
      ]
    ]
  ]

  pub settled_by-Settles :
      (job_id : Text) (late : Bool) (o : Outcome (Json × Json × Json))
      → Raises IsRaw o
      → Settles (settled_by py job_id late o)
  settled_by-Settles job_id late (raise e) h = h
  settled_by-Settles job_id late (ok (body, d, state)) h = by_state-Settles job_id late body d state

  pub state_of-Raises :
      (reply : Outcome Response) → Raises IsRaw reply → Raises IsRaw (state_of py reply)
  unfolding state_of
  state_of-Raises reply h = Raises-bind IsRaw reply _ h (λ r.
      Raises-bind IsRaw (safe_json py r) _ (safe_json-Raises r) (λ body.
        Raises-bind IsRaw (get body "data" nil) _ (get-IsRaw body "data" nil) (λ d.
          Raises-bind IsRaw (get (or_value d empty_object) "state" nil) _
            (get-IsRaw (or_value d empty_object) "state" nil) (λ state. tt))))

-- ===== src/Ocr/Baidu/Provider/Sorted.antt =====
-- How the end of the first request of a call decides what the call raises
-- (src/ocr_engine/ocr/baidu.py).
use ocr.Base.{ℕ, ◌≡◌, refl, ap, ◌∙◌, sym, String, Option, none, some, List, [], ◌∷◌, inl, inr}
use mathlib.Core.Path.{subst}
use ocr.Base.Tests.{nat_eq, nat_beq, Bool-cases, if◌then◌else◌}
use ocr.Base.Lists.{contains}
use ocr.Settings.{Settings, BaiduMode, sync, async}
use ocr.Extraction.Schema.{Line}
use ocr.Pipeline.Outcome.{
  Exception, Outcome, ok, raise, ◌>>=◌, on_raise, document_failed, storage_object_missing,
  value_error, unsupported_file_type, resource_limit, provider_permanent, provider_transient,
  transient_job, http_error, timeout_error, other,
}
use ocr.Pipeline.Inspect.{Bytes, Mime}
use ocr.Ocr.Json.{Json}
use ocr.Ocr.Baidu.{Conversions, Response, extract_sync, normalize_layout_parsing}
use ocr.Ocr.Baidu.Requests.{Client, layout_request, job_request}
use ocr.Ocr.Baidu.Jobs.{safe_json, job_id_from, submit_async_job, poll_submitted, extract_async}
use ocr.Ocr.Baidu.Provider.{wrapped, send_sync, exchange}

abbrev pub IsTransient : Outcome (List Line) → Type 0
IsTransient o = (m : String) × (o ≡ raise (provider_transient m))

abbrev pub IsPermanent : Outcome (List Line) → Type 0
IsPermanent o = (m : String) × (o ≡ raise (provider_permanent m))

-- What a status of the synchronous surface makes of the call.
abbrev pub StatusSorts : ℕ → Outcome (List Line) → Type 0
StatusSorts status o =
    if contains (429 ∷ 503 ∷ 504 ∷ []) status
    then IsTransient o
    else if nat_beq status 200
    then Unit
    else IsPermanent o

-- What the body of a submitted job makes of the call.
abbrev pub BodySorts : Option Json → Outcome (List Line) → Type 0
BodySorts none o = IsTransient o
BodySorts (some body) o = Unit

-- What the end of the first request makes of the call.
abbrev pub Sorts : BaiduMode → Outcome Response → Outcome (List Line) → Type 0
Sorts mode (raise (http_error m)) o = o ≡ raise (provider_transient m)
Sorts mode (raise (timeout_error m)) o = o ≡ raise (provider_transient m)
Sorts mode (raise _) o = Unit
Sorts sync (ok r) o = StatusSorts r.status_code o
Sorts async (ok r) o = BodySorts r.json o

module _ (s : Settings) (c : Client) where
  abbrev pub first_reply : BaiduMode → Bytes → Mime → Outcome Response
  first_reply sync content mime = layout_request s content mime >>= c.send 0
  first_reply async content mime = job_request s content mime >>= c.send 0

module _ (py : Conversions) where
  -- The exceptions that leave a call, as the call turns them.
  raised-Sorts :
      (mode : BaiduMode) (e : Exception)
      → Sorts mode (raise e) (on_raise (raise e) wrapped >>= normalize_layout_parsing py)
  raised-Sorts mode (http_error m) = refl
  raised-Sorts mode (timeout_error m) = refl
  raised-Sorts mode (provider_transient m) = tt
  raised-Sorts mode (document_failed code m) = tt
  raised-Sorts mode (provider_permanent m) = tt
  raised-Sorts mode (unsupported_file_type m) = tt
  raised-Sorts mode (resource_limit m) = tt
  raised-Sorts mode (storage_object_missing m) = tt
  raised-Sorts mode (value_error m) = tt
  raised-Sorts mode (transient_job m) = tt
  raised-Sorts mode (other m) = tt

  extract_sync-Sorts :
      (r : Response)
      → StatusSorts r.status_code
          (on_raise (extract_sync py r) wrapped >>= normalize_layout_parsing py)
  unfolding extract_sync
  extract_sync-Sorts r = elim (Bool-cases (contains (429 ∷ 503 ∷ 504 ∷ []) r.status_code)) [
    | inl retryable ↦ rw retryable (_, refl)
    | inr e ↦ elim (Bool-cases (nat_beq r.status_code 200)) [
      | inl fine ↦ rw (e, fine) tt
      | inr refused ↦ rw (e, refused) (_, refl)
    ]
  ]

  reply-Sorts :
      (reply : Outcome Response)
      → Sorts sync reply
          (on_raise (reply >>= extract_sync py) wrapped >>= normalize_layout_parsing py)
  reply-Sorts (raise e) = raised-Sorts sync e
  reply-Sorts (ok r) = extract_sync-Sorts r

module _ (py : Conversions) (s : Settings) (c : Client) where
  -- What the rest of a call in the asynchronous mode makes of its submission.
  abbrev AsyncSorts : Outcome Response → Option (Outcome Json) → Type 0
  AsyncSorts reply none = Unit
  AsyncSorts reply (some raw) =
      Sorts async reply (on_raise raw wrapped >>= normalize_layout_parsing py)

  body-Sorts :
      (status : ℕ) (text : String) (json : Option Json)
      → let r : Response = record { status_code = status; text = text; json = json } in
        AsyncSorts (ok r) (poll_submitted py s c (job_id_from py r))
  unfolding job_id_from safe_json
  body-Sorts status text none = (_, refl)
  body-Sorts status text (some body) = any (poll_submitted py s c _)
    where
      any :
          (o : Option (Outcome Json))
          → AsyncSorts (ok (record { status_code = status; text = text; json = some body })) o
      any none = tt
      any (some raw) = tt

  submitted-Sorts :
      (reply : Outcome Response)
      → AsyncSorts reply (poll_submitted py s c (reply >>= job_id_from py))
  submitted-Sorts (raise e) = raised-Sorts py async e
  submitted-Sorts (ok r) = body-Sorts r.status_code r.text r.json

  bind_bind :
      {A B C : Type 0} (m : Outcome A) (f : A → Outcome B) (g : B → Outcome C)
      → (m >>= λ a. f a >>= g) ≡ ((m >>= f) >>= g)
  bind_bind (ok a) f g = refl
  bind_bind (raise e) f g = refl

  pub exchange-Sorts :
      (mode : BaiduMode) (content : Bytes) (mime : Mime) (raw : Outcome Json)
      → exchange py s mode c content mime ≡ some raw
      → Sorts mode
          (first_reply s c mode content mime)
          (on_raise raw wrapped >>= normalize_layout_parsing py)
  unfolding exchange extract_async submit_async_job send_sync
  exchange-Sorts sync content mime raw ends =
      let same : raw ≡ (first_reply s c sync content mime >>= extract_sync py) =
        sym (cc ends) ∙ bind_bind (layout_request s content mime) (c.send 0) (extract_sync py) in
      subst
        (λ o.
          Sorts sync (first_reply s c sync content mime)
            (on_raise o wrapped >>= normalize_layout_parsing py))
        (sym same) (reply-Sorts py (first_reply s c sync content mime))
  exchange-Sorts async content mime raw ends =
      subst (AsyncSorts (first_reply s c async content mime))
        (ap (poll_submitted py s c)
            (sym (bind_bind (job_request s content mime) (c.send 0) (job_id_from py)))
          ∙ ends)
        (submitted-Sorts (first_reply s c async content mime))

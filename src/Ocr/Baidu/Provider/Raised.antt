-- ===== src/Ocr/Baidu/Provider/Raised.antt =====
-- What the requests of a call can raise (src/ocr_engine/ocr/baidu.py): the exceptions of the HTTP
-- client, those of a malformed body, and those of the provider.
use ocr.Base.{ℕ, zero, suc, String, Option, none, some}
use ocr.Base.Tests.{nat_eq}
use ocr.Base.Text.{codes}
use ocr.Settings.{Settings}
use ocr.Pipeline.Outcome.{
  Exception, provider_permanent, provider_transient, http_error, timeout_error, Outcome, ok, raise,
  on_raise,
}
use ocr.Pipeline.Outcome.Holds.{Raises, Raises-bind, Raises-weaken}
use ocr.Ocr.Json.{
  Json, nil, boolean, whole, real, string, array, object, get, item, or_key_error, lookup,
}
use ocr.Ocr.Baidu.Requests.{secret, secret_of, bearer}
use ocr.Ocr.Baidu.Malformed.{IsMalformed, bad_value, bad_type, get-Raises}
use ocr.Ocr.Baidu.Jobs.{settled_or, poll}
use ocr.Ocr.Baidu.Provider.{wrapped}

-- The request did not end in a reply, or in one of a bad status.
pub data IsTransport : Exception → Type 0 where
  http_failed : {m : String} → IsTransport (http_error m)
  timed_out : {m : String} → IsTransport (timeout_error m)

-- What `extract_lines` may raise: no transport error.
pub data IsFailure : Exception → Type 0 where
  malformed : {e : Exception} → IsMalformed e → IsFailure e
  permanent : {m : String} → IsFailure (provider_permanent m)
  transient : {m : String} → IsFailure (provider_transient m)

-- What the exchange with the service may raise.
pub data IsRaw : Exception → Type 0 where
  transport : {e : Exception} → IsTransport e → IsRaw e
  failed : {e : Exception} → IsFailure e → IsRaw e

wrapped-IsFailure : (e : Exception) → IsRaw e → IsFailure (wrapped e)
wrapped-IsFailure e (transport http_failed) = transient
wrapped-IsFailure e (transport timed_out) = transient
wrapped-IsFailure e (failed (malformed bad_value)) = malformed bad_value
wrapped-IsFailure e (failed (malformed bad_type)) = malformed bad_type
wrapped-IsFailure e (failed permanent) = permanent
wrapped-IsFailure e (failed transient) = transient

pub on_raise-IsFailure :
    {A : Type 0} (m : Outcome A) → Raises IsRaw m → Raises IsFailure (on_raise m wrapped)
on_raise-IsFailure (ok a) h = tt
on_raise-IsFailure (raise e) h = wrapped-IsFailure e h

or_key_error-Raises : (o : Option Json) → Raises IsMalformed (or_key_error o)
or_key_error-Raises (some x) = tt
or_key_error-Raises none = bad_type

item-Raises : (x : Json) (key : String) → Raises IsMalformed (item x key)
unfolding item
item-Raises (object ms) key = or_key_error-Raises (lookup (codes key) ms)
item-Raises nil key = bad_type
item-Raises (boolean b) key = bad_type
item-Raises (whole n) key = bad_type
item-Raises (real x) key = bad_type
item-Raises (string t) key = bad_type
item-Raises (array xs) key = bad_type

pub as-IsRaw : {A : Type 0} (m : Outcome A) → Raises IsMalformed m → Raises IsRaw m
as-IsRaw m = Raises-weaken IsMalformed IsRaw m (λ e h. failed (malformed h))

pub get-IsRaw : (x : Json) (key : String) (d : Json) → Raises IsRaw (get x key d)
get-IsRaw x key d = as-IsRaw (get x key d) (get-Raises x key d)

pub item-IsRaw : (x : Json) (key : String) → Raises IsRaw (item x key)
item-IsRaw x key = as-IsRaw (item x key) (item-Raises x key)

pub secret_of-Raises : (o : Option String) → Raises IsRaw (secret_of o)
secret_of-Raises (some t) = tt
secret_of-Raises none = failed (malformed bad_type)

pub bearer-Raises : (s : Settings) → Raises IsRaw (bearer s)
bearer-Raises s = Raises-bind IsRaw (secret s) _ (secret_of-Raises s.baidu_token) (λ t. tt)

-- What a loop, or a round of it, ends with.
abbrev pub Settles : Option (Outcome Json) → Type 0
Settles none = Unit
Settles (some o) = Raises IsRaw o

abbrev pub SettlesIn : Option (ℕ × Outcome Json) → Type 0
SettlesIn none = Unit
SettlesIn (some (count, o)) = Raises IsRaw o

settled_or-SettlesIn :
    (n : ℕ) (x : Option (Outcome Json)) (rest : Option (ℕ × Outcome Json))
    → Settles x
    → SettlesIn rest
    → SettlesIn (settled_or n x rest)
settled_or-SettlesIn n (some o) rest h k = h
settled_or-SettlesIn n none rest h k = k

pub poll-SettlesIn :
    (round : ℕ → Option (Outcome Json))
    → ((n : ℕ) → Settles (round n))
    → (fuel n : ℕ) → SettlesIn (poll round fuel n)
unfolding poll
poll-SettlesIn round h zero n = tt
poll-SettlesIn round h (suc fuel) n =
    settled_or-SettlesIn n (round n) (poll round fuel (suc n)) (h n)
      (poll-SettlesIn round h fuel (suc n))

-- ===== src/Ocr/Baidu/Jobs/Polling.antt =====
-- The rounds of `_poll_async_job` (src/ocr_engine/ocr/baidu.py): the loop ends.
use ocr.Base.{
  ℕ, zero, suc, ◌+◌, ◌*◌, ◌/◌, ◌≤◌, ◌<◌, ◌≡◌, refl, ap, ◌∙◌, Bool, true, false, Option, none, some,
  arith, inl, inr,
}
use native.Mathlib.Nat.{div-lt_iff_lt-mul}
use ocr.Base.Tests.{ltb, Option-cases, if◌then◌else◌}
use ocr.Base.Text.{Text}
use ocr.Settings.{Settings}
use ocr.Pipeline.Outcome.{Outcome, ok, raise, ◌>>=◌}
use ocr.Ocr.Json.{Json}
use ocr.Ocr.Baidu.{Conversions}
use ocr.Ocr.Baidu.Requests.{Client, poll_request}
use ocr.Ocr.Baidu.Jobs.{
  is_text, poll, state_of, settled_by, deadline, poll_round, rounds_enough, poll_async_job,
}

-- From round `n` on, the loop goes through rounds that do not settle it to the one that does,
-- which is the last of its `count` rounds.
pub data Rounds {ℓ} {A : Type ℓ} (round : ℕ → Option A) : ℕ → ℕ → A → Type ℓ where
  settles : {n count : ℕ} {a : A} → round n ≡ some a → count ≡ suc n → Rounds round n count a
  goes_on :
      {n count : ℕ} {a : A} → round n ≡ none → Rounds round (suc n) count a → Rounds round n count a

-- The rounds settle by a bound.
abbrev pub EndsBy {ℓ} : {A : Type ℓ} → (ℕ → Option A) → ℕ → ℕ → ℕ → Type ℓ
EndsBy {A = A} round fuel n bound =
    (count : ℕ) × (a : A) × (poll round fuel n ≡ some (count, a))
    × Rounds round n count a
    × (count ≤ bound)

module _ {ℓ} {A : Type ℓ} (round : ℕ → Option A) where
  poll-settled : (fuel n : ℕ) (a : A) → round n ≡ some a → poll round (suc fuel) n ≡ some (suc n, a)
  unfolding poll
  poll-settled fuel n a e = rw (e, poll) refl

  poll-waits : (fuel n : ℕ) → round n ≡ none → poll round (suc fuel) n ≡ poll round fuel (suc n)
  unfolding poll
  poll-waits fuel n e = rw (e, poll) refl

  -- Where a round is sure to settle, the loop does within the fuel to it.
  poll-EndsBy :
      (fuel n last : ℕ) (a : A)
      → n + fuel ≡ last
      → round last ≡ some a
      → EndsBy round (suc fuel) n (suc last)
  poll-EndsBy zero n last a e s =
      let n≡last : n ≡ last = omega (arith, e) in
      let s' : round n ≡ some a = ap round n≡last ∙ s in
      (suc n, a, poll-settled zero n a s', settles s' refl, omega (arith, e))
  poll-EndsBy (suc fuel) n last a e s = elim (Option-cases (round n)) [
    | inr (b, s') ↦ (suc n, b, poll-settled (suc fuel) n b s', settles s' refl, omega (arith, e))
    | inl w ↦
        let (count, b, ends, rounds, within) =
          poll-EndsBy fuel (suc n) last a (omega (arith, e)) s in
        (count, b, poll-waits (suc fuel) n w ∙ ends, goes_on w rounds, within)
  ]

one_of_three :
    {A : Type 0} (b c : Bool) (x y z : A)
    → (a : A) × ((if b then some x else if c then some y else some z) ≡ some a)
one_of_three true c x y z = (x, refl)
one_of_three false true x y z = (y, refl)
one_of_three false false x y z = (z, refl)

module _ (py : Conversions) (s : Settings) (c : Client) where
  -- The clock never goes back, and a sleep lasts its interval.
  pub record IsClock : Type 0 where
    pub first : c.time 0 ≤ c.time 1
    pub sleeps : (n : ℕ) → c.time (suc n) + py.micros s.baidu_poll_interval ≤ c.time (suc (suc n))

  time_lem : IsClock → (n : ℕ) → c.time 0 + n * py.micros s.baidu_poll_interval ≤ c.time (suc n)
  time_lem k zero = omega (arith, k.first)
  time_lem k (suc n) = omega (arith, time_lem k n, k.sleeps n)

  -- A round after the deadline is the last, whatever the reply.
  settled_by-late :
      (job_id : Text) (o : Outcome (Json × Json × Json))
      → (a : Outcome Json) × (settled_by py job_id true o ≡ some a)
  settled_by-late job_id (raise e) = (raise e, refl)
  settled_by-late job_id (ok (body, d, state)) =
      one_of_three (is_text "done" state) (is_text "failed" state) _ _ _

  poll_round-late :
      (job_id : Text) (n : ℕ)
      → ltb (deadline py s c) (c.time (suc n)) ≡ true
      → (a : Outcome Json) × (poll_round py s c job_id n ≡ some a)
  unfolding poll_round
  poll_round-late job_id n late =
      rw late (settled_by-late job_id (state_of py (poll_request s job_id >>= c.send (suc n))))

  -- The last round that can be needed is past the deadline.
  time-late :
      IsClock
      → 1 ≤ py.micros s.baidu_poll_interval
      → ltb
          (deadline py s c)
          (c.time (suc (suc (py.micros s.baidu_poll_timeout / py.micros s.baidu_poll_interval))))
        ≡ true
  unfolding deadline
  time-late k positive =
      let n = py.micros s.baidu_poll_timeout / py.micros s.baidu_poll_interval in
      let past : py.micros s.baidu_poll_timeout < suc n * py.micros s.baidu_poll_interval =
        (div-lt_iff_lt-mul positive).0 (omega arith) in
      ground (arith, time_lem k (suc n), past)

  rounds_enough_lem :
      rounds_enough py s
      ≡ suc (suc (py.micros s.baidu_poll_timeout / py.micros s.baidu_poll_interval))
  unfolding rounds_enough
  rounds_enough_lem = omega arith

  -- Where sleeps last their interval, which is positive, the loop ends, by the first round that
  -- settles it, after at most as many rounds as there are intervals in the timeout, and two.
  pub poll_async_job-Ends :
      (job_id : Text)
      → IsClock
      → 1 ≤ py.micros s.baidu_poll_interval
      → (count : ℕ) × (o : Outcome Json) × (poll_async_job py s c job_id ≡ some (count, o))
        × Rounds (poll_round py s c job_id) 0 count o
        × (count ≤ rounds_enough py s)
  unfolding poll_async_job
  poll_async_job-Ends job_id k positive =
      let n = py.micros s.baidu_poll_timeout / py.micros s.baidu_poll_interval in
      let (a, settled) = poll_round-late job_id (suc n) (time-late k positive) in
      let (count, o, ends, rounds, within) =
        poll-EndsBy (poll_round py s c job_id) (suc n) 0 (suc n) a (omega arith) settled in
      (
        count,
        o,
        ap (λ f. poll (poll_round py s c job_id) f 0) rounds_enough_lem ∙ ends,
        rounds,
        omega (arith, within, rounds_enough_lem),
      )

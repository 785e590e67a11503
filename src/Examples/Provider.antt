-- ===== src/Examples/Provider.antt =====
-- The asynchronous mode of the provider, on a job that is done at the second poll.
use ocr.Base.{ℕ, zero, suc, ◌*◌, ◌≤◌, String, ◌≡◌, refl, none, some, [], ◌∷◌, arith}
use ocr.Base.Int.{pos}
use ocr.Base.Text.{codes}
use ocr.Settings.{Settings, baidu_aistudio, async}
use ocr.Pipeline.Outcome.{Outcome, ok, raise, provider_transient, timeout_error}
use ocr.Pipeline.Inspect.{png}
use ocr.Ocr.Json.{Json, whole, string, object, no_members, member}
use ocr.Ocr.Baidu.{Conversions, Response}
use ocr.Ocr.Baidu.Requests.{Request, get_result, Client, b64encode}
use ocr.Ocr.Baidu.Jobs.{poll_async_job, rounds_enough, poll_round}
use ocr.Ocr.Baidu.Jobs.Polling.{IsClock, Rounds, poll_async_job-Ends}
use ocr.Ocr.Baidu.Provider.{extract_lines}
use ocr.Examples.Installation.{settings}
use ocr.Examples.Normalizer.{py, body, line_on}

encodes_padding : b64encode (b'M' ∷ b'a' ∷ []) ≡ codes "TWE="
encodes_padding = refl

abbrev pub hosted : Settings
hosted = record settings {
  provider = baidu_aistudio;
  baidu_mode = async;
  baidu_token = some "secret";
}

abbrev pub seconds : Conversions
seconds = record py { loads = λ t. ok body; micros = λ x. x.bits * 1000000 }

abbrev reply_of : Json → Outcome Response
reply_of x = ok (record { status_code = 200; text = "{}"; json = some x })

abbrev state : String → Json → Json
state t urls = object (
    member (codes "data")
      (object
        (member (codes "state") (string (codes t)) (member (codes "resultUrl") urls no_members)))
      no_members)

abbrev accepted : Json
accepted = object (
    member (codes "code") (whole (pos 0)) (
      member (codes "data") (object (member (codes "jobId") (whole (pos 7)) no_members))
        no_members))

abbrev urls : Json
urls = object (member (codes "jsonUrl") (string (codes "https://result")) no_members)

abbrev polled : ℕ → Outcome Response
polled zero = reply_of (state "running" urls)
polled (suc n) = reply_of (state "done" urls)

abbrev answer : ℕ → Request → Outcome Response
answer zero r = reply_of accepted
answer (suc n) (get_result u) = ok (record { status_code = 200; text = "{}"; json = none })
answer (suc n) r = polled n

abbrev client : Client
client = record { send = answer; time = λ n. n * 5000000 }

-- A service that never answers.
abbrev silent : Client
silent = record { send = λ n r. raise (timeout_error "no reply"); time = λ n. n * 5000000 }

done_at_second :
    poll_async_job seconds hosted client (codes "7")
    ≡ some (2, ok (string (codes "https://result")))
unfolding poll_async_job
done_at_second = refl

reads_result :
    extract_lines seconds hosted client [] png ≡ some (ok (line_on "p1" 1 ∷ line_on "p2" 2 ∷ []))
unfolding extract_lines
reads_result = refl

silence_is_transient :
    extract_lines seconds hosted silent [] png ≡ some (raise (provider_transient "no reply"))
unfolding extract_lines
silence_is_transient = refl

clock : IsClock seconds hosted client
clock = record { first = omega arith; sleeps = λ n. omega arith }

poll_async_job-Ends_example :
    (count : ℕ) × (o : Outcome Json) × (poll_async_job seconds hosted client (codes "7")
      ≡ some (count, o))
    × Rounds (poll_round seconds hosted client (codes "7")) 0 count o
    × (count ≤ rounds_enough seconds hosted)
poll_async_job-Ends_example =
    poll_async_job-Ends seconds hosted client (codes "7") clock (omega arith)

-- ===== src/Events/Publisher.antt =====
-- `OutboxPublisher` (src/ocr_engine/events/publisher.py). Kafka is an argument: whether `produce`
-- takes a message or raises, and what the delivery report says later.
pub mod Delivery
pub mod Retry
pub mod Committed
use ocr.Base.{ℕ, ◌+◌, String, Bool, Option, none, some, List, [], ◌∷◌, ◌++◌}
use ocr.Base.Tests.{◌==◌, string_eq, if◌then◌else◌}
use ocr.Store.Rows.{Uuid, Time, Envelope, OutboxEvent, Db}
use ocr.Store.Outbox.{claim_pending_outbox, mark_published}

-- A header's value: the bytes of a text, or of a UUID's text.
pub data HeaderValue : Type 0 where
  text : String → HeaderValue
  uuid : Uuid → HeaderValue

pub record Message : Type 0 where
  pub topic : String
  pub key : Uuid
  pub value : Envelope
  pub headers : List (String × HeaderValue)

pub record Kafka : Type 0 where
  -- `produce` takes the message after those already handed over; else it raises.
  pub accepts : List Message → Message → Bool
  -- The delivery report has no error.
  pub delivers : Message → Bool

-- `if row["trace_id"]:` the empty text counts as absent.
abbrev pub trace_header : Option String → List (String × HeaderValue)
trace_header none = []
trace_header (some t) = if t == "" then [] else ("trace-id", text t) ∷ []

unfoldable pub headers : OutboxEvent → Envelope → List (String × HeaderValue)
headers row event =
    ("event-id", uuid event.event_id)
    ∷ ("event-type", text event.event_type)
    ∷ ("event-version", text "1")
    ∷ ("source-service", text "ocr")
    ∷ ("aggregate-type", text row.aggregate_type)
    ∷ ("aggregate-id", uuid row.aggregate_id)
    ∷ trace_header row.trace_id

-- `row["topic"] or self.topic_default`
abbrev pub topic_or : String → String → String
topic_or topic topic_default = if topic == "" then topic_default else topic

unfoldable pub message : String → OutboxEvent → Message
unfolding headers
message topic_default row = record {
  topic = topic_or row.topic topic_default;
  key = row.aggregate_id;
  value = row.payload;
  headers = headers row row.payload;
}

-- What a tick did: the value that it returned, or `none` if `produce` raised; the database; and
-- the messages that Kafka's local queue took.
pub record Polled : Type 0 where
  pub returned : Option ℕ
  pub db : Db
  pub sent : List Message

-- The counters of the delivery reports.
pub record Reports : Type 0 where
  pub published : ℕ
  pub publish_failed : ℕ

-- `_on_delivery`
abbrev pub report : Kafka → Message → Reports → Reports
report kafka m r =
    if kafka.delivers m
    then record r { published = r.published + 1 }
    else record r { publish_failed = r.publish_failed + 1 }

-- The reports that `poll` and `flush` bring in for the messages of a tick.
unfoldable pub reports : Kafka → List Message → Reports → Reports
reports kafka [] r = r
reports kafka (m ∷ ms) r = reports kafka ms (report kafka m r)

module _ (kafka : Kafka) (topic_default : String) (marked_at : Uuid → Time) where
  -- The loop of `poll_once`: each row is marked as soon as `produce` has taken its message.
  unfoldable pub publish_rows : List OutboxEvent → ℕ → List Message → Db → Polled
  unfolding message
  publish_rows [] published sent db = record { returned = some published; db = db; sent = sent }
  publish_rows (row ∷ rows) published sent db =
      let m = message topic_default row in
      let rest =
        publish_rows rows (published + 1) (sent ++ (m ∷ []))
          (mark_published row.id (marked_at row.id) db) in
      if kafka.accepts sent m then rest else record { returned = none; db = db; sent = sent }

  unfoldable pub poll_once : String → ℕ → Time → Db → Polled
  unfolding publish_rows
  poll_once worker batch now db =
      let (rows, claimed) = claim_pending_outbox worker batch now db in
      publish_rows rows 0 [] claimed

  -- The loop of `run`, a tick for each time of the list: an exception ends its tick alone.
  unfoldable pub run : String → ℕ → List Time → Db → Db
  run worker batch [] db = db
  run worker batch (now ∷ ticks) db = run worker batch ticks (poll_once worker batch now db).db

-- ===== src/Store/Outbox.antt =====
-- The operations of `Store` on the `outbox_events` table.
pub mod Claims
pub mod Handover
pub mod Settled
use ocr.Base.{ℕ, ◌+◌, ◌*◌, String, Bool, true, false, ◌&&◌, Option, none, some, List, map, min}
use ocr.Base.Tests.{ltb, leb, ◌==◌, nat_eq}
use ocr.Base.Lists.{length, take, keep, contains}
use ocr.Store.Rows.{Uuid, Time, OutboxEvent, Db}
use ocr.Store.Table.{update_where, sort_by}

abbrev pub second : ℕ
second = 1000000

-- interval '1 minute'
abbrev pub lock_span : ℕ
lock_span = 60 * second

abbrev pub is_null : Option Time → Bool
is_null none = true
is_null (some _) = false

-- `c IS NULL OR c <= now()`
abbrev pub null_or_due : Time → Option Time → Bool
null_or_due now none = true
null_or_due now (some t) = leb t now

-- `locked_at IS NULL OR locked_at < now() - interval '1 minute'`
abbrev pub null_or_stale : Time → Option Time → Bool
null_or_stale now none = true
null_or_stale now (some t) = ltb (t + lock_span) now

abbrev pub is_claimable : Time → OutboxEvent → Bool
is_claimable now e =
    is_null e.published_at && (null_or_due now e.next_attempt_at && null_or_stale now e.locked_at)

abbrev pub event_id : OutboxEvent → Uuid
event_id e = e.id

abbrev pub event_created : OutboxEvent → ℕ
event_created e = e.created_at

-- The inner SELECT.
unfoldable pub select_pending : Time → ℕ → List OutboxEvent → List Uuid
select_pending now batch rows =
    map event_id (take batch (sort_by event_created (keep (is_claimable now) rows)))

abbrev pub claim_row : String → Time → OutboxEvent → OutboxEvent
claim_row worker now e = record e {
  locked_by = some worker;
  locked_at = some now;
  attempt_count = e.attempt_count + 1;
}

abbrev pub is_selected : List Uuid → OutboxEvent → Bool
is_selected ids e = contains ids e.id

-- `RETURNING *`: the rows as they are after the update.
unfoldable pub claim_pending_outbox : String → ℕ → Time → Db → List OutboxEvent × Db
claim_pending_outbox worker batch now db =
    let ids = select_pending now batch db.outbox in
    (
      map (claim_row worker now) (keep (is_selected ids) db.outbox),
      record db { outbox = update_where (is_selected ids) (claim_row worker now) db.outbox },
    )

abbrev pub has_event_id : Uuid → OutboxEvent → Bool
has_event_id i e = e.id == i

abbrev pub published_row : Time → OutboxEvent → OutboxEvent
published_row now e = record e { published_at = some now; locked_by = none; locked_at = none }

unfoldable pub mark_published : Uuid → Time → Db → Db
mark_published i now db = record db {
  outbox = update_where (has_event_id i) (published_row now) db.outbox;
}

-- make_interval(secs => 5 * LEAST(attempt_count + 1, 6))
abbrev pub backoff : ℕ → ℕ
backoff attempts = 5 * second * min (attempts + 1) 6

abbrev pub defer_row : String → Time → OutboxEvent → OutboxEvent
defer_row error now e = record e {
  locked_by = none;
  locked_at = none;
  last_error = some error;
  next_attempt_at = some (now + backoff e.attempt_count);
}

unfoldable pub defer_outbox_event : Uuid → String → Time → Db → Db
defer_outbox_event i error now db = record db {
  outbox = update_where (has_event_id i) (defer_row error now) db.outbox;
}

abbrev pub locked_before : Time → Option Time → Bool
locked_before older_than none = false
locked_before older_than (some t) = ltb t older_than

abbrev pub is_abandoned : Time → OutboxEvent → Bool
is_abandoned older_than e = is_null e.published_at && locked_before older_than e.locked_at

abbrev pub release_row : OutboxEvent → OutboxEvent
release_row e = record e { locked_by = none; locked_at = none }

-- The number of rows updated, as the command tag `UPDATE n` reports it, and the new state.
unfoldable pub reclaim_abandoned_outbox : Time → Db → ℕ × Db
reclaim_abandoned_outbox older_than db = (
  length (keep (is_abandoned older_than) db.outbox),
  record db { outbox = update_where (is_abandoned older_than) release_row db.outbox },
)

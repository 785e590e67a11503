-- ===== src/Events/Publisher/Delivery.antt =====
-- What `poll_once` (src/ocr_engine/events/publisher.py) leaves of the events that it claimed.
use ocr.Base.{
  ℕ, ◌+◌, ◌≡◌, refl, ◌∙◌, sym, String, true, false, none, some, List, [], ◌∷◌, ◌++◌, map, arith,
  inl, inr,
}
use mathlib.Core.Path.{subst}
use mathlib.Core.List.{append-nil, append_assoc}
use ocr.Base.Tests.{nat_eq, nat_beq_iff, Bool-cases}
use ocr.Store.Steps.{StoreReach}
use ocr.Store.Outbox.Settled.{AllFresh, mark_published-IsSettled, StoreReach-IsSettled}
use ocr.Base.Lists.{length, All}
use ocr.Store.Table.{any_row, update_where}
use ocr.Store.Rows.{Uuid, Time, OutboxEvent, Db}
use ocr.Store.Outbox.{has_event_id, published_row, mark_published, claim_pending_outbox}
use ocr.Store.Outbox.Claims.{IsSettled, claim_pending_outbox-IsSettled}
use ocr.Events.Publisher.{Message, Kafka, Polled, message, publish_rows, poll_once}

mark_published-IsSettled_self :
    (i : Uuid) (now : Time) (xs : List OutboxEvent)
    → IsSettled i (update_where (has_event_id i) (published_row now) xs)
mark_published-IsSettled_self i now [] = refl
mark_published-IsSettled_self i now (x ∷ xs) =
    ground (arith, mark_published-IsSettled_self i now xs)

module _ (kafka : Kafka) (topic_default : String) (marked_at : Uuid → Time) where
  publish_rows-IsSettled :
      (i : Uuid) (rows : List OutboxEvent) (n : ℕ) (sent : List Message) (db : Db)
      → IsSettled i db.outbox
      → IsSettled i (publish_rows kafka topic_default marked_at rows n sent db).db.outbox
  unfolding publish_rows mark_published
  publish_rows-IsSettled i [] n sent db h = h
  publish_rows-IsSettled i (row ∷ rows) n sent db h =
      elim (Bool-cases (kafka.accepts sent (message topic_default row))) [
        | inr e ↦ rw e h
        | inl e ↦ rw e (
            publish_rows-IsSettled i rows (n + 1) _ (mark_published row.id (marked_at row.id) db)
              (mark_published-IsSettled i row.id (marked_at row.id) db.outbox h))
      ]

  publish_rows-accepts :
      (row : OutboxEvent) (rows : List OutboxEvent) (n : ℕ) (sent : List Message) (db : Db)
      → kafka.accepts sent (message topic_default row) ≡ true
      → publish_rows kafka topic_default marked_at (row ∷ rows) n sent db
        ≡ publish_rows kafka topic_default marked_at rows
            (n + 1)
            (sent ++ (message topic_default row ∷ []))
            (mark_published row.id (marked_at row.id) db)
  unfolding publish_rows
  publish_rows-accepts row rows n sent db e = rw e

  publish_rows-raises :
      (row : OutboxEvent) (rows : List OutboxEvent) (n : ℕ) (sent : List Message) (db : Db)
      → kafka.accepts sent (message topic_default row) ≡ false
      → (publish_rows kafka topic_default marked_at (row ∷ rows) n sent db).returned ≡ none
  unfolding publish_rows
  publish_rows-raises row rows n sent db e = rw e

  -- What the loop has done when it ended as `p`, with `m` as its count.
  abbrev Done : List OutboxEvent → ℕ → ℕ → List Message → Polled → Type 0
  Done rows n m sent p =
      (m ≡ n + length rows)
      × (p.sent ≡ sent ++ map (message topic_default) rows)
      × All (λ r. IsSettled r.id p.db.outbox) rows

  publish_rows_lem :
      (rows : List OutboxEvent) (n m : ℕ) (sent : List Message) (db : Db)
      → (publish_rows kafka topic_default marked_at rows n sent db).returned ≡ some m
      → Done rows n m sent (publish_rows kafka topic_default marked_at rows n sent db)
  unfolding mark_published
  publish_rows_lem [] n m sent db h =
      unfold publish_rows in (ground arith, sym (append-nil sent), tt)
  publish_rows_lem (row ∷ rows) n m sent db h =
      elim (Bool-cases (kafka.accepts sent (message topic_default row))) [
        | inr e ↦ cc (publish_rows-raises row rows n sent db e)
        | inl e ↦
            let db' = mark_published row.id (marked_at row.id) db in
            let sent' = sent ++ (message topic_default row ∷ []) in
            let step = publish_rows-accepts row rows n sent db e in
            let (counted, handed, settled) =
              publish_rows_lem rows (n + 1) m sent' db' (rw step at h) in
            subst (Done (row ∷ rows) n m sent) (sym step) (
              omega arith,
              handed
                  ∙ append_assoc sent (message topic_default row ∷ [])
                      (map (message topic_default) rows),
              (
                publish_rows-IsSettled row.id rows (n + 1) sent' db'
                    (mark_published-IsSettled_self row.id (marked_at row.id) db.outbox),
                settled,
              ),
            )
      ]

  -- A tick that does not raise returns the number of events that it claimed, has handed each one's
  -- message to Kafka, in order, and marks each one published, whatever the delivery reports say.
  pub poll_once_lem :
      (worker : String) (batch n : ℕ) (now : Time) (db : Db)
      → (poll_once kafka topic_default marked_at worker batch now db).returned ≡ some n
      → let rows = (claim_pending_outbox worker batch now db).0 in
        let p = poll_once kafka topic_default marked_at worker batch now db in
        (n ≡ length rows)
        × (p.sent ≡ map (message topic_default) rows)
        × All (λ r. IsSettled r.id p.db.outbox) rows
  unfolding poll_once
  poll_once_lem worker batch n now db h =
      let (rows, claimed) = claim_pending_outbox worker batch now db in
      let (counted, handed, settled) = publish_rows_lem rows 0 n [] claimed h in
      (omega arith, handed, settled)

All-by_id :
    (P : Uuid → Type 0) (i : Uuid) (rows : List OutboxEvent)
    → All (λ r. P r.id) rows
    → any_row (has_event_id i) rows ≡ true
    → P i
All-by_id P i [] a h = absurd (ground arith)
All-by_id P i (row ∷ rows) a h = elim (Bool-cases (has_event_id i row)) [
  | inl e ↦ subst P ((nat_beq_iff row.id i).0 e) a.0
  | inr e ↦ All-by_id P i rows a.1 (rw e at h)
]

-- After a tick that does not raise, and whatever the processes have written since, under fresh ids
-- for new events: no claim returns an event that the tick had claimed, whatever Kafka delivers.
pub poll_once-never_again :
    (kafka : Kafka) (topic_default : String) (marked_at : Uuid → Time) (worker : String)
    (batch n : ℕ) (now : Time) (db reached : Db) (i : Uuid) (other : String) (limit : ℕ)
    (later : Time)
    → (poll_once kafka topic_default marked_at worker batch now db).returned ≡ some n
    → any_row (has_event_id i) (claim_pending_outbox worker batch now db).0 ≡ true
    → (r : StoreReach (poll_once kafka topic_default marked_at worker batch now db).db reached)
    → AllFresh i r
    → any_row (has_event_id i) (claim_pending_outbox other limit later reached).0 ≡ false
poll_once-never_again kafka topic_default marked_at worker batch n now db reached i other limit
      later h claimed r fresh =
    let p = poll_once kafka topic_default marked_at worker batch now db in
    claim_pending_outbox-IsSettled i other limit later reached (
      StoreReach-IsSettled i r fresh (
        All-by_id (λ j. IsSettled j p.db.outbox) i (claim_pending_outbox worker batch now db).0
          (poll_once_lem kafka topic_default marked_at worker batch n now db h).2 claimed))

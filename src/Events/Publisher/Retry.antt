-- ===== src/Events/Publisher/Retry.antt =====
-- What `poll_once` (src/ocr_engine/events/publisher.py) leaves for a later tick.
use ocr.Base.{
  ℕ, ◌+◌, ◌<◌, ◌≡◌, refl, sym, ◌∙◌, ap, String, true, false, some, List, [], ◌∷◌, ◌++◌, map, arith,
  inl, inr,
}
use mathlib.Core.List.{append_assoc}
use ocr.Base.Tests.{nat_eq, if◌then◌else◌, Bool-cases}
use ocr.Store.Table.{find_row, any_row}
use ocr.Store.Table.Lemmas.{find_row-update_where, find_row_sound, any_row-append}
use ocr.Store.Rows.{Uuid, Time, OutboxEvent, Db}
use ocr.Store.Outbox.{
  is_null, is_claimable, lock_span, has_event_id, published_row, mark_published, claim_row,
  select_pending, is_selected, claim_pending_outbox,
}
use ocr.Store.Outbox.Handover.{map-last}
use ocr.Events.Publisher.{Message, Kafka, Polled, message, publish_rows, poll_once}

-- The database has the event: it can be claimed at `later` if it is not published, and it is one of
-- the rows `done` if it is.
abbrev pub Waits : Time → Uuid → List OutboxEvent → Db → Type 0
Waits later i done db =
    (e : OutboxEvent) × (find_row (has_event_id i) db.outbox ≡ some e)
    × (is_null e.published_at ≡ true → is_claimable later e ≡ true)
    × (is_null e.published_at ≡ false → any_row (has_event_id i) done ≡ true)

mark_published-Waits :
    (later : Time) (i : Uuid) (row : OutboxEvent) (done : List OutboxEvent) (now : Time) (db : Db)
    → Waits later i done db
    → Waits later i (done ++ (row ∷ [])) (mark_published row.id now db)
unfolding mark_published
mark_published-Waits later i row done now db (e, found, due, handed) =
    let mine = find_row_sound (has_event_id i) db.outbox e found in
    (
      if has_event_id row.id e then published_row now e else e,
      find_row-update_where (has_event_id i) (has_event_id row.id) (published_row now) (λ a. refl)
          db.outbox e found,
      λ unpublished. ground arith,
      λ published. ground (arith, any_row-append (has_event_id i) done (row ∷ [])),
    )

claim-Waits :
    (worker : String) (batch : ℕ) (now later : Time) (i : Uuid) (e : OutboxEvent) (db : Db)
    → now + lock_span < later
    → find_row (has_event_id i) db.outbox ≡ some e
    → is_claimable now e ≡ true
    → Waits later i [] (claim_pending_outbox worker batch now db).1
unfolding claim_pending_outbox
claim-Waits worker batch now later i e db lt found c =
    let ids = select_pending now batch db.outbox in
    (
      if is_selected ids e then claim_row worker now e else e,
      find_row-update_where (has_event_id i) (is_selected ids) (claim_row worker now) (λ a. refl)
          db.outbox e found,
      λ unpublished. ground arith,
      λ published. ground arith,
    )

module _ (kafka : Kafka) (topic_default : String) (marked_at : Uuid → Time) where
  -- Of the rows, some first ones have been handed over, in order, and no others; and the event
  -- waits, or is one of those.
  abbrev pub IsKept : Time → Uuid → List OutboxEvent → Polled → Type 0
  IsKept later i rows p =
      (done left : List OutboxEvent) × (rows ≡ done ++ left)
      × (p.sent ≡ map (message topic_default) done)
      × Waits later i done p.db

  publish_rows-IsKept :
      (later : Time) (i : Uuid) (done rows : List OutboxEvent) (n : ℕ) (sent : List Message)
      (db : Db)
      → sent ≡ map (message topic_default) done
      → Waits later i done db
      → IsKept later i (done ++ rows) (publish_rows kafka topic_default marked_at rows n sent db)
  unfolding publish_rows
  publish_rows-IsKept later i done [] n sent db handed w = (done, [], refl, handed, w)
  publish_rows-IsKept later i done (row ∷ rows) n sent db handed w =
      elim (Bool-cases (kafka.accepts sent (message topic_default row))) [
        | inr e ↦ rw e (done, row ∷ rows, refl, handed, w)
        | inl e ↦
            let (done', left, split, sent', w') =
              publish_rows-IsKept later i (done ++ (row ∷ [])) rows (n + 1)
                (sent ++ (message topic_default row ∷ []))
                (mark_published row.id (marked_at row.id) db)
                (ap (λ ms. ms ++ (message topic_default row ∷ [])) handed
                  ∙ sym (map-last (message topic_default) done row))
                (mark_published-Waits later i row done (marked_at row.id) db w) in
            rw e (done', left, sym (append_assoc done (row ∷ []) rows) ∙ split, sent', w')
      ]

  -- A tick hands over the first of the rows that it claims, in order, and
  -- loses no event before its message has been handed over: an event that could be claimed is
  -- afterwards either one of the rows that were handed over, or not published, and it can be
  -- claimed again once the lock has lasted a minute.
  pub poll_once-Waits :
      (worker : String) (batch : ℕ) (now later : Time) (i : Uuid) (e : OutboxEvent) (db : Db)
      → now + lock_span < later
      → find_row (has_event_id i) db.outbox ≡ some e
      → is_claimable now e ≡ true
      → IsKept later i
          (claim_pending_outbox worker batch now db).0
          (poll_once kafka topic_default marked_at worker batch now db)
  unfolding poll_once
  poll_once-Waits worker batch now later i e db lt found c =
      let (rows, claimed) = claim_pending_outbox worker batch now db in
      publish_rows-IsKept later i [] rows 0 [] claimed refl
        (claim-Waits worker batch now later i e db lt found c)

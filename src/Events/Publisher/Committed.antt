-- ===== src/Events/Publisher/Committed.antt =====
-- From a transaction of `finish_document` (src/ocr_engine/repo/store.py) that commits to the tick of
-- the publisher (src/ocr_engine/events/publisher.py) that follows it.
use ocr.Base.{ℕ, ◌≤◌, ◌≡◌, refl, ap, ◌∙◌, String, some, List, [], ◌∷◌, ◌++◌, map}
use ocr.Base.Lists.{length, keep}
use ocr.Store.Rows.{Uuid, Time, Db}
use ocr.Store.Documents.{Finish, outbox_row, finish_document}
use ocr.Store.Finish.{finish_document-finished}
use ocr.Store.Outbox.{is_claimable, claim_row}
use ocr.Store.Outbox.Handover.{map-last, claim_pending_outbox-last}
use ocr.Pipeline.Outcome.{ok}
use ocr.Events.Publisher.{Message, Kafka, message, poll_once}
use ocr.Events.Publisher.Delivery.{poll_once_lem}

-- A message about the document that carries the event as it was given.
abbrev pub IsAnnounced : Uuid → Finish → List Message → Type 0
IsAnnounced i f sent =
    (m : Message) × (earlier later : List Message) × (sent ≡ earlier ++ (m ∷ later))
    × (m.key ≡ i)
    × (m.value ≡ f.payload)

module _ (kafka : Kafka) (topic_default : String) (marked_at : Uuid → Time) (worker : String)
    (batch : ℕ) (now : Time) where
  -- An outcome that `finish_document` has committed, and a tick of the publisher right after it that
  -- does not raise, where no more events are due than the tick claims: the tick hands to Kafka a
  -- message with the document's id as its key, and with the event as its value.
  pub finish_document-poll_once :
      (i : Uuid) (f : Finish) (row : Uuid) (ended : Time) (n : ℕ) (db after : Db)
      → finish_document i f row ended db ≡ ok after
      → length (keep (is_claimable now) after.outbox) ≤ batch
      → (poll_once kafka topic_default marked_at worker batch now after).returned ≡ some n
      → IsAnnounced i f (poll_once kafka topic_default marked_at worker batch now after).sent
  unfolding message
  finish_document-poll_once i f row ended n db after commits few returns =
      let e = outbox_row i f row ended in
      let written = finish_document-finished i f row ended db after commits in
      let (others, claimed) =
        claim_pending_outbox-last worker batch now db.outbox e after (ap (λ d. d.outbox) written)
          refl few in
      let (_, handed, _) =
        poll_once_lem kafka topic_default marked_at worker batch n now after returns in
      (
        message topic_default (claim_row worker now e),
        map (message topic_default) others,
        [],
        handed
            ∙ ap (map (message topic_default)) claimed
            ∙ map-last (message topic_default) others (claim_row worker now e),
        refl,
        refl,
      )

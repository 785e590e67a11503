-- ===== src/Store/Outbox/Settled.antt =====
-- That an event which is published stays so (src/ocr_engine/repo/store.py), while the processes go on
-- to write.
use ocr.Base.{◌≡◌, ◌≢◌, refl, ◌∙◌, List, [], ◌∷◌, arith, inl, inr}
use ocr.Base.Tests.{nat_eq, Bool-cases}
use ocr.Store.Table.{any_row, update_where}
use ocr.Store.Table.Lemmas.{any_row-append, any_row-update_where}
use ocr.Store.Rows.{Uuid, Time, Envelope, OutboxEvent, Db}
use ocr.Pipeline.Outcome.{Outcome, ok, raise}
use ocr.Store.Documents.{
  Submission, conflicts, submit_document, mark_processing, Finish, outbox_row, json_dumps,
  write_outcome, finish_document, committed, delete_document, purge_document_results,
}
use ocr.Store.Outbox.{
  select_pending, is_selected, claim_row, claim_pending_outbox, has_event_id, published_row,
  mark_published, defer_row, defer_outbox_event, is_abandoned, release_row,
  reclaim_abandoned_outbox,
}
use ocr.Store.Outbox.Claims.{is_unpublished, IsSettled}
use ocr.Store.Steps.{
  StoreStep, submit, start, finish, roll_back, purge, claim, publish, defer, reclaim, StoreReach,
  here, next,
}

-- The id that the database generates for a new event is a fresh one.
abbrev pub IsFresh : {t u : Db} → Uuid → StoreStep t u → Type 0
IsFresh i (finish j f event_row now outcome) = event_row ≢ i
IsFresh i _ = Unit

abbrev pub AllFresh : {t u : Db} → Uuid → StoreReach t u → Type 0
AllFresh i here = Unit
AllFresh i (next r s) = AllFresh i r × IsFresh i s

pub mark_published-IsSettled :
    (i j : Uuid) (now : Time) (xs : List OutboxEvent)
    → IsSettled i xs
    → IsSettled i (update_where (has_event_id j) (published_row now) xs)
mark_published-IsSettled i j now [] h = refl
mark_published-IsSettled i j now (x ∷ xs) h = ground (arith, mark_published-IsSettled i j now xs)

-- A submission writes no event.
pub submit-outbox :
    (s : Submission) (now : Time) (db : Db) → (submit_document s now db).1.outbox ≡ db.outbox
unfolding submit_document
submit-outbox s now db = elim (Bool-cases (any_row (conflicts s) db.documents)) [
  | inl old ↦ rw old refl
  | inr new ↦ rw new refl
]

module _ (i : Uuid) where
  write_outcome-IsSettled :
      (o : Outcome Envelope) (j : Uuid) (f : Finish) (event_row : Uuid) (now : Time) (db : Db)
      → event_row ≢ i
      → IsSettled i db.outbox
      → IsSettled i (committed (write_outcome o j f event_row now db) db).outbox
  write_outcome-IsSettled (raise e) j f event_row now db fresh h = h
  write_outcome-IsSettled (ok payload) j f event_row now db fresh h =
      rw (any_row-append (is_unpublished i) db.outbox (outbox_row j f event_row now ∷ []), h)
        (ground (arith, fresh))

  StoreStep-IsSettled :
      {t u : Db} (s : StoreStep t u) → IsFresh i s → IsSettled i t.outbox → IsSettled i u.outbox
  unfolding mark_processing finish_document delete_document purge_document_results
      claim_pending_outbox mark_published defer_outbox_event reclaim_abandoned_outbox
  StoreStep-IsSettled {t} (submit s now new) fresh h = rw (submit-outbox s now t) h
  StoreStep-IsSettled (start j now) fresh h = h
  StoreStep-IsSettled {t} (finish j f event_row now outcome) fresh h =
      write_outcome-IsSettled (json_dumps f.payload.idempotency_key f.payload) j f event_row now t
        fresh h
  StoreStep-IsSettled (roll_back j) fresh h = h
  StoreStep-IsSettled (purge ids now) fresh h = h
  StoreStep-IsSettled {t} (claim worker batch now) fresh h =
      any_row-update_where (is_unpublished i) (is_selected (select_pending now batch t.outbox))
        (claim_row worker now) (λ e. refl) t.outbox
      ∙ h
  StoreStep-IsSettled {t} (publish j now) fresh h = mark_published-IsSettled i j now t.outbox h
  StoreStep-IsSettled {t} (defer j error now) fresh h =
      any_row-update_where (is_unpublished i) (has_event_id j) (defer_row error now) (λ e. refl)
        t.outbox
      ∙ h
  StoreStep-IsSettled {t} (reclaim older_than) fresh h =
      any_row-update_where (is_unpublished i) (is_abandoned older_than) release_row (λ e. refl)
        t.outbox
      ∙ h

  pub StoreReach-IsSettled :
      {t u : Db} (r : StoreReach t u) → AllFresh i r → IsSettled i t.outbox → IsSettled i u.outbox
  StoreReach-IsSettled here fresh h = h
  StoreReach-IsSettled (next r s) fresh h =
      StoreStep-IsSettled s fresh.1 (StoreReach-IsSettled r fresh.0 h)

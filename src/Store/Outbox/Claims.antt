-- ===== src/Store/Outbox/Claims.antt =====
-- Which events `claim_pending_outbox` can return.
use ocr.Base.{ℕ, ◌≡◌, refl, ◌∙◌, ap, String, Bool, false, ◌&&◌, List, [], ◌∷◌, map, arith, inl, inr}
use ocr.Base.Tests.{nat_eq, Bool-cases}
use ocr.Base.Lists.{keep, contains}
use ocr.Store.Table.{any_row}
use ocr.Store.Table.Lemmas.{any_row-take, any_row-sort_by}
use ocr.Store.Rows.{Uuid, Time, OutboxEvent, Db}
use ocr.Store.Outbox.{
  is_null, is_claimable, event_id, event_created, has_event_id, select_pending, is_selected,
  claim_row, claim_pending_outbox,
}

-- The event with this id awaits publication.
abbrev pub is_unpublished : Uuid → OutboxEvent → Bool
is_unpublished i e = has_event_id i e && is_null e.published_at

-- No event with this id awaits publication.
abbrev pub IsSettled : Uuid → List OutboxEvent → Type 0
IsSettled i outbox = any_row (is_unpublished i) outbox ≡ false

pub contains-event_id :
    (i : Uuid) (xs : List OutboxEvent) → contains (map event_id xs) i ≡ any_row (has_event_id i) xs
contains-event_id i [] = refl
contains-event_id i (x ∷ xs) = ground (arith, contains-event_id i xs)

claimable-IsSettled :
    (i : Uuid) (now : Time) (xs : List OutboxEvent)
    → IsSettled i xs
    → any_row (has_event_id i) (keep (is_claimable now) xs) ≡ false
claimable-IsSettled i now [] h = refl
claimable-IsSettled i now (x ∷ xs) h = ground (arith, claimable-IsSettled i now xs)

pub select_pending-IsSettled :
    (i : Uuid) (now : Time) (batch : ℕ) (xs : List OutboxEvent)
    → IsSettled i xs
    → contains (select_pending now batch xs) i ≡ false
unfolding select_pending
select_pending-IsSettled i now batch xs h =
    contains-event_id i _
    ∙ any_row-take (has_event_id i) batch _ (
        any_row-sort_by (has_event_id i) event_created (keep (is_claimable now) xs)
        ∙ claimable-IsSettled i now xs h)

unselected-absent :
    (i : Uuid) (worker : String) (now : Time) (ids : List Uuid) (xs : List OutboxEvent)
    → contains ids i ≡ false
    → any_row (has_event_id i) (map (claim_row worker now) (keep (is_selected ids) xs)) ≡ false
unselected-absent i worker now ids [] h = refl
unselected-absent i worker now ids (x ∷ xs) h = elim (Bool-cases (has_event_id i x)) [
  | inl e ↦
      let same : x.id ≡ i = ground arith in
      rw (ap (contains ids) same, h) (unselected-absent i worker now ids xs h)
  | inr e ↦ elim (Bool-cases (contains ids x.id)) [
    | inl c ↦ rw (c, e) (unselected-absent i worker now ids xs h)
    | inr c ↦ rw c (unselected-absent i worker now ids xs h)
  ]
]

-- An event that is published is not claimed.
pub claim_pending_outbox-IsSettled :
    (i : Uuid) (worker : String) (batch : ℕ) (now : Time) (db : Db)
    → IsSettled i db.outbox
    → any_row (has_event_id i) (claim_pending_outbox worker batch now db).0 ≡ false
unfolding claim_pending_outbox
claim_pending_outbox-IsSettled i worker batch now db h =
    unselected-absent i worker now (select_pending now batch db.outbox) db.outbox
      (select_pending-IsSettled i now batch db.outbox h)

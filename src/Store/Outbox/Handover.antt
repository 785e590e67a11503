-- ===== src/Store/Outbox/Handover.antt =====
-- That `claim_pending_outbox` returns every event that is due, up to its limit.
use ocr.Base.{
  ℕ, suc, zero, ◌≤◌, ◌≡◌, refl, ◌∙◌, ap, String, Bool, true, List, [], ◌∷◌, ◌++◌, map, arith,
}
use ocr.Base.Tests.{nat_eq, nat_beq_iff}
use ocr.Base.Lists.{length, take, keep, contains}
use ocr.Store.Table.{any_row, sort_by}
use ocr.Store.Table.Lemmas.{any_row-sort_by, length-sort_by}
use ocr.Store.Rows.{Time, OutboxEvent, Db}
use ocr.Store.Outbox.{
  is_claimable, event_created, has_event_id, select_pending, is_selected, claim_row,
  claim_pending_outbox,
}
use ocr.Store.Outbox.Claims.{contains-event_id}

module _ {ℓ} {A : Type ℓ} where
  take-all : (n : ℕ) (xs : List A) → length xs ≤ n → take n xs ≡ xs
  take-all zero [] h = refl
  take-all zero (x ∷ xs) h = absurd (omega arith)
  take-all (suc n) [] h = refl
  take-all (suc n) (x ∷ xs) h = ap (λ t. x ∷ t) (take-all n xs (omega arith))

  any_row-keep_last :
      (p q : A → Bool) (xs : List A) (a : A)
      → p a ≡ true
      → q a ≡ true
      → any_row p (keep q (xs ++ (a ∷ []))) ≡ true
  any_row-keep_last p q [] a pa qa = ground (arith, pa, qa)
  any_row-keep_last p q (x ∷ xs) a pa qa = ground (arith, any_row-keep_last p q xs a pa qa)

  keep-last :
      (q : A → Bool) (xs : List A) (a : A)
      → q a ≡ true
      → keep q (xs ++ (a ∷ [])) ≡ keep q xs ++ (a ∷ [])
  keep-last q [] a qa = ground (arith, qa)
  keep-last q (x ∷ xs) a qa = ground (arith, keep-last q xs a qa)

pub map-last {ℓ κ} :
    {A : Type ℓ} {B : Type κ} (f : A → B) (xs : List A) (a : A)
    → map f (xs ++ (a ∷ [])) ≡ map f xs ++ (f a ∷ [])
map-last f [] a = refl
map-last f (x ∷ xs) a = ap (λ t. f x ∷ t) (map-last f xs a)

select_pending-last :
    (now : Time) (batch : ℕ) (xs : List OutboxEvent) (e : OutboxEvent)
    → is_claimable now e ≡ true
    → length (keep (is_claimable now) (xs ++ (e ∷ []))) ≤ batch
    → contains (select_pending now batch (xs ++ (e ∷ []))) e.id ≡ true
unfolding select_pending
select_pending-last now batch xs e due few =
    let pending = keep (is_claimable now) (xs ++ (e ∷ [])) in
    contains-event_id e.id (take batch (sort_by event_created pending))
    ∙ ap (any_row (has_event_id e.id)) (
        take-all batch (sort_by event_created pending)
          (omega (arith, length-sort_by event_created pending, few)))
    ∙ any_row-sort_by (has_event_id e.id) event_created pending
    ∙ any_row-keep_last (has_event_id e.id) (is_claimable now) xs e ((nat_beq_iff e.id e.id).1 refl)
        due

-- An event that is due is claimed, with the others, if no more than the limit are due.
pub claim_pending_outbox-last :
    (worker : String) (batch : ℕ) (now : Time) (xs : List OutboxEvent) (e : OutboxEvent) (db : Db)
    → db.outbox ≡ xs ++ (e ∷ [])
    → is_claimable now e ≡ true
    → length (keep (is_claimable now) db.outbox) ≤ batch
    → (others : List OutboxEvent) × ((claim_pending_outbox worker batch now db).0
        ≡ others ++ (claim_row worker now e ∷ []))
unfolding claim_pending_outbox
claim_pending_outbox-last worker batch now xs e db out due few =
    let ids = select_pending now batch (xs ++ (e ∷ [])) in
    (
      map (claim_row worker now) (keep (is_selected ids) xs),
      rw out (
          ap (map (claim_row worker now)) (
            keep-last (is_selected ids) xs e
              (select_pending-last now batch xs e due (rw out at few)))
          ∙ map-last (claim_row worker now) (keep (is_selected ids) xs) e),
    )

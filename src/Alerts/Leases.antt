-- ===== src/Alerts/Leases.antt =====
-- backend/src/alerts.rs: what a lease on a delivery protects (`claim_delivery`,
-- `start_delivery_attempt`, `release_delivery_claim`, `mark_delivery_suppressed`,
-- `finish_delivery_attempt`).
use operation_monitoring.Base.{
  ℕ, ◌≤◌, ◌≡◌, ◌∙◌, ◌⊎◌, inl, inr, refl, sym, Bool, Bool-cases, true, false, Option, none, some,
  unwrap_or, List, [], ◌∷◌, arith, any, not, find-update_same, ==_refl, ==_iff, All, is_some, ap,
  ◌&&◌, count, find, update_where, update_none, count_of_any-false, ◌==◌,
}
use operation_monitoring.Base.Int.{ℤ, pos, ◌+ℤ◌, ◌≤ℤ◌}
use mathlib.Core.Option.{some-injective}
use operation_monitoring.Alerts.Model.{
  DeliveryRow, DeliveryStatus, pending, processing, SuppressionReason, Db, draw, new_v4,
}
use operation_monitoring.Alerts.Sound.{Sound}
use operation_monitoring.Alerts.Delivery.{
  WebhookAttemptOutcome, holds_lease, holds_live_lease, start_delivery_attempt, claim_delivery,
  claim_row, lease_row, in_flight, in_status, is_due, opt_eq, delivery_id_is, blocks,
}
use operation_monitoring.Alerts.Delivery.Soundness.{chosen_row}
use operation_monitoring.Alerts.Completion.{
  release_delivery_claim, mark_delivery_suppressed, finish_delivery_attempt,
}

in_pending : (s : DeliveryStatus) → in_status s pending ≡ true → s ≡ pending
in_pending s h = ground arith

in_processing : (s : DeliveryStatus) → in_status s processing ≡ true → s ≡ processing
in_processing s h = ground arith

same_token : (a b : Option ℕ) → (is_some b && opt_eq a b) ≡ true → a ≡ b
same_token none none h = refl
same_token none (some n) h = absurd (cc)
same_token (some m) none h = absurd (cc)
same_token (some m) (some n) h = ap some ((==_iff m n).0 h)

module _ {V : Type 0} where
  none_held :
      (delivery : DeliveryRow V) (f : DeliveryRow V → DeliveryRow V) (ds : List (DeliveryRow V))
      → any (holds_lease delivery) ds ≡ false
      → update_where (holds_lease delivery) f ds ≡ ds
  none_held delivery f ds h =
      update_none (holds_lease delivery) f ds (count_of_any-false (holds_lease delivery) ds h)

  none_live :
      (now : ℤ) (delivery : DeliveryRow V) (f : DeliveryRow V → DeliveryRow V)
      (ds : List (DeliveryRow V))
      → any (holds_lease delivery) ds ≡ false
      → update_where (holds_live_lease now delivery) f ds ≡ ds
  none_live now delivery f [] h = refl
  none_live now delivery f (d ∷ ds) h = ground (arith, none_live now delivery f ds)

  find_live :
      (now : ℤ) (delivery : DeliveryRow V) (ds : List (DeliveryRow V))
      → any (holds_lease delivery) ds ≡ false
      → find (holds_live_lease now delivery) ds ≡ none
  find_live now delivery [] h = refl
  find_live now delivery (d ∷ ds) h = ground (arith, find_live now delivery ds)

  -- A row that does not give the worker its lease: another delivery, or one that is not processing, or
  -- is under another token than the worker's.
  abbrev pub NotLeased : DeliveryRow V → DeliveryRow V → Type 0
  NotLeased delivery d =
      ¬ ((d.id ≡ delivery.id) × (d.status ≡ processing) × (d.lease_token ≡ delivery.lease_token))

  holds_lease-row :
      (delivery d : DeliveryRow V) → NotLeased delivery d → holds_lease delivery d ≡ false
  holds_lease-row delivery d lost = elim (Bool-cases (holds_lease delivery d)) [
    | inr miss ↦ miss
    | inl hit ↦ absurd (
        lost (
          ground (arith, hit),
          in_processing d.status (ground (arith, hit)),
          same_token d.lease_token delivery.lease_token (ground (arith, hit)),
        ))
  ]

  none_leased :
      (delivery : DeliveryRow V) (ds : List (DeliveryRow V))
      → All (NotLeased delivery) ds
      → any (holds_lease delivery) ds ≡ false
  none_leased delivery [] h = refl
  none_leased delivery (d ∷ ds) h =
      rw (holds_lease-row delivery d h.0) (none_leased delivery ds h.1)

  -- A worker that acts on a delivery after its lease went to another worker, or ended, so that no row
  -- of that identifier is processing under the worker's token, changes nothing: neither by starting
  -- an attempt, which it does not get, nor by releasing the delivery, suppressing it, or recording
  -- an outcome.
  pub lost_lease_changes_nothing :
      (db : Db V) (delivery : DeliveryRow V) (outcome : WebhookAttemptOutcome)
      (reason : SuppressionReason) (now : ℤ)
      → All (NotLeased delivery) db.deliveries
      → (start_delivery_attempt db delivery now ≡ (db, none))
        × (release_delivery_claim db delivery now ≡ db)
        × (mark_delivery_suppressed db delivery reason now ≡ db)
        × (finish_delivery_attempt db delivery outcome now ≡ db)
  unfolding start_delivery_attempt release_delivery_claim mark_delivery_suppressed
      finish_delivery_attempt
  lost_lease_changes_nothing db delivery outcome reason now lost =
      let h = none_leased delivery db.deliveries lost in
      (
        rw (none_live now delivery _ db.deliveries h, find_live now delivery db.deliveries h) refl,
        rw (none_held delivery _ db.deliveries h) refl,
        rw h refl,
        rw h refl,
      )

  others_only :
      (p q : DeliveryRow V → Bool) (ds : List (DeliveryRow V))
      → count (λ d. p d && not (q d)) ds ≡ 0
      → count q ds ≡ 0
      → count p ds ≡ 0
  others_only p q [] a b = refl
  others_only p q (d ∷ ds) a b = ground (arith, others_only p q ds)

  -- The row that takes the lease is the only one under a test that no other row passes.
  count-lease :
      (p : DeliveryRow V → Bool) (id : ℕ) (f : DeliveryRow V → DeliveryRow V)
      (ds : List (DeliveryRow V)) (d : DeliveryRow V)
      → find (delivery_id_is id) ds ≡ some d
      → count (delivery_id_is id) ds ≤ 1
      → count (λ x. p x && not (x.id == id)) ds ≡ 0
      → p (f d) ≡ true
      → count p (update_where (delivery_id_is id) f ds) ≡ 1
  count-lease p id f [] d found one others h = cc
  count-lease p id f (x ∷ ds) d found one others h = ground (
    arith,
    update_none (delivery_id_is id) f ds,
    others_only p (delivery_id_is id) ds,
    count-lease p id f ds d,
  )

  claimed_row :
      (db : Db V) (now : ℤ) (token : ℕ) (o : Option (DeliveryRow V)) (d : DeliveryRow V)
      → (claim_row db now token o).1 ≡ some d
      → (chosen : DeliveryRow V) × (o ≡ some chosen) × (d ≡ lease_row now token chosen)
  unfolding claim_row
  claimed_row db now token none d h = absurd (cc)
  claimed_row db now token (some c) d h = (c, refl, sym (some-injective _ _ h))

  lease-in_flight :
      (now : ℤ) (token : ℕ) (d : DeliveryRow V)
      → in_flight d.channel_id now (lease_row now token d) ≡ true
  unfolding lease_row ◌+ℤ◌
  lease-in_flight now token d = ground arith

  was_free :
      (now : ℤ) (d : DeliveryRow V)
      → is_due now d ≡ true
      → (d.status ≡ pending) ⊎ (unwrap_or d.lease_until (pos 0) ≤ℤ now)
  was_free now d h = elim (Bool-cases (in_status d.status pending)) [
    | inl free ↦ inl (in_pending d.status free)
    | inr taken ↦ inr (ground arith)
  ]

  find-other :
      (k id token : ℕ) (now : ℤ) (ds : List (DeliveryRow V))
      → (k == id) ≡ false
      → find (delivery_id_is k) (update_where (delivery_id_is id) (lease_row now token) ds)
        ≡ find (delivery_id_is k) ds
  unfolding lease_row
  find-other k id token now [] other = refl
  find-other k id token now (d ∷ ds) other = ground (arith, find-other k id token now ds)

  -- A claim that is made while no other transaction commits, with tables that are sound: the worker
  -- holds the lease with the token just drawn, until 180 seconds from now; its delivery is the only
  -- one of its channel under an unexpired lease; and no other delivery of its event to its
  -- channel, still open, came before it.
  pub claim_is_exclusive :
      (db : Db V) (locked : ℕ → Bool) (now : ℤ) (d : DeliveryRow V)
      → Sound db
      → (claim_delivery db db locked now).1 ≡ some d
      → (d.lease_token ≡ some (new_v4 db))
        × (d.lease_until ≡ some (now +ℤ pos 180))
        × (count (in_flight d.channel_id now) (claim_delivery db db locked now).0.deliveries ≡ 1)
        × (count (blocks d) db.deliveries ≡ 0)
  unfolding claim_delivery claim_row lease_row
  claim_is_exclusive db locked now d s h =
      let token = new_v4 db in
      let drawn = draw db in
      let (c, chosen, leased) = claimed_row drawn now token _ d h in
      let (candidate, row) = chosen_row db db locked now _ c refl chosen in
      let p = in_flight c.channel_id now in
      let alone : any (λ o. p o && not (o.id == c.id)) db.deliveries ≡ false =
        ground (arith, candidate) in
      let first : any (blocks c) db.deliveries ≡ false = ground (arith, candidate) in
      rw (leased, chosen)
        (
          refl,
          refl,
          count-lease p c.id (lease_row now token) db.deliveries c row (s.outgoing.one_id c.id)
              (count_of_any-false _ db.deliveries alone) (lease-in_flight now token c),
          count_of_any-false (blocks c) db.deliveries first,
        )

  -- Whatever other transactions commit between the start of a claim and its locks: the delivery that
  -- a worker gets was pending, or its lease had run out, in the tables at that moment; there the
  -- worker's lease, with the token just drawn and until 180 seconds from now, replaces what was left
  -- of the old one; and every other delivery is as it was.
  pub claim_takes_free_delivery :
      (seen db : Db V) (locked : ℕ → Bool) (now : ℤ) (d : DeliveryRow V)
      → (claim_delivery seen db locked now).1 ≡ some d
      → (old : DeliveryRow V) × (find (delivery_id_is d.id) db.deliveries ≡ some old)
        × ((old.status ≡ pending) ⊎ (unwrap_or old.lease_until (pos 0) ≤ℤ now))
        × (find (delivery_id_is d.id) (claim_delivery seen db locked now).0.deliveries ≡ some d)
        × (d ≡ record old {
          status = processing;
          lease_until = some (now +ℤ pos 180);
          lease_token = some (new_v4 db);
          updated_at = now;
        })
        × ((k : ℕ)
            → (k == d.id) ≡ false
            → find (delivery_id_is k) (claim_delivery seen db locked now).0.deliveries
              ≡ find (delivery_id_is k) db.deliveries)
  unfolding claim_delivery claim_row lease_row
  claim_takes_free_delivery seen db locked now d h =
      let token = new_v4 db in
      let (c, chosen, leased) = claimed_row (draw db) now token _ d h in
      let (candidate, row) = chosen_row seen db locked now _ c refl chosen in
      rw (leased, chosen)
        (
          c,
          row,
          was_free now c (ground (arith, candidate)),
          find-update_same (delivery_id_is c.id) (delivery_id_is c.id) (lease_row now token)
                (λ _ _. refl) db.deliveries
              ∙ rw (row, ==_refl c.id) refl,
          refl,
          λ k other. find-other k c.id token now db.deliveries other,
        )

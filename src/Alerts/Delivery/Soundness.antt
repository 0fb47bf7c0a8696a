-- ===== src/Alerts/Delivery/Soundness.antt =====
-- backend/src/alerts.rs: the delivery queue keeps the tables sound.
use operation_monitoring.Base.{
  ℕ, ◌+◌, ◌≡◌, refl, sym, subst, Bool, true, Option, none, some, List, arith, All-update, ==_iff,
  find-holds, All-first_by, retain, retain-All, first_by, count-update_found, count-update_same,
  find, update_where,
}
use operation_monitoring.Base.Int.{ℤ}
use operation_monitoring.Alerts.Model.{DeliveryRow, Db, draw}
use operation_monitoring.Alerts.Lifecycle.{deliverable_key}
use operation_monitoring.Alerts.Resolution.Soundness.{update-DeliveriesOk}
use operation_monitoring.Alerts.Sound.{
  IsDrawn, DeliveriesOk, DeliveriesOk-later, IsDrawn-later, Sound,
}
use operation_monitoring.Alerts.Delivery.{
  is_claimable, still_claimable, is_candidate, current_row, queue_order, lease_row, delivery_id_is,
  claim_row, claim_delivery, start_row, holds_live_lease, start_delivery_attempt,
}

module _ {V : Type 0} where
  pub set_deliveries-Sound :
      (db : Db V) (deliveries : List (DeliveryRow V))
      → DeliveriesOk db.uuids db.drawn deliveries
      → Sound db
      → Sound (record db { deliveries = deliveries })
  set_deliveries-Sound db deliveries new s = record {
    one_active = s.one_active;
    one_id = s.one_id;
    drawn_ids = s.drawn_ids;
    outgoing = new;
    distinct = s.distinct;
  }

  current-claimable :
      (seen db : Db V) (now : ℤ) (o : Option (DeliveryRow V)) (d : DeliveryRow V)
      → o ≡ some d
      → still_claimable seen db now o ≡ true
      → is_claimable seen db now d ≡ true
  current-claimable seen db now o d e h = rw e at h

  -- The row that is claimed is in the table, under its identifier, and passes the test with its
  -- present version.
  pub chosen_row :
      (seen db : Db V) (locked : ℕ → Bool) (now : ℤ) (o : Option (DeliveryRow V))
      (d : DeliveryRow V)
      → first_by queue_order (retain (is_candidate seen db locked now) seen.deliveries) ≡ o
      → current_row db o ≡ some d
      → (is_claimable seen db now d ≡ true) × (find (delivery_id_is d.id) db.deliveries ≡ some d)
  chosen_row seen db locked now none d h read = absurd (cc)
  chosen_row seen db locked now (some c) d h read =
      let test = is_candidate seen db locked now in
      let passed =
        All-first_by (λ x. test x ≡ true) queue_order _ c (retain-All test seen.deliveries) h in
      let current : still_claimable seen db now (find (delivery_id_is c.id) db.deliveries) ≡ true =
        ground (arith, passed) in
      let id : d.id ≡ c.id =
        (==_iff d.id c.id).0 (find-holds (delivery_id_is c.id) db.deliveries d read) in
      (
        current-claimable seen db now (find (delivery_id_is c.id) db.deliveries) d read current,
        subst (λ k. find (delivery_id_is k) db.deliveries ≡ some d) (sym id) read,
      )

  lease-DeliveriesOk :
      (seen db : Db V) (now : ℤ) (token : ℕ) (d : DeliveryRow V)
      → is_claimable seen db now d ≡ true
      → find (delivery_id_is d.id) db.deliveries ≡ some d
      → DeliveriesOk db.uuids db.drawn db.deliveries
      → DeliveriesOk db.uuids db.drawn
          (update_where (delivery_id_is d.id) (lease_row now token) db.deliveries)
  unfolding lease_row
  lease-DeliveriesOk seen db now token d candidate row old =
      let lease = lease_row now token in
      record {
        one_each = λ e c k. omega (
          arith,
          old.one_each e c k,
          count-update_found (deliverable_key e c k) (delivery_id_is d.id) lease db.deliveries d row
              (old.one_id d.id) (ground (arith, candidate)),
        );
        one_id = λ k. omega (
          arith,
          old.one_id k,
          count-update_same (delivery_id_is k) (delivery_id_is d.id) lease (λ x _. refl)
              db.deliveries,
        );
        drawn_ids =
            All-update (IsDrawn (λ x. x.id) db.uuids db.drawn) (delivery_id_is d.id) lease
              (λ x h. h) db.deliveries old.drawn_ids;
      }

  pub draw-Sound : (db : Db V) → Sound db → Sound (draw db)
  draw-Sound db s = record {
    one_active = s.one_active;
    one_id = s.one_id;
    drawn_ids =
        IsDrawn-later (λ e. e.id) db.uuids db.drawn (db.drawn + 1) db.events (omega arith)
          s.drawn_ids;
    outgoing =
        DeliveriesOk-later db.uuids db.drawn (db.drawn + 1) db.deliveries (omega arith) s.outgoing;
    distinct = s.distinct;
  }

  claim_row-Sound :
      (seen db : Db V) (now : ℤ) (token : ℕ) (o : Option (DeliveryRow V))
      → ((d : DeliveryRow V)
          → o ≡ some d
          → (is_claimable seen db now d ≡ true)
            × (find (delivery_id_is d.id) db.deliveries ≡ some d))
      → Sound db
      → Sound (claim_row (draw db) now token o).0
  unfolding claim_row
  claim_row-Sound seen db now token none h s = draw-Sound db s
  claim_row-Sound seen db now token (some d) h s =
      let (candidate, row) = h d refl in
      set_deliveries-Sound (draw db) _
        (DeliveriesOk-later db.uuids db.drawn (db.drawn + 1) _ (omega arith)
          (lease-DeliveriesOk seen db now token d candidate row s.outgoing))
        (draw-Sound db s)

  pub claim_delivery-Sound :
      (seen db : Db V) (locked : ℕ → Bool) (now : ℤ)
      → Sound db
      → Sound (claim_delivery seen db locked now).0
  unfolding claim_delivery
  claim_delivery-Sound seen db locked now s =
      claim_row-Sound seen db now _ _ (λ d read. chosen_row seen db locked now _ d refl read) s

  pub start_delivery_attempt-Sound :
      (db : Db V) (delivery : DeliveryRow V) (now : ℤ)
      → Sound db
      → Sound (start_delivery_attempt db delivery now).0
  unfolding start_delivery_attempt start_row
  start_delivery_attempt-Sound db delivery now s =
      set_deliveries-Sound db _
        (update-DeliveriesOk db.uuids db.drawn db.deliveries (holds_live_lease now delivery)
          (start_row now) (λ e c k d q p. p) (λ d. refl) s.outgoing)
        s

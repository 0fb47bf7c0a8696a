-- ===== src/Alerts/Completion/Soundness.antt =====
-- backend/src/alerts.rs: ending a delivery, or queueing it again, keeps the tables sound.
use Prim.Native.String.{String}
use operation_monitoring.Base.{
  ℕ, ◌≡◌, refl, ap, subst, Bool, Option, none, some, arith, any, find, update_where, ◌==◌, ◌&&◌,
  Bool-cases, inl, inr,
}
use operation_monitoring.Base.Int.{ℤ}
use operation_monitoring.Alerts.Model.{
  SuppressionReason, ChannelRow, DeliveryRow, Db, pending, failed,
}
use operation_monitoring.Alerts.Resolution.{has_id_active}
use operation_monitoring.Alerts.Resolution.Soundness.{update_events-Sound, update-DeliveriesOk}
use operation_monitoring.Alerts.Sound.{Sound}
use operation_monitoring.Alerts.Delivery.{
  Reset, delivery_not_found, ok, err, WebhookAttemptOutcome, in_status, holds_lease, delivery_id_is,
}
use operation_monitoring.Alerts.Delivery.Soundness.{set_deliveries-Sound, draw-Sound}
use operation_monitoring.Alerts.Completion.{
  set_leased, release_row, release_delivery_claim, suppress_leased_row, suppress_event,
  mark_delivery_suppressed, cool_down, finish_row, finish_delivery_attempt, reset_row,
  reset_on_channel, reset_found, reset_failed_delivery_tx, channel_row,
}

module _ {V : Type 0} where
  -- The leased row is not suppressed, so it may become anything under its own key.
  set_leased-Sound :
      (db : Db V) (delivery : DeliveryRow V) (f : DeliveryRow V → DeliveryRow V)
      → ((d : DeliveryRow V)
          → ((f d).id ≡ d.id)
            × ((f d).event_id ≡ d.event_id)
            × ((f d).channel_id ≡ d.channel_id)
            × ((f d).kind ≡ d.kind))
      → Sound db
      → Sound (set_leased db delivery f)
  set_leased-Sound db delivery f h s =
      set_deliveries-Sound db _
        (update-DeliveriesOk db.uuids db.drawn db.deliveries (holds_lease delivery) f
          (λ e c k d q p. ground (arith, h d)) (λ d. (h d).0) s.outgoing)
        s

  pub release_delivery_claim-Sound :
      (db : Db V) (delivery : DeliveryRow V) (retry_at : ℤ)
      → Sound db
      → Sound (release_delivery_claim db delivery retry_at)
  unfolding release_delivery_claim
  release_delivery_claim-Sound db delivery retry_at =
      set_leased-Sound db delivery (release_row retry_at) (λ d. (refl, refl, refl, refl))

  suppress_event-Sound :
      (db : Db V) (event_id : Option ℕ) (reason : SuppressionReason)
      → Sound db
      → Sound (record db { events = suppress_event event_id reason db.events })
  suppress_event-Sound db none reason s = s
  suppress_event-Sound db (some event_id) reason s =
      update_events-Sound db (has_id_active event_id) _ (λ r i e q p. p) (λ e. refl) s

  pub mark_delivery_suppressed-Sound :
      (db : Db V) (delivery : DeliveryRow V) (reason : SuppressionReason) (now : ℤ)
      → Sound db
      → Sound (mark_delivery_suppressed db delivery reason now)
  unfolding mark_delivery_suppressed
  mark_delivery_suppressed-Sound db delivery reason now s =
      elim (Bool-cases (any (holds_lease delivery) db.deliveries)) [
        | inl e ↦
            rw (e, mark_delivery_suppressed)
              (suppress_event-Sound _ delivery.event_id reason (
                set_leased-Sound db delivery (suppress_leased_row reason now)
                  (λ d. (refl, refl, refl, refl)) s))
        | inr e ↦ rw (e, mark_delivery_suppressed) s
      ]

  cool_down-Sound :
      (db : Db V) (channel_id : ℕ) (now : ℤ) (delay : Option ℤ)
      → Sound db
      → Sound (cool_down db channel_id now delay)
  unfolding cool_down
  cool_down-Sound db channel_id now none s = s
  cool_down-Sound db channel_id now (some delay) s =
      let waiting =
        update-DeliveriesOk db.uuids db.drawn db.deliveries
          (λ d. (d.channel_id == channel_id) && in_status d.status pending) _ (λ e c k d q p. p)
          (λ d. refl) s.outgoing in
      record {
        one_active = s.one_active;
        one_id = s.one_id;
        drawn_ids = s.drawn_ids;
        outgoing = waiting;
        distinct = s.distinct;
      }

  finish_row_keeps :
      (delivery : DeliveryRow V) (outcome : WebhookAttemptOutcome) (event_resolved : Bool)
      (inactive : Option String) (now : ℤ) (d : DeliveryRow V)
      → let out = finish_row delivery outcome event_resolved inactive now d in
        (out.id ≡ d.id)
        × (out.event_id ≡ d.event_id)
        × (out.channel_id ≡ d.channel_id)
        × (out.kind ≡ d.kind)
  unfolding finish_row
  finish_row_keeps delivery outcome event_resolved inactive now d = ground arith

  pub finish_delivery_attempt-Sound :
      (db : Db V) (delivery : DeliveryRow V) (outcome : WebhookAttemptOutcome) (now : ℤ)
      → Sound db
      → Sound (finish_delivery_attempt db delivery outcome now)
  unfolding finish_delivery_attempt
  finish_delivery_attempt-Sound db delivery outcome now s =
      elim (Bool-cases (any (holds_lease delivery) db.deliveries)) [
        | inl e ↦
            rw (e, finish_delivery_attempt)
              (set_leased-Sound _ delivery _ (finish_row_keeps delivery outcome _ _ now) (
                cool_down-Sound _ delivery.channel_id now _ (record {
                  one_active = s.one_active;
                  one_id = s.one_id;
                  drawn_ids = (draw-Sound db s).drawn_ids;
                  outgoing = (draw-Sound db s).outgoing;
                  distinct = s.distinct;
                })))
        | inr e ↦ rw (e, finish_delivery_attempt) s
      ]

  result_or : Db V → Reset (Db V) → Db V
  result_or d (ok out) = out
  result_or d (err e) = d

  ok-injective : {a b : Db V} → ok a ≡ ok b → a ≡ b
  unfolding result_or
  ok-injective {a} h = ap (result_or a) h

  reset_on_channel-Sound :
      (db : Db V) (id : ℕ) (now : ℤ) (c : Option ChannelRow) {out : Db V}
      → reset_on_channel db id now c ≡ ok out
      → Sound db
      → Sound out
  unfolding reset_on_channel
  reset_on_channel-Sound db id now none h s = absurd (cc)
  reset_on_channel-Sound db id now (some c) {out} h s =
      let reset =
        set_deliveries-Sound db _
          (update-DeliveriesOk db.uuids db.drawn db.deliveries
            (λ d. (d.id == id) && in_status d.status failed) (reset_row now)
            (λ e c k d q p. ground arith) (λ d. refl) s.outgoing)
          s in
      let done : ok (record db {
        deliveries =
            update_where (λ d. (d.id == id) && in_status d.status failed) (reset_row now)
              db.deliveries;
      })
          ≡ ok out =
        ground (arith, h) in
      subst Sound (ok-injective done) reset

  reset_found-Sound :
      (db : Db V) (id : ℕ) (now : ℤ) (d : DeliveryRow V) {out : Db V}
      → reset_found db id now d ≡ ok out
      → Sound db
      → Sound out
  unfolding reset_found
  reset_found-Sound db id now d h s =
      reset_on_channel-Sound db id now (channel_row db d.channel_id) (ground (arith, h)) s

  reset_lookup-Sound :
      (db : Db V) (id : ℕ) (now : ℤ) (o : Option (DeliveryRow V)) {out : Db V}
      → (elim o [ none ↦ err delivery_not_found | some d ↦ reset_found db id now d ]) ≡ ok out
      → Sound db
      → Sound out
  reset_lookup-Sound db id now none h s = absurd (cc)
  reset_lookup-Sound db id now (some d) h s = reset_found-Sound db id now d h s

  pub reset_failed_delivery_tx-Sound :
      (db : Db V) (id : ℕ) (now : ℤ) {out : Db V}
      → reset_failed_delivery_tx db id now ≡ ok out
      → Sound db
      → Sound out
  unfolding reset_failed_delivery_tx
  reset_failed_delivery_tx-Sound db id now h s =
      reset_lookup-Sound db id now (find (delivery_id_is id) db.deliveries) h s

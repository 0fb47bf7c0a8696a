-- ===== src/Alerts/Lifecycle/Outbox.antt =====
-- backend/src/alerts.rs, `enqueue_event_lifecycle_tx`: what it leaves alone, and the unique index.
use Prim.Native.String.{String}
use operation_monitoring.Base.{
  ℕ, ◌+◌, ◌≤◌, ◌≡◌, refl, ◌∙◌, ap, not, ◌&&◌, Option, is_some, List, [], ◌∷◌, arith, All, any,
  count, count-append, count_of_any-false, All-append, Bool-cases, inl, inr, subst, ◌==◌,
}
use operation_monitoring.Base.Int.{ℤ}
use operation_monitoring.Alerts.Model.{
  DeliveryKind, EventRow, ChannelRow, SuppressionReason, Db, alert_firing,
}
use operation_monitoring.Alerts.Lifecycle.{
  is_firing_kind, lifecycle_key, deliverable_key, new_delivery, insert_delivery_tx, enqueue_channel,
  enqueue_channels, enqueue_event_lifecycle_tx, event_channel_rows,
}
use operation_monitoring.Alerts.Sound.{
  IsDrawn, Distinct, DeliveriesOk, IsDrawn-later, fresh_id, Sound,
}

module _ {V : Type 0} where
  -- Only the deliveries and the identifiers drawn differ.
  abbrev pub Enqueued : Db V → Db V → Type 0
  Enqueued db out =
      (out ≡ record db { deliveries = out.deliveries; drawn = out.drawn }) × (db.drawn ≤ out.drawn)

  Enqueued-trans : (a b c : Db V) → Enqueued a b → Enqueued b c → Enqueued a c
  Enqueued-trans a b c h k = (
    k.0
        ∙ ap {A = Db V} {B = Db V} (λ d. record d { deliveries = c.deliveries; drawn = c.drawn })
            h.0,
    omega (arith, h.1, k.1),
  )

  abbrev Outgoing : Db V → Type 0
  Outgoing db = Distinct db.uuids × DeliveriesOk db.uuids db.drawn db.deliveries

  Enqueued-Sound : (db out : Db V) → Enqueued db out → Outgoing out → Sound db → Sound out
  Enqueued-Sound db out (e, le) ok s =
      let (distinct, outgoing) = subst Outgoing e ok in
      rw e (record {
        one_active = s.one_active;
        one_id = s.one_id;
        drawn_ids = IsDrawn-later (λ e. e.id) db.uuids db.drawn out.drawn db.events le s.drawn_ids;
        outgoing = outgoing;
        distinct = distinct;
      })

module _ {V : Type 0} (event : EventRow V) (kind : DeliveryKind)
    (suppression : Option SuppressionReason) (actor text : Option String) (now : ℤ) where
  insert-Enqueued :
      (db : Db V) (c : ChannelRow)
      → Enqueued db (insert_delivery_tx db event c kind suppression actor text now)
  unfolding insert_delivery_tx
  insert-Enqueued db c = ground arith

  enqueue_channel-Enqueued :
      (db : Db V) (c : ChannelRow)
      → Enqueued db (enqueue_channel db event kind suppression actor text now c)
  unfolding enqueue_channel
  enqueue_channel-Enqueued db c = ground (arith, insert-Enqueued db c)

  enqueue_channels-Enqueued :
      (cs : List ChannelRow) (db : Db V)
      → Enqueued db (enqueue_channels db event kind suppression actor text now cs)
  unfolding enqueue_channels
  enqueue_channels-Enqueued [] db = (refl, omega arith)
  enqueue_channels-Enqueued (c ∷ cs) db =
      let next = enqueue_channel db event kind suppression actor text now c in
      Enqueued-trans db next _ (enqueue_channel-Enqueued db c) (enqueue_channels-Enqueued cs next)

  insert-one_each :
      (db : Db V) (c : ChannelRow) (e ch : ℕ) (k : DeliveryKind)
      → count (deliverable_key e ch k) db.deliveries ≤ 1
      → count
          (deliverable_key e ch k)
          (insert_delivery_tx db event c kind suppression actor text now).deliveries
        ≤ 1
  unfolding insert_delivery_tx
  insert-one_each db c e ch k h = ground (
    arith,
    count-append (deliverable_key e ch k) db.deliveries
        (new_delivery db event c kind suppression actor text now ∷ []),
    count_of_any-false (deliverable_key event.id c.id kind) db.deliveries,
  )

  insert-one_id :
      (db : Db V) (c : ChannelRow) (k : ℕ)
      → count (λ d. d.id == k) db.deliveries ≤ 1
      → count (λ d. d.id == db.uuids db.drawn) db.deliveries ≡ 0
      → count
          (λ d. d.id == k)
          (insert_delivery_tx db event c kind suppression actor text now).deliveries
        ≤ 1
  unfolding insert_delivery_tx
  insert-one_id db c k h fresh = ground (
    arith,
    count-append (λ d. d.id == k) db.deliveries
        (new_delivery db event c kind suppression actor text now ∷ []),
  )

  insert-drawn :
      (db : Db V) (c : ChannelRow)
      → All (IsDrawn (λ d. d.id) db.uuids db.drawn) db.deliveries
      → All
          (IsDrawn (λ d. d.id) db.uuids (db.drawn + 1))
          (insert_delivery_tx db event c kind suppression actor text now).deliveries
  unfolding insert_delivery_tx
  insert-drawn db c h =
      let old =
        IsDrawn-later (λ d. d.id) db.uuids db.drawn (db.drawn + 1) db.deliveries (omega arith) h in
      elim (Bool-cases
        (not (is_some suppression) && any (deliverable_key event.id c.id kind) db.deliveries)) [
          | inl e ↦ rw (e, insert_delivery_tx) old
          | inr e ↦
              rw (e, insert_delivery_tx)
                (All-append _ db.deliveries
                  (new_delivery db event c kind suppression actor text now ∷ []) old
                  ((db.drawn, omega arith, refl), tt))
        ]

  insert_counters :
      (db : Db V) (c : ChannelRow)
      → let out = insert_delivery_tx db event c kind suppression actor text now in
        (out.uuids ≡ db.uuids) × (out.drawn ≡ db.drawn + 1)
  unfolding insert_delivery_tx
  insert_counters db c = ground arith

  insert-Outgoing :
      (db : Db V) (c : ChannelRow)
      → Outgoing db
      → Outgoing (insert_delivery_tx db event c kind suppression actor text now)
  insert-Outgoing db c (distinct, ok) =
      rw ((insert_counters db c).0, (insert_counters db c).1)
        (
          distinct,
          record {
            one_each = λ e ch k. insert-one_each db c e ch k (ok.one_each e ch k);
            one_id = λ k.
                insert-one_id db c k (ok.one_id k)
                  (fresh_id (λ d. d.id) db.uuids db.drawn distinct db.deliveries ok.drawn_ids);
            drawn_ids = insert-drawn db c ok.drawn_ids;
          },
        )

  enqueue_channel-Outgoing :
      (db : Db V) (c : ChannelRow)
      → Outgoing db
      → Outgoing (enqueue_channel db event kind suppression actor text now c)
  unfolding enqueue_channel
  enqueue_channel-Outgoing db c h =
      elim (Bool-cases (
        is_firing_kind kind
        && (is_some suppression && any (lifecycle_key event.id c.id alert_firing) db.deliveries))) [
          | inl e ↦ rw (e, enqueue_channel) h
          | inr e ↦ rw (e, enqueue_channel) (insert-Outgoing db c h)
        ]

  enqueue_channels-Outgoing :
      (cs : List ChannelRow) (db : Db V)
      → Outgoing db
      → Outgoing (enqueue_channels db event kind suppression actor text now cs)
  unfolding enqueue_channels
  enqueue_channels-Outgoing [] db h = h
  enqueue_channels-Outgoing (c ∷ cs) db h =
      enqueue_channels-Outgoing cs _ (enqueue_channel-Outgoing db c h)

  pub enqueue-Enqueued :
      (db : Db V)
      → Enqueued db (enqueue_event_lifecycle_tx db event kind suppression actor text now)
  unfolding enqueue_event_lifecycle_tx
  enqueue-Enqueued db = enqueue_channels-Enqueued (event_channel_rows db event.id) db

  enqueue-Outgoing :
      (db : Db V)
      → Outgoing db
      → Outgoing (enqueue_event_lifecycle_tx db event kind suppression actor text now)
  unfolding enqueue_event_lifecycle_tx
  enqueue-Outgoing db = enqueue_channels-Outgoing (event_channel_rows db event.id) db

  pub enqueue-Sound :
      (db : Db V)
      → Sound db
      → Sound (enqueue_event_lifecycle_tx db event kind suppression actor text now)
  enqueue-Sound db s =
      Enqueued-Sound db _ (enqueue-Enqueued db) (enqueue-Outgoing db (s.distinct, s.outgoing)) s

-- ===== src/Alerts/Resolution/Closing.antt =====
-- backend/src/alerts.rs: what `resolve_event_tx` and `resolve_rule_events_tx` leave closed.
use Prim.Native.String.{String}
use operation_monitoring.Base.{
  ℕ, ◌≡◌, refl, ap, ◌∙◌, Bool, true, false, not, ◌&&◌, Option, none, some, List, [], ◌∷◌, arith,
  any, count, count-append, retain, update_where, count-update_all, ◌==◌, All, All-map, retain-All,
  Bool-cases, inl, inr,
}
use operation_monitoring.Base.Int.{ℤ}
use operation_monitoring.Alerts.Model.{
  EventStatus, DeliveryKind, alert_resolved, SuppressionReason, EventRow, ChannelRow, DeliveryRow,
  Db, is_active,
}
use operation_monitoring.Alerts.Observation.{resolution_values}
use operation_monitoring.Alerts.Lifecycle.{
  new_delivery, insert_delivery_tx, enqueue_channel, enqueue_channels, enqueue_event_lifecycle_tx,
}
use operation_monitoring.Alerts.Lifecycle.Outbox.{enqueue-Enqueued}
use operation_monitoring.Alerts.Resolution.{
  has_id_active, is_unsent_firing, close_row, suppress_row, close_event, is_resolved,
  resolve_event_tx, resolve_events, resolve_rule_events_tx,
}

active_unresolved : (s : EventStatus) → is_active s ≡ true → is_resolved s ≡ false
active_unresolved s h = ground arith

module _ {V : Type 0} where
  -- A notification of the end of an event is none of its beginning.
  count-insert_resolved :
      (k : ℕ) (db : Db V) (event : EventRow V) (actor text : Option String) (now : ℤ)
      (c : ChannelRow)
      → count
          (is_unsent_firing k)
          (enqueue_channel db event alert_resolved none actor text now c).deliveries
        ≡ count (is_unsent_firing k) db.deliveries
  unfolding enqueue_channel insert_delivery_tx new_delivery
  count-insert_resolved k db event actor text now c = ground (
    arith,
    count-append (is_unsent_firing k) db.deliveries
        (new_delivery db event c alert_resolved none actor text now ∷ []),
  )

  count-enqueue_resolved :
      (k : ℕ) (db : Db V) (event : EventRow V) (actor text : Option String) (now : ℤ)
      (cs : List ChannelRow)
      → count
          (is_unsent_firing k)
          (enqueue_channels db event alert_resolved none actor text now cs).deliveries
        ≡ count (is_unsent_firing k) db.deliveries
  unfolding enqueue_channels
  count-enqueue_resolved k db event actor text now [] = refl
  count-enqueue_resolved k db event actor text now (c ∷ cs) =
      count-enqueue_resolved k (enqueue_channel db event alert_resolved none actor text now c) event
        actor text now cs
      ∙ count-insert_resolved k db event actor text now c

  no_longer_waits :
      (id : ℕ) (now : ℤ) (d : DeliveryRow V) → is_unsent_firing id (suppress_row now d) ≡ false
  unfolding suppress_row
  no_longer_waits id now d = ground arith

  no_longer_active :
      (id : ℕ) (now : ℤ) (reason : String) (value : Option V) (seen_at : ℤ) (e : EventRow V)
      → has_id_active id (close_row now reason value seen_at e) ≡ false
  unfolding close_row
  no_longer_active id now reason value seen_at e = ground arith

  enqueue-events :
      (db : Db V) (event : EventRow V) (kind : DeliveryKind)
      (suppression : Option SuppressionReason) (actor text : Option String) (now : ℤ)
      → (enqueue_event_lifecycle_tx db event kind suppression actor text now).events ≡ db.events
  enqueue-events db event kind suppression actor text now =
      ap (λ (x : Db V). x.events) (enqueue-Enqueued event kind suppression actor text now db).0

  resolve_event_tx-active :
      (db : Db V) (event : EventRow V) (now : ℤ) (reason : String) (recovery : Option (V × ℤ))
      → is_active event.status ≡ true
      → (value : Option V) × (seen_at : ℤ) × (closed : EventRow V) × (resolve_event_tx db event now
            reason recovery
          ≡ enqueue_event_lifecycle_tx
              (close_event db event now reason value seen_at)
              closed
              alert_resolved
              none
              (some "system")
              (some reason)
              now)
  unfolding resolve_event_tx
  resolve_event_tx-active db event now reason recovery active =
      let seen = resolution_values event.current_value event.last_observed_at recovery in
      (
        seen.0,
        seen.1,
        close_row now reason seen.0 seen.1 event,
        rw (active_unresolved event.status active) refl,
      )

  -- Resolving an event that is not resolved leaves no unresolved event under its identifier, and no
  -- notification that it fired is waiting to be sent.
  pub resolve_event_tx_closes :
      (db : Db V) (event : EventRow V) (now : ℤ) (reason : String) (recovery : Option (V × ℤ))
      → is_active event.status ≡ true
      → (count (has_id_active event.id) (resolve_event_tx db event now reason recovery).events ≡ 0)
        × (count
              (is_unsent_firing event.id)
              (resolve_event_tx db event now reason recovery).deliveries
            ≡ 0)
  unfolding close_event enqueue_event_lifecycle_tx
  resolve_event_tx_closes db event now reason recovery active =
      let (value, seen_at, closed, same) =
        resolve_event_tx-active db event now reason recovery active in
      rw same (
        ap (count (has_id_active event.id)) (enqueue-events _ closed alert_resolved none _ _ now)
            ∙ count-update_all (has_id_active event.id) _
                (λ e _. no_longer_active event.id now reason value seen_at e) db.events,
        count-enqueue_resolved event.id _ closed (some "system") (some reason) now _
            ∙ count-update_all (is_unsent_firing event.id) _ (λ d _. no_longer_waits event.id now d)
                db.deliveries,
      )

  -- An unresolved event under a test, which none of `todo` is for.
  abbrev is_missed : (EventRow V → Bool) → List (EventRow V) → EventRow V → Bool
  is_missed test todo e =
      test e && (is_active e.status && not (any (λ (x : EventRow V). x.id == e.id) todo))

  missed_later :
      (test : EventRow V → Bool) (event : EventRow V) (rest : List (EventRow V)) (now : ℤ)
      (reason : String) (value : Option V) (seen_at : ℤ) (es : List (EventRow V))
      → count (is_missed test (event ∷ rest)) es ≡ 0
      → count
          (is_missed test rest)
          (update_where (has_id_active event.id) (close_row now reason value seen_at) es)
        ≡ 0
  unfolding close_row
  missed_later test event rest now reason value seen_at [] h = refl
  missed_later test event rest now reason value seen_at (e ∷ es) h =
      ground (arith, missed_later test event rest now reason value seen_at es)

  resolve_events_closes :
      (test : EventRow V → Bool) (todo : List (EventRow V)) (db : Db V) (now : ℤ) (reason : String)
      → All (λ e. is_active e.status ≡ true) todo
      → count (is_missed test todo) db.events ≡ 0
      → count (is_missed test []) (resolve_events db todo now reason).events ≡ 0
  unfolding resolve_events close_event
  resolve_events_closes test [] db now reason active h = h
  resolve_events_closes test (event ∷ rest) db now reason active h =
      let (value, seen_at, closed, same) =
        resolve_event_tx-active db event now reason none active.0 in
      resolve_events_closes test rest (resolve_event_tx db event now reason none) now reason
        active.1
        (rw same (
          ap (count (is_missed test rest)) (enqueue-events _ closed alert_resolved none _ _ now)
          ∙ missed_later test event rest now reason value seen_at db.events h))

  selected :
      (test : EventRow V → Bool) (es more : List (EventRow V))
      → ((k : ℕ)
          → any (λ (x : EventRow V). x.id == k) (retain (λ e. test e && is_active e.status) es)
            ≡ true
          → any (λ (x : EventRow V). x.id == k) more ≡ true)
      → count (is_missed test more) es ≡ 0
  selected test [] more h = refl
  selected test (e ∷ es) more h = elim (Bool-cases (test e && is_active e.status)) [
    | inl t ↦ ground (arith, h e.id, selected test es more (λ k g. h k (rw t (ground (arith, g)))))
    | inr t ↦ ground (arith, selected test es more (λ k g. h k (rw t g)))
  ]

  All-active :
      (test : EventRow V → Bool) (es : List (EventRow V))
      → All (λ e. is_active e.status ≡ true) (retain (λ e. test e && is_active e.status) es)
  All-active test es =
      All-map (λ e. (test e && is_active e.status) ≡ true) _ (λ e h. ground arith) _
        (retain-All (λ e. test e && is_active e.status) es)

  -- Resolving the events of a rule leaves none of them unresolved.
  pub resolve_rule_events_tx_closes :
      (db : Db V) (rule_id : ℕ) (now : ℤ) (reason : String)
      → count
          (λ (e : EventRow V). (e.rule_id == rule_id) && is_active e.status)
          (resolve_rule_events_tx db rule_id now reason).events
        ≡ 0
  unfolding resolve_rule_events_tx
  resolve_rule_events_tx_closes db rule_id now reason =
      let test = λ (e : EventRow V). e.rule_id == rule_id in
      let todo = retain (λ e. test e && is_active e.status) db.events in
      ground (
        arith,
        resolve_events_closes test todo db now reason (All-active test db.events)
            (selected test db.events todo (λ k h. h)),
      )

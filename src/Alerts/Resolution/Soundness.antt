-- ===== src/Alerts/Resolution/Soundness.antt =====
-- backend/src/alerts.rs: resolving and acknowledging events keep the tables sound.
use Prim.Native.String.{String}
use operation_monitoring.Base.{
  sort_by, ltb, ℕ, ◌+◌, ◌≡◌, refl, ap, ◌∙◌, Bool, true, Option, none, some, List, [], ◌∷◌, arith,
  Bool-cases, subst, sym, All-update, count-update_le, count-update_same, count-update_found, find,
  find-holds, inl, inr, update_where, ◌==◌, retain,
}
use operation_monitoring.Base.Int.{ℤ}
use operation_monitoring.Alerts.Model.{
  EventStatus, firing, acknowledged, resolved, DeliveryKind, EventRow, DeliveryRow, EvaluationRow,
  RuleRow, Db, is_active, is_active_event, has_id,
}
use operation_monitoring.Alerts.Lifecycle.{deliverable_key}
use operation_monitoring.Alerts.Lifecycle.Outbox.{enqueue-Sound}
use operation_monitoring.Alerts.Sound.{
  IsDrawn, DeliveriesOk, DeliveriesOk-later, IsDrawn-later, Sound,
}
use operation_monitoring.Alerts.Resolution.{
  AppResult, ok, err, is_resolved, close_row, is_unsent_firing, suppress_row, has_id_active,
  close_event, resolve_event_tx, resolve_events, resolve_rule_events_tx, resolve_instance,
  acknowledge_row, mark_acknowledged, acknowledge_found, acknowledge_lookup, mark_suppression,
  acknowledge_event_tx, refresh_event, refresh_events, refresh_active_suppression_states,
  reset_metric_pending_states,
}

module _ {V : Type 0} where
  result_or : Db V → AppResult (Db V) → Db V
  result_or d (ok out) = out
  result_or d (err e) = d

  ok-injective : {a b : Db V} → ok a ≡ ok b → a ≡ b
  unfolding result_or
  ok-injective {a} h = ap (result_or a) h

  -- An update of events that activates none and keeps the identifiers.
  pub update_events-Sound :
      (db : Db V) (q : EventRow V → Bool) (f : EventRow V → EventRow V)
      → ((r i : ℕ) (e : EventRow V)
          → q e ≡ true
          → is_active_event r i (f e) ≡ true
          → is_active_event r i e ≡ true)
      → ((e : EventRow V) → (f e).id ≡ e.id)
      → Sound db
      → Sound (record db { events = update_where q f db.events })
  update_events-Sound db q f h k s = record {
    one_active = λ r i.
        omega
          (arith, s.one_active r i, count-update_le (is_active_event r i) q f (h r i) db.events);
    outgoing = s.outgoing;
    one_id = λ n. omega (
      arith,
      s.one_id n,
      count-update_same (has_id n) q f (λ e _. ap (λ (m : ℕ). m == n) (k e)) db.events,
    );
    drawn_ids =
        All-update (IsDrawn (λ e. e.id) db.uuids db.drawn) q f (λ e (n, lt, eq). (n, lt, k e ∙ eq))
          db.events s.drawn_ids;
    distinct = s.distinct;
  }

  -- An update of deliveries that keeps the identifiers and brings back none that is suppressed.
  pub update-DeliveriesOk :
      (uuids : ℕ → ℕ) (drawn : ℕ) (deliveries : List (DeliveryRow V)) (q : DeliveryRow V → Bool)
      (f : DeliveryRow V → DeliveryRow V)
      → ((e c : ℕ) (k : DeliveryKind) (d : DeliveryRow V)
          → q d ≡ true
          → deliverable_key e c k (f d) ≡ true
          → deliverable_key e c k d ≡ true)
      → ((d : DeliveryRow V) → (f d).id ≡ d.id)
      → DeliveriesOk uuids drawn deliveries
      → DeliveriesOk uuids drawn (update_where q f deliveries)
  update-DeliveriesOk uuids drawn deliveries q f h k old = record {
    one_each = λ e c j. omega (
      arith,
      old.one_each e c j,
      count-update_le (deliverable_key e c j) q f (h e c j) deliveries,
    );
    one_id = λ n. omega (
      arith,
      old.one_id n,
      count-update_same (λ d. d.id == n) q f (λ d _. ap (λ (m : ℕ). m == n) (k d)) deliveries,
    );
    drawn_ids =
        All-update (IsDrawn (λ d. d.id) uuids drawn) q f (λ d (n, lt, eq). (n, lt, k d ∙ eq))
          deliveries old.drawn_ids;
  }

  close_event-Sound :
      (db : Db V) (event : EventRow V) (now : ℤ) (reason : String) (value : Option V) (seen_at : ℤ)
      → Sound db
      → Sound (close_event db event now reason value seen_at)
  unfolding close_event
  close_event-Sound db event now reason value seen_at s =
      let closed =
        update_events-Sound db (has_id_active event.id) (close_row now reason value seen_at)
          (λ r i e q p. ground arith) (λ e. refl) s in
      record {
        one_active = closed.one_active;
        outgoing = DeliveriesOk-later db.uuids db.drawn _ _ (omega arith) (
            update-DeliveriesOk db.uuids db.drawn db.deliveries (is_unsent_firing event.id)
              (suppress_row now) (λ e c k d q p. ground arith) (λ d. refl) s.outgoing);
        one_id = closed.one_id;
        drawn_ids =
            IsDrawn-later (λ e. e.id) db.uuids db.drawn (db.drawn + 1) _ (omega arith)
              closed.drawn_ids;
        distinct = s.distinct;
      }

  pub resolve_event_tx-Sound :
      (db : Db V) (event : EventRow V) (now : ℤ) (reason : String) (recovery : Option (V × ℤ))
      → Sound db
      → Sound (resolve_event_tx db event now reason recovery)
  unfolding resolve_event_tx
  resolve_event_tx-Sound db event now reason recovery s =
      elim (Bool-cases (is_resolved event.status)) [
        | inl e ↦ rw (e, resolve_event_tx) s
        | inr e ↦
            rw (e, resolve_event_tx)
              (enqueue-Sound _ _ _ _ _ _ _ (close_event-Sound db event now reason _ _ s))
      ]

  resolve_events-Sound :
      (events : List (EventRow V)) (db : Db V) (now : ℤ) (reason : String)
      → Sound db
      → Sound (resolve_events db events now reason)
  unfolding resolve_events
  resolve_events-Sound [] db now reason s = s
  resolve_events-Sound (e ∷ rest) db now reason s =
      resolve_events-Sound rest (resolve_event_tx db e now reason none) now reason
        (resolve_event_tx-Sound db e now reason none s)

  pub resolve_rule_events_tx-Sound :
      (db : Db V) (rule_id : ℕ) (now : ℤ) (reason : String)
      → Sound db
      → Sound (resolve_rule_events_tx db rule_id now reason)
  unfolding resolve_rule_events_tx
  resolve_rule_events_tx-Sound db rule_id now reason s = resolve_events-Sound _ db now reason s

  pub set_states-Sound :
      (db : Db V) (states : List (EvaluationRow V))
      → Sound db
      → Sound (record db { states = states })
  set_states-Sound db states s = record {
    one_active = s.one_active;
    outgoing = s.outgoing;
    one_id = s.one_id;
    drawn_ids = s.drawn_ids;
    distinct = s.distinct;
  }

  pub resolve_instance-Sound :
      (db : Db V) (instance_id : ℕ) (now : ℤ) (reason : String)
      → Sound db
      → Sound (resolve_instance db instance_id now reason)
  unfolding resolve_instance
  resolve_instance-Sound db instance_id now reason s =
      set_states-Sound _ _ (resolve_events-Sound _ db now reason s)

  pub reset_metric_pending_states-Sound :
      (db : Db V) (instance_id : Option ℕ)
      → Sound db
      → Sound (reset_metric_pending_states db instance_id)
  unfolding reset_metric_pending_states
  reset_metric_pending_states-Sound db instance_id s = set_states-Sound db _ s

  -- Acknowledging a firing event found under its identifier changes no other event.
  mark_acknowledged-Sound :
      (db : Db V) (event : EventRow V) (username user_id text : String) (now : ℤ)
      → find (has_id event.id) db.events ≡ some event
      → event.status ≡ firing
      → Sound db
      → Sound (mark_acknowledged db event username user_id text now)
  unfolding mark_acknowledged
  mark_acknowledged-Sound db event username user_id text now found fresh s =
      let mark = acknowledge_row username user_id now text in
      let marked =
        All-update (IsDrawn (λ e. e.id) db.uuids db.drawn) (has_id event.id) mark (λ e h. h)
          db.events s.drawn_ids in
      record {
        one_active = λ r i. omega (
          arith,
          s.one_active r i,
          count-update_found (is_active_event r i) (has_id event.id) mark db.events event found
              (s.one_id event.id) (rw fresh),
        );
        outgoing = DeliveriesOk-later db.uuids db.drawn _ db.deliveries (omega arith) s.outgoing;
        one_id = λ n. omega (
          arith,
          s.one_id n,
          count-update_same (has_id n) (has_id event.id) mark (λ e _. refl) db.events,
        );
        drawn_ids =
            IsDrawn-later (λ e. e.id) db.uuids db.drawn (db.drawn + 1) _ (omega arith) marked;
        distinct = s.distinct;
      }

  acknowledge_found-Sound :
      (db : Db V) (event : EventRow V) (status : EventStatus) (username user_id text : String)
      (now : ℤ) {out : Db V}
      → find (has_id event.id) db.events ≡ some event
      → event.status ≡ status
      → acknowledge_found db event status username user_id text now ≡ ok out
      → Sound db
      → Sound out
  unfolding acknowledge_found
  acknowledge_found-Sound db event resolved username user_id text now found e h s = absurd (cc)
  acknowledge_found-Sound db event acknowledged username user_id text now found e h s =
      subst Sound (ok-injective h) s
  acknowledge_found-Sound db event firing username user_id text now found e h s =
      subst Sound (ok-injective h) (
        enqueue-Sound _ _ _ _ _ _ _
          (mark_acknowledged-Sound db event username user_id text now found e s))

  acknowledge_lookup-Sound :
      (db : Db V) (id : ℕ) (o : Option (EventRow V)) (username user_id text : String) (now : ℤ)
      {out : Db V}
      → find (has_id id) db.events ≡ o
      → acknowledge_lookup db o username user_id text now ≡ ok out
      → Sound db
      → Sound out
  unfolding acknowledge_lookup
  acknowledge_lookup-Sound db id none username user_id text now e h s = absurd (cc)
  acknowledge_lookup-Sound db id (some event) username user_id text now e h s =
      let same : event.id ≡ id = ground (arith, find-holds (has_id id) db.events event e) in
      let found = subst (λ k. find (has_id k) db.events ≡ some event) (sym same) e in
      acknowledge_found-Sound db event event.status username user_id text now found refl h s

  pub acknowledge_event_tx-Sound :
      (db : Db V) (id : ℕ) (username user_id text : String) (now : ℤ) {out : Db V}
      → acknowledge_event_tx db id username user_id text now ≡ ok out
      → Sound db
      → Sound out
  unfolding acknowledge_event_tx
  acknowledge_event_tx-Sound db id username user_id text now =
      acknowledge_lookup-Sound db id (find (has_id id) db.events) username user_id text now refl

  refresh_event-Sound :
      (db : Db V) (event : EventRow V) (now : ℤ) (o : Option (RuleRow V))
      → Sound db
      → Sound (refresh_event db event now o)
  unfolding refresh_event
  refresh_event-Sound db event now none s = s
  refresh_event-Sound db event now (some r) s =
      update_events-Sound db (has_id_active event.id) (mark_suppression _) (λ r i e q p. p)
        (λ e. refl) s

  refresh_events-Sound :
      (events : List (EventRow V)) (db : Db V) (now : ℤ)
      → Sound db
      → Sound (refresh_events db events now)
  unfolding refresh_events
  refresh_events-Sound [] db now s = s
  refresh_events-Sound (e ∷ rest) db now s =
      refresh_events-Sound rest _ now (refresh_event-Sound db e now _ s)

  pub refresh_active_suppression_states-Sound :
      (db : Db V) (now : ℤ) → Sound db → Sound (refresh_active_suppression_states db now)
  unfolding refresh_active_suppression_states
  refresh_active_suppression_states-Sound db now s =
      refresh_events-Sound
        (sort_by (λ a b. ltb a.id b.id) (retain (λ e. is_active e.status) db.events)) db now s

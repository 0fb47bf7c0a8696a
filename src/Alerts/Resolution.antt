-- ===== src/Alerts/Resolution.antt =====
-- backend/src/alerts.rs: how an event is acknowledged and resolved (`resolve_event_tx`,
-- `resolve_rule_events_tx`, `resolve_instance`, `reset_metric_pending_states`,
-- `acknowledge_event_tx`, `refresh_active_suppression_states`).
pub mod Soundness
pub mod Closing
use Prim.Native.String.{String}
use operation_monitoring.Base.{
  ℕ, ◌+◌, Bool, true, false, not, ◌&&◌, ◌||◌, Option, none, some, is_some, List, [], ◌∷◌, ◌++◌,
  if◌then◌else◌, ◌==◌, any, find, retain, update_where, sort_by, ltb,
}
use operation_monitoring.Base.Int.{ℤ}
use operation_monitoring.Alerts.Model.{
  Metric, node_offline, instance_expiring, EventStatus, firing, acknowledged, resolved,
  alert_firing, alert_acknowledged, alert_resolved, DeliveryStatus, pending, suppressed,
  SuppressionReason, event_resolved_before_delivery, RuleRow, EventRow, EvaluationRow, DeliveryRow,
  TimelineRow, Db, new_v4, is_active, has_id,
}
use operation_monitoring.Alerts.Observation.{is_node_offline, resolution_values}
use operation_monitoring.Alerts.Lifecycle.{
  kind_code, status_code, same_id, suppression_reason_tx, enqueue_event_lifecycle_tx,
}

pub data AlertError : Type 0 where
  event_not_found event_already_resolved : AlertError

pub data AppResult {ℓ} (A : Type ℓ) : Type ℓ where
  ok : A → AppResult A
  err : AlertError → AppResult A

abbrev pub is_resolved : EventStatus → Bool
is_resolved resolved = true
is_resolved _ = false

module _ {V : Type 0} where
  unfoldable pub close_row : ℤ → String → Option V → ℤ → EventRow V → EventRow V
  close_row now reason value last_observed_at e = record e {
    status = resolved;
    resolved_at = some now;
    resolution_reason = reason;
    current_value = value;
    last_observed_at = last_observed_at;
    suppressed = false;
    suppression_reason = none;
  }

  abbrev pub is_unsent_firing : ℕ → DeliveryRow V → Bool
  is_unsent_firing event_id d =
      same_id d.event_id event_id
      && ((kind_code d.kind == kind_code alert_firing)
          && (status_code d.status == status_code pending))

  unfoldable pub suppress_row : ℤ → DeliveryRow V → DeliveryRow V
  suppress_row now d = record d {
    status = suppressed;
    suppression_reason = some event_resolved_before_delivery;
    next_attempt_at = none;
    lease_until = none;
    lease_token = none;
    completed_at = some now;
    updated_at = now;
  }

  abbrev pub has_id_active : ℕ → EventRow V → Bool
  has_id_active k e = (e.id == k) && is_active e.status

  -- The two updates and the timeline entry of `resolve_event_tx`.
  unfoldable pub close_event : Db V → EventRow V → ℤ → String → Option V → ℤ → Db V
  unfolding close_row suppress_row
  close_event db event now reason value last_observed_at = record db {
    events =
        update_where (has_id_active event.id) (close_row now reason value last_observed_at)
          db.events;
    deliveries = update_where (is_unsent_firing event.id) (suppress_row now) db.deliveries;
    timeline =
        db.timeline
        ++ record {
          id = new_v4 db;
          event_id = event.id;
          kind = resolved;
          actor = "system";
          note = reason;
          value = value;
          created_at = now;
        }
          ∷ [];
    drawn = db.drawn + 1;
  }

  -- The event as the notification shows it: `resolved_at` and the rest are set on the copy.
  unfoldable pub resolve_event_tx : Db V → EventRow V → ℤ → String → Option (V × ℤ) → Db V
  unfolding close_row resolution_values
  resolve_event_tx db event now reason recovery_observation =
      if is_resolved event.status
      then db
      else let (value, seen_at) =
          resolution_values event.current_value event.last_observed_at recovery_observation in
        enqueue_event_lifecycle_tx (close_event db event now reason value seen_at)
          (close_row now reason value seen_at event) alert_resolved none (some "system")
          (some reason) now

  unfoldable pub resolve_events : Db V → List (EventRow V) → ℤ → String → Db V
  resolve_events db [] now reason = db
  resolve_events db (e ∷ rest) now reason =
      resolve_events (resolve_event_tx db e now reason none) rest now reason

  unfoldable pub resolve_rule_events_tx : Db V → ℕ → ℤ → String → Db V
  resolve_rule_events_tx db rule_id now reason =
      resolve_events db (retain (λ e. (e.rule_id == rule_id) && is_active e.status) db.events) now
        reason

  unfoldable pub resolve_instance : Db V → ℕ → ℤ → String → Db V
  resolve_instance db instance_id now reason =
      let done =
        resolve_events db
          (retain (λ e. (e.instance_id == instance_id) && is_active e.status) db.events) now
          reason in
      record done { states = retain (λ s. not (s.instance_id == instance_id)) done.states }

  -- The rows of `alert_evaluation_states` that wait for a metric rule to fire.
  abbrev pub waits_on_metric : Db V → Option ℕ → EvaluationRow V → Bool
  waits_on_metric db instance_id s =
      any
        (λ r.
          (r.id == s.rule_id)
          && (elim r.metric [ node_offline ↦ false | instance_expiring ↦ false | _ ↦ true ]))
        db.rules
      && ((elim instance_id [ none ↦ true | some i ↦ s.instance_id == i ])
          && (is_some s.pending_since
              && not (
                  any
                    (λ e.
                      (e.rule_id == s.rule_id)
                      && ((e.instance_id == s.instance_id) && is_active e.status))
                    db.events)))

  unfoldable pub reset_metric_pending_states : Db V → Option ℕ → Db V
  reset_metric_pending_states db instance_id = record db {
    states = retain (λ s. not (waits_on_metric db instance_id s)) db.states;
  }

  unfoldable pub acknowledge_row : String → String → ℤ → String → EventRow V → EventRow V
  acknowledge_row username user_id now text e = record e {
    status = acknowledged;
    acknowledged_by = some username;
    acknowledged_by_user_id = some user_id;
    acknowledged_at = some now;
    acknowledge_note = text;
  }

  mark_acknowledged : Db V → EventRow V → String → String → String → ℤ → Db V
  unfolding acknowledge_row
  mark_acknowledged db event username user_id text now = record db {
    events =
        update_where (λ e. e.id == event.id) (acknowledge_row username user_id now text) db.events;
    timeline =
        db.timeline
        ++ record {
          id = new_v4 db;
          event_id = event.id;
          kind = acknowledged;
          actor = username;
          note = text;
          value = event.current_value;
          created_at = now;
        }
          ∷ [];
    drawn = db.drawn + 1;
  }

  acknowledge_found :
      Db V → EventRow V → EventStatus → String → String → String → ℤ → AppResult (Db V)
  unfolding mark_acknowledged acknowledge_row
  acknowledge_found db event resolved username user_id text now = err event_already_resolved
  acknowledge_found db event acknowledged username user_id text now = ok db
  acknowledge_found db event firing username user_id text now = ok (
      enqueue_event_lifecycle_tx (mark_acknowledged db event username user_id text now)
        (acknowledge_row username user_id now text event) alert_acknowledged none (some username)
        (some text) now)

  acknowledge_lookup : Db V → Option (EventRow V) → String → String → String → ℤ → AppResult (Db V)
  unfolding acknowledge_found
  acknowledge_lookup db none username user_id text now = err event_not_found
  acknowledge_lookup db (some event) username user_id text now =
      acknowledge_found db event event.status username user_id text now

  pub acknowledge_event_tx : Db V → ℕ → String → String → String → ℤ → AppResult (Db V)
  unfolding acknowledge_lookup
  acknowledge_event_tx db id username user_id text now =
      acknowledge_lookup db (find (has_id id) db.events) username user_id text now

  abbrev mark_suppression : Option SuppressionReason → EventRow V → EventRow V
  mark_suppression suppression e = record e {
    suppressed = is_some suppression;
    suppression_reason = suppression;
  }

  refresh_event : Db V → EventRow V → ℤ → Option (RuleRow V) → Db V
  refresh_event db event now none = db
  refresh_event db event now (some r) = record db {
    events =
        update_where (has_id_active event.id)
          (mark_suppression (suppression_reason_tx db r event.instance_id now)) db.events;
  }

  refresh_events : Db V → List (EventRow V) → ℤ → Db V
  unfolding refresh_event
  refresh_events db [] now = db
  refresh_events db (e ∷ rest) now =
      refresh_events (refresh_event db e now (find (λ r. r.id == e.rule_id) db.rules)) rest now

  unfoldable pub refresh_active_suppression_states : Db V → ℤ → Db V
  unfolding refresh_events
  refresh_active_suppression_states db now =
      refresh_events db
        (sort_by (λ a b. ltb a.id b.id) (retain (λ e. is_active e.status) db.events)) now

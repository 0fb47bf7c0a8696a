-- ===== src/Alerts/Recovery.antt =====
-- backend/src/alerts.rs: when a node that was offline counts as recovered
-- (`process_rule_observation` with `recovery_confirmation`).
pub mod Tests
use operation_monitoring.Base.{
  ℕ, ◌+◌, ◌≡◌, ◌≤◌, refl, ap, ◌∙◌, Bool, true, false, not, ◌&&◌, ◌||◌, Option, none, some, List,
  arith, find, find-holds, count, unwrap_or, is_some, if◌then◌else◌, ◌==◌,
}
use operation_monitoring.Base.Int.{
  ℤ, pos, ◌+ℤ◌, ◌≤ℤ◌, ◌<ℤ◌, leb_ℤ, saturating_sub, saturating_sub-ge,
}
use operation_monitoring.Alerts.Model.{
  F64, Metric, node_offline, RuleRow, EvaluationRow, EventRow, Db, is_active, is_active_event,
  is_state_of,
}
use operation_monitoring.Alerts.Observation.{
  connection, recovery_confirmation, observation_is_stale, connection_observation,
}
use operation_monitoring.Alerts.Resolution.{has_id_active, is_unsent_firing, resolve_event_tx}
use operation_monitoring.Alerts.Resolution.Closing.{resolve_event_tx_closes}
use operation_monitoring.Alerts.Evaluation.{
  rule_is_current, instance_is_eligible, ensure_state, set_state, observe_normal, apply_observation,
  evaluate, evaluate_row, process_rule_observation,
}

-- The node is connected at `t`, and the sample is not stale; the row has what was seen before.
pub record Reconnected (f : F64) (db : Db f.Value) (r : RuleRow f.Value) (i : ℕ) (t : ℤ)
    (row : EvaluationRow f.Value) (event : EventRow f.Value) : Type 0 where
  pub offline_rule : r.metric ≡ node_offline
  pub current : rule_is_current db r ≡ true
  pub eligible : instance_is_eligible db i ≡ true
  pub found : find (is_state_of r.id i) (ensure_state db r i).states ≡ some row
  pub fresh : observation_is_stale f row.last_sample_at row.last_value t (f.of_i64 (pos 0)) ≡ false
  pub active : find (is_active_event r.id i) db.events ≡ some event

module _ (f : F64) where
  confirmed :
      (r : RuleRow f.Value) (since : Option ℤ) (t : ℤ)
      → r.metric ≡ node_offline
      → (recovery_confirmation r.metric true since t).1 ≡ leb_ℤ (pos 60 +ℤ unwrap_or since t) t
  unfolding recovery_confirmation
  confirmed r since t offline =
      rw offline (saturating_sub-ge t (unwrap_or since t) 60 (omega arith))

  watched :
      (db : Db f.Value) (r : RuleRow f.Value) (i : ℕ) (row : EvaluationRow f.Value)
      (value : f.Value) (t : ℤ) (event : EventRow f.Value)
      → find (is_active_event r.id i) db.events ≡ some event
      → apply_observation db r i row (value, false) t t
        ≡ observe_normal db r i row (some event) value t t
  unfolding apply_observation
  watched db r i row value t event h = rw (h, apply_observation) refl

  kept-ensure_state :
      (db : Db f.Value) (r : RuleRow f.Value) (i : ℕ)
      → ((ensure_state db r i).events ≡ db.events)
        × ((ensure_state db r i).deliveries ≡ db.deliveries)
  unfolding ensure_state
  kept-ensure_state db r i = ground arith

  seen_connected :
      (db : Db f.Value) (r : RuleRow f.Value) (i : ℕ) (t : ℤ) (row : EvaluationRow f.Value)
      (event : EventRow f.Value)
      → Reconnected f db r i t row event
      → process_rule_observation f db true r i connection t t
        ≡ observe_normal (ensure_state db r i) r i row (some event) (f.of_i64 (pos 0)) t t
  unfolding process_rule_observation evaluate_row evaluate connection_observation
  seen_connected db r i t row event c =
      rw (c.current, c.eligible, c.found, c.fresh)
        (watched (ensure_state db r i) r i row (f.of_i64 (pos 0)) t event
          (ap (find (is_active_event r.id i)) (kept-ensure_state db r i).0 ∙ c.active))

  -- A node with an unresolved offline event is seen connected less than 60 seconds after it was
  -- first seen so, or for the first time: no event changes, and no delivery.
  pub brief_recovery_changes_no_event :
      (db : Db f.Value) (r : RuleRow f.Value) (i : ℕ) (t : ℤ) (row : EvaluationRow f.Value)
      (event : EventRow f.Value)
      → Reconnected f db r i t row event
      → t <ℤ pos 60 +ℤ unwrap_or row.recovery_since t
      → ((process_rule_observation f db true r i connection t t).events ≡ db.events)
        × ((process_rule_observation f db true r i connection t t).deliveries ≡ db.deliveries)
  unfolding observe_normal
  brief_recovery_changes_no_event db r i t row event c brief =
      let early : (recovery_confirmation r.metric true row.recovery_since t).1 ≡ false =
        confirmed r row.recovery_since t c.offline_rule ∙ ground (arith, brief) in
      rw (seen_connected db r i t row event c, early) (kept-ensure_state db r i)

  -- One that is seen connected 60 seconds or more after it was first seen so: its event is resolved,
  -- and no notification that it fired is waiting to be sent.
  pub stable_recovery_resolves :
      (db : Db f.Value) (r : RuleRow f.Value) (i : ℕ) (t : ℤ) (row : EvaluationRow f.Value)
      (event : EventRow f.Value)
      → Reconnected f db r i t row event
      → pos 60 +ℤ unwrap_or row.recovery_since t ≤ℤ t
      → (count
            (has_id_active event.id)
            (process_rule_observation f db true r i connection t t).events
          ≡ 0)
        × (count
              (is_unsent_firing event.id)
              (process_rule_observation f db true r i connection t t).deliveries
            ≡ 0)
  unfolding observe_normal
  stable_recovery_resolves db r i t row event c stable =
      let late : (recovery_confirmation r.metric true row.recovery_since t).1 ≡ true =
        confirmed r row.recovery_since t c.offline_rule ∙ ground (arith, stable) in
      let unresolved : is_active event.status ≡ true =
        ground (arith, find-holds (is_active_event r.id i) db.events event c.active) in
      rw (seen_connected db r i t row event c, late)
        (resolve_event_tx_closes _ event t "condition_recovered" (some (f.of_i64 (pos 0), t))
          unresolved)

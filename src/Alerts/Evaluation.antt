-- ===== src/Alerts/Evaluation.antt =====
-- backend/src/alerts.rs, `process_rule_observation`: one function for each of its parts.
pub mod Soundness
pub mod Ignored
use operation_monitoring.Base.{
  ℕ, ◌+◌, Bool, true, false, not, ◌&&◌, ◌||◌, Option, none, some, is_some, unwrap_or, List, [], ◌∷◌,
  ◌++◌, map, if◌then◌else◌, ◌==◌, ltb, any, find, retain, update_where, sort_by,
}
use operation_monitoring.Base.Int.{ℤ, pos, eq_ℤ, saturating_add}
use operation_monitoring.Alerts.Model.{
  F64, Metric, node_offline, instance_expiring, RuleScope, all, specific, firing, alert_firing,
  SuppressionReason, RuleRow, RuleSnapshot, Instance, NodeSnapshot, of_instance, only_id, EventRow,
  EvaluationRow, Db, new_v4, draw, is_active, is_state_of, is_active_event,
}
use operation_monitoring.Alerts.Observation.{
  MetricObservation, RuleObservation, threshold, connection, is_node_offline, metric_value,
  recovery_confirmation, pending_should_fire, expiration_observation, connection_observation,
  observation_is_stale,
}
use operation_monitoring.Alerts.Lifecycle.{
  has_pair, suppression_reason_tx, enqueue_event_lifecycle_tx,
}
use operation_monitoring.Alerts.Resolution.{resolve_event_tx, reset_metric_pending_states}

module _ {V : Type 0} where
  -- The rule is as the caller read it: still there, enabled and of that version.
  unfoldable pub rule_is_current : Db V → RuleRow V → Bool
  rule_is_current db r = elim (find (λ row. row.id == r.id) db.rules) [
    | none ↦ false
    | some row ↦ row.enabled && eq_ℤ row.version r.version
  ]

  unfoldable pub instance_is_eligible : Db V → ℕ → Bool
  instance_is_eligible db instance_id = elim (find (λ i. i.id == instance_id) db.instances) [
    | none ↦ false
    | some i ↦ i.approved && not i.disabled
  ]

  unfoldable pub fresh_state : RuleRow V → ℕ → EvaluationRow V
  fresh_state r instance_id = record {
    rule_id = r.id;
    instance_id = instance_id;
    rule_version = r.version;
    pending_since = none;
    recovery_since = none;
    last_observed_at = none;
    last_value = none;
    last_sample_at = none;
    match_count = pos 0;
  }

  -- A state that another version of the rule has left is reset.
  unfoldable pub ensure_state : Db V → RuleRow V → ℕ → Db V
  unfolding fresh_state
  ensure_state db r instance_id =
      if any (is_state_of r.id instance_id) db.states
      then record db {
        states =
            update_where
              (λ s. is_state_of r.id instance_id s && not (eq_ℤ s.rule_version r.version))
              (λ s. fresh_state r instance_id) db.states;
      }
      else record db { states = db.states ++ fresh_state r instance_id ∷ [] }

  unfoldable pub delete_state : Db V → ℕ → ℕ → Db V
  delete_state db rule_id instance_id = record db {
    states = retain (λ s. not (is_state_of rule_id instance_id s)) db.states;
  }

  abbrev pub set_state : Db V → ℕ → ℕ → (EvaluationRow V → EvaluationRow V) → Db V
  set_state db rule_id instance_id f = record db {
    states = update_where (is_state_of rule_id instance_id) f db.states;
  }

  -- A sample within bounds: the state is cleared, and the event resolved once that is confirmed.
  unfoldable pub observe_normal :
      Db V → RuleRow V → ℕ → EvaluationRow V → Option (EventRow V) → V → ℤ → ℤ → Db V
  unfolding recovery_confirmation
  observe_normal db r instance_id evaluation active value observed_at sample_at =
      let (since, confirmed) =
        recovery_confirmation r.metric (is_some active) evaluation.recovery_since observed_at in
      let cleared = set_state db r.id instance_id (λ s. record s {
        pending_since = none;
        recovery_since = if confirmed then none else since;
        last_observed_at = some observed_at;
        last_value = some value;
        last_sample_at = some sample_at;
        match_count = pos 0;
      }) in
      elim active [
        | none ↦ cleared
        | some event ↦
            if confirmed
            then resolve_event_tx cleared event observed_at "condition_recovered"
                (some (value, observed_at))
            else cleared
      ]

  unfoldable pub note_match : V → ℤ → ℤ → Option SuppressionReason → EventRow V → EventRow V
  note_match value observed_at match_count suppression e = record e {
    current_value = some value;
    last_observed_at = observed_at;
    match_count = match_count;
    suppressed = is_some suppression;
    suppression_reason = suppression;
  }

  -- Another abnormal sample while the event is unresolved.
  unfoldable pub observe_still_abnormal :
      Db V
      → RuleRow V
      → ℕ
      → EvaluationRow V
      → EventRow V
      → Option SuppressionReason
      → V
      → ℤ
      → ℤ
      → Db V
  unfolding note_match
  observe_still_abnormal db r instance_id evaluation event suppression value observed_at sample_at =
      let match_count = saturating_add event.match_count (pos 1) in
      let updated = record db {
        events =
            update_where (λ e. e.id == event.id)
              (note_match value observed_at match_count suppression) db.events;
      } in
      set_state
        (enqueue_event_lifecycle_tx updated
          (note_match value observed_at match_count suppression event) alert_firing suppression none
          none observed_at)
        r.id instance_id
        (λ s. record s {
          recovery_since = none;
          last_observed_at = some observed_at;
          last_value = some value;
          last_sample_at = some sample_at;
          match_count = saturating_add evaluation.match_count (pos 1);
        })

  abbrev pub rule_snapshot : RuleRow V → RuleSnapshot V
  rule_snapshot r = record {
    id = r.id;
    name = r.name;
    metric = r.metric;
    threshold = r.threshold;
    duration_seconds = r.duration_seconds;
    severity = r.severity;
    version = r.version;
  }

  abbrev pub node_snapshot_tx : Db V → ℕ → NodeSnapshot
  node_snapshot_tx db instance_id = elim (find (λ i. i.id == instance_id) db.instances) [
    | none ↦ only_id instance_id
    | some i ↦ of_instance i
  ]

  unfoldable pub new_event :
      Db V → RuleRow V → ℕ → Option SuppressionReason → V → ℤ → ℤ → ℤ → EventRow V
  new_event db r instance_id suppression value pending_since observed_at match_count = record {
    id = new_v4 db;
    rule_id = r.id;
    instance_id = instance_id;
    status = firing;
    severity = r.severity;
    metric = r.metric;
    rule_snapshot = rule_snapshot r;
    node_snapshot = node_snapshot_tx db instance_id;
    threshold = r.threshold;
    duration_seconds = r.duration_seconds;
    current_value = some value;
    first_observed_at = pending_since;
    fired_at = observed_at;
    last_observed_at = observed_at;
    match_count = match_count;
    acknowledged_by = none;
    acknowledged_by_user_id = none;
    acknowledged_at = none;
    acknowledge_note = "";
    resolved_at = none;
    resolution_reason = "";
    suppressed = is_some suppression;
    suppression_reason = suppression;
  }

  -- The rule's channels that exist and are not deleted; the enabled ones are chosen on delivery.
  abbrev pub linked_channels : Db V → ℕ → List ℕ
  linked_channels db rule_id =
      map (λ c. c.id)
        (retain (λ c. has_pair rule_id c.id db.rule_channels && not (is_some c.deleted_at))
          db.channels)

  unfoldable pub fire_event : Db V → RuleRow V → ℕ → Option SuppressionReason → V → ℤ → ℤ → ℤ → Db V
  unfolding new_event
  fire_event db r instance_id suppression value pending_since observed_at match_count =
      let event =
        new_event db r instance_id suppression value pending_since observed_at match_count in
      let id = event.id in
      let drawn = draw db in
      enqueue_event_lifecycle_tx
        (record drawn {
          events = db.events ++ event ∷ [];
          event_channels = db.event_channels ++ map (λ c. (id, c)) (linked_channels db r.id);
          timeline =
              db.timeline
              ++ record {
                id = new_v4 drawn;
                event_id = id;
                kind = firing;
                actor = "system";
                note = "";
                value = some value;
                created_at = observed_at;
              }
                ∷ [];
          drawn = drawn.drawn + 1;
        })
        event alert_firing suppression none none observed_at

  -- An abnormal sample with no unresolved event: the state counts towards firing.
  unfoldable pub observe_abnormal :
      Db V → RuleRow V → ℕ → EvaluationRow V → Option SuppressionReason → V → ℤ → ℤ → Db V
  observe_abnormal db r instance_id evaluation suppression value observed_at sample_at =
      let pending_since = unwrap_or evaluation.pending_since observed_at in
      let match_count = saturating_add evaluation.match_count (pos 1) in
      let waiting = set_state db r.id instance_id (λ s. record s {
        pending_since = some pending_since;
        recovery_since = none;
        last_observed_at = some observed_at;
        last_value = some value;
        last_sample_at = some sample_at;
        match_count = match_count;
      }) in
      if pending_should_fire r.duration_seconds evaluation.pending_since evaluation.last_observed_at
        observed_at
      then fire_event waiting r instance_id suppression value pending_since observed_at match_count
      else waiting

  -- The rest of the transaction, once the sample is known to be fresh.
  unfoldable pub apply_observation :
      Db V → RuleRow V → ℕ → EvaluationRow V → V × Bool → ℤ → ℤ → Db V
  apply_observation db r instance_id evaluation (value, false) observed_at sample_at =
      observe_normal db r instance_id evaluation (find (is_active_event r.id instance_id) db.events)
        value observed_at sample_at
  apply_observation db r instance_id evaluation (value, true) observed_at sample_at =
      let suppression = suppression_reason_tx db r instance_id observed_at in
      elim (find (is_active_event r.id instance_id) db.events) [
        | some event ↦
            observe_still_abnormal db r instance_id evaluation event suppression value observed_at
              sample_at
        | none ↦
            observe_abnormal db r instance_id evaluation suppression value observed_at sample_at
      ]

module _ (f : F64) where
  -- Whether the agent is connected is read at this point for a connection rule.
  abbrev pub observed_value : Bool → RuleObservation f.Value → f.Value × Bool
  observed_value online (threshold value abnormal) = (value, abnormal)
  observed_value online connection = connection_observation f online

  unfoldable pub evaluate :
      Db f.Value → RuleRow f.Value → ℕ → EvaluationRow f.Value → f.Value × Bool → ℤ → ℤ → Db f.Value
  evaluate db r instance_id evaluation (value, abnormal) observed_at sample_at =
      if observation_is_stale f evaluation.last_sample_at evaluation.last_value sample_at value
      then db
      else apply_observation db r instance_id evaluation (value, abnormal) observed_at sample_at

  -- `fetch_one`: with no row the transaction fails and is rolled back to `before`.
  unfoldable pub evaluate_row :
      Db f.Value
      → Db f.Value
      → Option (EvaluationRow f.Value)
      → Bool
      → RuleRow f.Value
      → ℕ
      → RuleObservation f.Value
      → ℤ
      → ℤ
      → Db f.Value
  unfolding evaluate
  evaluate_row before db none online r instance_id observation observed_at sample_at = before
  evaluate_row before db (some evaluation) online r instance_id observation observed_at sample_at =
      evaluate db r instance_id evaluation (observed_value online observation) observed_at sample_at

  -- `online` is whether the instance has a connected agent when the transaction looks.
  unfoldable pub process_rule_observation :
      Db f.Value → Bool → RuleRow f.Value → ℕ → RuleObservation f.Value → ℤ → ℤ → Db f.Value
  process_rule_observation db online r instance_id observation observed_at sample_at =
      let ready = ensure_state db r instance_id in
      let evaluated =
        evaluate_row db ready (find (is_state_of r.id instance_id) ready.states) online r
          instance_id observation observed_at sample_at in
      if not (rule_is_current db r)
      then db
      else if not (instance_is_eligible db instance_id)
      then delete_state db r.id instance_id
      else evaluated

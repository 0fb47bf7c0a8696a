-- ===== src/Alerts/Sampling.antt =====
-- backend/src/alerts.rs: which rules a sample, a connection or a tick of the clock evaluates
-- (`observe_metric`, `observe_offline_at`, `observe_expiration_at`, `observe_connection`, and a
-- round of `alert_evaluation_loop`). Each loop goes on with the database that the rule before left.
use operation_monitoring.Base.{
  ℕ, Bool, true, false, not, ◌&&◌, ◌||◌, Option, none, some, unwrap_or, List, [], ◌∷◌, map,
  if◌then◌else◌, ◌==◌, ltb, find, retain, sort_by,
}
use operation_monitoring.Base.Int.{ℤ, pos}
use operation_monitoring.Alerts.Model.{
  F64, Metric, node_offline, instance_expiring, RuleScope, all, specific, RuleRow, Instance, Db,
}
use operation_monitoring.Alerts.Observation.{
  MetricObservation, threshold, connection, is_node_offline, metric_value, expiration_observation,
  startup_grace_defers_offline,
}
use operation_monitoring.Alerts.Lifecycle.{has_pair}
use operation_monitoring.Alerts.Resolution.{
  reset_metric_pending_states, refresh_active_suppression_states,
}
use operation_monitoring.Alerts.Evaluation.{process_rule_observation, instance_is_eligible}

abbrev pub is_metric_rule : Metric → Bool
is_metric_rule node_offline = false
is_metric_rule instance_expiring = false
is_metric_rule _ = true

abbrev pub is_expiration_rule : Metric → Bool
is_expiration_rule instance_expiring = true
is_expiration_rule _ = false

abbrev covers_all : RuleScope → Bool
covers_all all = true
covers_all specific = false

module _ {V : Type 0} where
  abbrev has_smaller_id : RuleRow V → RuleRow V → Bool
  has_smaller_id a b = ltb a.id b.id

  abbrev pub rules_for : Db V → (Metric → Bool) → ℕ → List (RuleRow V)
  rules_for db wanted instance_id = sort_by has_smaller_id (
      retain
        (λ r.
          r.enabled
          && (wanted r.metric && (covers_all r.scope || has_pair r.id instance_id db.rule_targets)))
        db.rules)

module _ (f : F64) where
  abbrev at_or_above : Option f.Value → f.Value → Bool
  at_or_above none value = false
  at_or_above (some limit) value = f.ge value limit

  sample_rule : Db f.Value → Bool → ℕ → RuleRow f.Value → ℤ → Option (f.Value × ℤ) → Db f.Value
  sample_rule db online instance_id r received_at none = db
  sample_rule db online instance_id r received_at (some (value, sample_at)) =
      process_rule_observation f db online r instance_id
        (threshold value (at_or_above r.threshold value)) received_at sample_at

  observe_metric_rules :
      Db f.Value → Bool → ℕ → MetricObservation f.Value → List (RuleRow f.Value) → Db f.Value
  unfolding sample_rule
  observe_metric_rules db online instance_id o [] = db
  observe_metric_rules db online instance_id o (r ∷ rest) =
      observe_metric_rules
        (sample_rule db online instance_id r o.received_at (metric_value f r.metric o)) online
        instance_id o rest

  pub observe_metric : Db f.Value → Bool → ℕ → MetricObservation f.Value → Db f.Value
  unfolding observe_metric_rules
  observe_metric db online instance_id o =
      observe_metric_rules db online instance_id o (rules_for db is_metric_rule instance_id)

  observe_offline_rules : Db f.Value → Bool → ℕ → ℤ → List (RuleRow f.Value) → Db f.Value
  observe_offline_rules db online instance_id observed_at [] = db
  observe_offline_rules db online instance_id observed_at (r ∷ rest) =
      observe_offline_rules
        (process_rule_observation f db online r instance_id connection observed_at observed_at)
        online instance_id observed_at rest

  pub observe_offline_at : Db f.Value → Bool → ℕ → ℤ → Db f.Value
  unfolding observe_offline_rules
  observe_offline_at db online instance_id observed_at =
      if instance_is_eligible db instance_id
      then observe_offline_rules db online instance_id observed_at
          (rules_for db is_node_offline instance_id)
      else record db { states = retain (λ s. not (s.instance_id == instance_id)) db.states }

  observe_expiration_rules :
      Db f.Value → Bool → ℕ → Option ℤ → ℤ → List (RuleRow f.Value) → Db f.Value
  observe_expiration_rules db online instance_id expires_at observed_at [] = db
  observe_expiration_rules db online instance_id expires_at observed_at (r ∷ rest) =
      let (value, abnormal) =
        expiration_observation f expires_at observed_at
          (unwrap_or r.threshold (f.of_i64 (pos 0))) in
      observe_expiration_rules
        (process_rule_observation f db online r instance_id (threshold value abnormal) observed_at
          observed_at)
        online instance_id expires_at observed_at rest

  abbrev is_eligible_row : ℕ → Instance → Bool
  is_eligible_row instance_id i = (i.id == instance_id) && (i.approved && not i.disabled)

  pub observe_expiration_at : Db f.Value → Bool → ℕ → ℤ → Db f.Value
  unfolding observe_expiration_rules
  observe_expiration_at db online instance_id observed_at =
      elim (find (is_eligible_row instance_id) db.instances) [
        | none ↦ db
        | some i ↦
            observe_expiration_rules db online instance_id i.expires_at observed_at
              (rules_for db is_expiration_rule instance_id)
      ]

  pub observe_connection : Db f.Value → Bool → ℕ → ℤ → Db f.Value
  observe_connection db online instance_id now =
      observe_offline_at (if online then db else reset_metric_pending_states db (some instance_id))
        online instance_id now

  -- `online` tells which instances have a connected agent.
  tick_instance : Db f.Value → (ℕ → Bool) → ℤ → ℤ → ℕ → Db f.Value
  tick_instance db online started_at now instance_id =
      let expired = observe_expiration_at db (online instance_id) instance_id now in
      if startup_grace_defers_offline (online instance_id) started_at now
      then expired
      else observe_offline_at expired (online instance_id) instance_id now

  tick_instances : Db f.Value → (ℕ → Bool) → ℤ → ℤ → List ℕ → Db f.Value
  unfolding tick_instance
  tick_instances db online started_at now [] = db
  tick_instances db online started_at now (i ∷ rest) =
      tick_instances (tick_instance db online started_at now i) online started_at now rest

  abbrev eligible_ids : Db f.Value → List ℕ
  eligible_ids db =
      map (λ i. i.id)
        (sort_by (λ a b. ltb a.id b.id) (retain (λ i. i.approved && not i.disabled) db.instances))

  -- One round of the loop: the instances in order, then the suppression of what is still active.
  pub evaluation_round : Db f.Value → (ℕ → Bool) → ℤ → ℤ → Db f.Value
  unfolding tick_instances
  evaluation_round db online started_at now =
      refresh_active_suppression_states (tick_instances db online started_at now (eligible_ids db))
        now

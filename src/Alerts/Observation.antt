-- ===== src/Alerts/Observation.antt =====
-- backend/src/alerts.rs: what one sample says of a rule (`metric_value` to `pending_should_fire`).
use operation_monitoring.Base.{
  Bool, true, false, not, ◌&&◌, ◌||◌, Option, none, some, is_some, unwrap_or, if◌then◌else◌,
}
use operation_monitoring.Base.Int.{ℤ, pos, ltb_ℤ, leb_ℤ, eq_ℤ, saturating_sub}
use operation_monitoring.Alerts.Model.{
  F64, Metric, node_offline, cpu_percent, memory_percent, disk_percent, latency_ms,
  instance_expiring,
}

abbrev pub startup_reconnect_grace_seconds : ℤ
startup_reconnect_grace_seconds = pos 60

abbrev pub offline_recovery_stability_seconds : ℤ
offline_recovery_stability_seconds = pos 60

pub record MetricObservation (V : Type 0) : Type 0 where
  pub received_at : ℤ
  pub cpu_percent : V
  pub memory_used : ℤ
  pub memory_total : ℤ
  pub disk_used : ℤ
  pub disk_total : ℤ
  pub latency_ms : Option V
  pub latency_sampled_at : Option ℤ

pub data RuleObservation (V : Type 0) : Type 0 where
  threshold : V → Bool → RuleObservation V
  connection : RuleObservation V

abbrev pub is_node_offline : Metric → Bool
is_node_offline node_offline = true
is_node_offline _ = false

abbrev pub then_some {ℓ} : {A : Type ℓ} → Bool → A → Option A
then_some true a = some a
then_some false a = none

abbrev pub both {ℓ κ} : {A : Type ℓ} {B : Type κ} → Option A → Option B → Option (A × B)
both (some a) (some b) = some (a, b)
both (some a) none = none
both none b = none

abbrev pub at_time {ℓ} : {A : Type ℓ} → ℤ → Option A → Option (A × ℤ)
at_time t none = none
at_time t (some a) = some (a, t)

unfoldable pub node_offline_suppresses : Metric → Bool → Bool
node_offline_suppresses node_offline has = false
node_offline_suppresses instance_expiring has = false
node_offline_suppresses _ has = has

unfoldable pub startup_grace_defers_offline : Bool → ℤ → ℤ → Bool
startup_grace_defers_offline online started_at now =
    not online && ltb_ℤ (saturating_sub now started_at) startup_reconnect_grace_seconds

unfoldable pub recovery_confirmation : Metric → Bool → Option ℤ → ℤ → Option ℤ × Bool
recovery_confirmation metric has_active_event recovery_since observed_at =
    if not (is_node_offline metric) || not has_active_event
    then (none, true)
    else let since = unwrap_or recovery_since observed_at in
      (some since, leb_ℤ offline_recovery_stability_seconds (saturating_sub observed_at since))

unfoldable pub pending_should_fire : ℤ → Option ℤ → Option ℤ → ℤ → Bool
pending_should_fire duration_seconds pending_since last_observed_at observed_at =
    eq_ℤ duration_seconds (pos 0)
    || (is_some pending_since
        && (is_some last_observed_at
            && leb_ℤ duration_seconds
                (saturating_sub observed_at (unwrap_or pending_since observed_at))))

module _ {V : Type 0} where
  unfoldable pub resolution_values : Option V → ℤ → Option (V × ℤ) → Option V × ℤ
  resolution_values current_value last_observed_at none = (current_value, last_observed_at)
  resolution_values current_value last_observed_at (some (value, observed_at)) =
      (some value, observed_at)

module _ (f : F64) where
  percentage : ℤ → ℤ → Option f.Value
  percentage used total =
      if ltb_ℤ used (pos 0) || (leb_ℤ total (pos 0) || ltb_ℤ total used)
      then none
      else let value = f.mul (f.div (f.of_i64 used) (f.of_i64 total)) (f.of_i64 (pos 100)) in
        then_some (f.is_finite value) value

  non_negative : Option f.Value → Option f.Value
  non_negative none = none
  non_negative (some value) = then_some (f.is_finite value && f.ge value (f.of_i64 (pos 0))) value

  unfoldable pub metric_value : Metric → MetricObservation f.Value → Option (f.Value × ℤ)
  unfolding percentage non_negative
  metric_value cpu_percent o = at_time o.received_at (
      then_some
        (f.is_finite o.cpu_percent
          && (f.ge o.cpu_percent (f.of_i64 (pos 0)) && f.ge (f.of_i64 (pos 100)) o.cpu_percent))
        o.cpu_percent)
  metric_value memory_percent o = at_time o.received_at (percentage o.memory_used o.memory_total)
  metric_value disk_percent o = at_time o.received_at (percentage o.disk_used o.disk_total)
  metric_value latency_ms o = both (non_negative o.latency_ms) o.latency_sampled_at
  metric_value node_offline o = none
  metric_value instance_expiring o = none

  unfoldable pub expiration_observation : Option ℤ → ℤ → f.Value → f.Value × Bool
  expiration_observation none now threshold_days = (f.of_i64 (pos 0), false)
  expiration_observation (some expires_at) now threshold_days =
      let remaining_days =
        f.div (f.of_i64 (saturating_sub expires_at now)) (f.of_i64 (pos 86400)) in
      (remaining_days, f.ge threshold_days remaining_days)

  unfoldable pub connection_observation : Bool → f.Value × Bool
  connection_observation online =
      if online then (f.of_i64 (pos 0), false) else (f.of_i64 (pos 1), true)

  unfoldable pub same_value : Option f.Value → f.Value → Bool
  same_value none value = false
  same_value (some previous) value = f.eq previous value

  unfoldable pub observation_is_stale : Option ℤ → Option f.Value → ℤ → f.Value → Bool
  unfolding same_value
  observation_is_stale none previous_value sample_at value = false
  observation_is_stale (some previous_sample_at) previous_value sample_at value =
      ltb_ℤ sample_at previous_sample_at
      || (eq_ℤ sample_at previous_sample_at && same_value previous_value value)

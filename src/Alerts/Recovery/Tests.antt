-- ===== src/Alerts/Recovery/Tests.antt =====
-- backend/src/alerts.rs: an offline event, and its node back again.
use operation_monitoring.Base.{◌≡◌, refl, none, some, [], ◌∷◌, arith, count, true}
use operation_monitoring.Base.Int.{ℤ, pos, ◌+ℤ◌}
use operation_monitoring.Alerts.Model.{node_offline, RuleRow, EvaluationRow, EventRow, Db}
use operation_monitoring.Alerts.Observation.{connection, observation_is_stale}
use operation_monitoring.Alerts.Resolution.{has_id_active, is_unsent_firing}
use operation_monitoring.Alerts.Evaluation.{
  fresh_state, ensure_state, new_event, rule_is_current, instance_is_eligible,
  process_rule_observation,
}
use operation_monitoring.Alerts.Fixtures.{integers, cpu_rule, configured}
use operation_monitoring.Alerts.History.{empty}
use operation_monitoring.Alerts.Recovery.{
  Reconnected, brief_recovery_changes_no_event, stable_recovery_resolves,
}

abbrev offline_rule : RuleRow ℤ
offline_rule = record cpu_rule { metric = node_offline; threshold = none }

abbrev offline_event : EventRow ℤ
offline_event = new_event configured offline_rule 7 none (pos 1) (pos 900) (pos 930) (pos 2)

-- Back since 1000.
abbrev returning : EvaluationRow ℤ
returning = record (fresh_state offline_rule 7) {
  recovery_since = some (pos 1000);
  last_observed_at = some (pos 1000);
  last_value = some (pos 0);
  last_sample_at = some (pos 1000);
}

abbrev recovering : Db ℤ
recovering = record configured {
  rules = offline_rule ∷ [];
  states = returning ∷ [];
  events = offline_event ∷ [];
  drawn = 2;
}

reconnected :
    (Reconnected integers recovering offline_rule 7 (pos 1030) returning offline_event)
    × (Reconnected integers recovering offline_rule 7 (pos 1060) returning offline_event)
unfolding empty rule_is_current instance_is_eligible fresh_state ensure_state new_event
    observation_is_stale
reconnected = (
  record {
    offline_rule = refl;
    current = refl;
    eligible = refl;
    found = refl;
    fresh = refl;
    active = refl;
  },
  record {
    offline_rule = refl;
    current = refl;
    eligible = refl;
    found = refl;
    fresh = refl;
    active = refl;
  },
)

brief_recovery_changes_no_event_example :
    ((process_rule_observation integers recovering true offline_rule 7 connection
        (pos 1030)
        (pos 1030)).events
      ≡ recovering.events)
    × ((process_rule_observation integers recovering true offline_rule 7 connection
          (pos 1030)
          (pos 1030)).deliveries
        ≡ recovering.deliveries)
unfolding ◌+ℤ◌
brief_recovery_changes_no_event_example =
    brief_recovery_changes_no_event integers recovering offline_rule 7 (pos 1030) returning
      offline_event reconnected.0 (omega arith)

stable_recovery_resolves_example :
    (count
        (has_id_active offline_event.id)
        (process_rule_observation integers recovering true offline_rule 7 connection
          (pos 1060)
          (pos 1060)).events
      ≡ 0)
    × (count
          (is_unsent_firing offline_event.id)
          (process_rule_observation integers recovering true offline_rule 7 connection
            (pos 1060)
            (pos 1060)).deliveries
        ≡ 0)
unfolding ◌+ℤ◌
stable_recovery_resolves_example =
    stable_recovery_resolves integers recovering offline_rule 7 (pos 1060) returning offline_event
      reconnected.1 (omega arith)

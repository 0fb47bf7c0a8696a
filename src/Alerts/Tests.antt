-- ===== src/Alerts/Tests.antt =====
-- backend/src/alerts.rs: a rule, an instance and a channel, from the first sample to the delivery.
use operation_monitoring.Base.{
  ℕ, ◌+◌, ◌≤◌, ◌≡◌, refl, Bool, true, false, none, some, [], ◌∷◌, arith, count, find, inl, length,
  ◌&&◌, ◌==◌, ◌⊎◌, unwrap_or, All,
}
use operation_monitoring.Base.Int.{ℤ, pos, ◌+ℤ◌, ◌≤ℤ◌, saturating_sub}
use operation_monitoring.Alerts.Model.{
  firing, alert_firing, pending, processing, event_resolved_before_delivery, generic_webhook,
  RuleRow, EventRow, DeliveryRow, DeliveryKind, Db, is_active, is_active_event, is_state_of, new_v4,
}
use operation_monitoring.Alerts.Observation.{
  threshold, pending_should_fire, observation_is_stale, node_offline_suppresses,
}
use operation_monitoring.Alerts.Lifecycle.{
  deliverable_key, suppression_reason_tx, suppression_of, maintenance_reason, offline_reason,
  enqueue_event_lifecycle_tx, enqueue_channels, enqueue_channel, insert_delivery_tx,
}
use operation_monitoring.Alerts.Sound.{Sound}
use operation_monitoring.Alerts.Delivery.{
  WebhookAttemptOutcome, claim_delivery, claim_row, lease_row, in_flight, blocks, delivery_id_is,
  start_delivery_attempt,
}
use operation_monitoring.Alerts.Completion.{
  release_delivery_claim, mark_delivery_suppressed, finish_delivery_attempt,
}
use operation_monitoring.Alerts.Leases.{
  NotLeased, claim_is_exclusive, claim_takes_free_delivery, lost_lease_changes_nothing,
}
use mathlib.Core.Option.{some-injective}
use operation_monitoring.Alerts.Schedule.{planned, failed_attempt_is_rescheduled}
use operation_monitoring.Alerts.Resolution.{
  has_id_active, is_unsent_firing, resolve_event_tx, resolve_rule_events_tx,
}
use operation_monitoring.Alerts.Resolution.Closing.{
  resolve_event_tx_closes, resolve_rule_events_tx_closes,
}
use operation_monitoring.Alerts.Firing.{Observable, observe_abnormal_samples}
use operation_monitoring.Alerts.Firing.Duration.{duration_decides_firing}
use operation_monitoring.Alerts.Evaluation.Ignored.{NotCurrent, ignored_observation_changes_nothing}
use operation_monitoring.Alerts.Evaluation.{
  ensure_state, fresh_state, rule_is_current, instance_is_eligible, evaluate_row, evaluate,
  apply_observation, observe_abnormal, fire_event, new_event, process_rule_observation,
}
use operation_monitoring.Alerts.History.{
  Reach, here, next, Step, configures, observes, empty, unique_indexes_hold,
}
use operation_monitoring.Alerts.Fixtures.{
  integers, cpu_rule, server, hook, uuids, configured, sample, fired, uuids-Distinct,
}

abbrev configures_it : Step integers (empty integers uuids) configured
configures_it =
    configures (empty integers uuids) (cpu_rule ∷ []) [] ((1, 5) ∷ []) (server ∷ []) [] []
      (hook ∷ []) []

abbrev fires_it : Reach integers (empty integers uuids) fired
fires_it =
    next
      (next (next here configures_it)
        (observes configured true cpu_rule 7 (threshold (pos 95) true) (pos 1000) (pos 1000)))
      (observes (sample configured 1000) true cpu_rule 7 (threshold (pos 95) true) (pos 1040)
        (pos 1040))

unique_indexes_hold_example :
    ((rule_id instance_id : ℕ) → count (is_active_event rule_id instance_id) fired.events ≤ 1)
    × ((event_id channel_id : ℕ) (kind : DeliveryKind)
        → count (deliverable_key event_id channel_id kind) fired.deliveries ≤ 1)
unique_indexes_hold_example = unique_indexes_hold integers uuids fired uuids-Distinct fires_it

fired_once : count (is_active_event 1 7) fired.events ≡ 1
unfolding empty process_rule_observation ensure_state fresh_state rule_is_current
    instance_is_eligible evaluate_row evaluate apply_observation observe_abnormal
    pending_should_fire saturating_sub fire_event observation_is_stale enqueue_event_lifecycle_tx
    enqueue_channels enqueue_channel insert_delivery_tx suppression_reason_tx suppression_of
    maintenance_reason offline_reason node_offline_suppresses
fired_once = refl

observable : Observable integers configured cpu_rule 7
unfolding empty rule_is_current instance_is_eligible
observable = record { current = refl; eligible = refl; inactive = refl }

no_state : find (is_state_of 1 7) configured.states ≡ none
unfolding empty
no_state = refl

duration_decides_firing_example :
    (find
        (is_active_event 1 7)
        (observe_abnormal_samples integers configured true cpu_rule 7
          ((pos 95, pos 1000) ∷ (pos 96, pos 1020) ∷ [])).events
      ≡ none)
    × ((e : EventRow ℤ) × (find
            (is_active_event 1 7)
            (observe_abnormal_samples integers configured true cpu_rule 7
              ((pos 95, pos 1000) ∷ (pos 96, pos 1020) ∷ (pos 97, pos 1040) ∷ [])).events
          ≡ some e)
        × (e.first_observed_at ≡ pos 1000)
        × (e.fired_at ≡ pos 1040)
        × (e.status ≡ firing))
unfolding ◌+ℤ◌
duration_decides_firing_example =
    duration_decides_firing integers configured true cpu_rule 7 30 (pos 95) (pos 97) (pos 1000)
      (pos 1040) ((pos 96, pos 1020) ∷ []) refl (omega arith) (omega arith) observable no_state
      (omega arith, omega arith, tt) (omega arith) (omega arith)

abbrev burning : EventRow ℤ
burning = new_event configured cpu_rule 7 none (pos 95) (pos 1000) (pos 1040) (pos 2)

abbrev waiting : DeliveryRow ℤ
waiting = record {
  id = 101;
  event_id = some 100;
  channel_id = 5;
  kind = alert_firing;
  status = pending;
  payload = none;
  channel_snapshot = (5, "hook", generic_webhook);
  suppression_reason = none;
  attempts_count = pos 0;
  cycle_attempts = pos 0;
  manual_retry_count = pos 0;
  next_attempt_at = some (pos 1040);
  lease_until = none;
  lease_token = none;
  last_error = "";
  created_at = pos 1040;
  updated_at = pos 1040;
  completed_at = none;
}

abbrev queued : Db ℤ
queued = record configured { events = burning ∷ []; deliveries = waiting ∷ []; drawn = 2 }

queued-Sound : Sound queued
unfolding empty new_event
queued-Sound = record {
  one_active = λ rule_id instance_id. ground arith;
  one_id = λ k. ground arith;
  drawn_ids = ((0, omega arith, refl), tt);
  outgoing = record {
    one_each = λ event_id channel_id kind. ground arith;
    one_id = λ k. ground arith;
    drawn_ids = ((1, omega arith, refl), tt);
  };
  distinct = uuids-Distinct;
}

abbrev nothing_locked : ℕ → Bool
nothing_locked channel_id = false

abbrev leased : DeliveryRow ℤ
leased = lease_row (pos 1041) 102 waiting

claimed : (claim_delivery queued queued nothing_locked (pos 1041)).1 ≡ some leased
unfolding empty claim_delivery claim_row new_event
claimed = refl

claim_is_exclusive_example :
    (leased.lease_token ≡ some (new_v4 queued))
    × (leased.lease_until ≡ some (pos 1041 +ℤ pos 180))
    × (count
          (in_flight leased.channel_id (pos 1041))
          (claim_delivery queued queued nothing_locked (pos 1041)).0.deliveries
        ≡ 1)
    × (count (blocks leased) queued.deliveries ≡ 0)
claim_is_exclusive_example =
    claim_is_exclusive queued nothing_locked (pos 1041) leased queued-Sound claimed

-- The tables of the claim, as they were before another transaction put the delivery off and back.
abbrev earlier_snapshot : Db ℤ
earlier_snapshot = record queued {
  deliveries = record waiting { next_attempt_at = some (pos 1035) } ∷ [];
}

claimed_later : (claim_delivery earlier_snapshot queued nothing_locked (pos 1041)).1 ≡ some leased
unfolding empty claim_delivery claim_row new_event
claimed_later = refl

claim_takes_free_delivery_example :
    (old : DeliveryRow ℤ) × (find (delivery_id_is 101) queued.deliveries ≡ some old)
    × ((old.status ≡ pending) ⊎ (unwrap_or old.lease_until (pos 0) ≤ℤ pos 1041))
    × (find
          (delivery_id_is 101)
          (claim_delivery earlier_snapshot queued nothing_locked (pos 1041)).0.deliveries
        ≡ some leased)
    × (leased ≡ record old {
      status = processing;
      lease_until = some (pos 1041 +ℤ pos 180);
      lease_token = some (new_v4 queued);
      updated_at = pos 1041;
    })
    × ((k : ℕ)
        → (k == 101) ≡ false
        → find
            (delivery_id_is k)
            (claim_delivery earlier_snapshot queued nothing_locked (pos 1041)).0.deliveries
          ≡ find (delivery_id_is k) queued.deliveries)
unfolding lease_row
claim_takes_free_delivery_example =
    claim_takes_free_delivery earlier_snapshot queued nothing_locked (pos 1041) leased claimed_later

-- The delivery in its first attempt.
abbrev attempted : DeliveryRow ℤ
attempted = record waiting {
  status = processing;
  lease_until = some (pos 1221);
  lease_token = some 102;
  attempts_count = pos 1;
  cycle_attempts = pos 1;
}

abbrev sending : Db ℤ
sending = record queued { deliveries = attempted ∷ []; drawn = 3 }

abbrev refused : WebhookAttemptOutcome
refused = record {
  succeeded = false;
  http_status = some (pos 503);
  duration_ms = pos 12;
  error = "http_error";
  response_excerpt = "";
}

abbrev overtaken : DeliveryRow ℤ
overtaken = record attempted { lease_token = some 103 }

other_token : NotLeased overtaken attempted
other_token (_, _, token) =
    let same : 102 ≡ 103 = some-injective 102 103 token in absurd (omega (arith, same))

lost_lease_changes_nothing_example :
    (start_delivery_attempt sending overtaken (pos 1050) ≡ (sending, none))
    × (release_delivery_claim sending overtaken (pos 1050) ≡ sending)
    × (mark_delivery_suppressed sending overtaken event_resolved_before_delivery (pos 1050)
        ≡ sending)
    × (finish_delivery_attempt sending overtaken refused (pos 1050) ≡ sending)
lost_lease_changes_nothing_example =
    lost_lease_changes_nothing sending overtaken refused event_resolved_before_delivery (pos 1050)
      (other_token, tt)

failed_attempt_is_rescheduled_example :
    (out : DeliveryRow ℤ) × (find
        (delivery_id_is 101)
        (finish_delivery_attempt sending attempted refused (pos 1050)).deliveries
      ≡ some out)
    × ((out.status, out.next_attempt_at) ≡ planned (pos 1050) 0)
    × (out.lease_token ≡ none)
    × (length (finish_delivery_attempt sending attempted refused (pos 1050)).attempts
        ≡ length sending.attempts + 1)
unfolding empty new_event
failed_attempt_is_rescheduled_example =
    failed_attempt_is_rescheduled sending attempted attempted hook refused (pos 1050) 0 refl refl
      refl refl refl refl refl refl

resolve_rule_events_tx_closes_example :
    count
      (λ (e : EventRow ℤ). (e.rule_id == 1) && is_active e.status)
      (resolve_rule_events_tx queued 1 (pos 2000) "rule_disabled").events
    ≡ 0
resolve_rule_events_tx_closes_example =
    resolve_rule_events_tx_closes queued 1 (pos 2000) "rule_disabled"

resolve_event_tx_closes_example :
    (count
        (has_id_active burning.id)
        (resolve_event_tx queued burning (pos 2000) "condition_recovered" none).events
      ≡ 0)
    × (count
          (is_unsent_firing burning.id)
          (resolve_event_tx queued burning (pos 2000) "condition_recovered" none).deliveries
        ≡ 0)
unfolding new_event
resolve_event_tx_closes_example =
    resolve_event_tx_closes queued burning (pos 2000) "condition_recovered" none refl

-- A rule as it was before its last change.
abbrev outdated : RuleRow ℤ
outdated = record cpu_rule { version = pos 0 }

outdated-IsOutdated : All (NotCurrent integers outdated) configured.rules
unfolding empty
outdated-IsOutdated = (λ (_, _, version). ground (arith, version), tt)

ignored_observation_changes_nothing_example :
    process_rule_observation integers configured true outdated 7
      (threshold (pos 95) true)
      (pos 1000)
      (pos 1000)
    ≡ record configured {
      states =
          (process_rule_observation integers configured true outdated 7
            (threshold (pos 95) true)
            (pos 1000)
            (pos 1000)).states;
    }
ignored_observation_changes_nothing_example =
    ignored_observation_changes_nothing integers configured true outdated 7
      (threshold (pos 95) true) (pos 1000) (pos 1000) (inl outdated-IsOutdated)

-- ===== src/Alerts/Evaluation/Soundness.antt =====
-- backend/src/alerts.rs: an observation keeps the tables sound; above all, it fires no second event.
use operation_monitoring.Base.{
  ℕ, ◌+◌, ◌≡◌, refl, Bool, true, false, Option, none, some, [], ◌∷◌, arith, All-append,
  count-append, count_of_find-none, find, Option-cases, Bool-cases, any, inl, inr,
}
use operation_monitoring.Base.Int.{ℤ}
use operation_monitoring.Alerts.Model.{
  F64, EventRow, EvaluationRow, RuleRow, SuppressionReason, Db, is_active_event, has_id,
  is_state_of,
}
use operation_monitoring.Alerts.Observation.{
  RuleObservation, pending_should_fire, recovery_confirmation, observation_is_stale,
}
use operation_monitoring.Alerts.Lifecycle.Outbox.{enqueue-Sound}
use operation_monitoring.Alerts.Resolution.Soundness.{
  update_events-Sound, resolve_event_tx-Sound, set_states-Sound,
}
use operation_monitoring.Alerts.Sound.{Sound, DeliveriesOk-later, IsDrawn-later, fresh_id}
use operation_monitoring.Alerts.Evaluation.{
  ensure_state, delete_state, observe_normal, note_match, observe_still_abnormal, new_event,
  fire_event, observe_abnormal, apply_observation, evaluate_row, process_rule_observation,
  observed_value, rule_is_current, instance_is_eligible,
}

module _ {V : Type 0} where
  fire_event-Sound :
      (db : Db V) (r : RuleRow V) (i : ℕ) (suppression : Option SuppressionReason) (value : V)
      (pending_since observed_at match_count : ℤ)
      → find (is_active_event r.id i) db.events ≡ none
      → Sound db
      → Sound (fire_event db r i suppression value pending_since observed_at match_count)
  unfolding fire_event
  fire_event-Sound db r i suppression value pending_since observed_at match_count h s =
      let e = new_event db r i suppression value pending_since observed_at match_count in
      enqueue-Sound _ _ _ _ _ _ _ (record {
        one_active = λ rule_id instance_id. ground (
          arith,
          s.one_active rule_id instance_id,
          count_of_find-none (is_active_event r.id i) db.events h,
          count-append (is_active_event rule_id instance_id) db.events (e ∷ []),
        );
        outgoing = DeliveriesOk-later db.uuids db.drawn _ db.deliveries (omega arith) s.outgoing;
        one_id = λ k. ground (
          arith,
          s.one_id k,
          fresh_id (λ e. e.id) db.uuids db.drawn s.distinct db.events s.drawn_ids,
          count-append (has_id k) db.events (e ∷ []),
        );
        drawn_ids =
            All-append _ db.events (e ∷ [])
              (IsDrawn-later (λ e. e.id) db.uuids db.drawn (db.drawn + 1 + 1) db.events
                (omega arith) s.drawn_ids)
              ((db.drawn, omega arith, refl), tt);
        distinct = s.distinct;
      })

  observe_abnormal-Sound :
      (db : Db V) (r : RuleRow V) (i : ℕ) (evaluation : EvaluationRow V)
      (suppression : Option SuppressionReason) (value : V) (observed_at sample_at : ℤ)
      → find (is_active_event r.id i) db.events ≡ none
      → Sound db
      → Sound (observe_abnormal db r i evaluation suppression value observed_at sample_at)
  unfolding observe_abnormal
  observe_abnormal-Sound db r i evaluation suppression value observed_at sample_at h s =
      elim (Bool-cases (
        pending_should_fire r.duration_seconds evaluation.pending_since evaluation.last_observed_at
          observed_at)) [
            | inl e ↦
                rw (e, observe_abnormal)
                  (fire_event-Sound _ r i suppression value _ observed_at _ h
                    (set_states-Sound db _ s))
            | inr e ↦ rw (e, observe_abnormal) (set_states-Sound db _ s)
          ]

  observe_still_abnormal-Sound :
      (db : Db V) (r : RuleRow V) (i : ℕ) (evaluation : EvaluationRow V) (event : EventRow V)
      (suppression : Option SuppressionReason) (value : V) (observed_at sample_at : ℤ)
      → Sound db
      → Sound
          (observe_still_abnormal db r i evaluation event suppression value observed_at sample_at)
  unfolding observe_still_abnormal
  observe_still_abnormal-Sound db r i evaluation event suppression value observed_at sample_at s =
      set_states-Sound _ _ (
        enqueue-Sound _ _ _ _ _ _ _ (
          update_events-Sound db (has_id event.id) (note_match value observed_at _ suppression)
            (λ r i e q p. p) (λ e. refl) s))

  observe_normal-Sound :
      (db : Db V) (r : RuleRow V) (i : ℕ) (evaluation : EvaluationRow V)
      (active : Option (EventRow V)) (value : V) (observed_at sample_at : ℤ)
      → Sound db
      → Sound (observe_normal db r i evaluation active value observed_at sample_at)
  unfolding observe_normal
  observe_normal-Sound db r i evaluation none value observed_at sample_at s =
      set_states-Sound db _ s
  observe_normal-Sound db r i evaluation (some event) value observed_at sample_at s =
      elim (Bool-cases
        (recovery_confirmation r.metric true evaluation.recovery_since observed_at).1) [
          | inl e ↦
              rw (e, observe_normal)
                (resolve_event_tx-Sound _ event observed_at _ _ (set_states-Sound db _ s))
          | inr e ↦ rw (e, observe_normal) (set_states-Sound db _ s)
        ]

  apply_observation-Sound :
      (db : Db V) (r : RuleRow V) (i : ℕ) (evaluation : EvaluationRow V) (seen : V × Bool)
      (observed_at sample_at : ℤ)
      → Sound db
      → Sound (apply_observation db r i evaluation seen observed_at sample_at)
  unfolding apply_observation
  apply_observation-Sound db r i evaluation (value, false) observed_at sample_at s =
      observe_normal-Sound db r i evaluation _ value observed_at sample_at s
  apply_observation-Sound db r i evaluation (value, true) observed_at sample_at s =
      elim (Option-cases (find (is_active_event r.id i) db.events)) [
        | inl e ↦
            rw (e, apply_observation)
              (observe_abnormal-Sound db r i evaluation _ value observed_at sample_at e s)
        | inr (event, e) ↦
            rw (e, apply_observation)
              (observe_still_abnormal-Sound db r i evaluation event _ value observed_at sample_at s)
      ]

  ensure_state-Sound : (db : Db V) (r : RuleRow V) (i : ℕ) → Sound db → Sound (ensure_state db r i)
  unfolding ensure_state
  ensure_state-Sound db r i s = elim (Bool-cases (any (is_state_of r.id i) db.states)) [
    | inl e ↦ rw (e, ensure_state) (set_states-Sound db _ s)
    | inr e ↦ rw (e, ensure_state) (set_states-Sound db _ s)
  ]

module _ (f : F64) where
  evaluate_row-Sound :
      (before db : Db f.Value) (o : Option (EvaluationRow f.Value)) (online : Bool)
      (r : RuleRow f.Value) (i : ℕ) (observation : RuleObservation f.Value)
      (observed_at sample_at : ℤ)
      → Sound before
      → Sound db
      → Sound (evaluate_row f before db o online r i observation observed_at sample_at)
  unfolding evaluate_row
  evaluate_row-Sound before db none online r i observation observed_at sample_at b s = b
  evaluate_row-Sound before db (some evaluation) online r i observation observed_at sample_at b s =
      elim (Bool-cases (
        observation_is_stale f evaluation.last_sample_at evaluation.last_value sample_at
          (observed_value f online observation).0)) [
            | inl e ↦ rw (e, evaluate_row) s
            | inr e ↦
                rw (e, evaluate_row)
                  (apply_observation-Sound db r i evaluation _ observed_at sample_at s)
          ]

  pub process_rule_observation-Sound :
      (db : Db f.Value) (online : Bool) (r : RuleRow f.Value) (i : ℕ)
      (observation : RuleObservation f.Value) (observed_at sample_at : ℤ)
      → Sound db
      → Sound (process_rule_observation f db online r i observation observed_at sample_at)
  unfolding process_rule_observation delete_state
  process_rule_observation-Sound db online r i observation observed_at sample_at s =
      elim (Bool-cases (rule_is_current db r)) [
        | inr e ↦ rw (e, process_rule_observation) s
        | inl e ↦
            rw (e, process_rule_observation)
              (elim (Bool-cases (instance_is_eligible db i)) [
                | inr k ↦ rw (k, process_rule_observation) (set_states-Sound db _ s)
                | inl k ↦
                    rw (k, process_rule_observation)
                      (evaluate_row-Sound db _ _ online r i observation observed_at sample_at s
                        (ensure_state-Sound db r i s))
              ])
      ]

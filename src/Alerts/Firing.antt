-- ===== src/Alerts/Firing.antt =====
-- backend/src/alerts.rs: how long a condition lasts before an event fires (`process_rule_observation`
-- over a sequence of samples).
pub mod Duration
use Prim.Native.String.{String}
use operation_monitoring.Base.{
  ℕ, ◌+◌, ◌≤◌, ◌<◌, ◌≡◌, refl, ap, ◌∙◌, sym, Bool, true, false, Option, none, some, List, [], ◌∷◌,
  ◌++◌, arith, any, not, ◌&&◌, ◌||◌, find, update_where, find-update_same, find-append,
  count_of_find-none, any_of_count, any_of_find, find-holds, if◌then◌else◌, ◌==◌, is_some,
  unwrap_or, Bool-cases, inl, inr,
}
use operation_monitoring.Base.Int.{
  ℤ, pos, ◌+ℤ◌, ltb_ℤ, leb_ℤ, eq_ℤ, ◌<ℤ◌, ◌≤ℤ◌, i64_max, saturating_sub, saturating_sub-ge,
  saturating_add,
}
use operation_monitoring.Alerts.Model.{
  F64, RuleRow, EventRow, EvaluationRow, SuppressionReason, Db, is_active_event, is_state_of,
  firing,
}
use operation_monitoring.Alerts.Observation.{threshold, observation_is_stale, pending_should_fire}
use operation_monitoring.Alerts.Lifecycle.{suppression_reason_tx}
use operation_monitoring.Alerts.Lifecycle.Outbox.{enqueue-Enqueued}
use operation_monitoring.Alerts.Evaluation.{
  rule_is_current, instance_is_eligible, fresh_state, ensure_state, observe_abnormal, new_event,
  fire_event, apply_observation, evaluate, evaluate_row, process_rule_observation,
}

module _ (f : F64) where
  -- Samples at or beyond the threshold, each with its time, in their order.
  unfoldable pub observe_abnormal_samples :
      Db f.Value → Bool → RuleRow f.Value → ℕ → List (f.Value × ℤ) → Db f.Value
  observe_abnormal_samples db online r i [] = db
  observe_abnormal_samples db online r i ((value, t) ∷ rest) =
      observe_abnormal_samples (process_rule_observation f db online r i (threshold value true) t t)
        online r i rest

  -- Later than `last`, in order, and less than the duration after `start`.
  abbrev pub Within : RuleRow f.Value → ℤ → ℤ → List (f.Value × ℤ) → Type 0
  Within r start last [] = Unit
  Within r start last ((value, t) ∷ rest) =
      (last <ℤ t) × (t <ℤ r.duration_seconds +ℤ start) × Within r start t rest

  abbrev pub last_time : ℤ → List (f.Value × ℤ) → ℤ
  last_time last [] = last
  last_time last ((value, t) ∷ rest) = last_time t rest

  -- The rule and the instance can be observed, and no event of the two is unresolved.
  pub record Observable (db : Db f.Value) (r : RuleRow f.Value) (i : ℕ) : Type 0 where
    pub current : rule_is_current db r ≡ true
    pub eligible : instance_is_eligible db i ≡ true
    pub inactive : find (is_active_event r.id i) db.events ≡ none

  -- The condition has held since `start`, and was last seen at `last`.
  pub record Waiting (db : Db f.Value) (r : RuleRow f.Value) (i : ℕ) (start last : ℤ) : Type 0 where
    pub row : EvaluationRow f.Value
    pub found : find (is_state_of r.id i) db.states ≡ some row
    pub same_version : eq_ℤ row.rule_version r.version ≡ true
    pub since : row.pending_since ≡ some start
    pub seen : row.last_observed_at ≡ some last
    pub sampled : row.last_sample_at ≡ some last

  pub ensured :
      (db : Db f.Value) (r : RuleRow f.Value) (i : ℕ) (row : EvaluationRow f.Value)
      → find (is_state_of r.id i) db.states ≡ some row
      → eq_ℤ row.rule_version r.version ≡ true
      → find (is_state_of r.id i) (ensure_state db r i).states ≡ some row
  unfolding ensure_state fresh_state
  ensured db r i row found same =
      let known =
        any_of_find (is_state_of r.id i) (is_state_of r.id i) db.states row found
          (find-holds (is_state_of r.id i) db.states row found) in
      rw known (
        find-update_same (is_state_of r.id i)
          (λ x. is_state_of r.id i x && not (eq_ℤ x.rule_version r.version)) (λ x. fresh_state r i)
          (λ x h. ground arith) db.states
        ∙ rw found (rw same (ground arith)))

  events-ensure_state :
      (db : Db f.Value) (r : RuleRow f.Value) (i : ℕ) → (ensure_state db r i).events ≡ db.events
  unfolding ensure_state
  events-ensure_state db r i = ground arith

  unwatched :
      (db : Db f.Value) (r : RuleRow f.Value) (i : ℕ) (row : EvaluationRow f.Value)
      (value : f.Value) (t : ℤ)
      → find (is_active_event r.id i) db.events ≡ none
      → apply_observation db r i row (value, true) t t
        ≡ observe_abnormal db r i row (suppression_reason_tx db r i t) value t t
  unfolding apply_observation
  unwatched db r i row value t h = rw (h, apply_observation) refl

  -- One abnormal sample that is not stale, on the row that is there for it.
  pub observed :
      (db : Db f.Value) (online : Bool) (r : RuleRow f.Value) (i : ℕ) (value : f.Value) (t : ℤ)
      (row : EvaluationRow f.Value)
      → Observable db r i
      → find (is_state_of r.id i) (ensure_state db r i).states ≡ some row
      → observation_is_stale f row.last_sample_at row.last_value t value ≡ false
      → process_rule_observation f db online r i (threshold value true) t t
        ≡ observe_abnormal
            (ensure_state db r i)
            r
            i
            row
            (suppression_reason_tx (ensure_state db r i) r i t)
            value
            t
            t
  unfolding process_rule_observation evaluate_row evaluate
  observed db online r i value t row o found fresh =
      rw (o.current, o.eligible, found, fresh)
        (unwatched (ensure_state db r i) r i row value t
          (ap (find (is_active_event r.id i)) (events-ensure_state db r i) ∙ o.inactive))

  -- While the duration has not passed, the sample is only noted.
  pub noted :
      (db : Db f.Value) (r : RuleRow f.Value) (i : ℕ) (row : EvaluationRow f.Value)
      (suppression : Option SuppressionReason) (value : f.Value) (start t : ℤ)
      → Observable db r i
      → find (is_state_of r.id i) db.states ≡ some row
      → eq_ℤ row.rule_version r.version ≡ true
      → unwrap_or row.pending_since t ≡ start
      → pending_should_fire r.duration_seconds row.pending_since row.last_observed_at t ≡ false
      → Observable (observe_abnormal db r i row suppression value t t) r i
        × Waiting (observe_abnormal db r i row suppression value t t) r i start t
  unfolding observe_abnormal rule_is_current instance_is_eligible
  noted db r i row suppression value start t o found same since early = rw early (
    record { current = o.current; eligible = o.eligible; inactive = o.inactive },
    record {
      row = record row {
        pending_since = some (unwrap_or row.pending_since t);
        recovery_since = none;
        last_observed_at = some t;
        last_value = some value;
        last_sample_at = some t;
        match_count = saturating_add row.match_count (pos 1);
      };
      found =
          find-update_same (is_state_of r.id i) (is_state_of r.id i) _ (λ x _. refl) db.states
          ∙ rw (found, find-holds (is_state_of r.id i) db.states row found) refl;
      same_version = same;
      since = ap some since;
      seen = refl;
      sampled = refl;
    },
  )

  pub ensured-Observable :
      (db : Db f.Value) (r : RuleRow f.Value) (i : ℕ)
      → Observable db r i
      → Observable (ensure_state db r i) r i
  unfolding ensure_state rule_is_current instance_is_eligible
  ensured-Observable db r i o = elim (Bool-cases (any (is_state_of r.id i) db.states)) [
    | inl e ↦
        rw (e, ensure_state)
          (record { current = o.current; eligible = o.eligible; inactive = o.inactive })
    | inr e ↦
        rw (e, ensure_state)
          (record { current = o.current; eligible = o.eligible; inactive = o.inactive })
  ]

  pub later_fresh :
      (row : EvaluationRow f.Value) (last t : ℤ) (value : f.Value)
      → row.last_sample_at ≡ some last
      → last <ℤ t
      → observation_is_stale f row.last_sample_at row.last_value t value ≡ false
  unfolding observation_is_stale
  later_fresh row last t value h lt = rw h (ground arith)

  pub pending_should_fire-elapsed :
      (r : RuleRow f.Value) (row : EvaluationRow f.Value) (d : ℕ) (start last t : ℤ)
      → r.duration_seconds ≡ pos d
      → 1 ≤ d
      → d ≤ i64_max
      → row.pending_since ≡ some start
      → row.last_observed_at ≡ some last
      → pending_should_fire r.duration_seconds row.pending_since row.last_observed_at t
        ≡ leb_ℤ (r.duration_seconds +ℤ start) t
  unfolding pending_should_fire
  pending_should_fire-elapsed r row d start last t duration positive bounded since seen =
      rw (duration, since, seen) (ground (arith, saturating_sub-ge t start d bounded))

-- ===== src/Alerts/Evaluation/Ignored.antt =====
-- backend/src/alerts.rs, `process_rule_observation`: the observations that it must not act on.
use operation_monitoring.Base.{
  ℕ, ◌≡◌, ◌∙◌, refl, arith, Bool, true, false, not, ◌&&◌, some, find, any, Bool-cases, Option-cases,
  inl, inr, ◌⊎◌, ◌==◌, ==_iff, All, All-find, find-holds, find-update_same, any_of_find,
}
use operation_monitoring.Base.Int.{ℤ, eq_ℤ, ◌<ℤ◌}
use operation_monitoring.Alerts.Model.{F64, RuleRow, EvaluationRow, Instance, Db, is_state_of}
use operation_monitoring.Alerts.Observation.{RuleObservation, observation_is_stale, same_value}
use operation_monitoring.Alerts.Evaluation.{
  rule_is_current, instance_is_eligible, ensure_state, fresh_state, delete_state, observed_value,
  evaluate, evaluate_row, process_rule_observation,
}

module _ (f : F64) where
  -- A row that is not the rule as the caller read it: enabled, and of that version.
  abbrev pub NotCurrent : RuleRow f.Value → RuleRow f.Value → Type 0
  NotCurrent r row = ¬ ((row.id ≡ r.id) × (row.enabled ≡ true) × (row.version ≡ r.version))

  -- A row that is not the instance, or one that is not approved or is disabled.
  abbrev pub NotEligible : ℕ → Instance → Type 0
  NotEligible instance_id i = ¬ ((i.id ≡ instance_id) × (i.approved ≡ true) × (i.disabled ≡ false))

  -- The state of the pair, left by this version of the rule, has seen a later sample, or one of the
  -- same time and value.
  abbrev pub HasSeen : Db f.Value → RuleRow f.Value → ℕ → ℤ → f.Value → Type 0
  HasSeen db r instance_id sample_at value =
      (s : EvaluationRow f.Value) × (t : ℤ) × (find (is_state_of r.id instance_id) db.states
        ≡ some s)
      × (s.rule_version ≡ r.version)
      × (s.last_sample_at ≡ some t)
      × ((sample_at <ℤ t)
          ⊎ ((sample_at ≡ t)
              × ((old : f.Value) × (s.last_value ≡ some old) × (f.eq old value ≡ true))))

  not_current :
      (db : Db f.Value) (r : RuleRow f.Value)
      → All (NotCurrent r) db.rules
      → rule_is_current db r ≡ false
  unfolding rule_is_current
  not_current db r every = elim (Option-cases (find (λ row. row.id == r.id) db.rules)) [
    | inl missing ↦ rw (rule_is_current, missing) refl
    | inr (row, found) ↦
        let no = All-find (NotCurrent r) (λ x. x.id == r.id) db.rules row every found in
        let id = (==_iff row.id r.id).0 (find-holds (λ x. x.id == r.id) db.rules row found) in
        rw (rule_is_current, found)
          (elim (Bool-cases (row.enabled && eq_ℤ row.version r.version)) [
            | inr e ↦ e
            | inl e ↦ absurd (no (id, ground (arith, e), ground (arith, e)))
          ])
  ]

  not_eligible :
      (db : Db f.Value) (instance_id : ℕ)
      → All (NotEligible instance_id) db.instances
      → instance_is_eligible db instance_id ≡ false
  unfolding instance_is_eligible
  not_eligible db instance_id every =
      elim (Option-cases (find (λ i. i.id == instance_id) db.instances)) [
        | inl missing ↦ rw (instance_is_eligible, missing) refl
        | inr (i, found) ↦
            let test = λ (x : Instance). x.id == instance_id in
            let no = All-find (NotEligible instance_id) test db.instances i every found in
            let id = (==_iff i.id instance_id).0 (find-holds test db.instances i found) in
            rw (instance_is_eligible, found)
              (elim (Bool-cases (i.approved && not i.disabled)) [
                | inr e ↦ e
                | inl e ↦ absurd (no (id, ground (arith, e), ground (arith, e)))
              ])
      ]

  -- The row of the pair, as the transaction reads it.
  kept_state :
      (db : Db f.Value) (r : RuleRow f.Value) (instance_id : ℕ) (s : EvaluationRow f.Value)
      → find (is_state_of r.id instance_id) db.states ≡ some s
      → s.rule_version ≡ r.version
      → find (is_state_of r.id instance_id) (ensure_state db r instance_id).states ≡ some s
  unfolding ensure_state fresh_state
  kept_state db r instance_id s found version =
      let test = is_state_of r.id instance_id in
      let present = any_of_find test test db.states s found (find-holds test db.states s found) in
      let same : eq_ℤ s.rule_version r.version ≡ true = rw version (ground arith) in
      rw present (
        find-update_same test (λ x. test x && not (eq_ℤ x.rule_version r.version))
          (λ x. fresh_state r instance_id) (λ x hit. ground (arith, hit)) db.states
        ∙ rw (found, same, find-holds test db.states s found) refl)

  seen-stale :
      (db : Db f.Value) (r : RuleRow f.Value) (instance_id : ℕ) (sample_at : ℤ) (value : f.Value)
      → HasSeen db r instance_id sample_at value
      → (s : EvaluationRow f.Value) × (find
            (is_state_of r.id instance_id)
            (ensure_state db r instance_id).states
          ≡ some s)
        × (observation_is_stale f s.last_sample_at s.last_value sample_at value ≡ true)
  unfolding observation_is_stale same_value
  seen-stale db r instance_id sample_at value (s, t, found, version, at, inl later) =
      (s, kept_state db r instance_id s found version, rw at (ground (arith, later)))
  seen-stale db r instance_id sample_at value
        (s, t, found, version, at, inr (same, (old, last, equal))) =
      (s, kept_state db r instance_id s found version, rw (at, last, same) (ground (arith, equal)))

  only_states :
      (db : Db f.Value) (r : RuleRow f.Value) (i : ℕ)
      → ensure_state db r i ≡ record db { states = (ensure_state db r i).states }
  unfolding ensure_state
  only_states db r i = elim (Bool-cases (any (is_state_of r.id i) db.states)) [
    | inl e ↦ rw (e, ensure_state) refl
    | inr e ↦ rw (e, ensure_state) refl
  ]

  -- An observation changes nothing but the evaluation states, so makes no event, no timeline entry and
  -- no delivery, when the rule is no longer in the table, enabled and of the version that the caller
  -- read; when the instance is not there, approved and not disabled; or when the state that this
  -- version of the rule has left shows a later sample, or one of the same time and value.
  pub ignored_observation_changes_nothing :
      (db : Db f.Value) (online : Bool) (r : RuleRow f.Value) (i : ℕ)
      (observation : RuleObservation f.Value) (observed_at sample_at : ℤ)
      → All (NotCurrent r) db.rules
        ⊎ (All (NotEligible i) db.instances
            ⊎ HasSeen db r i sample_at (observed_value f online observation).0)
      → process_rule_observation f db online r i observation observed_at sample_at ≡ record db {
        states =
            (process_rule_observation f db online r i observation observed_at sample_at).states;
      }
  unfolding process_rule_observation delete_state evaluate_row evaluate
  ignored_observation_changes_nothing db online r i observation observed_at sample_at (inl h) =
      rw (not_current db r h) refl
  ignored_observation_changes_nothing db online r i observation observed_at sample_at
        (inr (inl h)) =
      let refused = not_eligible db i h in
      elim (Bool-cases (rule_is_current db r)) [ inl c ↦ rw (c, refused) refl | inr c ↦ rw c refl ]
  ignored_observation_changes_nothing db online r i observation observed_at sample_at
        (inr (inr seen)) =
      let (row, found, stale) =
        seen-stale db r i sample_at (observed_value f online observation).0 seen in
      elim (Bool-cases (rule_is_current db r)) [
        | inr c ↦ rw c refl
        | inl c ↦ elim (Bool-cases (instance_is_eligible db i)) [
          | inr e ↦ rw (c, e) refl
          | inl e ↦ rw (c, e, found, stale) (only_states db r i)
        ]
      ]

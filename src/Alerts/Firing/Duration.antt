-- ===== src/Alerts/Firing/Duration.antt =====
-- backend/src/alerts.rs: the duration of a rule, over a whole sequence of samples.
use operation_monitoring.Base.{
  ℕ, ◌≤◌, ◌≡◌, refl, ap, ◌∙◌, Bool, true, false, Option, none, some, List, [], ◌∷◌, ◌++◌, arith,
  find, find-append, count_of_find-none, any_of_count, unwrap_or,
}
use operation_monitoring.Base.Int.{ℤ, pos, ◌+ℤ◌, ◌<ℤ◌, ◌≤ℤ◌, i64_max}
use operation_monitoring.Alerts.Model.{
  F64, RuleRow, EventRow, EvaluationRow, SuppressionReason, Db, is_active_event, is_state_of,
  firing,
}
use operation_monitoring.Alerts.Observation.{threshold, observation_is_stale, pending_should_fire}
use operation_monitoring.Alerts.Lifecycle.Outbox.{enqueue-Enqueued}
use operation_monitoring.Alerts.Evaluation.{
  fresh_state, ensure_state, observe_abnormal, new_event, fire_event, process_rule_observation,
}
use operation_monitoring.Alerts.Firing.{
  observe_abnormal_samples, Within, last_time, Observable, Waiting, ensured, observed, noted,
  ensured-Observable, later_fresh, pending_should_fire-elapsed,
}

module _ (f : F64) where
  fresh_not_due :
      (r : RuleRow f.Value) (row : EvaluationRow f.Value) (d : ℕ) (t : ℤ)
      → r.duration_seconds ≡ pos d
      → 1 ≤ d
      → row.pending_since ≡ none
      → pending_should_fire r.duration_seconds row.pending_since row.last_observed_at t ≡ false
  unfolding pending_should_fire
  fresh_not_due r row d t duration positive since = rw (duration, since) (ground arith)

  first_sample :
      (db : Db f.Value) (online : Bool) (r : RuleRow f.Value) (i d : ℕ) (value : f.Value) (t : ℤ)
      → r.duration_seconds ≡ pos d
      → 1 ≤ d
      → Observable f db r i
      → find (is_state_of r.id i) db.states ≡ none
      → Observable f (process_rule_observation f db online r i (threshold value true) t t) r i
        × Waiting f (process_rule_observation f db online r i (threshold value true) t t) r i t t
  unfolding ensure_state fresh_state observation_is_stale
  first_sample db online r i d value t duration positive o new =
      let row = fresh_state r i in
      let added : find (is_state_of r.id i) (ensure_state db r i).states ≡ some row =
        rw (any_of_count (is_state_of r.id i) db.states (count_of_find-none _ db.states new))
          (find-append (is_state_of r.id i) db.states (row ∷ []) ∙ rw new (ground arith)) in
      rw (observed f db online r i value t row o added refl) (
        noted f (ensure_state db r i) r i row _ value t t (ensured-Observable f db r i o) added
          (ground arith) refl (fresh_not_due r row d t duration positive refl))

  next_sample :
      (db : Db f.Value) (online : Bool) (r : RuleRow f.Value) (i d : ℕ) (value : f.Value)
      (start last t : ℤ)
      → r.duration_seconds ≡ pos d
      → 1 ≤ d
      → d ≤ i64_max
      → Observable f db r i
      → Waiting f db r i start last
      → last <ℤ t
      → t <ℤ r.duration_seconds +ℤ start
      → Observable f (process_rule_observation f db online r i (threshold value true) t t) r i
        × Waiting f
            (process_rule_observation f db online r i (threshold value true) t t)
            r
            i
            start
            t
  next_sample db online r i d value start last t duration positive bounded o w lt early =
      let there = ensured f db r i w.row w.found w.same_version in
      rw
        (observed f db online r i value t w.row o there
          (later_fresh f w.row last t value w.sampled lt))
        (noted f (ensure_state db r i) r i w.row _ value start t (ensured-Observable f db r i o)
          there w.same_version (ap (λ p. unwrap_or p t) w.since)
          (pending_should_fire-elapsed f r w.row d start last t duration positive bounded w.since
              w.seen
            ∙ ground arith))

  later_samples :
      (db : Db f.Value) (online : Bool) (r : RuleRow f.Value) (i d : ℕ) (start last : ℤ)
      (samples : List (f.Value × ℤ))
      → r.duration_seconds ≡ pos d
      → 1 ≤ d
      → d ≤ i64_max
      → Observable f db r i
      → Waiting f db r i start last
      → Within f r start last samples
      → Observable f (observe_abnormal_samples f db online r i samples) r i
        × Waiting f
            (observe_abnormal_samples f db online r i samples)
            r
            i
            start
            (last_time f last samples)
  unfolding observe_abnormal_samples
  later_samples db online r i d start last [] duration positive bounded o w within = (o, w)
  later_samples db online r i d start last ((value, t) ∷ rest) duration positive bounded o w
        (lt, early, within) =
      let (o2, w2) =
        next_sample db online r i d value start last t duration positive bounded o w lt early in
      later_samples (process_rule_observation f db online r i (threshold value true) t t) online r i
        d start t rest duration positive bounded o2 w2 within

  observe-append :
      (db : Db f.Value) (online : Bool) (r : RuleRow f.Value) (i : ℕ)
      (samples more : List (f.Value × ℤ))
      → observe_abnormal_samples f db online r i (samples ++ more)
        ≡ observe_abnormal_samples f
            (observe_abnormal_samples f db online r i samples)
            online
            r
            i
            more
  unfolding observe_abnormal_samples
  observe-append db online r i [] more = refl
  observe-append db online r i ((value, t) ∷ rest) more =
      observe-append (process_rule_observation f db online r i (threshold value true) t t) online r
        i rest more

  fired :
      (db : Db f.Value) (r : RuleRow f.Value) (i : ℕ) (suppression : Option SuppressionReason)
      (value : f.Value) (since t match_count : ℤ)
      → find (is_active_event r.id i) db.events ≡ none
      → find
          (is_active_event r.id i)
          (fire_event db r i suppression value since t match_count).events
        ≡ some (new_event db r i suppression value since t match_count)
  unfolding fire_event
  fired db r i suppression value since t match_count none_active =
      let e = new_event db r i suppression value since t match_count in
      ap (λ (x : Db f.Value). find (is_active_event r.id i) x.events)
        (enqueue-Enqueued _ _ _ _ _ _ _).0
      ∙ find-append (is_active_event r.id i) db.events (e ∷ [])
      ∙ rw none_active (ground arith)

  fires :
      (db : Db f.Value) (online : Bool) (r : RuleRow f.Value) (i d : ℕ) (value : f.Value)
      (start last t : ℤ)
      → r.duration_seconds ≡ pos d
      → 1 ≤ d
      → d ≤ i64_max
      → Observable f db r i
      → Waiting f db r i start last
      → last <ℤ t
      → r.duration_seconds +ℤ start ≤ℤ t
      → (e : EventRow f.Value) × (find
            (is_active_event r.id i)
            (process_rule_observation f db online r i (threshold value true) t t).events
          ≡ some e)
        × (e.first_observed_at ≡ start)
        × (e.fired_at ≡ t)
        × (e.status ≡ firing)
  unfolding observe_abnormal new_event
  fires db online r i d value start last t duration positive bounded o w lt late =
      let there = ensured f db r i w.row w.found w.same_version in
      let due : pending_should_fire r.duration_seconds w.row.pending_since w.row.last_observed_at t
          ≡ true =
        pending_should_fire-elapsed f r w.row d start last t duration positive bounded w.since
          w.seen
        ∙ ground arith in
      rw
        (
          observed f db online r i value t w.row o there
              (later_fresh f w.row last t value w.sampled lt),
          due,
        )
        (
          _,
          fired _ r i _ value _ t _ (ensured-Observable f db r i o).inactive,
          ap (λ p. unwrap_or p t) w.since,
          refl,
          refl,
        )

  -- A rule with a duration of d seconds, d at least 1, that is current, for an instance that is
  -- eligible, with no unresolved event and no evaluation state of the two. Samples at or beyond the
  -- threshold come at `start` and then in order, each in less than d seconds after `start`: no
  -- event fires. The next one that comes d seconds or more after `start` fires an event, which was
  -- first observed f at `start` and fired at the time of that sample.
  pub duration_decides_firing :
      (db : Db f.Value) (online : Bool) (r : RuleRow f.Value) (i d : ℕ) (value next : f.Value)
      (start t : ℤ) (samples : List (f.Value × ℤ))
      → r.duration_seconds ≡ pos d
      → 1 ≤ d
      → d ≤ i64_max
      → Observable f db r i
      → find (is_state_of r.id i) db.states ≡ none
      → Within f r start start samples
      → last_time f start samples <ℤ t
      → r.duration_seconds +ℤ start ≤ℤ t
      → (find
            (is_active_event r.id i)
            (observe_abnormal_samples f db online r i ((value, start) ∷ samples)).events
          ≡ none)
        × ((e : EventRow f.Value) × (find
                (is_active_event r.id i)
                (observe_abnormal_samples f db online r i
                  (((value, start) ∷ samples) ++ (next, t) ∷ [])).events
              ≡ some e)
            × (e.first_observed_at ≡ start)
            × (e.fired_at ≡ t)
            × (e.status ≡ firing))
  unfolding observe_abnormal_samples
  duration_decides_firing db online r i d value next start t samples duration positive bounded o new
        within lt late =
      let (o1, w1) = first_sample db online r i d value start duration positive o new in
      let (o2, w2) =
        later_samples (process_rule_observation f db online r i (threshold value true) start start)
          online r i d start start samples duration positive bounded o1 w1 within in
      (
        o2.inactive,
        rw (observe-append db online r i ((value, start) ∷ samples) ((next, t) ∷ [])) (
            fires _ online r i d next start (last_time f start samples) t duration positive bounded
              o2 w2 lt late),
      )

-- ===== src/Updates/History.antt =====
-- backend/src/updates.rs: the tables that the writes of Steps, in any order, make from an empty
-- database.
use operation_monitoring.Base.{ℕ, ◌≡◌, ◌≤◌, arith, is_some, [], count, All, All-map}
use operation_monitoring.Base.Int.{◌≤ℤ◌}
use operation_monitoring.Base.Ids.{Distinct}
use operation_monitoring.Updates.Model.{Versions, AttemptRecord, Fleet}
use operation_monitoring.Updates.Status.{is_terminal}
use operation_monitoring.Updates.Rollback.{is_active_of, is_rollback_for}
use operation_monitoring.Updates.Instances.{max_agent_update_retry_count}
use operation_monitoring.Updates.Sound.{Sound, IsStamped, is_controlled_row}
use operation_monitoring.Updates.Steps.{Step, Step-Sound}

abbrev pub empty_fleet : (ℕ → ℕ) → Fleet
empty_fleet uuids = record {
  releases = [];
  artifacts = [];
  targets = [];
  attempts = [];
  instances = [];
  uuids = uuids;
  drawn = 0;
}

module _ (v : Versions) where
  pub data Reach (first : Fleet) : Fleet → Type 0 where
    start : Reach first first
    then_step : (db out : Fleet) → Reach first db → Step v db out → Reach first out

  Reach-Sound : (first db : Fleet) → Reach first db → Sound first → Sound db
  Reach-Sound first _ start sound = sound
  Reach-Sound first _ (then_step db out earlier last) sound =
      Step-Sound v db out last (Reach-Sound first db earlier sound)

empty_fleet-Sound : (uuids : ℕ → ℕ) → Distinct uuids → Sound (empty_fleet uuids)
empty_fleet-Sound uuids distinct = record {
  attempts_ok = record {
    one_active = λ k. omega arith;
    one_rollback = λ k. omega arith;
    one_id = λ k. omega arith;
    stamped = tt;
    drawn_ids = tt;
  };
  releases_ok = record { one_controlled = omega arith; one_id = λ k. omega arith; drawn_ids = tt };
  distinct = distinct;
}

few_retries : (a : AttemptRecord) → IsStamped a → a.retry_count ≤ℤ max_agent_update_retry_count
few_retries a (_, few) = ground arith

module _ (v : Versions) (uuids : ℕ → ℕ) (db : Fleet) (distinct : Distinct uuids)
    (reached : Reach v (empty_fleet uuids) db) where
  reached-Sound : Sound db
  reached-Sound = Reach-Sound v (empty_fleet uuids) db reached (empty_fleet-Sound uuids distinct)

  -- In tables that any order of the transactions of `Step` has made from empty ones, with
  -- identifiers that do not repeat, an instance has at most one attempt that is not over, and an
  -- upgrade at most one rollback.
  pub one_attempt_at_a_time :
      ((instance_id : ℕ) → count (is_active_of instance_id) db.attempts ≤ 1)
      × ((upgrade_id : ℕ) → count (is_rollback_for upgrade_id) db.attempts ≤ 1)
  one_attempt_at_a_time =
      (reached-Sound.attempts_ok.one_active, reached-Sound.attempts_ok.one_rollback)

  -- In tables that any order of the transactions of `Step` has made from empty ones, with
  -- identifiers that do not repeat, at most one release is under a canary, paused or rolling back.
  pub one_release_controlled : count is_controlled_row db.releases ≤ 1
  one_release_controlled = reached-Sound.releases_ok.one_controlled

  -- In tables that any order of the transactions of `Step` has made from empty ones, with
  -- identifiers that do not repeat, an attempt has a completion time exactly when its status is a
  -- final one.
  pub completed_when_over : All (λ a. is_some a.completed_at ≡ is_terminal a.status) db.attempts
  completed_when_over =
      All-map IsStamped (λ a. is_some a.completed_at ≡ is_terminal a.status) (λ a s. s.0)
        db.attempts reached-Sound.attempts_ok.stamped

  -- In tables that any order of the transactions of `Step` has made from empty ones, with
  -- identifiers that do not repeat, no attempt was retried more than 100 times.
  pub retries_bounded : All (λ a. a.retry_count ≤ℤ max_agent_update_retry_count) db.attempts
  retries_bounded =
      All-map IsStamped (λ a. a.retry_count ≤ℤ max_agent_update_retry_count) few_retries db.attempts
        reached-Sound.attempts_ok.stamped

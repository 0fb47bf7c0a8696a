-- ===== src/Updates/Instances.antt =====
-- backend/src/updates.rs: what administrators do with single instances of a rollout
-- (`admin_add_agent_rollout_targets`, `admin_rollback_agent_instance`,
-- `admin_reupgrade_agent_instance`, `admin_retry_agent_update`).
-- Each function stands for one transaction, after the reads of `seen` that the handler makes first.
use text.Mathlib.Text.{◌==◌ as str_eq}
use operation_monitoring.Base.{
  ℕ, Bool, true, ◌&&◌, ◌||◌, not, Option, none, some, is_some, List, [], ◌∷◌, ◌==◌, if◌then◌else◌,
  find, any, retain, update_where, first_by,
}
use operation_monitoring.Base.Int.{ℤ, pos, leb_ℤ, ◌+ℤ◌}
use operation_monitoring.Updates.Model.{
  Versions, Operation, upgrade, rollback, pending, failed, rollback_succeeded, RolloutState,
  rollback_active, included, excluded, ReleaseRow, ArtifactRow, AttemptRecord, InstanceRow, Fleet,
  attempt_not_found, instance_not_found, invalid_version, active_attempt_exists,
  rollback_not_queued, no_successful_upgrade, version_differs, cannot_reupgrade,
  no_rolled_back_attempt, ineligible, no_artifact, upgrade_not_queued, not_retryable,
  rollout_forbids_retry, retries_exhausted, no_candidate, superseded, rollback_unsupported,
  no_rollback_package, release_changed, not_canary, cannot_roll_back, instance_unavailable,
  no_instance_given, Answer, ok, ◌>>=◌, ◌>>◌, require, ok_or,
}
use operation_monitoring.Updates.Status.{
  is_status, is_upgrade, is_rolling_out, is_canary, is_rolling_back, is_partial,
}
use operation_monitoring.Updates.Eligibility.{
  is_in, rollout_ineligible, matching_artifact, capability_instances, published_artifacts,
  select_update_candidate,
}
use operation_monitoring.Updates.Attempts.{opt_eq, attempt_id_is}
use operation_monitoring.Updates.Rollback.{
  is_active_of, is_other_active, queue_upgrade_attempt, queue_rollback_for_upgrade,
  rollback_artifact, is_succeeded_upgrade, completed_later, find_instance, artifact_id_of,
}
use operation_monitoring.Updates.Rollout.{
  locked_release, put_target, queue_one, set_release_state, ensure_no_other_controlled_release,
}

-- `get_instance`, and the row that `locked_instance` locks.
abbrev pub get_instance : Fleet → ℕ → Answer InstanceRow
get_instance db instance_id = ok_or (find_instance db instance_id) instance_not_found

-- The last upgrade of the instance that succeeded, if the instance still runs its version.
unfoldable pub latest_successful_upgrade : Fleet → ℕ → ℕ → Answer AttemptRecord
latest_successful_upgrade seen release_id instance_id = do
  let rows =
      retain (λ a. is_succeeded_upgrade release_id a && (a.instance_id == instance_id))
        seen.attempts
  a ← ok_or (first_by completed_later rows) no_successful_upgrade
  i ← get_instance seen instance_id
  require (str_eq i.agent_version a.target_version) version_differs
  ok a

-- The instance leaves the rollout, and goes back.
unfoldable pub admin_rollback_agent_instance : Fleet → Fleet → ℕ → ℕ → ℤ → Answer Fleet
unfolding latest_successful_upgrade
admin_rollback_agent_instance seen db release_id instance_id now = do
  before ← locked_release seen release_id
  require (is_rolling_out before.rollout_state) cannot_roll_back
  parent ← latest_successful_upgrade seen release_id instance_id
  r ← locked_release db release_id
  require (is_rolling_out r.rollout_state) cannot_roll_back
  require (not (any (is_active_of instance_id) db.attempts)) active_attempt_exists
  queued ← queue_rollback_for_upgrade (put_target db release_id instance_id excluded now) parent now
  require (queued.1.inserted) rollback_not_queued
  ok queued.0

abbrev is_rolled_back_in : ℕ → ℕ → AttemptRecord → Bool
is_rolled_back_in release_id instance_id a =
    (a.release_id == release_id)
    && ((a.instance_id == instance_id)
        && (not (is_upgrade a.operation) && is_status a.status rollback_succeeded))

module _ (v : Versions) where
  unfoldable pub add_targets :
      Fleet → v.Version → List ArtifactRow → Fleet → ReleaseRow → List ℕ → ℤ → Answer Fleet
  add_targets seen target artifacts db r [] now = ok db
  add_targets seen target artifacts db r (instance_id ∷ rest) now =
      ok_or (find (λ i. i.id == instance_id) (capability_instances seen)) instance_unavailable
      >>= λ i.
          require (not (rollout_ineligible v i target artifacts)) ineligible
          >> (queue_one v artifacts (put_target db r.id i.id included now) r i now >>= λ out.
              add_targets seen target artifacts out r rest now)

  -- `requested` is the set of identifiers, in the order in which it is walked.
  unfoldable pub admin_add_agent_rollout_targets : Fleet → Fleet → ℕ → List ℕ → ℤ → Answer Fleet
  unfolding add_targets
  admin_add_agent_rollout_targets seen db release_id requested now = do
    require (any (λ _. true) requested) no_instance_given
    before ← locked_release seen release_id
    require (is_canary before.rollout_state) not_canary
    target ← ok_or (v.parse before.version) invalid_version
    let artifacts = published_artifacts seen release_id
    require (not (any (λ k. is_in seen excluded release_id k) requested)) ineligible
    r ← locked_release db release_id
    require (is_canary r.rollout_state) not_canary
    add_targets seen target artifacts db r requested now

  -- An instance that was taken back goes forward again.
  unfoldable pub admin_reupgrade_agent_instance : Fleet → Fleet → ℕ → ℕ → ℤ → Answer Fleet
  unfolding rollout_ineligible
  admin_reupgrade_agent_instance seen db release_id instance_id now = do
    before ← locked_release seen release_id
    require (is_rolling_out before.rollout_state) cannot_reupgrade
    require (any (is_rolled_back_in release_id instance_id) seen.attempts) no_rolled_back_attempt
    i ← get_instance seen instance_id
    target ← ok_or (v.parse before.version) invalid_version
    let artifacts = published_artifacts seen release_id
    require (not (rollout_ineligible v i target artifacts)) ineligible
    artifact ← ok_or (matching_artifact i artifacts) no_artifact
    r ← locked_release db release_id
    require (is_rolling_out r.rollout_state) cannot_reupgrade
    queued ←
        queue_upgrade_attempt v (put_target db release_id instance_id included now) r i artifact.id
          now true
    require queued.1 upgrade_not_queued
    ok queued.0

abbrev pub max_agent_update_retry_count : ℤ
max_agent_update_retry_count = pos 100

abbrev pub is_retryable : AttemptRecord → Bool
is_retryable a =
    is_status a.status failed || (is_upgrade a.operation && is_status a.status rollback_succeeded)

abbrev pub rollout_allows_retry : Operation → RolloutState → Bool
rollout_allows_retry upgrade state = is_rolling_out state
rollout_allows_retry rollback state =
    is_rolling_out state || (is_rolling_back state || is_partial state)

-- The way back of a rollback that is tried again: a package, or what the instance has kept.
unfoldable pub retry_rollback_artifact : Fleet → Fleet → AttemptRecord → Answer (Option ℕ)
unfolding rollback_artifact
retry_rollback_artifact seen db a = do
  i ← get_instance db a.instance_id
  require (str_eq i.agent_version a.from_version) version_differs
  require i.rollback_supported rollback_unsupported
  let artifact = rollback_artifact seen i a.target_version
  require (is_some artifact || str_eq i.rollback_version a.target_version) no_rollback_package
  ok (artifact_id_of artifact)

-- A rollback that is tried again after the release was closed opens the release again.
unfoldable pub reopen_rollback : Fleet → ReleaseRow → AttemptRecord → ℤ → Answer Fleet
unfolding ensure_no_other_controlled_release
reopen_rollback db r a now =
    if not (is_upgrade a.operation) && is_partial r.rollout_state
    then ensure_no_other_controlled_release db a.release_id
      >> ok (set_release_state db a.release_id rollback_active now)
    else ok db

abbrev pub coalesce : Option ℕ → Option ℕ → Option ℕ
coalesce none b = b
coalesce (some a) b = some a

abbrev pub retried_row : Option ℕ → ℤ → AttemptRecord → AttemptRecord
retried_row artifact_id now a = record a {
  artifact_id = coalesce artifact_id a.artifact_id;
  status = pending;
  message = "";
  retry_count = a.retry_count +ℤ pos 1;
  updated_at = now;
  completed_at = none;
}

module _ (v : Versions) where
  unfoldable pub require_latest_retry_candidate : Fleet → AttemptRecord → Answer (Unit {0})
  unfolding select_update_candidate
  require_latest_retry_candidate seen a = do
    i ← get_instance seen a.instance_id
    c ← ok_or (select_update_candidate v seen i) no_candidate
    require
        ((c.release_id == a.release_id)
          && (opt_eq (some c.artifact_id) a.artifact_id && str_eq c.version a.target_version))
        superseded

  unfoldable pub retry_artifact : Fleet → Fleet → AttemptRecord → Answer (Option ℕ)
  unfolding require_latest_retry_candidate retry_rollback_artifact
  retry_artifact seen db a =
      if is_upgrade a.operation
      then require_latest_retry_candidate seen a >> ok none
      else retry_rollback_artifact seen db a

  -- The row of the attempt is locked from its read on, so the guards of the update, that its status
  -- and count are those that were read, hold; `seen` is what other connections have committed.
  unfoldable pub admin_retry_agent_update : Fleet → Fleet → ℕ → ℤ → Answer Fleet
  unfolding retry_artifact reopen_rollback ◌+ℤ◌
  admin_retry_agent_update seen db attempt_id now = do
    observed ← ok_or (find (attempt_id_is attempt_id) seen.attempts) attempt_not_found
    r ← locked_release db observed.release_id
    a ← ok_or (find (attempt_id_is attempt_id) db.attempts) attempt_not_found
    require (a.release_id == r.id) release_changed
    require (is_retryable a) not_retryable
    require (rollout_allows_retry a.operation r.rollout_state) rollout_forbids_retry
    require (not (leb_ℤ max_agent_update_retry_count a.retry_count)) retries_exhausted
    artifact_id ← retry_artifact seen db a
    opened ← reopen_rollback db r a now
    require (not (any (is_other_active a.instance_id attempt_id) opened.attempts))
        active_attempt_exists
    ok (record opened {
      attempts =
          update_where (attempt_id_is attempt_id) (retried_row artifact_id now) opened.attempts;
    })

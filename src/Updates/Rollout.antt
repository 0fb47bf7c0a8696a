-- ===== src/Updates/Rollout.antt =====
-- backend/src/updates.rs: what administrators do with a rollout as a whole (`set_rollout_paused`,
-- `admin_promote_agent_rollout`, `admin_rollback_agent_release`, `admin_publish_agent_release`).
-- Each function stands for one transaction. The authentication, the action log and the messages to
-- agents are left out; what a handler has read before its transaction is a table of its own, `seen`.
use Prim.Native.String.{String}
use operation_monitoring.Base.{
  ℕ, Bool, true, false, ◌&&◌, ◌||◌, not, Option, none, some, List, [], ◌∷◌, ◌++◌, ◌==◌,
  if◌then◌else◌, find, any, retain, update_where,
}
use operation_monitoring.Base.Int.{ℤ}
use operation_monitoring.Updates.Model.{
  Versions, pending, cancelled, RolloutState, canary_active, canary_paused, full_active,
  full_paused, rollback_active, rolled_back, rollback_partial, published, TargetState, included,
  excluded, ReleaseRow, ArtifactRow, TargetRow, AttemptRecord, InstanceRow, Fleet, UpdateError,
  release_not_found, invalid_version, other_release_controlled, cannot_pause, not_paused,
  not_canary, cannot_roll_back, ineligible, no_canary_instance, release_rolled_back,
  nothing_to_publish, instance_unavailable, Answer, ok, ◌>>=◌, ◌>>◌, require, ok_or,
}
use operation_monitoring.Updates.Status.{
  is_status, is_upgrade, is_controlled, is_rolling_out, is_partial,
}
use operation_monitoring.Updates.Eligibility.{
  is_published, is_in, rollout_ineligible, matching_artifact, capability_instances,
  published_artifacts, rollout_selects_instance, version_is_newer,
}
use operation_monitoring.Updates.Attempts.{status_row}
use operation_monitoring.Updates.Rollback.{queue_upgrade_attempt, set_rollout_state}

abbrev pub locked_release : Fleet → ℕ → Answer ReleaseRow
locked_release db release_id = ok_or (find (λ r. r.id == release_id) db.releases) release_not_found

-- The advisory lock of the query makes the transactions that run it follow one another.
abbrev pub other_controlled : ℕ → ReleaseRow → Bool
other_controlled release_id r = not (r.id == release_id) && is_controlled r.rollout_state

unfoldable pub ensure_no_other_controlled_release : Fleet → ℕ → Answer (Unit {0})
ensure_no_other_controlled_release db release_id =
    require (not (any (other_controlled release_id) db.releases)) other_release_controlled

abbrev pub set_release_state : Fleet → ℕ → RolloutState → ℤ → Fleet
set_release_state db release_id state now = record db {
  releases = update_where (λ r. r.id == release_id) (set_rollout_state state now) db.releases;
}

abbrev pub paused_state : RolloutState → Bool → Option RolloutState
paused_state canary_active true = some canary_paused
paused_state full_active true = some full_paused
paused_state canary_paused false = some canary_active
paused_state full_paused false = some full_active
paused_state _ _ = none

abbrev pub cannot_set_paused : Bool → UpdateError
cannot_set_paused true = cannot_pause
cannot_set_paused false = not_paused

unfoldable pub set_rollout_paused : Fleet → ℕ → Bool → ℤ → Answer Fleet
unfolding ensure_no_other_controlled_release
set_rollout_paused db release_id paused now = do
  r ← locked_release db release_id
  next_state ← ok_or (paused_state r.rollout_state paused) (cannot_set_paused paused)
  if paused then ensure_no_other_controlled_release db release_id else ok tt
  ok (set_release_state db release_id next_state now)

abbrev pub promoted_state : RolloutState → Option RolloutState
promoted_state canary_active = some full_active
promoted_state canary_paused = some full_paused
promoted_state _ = none

abbrev is_excluded : Fleet → ℕ → InstanceRow → Bool
is_excluded db release_id i = is_in db excluded release_id i.id

-- `rollback_partial` too: a rollback that failed in part can be started again.
abbrev pub can_roll_back : RolloutState → Bool
can_roll_back state = is_rolling_out state || is_partial state

abbrev pub is_pending_upgrade_of : ℕ → AttemptRecord → Bool
is_pending_upgrade_of release_id a =
    (a.release_id == release_id) && (is_upgrade a.operation && is_status a.status pending)

abbrev pub cancel_message : String
cancel_message = "版本已进入回滚流程"

abbrev pub cancel_row : ℤ → AttemptRecord → AttemptRecord
cancel_row now = status_row cancelled cancel_message now

abbrev pub cancel_pending_upgrades : Fleet → ℕ → ℤ → Fleet
cancel_pending_upgrades db release_id now = record db {
  attempts = update_where (is_pending_upgrade_of release_id) (cancel_row now) db.attempts;
}

-- `reconcile_release_rollback` follows, in transactions of its own.
unfoldable pub admin_rollback_agent_release : Fleet → ℕ → ℤ → Answer Fleet
unfolding ensure_no_other_controlled_release
admin_rollback_agent_release db release_id now = do
  r ← locked_release db release_id
  require (can_roll_back r.rollout_state) cannot_roll_back
  ensure_no_other_controlled_release db release_id
  ok (cancel_pending_upgrades (set_release_state db release_id rollback_active now) release_id now)

abbrev put_state : TargetState → ℤ → TargetRow → TargetRow
put_state state now t = record t { state = state; updated_at = now }

abbrev pub is_target_row : ℕ → ℕ → TargetRow → Bool
is_target_row release_id instance_id t =
    (t.release_id == release_id) && (t.instance_id == instance_id)

-- `INSERT INTO agent_release_targets … ON CONFLICT(release_id, instance_id) DO UPDATE`.
unfoldable pub put_target : Fleet → ℕ → ℕ → TargetState → ℤ → Fleet
put_target db release_id instance_id state now =
    let row : TargetRow = record {
      release_id = release_id;
      instance_id = instance_id;
      state = state;
      created_at = now;
      updated_at = now;
    } in
    if any (is_target_row release_id instance_id) db.targets
    then record db {
      targets =
          update_where (is_target_row release_id instance_id) (put_state state now) db.targets;
    }
    else record db { targets = db.targets ++ row ∷ [] }

abbrev pub is_unpublished_of : ℕ → ArtifactRow → Bool
is_unpublished_of release_id a = (a.release_id == release_id) && not (is_published a.status)

abbrev publish_artifact : ℤ → ArtifactRow → ArtifactRow
publish_artifact now a = record a { status = published; published_at = some now }

abbrev or_now : Option ℤ → ℤ → Option ℤ
or_now none now = some now
or_now (some t) now = some t

abbrev pub publish_row : RolloutState → ℤ → ReleaseRow → ReleaseRow
publish_row state now r = record r {
  status = published;
  rollout_state = state;
  rollout_updated_at = some now;
  published_at = or_now r.published_at now;
}

abbrev pub publish_tables : Fleet → ℕ → RolloutState → ℤ → Fleet
publish_tables db release_id state now = record db {
  releases = update_where (λ r. r.id == release_id) (publish_row state now) db.releases;
  artifacts = update_where (is_unpublished_of release_id) (publish_artifact now) db.artifacts;
}

abbrev is_rolled_back : RolloutState → Bool
is_rolled_back rollback_active = true
is_rolled_back rolled_back = true
is_rolled_back rollback_partial = true
is_rolled_back _ = false

abbrev pub state_after_publish : ReleaseRow → RolloutState
state_after_publish r = if is_published r.status then r.rollout_state else canary_active

module _ (v : Versions) where
  unfoldable pub queue_artifact :
      Option ArtifactRow → Fleet → ReleaseRow → InstanceRow → ℤ → Answer Fleet
  queue_artifact none db r i now = ok db
  queue_artifact (some a) db r i now = queue_upgrade_attempt v db r i a.id now false >>= λ q. ok q.0

  unfoldable pub queue_one : List ArtifactRow → Fleet → ReleaseRow → InstanceRow → ℤ → Answer Fleet
  unfolding queue_artifact
  queue_one artifacts db r i now = queue_artifact (matching_artifact i artifacts) db r i now

  -- Every instance that takes part gets its upgrade, in the order of the list.
  unfoldable pub queue_upgrades :
      (InstanceRow → Bool)
      → List ArtifactRow
      → Fleet
      → ReleaseRow
      → List InstanceRow
      → ℤ
      → Answer Fleet
  unfolding queue_one
  queue_upgrades selected artifacts db r [] now = ok db
  queue_upgrades selected artifacts db r (i ∷ rest) now =
      (if selected i then queue_one artifacts db r i now else ok db) >>= λ out.
      queue_upgrades selected artifacts out r rest now

  unfoldable pub admin_promote_agent_rollout : Fleet → Fleet → ℕ → ℤ → Answer Fleet
  unfolding queue_upgrades rollout_ineligible
  admin_promote_agent_rollout seen db release_id now = do
    before ← locked_release seen release_id
    target ← ok_or (v.parse before.version) invalid_version
    let artifacts = published_artifacts seen release_id
    r ← locked_release db release_id
    next_state ← ok_or (promoted_state r.rollout_state) not_canary
    let takes_part = λ (i : InstanceRow).
        not (is_excluded db release_id i) && not (rollout_ineligible v i target artifacts)
    queue_upgrades takes_part artifacts (set_release_state db release_id next_state now) r
        (capability_instances seen) now

  -- The instances that were asked for, each checked and made a target.
  unfoldable pub include_instances :
      List InstanceRow → v.Version → List ArtifactRow → Fleet → ℕ → List ℕ → ℤ → Answer Fleet
  include_instances instances target artifacts db release_id [] now = ok db
  include_instances instances target artifacts db release_id (instance_id ∷ rest) now =
      ok_or (find (λ i. i.id == instance_id) instances) instance_unavailable >>= λ i.
      require (not (rollout_ineligible v i target artifacts)) ineligible
      >> include_instances instances target artifacts
          (put_target db release_id instance_id included now) release_id rest now

  -- `requested` is the set of identifiers, in the order in which it is walked.
  unfoldable pub admin_publish_agent_release : Fleet → Fleet → ℕ → List ℕ → ℤ → Answer Fleet
  unfolding queue_upgrades include_instances ensure_no_other_controlled_release
      rollout_selects_instance version_is_newer
  admin_publish_agent_release seen db release_id requested now = do
    let instances = capability_instances seen
    r ← locked_release db release_id
    target ← ok_or (v.parse r.version) invalid_version
    let initial_publish = not (is_published r.status)
    require (not initial_publish || any (λ _. true) requested) no_canary_instance
    require (initial_publish || not (is_rolled_back r.rollout_state)) release_rolled_back
    if initial_publish then ensure_no_other_controlled_release db release_id else ok tt
    let artifacts = retain (is_unpublished_of release_id) db.artifacts
    require (any (λ _. true) artifacts) nothing_to_publish
    let state = state_after_publish r
    let published_db = publish_tables db release_id state now
    targeted ←
        if initial_publish
        then include_instances instances target artifacts published_db release_id requested now
        else ok published_db
    let selected = λ (i : InstanceRow).
        rollout_selects_instance targeted state release_id i.id
        && version_is_newer v target i.agent_version
    queue_upgrades selected (published_artifacts targeted release_id) targeted r instances now

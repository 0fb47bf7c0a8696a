-- ===== src/Updates/Rollback.antt =====
-- backend/src/updates.rs: the attempts that take instances back (`queue_rollback_for_upgrade` and
-- `reconcile_release_rollback`), and those that take them forward (`queue_upgrade_attempt`).
use Prim.Native.String.{String}
use text.Mathlib.Text.{◌==◌ as str_eq}
use operation_monitoring.Base.{
  ℕ, ◌+◌, Bool, true, false, ◌&&◌, ◌||◌, not, Option, none, some, is_some, List, [], ◌∷◌, ◌++◌,
  ◌==◌, ltb, if◌then◌else◌, find, any, retain, update_where, first_by, sort_by,
}
use operation_monitoring.Base.Int.{ℤ, pos, ltb_ℤ, eq_ℤ}
use operation_monitoring.Updates.Model.{
  Versions, upgrade, rollback, AttemptStatus, pending, failed, succeeded, RolloutState, rolled_back,
  rollback_partial, ReleaseRow, ArtifactRow, AttemptRecord, InstanceRow, Fleet, new_v4,
  release_not_found, instance_not_found, invalid_version, Answer, ok, ◌>>=◌, ok_or,
}
use operation_monitoring.Updates.Status.{is_status, is_terminal, is_upgrade, is_rolling_back}
use operation_monitoring.Updates.Eligibility.{
  is_published, target_matches, version_is_newer, publish_attempt_state,
}

-- The rows of the unique index `idx_agent_attempts_one_active_per_instance` under one key.
abbrev pub is_active_of : ℕ → AttemptRecord → Bool
is_active_of instance_id a = (a.instance_id == instance_id) && not (is_terminal a.status)

abbrev pub has_parent : Option ℕ → ℕ → Bool
has_parent none k = false
has_parent (some p) k = p == k

-- Those of `idx_agent_attempts_one_rollback_per_parent`.
abbrev pub is_rollback_for : ℕ → AttemptRecord → Bool
is_rollback_for upgrade_id a =
    not (is_upgrade a.operation) && has_parent a.parent_attempt_id upgrade_id

abbrev pub clashes : List AttemptRecord → AttemptRecord → Bool
clashes attempts a =
    (not (is_terminal a.status) && any (is_active_of a.instance_id) attempts)
    || (elim a.parent_attempt_id [
      | none ↦ false
      | some p ↦ not (is_upgrade a.operation) && any (is_rollback_for p) attempts
    ])

-- `INSERT … ON CONFLICT DO NOTHING`, and whether a row was inserted. The identifier is drawn first.
unfoldable pub insert_attempt : Fleet → AttemptRecord → Fleet × Bool
insert_attempt db a =
    if clashes db.attempts a
    then (record db { drawn = db.drawn + 1 }, false)
    else (record db { attempts = db.attempts ++ a ∷ []; drawn = db.drawn + 1 }, true)

abbrev pub upgrade_attempt : Fleet → ReleaseRow → InstanceRow → ℕ → ℤ → AttemptRecord
upgrade_attempt db r i artifact_id now =
    let (status, message, completed_at) = publish_attempt_state i now in
    record {
      id = new_v4 db;
      release_id = r.id;
      artifact_id = some artifact_id;
      instance_id = i.id;
      operation = upgrade;
      parent_attempt_id = none;
      from_version = i.agent_version;
      target_version = r.version;
      status = status;
      message = message;
      retry_count = pos 0;
      created_at = now;
      updated_at = now;
      completed_at = completed_at;
    }

abbrev pub is_upgrade_to : ℕ → ℕ → AttemptRecord → Bool
is_upgrade_to release_id instance_id a =
    (a.release_id == release_id) && ((a.instance_id == instance_id) && is_upgrade a.operation)

unfoldable pub queued_upgrade : AttemptRecord → Fleet × Bool → Fleet × Bool
queued_upgrade a (db, inserted) = (db, inserted && is_status a.status pending)

module _ (v : Versions) where
  abbrev queue_if_newer : v.Version → Fleet → ReleaseRow → InstanceRow → ℕ → ℤ → Bool → Fleet × Bool
  queue_if_newer target db r i artifact_id now explicit_reupgrade =
      let a = upgrade_attempt db r i artifact_id now in
      if not (version_is_newer v target i.agent_version)
      then (db, false)
      else if not explicit_reupgrade && any (is_upgrade_to r.id i.id) db.attempts
      then (db, false)
      else queued_upgrade a (insert_attempt db a)

  -- The tables, and whether an attempt waits to be offered.
  unfoldable pub queue_upgrade_attempt :
      Fleet → ReleaseRow → InstanceRow → ℕ → ℤ → Bool → Answer (Fleet × Bool)
  unfolding insert_attempt queued_upgrade
  queue_upgrade_attempt db r i artifact_id now explicit_reupgrade = do
    target ← ok_or (v.parse r.version) invalid_version
    ok (queue_if_newer target db r i artifact_id now explicit_reupgrade)

abbrev is_rollback_package : Fleet → String → InstanceRow → ArtifactRow → Bool
is_rollback_package db version i a =
    is_published a.status
    && (target_matches i.os i.package_type i.native_arch a
        && any (λ r. (r.id == a.release_id) && (str_eq r.version version && is_published r.status))
            db.releases)

-- A package of an older version for the instance; `rollback_artifact_for_instance`.
unfoldable pub rollback_artifact : Fleet → InstanceRow → String → Option ArtifactRow
rollback_artifact db i version = find (is_rollback_package db version i) db.artifacts

abbrev failed_with : String → ℤ → AttemptStatus × String × Option ℤ
failed_with message now = (failed, message, some now)

-- The status in which the rollback starts, by the first reason that it cannot happen.
unfoldable pub rollback_state :
    AttemptRecord → InstanceRow → Bool → ℤ → AttemptStatus × String × Option ℤ
rollback_state parent i has_artifact now =
    if not i.approved || i.disabled
    then failed_with "实例已停用或未获批准" now
    else if not (str_eq i.agent_version parent.target_version)
    then failed_with "实例当前版本与本次升级结果不一致" now
    else if not i.rollback_supported
    then failed_with "当前 Agent 不支持主动回滚" now
    else if not i.update_privileged
    then failed_with "Agent 进程没有替换当前可执行文件所需的权限" now
    else if not has_artifact && not (str_eq i.rollback_version parent.from_version)
    then failed_with "没有服务端旧版本包或本地回滚基线" now
    else (pending, "", none)

abbrev pub artifact_id_of : Option ArtifactRow → Option ℕ
artifact_id_of none = none
artifact_id_of (some a) = some a.id

unfoldable pub rollback_attempt : Fleet → AttemptRecord → InstanceRow → ℤ → AttemptRecord
unfolding rollback_artifact rollback_state
rollback_attempt db parent i now =
    let artifact = rollback_artifact db i parent.from_version in
    let (status, message, completed_at) = rollback_state parent i (is_some artifact) now in
    record {
      id = new_v4 db;
      release_id = parent.release_id;
      artifact_id = artifact_id_of artifact;
      instance_id = parent.instance_id;
      operation = rollback;
      parent_attempt_id = some parent.id;
      from_version = parent.target_version;
      target_version = parent.from_version;
      status = status;
      message = message;
      retry_count = pos 0;
      created_at = now;
      updated_at = now;
      completed_at = completed_at;
    }

pub record RollbackQueueOutcome : Type 0 where
  pub inserted : Bool
  pub pending : Bool

abbrev nothing_queued : RollbackQueueOutcome
nothing_queued = record { inserted = false; pending = false }

unfoldable pub queued_rollback : AttemptRecord → Fleet × Bool → Fleet × RollbackQueueOutcome
queued_rollback a (db, inserted) =
    (db, record { inserted = inserted; pending = inserted && is_status a.status pending })

abbrev pub find_instance : Fleet → ℕ → Option InstanceRow
find_instance db instance_id = find (λ i. i.id == instance_id) db.instances

-- An attempt of the instance, other than this one, that is not over.
abbrev pub is_other_active : ℕ → ℕ → AttemptRecord → Bool
is_other_active instance_id attempt_id a = is_active_of instance_id a && not (a.id == attempt_id)

unfoldable pub queue_rollback_for_upgrade :
    Fleet → AttemptRecord → ℤ → Answer (Fleet × RollbackQueueOutcome)
unfolding insert_attempt rollback_attempt queued_rollback
queue_rollback_for_upgrade db parent now =
    let insert = λ (i : InstanceRow).
      let a = rollback_attempt db parent i now in queued_rollback a (insert_attempt db a) in
    if any (is_rollback_for parent.id) db.attempts
      || any (is_other_active parent.instance_id parent.id) db.attempts
    then ok (db, nothing_queued)
    else (do i ← ok_or (find_instance db parent.instance_id) instance_not_found; ok (insert i))

abbrev completed_after : Option ℤ → Option ℤ → Bool
completed_after (some a) (some b) = ltb_ℤ b a
completed_after (some a) none = true
completed_after none b = false

abbrev same_completion : Option ℤ → Option ℤ → Bool
same_completion (some a) (some b) = eq_ℤ a b
same_completion none none = true
same_completion _ _ = false

-- `ORDER BY completed_at DESC NULLS LAST, updated_at DESC`.
abbrev pub completed_later : AttemptRecord → AttemptRecord → Bool
completed_later a b =
    completed_after a.completed_at b.completed_at
    || (same_completion a.completed_at b.completed_at && ltb_ℤ b.updated_at a.updated_at)

abbrev pub is_succeeded_upgrade : ℕ → AttemptRecord → Bool
is_succeeded_upgrade release_id a =
    (a.release_id == release_id) && (is_upgrade a.operation && is_status a.status succeeded)

abbrev is_row : AttemptRecord → Option AttemptRecord → Bool
is_row a none = false
is_row a (some b) = a.id == b.id

-- Whether the row is the one that `DISTINCT ON (instance_id)` keeps.
abbrev is_latest : List AttemptRecord → AttemptRecord → Bool
is_latest rows a =
    is_row a (first_by completed_later (retain (λ b. b.instance_id == a.instance_id) rows))

unfoldable pub latest_upgrades : Fleet → ℕ → List AttemptRecord
latest_upgrades db release_id =
    let rows = retain (is_succeeded_upgrade release_id) db.attempts in
    sort_by (λ a b. ltb a.instance_id b.instance_id) (retain (is_latest rows) rows)

-- Each upgrade in a transaction of its own.
queue_rollbacks : Fleet → List AttemptRecord → ℤ → Answer Fleet
queue_rollbacks db [] now = ok db
queue_rollbacks db (a ∷ rest) now =
    queue_rollback_for_upgrade db a now >>= λ r. queue_rollbacks r.0 rest now

abbrev updated_later : AttemptRecord → AttemptRecord → Bool
updated_later a b =
    ltb_ℤ b.updated_at a.updated_at
    || (eq_ℤ a.updated_at b.updated_at
        && (ltb_ℤ b.created_at a.created_at || (eq_ℤ a.created_at b.created_at && ltb b.id a.id)))

abbrev same_parent : Option ℕ → Option ℕ → Bool
same_parent none q = false
same_parent (some p) q = has_parent q p

abbrev pub is_rollback_in : ℕ → AttemptRecord → Bool
is_rollback_in release_id a =
    (a.release_id == release_id) && (not (is_upgrade a.operation) && is_some a.parent_attempt_id)

-- The last rollback of its upgrade, and it failed.
abbrev failed_last : List AttemptRecord → AttemptRecord → Bool
failed_last rows a =
    is_status a.status failed
    && is_row a (
        first_by updated_later
          (retain (λ b. same_parent b.parent_attempt_id a.parent_attempt_id) rows))

unfoldable pub some_rollback_failed : Fleet → ℕ → Bool
some_rollback_failed db release_id =
    let rows = retain (is_rollback_in release_id) db.attempts in any (failed_last rows) rows

abbrev pub is_active_in : ℕ → AttemptRecord → Bool
is_active_in release_id a = (a.release_id == release_id) && not (is_terminal a.status)

-- Every upgrade has its rollback, and nothing of the release is under way.
unfoldable pub rollback_is_over : Fleet → ℕ → Bool
unfolding latest_upgrades
rollback_is_over db release_id =
    not (any (is_active_in release_id) db.attempts)
    && not (any (λ a. not (any (is_rollback_for a.id) db.attempts)) (latest_upgrades db release_id))

abbrev pub set_rollout_state : RolloutState → ℤ → ReleaseRow → ReleaseRow
set_rollout_state state now r = record r { rollout_state = state; rollout_updated_at = some now }

abbrev pub is_rolling_back_release : ℕ → ReleaseRow → Bool
is_rolling_back_release release_id r = (r.id == release_id) && is_rolling_back r.rollout_state

-- The queries of the end are no transaction: they see `seen`, and the update is made in `db`.
unfoldable pub close_rollback : Fleet → Fleet → ℕ → ℤ → Fleet
unfolding rollback_is_over some_rollback_failed
close_rollback seen db release_id now =
    let state = if some_rollback_failed seen release_id then rollback_partial else rolled_back in
    if rollback_is_over seen release_id
    then record db {
      releases =
          update_where (is_rolling_back_release release_id) (set_rollout_state state now)
            db.releases;
    }
    else db

unfoldable pub reconcile_release_rollback : Fleet → ℕ → ℤ → Answer Fleet
unfolding queue_rollbacks close_rollback
reconcile_release_rollback db release_id now =
    let finish = (do
      queued ← queue_rollbacks db (latest_upgrades db release_id) now
      ok (close_rollback queued queued release_id now)) in
    do
      r ← ok_or (find (λ x. x.id == release_id) db.releases) release_not_found
      if is_rolling_back r.rollout_state then finish else ok db

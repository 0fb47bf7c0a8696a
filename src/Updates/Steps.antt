-- ===== src/Updates/Steps.antt =====
-- backend/src/updates.rs: the writes of the module to its tables, each of which the database does
-- at once, with what the rest of the program writes to `instances`.
use Prim.Native.String.{String}
use operation_monitoring.Base.{ℕ, ◌≡◌, Bool, not, List, ◌==◌, retain}
use operation_monitoring.Base.Int.{ℤ}
use operation_monitoring.Updates.Model.{
  Versions, AttemptRecord, AttemptStatus, InstanceRow, TargetOs, Fleet, ok,
}
use operation_monitoring.Updates.Attempts.{
  UpgradeReport, RollbackReport, record_update_status_for_attempt, record_rollback_status,
  confirm_update_version, expire_restart_attempts,
}
use operation_monitoring.Updates.Rollback.{
  queue_rollback_for_upgrade, RollbackQueueOutcome, close_rollback,
}
use operation_monitoring.Updates.Rollout.{
  set_rollout_paused, admin_promote_agent_rollout, admin_rollback_agent_release,
  admin_publish_agent_release,
}
use operation_monitoring.Updates.Instances.{
  admin_rollback_agent_instance, admin_add_agent_rollout_targets, admin_reupgrade_agent_instance,
  admin_retry_agent_update,
}
use operation_monitoring.Updates.Releases.{
  admin_create_agent_release, admin_update_agent_release, delete_agent_release, store_artifact,
  admin_delete_agent_artifact, kept_attempts,
}
use operation_monitoring.Updates.Answers.{result}
use operation_monitoring.Updates.Sound.{Sound}
use operation_monitoring.Updates.Sound.Growth.{AttemptsOk-retain, AttemptsOk-detach}
use operation_monitoring.Updates.Sound.Reports.{
  record_update_status_for_attempt-Sound, record_rollback_status-Sound,
  confirm_update_version-Sound, expire_restart_attempts-Sound,
}
use operation_monitoring.Updates.Sound.Queues.{
  SoundFirst, queue_rollback_for_upgrade-Sound, close_rollback-Sound,
}
use operation_monitoring.Updates.Sound.Rollouts.{
  set_rollout_paused-Sound, admin_promote_agent_rollout-Sound, admin_rollback_agent_release-Sound,
  admin_publish_agent_release-Sound,
}
use operation_monitoring.Updates.Sound.Instances.{
  admin_rollback_agent_instance-Sound, admin_add_agent_rollout_targets-Sound,
  admin_reupgrade_agent_instance-Sound, admin_retry_agent_update-Sound,
}
use operation_monitoring.Updates.Sound.Catalogue.{
  admin_create_agent_release-Sound, admin_update_agent_release-Sound, delete_agent_release-Sound,
  store_artifact-Sound, admin_delete_agent_artifact-Sound,
}
use operation_monitoring.Updates.Eligibility.{Candidate}
use operation_monitoring.Updates.Offering.{rematch_attempt, deliver_upgrade}
use operation_monitoring.Updates.Polls.{insert_offered, deliver_rollback}
use operation_monitoring.Updates.Sound.Offering.{
  insert_offered-Sound, rematch_attempt-Sound, deliver_upgrade-Sound, deliver_rollback-Sound,
}

-- A row of `instances` is deleted, and its attempts and targets with it.
abbrev delete_instance : Fleet → ℕ → Fleet
delete_instance db instance_id = record db {
  instances = retain (λ i. not (i.id == instance_id)) db.instances;
  targets = retain (λ t. not (t.instance_id == instance_id)) db.targets;
  attempts = kept_attempts (retain (λ a. not (a.instance_id == instance_id)) db.attempts);
}

module _ (v : Versions) where
  -- One transaction, or one statement outside a transaction. The arguments of each are free, so `seen`
  -- is whatever a handler may have read before. `others` is what the rest of the program writes to
  -- `instances`. The rollback of a release is reconciled by `queues_rollback` and `closes_rollback`;
  -- the last four write for an agent that asks what it is to install.
  pub data Step : Fleet → Fleet → Type 0 where
    reports :
        (db out : Fleet) (report : UpgradeReport) (now : ℤ)
        → record_update_status_for_attempt db report now ≡ ok out
        → Step db out
    reports_rollback :
        (db out : Fleet) (report : RollbackReport) (now : ℤ)
        → record_rollback_status db report now ≡ ok out
        → Step db out
    confirms :
        (db : Fleet) (instance_id : ℕ) (version : String) (now : ℤ)
        → Step db (confirm_update_version db instance_id version now)
    expires : (db : Fleet) (now : ℤ) → Step db (expire_restart_attempts db now)
    queues_rollback :
        (db : Fleet) (q : Fleet × RollbackQueueOutcome) (parent : AttemptRecord) (now : ℤ)
        → queue_rollback_for_upgrade db parent now ≡ ok q
        → Step db q.0
    closes_rollback :
        (seen db : Fleet) (release_id : ℕ) (now : ℤ)
        → Step db (close_rollback seen db release_id now)
    pauses :
        (db out : Fleet) (release_id : ℕ) (paused : Bool) (now : ℤ)
        → set_rollout_paused db release_id paused now ≡ ok out
        → Step db out
    promotes :
        (seen db out : Fleet) (release_id : ℕ) (now : ℤ)
        → admin_promote_agent_rollout v seen db release_id now ≡ ok out
        → Step db out
    rolls_back :
        (db out : Fleet) (release_id : ℕ) (now : ℤ)
        → admin_rollback_agent_release db release_id now ≡ ok out
        → Step db out
    publishes :
        (seen db out : Fleet) (release_id : ℕ) (requested : List ℕ) (now : ℤ)
        → admin_publish_agent_release v seen db release_id requested now ≡ ok out
        → Step db out
    adds_targets :
        (seen db out : Fleet) (release_id : ℕ) (requested : List ℕ) (now : ℤ)
        → admin_add_agent_rollout_targets v seen db release_id requested now ≡ ok out
        → Step db out
    rolls_back_instance :
        (seen db out : Fleet) (release_id instance_id : ℕ) (now : ℤ)
        → admin_rollback_agent_instance seen db release_id instance_id now ≡ ok out
        → Step db out
    reupgrades :
        (seen db out : Fleet) (release_id instance_id : ℕ) (now : ℤ)
        → admin_reupgrade_agent_instance v seen db release_id instance_id now ≡ ok out
        → Step db out
    retries :
        (seen db out : Fleet) (attempt_id : ℕ) (now : ℤ)
        → admin_retry_agent_update v seen db attempt_id now ≡ ok out
        → Step db out
    creates :
        (db out : Fleet) (raw : String) (now : ℤ)
        → admin_create_agent_release v db raw now ≡ ok out
        → Step db out
    renames :
        (seen db out : Fleet) (release_id : ℕ) (raw : String)
        → admin_update_agent_release v seen db release_id raw ≡ ok out
        → Step db out
    deletes :
        (db out : Fleet) (release_id : ℕ)
        → delete_agent_release db release_id ≡ ok out
        → Step db out
    stores :
        (db out : Fleet) (release_id : ℕ) (os : TargetOs) (package_type native_arch : String)
        → store_artifact db release_id os package_type native_arch ≡ ok out
        → Step db out
    deletes_artifact :
        (seen db out : Fleet) (release_id artifact_id : ℕ)
        → admin_delete_agent_artifact seen db release_id artifact_id ≡ ok out
        → Step db out
    others :
        (db : Fleet) (instances : List InstanceRow) → Step db (record db { instances = instances })
    deletes_instance : (db : Fleet) (instance_id : ℕ) → Step db (delete_instance db instance_id)
    inserts_offered :
        (db : Fleet) (i : InstanceRow) (c : Candidate v) (now : ℤ)
        → Step db (insert_offered v db i c now).0
    rematches :
        (db : Fleet) (attempt_id : ℕ) (status : AttemptStatus) (artifact_id : ℕ) (now : ℤ)
        → Step db (rematch_attempt db attempt_id status artifact_id now).0
    delivers :
        (db : Fleet) (attempt_id : ℕ) (now : ℤ) → Step db (deliver_upgrade db attempt_id now).0
    delivers_rollback :
        (db : Fleet) (attempt_id : ℕ) (now : ℤ) → Step db (deliver_rollback db attempt_id now).0

  pub Step-Sound : (db out : Fleet) → Step db out → Sound db → Sound out
  Step-Sound _ _ (reports db out report now e) sound =
      result Sound _ out (record_update_status_for_attempt-Sound db report now sound) e
  Step-Sound _ _ (reports_rollback db out report now e) sound =
      result Sound _ out (record_rollback_status-Sound db report now sound) e
  Step-Sound _ _ (confirms db instance_id version now) sound =
      confirm_update_version-Sound db instance_id version now sound
  Step-Sound _ _ (expires db now) sound = expire_restart_attempts-Sound db now sound
  Step-Sound _ _ (queues_rollback db q parent now e) sound =
      result SoundFirst _ q (queue_rollback_for_upgrade-Sound db parent now sound) e
  Step-Sound _ _ (closes_rollback seen db release_id now) sound =
      close_rollback-Sound seen db release_id now sound
  Step-Sound _ _ (pauses db out release_id paused now e) sound =
      result Sound _ out (set_rollout_paused-Sound db release_id paused now sound) e
  Step-Sound _ _ (promotes seen db out release_id now e) sound =
      result Sound _ out (admin_promote_agent_rollout-Sound v seen db release_id now sound) e
  Step-Sound _ _ (rolls_back db out release_id now e) sound =
      result Sound _ out (admin_rollback_agent_release-Sound db release_id now sound) e
  Step-Sound _ _ (publishes seen db out release_id requested now e) sound =
      result Sound _ out
        (admin_publish_agent_release-Sound v seen db release_id requested now sound) e
  Step-Sound _ _ (adds_targets seen db out release_id requested now e) sound =
      result Sound _ out
        (admin_add_agent_rollout_targets-Sound v seen db release_id requested now sound) e
  Step-Sound _ _ (rolls_back_instance seen db out release_id instance_id now e) sound =
      result Sound _ out
        (admin_rollback_agent_instance-Sound seen db release_id instance_id now sound) e
  Step-Sound _ _ (reupgrades seen db out release_id instance_id now e) sound =
      result Sound _ out
        (admin_reupgrade_agent_instance-Sound v seen db release_id instance_id now sound) e
  Step-Sound _ _ (retries seen db out attempt_id now e) sound =
      result Sound _ out (admin_retry_agent_update-Sound v seen db attempt_id now sound) e
  Step-Sound _ _ (creates db out raw now e) sound =
      result Sound _ out (admin_create_agent_release-Sound v db raw now sound) e
  Step-Sound _ _ (renames seen db out release_id raw e) sound =
      result Sound _ out (admin_update_agent_release-Sound v seen db release_id raw sound) e
  Step-Sound _ _ (deletes db out release_id e) sound =
      result Sound _ out (delete_agent_release-Sound db release_id sound) e
  Step-Sound _ _ (stores db out release_id os package_type native_arch e) sound =
      result Sound _ out (store_artifact-Sound db release_id os package_type native_arch sound) e
  Step-Sound _ _ (deletes_artifact seen db out release_id artifact_id e) sound =
      result Sound _ out (admin_delete_agent_artifact-Sound seen db release_id artifact_id sound) e
  Step-Sound _ _ (others db instances) sound = record {
    attempts_ok = sound.attempts_ok;
    releases_ok = sound.releases_ok;
    distinct = sound.distinct;
  }
  Step-Sound _ _ (deletes_instance db instance_id) sound = record {
    attempts_ok = AttemptsOk-detach db.uuids db.drawn _ (
        AttemptsOk-retain db.uuids db.drawn (λ a. not (a.instance_id == instance_id)) db.attempts
          sound.attempts_ok);
    releases_ok = sound.releases_ok;
    distinct = sound.distinct;
  }
  Step-Sound _ _ (inserts_offered db i c now) sound = insert_offered-Sound v db i c now sound
  Step-Sound _ _ (rematches db attempt_id status artifact_id now) sound =
      rematch_attempt-Sound db attempt_id status artifact_id now sound
  Step-Sound _ _ (delivers db attempt_id now) sound = deliver_upgrade-Sound db attempt_id now sound
  Step-Sound _ _ (delivers_rollback db attempt_id now) sound =
      deliver_rollback-Sound db attempt_id now sound

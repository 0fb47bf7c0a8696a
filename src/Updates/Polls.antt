-- ===== src/Updates/Polls.antt =====
-- backend/src/updates.rs: what an agent is answered when it asks for an update or for a rollback
-- (`find_update_for_instance`, `find_rollback_for_instance`), with the attempt that is inserted for
-- it and the one that is delivered to it.
use Prim.Native.String.{String}
use text.Mathlib.Text.{◌==◌ as str_eq}
use operation_monitoring.Base.{
  ℕ, ◌+◌, Bool, true, false, ◌&&◌, ◌||◌, not, Option, none, some, ◌==◌, if◌then◌else◌, count, any,
  retain, update_where, first_by,
}
use operation_monitoring.Base.Int.{ℤ, pos}
use operation_monitoring.Updates.Model.{
  Versions, upgrade, pending, ArtifactRow, AttemptRecord, InstanceRow, Fleet, new_v4,
}
use operation_monitoring.Updates.Status.{is_status, is_terminal, is_upgrade}
use operation_monitoring.Updates.Eligibility.{Candidate, select_update_candidate}
use operation_monitoring.Updates.Rollback.{insert_attempt, is_upgrade_to}
use operation_monitoring.Updates.Offering.{
  AgentUpdateOffer, active_upgrade_offer, artifact_of, latest_first, delivered_row,
}

module _ (v : Versions) where
  abbrev pub offered_attempt : Fleet → InstanceRow → Candidate v → ℤ → AttemptRecord
  offered_attempt db i c now = record {
    id = new_v4 db;
    release_id = c.release_id;
    artifact_id = some c.artifact_id;
    instance_id = i.id;
    operation = upgrade;
    parent_attempt_id = none;
    from_version = i.agent_version;
    target_version = c.version;
    status = pending;
    message = "";
    retry_count = pos 0;
    created_at = now;
    updated_at = now;
    completed_at = none;
  }

  -- The automatic upgrade: at most one for each release and instance, and none on a conflict.
  unfoldable pub insert_offered : Fleet → InstanceRow → Candidate v → ℤ → Fleet × Bool
  unfolding insert_attempt
  insert_offered db i c now =
      if any (is_upgrade_to c.release_id i.id) db.attempts
      then (record db { drawn = db.drawn + 1 }, false)
      else insert_attempt db (offered_attempt db i c now)

  -- The row that was just inserted is read back.
  abbrev pub offer_inserted : InstanceRow → ℕ → ℤ → Fleet × Bool → Fleet × Option AgentUpdateOffer
  offer_inserted i attempt_id now (db, true) = active_upgrade_offer db db i (some attempt_id) now
  offer_inserted i attempt_id now (db, false) = (db, none)

  abbrev pub new_offer :
      Fleet → InstanceRow → ℤ → Option (Candidate v) → Fleet × Option AgentUpdateOffer
  new_offer db i now none = (db, none)
  new_offer db i now (some c) = offer_inserted i (new_v4 db) now (insert_offered db i c now)

  unfoldable pub unless_offered :
      Fleet → InstanceRow → ℤ → Fleet × Option AgentUpdateOffer → Fleet × Option AgentUpdateOffer
  unfolding active_upgrade_offer insert_offered select_update_candidate
  unless_offered seen i now (db, some offer) = (db, some offer)
  unless_offered seen i now (db, none) = new_offer db i now (select_update_candidate v seen i)

  unfoldable pub find_update_for_instance :
      Fleet → Fleet → InstanceRow → ℤ → Fleet × Option AgentUpdateOffer
  unfolding active_upgrade_offer unless_offered
  find_update_for_instance seen db i now =
      unless_offered seen i now (active_upgrade_offer seen db i none now)

pub record AgentRollbackOffer : Type 0 where
  pub attempt_id : ℕ
  pub release_id : ℕ
  pub instance_id : ℕ
  pub from_version : String
  pub target_version : String
  pub retry_count : ℤ
  pub «package» : Option ArtifactRow

abbrev is_rollback_under_way : ℕ → AttemptRecord → Bool
is_rollback_under_way instance_id u =
    (u.instance_id == instance_id) && (not (is_upgrade u.operation) && not (is_terminal u.status))

abbrev pub is_pending_id : ℕ → AttemptRecord → Bool
is_pending_id attempt_id a = (a.id == attempt_id) && is_status a.status pending

-- The update, and whether it affected one row.
unfoldable pub deliver_rollback : Fleet → ℕ → ℤ → Fleet × Bool
deliver_rollback db attempt_id now = (
  record db { attempts = update_where (is_pending_id attempt_id) (delivered_row now) db.attempts },
  count (is_pending_id attempt_id) db.attempts == 1,
)

abbrev rollback_offer_of : Fleet → AttemptRecord → AgentRollbackOffer
rollback_offer_of seen u = record {
  attempt_id = u.id;
  release_id = u.release_id;
  instance_id = u.instance_id;
  from_version = u.from_version;
  target_version = u.target_version;
  retry_count = u.retry_count;
  «package» = artifact_of seen u;
}

abbrev offer_if_one : AgentRollbackOffer → Fleet × Bool → Fleet × Option AgentRollbackOffer
offer_if_one o (db, true) = (db, some o)
offer_if_one o (db, false) = (db, none)

unfoldable pub rollback_from :
    Fleet → Fleet → InstanceRow → Option AttemptRecord → ℤ → Fleet × Option AgentRollbackOffer
unfolding deliver_rollback
rollback_from seen db i none now = (db, none)
rollback_from seen db i (some u) now =
    if not (str_eq i.agent_version u.from_version)
    then (db, none)
    else if is_status u.status pending
    then offer_if_one (rollback_offer_of seen u) (deliver_rollback db u.id now)
    else (db, some (rollback_offer_of seen u))

unfoldable pub find_rollback_for_instance :
    Fleet → Fleet → InstanceRow → ℤ → Fleet × Option AgentRollbackOffer
unfolding rollback_from
find_rollback_for_instance seen db i now =
    if not i.rollback_supported || not i.update_privileged
    then (db, none)
    else rollback_from seen db i
        (first_by latest_first (retain (is_rollback_under_way i.id) seen.attempts)) now

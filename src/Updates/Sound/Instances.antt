-- ===== src/Updates/Sound/Instances.antt =====
-- backend/src/updates.rs: what administrators do with single instances keeps the tables sound.
use operation_monitoring.Base.{
  ℕ, ◌≡◌, refl, arith, true, ◌&&◌, not, Option, some, List, any, find, if-holds, update_where,
}
use operation_monitoring.Base.Int.{ℤ, pos, leb_ℤ, ◌+ℤ◌}
use operation_monitoring.Updates.Model.{
  Versions, rollback_active, excluded, included, ReleaseRow, AttemptRecord, Fleet,
  attempt_not_found, retries_exhausted, active_attempt_exists,
}
use operation_monitoring.Updates.Status.{is_upgrade, is_partial}
use operation_monitoring.Updates.Attempts.{attempt_id_is}
use operation_monitoring.Updates.Rollback.{is_other_active}
use operation_monitoring.Updates.Rollout.{ensure_no_other_controlled_release}
use operation_monitoring.Updates.Instances.{
  admin_rollback_agent_instance, admin_add_agent_rollout_targets, admin_reupgrade_agent_instance,
  admin_retry_agent_update, reopen_rollback, retried_row, max_agent_update_retry_count,
}
use operation_monitoring.Updates.Answers.{Ensures, Ensures-bind, result, ok_or-some, require-true}
use operation_monitoring.Updates.Sound.{Sound, Keeps}
use operation_monitoring.Updates.Sound.Growth.{AttemptsOk-revived}
use operation_monitoring.Updates.Sound.Reports.{Sound-attempts}
use operation_monitoring.Updates.Sound.Queues.{
  SoundFirst, put_target-Sound, queue_rollback_for_upgrade-Sound, queue_upgrade_attempt-Sound,
  add_targets-Sound,
}
use operation_monitoring.Updates.Sound.Rollouts.{set_release_state-alone}

pub admin_rollback_agent_instance-Sound :
    (seen db : Fleet) (release_id instance_id : ℕ) (now : ℤ)
    → Sound db
    → Ensures Sound (admin_rollback_agent_instance seen db release_id instance_id now)
unfolding admin_rollback_agent_instance
admin_rollback_agent_instance-Sound seen db release_id instance_id now sound =
    Ensures-bind Sound _ _ (λ _ _. Ensures-bind Sound _ _ (λ _ _.
      Ensures-bind Sound _ _ (λ parent _. Ensures-bind Sound _ _ (λ _ _.
        Ensures-bind Sound _ _ (λ _ _. Ensures-bind Sound _ _ (λ _ _.
          Ensures-bind Sound _ _ (λ q queued.
            let after =
              result SoundFirst _ q
                (queue_rollback_for_upgrade-Sound _ parent now
                  (put_target-Sound db release_id instance_id excluded now sound))
                queued in
            Ensures-bind Sound _ _ (λ _ _. after))))))))

retried_row-Keeps : (artifact_id : Option ℕ) (now : ℤ) → Keeps (retried_row artifact_id now)
retried_row-Keeps artifact_id now = record {
  id = λ a. refl;
  instance_id = λ a. refl;
  operation = λ a. refl;
  parent_attempt_id = λ a. refl;
}

-- One more retry stays within the bound.
one_more :
    (n : ℤ)
    → not (leb_ℤ max_agent_update_retry_count n) ≡ true
    → leb_ℤ (n +ℤ pos 1) max_agent_update_retry_count ≡ true
unfolding ◌+ℤ◌
one_more n h = ground arith

reopen_rollback-Sound :
    (db : Fleet) (r : ReleaseRow) (a : AttemptRecord) (now : ℤ)
    → Sound db
    → Ensures Sound (reopen_rollback db r a now)
unfolding reopen_rollback
reopen_rollback-Sound db r a now sound =
    if-holds (Ensures Sound) (not (is_upgrade a.operation) && is_partial r.rollout_state) _ _
      (λ _.
        Ensures-bind Sound (ensure_no_other_controlled_release db a.release_id) _ (λ u ensured.
          set_release_state-alone db a.release_id rollback_active now u ensured sound))
      (λ _. sound)

-- It opens a release, and leaves the attempts.
abbrev SameAttempts : Fleet → Fleet → Type 0
SameAttempts db out = out.attempts ≡ db.attempts

reopen_rollback-attempts :
    (db : Fleet) (r : ReleaseRow) (a : AttemptRecord) (now : ℤ)
    → Ensures (SameAttempts db) (reopen_rollback db r a now)
unfolding reopen_rollback
reopen_rollback-attempts db r a now =
    if-holds (Ensures (SameAttempts db))
      (not (is_upgrade a.operation) && is_partial r.rollout_state) _ _
      (λ _.
        Ensures-bind (SameAttempts db) (ensure_no_other_controlled_release db a.release_id) _
          (λ _ _. refl))
      (λ _. refl)

retried_row-Sound :
    (db : Fleet) (attempt_id : ℕ) (a : AttemptRecord) (artifact_id : Option ℕ) (now : ℤ)
    → find (attempt_id_is attempt_id) db.attempts ≡ some a
    → not (any (is_other_active a.instance_id attempt_id) db.attempts) ≡ true
    → not (leb_ℤ max_agent_update_retry_count a.retry_count) ≡ true
    → Sound db
    → Sound (record db {
      attempts = update_where (attempt_id_is attempt_id) (retried_row artifact_id now) db.attempts;
    })
retried_row-Sound db attempt_id a artifact_id now found alone few sound =
    Sound-attempts db _
      (AttemptsOk-revived db.uuids db.drawn (retried_row artifact_id now)
        (retried_row-Keeps artifact_id now) attempt_id a db.attempts found (ground arith)
        (refl, one_more a.retry_count few) sound.attempts_ok)
      sound

module _ (v : Versions) where
  pub admin_add_agent_rollout_targets-Sound :
      (seen db : Fleet) (release_id : ℕ) (requested : List ℕ) (now : ℤ)
      → Sound db
      → Ensures Sound (admin_add_agent_rollout_targets v seen db release_id requested now)
  unfolding admin_add_agent_rollout_targets
  admin_add_agent_rollout_targets-Sound seen db release_id requested now sound =
      Ensures-bind Sound _ _ (λ _ _. Ensures-bind Sound _ _ (λ _ _. Ensures-bind Sound _ _ (λ _ _.
        Ensures-bind Sound _ _ (λ target _. Ensures-bind Sound _ _ (λ _ _.
          Ensures-bind Sound _ _ (λ r _.
            Ensures-bind Sound _ _
              (λ _ _. add_targets-Sound v seen target _ db r requested now sound)))))))

  pub admin_reupgrade_agent_instance-Sound :
      (seen db : Fleet) (release_id instance_id : ℕ) (now : ℤ)
      → Sound db
      → Ensures Sound (admin_reupgrade_agent_instance v seen db release_id instance_id now)
  unfolding admin_reupgrade_agent_instance
  admin_reupgrade_agent_instance-Sound seen db release_id instance_id now sound =
      Ensures-bind Sound _ _ (λ _ _. Ensures-bind Sound _ _ (λ _ _. Ensures-bind Sound _ _ (λ _ _.
        Ensures-bind Sound _ _ (λ i _. Ensures-bind Sound _ _ (λ _ _. Ensures-bind Sound _ _ (λ _ _.
          Ensures-bind Sound _ _ (λ artifact _. Ensures-bind Sound _ _ (λ r _.
            Ensures-bind Sound _ _ (λ _ _. Ensures-bind Sound _ _ (λ q queued.
              let after =
                result SoundFirst _ q
                  (queue_upgrade_attempt-Sound v _ r i artifact.id now true
                    (put_target-Sound db release_id instance_id included now sound))
                  queued in
              Ensures-bind Sound _ _ (λ _ _. after)))))))))))

  pub admin_retry_agent_update-Sound :
      (seen db : Fleet) (attempt_id : ℕ) (now : ℤ)
      → Sound db
      → Ensures Sound (admin_retry_agent_update v seen db attempt_id now)
  unfolding admin_retry_agent_update
  admin_retry_agent_update-Sound seen db attempt_id now sound = Ensures-bind Sound _ _ (λ _ _.
      Ensures-bind Sound _ _ (λ r _. Ensures-bind Sound _ _ (λ a read.
        Ensures-bind Sound _ _ (λ _ _. Ensures-bind Sound _ _ (λ _ _. Ensures-bind Sound _ _ (λ _ _.
          Ensures-bind Sound _ _ (λ few_u few. Ensures-bind Sound _ _ (λ artifact_id _.
            Ensures-bind Sound _ _ (λ opened reopened.
              let same =
                result (SameAttempts db) _ opened (reopen_rollback-attempts db r a now) reopened in
              Ensures-bind Sound _ _ (λ alone_u alone.
                retried_row-Sound opened attempt_id a artifact_id now
                  (rw same (ok_or-some _ attempt_not_found a read))
                  (require-true _ active_attempt_exists alone_u alone)
                  (require-true _ retries_exhausted few_u few)
                  (result Sound _ opened (reopen_rollback-Sound db r a now sound)
                    reopened)))))))))))

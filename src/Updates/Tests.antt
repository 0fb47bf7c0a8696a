-- ===== src/Updates/Tests.antt =====
-- backend/src/updates.rs: the agent and the release of Fixtures, from the publication to a retry.
use operation_monitoring.Base.{
  ℕ, ◌≤◌, ◌≡◌, refl, true, false, some, is_some, [], ◌∷◌, arith, count, find, All, inl, inr, ◌⊎◌,
  ◌↔◌, ap,
}
use mathlib.Core.List.{Memᴰ}
use mathlib.Core.List.Memᴰ.{head, tail}
use operation_monitoring.Base.Int.{pos, ◌≤ℤ◌}
use operation_monitoring.Base.Text.{str_len}
use operation_monitoring.Updates.Model.{
  for_linux, canary_paused, full_paused, installing, failed, pending, rollback_active, ReleaseRow,
  AttemptRecord, InstanceRow, ArtifactRow, Fleet, ok, ◌>>=◌,
}
use operation_monitoring.Updates.Status.{
  is_terminal, update_status_transition_allowed, valid_agent_status,
}
use operation_monitoring.Updates.Eligibility.{
  update_target_os, target_matches, matching_artifact, publish_attempt_state,
  rollout_selects_instance, version_is_newer, rollout_ineligible, Candidate, candidates, best,
  select_update_candidate,
}
use operation_monitoring.Updates.Attempts.{
  attempt_id_is, record_on_attempt, record_update_status_for_attempt, expire_restart_attempts,
  confirm_update_version,
}
use operation_monitoring.Updates.Rollback.{
  is_active_of, is_rollback_for, insert_attempt, queued_upgrade, queue_upgrade_attempt,
}
use operation_monitoring.Updates.Rollout.{
  ensure_no_other_controlled_release, put_target, queue_artifact, queue_one, queue_upgrades,
  include_instances, admin_publish_agent_release, admin_rollback_agent_release,
  cancel_pending_upgrades, set_release_state,
}
use operation_monitoring.Updates.Instances.{admin_retry_agent_update, max_agent_update_retry_count}
use operation_monitoring.Updates.Releases.{
  validate_version, admin_create_agent_release, store_artifact,
}
use operation_monitoring.Updates.Sound.{is_controlled_row}
use operation_monitoring.Updates.Steps.{Step, others, creates, stores, publishes}
use operation_monitoring.Updates.History.{
  Reach, start, then_step, empty_fleet, one_attempt_at_a_time, one_release_controlled,
  completed_when_over, retries_bounded,
}
use operation_monitoring.Updates.Lifecycle.{Goes, transition_allowed_iff}
use operation_monitoring.Updates.Candidates.{IsUpgrade}
use operation_monitoring.Updates.Offers.{
  IsOffer, IsOpenTo, select_update_candidate-IsOffer, select_update_candidate-newest,
  select_update_candidate-none,
}
use operation_monitoring.Updates.Retries.{paused_upgrade_not_retried}
use operation_monitoring.Updates.Accepted.{IsAccepted, report_changes_own_attempt}
use operation_monitoring.Updates.Repeated.{final_report_idempotent}
use operation_monitoring.Updates.Confirmed.{
  IsOverFor, Confirmation, confirm_update_version-IsOverFor,
}
use operation_monitoring.Updates.Settled.{
  InTime, Expiry, IsRollingBack, expire_restart_attempts-InTime,
  admin_rollback_agent_release-IsRollingBack,
}
use operation_monitoring.Updates.Fixtures.{
  digits, serial, serial-Distinct, agent, registered, created, stored, live, failing, live_release,
  live_package, first_upgrade, report_failure,
}

creates_it : Step digits registered created
unfolding admin_create_agent_release validate_version ◌>>=◌
creates_it = creates registered created "2" (pos 10) refl

stores_it : Step digits created stored
unfolding store_artifact ◌>>=◌
stores_it = stores created stored 0 for_linux "standalone" "x86_64" refl

publishes_it : Step digits stored live
unfolding admin_publish_agent_release ◌>>=◌ ensure_no_other_controlled_release put_target
    queue_artifact queue_one queue_upgrades include_instances rollout_ineligible version_is_newer
    matching_artifact target_matches update_target_os publish_attempt_state rollout_selects_instance
    insert_attempt queued_upgrade queue_upgrade_attempt
publishes_it = publishes stored stored live 0 (7 ∷ []) (pos 20) refl

reaches_live : Reach digits (empty_fleet serial) live
reaches_live =
    then_step stored live
      (then_step created stored
        (then_step registered created
          (then_step (empty_fleet serial) registered start
            (others (empty_fleet serial) (agent ∷ [])))
          creates_it)
        stores_it)
      publishes_it

one_attempt_at_a_time_example :
    ((instance_id : ℕ) → count (is_active_of instance_id) live.attempts ≤ 1)
    × ((upgrade_id : ℕ) → count (is_rollback_for upgrade_id) live.attempts ≤ 1)
one_attempt_at_a_time_example =
    one_attempt_at_a_time digits serial live serial-Distinct reaches_live

one_release_controlled_example : count is_controlled_row live.releases ≤ 1
one_release_controlled_example =
    one_release_controlled digits serial live serial-Distinct reaches_live

completed_when_over_example : All (λ a. is_some a.completed_at ≡ is_terminal a.status) live.attempts
completed_when_over_example = completed_when_over digits serial live serial-Distinct reaches_live

retries_bounded_example : All (λ a. a.retry_count ≤ℤ max_agent_update_retry_count) live.attempts
retries_bounded_example = retries_bounded digits serial live serial-Distinct reaches_live

transition_allowed_iff_example :
    (update_status_transition_allowed pending installing ≡ true) ↔ Goes pending installing
transition_allowed_iff_example = transition_allowed_iff pending installing

abbrev offered : Candidate digits
offered = record { release_id = 0; version = "2"; artifact_id = 1 }

offered_now : select_update_candidate digits live agent ≡ some offered
unfolding select_update_candidate candidates best target_matches update_target_os
offered_now = refl

select_update_candidate-IsOffer_example : IsOffer digits live agent offered
select_update_candidate-IsOffer_example =
    select_update_candidate-IsOffer digits live agent offered offered_now

select_update_candidate-newest_example :
    (p : ℕ) × (digits.parse "2" ≡ some p)
    × IsUpgrade digits (digits.parse "1") p
    × ((r : ReleaseRow) (a : ArtifactRow) (q : ℕ)
        → IsOpenTo live agent r a
        → digits.parse r.version ≡ some q
        → digits.newer q p ≡ false)
select_update_candidate-newest_example =
    select_update_candidate-newest digits live agent offered offered_now

abbrev updated : InstanceRow
updated = record agent { agent_version = "2" }

is_open_still : IsOpenTo live updated live_release live_package
unfolding target_matches update_target_os
is_open_still = record {
  release = head refl;
  artifact = head refl;
  of_release = refl;
  published_release = refl;
  published_artifact = refl;
  fits = refl;
  open_state = inr (refl, refl);
  not_excluded = refl;
}

select_update_candidate-none_example : ¬ IsUpgrade digits (digits.parse "2") 2
unfolding select_update_candidate candidates best target_matches update_target_os
select_update_candidate-none_example =
    select_update_candidate-none digits live updated refl refl refl refl live_release live_package 2
      is_open_still refl

reported : record_update_status_for_attempt live report_failure (pos 30) ≡ ok failing
unfolding record_update_status_for_attempt record_on_attempt valid_agent_status
    update_status_transition_allowed str_len ◌>>=◌
reported = refl

report_changes_own_attempt_example : (a : AttemptRecord) × IsAccepted live report_failure a failing
report_changes_own_attempt_example =
    report_changes_own_attempt live failing report_failure (pos 30) (λ k. ground arith) reported

final_report_idempotent_example :
    record_update_status_for_attempt failing report_failure (pos 45) ≡ ok failing
final_report_idempotent_example =
    final_report_idempotent live failing report_failure 2 (pos 30) (pos 45) refl refl reported

abbrev retried : Fleet
retried = record live {
  attempts = record first_upgrade { retry_count = pos 1; updated_at = pos 50 } ∷ [];
}

abbrev failed_upgrade : AttemptRecord
failed_upgrade = record first_upgrade {
  status = failed;
  message = "disk";
  updated_at = pos 30;
  completed_at = some (pos 30);
}

abbrev paused : Fleet
paused = record failing { releases = record live_release { rollout_state = canary_paused } ∷ [] }

all_paused :
    (r : ReleaseRow)
    → Memᴰ r paused.releases
    → r.id ≡ 0
    → (r.rollout_state ≡ canary_paused) ⊎ (r.rollout_state ≡ full_paused)
all_paused r (head e) _ = inl (ap (λ x. x.rollout_state) e)
all_paused r (tail m) _ = elim m [ ]

paused_upgrade_not_retried_example :
    ¬ (admin_retry_agent_update digits paused paused 2 (pos 50) ≡ ok retried)
paused_upgrade_not_retried_example =
    paused_upgrade_not_retried digits paused paused 2 (pos 50) failed_upgrade refl refl all_paused
      retried

expire_restart_attempts-InTime_example :
    All (InTime (pos 9000)) (expire_restart_attempts live (pos 9000)).attempts
    × ((id : ℕ) (a : AttemptRecord)
        → find (attempt_id_is id) live.attempts ≡ some a
        → (b : AttemptRecord) × (find
              (attempt_id_is id)
              (expire_restart_attempts live (pos 9000)).attempts
            ≡ some b)
          × Expiry (pos 9000) a b)
expire_restart_attempts-InTime_example = expire_restart_attempts-InTime live (pos 9000)

confirm_update_version-IsOverFor_example :
    All (IsOverFor 7 "2") (confirm_update_version live 7 "2" (pos 60)).attempts
    × ((id : ℕ) (a : AttemptRecord)
        → find (attempt_id_is id) live.attempts ≡ some a
        → (b : AttemptRecord) × (find
              (attempt_id_is id)
              (confirm_update_version live 7 "2" (pos 60)).attempts
            ≡ some b)
          × Confirmation live 7 "2" (pos 60) a b)
confirm_update_version-IsOverFor_example = confirm_update_version-IsOverFor live 7 "2" (pos 60)

abbrev after_rollback : Fleet
after_rollback =
    cancel_pending_upgrades (set_release_state live 0 rollback_active (pos 70)) 0 (pos 70)

rolls_back_it : admin_rollback_agent_release live 0 (pos 70) ≡ ok after_rollback
unfolding admin_rollback_agent_release ensure_no_other_controlled_release ◌>>=◌
rolls_back_it = refl

admin_rollback_agent_release-IsRollingBack_example : IsRollingBack live 0 (pos 70) after_rollback
admin_rollback_agent_release-IsRollingBack_example =
    admin_rollback_agent_release-IsRollingBack live after_rollback 0 (pos 70) rolls_back_it

-- ===== src/Updates/Sound/Rollouts.antt =====
-- backend/src/updates.rs: what administrators do with a rollout keeps the tables sound.
use operation_monitoring.Base.{
  ℕ, ◌≡◌, refl, arith, Bool, true, false, not, some, List, ◌==◌, find, retain, if◌then◌else◌,
  if-holds, Bool-cases, inl, inr,
}
use operation_monitoring.Base.Int.{ℤ}
use operation_monitoring.Updates.Model.{
  Versions, RolloutState, canary_active, canary_paused, full_paused, rollback_active, cancelled,
  ReleaseRow, Fleet, release_not_found, not_canary, ok,
}
use operation_monitoring.Updates.Status.{is_controlled}
use operation_monitoring.Updates.Eligibility.{is_published, capability_instances}
use operation_monitoring.Updates.Rollback.{set_rollout_state}
use operation_monitoring.Updates.Rollout.{
  ensure_no_other_controlled_release, set_release_state, paused_state, cannot_set_paused,
  set_rollout_paused, promoted_state, cancel_message, cancel_row, cancel_pending_upgrades,
  is_pending_upgrade_of, admin_rollback_agent_release, publish_row, publish_tables,
  admin_promote_agent_rollout, admin_publish_agent_release, state_after_publish, is_unpublished_of,
  include_instances,
}
use operation_monitoring.Updates.Answers.{Ensures, Ensures-bind, result, ok_or-some}
use operation_monitoring.Updates.Sound.{Sound, AttemptsOk-update}
use operation_monitoring.Updates.Sound.Releases.{
  ReleasesOk-found, ReleasesOk-alone, alone_of_ensure,
}
use operation_monitoring.Updates.Sound.Reports.{
  Sound-releases, Sound-attempts, status_row-Keeps, status_row-IsStamped,
}
use operation_monitoring.Updates.Sound.Queues.{queue_upgrades-Sound, include_instances-Sound}

paused_less :
    (s t : RolloutState)
    → paused_state s false ≡ some t
    → is_controlled t ≡ true
    → is_controlled s ≡ true
paused_less canary_paused t h e = refl
paused_less full_paused t h e = refl
paused_less _ t h e = cc

promoted_less :
    (s t : RolloutState)
    → promoted_state s ≡ some t
    → is_controlled t ≡ true
    → is_controlled s ≡ true
promoted_less canary_active t h e = refl
promoted_less canary_paused t h e = refl
promoted_less _ t h e = cc

-- The state of the release that was locked, when it was not made a controlled one.
pub set_release_state-Sound :
    (db : Fleet) (release_id : ℕ) (r : ReleaseRow) (state : RolloutState) (now : ℤ)
    → find (λ x. x.id == release_id) db.releases ≡ some r
    → (is_controlled state ≡ true → is_controlled r.rollout_state ≡ true)
    → Sound db
    → Sound (set_release_state db release_id state now)
set_release_state-Sound db release_id r state now found less sound =
    Sound-releases db _
      (ReleasesOk-found db.uuids db.drawn (set_rollout_state state now) (λ _. refl) release_id r
        db.releases found less sound.releases_ok)
      sound

pub set_release_state-alone :
    (db : Fleet) (release_id : ℕ) (state : RolloutState) (now : ℤ) (u : Unit {0})
    → ensure_no_other_controlled_release db release_id ≡ ok u
    → Sound db
    → Sound (set_release_state db release_id state now)
set_release_state-alone db release_id state now u ensured sound =
    Sound-releases db _
      (ReleasesOk-alone db.uuids db.drawn (set_rollout_state state now) (λ _. refl) release_id
        db.releases (alone_of_ensure db release_id u ensured) sound.releases_ok)
      sound

pub set_rollout_paused-Sound :
    (db : Fleet) (release_id : ℕ) (paused : Bool) (now : ℤ)
    → Sound db
    → Ensures Sound (set_rollout_paused db release_id paused now)
unfolding set_rollout_paused
set_rollout_paused-Sound db release_id true now sound = Ensures-bind Sound _ _ (λ r _.
    Ensures-bind Sound _ _ (λ next _.
      Ensures-bind Sound (ensure_no_other_controlled_release db release_id) _
        (λ u ensured. set_release_state-alone db release_id next now u ensured sound)))
set_rollout_paused-Sound db release_id false now sound = Ensures-bind Sound _ _ (λ r found.
    Ensures-bind Sound _ _ (λ next moved. Ensures-bind Sound (ok tt) _ (λ _ _.
      set_release_state-Sound db release_id r next now (ok_or-some _ release_not_found r found)
        (paused_less r.rollout_state next (ok_or-some _ (cannot_set_paused false) next moved))
        sound)))

cancel_pending_upgrades-Sound :
    (db : Fleet) (release_id : ℕ) (now : ℤ)
    → Sound db
    → Sound (cancel_pending_upgrades db release_id now)
cancel_pending_upgrades-Sound db release_id now sound =
    Sound-attempts db _
      (AttemptsOk-update db.uuids db.drawn (cancel_row now)
        (status_row-Keeps cancelled cancel_message now) (is_pending_upgrade_of release_id)
        (λ _ _. refl) (status_row-IsStamped cancelled cancel_message now) db.attempts
        sound.attempts_ok)
      sound

pub admin_rollback_agent_release-Sound :
    (db : Fleet) (release_id : ℕ) (now : ℤ)
    → Sound db
    → Ensures Sound (admin_rollback_agent_release db release_id now)
unfolding admin_rollback_agent_release
admin_rollback_agent_release-Sound db release_id now sound = Ensures-bind Sound _ _ (λ _ _.
    Ensures-bind Sound _ _ (λ _ _. Ensures-bind Sound _ _ (λ u ensured.
      cancel_pending_upgrades-Sound _ release_id now
        (set_release_state-alone db release_id rollback_active now u ensured sound))))

module _ (v : Versions) where
  pub admin_promote_agent_rollout-Sound :
      (seen db : Fleet) (release_id : ℕ) (now : ℤ)
      → Sound db
      → Ensures Sound (admin_promote_agent_rollout v seen db release_id now)
  unfolding admin_promote_agent_rollout
  admin_promote_agent_rollout-Sound seen db release_id now sound =
      Ensures-bind Sound _ _ (λ before _. Ensures-bind Sound _ _ (λ target _.
        Ensures-bind Sound _ _ (λ r found. Ensures-bind Sound _ _ (λ next moved.
          queue_upgrades-Sound v _ _ _ r _ now (
            set_release_state-Sound db release_id r next now
              (ok_or-some _ release_not_found r found)
              (promoted_less r.rollout_state next (ok_or-some _ not_canary next moved)) sound)))))

-- A first publication looks for other releases; a further one leaves the state.
publish_tables-Sound :
    (db : Fleet) (release_id : ℕ) (r : ReleaseRow) (now : ℤ) (u : Unit {0})
    → find (λ x. x.id == release_id) db.releases ≡ some r
    → (if not (is_published r.status)
        then ensure_no_other_controlled_release db release_id
        else ok tt)
      ≡ ok u
    → Sound db
    → Sound (publish_tables db release_id (state_after_publish r) now)
publish_tables-Sound db release_id r now u found ensured sound =
    let f = publish_row (state_after_publish r) now in
    elim (Bool-cases (is_published r.status)) [
      | inl e ↦ record {
        attempts_ok = sound.attempts_ok;
        releases_ok =
            ReleasesOk-found db.uuids db.drawn f (λ _. refl) release_id r db.releases found
              (λ h. ground arith) sound.releases_ok;
        distinct = sound.distinct;
      }
      | inr e ↦ record {
        attempts_ok = sound.attempts_ok;
        releases_ok =
            ReleasesOk-alone db.uuids db.drawn f (λ _. refl) release_id db.releases
              (alone_of_ensure db release_id u (rw e at ensured)) sound.releases_ok;
        distinct = sound.distinct;
      }
    ]

module _ (v : Versions) where
  pub admin_publish_agent_release-Sound :
      (seen db : Fleet) (release_id : ℕ) (requested : List ℕ) (now : ℤ)
      → Sound db
      → Ensures Sound (admin_publish_agent_release v seen db release_id requested now)
  unfolding admin_publish_agent_release
  admin_publish_agent_release-Sound seen db release_id requested now sound =
      Ensures-bind Sound _ _ (λ r found. Ensures-bind Sound _ _ (λ target _.
        Ensures-bind Sound _ _ (λ _ _. Ensures-bind Sound _ _ (λ _ _.
          Ensures-bind Sound
            (if not (is_published r.status)
              then ensure_no_other_controlled_release db release_id
              else ok tt)
            _
            (λ u ensured. Ensures-bind Sound _ _ (λ _ _.
              let tables =
                publish_tables-Sound db release_id r now u (ok_or-some _ release_not_found r found)
                  ensured sound in
              Ensures-bind Sound
                (if not (is_published r.status)
                  then include_instances v (capability_instances seen) target
                      (retain (is_unpublished_of release_id) db.artifacts)
                      (publish_tables db release_id (state_after_publish r) now) release_id
                      requested now
                  else ok (publish_tables db release_id (state_after_publish r) now))
                _
                (λ targeted made. queue_upgrades-Sound v _ _ targeted r _ now (
                  result Sound _ targeted
                    (if-holds (Ensures Sound) (not (is_published r.status)) _ _
                      (λ _. include_instances-Sound v _ target _ _ release_id requested now tables)
                      (λ _. tables))
                    made))))))))

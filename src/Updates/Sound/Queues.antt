-- ===== src/Updates/Sound/Queues.antt =====
-- backend/src/updates.rs: the attempts that are queued, for upgrades and for rollbacks, and the end
-- of a rollback keep the tables sound.
use Prim.Native.String.{String}
use operation_monitoring.Base.{
  ℕ, ◌+◌, ◌≡◌, refl, arith, Bool, true, false, ◌&&◌, ◌||◌, not, Option, none, some, is_some, List,
  [], ◌∷◌, any, if◌then◌else◌, if-holds, Bool-cases, inl, inr,
}
use operation_monitoring.Base.Int.{ℤ}
use operation_monitoring.Updates.Model.{
  Versions, AttemptStatus, AttemptRecord, ArtifactRow, InstanceRow, ReleaseRow, TargetRow,
  TargetState, included, Fleet, new_v4, ok, rolled_back, rollback_partial,
}
use operation_monitoring.Updates.Status.{is_terminal, is_controlled}
use operation_monitoring.Updates.Eligibility.{
  publish_attempt_state, version_is_newer, matching_artifact,
}
use operation_monitoring.Updates.Rollback.{
  clashes, insert_attempt, upgrade_attempt, queued_upgrade, queue_upgrade_attempt, is_upgrade_to,
  rollback_attempt, rollback_state, rollback_artifact, queued_rollback, queue_rollback_for_upgrade,
  close_rollback, rollback_is_over, some_rollback_failed, set_rollout_state,
  is_rolling_back_release, is_rollback_for, is_other_active,
}
use operation_monitoring.Updates.Rollout.{
  put_target, is_target_row, queue_artifact, queue_one, queue_upgrades, include_instances,
}
use operation_monitoring.Updates.Instances.{add_targets}
use operation_monitoring.Updates.Answers.{Ensures, Ensures-bind, result}
use operation_monitoring.Updates.Sound.{IsStamped, Sound, AttemptsOk-later, ReleasesOk-later}
use operation_monitoring.Updates.Sound.Growth.{AttemptsOk-insert}
use operation_monitoring.Updates.Sound.Releases.{ReleasesOk-update}
use operation_monitoring.Updates.Sound.Reports.{Sound-releases}

pub Sound-drawn : (db : Fleet) → Sound db → Sound (record db { drawn = db.drawn + 1 })
Sound-drawn db sound = record {
  attempts_ok =
      AttemptsOk-later db.uuids db.drawn (db.drawn + 1) db.attempts (omega arith) sound.attempts_ok;
  releases_ok =
      ReleasesOk-later db.uuids db.drawn (db.drawn + 1) db.releases (omega arith) sound.releases_ok;
  distinct = sound.distinct;
}

abbrev pub SoundFirst : {B : Type 0} → Fleet × B → Type 0
SoundFirst (db, b) = Sound db

pub insert_attempt-Sound :
    (db : Fleet) (a : AttemptRecord)
    → a.id ≡ new_v4 db
    → IsStamped a
    → Sound db
    → Sound (insert_attempt db a).0
unfolding insert_attempt
insert_attempt-Sound db a new stamp sound =
    if-holds SoundFirst (clashes db.attempts a) _ _ (λ _. Sound-drawn db sound)
      (λ free. record {
        attempts_ok =
            AttemptsOk-insert db.uuids db.drawn a db.attempts sound.distinct free new stamp
              sound.attempts_ok;
        releases_ok =
            ReleasesOk-later db.uuids db.drawn (db.drawn + 1) db.releases (omega arith)
              sound.releases_ok;
        distinct = sound.distinct;
      })

upgrade_attempt-IsStamped :
    (db : Fleet) (r : ReleaseRow) (i : InstanceRow) (artifact_id : ℕ) (now : ℤ)
    → IsStamped (upgrade_attempt db r i artifact_id now)
unfolding publish_attempt_state
upgrade_attempt-IsStamped db r i artifact_id now = elim (Bool-cases i.update_privileged) [
  | inl e ↦ rw e (refl, refl)
  | inr e ↦ rw e (refl, refl)
]

abbrev IsSettled : AttemptStatus × String × Option ℤ → Type 0
IsSettled (status, message, completed_at) = is_some completed_at ≡ is_terminal status

rollback_state-IsSettled :
    (parent : AttemptRecord) (i : InstanceRow) (has_artifact : Bool) (now : ℤ)
    → IsSettled (rollback_state parent i has_artifact now)
unfolding rollback_state
rollback_state-IsSettled parent i has_artifact now = ground arith

rollback_attempt-IsStamped :
    (db : Fleet) (parent : AttemptRecord) (i : InstanceRow) (now : ℤ)
    → IsStamped (rollback_attempt db parent i now)
unfolding rollback_attempt
rollback_attempt-IsStamped db parent i now = (
  rollback_state-IsSettled parent i (is_some (rollback_artifact db i parent.from_version)) now,
  refl,
)

rollback_attempt-new :
    (db : Fleet) (parent : AttemptRecord) (i : InstanceRow) (now : ℤ)
    → (rollback_attempt db parent i now).id ≡ new_v4 db
unfolding rollback_attempt
rollback_attempt-new db parent i now = refl

pub queue_rollback_for_upgrade-Sound :
    (db : Fleet) (parent : AttemptRecord) (now : ℤ)
    → Sound db
    → Ensures SoundFirst (queue_rollback_for_upgrade db parent now)
unfolding queue_rollback_for_upgrade queued_rollback
queue_rollback_for_upgrade-Sound db parent now sound =
    if-holds (Ensures SoundFirst)
      (any (is_rollback_for parent.id) db.attempts
        || any (is_other_active parent.instance_id parent.id) db.attempts)
      _ _ (λ _. sound)
      (λ _. Ensures-bind SoundFirst _ _ (λ i _.
        insert_attempt-Sound db (rollback_attempt db parent i now)
          (rollback_attempt-new db parent i now) (rollback_attempt-IsStamped db parent i now)
          sound))

calm_after :
    (partly : Bool) → is_controlled (if partly then rollback_partial else rolled_back) ≡ true → ⊥
calm_after true e = cc
calm_after false e = cc

-- Nothing that the end of a rollback has read can bring it to a controlled state.
pub close_rollback-Sound :
    (seen db : Fleet) (release_id : ℕ) (now : ℤ)
    → Sound db
    → Sound (close_rollback seen db release_id now)
unfolding close_rollback
close_rollback-Sound seen db release_id now sound =
    if-holds Sound (rollback_is_over seen release_id) _ _
      (λ _.
        Sound-releases db _
          (ReleasesOk-update db.uuids db.drawn
            (set_rollout_state
              (if some_rollback_failed seen release_id then rollback_partial else rolled_back) now)
            (λ _. refl) (is_rolling_back_release release_id)
            (λ r _ e. absurd (calm_after (some_rollback_failed seen release_id) e)) db.releases
            sound.releases_ok)
          sound)
      (λ _. sound)

module _ (v : Versions) where
  pub queue_upgrade_attempt-Sound :
      (db : Fleet) (r : ReleaseRow) (i : InstanceRow) (artifact_id : ℕ) (now : ℤ) (explicit : Bool)
      → Sound db
      → Ensures SoundFirst (queue_upgrade_attempt v db r i artifact_id now explicit)
  unfolding queue_upgrade_attempt queued_upgrade
  queue_upgrade_attempt-Sound db r i artifact_id now explicit sound =
      Ensures-bind SoundFirst _ _ (λ target _.
        if-holds SoundFirst (not (version_is_newer v target i.agent_version)) _ _ (λ _. sound)
          (λ _.
            if-holds SoundFirst (not explicit && any (is_upgrade_to r.id i.id) db.attempts) _ _
              (λ _. sound)
              (λ _.
                insert_attempt-Sound db (upgrade_attempt db r i artifact_id now) refl
                  (upgrade_attempt-IsStamped db r i artifact_id now) sound)))

  queue_artifact-Sound :
      (artifact : Option ArtifactRow) (db : Fleet) (r : ReleaseRow) (i : InstanceRow) (now : ℤ)
      → Sound db
      → Ensures Sound (queue_artifact v artifact db r i now)
  unfolding queue_artifact
  queue_artifact-Sound none db r i now sound = sound
  queue_artifact-Sound (some a) db r i now sound = Ensures-bind Sound _ _ (λ q queued.
      result SoundFirst _ q (queue_upgrade_attempt-Sound db r i a.id now false sound) queued)

  pub queue_one-Sound :
      (artifacts : List ArtifactRow) (db : Fleet) (r : ReleaseRow) (i : InstanceRow) (now : ℤ)
      → Sound db
      → Ensures Sound (queue_one v artifacts db r i now)
  unfolding queue_one
  queue_one-Sound artifacts db r i now sound =
      queue_artifact-Sound (matching_artifact i artifacts) db r i now sound

  pub queue_upgrades-Sound :
      (selected : InstanceRow → Bool) (artifacts : List ArtifactRow) (db : Fleet) (r : ReleaseRow)
      (instances : List InstanceRow) (now : ℤ)
      → Sound db
      → Ensures Sound (queue_upgrades v selected artifacts db r instances now)
  unfolding queue_upgrades
  queue_upgrades-Sound selected artifacts db r [] now sound = sound
  queue_upgrades-Sound selected artifacts db r (i ∷ rest) now sound =
      Ensures-bind Sound (if selected i then queue_one v artifacts db r i now else ok db) _
        (λ out queued. queue_upgrades-Sound selected artifacts out r rest now (
          result Sound _ out
            (if-holds (Ensures Sound) (selected i) _ _
              (λ _. queue_one-Sound artifacts db r i now sound) (λ _. sound))
            queued))

Sound-targets :
    (db : Fleet) (targets : List TargetRow) → Sound db → Sound (record db { targets = targets })
Sound-targets db targets sound = record {
  attempts_ok = sound.attempts_ok;
  releases_ok = sound.releases_ok;
  distinct = sound.distinct;
}

pub put_target-Sound :
    (db : Fleet) (release_id instance_id : ℕ) (state : TargetState) (now : ℤ)
    → Sound db
    → Sound (put_target db release_id instance_id state now)
unfolding put_target
put_target-Sound db release_id instance_id state now sound =
    if-holds Sound (any (is_target_row release_id instance_id) db.targets) _ _
      (λ _. Sound-targets db _ sound) (λ _. Sound-targets db _ sound)

module _ (v : Versions) where
  pub include_instances-Sound :
      (instances : List InstanceRow) (target : v.Version) (artifacts : List ArtifactRow)
      (db : Fleet) (release_id : ℕ) (requested : List ℕ) (now : ℤ)
      → Sound db
      → Ensures Sound (include_instances v instances target artifacts db release_id requested now)
  unfolding include_instances
  include_instances-Sound instances target artifacts db release_id [] now sound = sound
  include_instances-Sound instances target artifacts db release_id (k ∷ rest) now sound =
      Ensures-bind Sound _ _ (λ i _. Ensures-bind Sound _ _ (λ _ _.
        include_instances-Sound instances target artifacts (put_target db release_id k included now)
          release_id rest now (put_target-Sound db release_id k included now sound)))

  pub add_targets-Sound :
      (seen : Fleet) (target : v.Version) (artifacts : List ArtifactRow) (db : Fleet)
      (r : ReleaseRow) (requested : List ℕ) (now : ℤ)
      → Sound db
      → Ensures Sound (add_targets v seen target artifacts db r requested now)
  unfolding add_targets
  add_targets-Sound seen target artifacts db r [] now sound = sound
  add_targets-Sound seen target artifacts db r (k ∷ rest) now sound = Ensures-bind Sound _ _ (λ i _.
      let before = put_target-Sound db r.id i.id included now sound in
      Ensures-bind Sound _ _ (λ _ _. Ensures-bind Sound _ _ (λ out queued.
        add_targets-Sound seen target artifacts out r rest now
          (result Sound _ out (queue_one-Sound v artifacts _ r i now before) queued))))

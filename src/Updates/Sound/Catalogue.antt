-- ===== src/Updates/Sound/Catalogue.antt =====
-- backend/src/updates.rs: what administrators do with releases and packages keeps the tables sound.
use Prim.Native.String.{String}
use operation_monitoring.Base.{ℕ, ◌+◌, refl, arith, Bool, not, ◌==◌, retain}
use operation_monitoring.Base.Int.{ℤ}
use operation_monitoring.Updates.Model.{Versions, AttemptRecord, TargetOs, Fleet}
use operation_monitoring.Updates.Releases.{
  admin_create_agent_release, admin_update_agent_release, delete_release_row, delete_agent_release,
  store_artifact, admin_delete_agent_artifact, is_draft, kept_attempts, falls_with, uses_artifact,
}
use operation_monitoring.Updates.Answers.{Ensures, Ensures-bind}
use operation_monitoring.Updates.Sound.{Sound, AttemptsOk, AttemptsOk-later, ReleasesOk-later}
use operation_monitoring.Updates.Sound.Growth.{AttemptsOk-retain, AttemptsOk-detach}
use operation_monitoring.Updates.Sound.Releases.{
  ReleasesOk-update, ReleasesOk-insert, ReleasesOk-retain,
}

module _ (v : Versions) where
  pub admin_create_agent_release-Sound :
      (db : Fleet) (raw : String) (now : ℤ)
      → Sound db
      → Ensures Sound (admin_create_agent_release v db raw now)
  unfolding admin_create_agent_release
  admin_create_agent_release-Sound db raw now sound = Ensures-bind Sound _ _ (λ version _.
      Ensures-bind Sound _ _ (λ _ _. record {
        attempts_ok =
            AttemptsOk-later db.uuids db.drawn (db.drawn + 1) db.attempts (omega arith)
              sound.attempts_ok;
        releases_ok =
            ReleasesOk-insert db.uuids db.drawn _ db.releases sound.distinct refl refl
              sound.releases_ok;
        distinct = sound.distinct;
      }))

  pub admin_update_agent_release-Sound :
      (seen db : Fleet) (release_id : ℕ) (raw : String)
      → Sound db
      → Ensures Sound (admin_update_agent_release v seen db release_id raw)
  unfolding admin_update_agent_release
  admin_update_agent_release-Sound seen db release_id raw sound = Ensures-bind Sound _ _ (λ _ _.
      Ensures-bind Sound _ _ (λ _ _. Ensures-bind Sound _ _ (λ version _.
        Ensures-bind Sound _ _ (λ _ _. Ensures-bind Sound _ _ (λ _ _. record {
          attempts_ok = sound.attempts_ok;
          releases_ok =
              ReleasesOk-update db.uuids db.drawn (λ x. record x { version = version }) (λ _. refl)
                (is_draft release_id) (λ _ _ e. e) db.releases sound.releases_ok;
          distinct = sound.distinct;
        })))))

kept-Sound :
    (db : Fleet) (q : AttemptRecord → Bool)
    → Sound db
    → AttemptsOk db.uuids db.drawn (kept_attempts (retain q db.attempts))
kept-Sound db q sound =
    AttemptsOk-detach db.uuids db.drawn _
      (AttemptsOk-retain db.uuids db.drawn q db.attempts sound.attempts_ok)

pub delete_agent_release-Sound :
    (db : Fleet) (release_id : ℕ) → Sound db → Ensures Sound (delete_agent_release db release_id)
unfolding delete_agent_release delete_release_row
delete_agent_release-Sound db release_id sound = Ensures-bind Sound _ _ (λ r _.
    Ensures-bind Sound _ _ (λ _ _. Ensures-bind Sound _ _ (λ _ _. Ensures-bind Sound _ _ (λ _ _.
      record {
        attempts_ok = kept-Sound db (λ a. not (falls_with db release_id a)) sound;
        releases_ok =
            ReleasesOk-retain db.uuids db.drawn (λ x. not (x.id == release_id)) db.releases
              sound.releases_ok;
        distinct = sound.distinct;
      }))))

pub store_artifact-Sound :
    (db : Fleet) (release_id : ℕ) (os : TargetOs) (package_type native_arch : String)
    → Sound db
    → Ensures Sound (store_artifact db release_id os package_type native_arch)
unfolding store_artifact
store_artifact-Sound db release_id os package_type native_arch sound =
    Ensures-bind Sound _ _ (λ _ _. Ensures-bind Sound _ _ (λ _ _. record {
      attempts_ok =
          AttemptsOk-later db.uuids db.drawn (db.drawn + 1) db.attempts (omega arith)
            sound.attempts_ok;
      releases_ok =
          ReleasesOk-later db.uuids db.drawn (db.drawn + 1) db.releases (omega arith)
            sound.releases_ok;
      distinct = sound.distinct;
    }))

pub admin_delete_agent_artifact-Sound :
    (seen db : Fleet) (release_id artifact_id : ℕ)
    → Sound db
    → Ensures Sound (admin_delete_agent_artifact seen db release_id artifact_id)
unfolding admin_delete_agent_artifact
admin_delete_agent_artifact-Sound seen db release_id artifact_id sound =
    Ensures-bind Sound _ _ (λ _ _. Ensures-bind Sound _ _ (λ _ _. record {
      attempts_ok = kept-Sound db (λ x. not (uses_artifact artifact_id x)) sound;
      releases_ok = sound.releases_ok;
      distinct = sound.distinct;
    }))

-- ===== src/Updates/Releases.antt =====
-- backend/src/updates.rs: the catalogue of releases and their packages
-- (`admin_create_agent_release`, `admin_update_agent_release`, `delete_agent_release`, the
-- transaction of `store_artifact`, `admin_delete_agent_artifact`, `validate_version`).
-- The notes of a release and the files of a package are left out.
use Prim.Native.String.{String}
use text.Mathlib.Text.{◌==◌ as str_eq}
use operation_monitoring.Base.{
  ℕ, ◌+◌, Bool, true, false, ◌&&◌, ◌||◌, not, Option, none, some, List, [], ◌∷◌, ◌++◌, ◌==◌,
  if◌then◌else◌, find, any, retain, update_where,
}
use operation_monitoring.Base.Int.{ℤ}
use operation_monitoring.Updates.Model.{
  Versions, succeeded, draft, unpublished, ReleaseRow, TargetOs, ArtifactRow, AttemptRecord,
  InstanceRow, Fleet, new_v4, artifact_not_found, invalid_version, version_exists,
  already_published, artifact_exists, attempts_active, rollback_depends, only_way_back, Answer, ok,
  ◌>>=◌, ◌>>◌, require, ok_or,
}
use operation_monitoring.Updates.Status.{is_status, is_terminal, is_upgrade}
use operation_monitoring.Updates.Eligibility.{is_published, same_os}
use operation_monitoring.Updates.Rollback.{has_parent, is_active_in}
use operation_monitoring.Updates.Rollout.{locked_release}

abbrev has_version : String → ReleaseRow → Bool
has_version version r = str_eq r.version version

abbrev pub is_draft : ℕ → ReleaseRow → Bool
is_draft release_id r = (r.id == release_id) && not (is_published r.status)

module _ (v : Versions) where
  -- `raw` is trimmed already.
  unfoldable pub validate_version : String → Answer String
  validate_version raw = do
    parsed ← ok_or (v.parse raw) invalid_version
    require (str_eq (v.to_string parsed) raw) invalid_version
    ok raw

  unfoldable pub admin_create_agent_release : Fleet → String → ℤ → Answer Fleet
  unfolding validate_version
  admin_create_agent_release db raw now = do
    version ← validate_version raw
    require (not (any (has_version version) db.releases)) version_exists
    let row : ReleaseRow = record {
      id = new_v4 db;
      version = version;
      status = unpublished;
      rollout_state = draft;
      rollout_updated_at = some now;
      created_at = now;
      published_at = none;
    }
    ok (record db { releases = db.releases ++ row ∷ []; drawn = db.drawn + 1 })

  -- `seen` is what `require_draft_release` reads; `UNIQUE` on the version is against other rows.
  unfoldable pub admin_update_agent_release : Fleet → Fleet → ℕ → String → Answer Fleet
  unfolding validate_version
  admin_update_agent_release seen db release_id raw = do
    r ← locked_release seen release_id
    require (not (is_published r.status)) already_published
    version ← validate_version raw
    require (any (is_draft release_id) db.releases) already_published
    require (not (any (λ x. has_version version x && not (x.id == release_id)) db.releases))
        version_exists
    ok (record db {
      releases =
          update_where (is_draft release_id) (λ x. record x { version = version }) db.releases;
    })

-- `JOIN instances`: an attempt of an instance that is still there.
abbrev instance_exists : Fleet → AttemptRecord → Bool
instance_exists db a = any (λ i. i.id == a.instance_id) db.instances

abbrev is_package_of : Fleet → ℕ → Option ℕ → Bool
is_package_of db release_id none = false
is_package_of db release_id (some artifact_id) =
    any (λ a. (a.id == artifact_id) && (a.release_id == release_id)) db.artifacts

-- A rollback under way that belongs to the release, leads to its version, or uses its package.
abbrev pub depends_on : Fleet → ReleaseRow → AttemptRecord → Bool
depends_on db r a =
    instance_exists db a
    && ((not (is_upgrade a.operation) && not (is_terminal a.status))
        && ((a.release_id == r.id)
            || (str_eq a.target_version r.version || is_package_of db r.id a.artifact_id)))

abbrev upgraded_from : String → InstanceRow → AttemptRecord → Bool
upgraded_from version i a =
    (a.instance_id == i.id)
    && ((is_upgrade a.operation && is_status a.status succeeded)
        && (str_eq a.from_version version && str_eq i.agent_version a.target_version))

-- An instance that could be taken back, and only by a package of this version.
abbrev pub has_sole_rollback_path : Fleet → String → InstanceRow → Bool
has_sole_rollback_path db version i =
    (i.rollback_supported && i.update_privileged)
    && ((i.approved && not i.disabled)
        && (not (str_eq i.rollback_version version) && any (upgraded_from version i) db.attempts))

abbrev pub falls_with : Fleet → ℕ → AttemptRecord → Bool
falls_with db release_id a =
    (a.release_id == release_id) || is_package_of db release_id a.artifact_id

-- `ON DELETE SET NULL` for the parent of an attempt.
abbrev keep_parent : List AttemptRecord → Option ℕ → Option ℕ
keep_parent kept none = none
keep_parent kept (some p) = if any (λ a. a.id == p) kept then some p else none

abbrev pub detach : List AttemptRecord → AttemptRecord → AttemptRecord
detach kept a = record a { parent_attempt_id = keep_parent kept a.parent_attempt_id }

abbrev pub kept_attempts : List AttemptRecord → List AttemptRecord
kept_attempts kept = update_where (λ _. true) (detach kept) kept

-- `DELETE`, with what refers to the row and goes `ON DELETE CASCADE`.
unfoldable pub delete_release_row : Fleet → ℕ → Fleet
delete_release_row db release_id = record db {
  releases = retain (λ r. not (r.id == release_id)) db.releases;
  artifacts = retain (λ a. not (a.release_id == release_id)) db.artifacts;
  targets = retain (λ t. not (t.release_id == release_id)) db.targets;
  attempts = kept_attempts (retain (λ a. not (falls_with db release_id a)) db.attempts);
}

unfoldable pub delete_agent_release : Fleet → ℕ → Answer Fleet
unfolding delete_release_row
delete_agent_release db release_id = do
  r ← locked_release db release_id
  require (not (any (λ a. is_active_in release_id a && instance_exists db a) db.attempts))
      attempts_active
  require (not (any (depends_on db r) db.attempts)) rollback_depends
  require (not (is_published r.status && any (has_sole_rollback_path db r.version) db.instances))
      only_way_back
  ok (delete_release_row db release_id)

abbrev same_target : ArtifactRow → ArtifactRow → Bool
same_target a b =
    (a.release_id == b.release_id)
    && (same_os a.os b.os
        && (str_eq a.package_type b.package_type && str_eq a.native_arch b.native_arch))

-- The transaction at the end of `store_artifact`, for a file that is in place.
unfoldable pub store_artifact : Fleet → ℕ → TargetOs → String → String → Answer Fleet
store_artifact db release_id os package_type native_arch = do
  r ← locked_release db release_id
  let row : ArtifactRow = record {
    id = new_v4 db;
    release_id = release_id;
    os = os;
    package_type = package_type;
    native_arch = native_arch;
    status = unpublished;
    published_at = none;
  }
  require (not (any (same_target row) db.artifacts)) artifact_exists
  ok (record db { artifacts = db.artifacts ++ row ∷ []; drawn = db.drawn + 1 })

abbrev pub uses_artifact : ℕ → AttemptRecord → Bool
uses_artifact artifact_id a = has_parent a.artifact_id artifact_id

abbrev is_draft_package : ℕ → ℕ → ArtifactRow → Bool
is_draft_package artifact_id release_id a =
    (a.id == artifact_id) && ((a.release_id == release_id) && not (is_published a.status))

-- Attempts that use the package go with it.
unfoldable pub admin_delete_agent_artifact : Fleet → Fleet → ℕ → ℕ → Answer Fleet
admin_delete_agent_artifact seen db release_id artifact_id = do
  a ←
      ok_or (find (λ x. (x.id == artifact_id) && (x.release_id == release_id)) seen.artifacts)
        artifact_not_found
  require (any (is_draft_package artifact_id release_id) db.artifacts) already_published
  ok (record db {
    artifacts = retain (λ x. not (is_draft_package artifact_id release_id x)) db.artifacts;
    attempts = kept_attempts (retain (λ x. not (uses_artifact artifact_id x)) db.attempts);
  })

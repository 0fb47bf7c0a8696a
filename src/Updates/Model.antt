-- ===== src/Updates/Model.antt =====
-- backend/src/updates.rs and the tables of backend/src/db.rs that it uses.
-- Identifiers are numbers. Texts that the code only compares with a few literals are enumerations,
-- with a constructor for any other text where there may be one. Flags that are 0 or 1 are Booleans.
-- Columns that are only stored and shown (notes, files, sizes, checksums) are left out, and so are
-- the action log and the notes that it writes.
use Prim.Native.String.{String}
use operation_monitoring.Base.{ℕ, ◌≡◌, Bool, true, false, Option, none, some, List}
use operation_monitoring.Base.Int.{ℤ}

-- The `semver` crate, as documented: `Version::parse`, `to_string`, and a total order.
pub record Versions : Type 1 where
  pub Version : Type 0
  pub parse : String → Option Version
  pub to_string : Version → String
  pub newer : Version → Version → Bool
  pub newer_irrefl : (v : Version) → newer v v ≡ false
  pub newer_trans : (a b c : Version) → newer a b ≡ true → newer b c ≡ true → newer a c ≡ true

-- What an agent reports as its system, and what a package is for.
pub data ReportedOs : Type 0 where
  windows macos other_os : ReportedOs

pub data TargetOs : Type 0 where
  for_windows for_macos for_linux : TargetOs

pub data Operation : Type 0 where
  upgrade rollback : Operation

-- `unknown` is any other text.
pub data AttemptStatus : Type 0 where
  pending waiting downloading verifying waiting_idle installing awaiting_restart : AttemptStatus
  succeeded rollback_succeeded failed cancelled : AttemptStatus
  unknown : AttemptStatus

pub data RolloutState : Type 0 where
  draft canary_active canary_paused full_active full_paused : RolloutState
  rollback_active rolled_back rollback_partial : RolloutState

pub data PublishStatus : Type 0 where
  unpublished published : PublishStatus

pub data TargetState : Type 0 where
  included excluded : TargetState

pub record ReleaseRow : Type 0 where
  pub id : ℕ
  pub version : String
  pub status : PublishStatus
  pub rollout_state : RolloutState
  pub rollout_updated_at : Option ℤ
  pub created_at : ℤ
  pub published_at : Option ℤ

pub record ArtifactRow : Type 0 where
  pub id : ℕ
  pub release_id : ℕ
  pub os : TargetOs
  pub package_type : String
  pub native_arch : String
  pub status : PublishStatus
  pub published_at : Option ℤ

pub record TargetRow : Type 0 where
  pub release_id : ℕ
  pub instance_id : ℕ
  pub state : TargetState
  pub created_at : ℤ
  pub updated_at : ℤ

pub record AttemptRecord : Type 0 where
  pub id : ℕ
  pub release_id : ℕ
  pub artifact_id : Option ℕ
  pub instance_id : ℕ
  pub operation : Operation
  pub parent_attempt_id : Option ℕ
  pub from_version : String
  pub target_version : String
  pub status : AttemptStatus
  pub message : String
  pub retry_count : ℤ
  pub created_at : ℤ
  pub updated_at : ℤ
  pub completed_at : Option ℤ

-- The columns of `instances` that the updates read.
pub record InstanceRow : Type 0 where
  pub id : ℕ
  pub os : ReportedOs
  pub agent_version : String
  pub package_type : String
  pub native_arch : String
  pub update_privileged : Bool
  pub rollback_supported : Bool
  pub rollback_version : String
  pub approved : Bool
  pub disabled : Bool

-- The tables. `uuids` is the sequence that `Uuid::new_v4` yields, of which `drawn` are used.
pub record Fleet : Type 0 where
  pub releases : List ReleaseRow
  pub artifacts : List ArtifactRow
  pub targets : List TargetRow
  pub attempts : List AttemptRecord
  pub instances : List InstanceRow
  pub uuids : ℕ → ℕ
  pub drawn : ℕ

abbrev pub new_v4 : Fleet → ℕ
new_v4 db = db.uuids db.drawn

-- The answers of the handlers, by what they say.
pub data UpdateError : Type 0 where
  invalid_status message_too_long attempt_not_found no_way_back : UpdateError
  release_not_found instance_not_found artifact_not_found invalid_version version_exists :
      UpdateError
  other_release_controlled cannot_pause not_paused not_canary cannot_roll_back : UpdateError
  active_attempt_exists rollback_not_queued no_successful_upgrade version_differs : UpdateError
  cannot_reupgrade no_rolled_back_attempt ineligible no_artifact upgrade_not_queued : UpdateError
  not_retryable rollout_forbids_retry retries_exhausted no_candidate superseded : UpdateError
  rollback_unsupported no_rollback_package attempt_changed release_changed : UpdateError
  no_canary_instance release_rolled_back nothing_to_publish instance_unavailable : UpdateError
  no_instance_given already_published artifact_exists attempts_active : UpdateError
  rollback_depends only_way_back : UpdateError

pub data Answer {ℓ} (A : Type ℓ) : Type ℓ where
  ok : A → Answer A
  err : UpdateError → Answer A

infixl 5 ◌>>=◌ ◌>>◌
unfoldable pub ◌>>=◌ {ℓ κ} : {A : Type ℓ} {B : Type κ} → Answer A → (A → Answer B) → Answer B
ok a >>= f = f a
err e >>= f = err e

abbrev pub ◌>>◌ {ℓ} : {B : Type ℓ} → Answer (Unit {0}) → Answer B → Answer B
m >> k = m >>= λ _. k

-- An early return with an error unless the condition holds.
abbrev pub require : Bool → UpdateError → Answer (Unit {0})
require true e = ok tt
require false e = err e

-- `fetch_optional` and `ok_or_else`.
abbrev pub ok_or {ℓ} : {A : Type ℓ} → Option A → UpdateError → Answer A
ok_or none e = err e
ok_or (some a) e = ok a

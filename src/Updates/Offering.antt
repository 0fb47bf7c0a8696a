-- ===== src/Updates/Offering.antt =====
-- backend/src/updates.rs: what an agent is offered when it asks (`active_upgrade_offer`; the
-- functions around it are in Polls). Each statement that writes is a function and
-- a transaction of its own; the functions below them run these one after another. What they read
-- comes from `seen`, and `now` stands for every `now_ts()` of one call. The file data of a package and
-- the signature are left out.
use Prim.Native.String.{String}
use operation_monitoring.Base.{
  ℕ, Bool, true, false, ◌&&◌, ◌||◌, not, Option, none, some, is_some, ◌==◌, if◌then◌else◌, count,
  find, any, retain, update_where, first_by,
}
use operation_monitoring.Base.Int.{ℤ, ltb_ℤ}
use operation_monitoring.Updates.Model.{
  TargetOs, AttemptStatus, pending, waiting, downloading, verifying, waiting_idle, RolloutState,
  ArtifactRow, AttemptRecord, InstanceRow, Fleet,
}
use operation_monitoring.Updates.Status.{is_status, is_terminal, is_upgrade, is_active_rollout}
use operation_monitoring.Updates.Attempts.{opt_eq}
use operation_monitoring.Updates.Eligibility.{
  is_empty, is_published, update_target_os, target_matches, published_artifacts,
}

pub record RetriedUpdateCandidate : Type 0 where
  pub attempt_id : ℕ
  pub release_id : ℕ
  pub version : String
  pub artifact : ArtifactRow
  pub retry_count : ℤ
  pub status : AttemptStatus
  pub rollout_state : RolloutState

pub record AgentUpdateOffer : Type 0 where
  pub attempt_id : ℕ
  pub instance_id : ℕ
  pub release_id : ℕ
  pub version : String
  pub artifact_id : ℕ
  pub package_type : String
  pub native_arch : String
  pub target_os : TargetOs
  pub retry_count : ℤ

-- `ORDER BY updated_at DESC`.
abbrev pub latest_first : AttemptRecord → AttemptRecord → Bool
latest_first a b = ltb_ℤ b.updated_at a.updated_at

abbrev pub artifact_of : Fleet → AttemptRecord → Option ArtifactRow
artifact_of seen u =
    find (λ a. opt_eq (some a.id) u.artifact_id && is_published a.status) seen.artifacts

-- The row of the join for an attempt: identifiers are keys, so that there is one at most.
unfoldable pub joined : Fleet → AttemptRecord → Option RetriedUpdateCandidate
joined seen u = elim (find (λ r. (r.id == u.release_id) && is_published r.status) seen.releases) [
  | none ↦ none
  | some r ↦ elim (artifact_of seen u) [
    | none ↦ none
    | some a ↦ some (record {
      attempt_id = u.id;
      release_id = r.id;
      version = r.version;
      artifact = a;
      retry_count = u.retry_count;
      status = u.status;
      rollout_state = r.rollout_state;
    })
  ]
]

abbrev is_wanted : Option ℕ → AttemptRecord → Bool
is_wanted none u = true
is_wanted (some attempt_id) u = u.id == attempt_id

-- The upgrades of the instance that are not over, with a published release and package.
abbrev pub is_under_way : Fleet → ℕ → Option ℕ → AttemptRecord → Bool
is_under_way seen instance_id attempt_id u =
    (u.instance_id == instance_id)
    && (is_upgrade u.operation
        && (not (is_terminal u.status) && (is_some (joined seen u) && is_wanted attempt_id u)))

abbrev join_of : Fleet → Option AttemptRecord → Option RetriedUpdateCandidate
join_of seen none = none
join_of seen (some u) = joined seen u

unfoldable pub active_candidate : Fleet → InstanceRow → Option ℕ → Option RetriedUpdateCandidate
unfolding joined
active_candidate seen i attempt_id =
    join_of seen (first_by latest_first (retain (is_under_way seen i.id attempt_id) seen.attempts))

unfoldable pub active_offer_matches_instance : InstanceRow → RetriedUpdateCandidate → Bool
unfolding target_matches
active_offer_matches_instance i c = target_matches i.os i.package_type i.native_arch c.artifact

-- The statuses in which nothing was handed off, so that another package can be taken.
abbrev pub is_rematchable : AttemptStatus → Bool
is_rematchable pending = true
is_rematchable waiting = true
is_rematchable downloading = true
is_rematchable verifying = true
is_rematchable waiting_idle = true
is_rematchable _ = false

abbrev pub reconciled_status : AttemptStatus → AttemptStatus
reconciled_status status = if is_status status pending then pending else waiting

unfoldable pub replacement : Fleet → InstanceRow → ℕ → Option ArtifactRow
unfolding target_matches
replacement seen i release_id =
    find (target_matches i.os i.package_type i.native_arch) (published_artifacts seen release_id)

abbrev pub is_rematched : ℕ → AttemptStatus → AttemptRecord → Bool
is_rematched attempt_id status a =
    (a.id == attempt_id) && (is_status a.status status && is_rematchable a.status)

abbrev pub rematch_row : ℕ → AttemptStatus → ℤ → AttemptRecord → AttemptRecord
rematch_row artifact_id status now a = record a {
  artifact_id = some artifact_id;
  status = reconciled_status status;
  message = "实例能力变化，已重新匹配更新包";
  updated_at = now;
}

-- The update, and whether it affected one row.
unfoldable pub rematch_attempt : Fleet → ℕ → AttemptStatus → ℕ → ℤ → Fleet × Bool
rematch_attempt db attempt_id status artifact_id now = (
  record db {
    attempts =
        update_where (is_rematched attempt_id status) (rematch_row artifact_id status now)
          db.attempts;
  },
  count (is_rematched attempt_id status) db.attempts == 1,
)

abbrev is_open_release : Fleet → ℕ → Bool
is_open_release db release_id =
    any (λ r. (r.id == release_id) && is_active_rollout r.rollout_state) db.releases

abbrev pub is_deliverable : Fleet → ℕ → AttemptRecord → Bool
is_deliverable db attempt_id a =
    (a.id == attempt_id) && (is_status a.status pending && is_open_release db a.release_id)

abbrev pub delivered_row : ℤ → AttemptRecord → AttemptRecord
delivered_row now a = record a { status = waiting; updated_at = now }

unfoldable pub deliver_upgrade : Fleet → ℕ → ℤ → Fleet × Bool
deliver_upgrade db attempt_id now = (
  record db {
    attempts = update_where (is_deliverable db attempt_id) (delivered_row now) db.attempts;
  },
  count (is_deliverable db attempt_id) db.attempts == 1,
)

abbrev pub if_one : RetriedUpdateCandidate → Fleet × Bool → Fleet × Option RetriedUpdateCandidate
if_one c (db, true) = (db, some c)
if_one c (db, false) = (db, none)

abbrev pub take_package :
    Fleet → RetriedUpdateCandidate → Option ArtifactRow → ℤ → Fleet × Option RetriedUpdateCandidate
take_package db c none now = (db, none)
take_package db c (some a) now =
    if_one (record c { artifact = a; status = reconciled_status c.status })
      (rematch_attempt db c.attempt_id c.status a.id now)

-- Another package for an instance that the package of the attempt does not fit any more.
unfoldable pub rematched :
    Fleet → Fleet → InstanceRow → RetriedUpdateCandidate → ℤ → Fleet × Option RetriedUpdateCandidate
unfolding active_offer_matches_instance replacement rematch_attempt
rematched seen db i c now =
    if active_offer_matches_instance i c
    then (db, some c)
    else if not (is_rematchable c.status)
    then (db, none)
    else take_package db c (replacement seen i c.release_id) now

-- A pending attempt is delivered by the offer, when its release is still open.
unfoldable pub delivered :
    ℤ → Fleet × Option RetriedUpdateCandidate → Fleet × Option RetriedUpdateCandidate
unfolding deliver_upgrade
delivered now (db, none) = (db, none)
delivered now (db, some c) =
    if not (is_status c.status pending)
    then (db, some c)
    else if not (is_active_rollout c.rollout_state)
    then (db, none)
    else if_one c (deliver_upgrade db c.attempt_id now)

abbrev pub offer_of : InstanceRow → RetriedUpdateCandidate → AgentUpdateOffer
offer_of i c = record {
  attempt_id = c.attempt_id;
  instance_id = i.id;
  release_id = c.release_id;
  version = c.version;
  artifact_id = c.artifact.id;
  package_type = c.artifact.package_type;
  native_arch = c.artifact.native_arch;
  target_os = c.artifact.os;
  retry_count = c.retry_count;
}

unfoldable pub with_offer :
    InstanceRow → Fleet × Option RetriedUpdateCandidate → Fleet × Option AgentUpdateOffer
with_offer i (db, none) = (db, none)
with_offer i (db, some c) = (db, some (offer_of i c))

unfoldable pub offer_from :
    Fleet
    → Fleet
    → InstanceRow
    → Option RetriedUpdateCandidate
    → ℤ
    → Fleet × Option AgentUpdateOffer
unfolding rematched delivered with_offer
offer_from seen db i none now = (db, none)
offer_from seen db i (some c) now = with_offer i (delivered now (rematched seen db i c now))

unfoldable pub active_upgrade_offer :
    Fleet → Fleet → InstanceRow → Option ℕ → ℤ → Fleet × Option AgentUpdateOffer
unfolding active_candidate offer_from
active_upgrade_offer seen db i attempt_id now =
    if not i.update_privileged
      || (not (is_some (update_target_os i.package_type i.os)) || is_empty i.native_arch)
    then (db, none)
    else offer_from seen db i (active_candidate seen i attempt_id) now

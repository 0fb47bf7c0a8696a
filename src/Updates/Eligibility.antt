-- ===== src/Updates/Eligibility.antt =====
-- backend/src/updates.rs: which package an instance takes, and whether it takes part in a rollout
-- (`version_is_newer`, `target_matches` to `rollout_ineligibility_reason`, `select_update_candidate`).
use Prim.Native.String.{String}
use text.Mathlib.Text.{◌==◌ as str_eq}
use operation_monitoring.Base.{
  ℕ, Bool, true, false, ◌&&◌, ◌||◌, not, Option, none, some, is_some, List, [], ◌∷◌, ◌++◌, map,
  ◌==◌, if◌then◌else◌, find, any, retain,
}
use operation_monitoring.Base.Int.{ℤ}
use operation_monitoring.Updates.Model.{
  Versions, ReportedOs, windows, macos, other_os, TargetOs, for_windows, for_macos, for_linux,
  PublishStatus, published, unpublished, TargetState, included, excluded, ReleaseRow, ArtifactRow,
  TargetRow, InstanceRow, AttemptStatus, pending, failed, RolloutState, full_active, canary_active,
  Fleet,
}
use operation_monitoring.Updates.Status.{is_full}

abbrev os_code : TargetOs → ℕ
os_code for_windows = 0
os_code for_macos = 1
os_code for_linux = 2

abbrev pub same_os : TargetOs → TargetOs → Bool
same_os a b = os_code a == os_code b

abbrev pub is_published : PublishStatus → Bool
is_published published = true
is_published unpublished = false

abbrev pub is_included : TargetState → Bool
is_included included = true
is_included excluded = false

abbrev pub is_empty : String → Bool
is_empty s = str_eq s ""

abbrev reported : ReportedOs → TargetOs
reported windows = for_windows
reported macos = for_macos
reported other_os = for_linux

unfoldable pub update_target_os : String → ReportedOs → Option TargetOs
update_target_os package_type os =
    if str_eq package_type "standalone" then some (reported os) else none

abbrev os_is : ArtifactRow → Option TargetOs → Bool
os_is a none = false
os_is a (some os) = same_os a.os os

unfoldable pub target_matches : ReportedOs → String → String → ArtifactRow → Bool
unfolding update_target_os
target_matches os package_type native_arch a =
    os_is a (update_target_os package_type os)
    && (str_eq a.package_type package_type && str_eq a.native_arch native_arch)

unfoldable pub matching_artifact : InstanceRow → List ArtifactRow → Option ArtifactRow
matching_artifact i artifacts = find (target_matches i.os i.package_type i.native_arch) artifacts

-- The status, and whether the attempt is completed at once.
unfoldable pub publish_attempt_state : InstanceRow → ℤ → AttemptStatus × String × Option ℤ
publish_attempt_state i now =
    if i.update_privileged
    then (pending, "", none)
    else (failed, "Agent 进程没有替换当前可执行文件所需的权限", some now)

abbrev pub is_target : TargetState → ℕ → ℕ → TargetRow → Bool
is_target included release_id instance_id t =
    (t.release_id == release_id) && ((t.instance_id == instance_id) && is_included t.state)
is_target excluded release_id instance_id t =
    (t.release_id == release_id) && ((t.instance_id == instance_id) && not (is_included t.state))

abbrev pub is_in : Fleet → TargetState → ℕ → ℕ → Bool
is_in db state release_id instance_id = any (is_target state release_id instance_id) db.targets

-- `included_ids` and `excluded_ids` are read from the targets of the release.
unfoldable pub rollout_selects_instance : Fleet → RolloutState → ℕ → ℕ → Bool
rollout_selects_instance db state release_id instance_id =
    (is_full state && not (is_in db excluded release_id instance_id))
    || is_in db included release_id instance_id

-- `SELECT … FROM instances WHERE approved = 1 AND disabled = 0`.
abbrev pub capability_instances : Fleet → List InstanceRow
capability_instances db = retain (λ i. i.approved && not i.disabled) db.instances

abbrev pub published_artifacts : Fleet → ℕ → List ArtifactRow
published_artifacts db release_id =
    retain (λ a. (a.release_id == release_id) && is_published a.status) db.artifacts

-- Whether a release in this state is offered, to an instance that is one of its targets or not.
abbrev pub state_offers : RolloutState → Bool → Bool
state_offers full_active is_target = true
state_offers canary_active is_target = is_target
state_offers _ is_target = false

module _ (v : Versions) where
  -- A version that cannot be parsed is older than any.
  unfoldable pub version_is_newer : v.Version → String → Bool
  version_is_newer target current = elim (v.parse current) [
    | none ↦ true
    | some version ↦ v.newer target version
  ]

  -- Whether there is a reason, in the order of the tests.
  unfoldable pub rollout_ineligible : InstanceRow → v.Version → List ArtifactRow → Bool
  unfolding version_is_newer matching_artifact
  rollout_ineligible i target artifacts =
      not i.update_privileged
      || ((not (is_some (update_target_os i.package_type i.os)) || is_empty i.native_arch)
          || (not (version_is_newer target i.agent_version)
              || not (is_some (matching_artifact i artifacts))))

  -- A release and one of its packages, where both are published and fit the instance.
  abbrev pub is_offered : Fleet → InstanceRow → ReleaseRow → ArtifactRow → Bool
  is_offered db i r a =
      (a.release_id == r.id)
      && ((is_published r.status && is_published a.status)
          && (target_matches i.os i.package_type i.native_arch a
              && (state_offers r.rollout_state (is_in db included r.id i.id)
                  && not (is_in db excluded r.id i.id))))

  pub record Candidate : Type 0 where
    pub release_id : ℕ
    pub version : String
    pub artifact_id : ℕ

  -- The rows of the join for one release.
  abbrev pub candidates_of : Fleet → InstanceRow → ReleaseRow → List ArtifactRow → List Candidate
  candidates_of db i r artifacts =
      map (λ a. record { release_id = r.id; version = r.version; artifact_id = a.id })
        (retain (is_offered db i r) artifacts)

  unfoldable pub candidates : Fleet → InstanceRow → List ReleaseRow → List Candidate
  candidates db i [] = []
  candidates db i (r ∷ rest) = candidates_of db i r db.artifacts ++ candidates db i rest

  -- `filter_map`: what can be parsed and is newer than the instance.
  abbrev pub upgrades_from :
      Option v.Version → Candidate → Option v.Version → Option (v.Version × Candidate)
  upgrades_from current c none = none
  upgrades_from none c (some parsed) = some (parsed, c)
  upgrades_from (some version) c (some parsed) =
      if v.newer parsed version then some (parsed, c) else none

  -- `max_by`, which takes the last of the greatest.
  abbrev pub greatest :
      Option (v.Version × Candidate)
      → Option (v.Version × Candidate)
      → Option (v.Version × Candidate)
  greatest none rest = rest
  greatest (some a) none = some a
  greatest (some (p, a)) (some (q, b)) = if v.newer p q then some (p, a) else some (q, b)

  unfoldable pub best : Option v.Version → List Candidate → Option (v.Version × Candidate)
  best current [] = none
  best current (c ∷ rest) =
      greatest (upgrades_from current c (v.parse c.version)) (best current rest)

  abbrev pub candidate_of : Option (v.Version × Candidate) → Option Candidate
  candidate_of none = none
  candidate_of (some (p, c)) = some c

  unfoldable pub select_update_candidate : Fleet → InstanceRow → Option Candidate
  unfolding candidates best
  select_update_candidate db i =
      if not i.update_privileged
        || (not (is_some (update_target_os i.package_type i.os)) || is_empty i.native_arch)
      then none
      else candidate_of (best (v.parse i.agent_version) (candidates db i db.releases))

-- ===== src/Updates/Fixtures.antt =====
-- backend/src/updates.rs: one agent, and a release that is published for it.
use Prim.Native.String.{String}
use Prim.Native.Char.{code}
use operation_monitoring.Base.{
  ℕ, ◌-◌, ◌≡◌, arith, true, false, Option, none, some, [], ◌∷◌, ltb, ◌==◌, if◌then◌else◌,
}
use operation_monitoring.Base.Int.{pos}
use operation_monitoring.Base.Ids.{Distinct}
use operation_monitoring.Updates.Model.{
  Versions, other_os, for_linux, published, unpublished, draft, canary_active, included, upgrade,
  pending, failed, ReleaseRow, ArtifactRow, TargetRow, AttemptRecord, InstanceRow, Fleet,
}
use operation_monitoring.Updates.Attempts.{UpgradeReport}
use operation_monitoring.Updates.History.{empty_fleet}

-- Versions of one digit.
abbrev digit : String → Option ℕ
digit String.[] = none
digit (String.◌∷◌ c String.[]) = some (code c - 48)
digit (String.◌∷◌ c (String.◌∷◌ d s)) = none

abbrev show_digit : ℕ → String
show_digit n = if n == 1 then "1" else if n == 2 then "2" else "3"

pub ltb_irrefl : (a : ℕ) → ltb a a ≡ false
ltb_irrefl a = ground arith

pub ltb_trans : (a b c : ℕ) → ltb a b ≡ true → ltb b c ≡ true → ltb a c ≡ true
ltb_trans a b c h k = ground arith

abbrev pub digits : Versions
digits = record {
  Version = ℕ;
  parse = digit;
  to_string = show_digit;
  newer = λ a b. ltb b a;
  newer_irrefl = ltb_irrefl;
  newer_trans = λ a b c h k. ltb_trans c b a k h;
}

abbrev pub serial : ℕ → ℕ
serial n = n

pub serial-Distinct : Distinct serial
serial-Distinct m n e = e

abbrev pub agent : InstanceRow
agent = record {
  id = 7;
  os = other_os;
  agent_version = "1";
  package_type = "standalone";
  native_arch = "x86_64";
  update_privileged = true;
  rollback_supported = true;
  rollback_version = "";
  approved = true;
  disabled = false;
}

abbrev pub registered : Fleet
registered = record (empty_fleet serial) { instances = agent ∷ [] }

abbrev pub draft_release : ReleaseRow
draft_release = record {
  id = 0;
  version = "2";
  status = unpublished;
  rollout_state = draft;
  rollout_updated_at = some (pos 10);
  created_at = pos 10;
  published_at = none;
}

abbrev pub draft_package : ArtifactRow
draft_package = record {
  id = 1;
  release_id = 0;
  os = for_linux;
  package_type = "standalone";
  native_arch = "x86_64";
  status = unpublished;
  published_at = none;
}

abbrev pub created : Fleet
created = record registered { releases = draft_release ∷ []; drawn = 1 }

abbrev pub stored : Fleet
stored = record created { artifacts = draft_package ∷ []; drawn = 2 }

abbrev pub canary_target : TargetRow
canary_target = record {
  release_id = 0;
  instance_id = 7;
  state = included;
  created_at = pos 20;
  updated_at = pos 20;
}

abbrev pub first_upgrade : AttemptRecord
first_upgrade = record {
  id = 2;
  release_id = 0;
  artifact_id = some 1;
  instance_id = 7;
  operation = upgrade;
  parent_attempt_id = none;
  from_version = "1";
  target_version = "2";
  status = pending;
  message = "";
  retry_count = pos 0;
  created_at = pos 20;
  updated_at = pos 20;
  completed_at = none;
}

abbrev pub live_release : ReleaseRow
live_release = record draft_release {
  status = published;
  rollout_state = canary_active;
  rollout_updated_at = some (pos 20);
  published_at = some (pos 20);
}

abbrev pub live_package : ArtifactRow
live_package = record draft_package { status = published; published_at = some (pos 20) }

-- After `admin_publish_agent_release` with the agent as the canary.
abbrev pub live : Fleet
live = record registered {
  releases = live_release ∷ [];
  artifacts = live_package ∷ [];
  targets = canary_target ∷ [];
  attempts = first_upgrade ∷ [];
  drawn = 3;
}

abbrev pub failing : Fleet
failing = record live {
  attempts =
      record first_upgrade {
        status = failed;
        message = "disk";
        updated_at = pos 30;
        completed_at = some (pos 30);
      }
      ∷ [];
}

abbrev pub report_failure : UpgradeReport
report_failure = record {
  instance_id = 7;
  attempt_id = some 2;
  release_id = 0;
  artifact_id = 1;
  version = "2";
  retry_count = pos 0;
  status = failed;
  message = some "disk";
}

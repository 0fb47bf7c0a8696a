-- ===== src/Updates/Status.antt =====
-- backend/src/updates.rs: the statuses of an update attempt (`valid_agent_status`,
-- `update_status_transition_allowed`) and of a rollout.
use operation_monitoring.Base.{ℕ, Bool, true, false, Option, none, some, ◌==◌, leb, if◌then◌else◌}
use operation_monitoring.Updates.Model.{
  AttemptStatus, pending, waiting, downloading, verifying, waiting_idle, installing,
  awaiting_restart, succeeded, rollback_succeeded, failed, cancelled, unknown, RolloutState,
  canary_active, canary_paused, full_active, full_paused, rollback_active, rollback_partial,
  Operation, upgrade, rollback,
}

abbrev pub status_code : AttemptStatus → ℕ
status_code pending = 0
status_code waiting = 1
status_code downloading = 2
status_code verifying = 3
status_code waiting_idle = 4
status_code installing = 5
status_code awaiting_restart = 6
status_code succeeded = 7
status_code rollback_succeeded = 8
status_code failed = 9
status_code cancelled = 10
status_code unknown = 11

abbrev pub is_status : AttemptStatus → AttemptStatus → Bool
is_status s t = status_code s == status_code t

-- `TERMINAL_ATTEMPT_STATUSES.contains`.
abbrev pub is_terminal : AttemptStatus → Bool
is_terminal succeeded = true
is_terminal rollback_succeeded = true
is_terminal failed = true
is_terminal cancelled = true
is_terminal _ = false

abbrev pub is_upgrade : Operation → Bool
is_upgrade upgrade = true
is_upgrade rollback = false

unfoldable pub valid_agent_status : AttemptStatus → Bool
valid_agent_status pending = false
valid_agent_status cancelled = false
valid_agent_status unknown = false
valid_agent_status _ = true

abbrev pub progress : AttemptStatus → Option ℕ
progress pending = some 0
progress waiting = some 1
progress downloading = some 2
progress verifying = some 3
progress waiting_idle = some 4
progress installing = some 5
progress awaiting_restart = some 6
progress _ = none

abbrev pub not_before : Option ℕ → Option ℕ → Bool
not_before (some current) (some next) = leb current next
not_before (some current) none = false
not_before none next = false

unfoldable pub update_status_transition_allowed : AttemptStatus → AttemptStatus → Bool
update_status_transition_allowed current next =
    if is_terminal current
    then is_status current next
    else if is_terminal next
    then true
    else not_before (progress current) (progress next)

-- The states in which a release counts as controlled: under a canary, paused, or rolling back.
abbrev pub is_controlled : RolloutState → Bool
is_controlled canary_active = true
is_controlled canary_paused = true
is_controlled full_paused = true
is_controlled rollback_active = true
is_controlled _ = false

-- `matches!(…, "canary_active" | "canary_paused" | "full_active" | "full_paused")`.
abbrev pub is_rolling_out : RolloutState → Bool
is_rolling_out canary_active = true
is_rolling_out canary_paused = true
is_rolling_out full_active = true
is_rolling_out full_paused = true
is_rolling_out _ = false

abbrev pub is_canary : RolloutState → Bool
is_canary canary_active = true
is_canary canary_paused = true
is_canary _ = false

abbrev pub is_active_rollout : RolloutState → Bool
is_active_rollout canary_active = true
is_active_rollout full_active = true
is_active_rollout _ = false

abbrev pub is_full : RolloutState → Bool
is_full full_active = true
is_full full_paused = true
is_full _ = false

abbrev pub is_rolling_back : RolloutState → Bool
is_rolling_back rollback_active = true
is_rolling_back _ = false

abbrev pub is_partial : RolloutState → Bool
is_partial rollback_partial = true
is_partial _ = false

-- The furthest stage that a status stands for; every final status is last.
abbrev pub stage : AttemptStatus → ℕ
stage pending = 0
stage waiting = 1
stage downloading = 2
stage verifying = 3
stage waiting_idle = 4
stage installing = 5
stage awaiting_restart = 6
stage _ = 7

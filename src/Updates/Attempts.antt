-- ===== src/Updates/Attempts.antt =====
-- backend/src/updates.rs: what an agent reports of an attempt (`record_connection_update_status`,
-- `record_update_status_for_attempt`, `record_connection_rollback_status`), the confirmation by a
-- reconnect (`confirm_update_version`), and the timeout (`expire_restart_attempts`). Each function
-- stands for one transaction; `reconcile_release_rollback`, which follows some, is in Rollback.
use Prim.Native.String.{String}
use text.Mathlib.Text.{◌==◌ as str_eq}
use operation_monitoring.Base.{
  ℕ, Bool, true, false, ◌&&◌, ◌||◌, not, Option, none, some, unwrap_or, ◌==◌, ltb, if◌then◌else◌,
  find, any, retain, update_where, first_by,
}
use operation_monitoring.Base.Int.{ℤ, pos, ltb_ℤ, eq_ℤ, ◌-ℤ◌}
use operation_monitoring.Base.Text.{str_len}
use operation_monitoring.Updates.Model.{
  Operation, upgrade, rollback, AttemptStatus, succeeded, rollback_succeeded, failed, cancelled,
  installing, awaiting_restart, AttemptRecord, Fleet, invalid_status, message_too_long,
  attempt_not_found, no_way_back, Answer, ok, err, ◌>>=◌, ◌>>◌, require, ok_or,
}
use operation_monitoring.Updates.Status.{
  is_status, is_terminal, is_upgrade, valid_agent_status, update_status_transition_allowed,
  is_rolling_back,
}

abbrev pub max_status_message_bytes : ℕ
max_status_message_bytes = 4096

abbrev pub update_handoff_timeout_seconds : ℤ
update_handoff_timeout_seconds = pos 3600

abbrev pub opt_eq : Option ℕ → Option ℕ → Bool
opt_eq none none = true
opt_eq none (some b) = false
opt_eq (some a) none = false
opt_eq (some a) (some b) = a == b

abbrev pub attempt_id_is : ℕ → AttemptRecord → Bool
attempt_id_is k a = a.id == k

abbrev pub then_time : Bool → ℤ → Option ℤ
then_time true now = some now
then_time false now = none

-- What an agent says of an upgrade: `artifact_id` and the rest of the offer that it carries out.
pub record UpgradeReport : Type 0 where
  pub instance_id : ℕ
  pub attempt_id : Option ℕ
  pub release_id : ℕ
  pub artifact_id : ℕ
  pub version : String
  pub retry_count : ℤ
  pub status : AttemptStatus
  pub message : Option String

abbrev pub is_reported : UpgradeReport → AttemptRecord → Bool
is_reported report a =
    (a.instance_id == report.instance_id)
    && (is_upgrade a.operation
        && ((a.release_id == report.release_id)
            && (opt_eq a.artifact_id (some report.artifact_id)
                && (str_eq a.target_version report.version
                    && eq_ℤ a.retry_count report.retry_count))))

abbrev newer_update : AttemptRecord → AttemptRecord → Bool
newer_update a b = ltb_ℤ b.updated_at a.updated_at

-- The row of the report: by its identifier, or the last one updated of those that fit.
abbrev pub reported_attempt : Fleet → UpgradeReport → Option ℕ → Option AttemptRecord
reported_attempt db report (some attempt_id) =
    find (λ a. (a.id == attempt_id) && is_reported report a) db.attempts
reported_attempt db report none = first_by newer_update (retain (is_reported report) db.attempts)

abbrev pub status_row : AttemptStatus → String → ℤ → AttemptRecord → AttemptRecord
status_row status message now a = record a {
  status = status;
  message = message;
  updated_at = now;
  completed_at = then_time (is_terminal status) now;
}

abbrev pub set_status : Fleet → ℕ → AttemptStatus → String → ℤ → Fleet
set_status db attempt_id status message now = record db {
  attempts = update_where (attempt_id_is attempt_id) (status_row status message now) db.attempts;
}

abbrev pub set_agent_version : Fleet → ℕ → String → Fleet
set_agent_version db instance_id version = record db {
  instances =
      update_where (λ i. i.id == instance_id) (λ i. record i { agent_version = version })
        db.instances;
}

-- The version that the instance runs after a final status.
abbrev pub after_status : Fleet → ℕ → AttemptStatus → String → String → Fleet
after_status db instance_id succeeded version from_version =
    set_agent_version db instance_id version
after_status db instance_id rollback_succeeded version from_version =
    set_agent_version db instance_id from_version
after_status db instance_id _ version from_version = db

abbrev pub confirm_again : Fleet → UpgradeReport → Fleet
confirm_again db report =
    if is_status report.status succeeded
    then set_agent_version db report.instance_id report.version
    else db

-- The transaction, on the row that it has locked.
unfoldable pub record_on_attempt : Fleet → UpgradeReport → String → ℤ → AttemptRecord → Answer Fleet
record_on_attempt db report message now a =
    if is_status a.status report.status && is_terminal report.status
    then ok (confirm_again db report)
    else if update_status_transition_allowed a.status report.status
    then ok (
        after_status (set_status db a.id report.status message now) report.instance_id report.status
          report.version a.from_version)
    else err no_way_back

unfoldable pub record_update_status_for_attempt : Fleet → UpgradeReport → ℤ → Answer Fleet
unfolding record_on_attempt
record_update_status_for_attempt db report now = do
  let message = unwrap_or report.message ""
  require (valid_agent_status report.status) invalid_status
  require (not (ltb max_status_message_bytes (str_len message))) message_too_long
  a ← ok_or (reported_attempt db report report.attempt_id) attempt_not_found
  record_on_attempt db report message now a

-- `connected` is the connection of the instance, if any; `none` is the answer `Ok(false)`.
unfoldable pub record_connection_update_status :
    Fleet → Option ℕ → ℕ → UpgradeReport → ℤ → Answer (Option Fleet)
record_connection_update_status db connected connection_id report now =
    let recorded = record_update_status_for_attempt db report now in
    if opt_eq connected (some connection_id) then (do out ← recorded; ok (some out)) else ok none

pub record RollbackReport : Type 0 where
  pub instance_id : ℕ
  pub attempt_id : ℕ
  pub retry_count : ℤ
  pub status : AttemptStatus
  pub message : Option String

abbrev pub is_rollback_of : RollbackReport → AttemptRecord → Bool
is_rollback_of report a =
    (a.id == report.attempt_id)
    && ((a.instance_id == report.instance_id)
        && (not (is_upgrade a.operation) && eq_ℤ a.retry_count report.retry_count))

-- The instance is back on the older version and has no way back from it.
abbrev pub settle_rollback : Fleet → ℕ → AttemptStatus → String → Fleet
settle_rollback db instance_id rollback_succeeded target_version = record db {
  instances =
      update_where (λ i. i.id == instance_id)
        (λ i. record i {
          agent_version = target_version;
          rollback_supported = false;
          rollback_version = "";
        })
        db.instances;
}
settle_rollback db instance_id _ target_version = db

unfoldable pub rollback_on_attempt :
    Fleet → RollbackReport → String → ℤ → AttemptRecord → Answer Fleet
rollback_on_attempt db report message now a =
    if not (is_status a.status report.status)
      && not (update_status_transition_allowed a.status report.status)
    then err no_way_back
    else ok (
        settle_rollback (set_status db report.attempt_id report.status message now)
          report.instance_id report.status a.target_version)

unfoldable pub record_rollback_status : Fleet → RollbackReport → ℤ → Answer Fleet
unfolding rollback_on_attempt
record_rollback_status db report now = do
  let message = unwrap_or report.message ""
  require (valid_agent_status report.status && not (is_status report.status succeeded))
      invalid_status
  require (not (ltb max_status_message_bytes (str_len message))) message_too_long
  a ← ok_or (find (is_rollback_of report) db.attempts) attempt_not_found
  rollback_on_attempt db report message now a

unfoldable pub record_connection_rollback_status :
    Fleet → Option ℕ → ℕ → RollbackReport → ℤ → Answer (Option Fleet)
record_connection_rollback_status db connected connection_id report now =
    let recorded = record_rollback_status db report now in
    if opt_eq connected (some connection_id) then (do out ← recorded; ok (some out)) else ok none

abbrev is_release_rolling_back : Fleet → ℕ → Bool
is_release_rolling_back db release_id =
    any (λ r. (r.id == release_id) && is_rolling_back r.rollout_state) db.releases

-- Not yet over, or an upgrade that was cancelled by a rollback and happened all the same.
abbrev pub is_confirmed : Fleet → ℕ → String → AttemptRecord → Bool
is_confirmed db instance_id agent_version a =
    ((a.instance_id == instance_id) && str_eq a.target_version agent_version)
    && (not (is_terminal a.status)
        || (is_status a.status cancelled
            && (is_upgrade a.operation && is_release_rolling_back db a.release_id)))

abbrev pub confirmed_status : Operation → AttemptStatus
confirmed_status upgrade = succeeded
confirmed_status rollback = rollback_succeeded

unfoldable pub confirm_row : ℤ → AttemptRecord → AttemptRecord
confirm_row now a = record a {
  status = confirmed_status a.operation;
  message = "";
  updated_at = now;
  completed_at = some now;
}

unfoldable pub confirm_update_version : Fleet → ℕ → String → ℤ → Fleet
unfolding confirm_row
confirm_update_version db instance_id agent_version now =
    let rolled_back =
      any (λ a. is_confirmed db instance_id agent_version a && not (is_upgrade a.operation))
        db.attempts in
    record db {
      attempts =
          update_where (is_confirmed db instance_id agent_version) (confirm_row now) db.attempts;
      instances =
          update_where (λ i. (i.id == instance_id) && rolled_back)
            (λ i. record i { rollback_supported = false; rollback_version = "" }) db.instances;
    }

abbrev pub is_overdue : ℤ → AttemptRecord → Bool
is_overdue now a =
    (is_status a.status installing || is_status a.status awaiting_restart)
    && ltb_ℤ a.updated_at (now -ℤ update_handoff_timeout_seconds)

unfoldable pub expire_row : ℤ → AttemptRecord → AttemptRecord
expire_row now a = record a {
  status = failed;
  message = "更新进程启动后 60 分钟内未完成重连";
  updated_at = now;
  completed_at = some now;
}

unfoldable pub expire_restart_attempts : Fleet → ℤ → Fleet
unfolding expire_row ◌-ℤ◌
expire_restart_attempts db now = record db {
  attempts = update_where (is_overdue now) (expire_row now) db.attempts;
}

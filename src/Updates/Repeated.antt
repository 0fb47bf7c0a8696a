-- ===== src/Updates/Repeated.antt =====
-- backend/src/updates.rs: an agent that has got no answer sends its last report again.
use Prim.Native.String.{String}
use operation_monitoring.Base.{
  ℕ, ◌≡◌, ◌∙◌, refl, ap, arith, Bool, true, false, ◌&&◌, some, unwrap_or, ◌==◌, ==_refl, ltb, find,
  if-holds, Bool-cases, inl, inr, update_where-twice, find-update_same,
}
use operation_monitoring.Base.Text.{str_len}
use operation_monitoring.Base.Int.{ℤ}
use operation_monitoring.Updates.Model.{
  AttemptStatus, succeeded, AttemptRecord, Fleet, ok, ◌>>=◌, attempt_not_found, invalid_status,
  message_too_long,
}
use operation_monitoring.Updates.Status.{
  is_status, is_terminal, update_status_transition_allowed, valid_agent_status,
}
use operation_monitoring.Updates.Attempts.{
  UpgradeReport, attempt_id_is, is_reported, reported_attempt, status_row, set_status,
  set_agent_version, after_status, record_on_attempt, confirm_again,
  record_update_status_for_attempt, max_status_message_bytes,
}
use operation_monitoring.Updates.Accepted.{after_status-attempts}
use operation_monitoring.Updates.Answers.{
  Ensures, Ensures-bind, Ensures-map, result, ok_or-some, require-true,
}

set_agent_version-twice :
    (db : Fleet) (i : ℕ) (version : String)
    → set_agent_version (set_agent_version db i version) i version ≡ set_agent_version db i version
set_agent_version-twice db i version =
    ap (λ instances. record db { instances = instances })
      (update_where-twice (λ x. x.id == i) (λ x. record x { agent_version = version }) (λ _. refl)
        (λ _. refl) db.instances)

confirm_again-twice :
    (db : Fleet) (report : UpgradeReport)
    → confirm_again (confirm_again db report) report ≡ confirm_again db report
confirm_again-twice db report = elim (Bool-cases (is_status report.status succeeded)) [
  | inl e ↦ rw e (set_agent_version-twice db report.instance_id report.version)
  | inr e ↦ rw e refl
]

confirm_again-attempts :
    (db : Fleet) (report : UpgradeReport) → (confirm_again db report).attempts ≡ db.attempts
confirm_again-attempts db report = elim (Bool-cases (is_status report.status succeeded)) [
  | inl e ↦ rw e refl
  | inr e ↦ rw e refl
]

-- The final status has set the version that it stands for already.
confirm_again-after :
    (db : Fleet) (report : UpgradeReport) (status : AttemptStatus) (from_version : String)
    → report.status ≡ status
    → confirm_again (after_status db report.instance_id status report.version from_version) report
      ≡ after_status db report.instance_id status report.version from_version
confirm_again-after db report succeeded from_version e =
    rw e (set_agent_version-twice db report.instance_id report.version)
confirm_again-after db report _ from_version e = rw e refl

module _ (report : UpgradeReport) (id : ℕ) (over : is_terminal report.status ≡ true) where
  abbrev fits : AttemptRecord → Bool
  fits x = (x.id == id) && is_reported report x

  -- Tables on which the report has nothing left to do.
  abbrev IsDone : Fleet → Type 0
  IsDone out =
      (a : AttemptRecord) × (find fits out.attempts ≡ some a)
      × (is_status a.status report.status ≡ true)
      × (confirm_again out report ≡ out)

  after_found :
      (db : Fleet) (message : String) (now : ℤ) (a : AttemptRecord)
      → find fits db.attempts ≡ some a
      → find fits
          (after_status
            (set_status db a.id report.status message now)
            report.instance_id
            report.status
            report.version
            a.from_version).attempts
        ≡ some (status_row report.status message now a)
  after_found db message now a found =
      ap (find fits) (
        after_status-attempts (set_status db a.id report.status message now) report.instance_id
          report.status report.version a.from_version)
      ∙ (find-update_same fits (attempt_id_is a.id) (status_row report.status message now)
            (λ x _. refl) db.attempts
          ∙ rw (found, ==_refl a.id) refl)

  record_on_attempt-IsDone :
      (db : Fleet) (message : String) (now : ℤ) (a : AttemptRecord)
      → find fits db.attempts ≡ some a
      → Ensures IsDone (record_on_attempt db report message now a)
  unfolding record_on_attempt
  record_on_attempt-IsDone db message now a found =
      if-holds (Ensures IsDone) (is_status a.status report.status && is_terminal report.status) _ _
        (λ again. (
          a,
          ap (find fits) (confirm_again-attempts db report) ∙ found,
          ground arith,
          confirm_again-twice db report,
        ))
        (λ first.
          if-holds (Ensures IsDone) (update_status_transition_allowed a.status report.status) _ _
            (λ allowed. (
              status_row report.status message now a,
              after_found db message now a found,
              ground arith,
              confirm_again-after (set_status db a.id report.status message now) report
                  report.status a.from_version refl,
            ))
            (λ _. tt))

  again_of_IsDone :
      (out : Fleet) (later : ℤ)
      → IsDone out
      → valid_agent_status report.status ≡ true
      → ltb max_status_message_bytes (str_len (unwrap_or report.message "")) ≡ false
      → report.attempt_id ≡ some id
      → record_update_status_for_attempt out report later ≡ ok out
  unfolding record_update_status_for_attempt record_on_attempt ◌>>=◌
  again_of_IsDone out later (a, found, same, nothing) valid short by_id =
      rw (valid, short, by_id, found, same, over, nothing) refl

  found_of_reported :
      (db : Fleet) (a : AttemptRecord)
      → report.attempt_id ≡ some id
      → reported_attempt db report report.attempt_id ≡ some a
      → find fits db.attempts ≡ some a
  found_of_reported db a by_id reported = rw by_id at reported

  repeated :
      (db : Fleet) (now later : ℤ)
      → report.attempt_id ≡ some id
      → Ensures
          (λ out. record_update_status_for_attempt out report later ≡ ok out)
          (record_update_status_for_attempt db report now)
  unfolding record_update_status_for_attempt
  repeated db now later by_id =
      let P : Fleet → Type 0 = λ out. record_update_status_for_attempt out report later ≡ ok out in
      Ensures-bind P _ _ (λ u valid. Ensures-bind P _ _ (λ w short. Ensures-bind P _ _ (λ a read.
        let valid' = require-true _ invalid_status u valid in
        let short' = require-true _ message_too_long w short in
        let reported = ok_or-some _ attempt_not_found a read in
        Ensures-map P (record_on_attempt db report _ now a)
          (λ out done. again_of_IsDone out later done valid' (ground arith) by_id)
          (record_on_attempt-IsDone db _ now a (found_of_reported db a by_id reported)))))

-- A report of a final status that names its attempt and was accepted can be sent again at any time:
-- it is accepted again, and changes nothing.
pub final_report_idempotent :
    (db out : Fleet) (report : UpgradeReport) (id : ℕ) (now later : ℤ)
    → report.attempt_id ≡ some id
    → is_terminal report.status ≡ true
    → record_update_status_for_attempt db report now ≡ ok out
    → record_update_status_for_attempt out report later ≡ ok out
final_report_idempotent db out report id now later by_id over h =
    result (λ o. record_update_status_for_attempt o report later ≡ ok o) _ out
      (repeated report id over db now later by_id) h

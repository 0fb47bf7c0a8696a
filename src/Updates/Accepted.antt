-- ===== src/Updates/Accepted.antt =====
-- backend/src/updates.rs: what an accepted report changes, what a repeated one does, and what the
-- confirmation by a reconnect and the timeout leave behind.
use Prim.Native.String.{String}
use operation_monitoring.Base.{
  ℕ, ◌≤◌, ◌≡◌, ◌∙◌, refl, arith, true, false, ◌&&◌, Option, none, some, ◌==◌, ==_refl, find, count,
  if◌then◌else◌, if-holds, find-update_same, find-holds, All-first_by, retain-All,
}
use operation_monitoring.Base.Int.{ℤ}
use text.Mathlib.Text.{◌==◌ as str_eq}
use operation_monitoring.Updates.Status.{is_upgrade}
use operation_monitoring.Updates.Attempts.{opt_eq}
use operation_monitoring.Base.Int.{eq_ℤ_iff}
use operation_monitoring.Updates.Model.{
  Operation, upgrade, rollback, AttemptStatus, succeeded, rollback_succeeded, AttemptRecord, Fleet,
  ok, attempt_not_found,
}
use operation_monitoring.Updates.Status.{is_status, is_terminal, update_status_transition_allowed}
use operation_monitoring.Updates.Attempts.{
  UpgradeReport, attempt_id_is, is_reported, reported_attempt, status_row, set_status, after_status,
  record_on_attempt, record_update_status_for_attempt,
}
use operation_monitoring.Updates.Answers.{Ensures, Ensures-bind, Ensures-map, result, ok_or-some}
use operation_monitoring.Updates.Sound.Order.{same_terminal}
use operation_monitoring.Updates.Sound.Reports.{found_by_id, reported-member}

-- Every other attempt stands as it was.
abbrev pub LeavesOthers : Fleet → Fleet → ℕ → Type 0
LeavesOthers db out id =
    (b : AttemptRecord)
    → find (attempt_id_is b.id) db.attempts ≡ some b
    → (b.id == id) ≡ false
    → find (attempt_id_is b.id) out.attempts ≡ some b

-- The attempt has moved along an allowed transition, or stayed.
abbrev pub MovesOn : Fleet → AttemptRecord → Type 0
MovesOn out a =
    (a' : AttemptRecord) × (find (attempt_id_is a.id) out.attempts ≡ some a')
    × (update_status_transition_allowed a.status a'.status ≡ true)
    × (a'.retry_count ≡ a.retry_count)

pub after_status-attempts :
    (db : Fleet) (instance_id : ℕ) (status : AttemptStatus) (version from_version : String)
    → (after_status db instance_id status version from_version).attempts ≡ db.attempts
after_status-attempts db instance_id succeeded version from_version = refl
after_status-attempts db instance_id rollback_succeeded version from_version = refl
after_status-attempts db instance_id _ version from_version = refl

find-set_status :
    (db : Fleet) (k id : ℕ) (status : AttemptStatus) (message : String) (now : ℤ)
    (b : AttemptRecord)
    → find (attempt_id_is k) db.attempts ≡ some b
    → find (attempt_id_is k) (set_status db id status message now).attempts
      ≡ some (if attempt_id_is id b then status_row status message now b else b)
find-set_status db k id status message now b found =
    rw
      (find-update_same (attempt_id_is k) (attempt_id_is id) (status_row status message now)
        (λ x _. refl) db.attempts)
      (rw found refl)

-- An upgrade of the reporting instance, as the report names it, in its present retry.
abbrev pub IsNamedBy : UpgradeReport → AttemptRecord → Type 0
IsNamedBy report a =
    (a.operation ≡ upgrade)
    × (a.instance_id ≡ report.instance_id)
    × (a.release_id ≡ report.release_id)
    × (opt_eq a.artifact_id (some report.artifact_id) ≡ true)
    × (str_eq a.target_version report.version ≡ true)
    × (a.retry_count ≡ report.retry_count)

an_upgrade : (o : Operation) → is_upgrade o ≡ true → o ≡ upgrade
an_upgrade upgrade h = refl
an_upgrade rollback h = cc

is_reported-IsNamedBy :
    (report : UpgradeReport) (a : AttemptRecord) → is_reported report a ≡ true → IsNamedBy report a
is_reported-IsNamedBy report a h = (
  an_upgrade a.operation (ground arith),
  ground arith,
  ground arith,
  ground arith,
  ground arith,
  (eq_ℤ_iff a.retry_count report.retry_count).0 (ground arith),
)

-- The row of the report, and what is done to it.
abbrev pub IsAccepted : Fleet → UpgradeReport → AttemptRecord → Fleet → Type 0
IsAccepted db report a out =
    (find (attempt_id_is a.id) db.attempts ≡ some a)
    × IsNamedBy report a
    × LeavesOthers db out a.id
    × MovesOn out a

allowed_again :
    (s : AttemptStatus) → is_terminal s ≡ true → update_status_transition_allowed s s ≡ true
unfolding update_status_transition_allowed
allowed_again s over = rw over (ground arith)

record_on_attempt-changes :
    (db : Fleet) (report : UpgradeReport) (message : String) (now : ℤ) (a : AttemptRecord)
    → find (attempt_id_is a.id) db.attempts ≡ some a
    → Ensures
        (λ out. LeavesOthers db out a.id × MovesOn out a)
        (record_on_attempt db report message now a)
unfolding record_on_attempt
record_on_attempt-changes db report message now a found =
    let P : Fleet → Type 0 = λ out. LeavesOthers db out a.id × MovesOn out a in
    if-holds (Ensures P) (is_status a.status report.status && is_terminal report.status) _ _
      (λ again.
        let over : is_terminal a.status ≡ true =
          same_terminal report.status a.status (ground arith) (ground arith) in
        let same : P db = ((λ b fb _. fb), (a, found, allowed_again a.status over, refl)) in
        if-holds P (is_status report.status succeeded) _ _ (λ _. same) (λ _. same))
      (λ first.
        if-holds (Ensures P) (update_status_transition_allowed a.status report.status) _ _
          (λ allowed.
            rw
              (after_status-attempts (set_status db a.id report.status message now)
                report.instance_id report.status report.version a.from_version)
              (
                (λ b fb other.
                    find-set_status db b.id a.id report.status message now b fb ∙ rw other refl),
                (
                  status_row report.status message now a,
                  find-set_status db a.id a.id report.status message now a found
                      ∙ rw (==_refl a.id) refl,
                  allowed,
                  refl,
                ),
              ))
          (λ _. tt))

reported-IsReported :
    (db : Fleet) (report : UpgradeReport) (attempt_id : Option ℕ) (a : AttemptRecord)
    → reported_attempt db report attempt_id ≡ some a
    → is_reported report a ≡ true
reported-IsReported db report (some k) a found =
    let fits = find-holds (λ x. (x.id == k) && is_reported report x) db.attempts a found in
    ground arith
reported-IsReported db report none a found =
    All-first_by (λ x. is_reported report x ≡ true) _ _ a
      (retain-All (is_reported report) db.attempts) found

accepted :
    (db : Fleet) (report : UpgradeReport) (now : ℤ)
    → ((k : ℕ) → count (attempt_id_is k) db.attempts ≤ 1)
    → Ensures
        (λ out. (a : AttemptRecord) × IsAccepted db report a out)
        (record_update_status_for_attempt db report now)
unfolding record_update_status_for_attempt
accepted db report now one_id =
    let P : Fleet → Type 0 = λ out. (a : AttemptRecord) × IsAccepted db report a out in
    Ensures-bind P _ _ (λ _ _. Ensures-bind P _ _ (λ _ _. Ensures-bind P _ _ (λ a read.
      let reported = ok_or-some _ attempt_not_found a read in
      let found =
        found_by_id db a one_id (reported-member db report report.attempt_id a reported) in
      Ensures-map P (record_on_attempt db report _ now a)
        (λ out (others, own). (
          a,
          (
            found,
            is_reported-IsNamedBy report a
                (reported-IsReported db report report.attempt_id a reported),
            others,
            own,
          ),
        ))
        (record_on_attempt-changes db report _ now a found))))

-- In tables where identifiers do not repeat, a report that is accepted is about one attempt: an
-- upgrade of the reporting instance with the release, package, version and retry count of the
-- report. Every other attempt stays as it was, and this one stays or moves along an allowed
-- transition, in the same retry.
pub report_changes_own_attempt :
    (db out : Fleet) (report : UpgradeReport) (now : ℤ)
    → ((k : ℕ) → count (attempt_id_is k) db.attempts ≤ 1)
    → record_update_status_for_attempt db report now ≡ ok out
    → (a : AttemptRecord) × IsAccepted db report a out
report_changes_own_attempt db out report now one_id h =
    result (λ o. (a : AttemptRecord) × IsAccepted db report a o) _ out
      (accepted db report now one_id) h

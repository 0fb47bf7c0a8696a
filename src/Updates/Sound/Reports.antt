-- ===== src/Updates/Sound/Reports.antt =====
-- backend/src/updates.rs: the reports of agents, the confirmation by a reconnect and the timeout
-- keep the tables sound.
use Prim.Native.String.{String}
use operation_monitoring.Base.{
  ℕ, ◌≤◌, count, ◌≡◌, refl, subst, arith, true, ◌&&◌, not, Option, none, some, List, find, All,
  All-retain, All-find, All-first_by, find_self, Bool-cases, if-holds, find-holds, sym, inl, inr,
}
use operation_monitoring.Base.Int.{ℤ}
use operation_monitoring.Updates.Model.{
  AttemptStatus, succeeded, rollback_succeeded, AttemptRecord, InstanceRow, ReleaseRow, Fleet,
  attempt_not_found,
}
use operation_monitoring.Updates.Status.{is_terminal, is_status, update_status_transition_allowed}
use operation_monitoring.Updates.Sound.Order.{same_terminal, ends_again, confirmed_ends}
use operation_monitoring.Updates.Attempts.{
  UpgradeReport, RollbackReport, attempt_id_is, reported_attempt, status_row, set_status,
  after_status, settle_rollback, record_on_attempt, record_update_status_for_attempt,
  rollback_on_attempt, record_rollback_status, is_rollback_of, confirm_row, confirm_update_version,
  is_confirmed, expire_row, expire_restart_attempts, is_overdue,
}
use operation_monitoring.Updates.Answers.{Ensures, Ensures-bind, ok_or-some}
use operation_monitoring.Updates.Sound.{
  IsStamped, AttemptsOk, ReleasesOk, Sound, Keeps, AttemptsOk-update, AttemptsOk-found,
}

pub Sound-attempts :
    (db : Fleet) (attempts : List AttemptRecord)
    → AttemptsOk db.uuids db.drawn attempts
    → Sound db
    → Sound (record db { attempts = attempts })
Sound-attempts db attempts attempts_ok sound = record {
  attempts_ok = attempts_ok;
  releases_ok = sound.releases_ok;
  distinct = sound.distinct;
}

pub Sound-instances :
    (db : Fleet) (instances : List InstanceRow)
    → Sound db
    → Sound (record db { instances = instances })
Sound-instances db instances sound = record {
  attempts_ok = sound.attempts_ok;
  releases_ok = sound.releases_ok;
  distinct = sound.distinct;
}

pub Sound-releases :
    (db : Fleet) (releases : List ReleaseRow)
    → ReleasesOk db.uuids db.drawn releases
    → Sound db
    → Sound (record db { releases = releases })
Sound-releases db releases releases_ok sound = record {
  attempts_ok = sound.attempts_ok;
  releases_ok = releases_ok;
  distinct = sound.distinct;
}

pub status_row-Keeps :
    (status : AttemptStatus) (message : String) (now : ℤ) → Keeps (status_row status message now)
status_row-Keeps status message now = record {
  id = λ a. refl;
  instance_id = λ a. refl;
  operation = λ a. refl;
  parent_attempt_id = λ a. refl;
}

pub status_row-IsStamped :
    (status : AttemptStatus) (message : String) (now : ℤ) (a : AttemptRecord)
    → IsStamped a
    → IsStamped (status_row status message now a)
status_row-IsStamped status message now a (_, few) = elim (Bool-cases (is_terminal status)) [
  | inl over ↦ (rw over refl, few)
  | inr active ↦ (rw active refl, few)
]

set_status-Sound :
    (db : Fleet) (a : AttemptRecord) (status : AttemptStatus) (message : String) (now : ℤ)
    → find (attempt_id_is a.id) db.attempts ≡ some a
    → (is_terminal a.status ≡ true → is_terminal status ≡ true)
    → Sound db
    → Sound (set_status db a.id status message now)
set_status-Sound db a status message now found ends sound =
    Sound-attempts db _
      (AttemptsOk-found db.uuids db.drawn (status_row status message now)
        (status_row-Keeps status message now) a.id a db.attempts found ends
        (status_row-IsStamped status message now a
          (All-find IsStamped (attempt_id_is a.id) db.attempts a sound.attempts_ok.stamped found))
        sound.attempts_ok)
      sound

after_status-Sound :
    (db : Fleet) (instance_id : ℕ) (status : AttemptStatus) (version from_version : String)
    → Sound db
    → Sound (after_status db instance_id status version from_version)
after_status-Sound db instance_id succeeded version from_version sound = Sound-instances db _ sound
after_status-Sound db instance_id rollback_succeeded version from_version sound =
    Sound-instances db _ sound
after_status-Sound db instance_id _ version from_version sound = sound

-- The row that a search by key or by order yields is the one under its key.
pub found_by_id :
    (db : Fleet) (a : AttemptRecord)
    → ((k : ℕ) → count (attempt_id_is k) db.attempts ≤ 1)
    → ((P : AttemptRecord → Type 0) → All P db.attempts → P a)
    → find (attempt_id_is a.id) db.attempts ≡ some a
found_by_id db a one_id member =
    member (λ x. find (attempt_id_is x.id) db.attempts ≡ some x)
      (find_self (λ x. x.id) db.attempts one_id)

pub reported-member :
    (db : Fleet) (report : UpgradeReport) (attempt_id : Option ℕ) (a : AttemptRecord)
    → reported_attempt db report attempt_id ≡ some a
    → (P : AttemptRecord → Type 0) → All P db.attempts
    → P a
reported-member db report (some k) a found P every = All-find P _ db.attempts a every found
reported-member db report none a found P every =
    All-first_by P _ _ a (All-retain P _ db.attempts every) found

record_on_attempt-Sound :
    (db : Fleet) (report : UpgradeReport) (message : String) (now : ℤ) (a : AttemptRecord)
    → find (attempt_id_is a.id) db.attempts ≡ some a
    → Sound db
    → Ensures Sound (record_on_attempt db report message now a)
unfolding record_on_attempt
record_on_attempt-Sound db report message now a found sound =
    if-holds (Ensures Sound) (is_status a.status report.status && is_terminal report.status) _ _
      (λ again.
        if-holds Sound (is_status report.status succeeded) _ _ (λ _. Sound-instances db _ sound)
          (λ _. sound))
      (λ first.
        if-holds (Ensures Sound) (update_status_transition_allowed a.status report.status) _ _
          (λ allowed.
            after_status-Sound _ report.instance_id report.status report.version a.from_version (
              set_status-Sound db a report.status message now found
                (ends_again a.status report.status allowed) sound))
          (λ _. tt))

pub record_update_status_for_attempt-Sound :
    (db : Fleet) (report : UpgradeReport) (now : ℤ)
    → Sound db
    → Ensures Sound (record_update_status_for_attempt db report now)
unfolding record_update_status_for_attempt
record_update_status_for_attempt-Sound db report now sound = Ensures-bind Sound _ _ (λ _ _.
    Ensures-bind Sound _ _ (λ _ _. Ensures-bind Sound _ _ (λ a reported.
      record_on_attempt-Sound db report _ now a
        (found_by_id db a sound.attempts_ok.one_id (
          reported-member db report report.attempt_id a
            (ok_or-some _ attempt_not_found a reported)))
        sound)))

settle_rollback-Sound :
    (db : Fleet) (instance_id : ℕ) (status : AttemptStatus) (version : String)
    → Sound db
    → Sound (settle_rollback db instance_id status version)
settle_rollback-Sound db instance_id rollback_succeeded version sound = Sound-instances db _ sound
settle_rollback-Sound db instance_id _ version sound = sound

rollback_on_attempt-Sound :
    (db : Fleet) (report : RollbackReport) (message : String) (now : ℤ) (a : AttemptRecord)
    → find (attempt_id_is a.id) db.attempts ≡ some a
    → a.id ≡ report.attempt_id
    → Sound db
    → Ensures Sound (rollback_on_attempt db report message now a)
unfolding rollback_on_attempt
rollback_on_attempt-Sound db report message now a found same sound =
    if-holds (Ensures Sound)
      (not (is_status a.status report.status)
        && not (update_status_transition_allowed a.status report.status))
      _ _ (λ _. tt)
      (λ allowed. settle_rollback-Sound _ report.instance_id report.status a.target_version (
        subst (λ k. Sound (set_status db k report.status message now)) same
          (set_status-Sound db a report.status message now found
            (λ over. elim (Bool-cases (is_status a.status report.status)) [
              | inl stays ↦ same_terminal a.status report.status stays over
              | inr moves ↦ ends_again a.status report.status (ground arith) over
            ])
            sound)))

pub record_rollback_status-Sound :
    (db : Fleet) (report : RollbackReport) (now : ℤ)
    → Sound db
    → Ensures Sound (record_rollback_status db report now)
unfolding record_rollback_status
record_rollback_status-Sound db report now sound = Ensures-bind Sound _ _ (λ _ _.
    Ensures-bind Sound _ _ (λ _ _. Ensures-bind Sound _ _ (λ a reported.
      let found = ok_or-some _ attempt_not_found a reported in
      let fits = find-holds (is_rollback_of report) db.attempts a found in
      rollback_on_attempt-Sound db report _ now a
        (found_by_id db a sound.attempts_ok.one_id
          (λ P every. All-find P (is_rollback_of report) db.attempts a every found))
        (ground arith) sound)))

confirm_row-Keeps : (now : ℤ) → Keeps (confirm_row now)
unfolding confirm_row
confirm_row-Keeps now = record {
  id = λ a. refl;
  instance_id = λ a. refl;
  operation = λ a. refl;
  parent_attempt_id = λ a. refl;
}

confirm_ends : (now : ℤ) (a : AttemptRecord) → is_terminal (confirm_row now a).status ≡ true
unfolding confirm_row
confirm_ends now a = confirmed_ends a.operation

pub confirm_update_version-Sound :
    (db : Fleet) (instance_id : ℕ) (version : String) (now : ℤ)
    → Sound db
    → Sound (confirm_update_version db instance_id version now)
unfolding confirm_update_version confirm_row
confirm_update_version-Sound db instance_id version now sound = Sound-instances _ _ (
    Sound-attempts db _
      (AttemptsOk-update db.uuids db.drawn (confirm_row now) (confirm_row-Keeps now)
        (is_confirmed db instance_id version) (λ a _. confirm_ends now a)
        (λ a (_, few). (sym (confirm_ends now a), few)) db.attempts sound.attempts_ok)
      sound)

expire_row-Keeps : (now : ℤ) → Keeps (expire_row now)
unfolding expire_row
expire_row-Keeps now = record {
  id = λ a. refl;
  instance_id = λ a. refl;
  operation = λ a. refl;
  parent_attempt_id = λ a. refl;
}

pub expire_restart_attempts-Sound :
    (db : Fleet) (now : ℤ) → Sound db → Sound (expire_restart_attempts db now)
unfolding expire_restart_attempts expire_row
expire_restart_attempts-Sound db now sound =
    Sound-attempts db _
      (AttemptsOk-update db.uuids db.drawn (expire_row now) (expire_row-Keeps now) (is_overdue now)
        (λ _ _. refl) (λ a (_, few). (refl, few)) db.attempts sound.attempts_ok)
      sound

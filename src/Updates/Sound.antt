-- ===== src/Updates/Sound.antt =====
-- backend/src/updates.rs and backend/src/db.rs: what the tables of the updates keep between two
-- transactions, and the ways in which a transaction changes the attempts.
pub mod Growth
pub mod Releases
pub mod Order
pub mod Reports
pub mod Queues
pub mod Rollouts
pub mod Instances
pub mod Catalogue
pub mod Offering
use operation_monitoring.Base.{
  ℕ, ◌+◌, ◌≤◌, ◌<◌, ◌≡◌, ◌∙◌, refl, sym, arith, Bool, true, false, ◌&&◌, not, Option, none, some,
  is_some, List, [], ◌∷◌, ◌++◌, ◌==◌, count, find, any, retain, update_where, All, All-map,
  All-append, All-update, All-retain, All-update_found, count-append, count-update_le,
  count-update_same, count-update_found_le, count-update_one, count-retain_le, count_of_none,
  count_of_any-false, if◌then◌else◌,
}
use operation_monitoring.Base.Int.{ℤ, pos, leb_ℤ}
use operation_monitoring.Base.Ids.{Distinct, IsDrawn, IsDrawn-later, fresh_id}
use operation_monitoring.Updates.Model.{Operation, ReleaseRow, AttemptRecord, Fleet}
use operation_monitoring.Updates.Status.{is_terminal, is_upgrade, is_controlled}
use operation_monitoring.Updates.Attempts.{attempt_id_is}
use operation_monitoring.Updates.Rollback.{
  is_active_of, is_rollback_for, has_parent, clashes, is_other_active,
}
use operation_monitoring.Updates.Instances.{max_agent_update_retry_count}

-- A completion time stands on the row exactly when the attempt is over, and it was not retried
-- more often than is allowed.
abbrev pub IsStamped : AttemptRecord → Type 0
IsStamped a =
    (is_some a.completed_at ≡ is_terminal a.status)
    × (leb_ℤ a.retry_count max_agent_update_retry_count ≡ true)

pub record AttemptsOk (uuids : ℕ → ℕ) (drawn : ℕ) (attempts : List AttemptRecord) : Type 0 where
  pub one_active : (k : ℕ) → count (is_active_of k) attempts ≤ 1
  pub one_rollback : (k : ℕ) → count (is_rollback_for k) attempts ≤ 1
  pub one_id : (k : ℕ) → count (attempt_id_is k) attempts ≤ 1
  pub stamped : All IsStamped attempts
  pub drawn_ids : All (IsDrawn (λ a. a.id) uuids drawn) attempts

abbrev pub is_controlled_row : ReleaseRow → Bool
is_controlled_row r = is_controlled r.rollout_state

pub record ReleasesOk (uuids : ℕ → ℕ) (drawn : ℕ) (releases : List ReleaseRow) : Type 0 where
  pub one_controlled : count is_controlled_row releases ≤ 1
  pub one_id : (k : ℕ) → count (λ r. r.id == k) releases ≤ 1
  pub drawn_ids : All (IsDrawn (λ r. r.id) uuids drawn) releases

pub record Sound (db : Fleet) : Type 0 where
  pub attempts_ok : AttemptsOk db.uuids db.drawn db.attempts
  pub releases_ok : ReleasesOk db.uuids db.drawn db.releases
  pub distinct : Distinct db.uuids

pub AttemptsOk-later :
    (uuids : ℕ → ℕ) (m n : ℕ) (attempts : List AttemptRecord)
    → m ≤ n
    → AttemptsOk uuids m attempts
    → AttemptsOk uuids n attempts
AttemptsOk-later uuids m n attempts h ok = record {
  one_active = ok.one_active;
  one_rollback = ok.one_rollback;
  one_id = ok.one_id;
  stamped = ok.stamped;
  drawn_ids = IsDrawn-later (λ a. a.id) uuids m n attempts h ok.drawn_ids;
}

pub ReleasesOk-later :
    (uuids : ℕ → ℕ) (m n : ℕ) (releases : List ReleaseRow)
    → m ≤ n
    → ReleasesOk uuids m releases
    → ReleasesOk uuids n releases
ReleasesOk-later uuids m n releases h ok = record {
  one_controlled = ok.one_controlled;
  one_id = ok.one_id;
  drawn_ids = IsDrawn-later (λ r. r.id) uuids m n releases h ok.drawn_ids;
}

-- An update of a row that leaves it the attempt that it is.
pub record Keeps (f : AttemptRecord → AttemptRecord) : Type 0 where
  pub id : (a : AttemptRecord) → (f a).id ≡ a.id
  pub instance_id : (a : AttemptRecord) → (f a).instance_id ≡ a.instance_id
  pub operation : (a : AttemptRecord) → (f a).operation ≡ a.operation
  pub parent_attempt_id : (a : AttemptRecord) → (f a).parent_attempt_id ≡ a.parent_attempt_id

module _ (uuids : ℕ → ℕ) (drawn : ℕ) (f : AttemptRecord → AttemptRecord) (keeps : Keeps f) where
  pub keeps_id : (k : ℕ) (a : AttemptRecord) → attempt_id_is k (f a) ≡ attempt_id_is k a
  keeps_id k a = rw (keeps.id a) refl

  pub keeps_rollback : (k : ℕ) (a : AttemptRecord) → is_rollback_for k (f a) ≡ is_rollback_for k a
  keeps_rollback k a = rw (keeps.operation a) (rw (keeps.parent_attempt_id a) refl)

  pub keeps_active :
      (k : ℕ) (a : AttemptRecord)
      → (is_terminal a.status ≡ true → is_terminal (f a).status ≡ true)
      → is_active_of k (f a) ≡ true
      → is_active_of k a ≡ true
  keeps_active k a h e = let e' = rw (keeps.instance_id a) at e in ground arith

  pub keeps_drawn :
      (q : AttemptRecord → Bool) (attempts : List AttemptRecord)
      → All (IsDrawn (λ a. a.id) uuids drawn) attempts
      → All (IsDrawn (λ a. a.id) uuids drawn) (update_where q f attempts)
  keeps_drawn q attempts =
      All-update (IsDrawn (λ a. a.id) uuids drawn) q f (λ a (n, lt, e). (n, lt, keeps.id a ∙ e))
        attempts

  -- Rows of any number end, or stay as far as they are.
  pub AttemptsOk-update :
      (q : AttemptRecord → Bool)
      → ((a : AttemptRecord) → is_terminal a.status ≡ true → is_terminal (f a).status ≡ true)
      → ((a : AttemptRecord) → IsStamped a → IsStamped (f a))
      → (attempts : List AttemptRecord) → AttemptsOk uuids drawn attempts
      → AttemptsOk uuids drawn (update_where q f attempts)
  AttemptsOk-update q ends stamps attempts ok = record {
    one_active = λ k. omega (
      arith,
      count-update_le (is_active_of k) q f (λ a _. keeps_active k a (ends a)) attempts,
      ok.one_active k,
    );
    one_rollback = λ k.
        rw (count-update_same (is_rollback_for k) q f (λ a _. keeps_rollback k a) attempts)
          (ok.one_rollback k);
    one_id = λ k.
        rw (count-update_same (attempt_id_is k) q f (λ a _. keeps_id k a) attempts) (ok.one_id k);
    stamped = All-update IsStamped q f stamps attempts ok.stamped;
    drawn_ids = keeps_drawn q attempts ok.drawn_ids;
  }

  -- The row of one attempt, which either ends or was not over.
  pub AttemptsOk-found :
      (id : ℕ) (a : AttemptRecord) (attempts : List AttemptRecord)
      → find (attempt_id_is id) attempts ≡ some a
      → (is_terminal a.status ≡ true → is_terminal (f a).status ≡ true)
      → IsStamped (f a)
      → AttemptsOk uuids drawn attempts
      → AttemptsOk uuids drawn (update_where (attempt_id_is id) f attempts)
  AttemptsOk-found id a attempts found ends stamp ok =
      let q = attempt_id_is id in
      record {
        one_active = λ k. omega (
          arith,
          count-update_found_le (is_active_of k) q f attempts a found (ok.one_id id)
              (keeps_active k a ends),
          ok.one_active k,
        );
        one_rollback = λ k.
            rw (count-update_same (is_rollback_for k) q f (λ x _. keeps_rollback k x) attempts)
              (ok.one_rollback k);
        one_id = λ k.
            rw (count-update_same (attempt_id_is k) q f (λ x _. keeps_id k x) attempts)
              (ok.one_id k);
        stamped = All-update_found IsStamped q f attempts a found (ok.one_id id) ok.stamped stamp;
        drawn_ids = keeps_drawn q attempts ok.drawn_ids;
      }

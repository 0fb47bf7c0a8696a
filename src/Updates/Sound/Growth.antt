-- ===== src/Updates/Sound/Growth.antt =====
-- backend/src/updates.rs: attempts that are inserted, tried again or deleted.
use operation_monitoring.Base.{
  ℕ, ◌+◌, ◌≤◌, ◌≡◌, refl, subst, arith, Bool, true, false, some, List, [], ◌∷◌, ◌++◌, ◌==◌, inl,
  inr, count, find, any, retain, update_where, All-append, All-update, All-retain, Bool-cases,
  Option-cases, ==_iff, All-update_found, count-append, count-update_le, count-update_same,
  count-update_found_le, count-update_one, count-retain_le, count_of_any-false,
}
use operation_monitoring.Base.Ids.{Distinct, IsDrawn, IsDrawn-later, count-append_fresh}
use operation_monitoring.Updates.Model.{AttemptRecord}
use operation_monitoring.Updates.Attempts.{attempt_id_is}
use operation_monitoring.Updates.Rollback.{is_active_of, is_rollback_for, clashes, is_other_active}
use operation_monitoring.Updates.Releases.{detach, kept_attempts}
use operation_monitoring.Updates.Sound.{
  IsStamped, AttemptsOk, Keeps, keeps_id, keeps_rollback, keeps_drawn,
}

-- An attempt that is over starts again, when its instance has no other one.
module _ (uuids : ℕ → ℕ) (drawn : ℕ) (f : AttemptRecord → AttemptRecord) (keeps : Keeps f) where
  one_active_after :
      (id : ℕ) (a : AttemptRecord) (attempts : List AttemptRecord)
      → find (attempt_id_is id) attempts ≡ some a
      → any (is_other_active a.instance_id id) attempts ≡ false
      → AttemptsOk uuids drawn attempts
      → (k : ℕ) → count (is_active_of k) (update_where (attempt_id_is id) f attempts) ≤ 1
  one_active_after id a attempts found alone ok k = elim (Bool-cases (a.instance_id == k)) [
    | inl same ↦
        let at_k =
          subst (λ n. any (is_other_active n id) attempts ≡ false) ((==_iff a.instance_id k).0 same)
            alone in
        omega (
          arith,
          count-update_one (is_active_of k) (attempt_id_is id) f attempts at_k,
          ok.one_id id,
        )
    | inr other ↦
        let not_k : is_active_of k (f a) ≡ true → is_active_of k a ≡ true =
          λ e. let e' = rw (keeps.instance_id a) at e in ground arith in
        omega (
          arith,
          count-update_found_le (is_active_of k) (attempt_id_is id) f attempts a found
              (ok.one_id id) not_k,
          ok.one_active k,
        )
  ]

  pub AttemptsOk-revived :
      (id : ℕ) (a : AttemptRecord) (attempts : List AttemptRecord)
      → find (attempt_id_is id) attempts ≡ some a
      → any (is_other_active a.instance_id id) attempts ≡ false
      → IsStamped (f a)
      → AttemptsOk uuids drawn attempts
      → AttemptsOk uuids drawn (update_where (attempt_id_is id) f attempts)
  AttemptsOk-revived id a attempts found alone stamp ok =
      let q = attempt_id_is id in
      record {
        one_active = one_active_after id a attempts found alone ok;
        one_rollback = λ k.
            rw
              (count-update_same (is_rollback_for k) q f
                (λ x _. keeps_rollback uuids drawn f keeps k x) attempts)
              (ok.one_rollback k);
        one_id = λ k.
            rw
              (count-update_same (attempt_id_is k) q f (λ x _. keeps_id uuids drawn f keeps k x)
                attempts)
              (ok.one_id k);
        stamped = All-update_found IsStamped q f attempts a found (ok.one_id id) ok.stamped stamp;
        drawn_ids = keeps_drawn uuids drawn f keeps q attempts ok.drawn_ids;
      }

-- What the unique indexes let in.
free_active :
    (a : AttemptRecord) (attempts : List AttemptRecord) (k : ℕ)
    → clashes attempts a ≡ false
    → is_active_of k a ≡ true
    → any (is_active_of k) attempts ≡ false
free_active a attempts k free hit =
    let same : a.instance_id ≡ k = ground arith in
    subst (λ n. any (is_active_of n) attempts ≡ false) same (ground arith)

free_rollback :
    (a : AttemptRecord) (attempts : List AttemptRecord) (k : ℕ)
    → clashes attempts a ≡ false
    → is_rollback_for k a ≡ true
    → any (is_rollback_for k) attempts ≡ false
free_rollback a attempts k free hit = elim (Option-cases a.parent_attempt_id) [
  | inl e ↦ let e' = rw e at hit in ground arith
  | inr (p, e) ↦
      let hit' = rw e at hit in
      let free' = rw e at free in
      let same : p ≡ k = ground arith in
      subst (λ n. any (is_rollback_for n) attempts ≡ false) same (ground arith)
]

module _ (uuids : ℕ → ℕ) (drawn : ℕ) where
  inserted_active :
      (a : AttemptRecord) (attempts : List AttemptRecord)
      → clashes attempts a ≡ false
      → AttemptsOk uuids drawn attempts
      → (k : ℕ) → count (is_active_of k) (attempts ++ a ∷ []) ≤ 1
  inserted_active a attempts free ok k = elim (Bool-cases (is_active_of k a)) [
    | inl hit ↦ rw (count-append (is_active_of k) attempts (a ∷ [])) (
        rw hit (
          omega (
            arith,
            count_of_any-false (is_active_of k) attempts (free_active a attempts k free hit),
          )))
    | inr miss ↦
        rw (count-append (is_active_of k) attempts (a ∷ []))
          (rw miss (omega (arith, ok.one_active k)))
  ]

  inserted_rollback :
      (a : AttemptRecord) (attempts : List AttemptRecord)
      → clashes attempts a ≡ false
      → AttemptsOk uuids drawn attempts
      → (k : ℕ) → count (is_rollback_for k) (attempts ++ a ∷ []) ≤ 1
  inserted_rollback a attempts free ok k = elim (Bool-cases (is_rollback_for k a)) [
    | inl hit ↦ rw (count-append (is_rollback_for k) attempts (a ∷ [])) (
        rw hit (
          omega (
            arith,
            count_of_any-false (is_rollback_for k) attempts (free_rollback a attempts k free hit),
          )))
    | inr miss ↦
        rw (count-append (is_rollback_for k) attempts (a ∷ []))
          (rw miss (omega (arith, ok.one_rollback k)))
  ]

  pub AttemptsOk-insert :
      (a : AttemptRecord) (attempts : List AttemptRecord)
      → Distinct uuids
      → clashes attempts a ≡ false
      → a.id ≡ uuids drawn
      → IsStamped a
      → AttemptsOk uuids drawn attempts
      → AttemptsOk uuids (drawn + 1) (attempts ++ a ∷ [])
  AttemptsOk-insert a attempts distinct free drawn_id stamp ok = record {
    one_active = inserted_active a attempts free ok;
    one_rollback = inserted_rollback a attempts free ok;
    one_id = λ k.
        count-append_fresh (λ x. x.id) uuids drawn attempts a distinct ok.drawn_ids drawn_id
          ok.one_id k;
    stamped = All-append IsStamped attempts (a ∷ []) ok.stamped (stamp, tt);
    drawn_ids =
        All-append (IsDrawn (λ x. x.id) uuids (drawn + 1)) attempts (a ∷ [])
          (IsDrawn-later (λ x. x.id) uuids drawn (drawn + 1) attempts (omega arith) ok.drawn_ids)
          ((drawn, omega arith, drawn_id), tt);
  }

-- Attempts that are deleted, and the references to them.
pub AttemptsOk-retain :
    (uuids : ℕ → ℕ) (drawn : ℕ) (q : AttemptRecord → Bool) (attempts : List AttemptRecord)
    → AttemptsOk uuids drawn attempts
    → AttemptsOk uuids drawn (retain q attempts)
AttemptsOk-retain uuids drawn q attempts ok = record {
  one_active = λ k. omega (arith, count-retain_le (is_active_of k) q attempts, ok.one_active k);
  one_rollback =
      λ k. omega (arith, count-retain_le (is_rollback_for k) q attempts, ok.one_rollback k);
  one_id = λ k. omega (arith, count-retain_le (attempt_id_is k) q attempts, ok.one_id k);
  stamped = All-retain IsStamped q attempts ok.stamped;
  drawn_ids = All-retain (IsDrawn (λ x. x.id) uuids drawn) q attempts ok.drawn_ids;
}

detached_rollback :
    (kept : List AttemptRecord) (k : ℕ) (a : AttemptRecord)
    → is_rollback_for k (detach kept a) ≡ true
    → is_rollback_for k a ≡ true
detached_rollback kept k a e = elim (Option-cases a.parent_attempt_id) [
  | inl none_e ↦ let e' = rw none_e at e in ground arith
  | inr (p, some_e) ↦ let e' = rw some_e at e in rw some_e (ground arith)
]

pub AttemptsOk-detach :
    (uuids : ℕ → ℕ) (drawn : ℕ) (attempts : List AttemptRecord)
    → AttemptsOk uuids drawn attempts
    → AttemptsOk uuids drawn (kept_attempts attempts)
AttemptsOk-detach uuids drawn attempts ok =
    let every : AttemptRecord → Bool = λ _. true in
    record {
      one_active = λ k.
          rw (count-update_same (is_active_of k) every (detach attempts) (λ a _. refl) attempts)
            (ok.one_active k);
      one_rollback = λ k. omega (
        arith,
        count-update_le (is_rollback_for k) every (detach attempts)
            (λ a _. detached_rollback attempts k a) attempts,
        ok.one_rollback k,
      );
      one_id = λ k.
          rw (count-update_same (attempt_id_is k) every (detach attempts) (λ a _. refl) attempts)
            (ok.one_id k);
      stamped = All-update IsStamped every (detach attempts) (λ a s. s) attempts ok.stamped;
      drawn_ids =
          All-update (IsDrawn (λ x. x.id) uuids drawn) every (detach attempts) (λ a d. d) attempts
            ok.drawn_ids;
    }

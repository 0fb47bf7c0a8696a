-- ===== src/Updates/Settled.antt =====
-- backend/src/updates.rs: what the timeout and the start of a rollback leave behind.
use operation_monitoring.Base.{
  ℕ, ◌≡◌, refl, ap, arith, Bool, true, false, ◌||◌, some, List, ◌==◌, ==_iff, ==_refl, find,
  update_where, find-update_same, find-holds, All, All-updated, ◌∙◌, Bool-cases, inl, inr, ◌⊎◌,
}
use operation_monitoring.Base.Int.{ℤ, pos, ◌-ℤ◌, ◌≤ℤ◌, ◌<ℤ◌, ltb_ℤ}
use operation_monitoring.Updates.Model.{
  Operation, upgrade, pending, installing, awaiting_restart, failed, cancelled, rollback_active,
  ReleaseRow, AttemptRecord, Fleet, ok, release_not_found,
}
use operation_monitoring.Updates.Status.{is_status, is_upgrade}
use operation_monitoring.Updates.Attempts.{
  attempt_id_is, is_overdue, expire_row, expire_restart_attempts, update_handoff_timeout_seconds,
}
use operation_monitoring.Updates.Rollback.{set_rollout_state}
use operation_monitoring.Updates.Rollout.{
  admin_rollback_agent_release, is_pending_upgrade_of, cancel_row, cancel_pending_upgrades,
  set_release_state,
}
use operation_monitoring.Updates.Answers.{Ensures, Ensures-bind, result, ok_or-some}
use operation_monitoring.Updates.Transitions.{is_status-eq}

-- The new process has 60 minutes to connect again.
abbrev pub InTime : ℤ → AttemptRecord → Type 0
InTime now a =
    (is_status a.status installing || is_status a.status awaiting_restart) ≡ true
    → (now -ℤ update_handoff_timeout_seconds) ≤ℤ a.updated_at

late_row-InTime :
    (now : ℤ) (a : AttemptRecord) → is_overdue now a ≡ true → InTime now (expire_row now a)
unfolding expire_row
late_row-InTime now a late handed = absurd (cc)

kept_row-InTime : (now : ℤ) (a : AttemptRecord) → is_overdue now a ≡ false → InTime now a
kept_row-InTime now a kept handed =
    let late : ltb_ℤ a.updated_at (now -ℤ update_handoff_timeout_seconds) ≡ false =
      rw handed at kept in
    ground arith

-- The row of an attempt after an update of some rows.
pub settled :
    (q : AttemptRecord → Bool) (f : AttemptRecord → AttemptRecord)
    (R : AttemptRecord → AttemptRecord → Type 0)
    → ((a : AttemptRecord) → (f a).id ≡ a.id)
    → ((a : AttemptRecord) → q a ≡ true → R a (f a))
    → ((a : AttemptRecord) → q a ≡ false → R a a)
    → (attempts : List AttemptRecord) (id : ℕ) (a : AttemptRecord)
    → find (attempt_id_is id) attempts ≡ some a
    → (b : AttemptRecord) × (find (attempt_id_is id) (update_where q f attempts) ≡ some b) × R a b
settled q f R keeps hit miss attempts id a found =
    let row =
      find-update_same (attempt_id_is id) q f (λ x _. ap (λ k. k == id) (keeps x)) attempts in
    elim (Bool-cases (q a)) [
      | inl e ↦ (f a, row ∙ rw (found, e) refl, hit a e)
      | inr e ↦ (a, row ∙ rw (found, e) refl, miss a e)
    ]

-- The installation was started, or the restart is awaited, more than 60 minutes ago.
abbrev pub IsLate : ℤ → AttemptRecord → Type 0
IsLate now a =
    ((a.status ≡ installing) ⊎ (a.status ≡ awaiting_restart)) × (a.updated_at <ℤ (now -ℤ pos 3600))

-- What the timeout makes of an attempt.
abbrev pub Expiry : ℤ → AttemptRecord → AttemptRecord → Type 0
Expiry now a b =
    (IsLate now a
      × (b ≡ record a {
        status = failed;
        message = "更新进程启动后 60 分钟内未完成重连";
        updated_at = now;
        completed_at = some now;
      }))
    ⊎ ((¬ IsLate now a) × (b ≡ a))

is_overdue-IsLate : (now : ℤ) (a : AttemptRecord) → is_overdue now a ≡ true → IsLate now a
is_overdue-IsLate now a late =
    let handed : (is_status a.status installing || is_status a.status awaiting_restart) ≡ true =
      ground (arith, late) in
    (
      elim (Bool-cases (is_status a.status installing)) [
        | inl e ↦ inl (is_status-eq a.status installing e)
        | inr e ↦ inr (is_status-eq a.status awaiting_restart (rw e at handed))
      ],
      ground (arith, late),
    )

not_overdue : (now : ℤ) (a : AttemptRecord) → is_overdue now a ≡ false → ¬ IsLate now a
not_overdue now a kept (inl e, before) = let kept' = rw e at kept in ground (arith, before, kept')
not_overdue now a kept (inr e, before) = let kept' = rw e at kept in ground (arith, before, kept')

-- The timeout leaves no attempt whose installation was started, or whose restart is awaited, more than
-- 60 minutes ago. Each of those has failed, with the time of the check as its end, and every other
-- attempt is as it was.
pub expire_restart_attempts-InTime :
    (db : Fleet) (now : ℤ)
    → All (InTime now) (expire_restart_attempts db now).attempts
      × ((id : ℕ) (a : AttemptRecord)
          → find (attempt_id_is id) db.attempts ≡ some a
          → (b : AttemptRecord) × (find (attempt_id_is id) (expire_restart_attempts db now).attempts
              ≡ some b)
            × Expiry now a b)
unfolding expire_restart_attempts expire_row
expire_restart_attempts-InTime db now = (
  All-updated (InTime now) (is_overdue now) (expire_row now) (late_row-InTime now)
      (kept_row-InTime now) db.attempts,
  settled (is_overdue now) (expire_row now) (Expiry now) (λ _. refl)
      (λ a e. inl (is_overdue-IsLate now a e, refl)) (λ a e. inr (not_overdue now a e, refl))
      db.attempts,
)

pub upgrade-eq : (o : Operation) → is_upgrade o ≡ true → o ≡ upgrade
upgrade-eq o h = ground arith

-- An upgrade of the release that waits to be offered.
abbrev pub IsWaiting : ℕ → AttemptRecord → Type 0
IsWaiting release_id a =
    (a.release_id ≡ release_id) × (a.operation ≡ upgrade) × (a.status ≡ pending)

-- What the start of a rollback makes of an attempt.
abbrev pub Cancellation : ℕ → ℤ → AttemptRecord → AttemptRecord → Type 0
Cancellation release_id now a b =
    (IsWaiting release_id a
      × (b ≡ record a {
        status = cancelled;
        message = "版本已进入回滚流程";
        updated_at = now;
        completed_at = some now;
      }))
    ⊎ ((¬ IsWaiting release_id a) × (b ≡ a))

is_pending-IsWaiting :
    (release_id : ℕ) (a : AttemptRecord)
    → is_pending_upgrade_of release_id a ≡ true
    → IsWaiting release_id a
is_pending-IsWaiting release_id a h = (
  (==_iff a.release_id release_id).0 (ground (arith, h)),
  upgrade-eq a.operation (ground (arith, h)),
  is_status-eq a.status pending (ground (arith, h)),
)

not-IsWaiting :
    (release_id : ℕ) (a : AttemptRecord)
    → is_pending_upgrade_of release_id a ≡ false
    → ¬ IsWaiting release_id a
not-IsWaiting release_id a kept (of_release, up, waits) =
    let kept' = rw (of_release, up, waits, ==_refl release_id) at kept in cc

-- The release is rolling back, none of its upgrades waits to be offered, those that did are
-- cancelled, and every other attempt is as it was.
abbrev pub IsRollingBack : Fleet → ℕ → ℤ → Fleet → Type 0
IsRollingBack db release_id now out =
    ((r : ReleaseRow) × (find (λ x. x.id == release_id) out.releases ≡ some r)
      × (r.rollout_state ≡ rollback_active))
    × All (λ a. ¬ IsWaiting release_id a) out.attempts
    × ((id : ℕ) (a : AttemptRecord)
        → find (attempt_id_is id) db.attempts ≡ some a
        → (b : AttemptRecord) × (find (attempt_id_is id) out.attempts ≡ some b)
          × Cancellation release_id now a b)

cancelled_row :
    (release_id : ℕ) (now : ℤ) (a : AttemptRecord) → ¬ IsWaiting release_id (cancel_row now a)
cancelled_row release_id now a (_, _, waits) = cc

started-IsRollingBack :
    (db : Fleet) (release_id : ℕ) (now : ℤ) (r : ReleaseRow)
    → find (λ x. x.id == release_id) db.releases ≡ some r
    → IsRollingBack db release_id now (
        cancel_pending_upgrades
          (set_release_state db release_id rollback_active now)
          release_id
          now)
started-IsRollingBack db release_id now r found = (
  (
    set_rollout_state rollback_active now r,
    find-update_same (λ x. x.id == release_id) (λ x. x.id == release_id)
          (set_rollout_state rollback_active now) (λ _ _. refl) db.releases
        ∙ rw (found, find-holds (λ x. x.id == release_id) db.releases r found) refl,
    refl,
  ),
  All-updated (λ a. ¬ IsWaiting release_id a) (is_pending_upgrade_of release_id) (cancel_row now)
      (λ a _. cancelled_row release_id now a) (λ a kept. not-IsWaiting release_id a kept)
      db.attempts,
  settled (is_pending_upgrade_of release_id) (cancel_row now) (Cancellation release_id now)
      (λ _. refl) (λ a e. inl (is_pending-IsWaiting release_id a e, refl))
      (λ a e. inr (not-IsWaiting release_id a e, refl)) db.attempts,
)

started :
    (db : Fleet) (release_id : ℕ) (now : ℤ)
    → Ensures (IsRollingBack db release_id now) (admin_rollback_agent_release db release_id now)
unfolding admin_rollback_agent_release
started db release_id now = Ensures-bind (IsRollingBack db release_id now) _ _ (λ r read.
    Ensures-bind (IsRollingBack db release_id now) _ _ (λ _ _.
      Ensures-bind (IsRollingBack db release_id now) _ _
        (λ _ _. started-IsRollingBack db release_id now r (ok_or-some _ release_not_found r read))))

-- The rollback of a release, when it is accepted, puts the release into the rolling back state and
-- leaves none of its upgrades waiting to be offered: each that waited is cancelled, with the time as
-- its end, and every other attempt is as it was.
pub admin_rollback_agent_release-IsRollingBack :
    (db out : Fleet) (release_id : ℕ) (now : ℤ)
    → admin_rollback_agent_release db release_id now ≡ ok out
    → IsRollingBack db release_id now out
admin_rollback_agent_release-IsRollingBack db out release_id now h =
    result (IsRollingBack db release_id now) _ out (started db release_id now) h

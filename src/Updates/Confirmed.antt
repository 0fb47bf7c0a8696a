-- ===== src/Updates/Confirmed.antt =====
-- backend/src/updates.rs: what the confirmation of a version by a reconnect leaves behind.
use Prim.Native.String.{String}
use text.Mathlib.Text.{◌==◌ as str_eq}
use mathlib.Core.List.{Memᴰ}
use mathlib.Core.List.Memᴰ.{head, tail}
use operation_monitoring.Base.{
  ℕ, ◌≡◌, refl, subst, arith, Bool, true, false, ◌&&◌, some, List, [], ◌∷◌, ◌==◌, ==_iff, ==_refl,
  any, find, All, All-updated, Bool-cases, inl, inr, ◌⊎◌,
}
use operation_monitoring.Base.Int.{ℤ}
use operation_monitoring.Updates.Model.{
  Operation, upgrade, rollback, AttemptStatus, succeeded, rollback_succeeded, cancelled,
  RolloutState, rollback_active, ReleaseRow, AttemptRecord, Fleet,
}
use operation_monitoring.Updates.Status.{is_terminal, is_rolling_back}
use operation_monitoring.Updates.Attempts.{
  attempt_id_is, confirm_row, confirmed_status, confirm_update_version, is_confirmed,
}
use operation_monitoring.Updates.Transitions.{is_status-eq}
use operation_monitoring.Updates.Sound.Order.{confirmed_ends}
use operation_monitoring.Updates.Settled.{settled, upgrade-eq}

-- The attempts of an instance to the version that it runs.
abbrev pub IsOverFor : ℕ → String → AttemptRecord → Type 0
IsOverFor instance_id version a =
    ((a.instance_id == instance_id) && str_eq a.target_version version) ≡ true
    → is_terminal a.status ≡ true

-- An attempt of the instance to that version that is not over, or an upgrade that was cancelled while
-- its release is rolling back.
abbrev pub Awaits : Fleet → ℕ → String → AttemptRecord → Type 0
Awaits db instance_id version a =
    (a.instance_id ≡ instance_id)
    × (str_eq a.target_version version ≡ true)
    × ((is_terminal a.status ≡ false)
        ⊎ ((a.status ≡ cancelled)
            × (a.operation ≡ upgrade)
            × ((r : ReleaseRow) × Memᴰ r db.releases
                × (r.id ≡ a.release_id)
                × (r.rollout_state ≡ rollback_active))))

abbrev pub Succeeded : Operation → AttemptStatus → Type 0
Succeeded upgrade s = s ≡ succeeded
Succeeded rollback s = s ≡ rollback_succeeded

-- What the confirmation makes of an attempt.
abbrev pub Confirmation : Fleet → ℕ → String → ℤ → AttemptRecord → AttemptRecord → Type 0
Confirmation db instance_id version now a b =
    (Awaits db instance_id version a
      × Succeeded a.operation b.status
      × (b ≡ record a {
        status = b.status;
        message = "";
        updated_at = now;
        completed_at = some now;
      }))
    ⊎ ((¬ Awaits db instance_id version a) × (b ≡ a))

confirmed-Succeeded : (o : Operation) → Succeeded o (confirmed_status o)
confirmed-Succeeded upgrade = refl
confirmed-Succeeded rollback = refl

rolling_back-eq : (s : RolloutState) → is_rolling_back s ≡ true → s ≡ rollback_active
rolling_back-eq s h = ground arith

any-Memᴰ :
    {A : Type 0} (p : A → Bool) (xs : List A) → any p xs ≡ true → (x : A) × Memᴰ x xs × (p x ≡ true)
any-Memᴰ p [] h = absurd (cc)
any-Memᴰ p (x ∷ xs) h = elim (Bool-cases (p x)) [
  | inl e ↦ (x, head refl, e)
  | inr e ↦ let (y, m, hit) = any-Memᴰ p xs (rw e at h) in (y, tail m, hit)
]

Memᴰ-any :
    {A : Type 0} (p : A → Bool) (xs : List A) (x : A) → Memᴰ x xs → p x ≡ true → any p xs ≡ true
Memᴰ-any p [] x m h = elim m [ ]
Memᴰ-any p (y ∷ ys) x (head e) h = let hit = subst (λ z. p z ≡ true) e h in rw hit refl
Memᴰ-any p (y ∷ ys) x (tail m) h = let found = Memᴰ-any p ys x m h in ground (arith, found)

rolls_back : ℕ → ReleaseRow → Bool
rolls_back release_id r = (r.id == release_id) && is_rolling_back r.rollout_state

rolling_back_release :
    (db : Fleet) (release_id : ℕ)
    → any (rolls_back release_id) db.releases ≡ true
    → (r : ReleaseRow) × Memᴰ r db.releases
      × (r.id ≡ release_id)
      × (r.rollout_state ≡ rollback_active)
unfolding rolls_back
rolling_back_release db release_id h =
    let (r, m, hit) = any-Memᴰ (rolls_back release_id) db.releases h in
    (
      r,
      m,
      (==_iff r.id release_id).0 (ground (arith, hit)),
      rolling_back-eq r.rollout_state (ground (arith, hit)),
    )

module _ (db : Fleet) (instance_id : ℕ) (version : String) where
  is_confirmed-Awaits :
      (a : AttemptRecord)
      → is_confirmed db instance_id version a ≡ true
      → Awaits db instance_id version a
  unfolding rolls_back
  is_confirmed-Awaits a h = (
    (==_iff a.instance_id instance_id).0 (ground (arith, h)),
    ground (arith, h),
    elim (Bool-cases (is_terminal a.status)) [
      | inr on ↦ inl on
      | inl over ↦ inr (
        is_status-eq a.status cancelled (ground (arith, h, over)),
        upgrade-eq a.operation (ground (arith, h, over)),
        rolling_back_release db a.release_id (ground (arith, h, over)),
      )
    ],
  )

  Awaits-is_confirmed :
      (a : AttemptRecord)
      → Awaits db instance_id version a
      → is_confirmed db instance_id version a ≡ true
  Awaits-is_confirmed a (own, fits, inl on) = rw (own, fits, on, ==_refl instance_id) refl
  Awaits-is_confirmed a (own, fits, inr (gone, up, (r, m, id, state))) =
      let rolling =
        Memᴰ-any (λ x. (x.id == a.release_id) && is_rolling_back x.rollout_state) db.releases r m
          (rw (id, state) (ground arith)) in
      rw (own, fits, gone, up, rolling, ==_refl instance_id) refl

  not_awaiting :
      (a : AttemptRecord)
      → is_confirmed db instance_id version a ≡ false
      → ¬ Awaits db instance_id version a
  not_awaiting a kept awaits = let hit = Awaits-is_confirmed a awaits in cc

-- After the confirmation that an instance runs a version, every attempt of the instance to that
-- version is over. Each that was not over, or was an upgrade cancelled while its release is rolling
-- back, has succeeded, an upgrade with `succeeded` and a rollback with `rollback_succeeded`, with no
-- message and with the time of the confirmation as its end; every other attempt is as it was.
pub confirm_update_version-IsOverFor :
    (db : Fleet) (instance_id : ℕ) (version : String) (now : ℤ)
    → All
        (IsOverFor instance_id version)
        (confirm_update_version db instance_id version now).attempts
      × ((id : ℕ) (a : AttemptRecord)
          → find (attempt_id_is id) db.attempts ≡ some a
          → (b : AttemptRecord) × (find
                (attempt_id_is id)
                (confirm_update_version db instance_id version now).attempts
              ≡ some b)
            × Confirmation db instance_id version now a b)
unfolding confirm_update_version confirm_row
confirm_update_version-IsOverFor db instance_id version now = (
  All-updated (IsOverFor instance_id version) (is_confirmed db instance_id version)
      (confirm_row now) (λ a _ _. confirmed_ends a.operation) (λ a kept fits. ground arith)
      db.attempts,
  settled (is_confirmed db instance_id version) (confirm_row now)
      (Confirmation db instance_id version now) (λ _. refl)
      (λ a e.
        inl (is_confirmed-Awaits db instance_id version a e, confirmed-Succeeded a.operation, refl))
      (λ a e. inr (not_awaiting db instance_id version a e, refl)) db.attempts,
)

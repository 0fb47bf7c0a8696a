-- ===== src/Updates/Lifecycle.antt =====
-- backend/src/updates.rs: the life of an attempt, and what `update_status_transition_allowed` lets
-- through of it.
use operation_monitoring.Base.{
  ℕ, zero, suc, ◌+◌, ◌-◌, ◌<◌, ◌≡◌, ◌∙◌, ◌↔◌, refl, sym, subst, ap, arith, true, false, some,
  Bool-cases, inl, inr,
}
use operation_monitoring.Updates.Model.{
  AttemptStatus, pending, waiting, downloading, verifying, waiting_idle, installing,
  awaiting_restart, succeeded, rollback_succeeded, failed, cancelled, unknown,
}
use operation_monitoring.Updates.Status.{is_terminal, progress, update_status_transition_allowed}
use operation_monitoring.Updates.Transitions.{
  of_code, of_status_code, progress_code, not_before-le, is_status-eq, transitions_ordered,
}

-- The stages of an attempt, one after the other.
pub data Next : AttemptStatus → AttemptStatus → Type 0 where
  offers : Next pending waiting
  fetches : Next waiting downloading
  checks : Next downloading verifying
  idles : Next verifying waiting_idle
  installs : Next waiting_idle installing
  restarts : Next installing awaiting_restart

pub data Over : AttemptStatus → Type 0 where
  upgraded : Over succeeded
  taken_back : Over rollback_succeeded
  broken : Over failed
  dropped : Over cancelled

-- A status that is known stays, an attempt goes on stage by stage, and ends from any status that is
-- not an end.
pub data Goes : AttemptStatus → AttemptStatus → Type 0 where
  rests : (s : AttemptStatus) → (s ≡ unknown → ⊥) → Goes s s
  goes_on : (s t u : AttemptStatus) → Next s t → Goes t u → Goes s u
  ends : (s t : AttemptStatus) → (Over s → ⊥) → Over t → Goes s t

Over-terminal : (s : AttemptStatus) → Over s → is_terminal s ≡ true
Over-terminal _ upgraded = refl
Over-terminal _ taken_back = refl
Over-terminal _ broken = refl
Over-terminal _ dropped = refl

terminal-Over : (s : AttemptStatus) → is_terminal s ≡ true → Over s
terminal-Over succeeded h = upgraded
terminal-Over rollback_succeeded h = taken_back
terminal-Over failed h = broken
terminal-Over cancelled h = dropped
terminal-Over _ h = cc

open-not_terminal : (s : AttemptStatus) → (Over s → ⊥) → is_terminal s ≡ false
open-not_terminal s on = elim (Bool-cases (is_terminal s)) [
  | inl over ↦ absurd (on (terminal-Over s over))
  | inr active ↦ active
]

Next-stage : (m : ℕ) → m < 6 → Next (of_code m) (of_code (m + 1))
unfolding of_code
Next-stage zero h = offers
Next-stage (suc zero) h = fetches
Next-stage (suc (suc zero)) h = checks
Next-stage (suc (suc (suc zero))) h = idles
Next-stage (suc (suc (suc (suc zero)))) h = installs
Next-stage (suc (suc (suc (suc (suc zero))))) h = restarts
Next-stage (suc (suc (suc (suc (suc (suc m)))))) h = absurd (omega arith)

known_code : (m : ℕ) → m < 7 → of_code m ≡ unknown → ⊥
unfolding of_code
known_code m h e = ground arith

-- From one stage to one that is not before it.
stages : (k m : ℕ) → m + k < 7 → Goes (of_code m) (of_code (m + k))
stages zero m h =
    subst (λ n. Goes (of_code m) (of_code n)) (omega arith)
      (rests (of_code m) (known_code m (omega arith)))
stages (suc k) m h =
    goes_on (of_code m) (of_code (m + 1)) (of_code (m + suc k)) (Next-stage m (omega arith)) (
      subst (λ n. Goes (of_code (m + 1)) (of_code n)) (omega arith)
        (stages k (m + 1) (omega arith)))

stage_bound : (s : AttemptStatus) (m : ℕ) → progress s ≡ some m → is_terminal s ≡ false → m < 7
stage_bound s m h active = ground arith

allowed-Goes : (s t : AttemptStatus) → update_status_transition_allowed s t ≡ true → Goes s t
unfolding update_status_transition_allowed
allowed-Goes s t h = elim (Bool-cases (is_terminal s)) [
  | inl over ↦
      subst (Goes s) (is_status-eq s t (rw over at h))
        (rests s (λ e. let open_end = rw e at over in cc))
  | inr active ↦ elim (Bool-cases (is_terminal t)) [
    | inl last ↦ ends s t (λ over. let closed = Over-terminal s over in cc) (terminal-Over t last)
    | inr on ↦
        let (m, n, from, to, le) = not_before-le (progress s) (progress t) (rw (active, on) at h) in
        let bound = stage_bound t n to on in
        let here : of_code m ≡ s = ap of_code (sym (progress_code s m from)) ∙ of_status_code s in
        let there : of_code n ≡ t = ap of_code (sym (progress_code t n to)) ∙ of_status_code t in
        subst (λ x. Goes x t) here
          (subst (Goes (of_code m)) (ap of_code (omega (arith, le)) ∙ there)
            (stages (n - m) m (omega (arith, le, bound))))
  ]
]

Next-allowed : (s t : AttemptStatus) → Next s t → update_status_transition_allowed s t ≡ true
unfolding update_status_transition_allowed
Next-allowed _ _ offers = refl
Next-allowed _ _ fetches = refl
Next-allowed _ _ checks = refl
Next-allowed _ _ idles = refl
Next-allowed _ _ installs = refl
Next-allowed _ _ restarts = refl

stays-allowed :
    (s : AttemptStatus) → (s ≡ unknown → ⊥) → update_status_transition_allowed s s ≡ true
unfolding update_status_transition_allowed
stays-allowed pending h = refl
stays-allowed waiting h = refl
stays-allowed downloading h = refl
stays-allowed verifying h = refl
stays-allowed waiting_idle h = refl
stays-allowed installing h = refl
stays-allowed awaiting_restart h = refl
stays-allowed succeeded h = refl
stays-allowed rollback_succeeded h = refl
stays-allowed failed h = refl
stays-allowed cancelled h = refl
stays-allowed unknown h = absurd (h refl)

end-allowed :
    (s t : AttemptStatus) → (Over s → ⊥) → Over t → update_status_transition_allowed s t ≡ true
unfolding update_status_transition_allowed
end-allowed s t on over = rw (open-not_terminal s on, Over-terminal t over) refl

Goes-allowed : (s t : AttemptStatus) → Goes s t → update_status_transition_allowed s t ≡ true
Goes-allowed _ _ (rests s known) = stays-allowed s known
Goes-allowed _ _ (goes_on s t u step rest) =
    transitions_ordered.0 s t u (Next-allowed s t step) (Goes-allowed t u rest)
Goes-allowed _ _ (ends s t on over) = end-allowed s t on over

-- `update_status_transition_allowed` lets exactly this through: a known status that stays, the moves
-- that can be made stage by stage, from `pending` over `waiting`, `downloading`, `verifying`,
-- `waiting_idle` and `installing` to `awaiting_restart`, and any end of an attempt that has not
-- ended.
pub transition_allowed_iff :
    (s t : AttemptStatus) → (update_status_transition_allowed s t ≡ true) ↔ Goes s t
transition_allowed_iff s t = (allowed-Goes s t, Goes-allowed s t)

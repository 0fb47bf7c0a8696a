-- ===== src/Updates/Transitions.antt =====
-- backend/src/updates.rs: what an agent can do to its attempts with its reports.
use operation_monitoring.Base.{
  ℕ, ◌≤◌, ◌≡◌, ◌∙◌, ap, subst, refl, sym, arith, true, false, Option, none, some, ◌==◌, ==_iff,
  if◌then◌else◌, Bool-cases, inl, inr,
}
use mathlib.Core.Option.{some-injective}
use operation_monitoring.Updates.Model.{
  AttemptStatus, pending, waiting, downloading, verifying, waiting_idle, installing,
  awaiting_restart, succeeded, rollback_succeeded, failed, cancelled, unknown,
}
use operation_monitoring.Updates.Status.{
  status_code, is_status, is_terminal, progress, not_before, update_status_transition_allowed,
}

-- The order of the statuses: an attempt goes from one stage to a later one, or ends from any, and
-- never leaves its end.
data Ranked : AttemptStatus → AttemptStatus → Type 0 where
  stays_over : (s : AttemptStatus) → is_terminal s ≡ true → Ranked s s
  ends : (s t : AttemptStatus) → is_terminal s ≡ false → is_terminal t ≡ true → Ranked s t
  goes_on :
      (s t : AttemptStatus) (m n : ℕ)
      → is_terminal s ≡ false
      → is_terminal t ≡ false
      → progress s ≡ some m
      → progress t ≡ some n
      → m ≤ n
      → Ranked s t

unfoldable pub of_code : ℕ → AttemptStatus
of_code n =
    if n == 0
    then pending
    else if n == 1
    then waiting
    else if n == 2
    then downloading
    else if n == 3
    then verifying
    else if n == 4
    then waiting_idle
    else if n == 5
    then installing
    else if n == 6
    then awaiting_restart
    else if n == 7
    then succeeded
    else if n == 8
    then rollback_succeeded
    else if n == 9
    then failed
    else if n == 10
    then cancelled
    else unknown

pub of_status_code : (s : AttemptStatus) → of_code (status_code s) ≡ s
unfolding of_code
of_status_code pending = refl
of_status_code waiting = refl
of_status_code downloading = refl
of_status_code verifying = refl
of_status_code waiting_idle = refl
of_status_code installing = refl
of_status_code awaiting_restart = refl
of_status_code succeeded = refl
of_status_code rollback_succeeded = refl
of_status_code failed = refl
of_status_code cancelled = refl
of_status_code unknown = refl

pub is_status-eq : (s t : AttemptStatus) → is_status s t ≡ true → s ≡ t
is_status-eq s t h =
    sym (of_status_code s)
    ∙ (ap of_code ((==_iff (status_code s) (status_code t)).0 h) ∙ of_status_code t)

is_status_refl : (s : AttemptStatus) → is_status s s ≡ true
is_status_refl s = ground arith

pub not_before-le :
    (p q : Option ℕ)
    → not_before p q ≡ true
    → (m : ℕ) × (n : ℕ) × (p ≡ some m) × (q ≡ some n) × (m ≤ n)
not_before-le none q h = absurd (cc)
not_before-le (some m) none h = absurd (cc)
not_before-le (some m) (some n) h = (m, n, refl, refl, ground arith)

allowed-Ranked : (s t : AttemptStatus) → update_status_transition_allowed s t ≡ true → Ranked s t
unfolding update_status_transition_allowed
allowed-Ranked s t h = elim (Bool-cases (is_terminal s)) [
  | inl over ↦ subst (Ranked s) (is_status-eq s t (rw over at h)) (stays_over s over)
  | inr active ↦ elim (Bool-cases (is_terminal t)) [
    | inl last ↦ ends s t active last
    | inr on ↦
        let (m, n, from, to, le) = not_before-le (progress s) (progress t) (rw (active, on) at h) in
        goes_on s t m n active on from to le
  ]
]

Ranked-allowed : (s t : AttemptStatus) → Ranked s t → update_status_transition_allowed s t ≡ true
unfolding update_status_transition_allowed
Ranked-allowed _ _ (stays_over s over) = rw over (is_status_refl s)
Ranked-allowed _ _ (ends s t active last) = rw (active, last) refl
Ranked-allowed _ _ (goes_on s t m n active on from to le) = rw (active, on, from, to) (ground arith)

pub progress_code : (s : AttemptStatus) (m : ℕ) → progress s ≡ some m → status_code s ≡ m
progress_code s m h = ground arith

over_after : (t u : AttemptStatus) → Ranked t u → is_terminal t ≡ true → is_terminal u ≡ true
over_after _ _ (stays_over s over) last = over
over_after _ _ (ends s t active over) last = over
over_after _ _ (goes_on s t m n active on from to le) last = cc

further :
    (s t u : AttemptStatus) (m n : ℕ)
    → is_terminal s ≡ false
    → is_terminal t ≡ false
    → progress s ≡ some m
    → progress t ≡ some n
    → m ≤ n
    → Ranked t u
    → Ranked s u
further s _ _ m n active on from to le (stays_over t over) = absurd (cc)
further s _ _ m n active on from to le (ends t u _ over) = ends s u active over
further s _ _ m n active on from to le (goes_on t u p q _ on' from' to' le') =
    let same : n ≡ p = some-injective n p (sym to ∙ from') in
    goes_on s u m q active on' from to' (omega arith)

Ranked-trans : (s t u : AttemptStatus) → Ranked s t → Ranked t u → Ranked s u
Ranked-trans _ _ u (stays_over s over) g = g
Ranked-trans _ _ u (ends s t active over) g = ends s u active (over_after t u g over)
Ranked-trans _ _ u (goes_on s t m n active on from to le) g =
    further s t u m n active on from to le g

same_progress :
    (s t : AttemptStatus) (m n p q : ℕ)
    → progress s ≡ some m
    → progress t ≡ some n
    → m ≤ n
    → progress t ≡ some p
    → progress s ≡ some q
    → p ≤ q
    → s ≡ t
same_progress s t m n p q sm tn le tp sq le' =
    let sm' = progress_code s m sm in
    let tn' = progress_code t n tn in
    let tp' = progress_code t p tp in
    let sq' = progress_code s q sq in is_status-eq s t (ground arith)

back_again :
    (s t : AttemptStatus) (m n : ℕ)
    → is_terminal s ≡ false
    → is_terminal t ≡ false
    → progress s ≡ some m
    → progress t ≡ some n
    → m ≤ n
    → Ranked t s
    → s ≡ t
back_again _ _ m n active on from to le (stays_over t over) = refl
back_again _ _ m n active on from to le (ends t s _ over) = absurd (cc)
back_again _ _ m n active on from to le (goes_on t s p q _ _ from' to' le') =
    same_progress s t m n p q from to le from' to' le'

Ranked-both : (s t : AttemptStatus) → Ranked s t → Ranked t s → s ≡ t
Ranked-both _ _ (stays_over s over) g = refl
Ranked-both _ _ (ends s t active over) g = let last = over_after t s g over in absurd (cc)
Ranked-both _ _ (goes_on s t m n active on from to le) g = back_again s t m n active on from to le g

-- Moves that are allowed can be made in one, and none can be undone: from a status that was reached
-- from another one there is a move back only if the two are the same.
pub transitions_ordered :
    ((s t u : AttemptStatus)
      → update_status_transition_allowed s t ≡ true
      → update_status_transition_allowed t u ≡ true
      → update_status_transition_allowed s u ≡ true)
    × ((s t : AttemptStatus)
        → update_status_transition_allowed s t ≡ true
        → update_status_transition_allowed t s ≡ true
        → s ≡ t)
transitions_ordered = (
  λ s t u h k.
      Ranked-allowed s u (Ranked-trans s t u (allowed-Ranked s t h) (allowed-Ranked t u k)),
  λ s t h k. Ranked-both s t (allowed-Ranked s t h) (allowed-Ranked t s k),
)

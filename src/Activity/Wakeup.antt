-- ===== src/Activity/Wakeup.antt =====
-- instanceEnd/src/activity.rs: `wait_until_idle` returns once nothing is active.
use operation_monitoring.Base.{
  ℕ, ◌<◌, ◌≡◌, refl, true, some, List, [], ◌∷◌, arith, ◌==◌, if◌then◌else◌, get_elem?, set, count,
  count-set, Option-cases, inl, inr, All, All-map, All-set, Bool-cases, All-get_elem?,
  get_elem?-set_self, count-le-length, length-set, set-set, All-replicate, ap, ◌∙◌,
}
use operation_monitoring.Activity.{
  Notify, Phase, outside, loaded, counted, inside, refused, notifying, Tracker, Wait, looping,
  returned, checking, awaiting, is_holder, is_notifying, Action, start_draining, stop_draining,
  worker, waiter, advance, wait_until_idle, on_waiter, step, run, new, reached, usize_mod,
}
use operation_monitoring.Activity.Counting.{Inv, step-Inv, new-Inv}

module _ (n : Notify) where
  open n use {Issued, is_notified}

  -- A waiter that awaits a future either has been woken, or something is still active, or the
  -- worker that brought the count to 0 has yet to notify.
  abbrev WaiterOk : Tracker n → Wait n.Ticket → Type 0
  WaiterOk s looping = Unit
  WaiterOk s returned = Unit
  WaiterOk s (checking t) = Issued s.idle t
  WaiterOk s (awaiting t) =
      Issued s.idle t
      × (s.active ≡ 0 → count is_notifying s.workers ≡ 0 → is_notified s.idle t ≡ true)

  abbrev pub WaitersOk : Tracker n → Type 0
  WaitersOk s = All (WaiterOk s) s.waiters

  -- A step that leaves the idle signal alone, and brings the count to 0 only with a notifier left.
  WaiterOk-carry :
      (s u : Tracker n) (w : Wait n.Ticket)
      → u.idle ≡ s.idle
      → (u.active ≡ 0
          → count is_notifying u.workers ≡ 0
          → (s.active ≡ 0) × (count is_notifying s.workers ≡ 0))
      → WaiterOk s w
      → WaiterOk u w
  WaiterOk-carry s u looping e h ok = tt
  WaiterOk-carry s u returned e h ok = tt
  WaiterOk-carry s u (checking t) e h ok = rw e ok
  WaiterOk-carry s u (awaiting t) e h ok = (rw e ok.0, λ a c. rw e (ok.1 (h a c).0 (h a c).1))

  WaitersOk-carry :
      (s u : Tracker n) (ws : List (Wait n.Ticket))
      → u.idle ≡ s.idle
      → (u.active ≡ 0
          → count is_notifying u.workers ≡ 0
          → (s.active ≡ 0) × (count is_notifying s.workers ≡ 0))
      → All (WaiterOk s) ws
      → All (WaiterOk u) ws
  WaitersOk-carry s u ws e h = All-map (WaiterOk s) (WaiterOk u) (λ w. WaiterOk-carry s u w e h) ws

  -- `notify_waiters` wakes every future that has been issued.
  WaiterOk-notified :
      (s u : Tracker n)
      → u.idle ≡ n.notify_waiters s.idle
      → (w : Wait n.Ticket) → WaiterOk s w
      → WaiterOk u w
  WaiterOk-notified s u e looping ok = tt
  WaiterOk-notified s u e returned ok = tt
  WaiterOk-notified s u e (checking t) ok = rw e (n.notify_waiters-Issued s.idle t ok)
  WaiterOk-notified s u e (awaiting t) ok = (
    rw e (n.notify_waiters-Issued s.idle t ok.0),
    λ a c. rw e (n.notify_waiters_wakes s.idle t ok.0),
  )

  advance-WaitersOk :
      (s : Tracker n) (i : ℕ) (p : Phase)
      → get_elem? s.workers i ≡ some p
      → Inv n s
      → WaitersOk s
      → WaitersOk (advance n s i p)
  unfolding advance
  advance-WaitersOk s i outside e v ok =
      let p = if s.draining then outside else loaded in
      WaitersOk-carry s (advance n s i outside) s.waiters refl
        (λ a c. (a, ground (arith, count-set is_notifying s.workers i outside p e))) ok
  advance-WaitersOk s i loaded e v ok =
      WaitersOk-carry s (advance n s i loaded) s.waiters refl
        (λ a c. absurd (
          ground (
            arith,
            v.counts,
            v.few,
            length-set s.workers i counted,
            count-set is_holder s.workers i loaded counted e,
            count-le-length is_holder (set s.workers i counted),
          )))
        ok
  advance-WaitersOk s i counted e v ok =
      let p = if s.draining then refused else inside in
      WaitersOk-carry s (advance n s i counted) s.waiters refl
        (λ a c. (a, ground (arith, count-set is_notifying s.workers i counted p e))) ok
  advance-WaitersOk s i inside e v ok =
      let p = if s.active == 1 then notifying else outside in
      WaitersOk-carry s (advance n s i inside) s.waiters refl
        (λ a c. absurd (
          ground (
            arith,
            v.counts,
            v.few,
            count-set is_notifying s.workers i inside p e,
            count-set is_holder s.workers i inside p e,
            count-le-length is_holder s.workers,
          )))
        ok
  advance-WaitersOk s i refused e v ok =
      let p = if s.active == 1 then notifying else outside in
      WaitersOk-carry s (advance n s i refused) s.waiters refl
        (λ a c. absurd (
          ground (
            arith,
            v.counts,
            v.few,
            count-set is_notifying s.workers i refused p e,
            count-set is_holder s.workers i refused p e,
            count-le-length is_holder s.workers,
          )))
        ok
  advance-WaitersOk s i notifying e v ok =
      let u = advance n s i notifying in
      All-map (WaiterOk s) (WaiterOk u) (WaiterOk-notified s u refl) s.waiters ok

  wait-WaiterOk :
      (s : Tracker n) (w : Wait n.Ticket) → WaiterOk s w → WaiterOk s (wait_until_idle n s w)
  unfolding wait_until_idle
  wait-WaiterOk s looping ok = n.notified-Issued s.idle
  wait-WaiterOk s returned ok = tt
  wait-WaiterOk s (checking t) ok = elim (Bool-cases (s.active == 0)) [
    | inl h ↦ rw h tt
    | inr h ↦ rw h (ok, λ a c. absurd (ground arith))
  ]
  wait-WaiterOk s (awaiting t) ok = elim (Bool-cases (n.is_notified s.idle t)) [
    | inl h ↦ rw h tt
    | inr h ↦ rw h ok
  ]

  step-WaitersOk : (s : Tracker n) (a : Action) → Inv n s → WaitersOk s → WaitersOk (step n s a)
  unfolding step
  step-WaitersOk s start_draining v ok =
      WaitersOk-carry s (step n s start_draining) s.waiters refl (λ a c. (a, c)) ok
  step-WaitersOk s stop_draining v ok =
      WaitersOk-carry s (step n s stop_draining) s.waiters refl (λ a c. (a, c)) ok
  step-WaitersOk s (worker i) v ok = elim (Option-cases (get_elem? s.workers i)) [
    | inl e ↦ rw (e, step) ok
    | inr (p, e) ↦ rw (e, step) (advance-WaitersOk s i p e v ok)
  ]
  step-WaitersOk s (waiter j) v ok = elim (Option-cases (get_elem? s.waiters j)) [
    | inl e ↦ rw (e, step) ok
    | inr (w, e) ↦
        rw (e, step)
          (WaitersOk-carry s (on_waiter n s j (some w)) _ refl (λ a c. (a, c))
            (All-set (WaiterOk s) s.waiters j _ ok
              (wait-WaiterOk s w (All-get_elem? (WaiterOk s) s.waiters j w ok e))))
  ]

  run-WaitersOk :
      (s : Tracker n) (actions : List Action) → Inv n s → WaitersOk s → WaitersOk (run n s actions)
  unfolding run
  run-WaitersOk s [] v ok = ok
  run-WaitersOk s (a ∷ rest) v ok =
      run-WaitersOk (step n s a) rest (step-Inv n s a v) (step-WaitersOk s a v ok)

  new-WaitersOk : (idle : n.State) (k m : ℕ) → WaitersOk (new n idle k m)
  unfolding new
  new-WaitersOk idle k m = All-replicate (WaiterOk (new n idle k m)) m looping tt

  settled : Tracker n → Wait n.Ticket → Wait n.Ticket
  unfolding wait_until_idle
  settled s w = wait_until_idle n s (wait_until_idle n s (wait_until_idle n s w))

  settled_returns :
      (s : Tracker n) (w : Wait n.Ticket)
      → WaiterOk s w
      → s.active ≡ 0
      → count is_notifying s.workers ≡ 0
      → settled s w ≡ returned
  unfolding settled
  settled_returns s looping ok a c = ground arith
  settled_returns s returned ok a c = ground arith
  settled_returns s (checking t) ok a c = ground arith
  settled_returns s (awaiting t) ok a c = ground (arith, ok.1 a c)

  waiting : Tracker n → ℕ → Wait n.Ticket → Tracker n
  waiting s j w = record s { waiters = set s.waiters j w }

  wait_ignores_waiters :
      (s : Tracker n) (j : ℕ) (v w : Wait n.Ticket)
      → wait_until_idle n (waiting s j v) w ≡ wait_until_idle n s w
  unfolding waiting wait_until_idle
  wait_ignores_waiters s j v looping = refl
  wait_ignores_waiters s j v returned = refl
  wait_ignores_waiters s j v (checking t) = refl
  wait_ignores_waiters s j v (awaiting t) = refl

  step-waiter :
      (s : Tracker n) (j : ℕ) (v w : Wait n.Ticket)
      → get_elem? s.waiters j ≡ some v
      → step n (waiting s j w) (waiter j) ≡ waiting s j (wait_until_idle n s w)
  unfolding step waiting
  step-waiter s j v w e =
      rw (get_elem?-set_self s.waiters j v w e, step)
        (rw (wait_ignores_waiters s j w w)
          (ap (λ ws. record s { waiters = ws }) (set-set s.waiters j w (wait_until_idle n s w))))

  step-waiter_first :
      (s : Tracker n) (j : ℕ) (w : Wait n.Ticket)
      → get_elem? s.waiters j ≡ some w
      → step n s (waiter j) ≡ waiting s j (wait_until_idle n s w)
  unfolding step waiting
  step-waiter_first s j w e = rw (e, step)

  settled-run :
      (s : Tracker n) (j : ℕ) (w : Wait n.Ticket)
      → get_elem? s.waiters j ≡ some w
      → get_elem? (run n s (waiter j ∷ waiter j ∷ waiter j ∷ [])).waiters j ≡ some (settled s w)
  unfolding run settled waiting
  settled-run s j w e =
      let w₁ = wait_until_idle n s w in
      let w₂ = wait_until_idle n s w₁ in
      rw (step-waiter_first s j w e, step-waiter s j w w₁ e, step-waiter s j w w₂ e)
        (get_elem?-set_self s.waiters j w (wait_until_idle n s w₂) e)

  -- After any schedule of fewer than 2^64 workers: when nothing is counted as active and no worker
  -- is about to notify, three steps of a waiter take it out of `wait_until_idle`, wherever it stood
  -- in the loop. So it has missed no wakeup.
  pub wait_until_idle_returns :
      (idle : n.State) (k m : ℕ) (actions : List Action) (j : ℕ) (w : Wait n.Ticket)
      → k < usize_mod
      → get_elem? (reached n idle k m actions).waiters j ≡ some w
      → (reached n idle k m actions).active ≡ 0
      → count is_notifying (reached n idle k m actions).workers ≡ 0
      → get_elem?
          (run n (reached n idle k m actions) (waiter j ∷ waiter j ∷ waiter j ∷ [])).waiters
          j
        ≡ some returned
  wait_until_idle_returns idle k m actions j w h e a c =
      let s = reached n idle k m actions in
      let start = new-WaitersOk idle k m in
      let oks = run-WaitersOk (new n idle k m) actions (new-Inv n idle k m h) start in
      settled-run s j w e
      ∙ ap some (settled_returns s w (All-get_elem? (WaiterOk s) s.waiters j w oks e) a c)

-- ===== src/Activity/Drained.antt =====
-- instanceEnd/src/activity.rs: what an observer of `draining` with no activity left may rely on.
use operation_monitoring.Base.{
  ℕ, ◌<◌, ◌≡◌, refl, true, some, List, [], ◌∷◌, arith, ◌==◌, if◌then◌else◌, get_elem?, count,
  count-set, count_le, Option-cases, inl, inr, ◌≢◌,
}
use operation_monitoring.Activity.{
  Notify, Phase, outside, loaded, counted, inside, refused, notifying, Tracker, is_holder,
  is_inside, Action, start_draining, stop_draining, worker, waiter, advance, step, run, new,
  reached, usize_mod,
}
use operation_monitoring.Activity.Counting.{run-Inv, new-Inv}

-- Nobody stops the draining.
abbrev pub KeepsDraining : List Action → Type 0
KeepsDraining [] = Unit
KeepsDraining (a ∷ rest) = (a ≢ stop_draining) × KeepsDraining rest

-- Draining, and no worker holds a guard.
record Quiet (n : Notify) (s : Tracker n) : Type 0 where
  drains : s.draining ≡ true
  empty : count is_inside s.workers ≡ 0

module _ (n : Notify) where
  advance-Quiet :
      (s : Tracker n) (i : ℕ) (p : Phase)
      → get_elem? s.workers i ≡ some p
      → Quiet n s
      → Quiet n (advance n s i p)
  unfolding advance
  advance-Quiet s i outside e v = ground (arith, count-set is_inside s.workers i outside outside e)
  advance-Quiet s i loaded e v = ground (arith, count-set is_inside s.workers i loaded counted e)
  advance-Quiet s i counted e v = ground (arith, count-set is_inside s.workers i counted refused e)
  advance-Quiet s i inside e v = ground (
    arith,
    count-set is_inside s.workers i inside (if s.active == 1 then notifying else outside) e,
  )
  advance-Quiet s i refused e v = ground (
    arith,
    count-set is_inside s.workers i refused (if s.active == 1 then notifying else outside) e,
  )
  advance-Quiet s i notifying e v =
      ground (arith, count-set is_inside s.workers i notifying outside e)

  step-Quiet : (s : Tracker n) (a : Action) → a ≢ stop_draining → Quiet n s → Quiet n (step n s a)
  unfolding step
  step-Quiet s start_draining h v = ground arith
  step-Quiet s stop_draining h v = absurd (h refl)
  step-Quiet s (worker i) h v = elim (Option-cases (get_elem? s.workers i)) [
    | inl e ↦ rw (e, step) v
    | inr (p, e) ↦ rw (e, step) (advance-Quiet s i p e v)
  ]
  step-Quiet s (waiter j) h v = ground arith

  run-Quiet :
      (s : Tracker n) (actions : List Action)
      → KeepsDraining actions
      → Quiet n s
      → Quiet n (run n s actions)
  unfolding run
  run-Quiet s [] h v = v
  run-Quiet s (a ∷ rest) h v = run-Quiet (step n s a) rest h.1 (step-Quiet s a h.0 v)

  inside_is_holder : (p : Phase) → is_inside p ≡ true → is_holder p ≡ true
  inside_is_holder inside h = refl
  inside_is_holder outside h = cc
  inside_is_holder loaded h = cc
  inside_is_holder counted h = cc
  inside_is_holder refused h = cc
  inside_is_holder notifying h = cc

  -- Once the count is at 0 while draining, whatever fewer than 2^64 workers did before, no worker
  -- holds a guard after any further schedule that does not stop the draining; neither does one that
  -- had already passed the first test of `try_enter`.
  pub drained_stays_empty :
      (idle : n.State) (k m : ℕ) (before after : List Action)
      → k < usize_mod
      → (reached n idle k m before).draining ≡ true
      → (reached n idle k m before).active ≡ 0
      → KeepsDraining after
      → count is_inside (run n (reached n idle k m before) after).workers ≡ 0
  drained_stays_empty idle k m before after h d a keep =
      let s = reached n idle k m before in
      let v = run-Inv n (new n idle k m) before (new-Inv n idle k m h) in
      (run-Quiet s after keep (record {
        drains = d;
        empty = omega (arith, v.counts, count_le is_inside is_holder inside_is_holder s.workers);
      })).empty

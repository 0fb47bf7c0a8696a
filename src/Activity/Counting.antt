-- ===== src/Activity/Counting.antt =====
-- instanceEnd/src/activity.rs: what `active` counts, at any point of any schedule.
use operation_monitoring.Base.{
  ℕ, ◌<◌, ◌≡◌, refl, some, List, [], ◌∷◌, arith, length, ◌==◌, if◌then◌else◌, get_elem?, set, count,
  count-set, length-set, count-le-length, sym, count-replicate, length-replicate, Option-cases, inl,
  inr,
}
use operation_monitoring.Activity.{
  Notify, Phase, outside, loaded, counted, inside, refused, notifying, Tracker, usize_mod,
  is_holder, Action, start_draining, stop_draining, worker, waiter, advance, step, run, new,
  reached,
}

-- There are fewer workers than a `usize` can count.
pub record Inv (n : Notify) (s : Tracker n) : Type 0 where
  pub few : length s.workers < usize_mod
  pub counts : s.active ≡ count is_holder s.workers
  pub published : s.draining_updates ≡ s.draining

module _ (n : Notify) where
  advance-Inv :
      (s : Tracker n) (i : ℕ) (p : Phase)
      → get_elem? s.workers i ≡ some p
      → Inv n s
      → Inv n (advance n s i p)
  unfolding advance
  advance-Inv s i outside e v = ground (
    arith,
    length-set s.workers i (if s.draining then outside else loaded),
    count-set is_holder s.workers i outside (if s.draining then outside else loaded) e,
  )
  advance-Inv s i loaded e v = ground (
    arith,
    length-set s.workers i counted,
    count-set is_holder s.workers i loaded counted e,
    count-le-length is_holder (set s.workers i counted),
  )
  advance-Inv s i counted e v = ground (
    arith,
    length-set s.workers i (if s.draining then refused else inside),
    count-set is_holder s.workers i counted (if s.draining then refused else inside) e,
  )
  advance-Inv s i inside e v = ground (
    arith,
    length-set s.workers i (if s.active == 1 then notifying else outside),
    count-set is_holder s.workers i inside (if s.active == 1 then notifying else outside) e,
    count-le-length is_holder s.workers,
  )
  advance-Inv s i refused e v = ground (
    arith,
    length-set s.workers i (if s.active == 1 then notifying else outside),
    count-set is_holder s.workers i refused (if s.active == 1 then notifying else outside) e,
    count-le-length is_holder s.workers,
  )
  advance-Inv s i notifying e v =
      ground
        (arith, length-set s.workers i outside, count-set is_holder s.workers i notifying outside e)

  pub step-Inv : (s : Tracker n) (a : Action) → Inv n s → Inv n (step n s a)
  unfolding step
  step-Inv s start_draining v = ground arith
  step-Inv s stop_draining v = ground arith
  step-Inv s (worker i) v = elim (Option-cases (get_elem? s.workers i)) [
    | inl e ↦ rw (e, step) v
    | inr (p, e) ↦ rw (e, step) (advance-Inv s i p e v)
  ]
  step-Inv s (waiter j) v = ground arith

  pub run-Inv : (s : Tracker n) (actions : List Action) → Inv n s → Inv n (run n s actions)
  unfolding run
  run-Inv s [] v = v
  run-Inv s (a ∷ rest) v = run-Inv (step n s a) rest (step-Inv s a v)

  pub new-Inv : (idle : n.State) (k m : ℕ) → k < usize_mod → Inv n (new n idle k m)
  unfolding new
  new-Inv idle k m h = record {
    few = omega (arith, length-replicate k outside);
    counts = sym (count-replicate is_holder k outside refl);
    published = refl;
  }

  -- After any schedule of fewer than 2^64 workers, `active` is the number of workers that have
  -- incremented it and not yet decremented it, and the watch channel shows the value of `draining`.
  pub active_counts_holders :
      (idle : n.State) (k m : ℕ) (actions : List Action)
      → k < usize_mod
      → ((reached n idle k m actions).active ≡ count is_holder (reached n idle k m actions).workers)
        × ((reached n idle k m actions).draining_updates ≡ (reached n idle k m actions).draining)
  active_counts_holders idle k m actions h =
      let v = run-Inv (new n idle k m) actions (new-Inv idle k m h) in (v.counts, v.published)

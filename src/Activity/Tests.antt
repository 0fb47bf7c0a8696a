-- ===== src/Activity/Tests.antt =====
-- instanceEnd/src/activity.rs: one tracker at work.
use operation_monitoring.Base.{
  ℕ, suc, ◌≤◌, ◌≡◌, refl, List, [], ◌∷◌, some, ltb, arith, count, get_elem?, lt→ltb, ◌≢◌,
}
use operation_monitoring.Activity.{
  Notify, Action, start_draining, stop_draining, worker, waiter, run, step, reached, new, is_holder,
  is_inside, awaiting, returned,
}
use operation_monitoring.Activity.Counting.{active_counts_holders}
use operation_monitoring.Activity.Drained.{drained_stays_empty}
use operation_monitoring.Activity.Wakeup.{wait_until_idle_returns}

-- A signal that counts its notifications: a future is the count at which it was made.
abbrev counter : Notify
counter = record {
  State = ℕ;
  Ticket = ℕ;
  notified = λ s. s;
  notify_waiters = λ s. suc s;
  is_notified = λ s t. ltb t s;
  Issued = λ s t. t ≤ s;
  notified-Issued = λ s. omega arith;
  notify_waiters-Issued = λ s t h. omega (arith, h);
  notify_waiters_wakes = λ s t h. lt→ltb t (suc s) (omega (arith, h));
}

-- Worker 0 gets a guard, worker 1 passes the first test, and waiter 0 begins to wait.
abbrev busy : List Action
busy = worker 0 ∷ worker 0 ∷ worker 0 ∷ worker 1 ∷ waiter 0 ∷ waiter 0 ∷ start_draining ∷ []

-- Worker 0 leaves and notifies.
abbrev drained : List Action
drained =
    worker 0
    ∷ worker 0
    ∷ worker 0
    ∷ worker 1
    ∷ waiter 0
    ∷ waiter 0
    ∷ start_draining
    ∷ worker 0
    ∷ worker 0
    ∷ []

worker_keeps : (i : ℕ) → worker i ≢ stop_draining
worker_keeps i e = cc

active_counts_holders_example :
    ((reached counter 0 2 1 busy).active ≡ count is_holder (reached counter 0 2 1 busy).workers)
    × ((reached counter 0 2 1 busy).draining_updates ≡ (reached counter 0 2 1 busy).draining)
active_counts_holders_example = active_counts_holders counter 0 2 1 busy (omega arith)

drained_stays_empty_example :
    count is_inside
      (run counter (reached counter 0 2 1 drained) (worker 1 ∷ worker 1 ∷ worker 0 ∷ [])).workers
    ≡ 0
unfolding run step new
drained_stays_empty_example =
    drained_stays_empty counter 0 2 1 drained (worker 1 ∷ worker 1 ∷ worker 0 ∷ []) (omega arith)
      refl refl (worker_keeps 1, (worker_keeps 1, (worker_keeps 0, tt)))

wait_until_idle_returns_example :
    get_elem?
      (run counter (reached counter 0 2 1 drained) (waiter 0 ∷ waiter 0 ∷ waiter 0 ∷ [])).waiters
      0
    ≡ some returned
unfolding run step new
wait_until_idle_returns_example =
    wait_until_idle_returns counter 0 2 1 drained 0 (awaiting 0) (omega arith) refl refl refl

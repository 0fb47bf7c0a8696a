-- ===== src/Activity.antt =====
-- instanceEnd/src/activity.rs: the tracker of running activities that the updater drains.
-- The atomics of `ActivityState` are shared by any number of workers, each of which enters by
-- `try_enter` and leaves by dropping its guard, and by waiters in `wait_until_idle`. Each atomic
-- access (SeqCst) is a step of its own, and a schedule is a list of such steps in any order.
-- tokio's `Notify` is not part of the repository: the record `Notify` is what the code uses of it.
pub mod Counting
pub mod Drained
pub mod Wakeup
pub mod Tests
use operation_monitoring.Base.{
  ℕ, suc, ◌+◌, ◌-◌, ◌%◌, ◌≡◌, Bool, true, false, Option, none, some, List, [], ◌∷◌, ◌==◌,
  if◌then◌else◌, get_elem?, set, replicate,
}

-- `tokio::sync::Notify`, as documented: a future made by `notified()` is woken by every later
-- `notify_waiters()`, and stays woken.
pub record Notify : Type 1 where
  pub State : Type 0
  pub Ticket : Type 0
  pub notified : State → Ticket
  pub notify_waiters : State → State
  pub is_notified : State → Ticket → Bool
  pub Issued : State → Ticket → Type 0
  pub notified-Issued : (s : State) → Issued s (notified s)
  pub notify_waiters-Issued : (s : State) (t : Ticket) → Issued s t → Issued (notify_waiters s) t
  pub notify_waiters_wakes :
      (s : State) (t : Ticket) → Issued s t → is_notified (notify_waiters s) t ≡ true

-- Where a worker stands in `try_enter` and `ActivityGuard::drop`.
pub data Phase : Type 0 where
  outside loaded counted inside refused notifying : Phase

-- Where a waiter stands in the loop of `wait_until_idle`.
pub data Wait (T : Type 0) : Type 0 where
  looping returned : Wait T
  checking awaiting : T → Wait T

-- The fields of `ActivityState`; `active` is a `usize` and wraps.
pub record ActivityState (N T : Type 0) : Type 0 where
  pub active : ℕ
  pub draining : Bool
  pub draining_updates : Bool
  pub idle : N
  pub workers : List Phase
  pub waiters : List (Wait T)

abbrev pub usize_mod : ℕ
usize_mod = 18446744073709551616

-- A worker that is counted in `active`: it has incremented it and not yet decremented it.
abbrev pub is_holder : Phase → Bool
is_holder counted = true
is_holder inside = true
is_holder refused = true
is_holder _ = false

-- A worker that holds a guard.
abbrev pub is_inside : Phase → Bool
is_inside inside = true
is_inside _ = false

-- A worker that has brought `active` to 0 and has not yet called `notify_waiters`.
abbrev pub is_notifying : Phase → Bool
is_notifying notifying = true
is_notifying _ = false

pub data Action : Type 0 where
  start_draining stop_draining : Action
  worker : ℕ → Action
  waiter : ℕ → Action

module _ (n : Notify) where
  abbrev pub Tracker : Type 0
  Tracker = ActivityState n.State n.Ticket

  move : Tracker → ℕ → Phase → Tracker
  move s i p = record s { workers = set s.workers i p }

  -- The `fetch_sub` of `leave`: the worker that saw 1 goes on to notify.
  leave : Tracker → ℕ → Tracker
  unfolding move
  leave s i =
      move (record s { active = (s.active + usize_mod - 1) % usize_mod }) i
        (if s.active == 1 then notifying else outside)

  -- The next atomic access of worker `i`, which starts `try_enter` whenever it is outside.
  advance : Tracker → ℕ → Phase → Tracker
  unfolding move leave
  advance s i outside = move s i (if s.draining then outside else loaded)
  advance s i loaded = move (record s { active = (s.active + 1) % usize_mod }) i counted
  advance s i counted = move s i (if s.draining then refused else inside)
  advance s i inside = leave s i
  advance s i refused = leave s i
  advance s i notifying = move (record s { idle = n.notify_waiters s.idle }) i outside

  -- The next access of a waiter: take a future, look at the count, await the future.
  wait_until_idle : Tracker → Wait n.Ticket → Wait n.Ticket
  wait_until_idle s looping = checking (n.notified s.idle)
  wait_until_idle s returned = returned
  wait_until_idle s (checking t) = if s.active == 0 then returned else awaiting t
  wait_until_idle s (awaiting t) = if n.is_notified s.idle t then looping else awaiting t

  same_flag : Bool → Bool → Bool
  same_flag true b = b
  same_flag false true = false
  same_flag false false = true

  -- The closure of `send_if_modified` runs under the channel's lock.
  set_draining : Tracker → Bool → Tracker
  unfolding same_flag
  set_draining s d = record s {
    draining = d;
    draining_updates = if same_flag s.draining_updates d then s.draining_updates else d;
  }

  on_worker : Tracker → ℕ → Option Phase → Tracker
  unfolding advance
  on_worker s i none = s
  on_worker s i (some p) = advance s i p

  on_waiter : Tracker → ℕ → Option (Wait n.Ticket) → Tracker
  unfolding wait_until_idle
  on_waiter s j none = s
  on_waiter s j (some w) = record s { waiters = set s.waiters j (wait_until_idle s w) }

  -- One step of a schedule.
  pub step : Tracker → Action → Tracker
  unfolding set_draining on_worker on_waiter
  step s start_draining = set_draining s true
  step s stop_draining = set_draining s false
  step s (worker i) = on_worker s i (get_elem? s.workers i)
  step s (waiter j) = on_waiter s j (get_elem? s.waiters j)

  pub run : Tracker → List Action → Tracker
  run s [] = s
  run s (a ∷ rest) = run (step s a) rest

  -- `ActivityTracker::default()`, with the workers and waiters that will use it.
  pub new : n.State → ℕ → ℕ → Tracker
  new idle k m = record {
    active = 0;
    draining = false;
    draining_updates = false;
    idle = idle;
    workers = replicate k outside;
    waiters = replicate m looping;
  }

  -- The tracker after a schedule.
  abbrev pub reached : n.State → ℕ → ℕ → List Action → Tracker
  reached idle k m actions = run (new idle k m) actions

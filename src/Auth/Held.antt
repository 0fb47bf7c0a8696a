-- ===== src/Auth/Held.antt =====
-- backend/src/admin_auth.rs: a key that its failures have blocked.
use operation_monitoring.Base.{
  ℕ, ◌+◌, ◌≡◌, ◌≤◌, ◌<◌, refl, arith, false, true, none, some, List, [], ◌∷◌, not, ◌==◌, find,
  find-holds, any_of_find, length, All,
}
use operation_monitoring.Base.Int.{ℤ, pos, ◌≤ℤ◌, ◌<ℤ◌, ◌+ℤ◌, ltb_ℤ}
use operation_monitoring.Auth.Limiter.{
  AuthAttempt, key_is, is_kept, is_blocked, prune_auth_attempts, ensure_attempt_allowed_in,
  record_auth_failure_in, clear_auth_failures, AuthEvent, checks, fails, succeeds, auth_event,
  auth_events,
}
use operation_monitoring.Auth.Blocking.{
  InWindow, own_failures, own_le, find-retain, count_failure-other, recorded-unlimited, not_cleared,
  sooner, both, held_after, auth_events-Counts, first_failure,
}

-- Before a time, and nothing that is recorded for the key: neither a failure nor a success.
abbrev pub LeavesAlone : ℕ → ℤ → AuthEvent → Type 0
LeavesAlone key until (checks k now) = now <ℤ until
LeavesAlone key until (fails k now) = ((k == key) ≡ false) × (now <ℤ until)
LeavesAlone key until (succeeds k) = (k == key) ≡ false

module _ (key : ℕ) (until : ℤ) where
  -- The entry of the key blocks it up to that time.
  abbrev IsHeld : List AuthAttempt → Type 0
  IsHeld attempts =
      (a : AuthAttempt) × (find (key_is key) attempts ≡ some a) × (a.blocked_until ≡ until)

  pruned-IsHeld :
      (attempts : List AuthAttempt) (now : ℤ)
      → now <ℤ until
      → IsHeld attempts
      → IsHeld (prune_auth_attempts attempts now)
  unfolding prune_auth_attempts
  pruned-IsHeld attempts now soon (a, found, held) =
      let blocked : ltb_ℤ now a.blocked_until ≡ true = rw held (sooner now until soon) in
      (a, find-retain (key_is key) (is_kept now) attempts a found (rw blocked refl), held)

  auth_event-IsHeld :
      (attempts : List AuthAttempt) (e : AuthEvent)
      → LeavesAlone key until e
      → IsHeld attempts
      → IsHeld (auth_event none attempts e)
  unfolding auth_event ensure_attempt_allowed_in clear_auth_failures
  auth_event-IsHeld attempts (checks k now) soon held = pruned-IsHeld attempts now soon held
  auth_event-IsHeld attempts (fails k now) (other, soon) held =
      let (a, found, blocked) = pruned-IsHeld attempts now soon held in
      (
        a,
        rw (recorded-unlimited attempts k now)
            (count_failure-other key k now (prune_auth_attempts attempts now) a other found),
        blocked,
      )
  auth_event-IsHeld attempts (succeeds k) other (a, found, blocked) = (
    a,
    find-retain (key_is key) (λ x. not (key_is k x)) attempts a found
        (not_cleared key k a other (find-holds (key_is key) attempts a found)),
    blocked,
  )

  auth_events-IsHeld :
      (events : List AuthEvent) (attempts : List AuthAttempt)
      → All (LeavesAlone key until) events
      → IsHeld attempts
      → IsHeld (auth_events none attempts events)
  unfolding auth_events
  auth_events-IsHeld [] attempts h held = held
  auth_events-IsHeld (e ∷ rest) attempts h held =
      auth_events-IsHeld rest (auth_event none attempts e) h.1
        (auth_event-IsHeld attempts e h.0 held)

  held_refused :
      (attempts : List AuthAttempt) (now : ℤ)
      → now <ℤ until
      → IsHeld attempts
      → (ensure_attempt_allowed_in attempts key now).1 ≡ false
  unfolding ensure_attempt_allowed_in
  held_refused attempts now soon held =
      let (a, kept, blocked) = pruned-IsHeld attempts now soon held in
      let late : ltb_ℤ now a.blocked_until ≡ true = rw blocked (sooner now until soon) in
      let own = find-holds (key_is key) (prune_auth_attempts attempts now) a kept in
      rw
        (any_of_find (key_is key) (is_blocked key now) (prune_auth_attempts attempts now) a kept
          (both own late))
        refl

-- From a map with no limit and no entry for a key: when a failure of the key is recorded, and at least
-- three more in the five minutes that follow, with no success, whatever is recorded for other keys
-- meanwhile and with fewer than 4294967290 events in all, a further failure in those five minutes
-- blocks the key. Up to five minutes after that failure the limiter refuses the key whenever it is
-- asked, whatever it was asked and whatever was recorded for other keys in between, as long as
-- nothing more is recorded for the key itself, neither a failure nor a success.
pub five_failures_block :
    (key : ℕ) (began t now : ℤ) (attempts : List AuthAttempt) (events later : List AuthEvent)
    → pos 0 <ℤ began
    → find (key_is key) attempts ≡ none
    → All (InWindow key began) events
    → length events < 4294967290
    → 3 ≤ own_failures key events
    → t ≤ℤ (began +ℤ pos 300)
    → All (LeavesAlone key (t +ℤ pos 300)) later
    → now <ℤ (t +ℤ pos 300)
    → (ensure_attempt_allowed_in
        (auth_events none
          (record_auth_failure_in
            (auth_events none (record_auth_failure_in attempts key began none) events)
            key
            t
            none)
          later)
        key
        now).1
      ≡ false
five_failures_block key began t now attempts events later started absent h few three late alone
      soon =
    let counts =
      auth_events-Counts key began started events 1 (record_auth_failure_in attempts key began none)
        h (omega arith) (first_failure key began started attempts absent) in
    let held =
      held_after key began started _ (1 + own_failures key events) t counts (omega arith)
        (omega (arith, own_le key began started events)) late in
    held_refused key (t +ℤ pos 300) _ now soon
      (auth_events-IsHeld key (t +ℤ pos 300) later _ alone held)

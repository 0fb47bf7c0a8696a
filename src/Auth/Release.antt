-- ===== src/Auth/Release.antt =====
-- backend/src/admin_auth.rs: a block ends.
use operation_monitoring.Base.{
  ℕ, ◌+◌, ◌%◌, ◌≡◌, refl, arith, true, false, ◌&&◌, ◌||◌, not, Option, none, some, List, [], ◌∷◌,
  leb, if-holds, any, retain, All, All-retain, All-update, All-append, Bool-cases, inl, inr,
}
use operation_monitoring.Base.Int.{ℤ, pos, ◌+ℤ◌, ◌-ℤ◌, ◌≤ℤ◌, leb_ℤ, eq_ℤ}
use operation_monitoring.Auth.Limiter.{
  AuthAttempt, key_is, is_kept, is_blocked, prune_auth_attempts, ensure_attempt_allowed_in,
  oldest_unblocked, is_map_full, without, make_room, failed_attempt, default_attempt, count_failure,
  count_in, record_auth_failure_locked, record_auth_failure_in, clear_auth_failures, AuthEvent,
  checks, fails, succeeds, auth_event, auth_events,
}

-- No entry is blocked for longer than `until`.
abbrev pub FreeBy : ℤ → List AuthAttempt → Type 0
FreeBy until = All (λ a. a.blocked_until ≤ℤ until)

-- The last failure is at `last` at the latest.
abbrev pub FailsBy : ℤ → AuthEvent → Type 0
FailsBy last (checks k t) = Unit
FailsBy last (fails k t) = t ≤ℤ last
FailsBy last (succeeds k) = Unit

module _ (last : ℤ) (positive : pos 0 ≤ℤ (last +ℤ pos 300)) where
  later_block : (t : ℤ) → t ≤ℤ last → (t +ℤ pos 300) ≤ℤ (last +ℤ pos 300)
  unfolding ◌+ℤ◌
  later_block t h = ground arith

  failed_attempt-free :
      (t : ℤ) (a : AuthAttempt)
      → t ≤ℤ last
      → a.blocked_until ≤ℤ (last +ℤ pos 300)
      → (failed_attempt t a).blocked_until ≤ℤ (last +ℤ pos 300)
  unfolding failed_attempt
  failed_attempt-free t a h free =
      elim (Bool-cases
        (eq_ℤ a.window_started_at (pos 0) || not (leb_ℤ (t -ℤ a.window_started_at) (pos 300)))) [
          | inl e ↦ rw e positive
          | inr e ↦ rw e (
              if-holds (λ b. b ≤ℤ (last +ℤ pos 300)) (leb 5 ((a.failures + 1) % 4294967296)) _ _
                (λ _. later_block t h) (λ _. free))
        ]

  count_in-FreeBy :
      (key : ℕ) (t : ℤ) (attempts : List AuthAttempt) (room : Option (List AuthAttempt))
      → t ≤ℤ last
      → FreeBy (last +ℤ pos 300) attempts
      → FreeBy (last +ℤ pos 300) (count_failure key t attempts)
  count_in-FreeBy key t attempts room h free =
      if-holds (FreeBy (last +ℤ pos 300)) (any (key_is key) attempts) _ _
        (λ _.
          All-update (λ a. a.blocked_until ≤ℤ (last +ℤ pos 300)) (key_is key) (failed_attempt t)
            (λ a f. failed_attempt-free t a h f) attempts free)
        (λ _.
          All-append (λ a. a.blocked_until ≤ℤ (last +ℤ pos 300)) attempts
            (failed_attempt t (default_attempt key) ∷ []) free
            (failed_attempt-free t (default_attempt key) h positive, tt))

  without-FreeBy :
      (key : ℕ) (t : ℤ) (attempts : List AuthAttempt) (o : Option AuthAttempt)
      → t ≤ℤ last
      → FreeBy (last +ℤ pos 300) attempts
      → FreeBy (last +ℤ pos 300) (count_in key t attempts (without attempts o))
  without-FreeBy key t attempts none h free = free
  without-FreeBy key t attempts (some a) h free = count_in-FreeBy key t _ none h (
      All-retain (λ b. b.blocked_until ≤ℤ (last +ℤ pos 300)) (λ b. not (key_is a.key b)) attempts
        free)

  auth_event-FreeBy :
      (max_keys : Option ℕ) (attempts : List AuthAttempt) (e : AuthEvent)
      → FailsBy last e
      → FreeBy (last +ℤ pos 300) attempts
      → FreeBy (last +ℤ pos 300) (auth_event max_keys attempts e)
  unfolding auth_event ensure_attempt_allowed_in record_auth_failure_in clear_auth_failures
      prune_auth_attempts record_auth_failure_locked make_room
  auth_event-FreeBy max_keys attempts (checks k t) h free =
      All-retain (λ b. b.blocked_until ≤ℤ (last +ℤ pos 300)) (is_kept t) attempts free
  auth_event-FreeBy max_keys attempts (fails k t) h free =
      let kept = All-retain (λ b. b.blocked_until ≤ℤ (last +ℤ pos 300)) (is_kept t) attempts free in
      if-holds (λ room. FreeBy (last +ℤ pos 300) (count_in k t (retain (is_kept t) attempts) room))
        (not (any (key_is k) (retain (is_kept t) attempts))
          && is_map_full (retain (is_kept t) attempts) max_keys)
        _ _
        (λ _.
          without-FreeBy k t (retain (is_kept t) attempts)
            (oldest_unblocked (retain (is_kept t) attempts) t) h kept)
        (λ _. count_in-FreeBy k t (retain (is_kept t) attempts) none h kept)
  auth_event-FreeBy max_keys attempts (succeeds k) h free =
      All-retain (λ b. b.blocked_until ≤ℤ (last +ℤ pos 300)) (λ b. not (key_is k b)) attempts free

  auth_events-FreeBy :
      (max_keys : Option ℕ) (attempts : List AuthAttempt) (events : List AuthEvent)
      → All (FailsBy last) events
      → FreeBy (last +ℤ pos 300) attempts
      → FreeBy (last +ℤ pos 300) (auth_events max_keys attempts events)
  unfolding auth_events
  auth_events-FreeBy max_keys attempts [] h free = free
  auth_events-FreeBy max_keys attempts (e ∷ rest) h free =
      auth_events-FreeBy max_keys (auth_event max_keys attempts e) rest h.1
        (auth_event-FreeBy max_keys attempts e h.0 free)

none_blocked :
    (key : ℕ) (now until : ℤ) (attempts : List AuthAttempt)
    → until ≤ℤ now
    → FreeBy until attempts
    → any (is_blocked key now) attempts ≡ false
none_blocked key now until [] h free = refl
none_blocked key now until (a ∷ rest) h free =
    ground (arith, none_blocked key now until rest h free.1)

-- When no failure came after `last`, every attempt from five minutes after it on is allowed, whatever
-- its key and whatever came before, starting from an empty map with or without a limit.
pub blocks_end :
    (max_keys : Option ℕ) (events : List AuthEvent) (key : ℕ) (last now : ℤ)
    → pos 0 ≤ℤ (last +ℤ pos 300)
    → All (FailsBy last) events
    → (last +ℤ pos 300) ≤ℤ now
    → (ensure_attempt_allowed_in (auth_events max_keys [] events) key now).1 ≡ true
unfolding ensure_attempt_allowed_in prune_auth_attempts
blocks_end max_keys events key last now positive h later =
    let free =
      All-retain (λ b. b.blocked_until ≤ℤ (last +ℤ pos 300)) (is_kept now)
        (auth_events max_keys [] events)
        (auth_events-FreeBy last positive max_keys [] events h tt) in
    rw (none_blocked key now (last +ℤ pos 300) _ later free) refl

-- ===== src/Auth/Bounded.antt =====
-- backend/src/admin_auth.rs: the map of sources does not grow past its limit.
use operation_monitoring.Base.{
  ℕ, ◌+◌, ◌≤◌, ◌≡◌, refl, arith, Bool, false, ◌&&◌, not, Option, none, some, List, [], ◌∷◌, leb,
  if-holds, any, retain, update_where, length, length-append, length-retain_le, count, All, All-map,
  All-retain, All-first_by, Bool-cases, inl, inr,
}
use operation_monitoring.Base.Int.{ℤ, leb_ℤ}
use operation_monitoring.Auth.Limiter.{
  AuthAttempt, key_is, prune_auth_attempts, ensure_attempt_allowed_in, oldest_unblocked,
  started_earlier, without, make_room, failed_attempt, default_attempt, count_failure, count_in,
  record_auth_failure_locked, record_auth_failure_in, clear_auth_failures, AuthEvent, checks, fails,
  succeeds, auth_event, auth_events, is_kept,
}

module _ {ℓ} {A : Type ℓ} where
  length-update :
      (q : A → Bool) (f : A → A) (xs : List A) → length (update_where q f xs) ≡ length xs
  length-update q f [] = refl
  length-update q f (x ∷ xs) = omega (arith, length-update q f xs)

  length-without :
      (q : A → Bool) (xs : List A) → length (retain (λ x. not (q x)) xs) + count q xs ≡ length xs
  length-without q [] = refl
  length-without q (x ∷ xs) = ground (arith, length-without q xs)

counts_itself :
    (attempts : List AuthAttempt) → All (λ a. 1 ≤ count (key_is a.key) attempts) attempts
counts_itself [] = tt
counts_itself (a ∷ rest) = (
  ground arith,
  All-map (λ b. 1 ≤ count (key_is b.key) rest) (λ b. 1 ≤ count (key_is b.key) (a ∷ rest))
      (λ b h. ground arith) rest (counts_itself rest),
)

-- The entry that makes room is in the map.
less_without :
    (attempts : List AuthAttempt) (now : ℤ) (a : AuthAttempt)
    → oldest_unblocked attempts now ≡ some a
    → length (retain (λ b. not (key_is a.key b)) attempts) + 1 ≤ length attempts
less_without attempts now a found =
    let here =
      All-first_by (λ b. 1 ≤ count (key_is b.key) attempts) started_earlier
        (retain (λ b. leb_ℤ b.blocked_until now) attempts) a
        (All-retain (λ b. 1 ≤ count (key_is b.key) attempts) (λ b. leb_ℤ b.blocked_until now)
          attempts (counts_itself attempts))
        found in
    omega (arith, length-without (key_is a.key) attempts, here)

count_failure-le :
    (key : ℕ) (now : ℤ) (attempts : List AuthAttempt)
    → length (count_failure key now attempts) ≤ length attempts + 1
count_failure-le key now attempts =
    if-holds (λ xs. length xs ≤ length attempts + 1) (any (key_is key) attempts) _ _
      (λ _. omega (arith, length-update (key_is key) (failed_attempt now) attempts))
      (λ _. omega (arith, length-append attempts (failed_attempt now (default_attempt key) ∷ [])))

-- Room was made: with one entry less, or none at all.
room_made :
    (limit : ℕ) (key : ℕ) (now : ℤ) (attempts : List AuthAttempt) (o : Option AuthAttempt)
    → oldest_unblocked attempts now ≡ o
    → length attempts ≤ limit
    → length (count_in key now attempts (without attempts o)) ≤ limit
room_made limit key now attempts none found h = h
room_made limit key now attempts (some a) found h = omega (
  arith,
  count_failure-le key now (retain (λ b. not (key_is a.key b)) attempts),
  less_without attempts now a found,
)

known_or_roomy :
    (limit : ℕ) (key : ℕ) (now : ℤ) (attempts : List AuthAttempt)
    → (not (any (key_is key) attempts) && leb limit (length attempts)) ≡ false
    → length attempts ≤ limit
    → length (count_failure key now attempts) ≤ limit
known_or_roomy limit key now attempts e h = elim (Bool-cases (any (key_is key) attempts)) [
  | inl known ↦ rw known (omega (arith, length-update (key_is key) (failed_attempt now) attempts))
  | inr new ↦
      let e' = rw new at e in
      rw new
        (ground (arith, length-append attempts (failed_attempt now (default_attempt key) ∷ [])))
]

recorded_le :
    (limit : ℕ) (key : ℕ) (now : ℤ) (attempts : List AuthAttempt)
    → length attempts ≤ limit
    → length (record_auth_failure_locked attempts key now (some limit)) ≤ limit
unfolding record_auth_failure_locked make_room
recorded_le limit key now attempts h =
    if-holds (λ room. length (count_in key now attempts room) ≤ limit)
      (not (any (key_is key) attempts) && leb limit (length attempts)) _ _
      (λ _. room_made limit key now attempts (oldest_unblocked attempts now) refl h)
      (λ e. known_or_roomy limit key now attempts e h)

auth_event-le :
    (limit : ℕ) (attempts : List AuthAttempt) (e : AuthEvent)
    → length attempts ≤ limit
    → length (auth_event (some limit) attempts e) ≤ limit
unfolding auth_event ensure_attempt_allowed_in record_auth_failure_in clear_auth_failures
    prune_auth_attempts
auth_event-le limit attempts (checks key now) h =
    omega (arith, length-retain_le (λ a. is_kept now a) attempts, h)
auth_event-le limit attempts (fails key now) h =
    recorded_le limit key now (prune_auth_attempts attempts now)
      (omega (arith, length-retain_le (λ a. is_kept now a) attempts, h))
auth_event-le limit attempts (succeeds key) h =
    omega (arith, length-retain_le (λ a. not (key_is key a)) attempts, h)

-- Whatever attempts come, in any order and at any times, a map with a limit that started within the
-- limit never holds more entries than that.
pub auth_events-bounded :
    (limit : ℕ) (attempts : List AuthAttempt) (events : List AuthEvent)
    → length attempts ≤ limit
    → length (auth_events (some limit) attempts events) ≤ limit
unfolding auth_events
auth_events-bounded limit attempts [] h = h
auth_events-bounded limit attempts (e ∷ rest) h =
    auth_events-bounded limit (auth_event (some limit) attempts e) rest
      (auth_event-le limit attempts e h)

-- ===== src/Auth/Limiter.antt =====
-- backend/src/admin_auth.rs: the limit on failed attempts (`ensure_attempt_allowed_in`,
-- `record_auth_failure_in`, `clear_source_auth_failures`, `prune_auth_attempts`), and `AuthAttempt`
-- of backend/src/state.rs. A map is the list of its entries; each function holds the map's lock.
use operation_monitoring.Base.{
  ℕ, ◌+◌, ◌%◌, Bool, false, ◌&&◌, ◌||◌, not, Option, none, some, List, [], ◌∷◌, ◌++◌, ◌==◌, leb,
  if◌then◌else◌, any, retain, update_where, first_by, length,
}
use operation_monitoring.Base.Int.{ℤ, pos, leb_ℤ, ltb_ℤ, eq_ℤ, ◌+ℤ◌, ◌-ℤ◌}

abbrev pub auth_failure_limit : ℕ
auth_failure_limit = 5

abbrev pub auth_window_seconds : ℤ
auth_window_seconds = pos 300

abbrev pub auth_block_seconds : ℤ
auth_block_seconds = pos 300

-- An entry of the map, with its key. `failures` is a `u32`.
pub record AuthAttempt : Type 0 where
  pub key : ℕ
  pub failures : ℕ
  pub window_started_at : ℤ
  pub blocked_until : ℤ

abbrev pub key_is : ℕ → AuthAttempt → Bool
key_is key a = a.key == key

abbrev pub is_kept : ℤ → AuthAttempt → Bool
is_kept now a = ltb_ℤ now a.blocked_until || leb_ℤ (now -ℤ a.window_started_at) auth_window_seconds

unfoldable pub prune_auth_attempts : List AuthAttempt → ℤ → List AuthAttempt
unfolding ◌-ℤ◌
prune_auth_attempts attempts now = retain (is_kept now) attempts

abbrev pub is_blocked : ℕ → ℤ → AuthAttempt → Bool
is_blocked key now a = key_is key a && ltb_ℤ now a.blocked_until

-- The map, and whether the attempt may go on.
unfoldable pub ensure_attempt_allowed_in : List AuthAttempt → ℕ → ℤ → List AuthAttempt × Bool
unfolding prune_auth_attempts
ensure_attempt_allowed_in attempts key now =
    let kept = prune_auth_attempts attempts now in (kept, not (any (is_blocked key now) kept))

abbrev pub started_earlier : AuthAttempt → AuthAttempt → Bool
started_earlier a b = ltb_ℤ a.window_started_at b.window_started_at

abbrev pub oldest_unblocked : List AuthAttempt → ℤ → Option AuthAttempt
oldest_unblocked attempts now =
    first_by started_earlier (retain (λ a. leb_ℤ a.blocked_until now) attempts)

abbrev pub is_map_full : List AuthAttempt → Option ℕ → Bool
is_map_full attempts none = false
is_map_full attempts (some limit) = leb limit (length attempts)

abbrev pub without : List AuthAttempt → Option AuthAttempt → Option (List AuthAttempt)
without attempts none = none
without attempts (some oldest) = some (retain (λ a. not (key_is oldest.key a)) attempts)

-- The map with room for the key, or nothing when every entry is blocked.
unfoldable pub make_room : List AuthAttempt → ℕ → ℤ → Option ℕ → Option (List AuthAttempt)
make_room attempts key now max_keys =
    if not (any (key_is key) attempts) && is_map_full attempts max_keys
    then without attempts (oldest_unblocked attempts now)
    else some attempts

abbrev in_window : ℤ → AuthAttempt → AuthAttempt
in_window now a =
    if eq_ℤ a.window_started_at (pos 0)
      || not (leb_ℤ (now -ℤ a.window_started_at) auth_window_seconds)
    then record a { failures = 0; window_started_at = now; blocked_until = pos 0 }
    else a

abbrev count_one : ℤ → AuthAttempt → AuthAttempt
count_one now a =
    let failures = (a.failures + 1) % 4294967296 in
    record a {
      failures = failures;
      blocked_until =
          if leb auth_failure_limit failures then now +ℤ auth_block_seconds else a.blocked_until;
    }

unfoldable pub failed_attempt : ℤ → AuthAttempt → AuthAttempt
unfolding ◌-ℤ◌ ◌+ℤ◌
failed_attempt now a = count_one now (in_window now a)

abbrev pub default_attempt : ℕ → AuthAttempt
default_attempt key = record {
  key = key;
  failures = 0;
  window_started_at = pos 0;
  blocked_until = pos 0;
}

abbrev pub count_failure : ℕ → ℤ → List AuthAttempt → List AuthAttempt
count_failure key now attempts =
    if any (key_is key) attempts
    then update_where (key_is key) (failed_attempt now) attempts
    else attempts ++ failed_attempt now (default_attempt key) ∷ []

abbrev pub count_in : ℕ → ℤ → List AuthAttempt → Option (List AuthAttempt) → List AuthAttempt
count_in key now attempts none = attempts
count_in key now attempts (some room) = count_failure key now room

unfoldable pub record_auth_failure_locked : List AuthAttempt → ℕ → ℤ → Option ℕ → List AuthAttempt
unfolding make_room failed_attempt
record_auth_failure_locked attempts key now max_keys =
    count_in key now attempts (make_room attempts key now max_keys)

unfoldable pub record_auth_failure_in : List AuthAttempt → ℕ → ℤ → Option ℕ → List AuthAttempt
unfolding prune_auth_attempts record_auth_failure_locked
record_auth_failure_in attempts key now max_keys =
    record_auth_failure_locked (prune_auth_attempts attempts now) key now max_keys

unfoldable pub clear_auth_failures : List AuthAttempt → ℕ → List AuthAttempt
clear_auth_failures attempts key = retain (λ a. not (key_is key a)) attempts

-- What the handlers do with one map, in the order in which they take its lock.
pub data AuthEvent : Type 0 where
  checks : ℕ → ℤ → AuthEvent
  fails : ℕ → ℤ → AuthEvent
  succeeds : ℕ → AuthEvent

unfoldable pub auth_event : Option ℕ → List AuthAttempt → AuthEvent → List AuthAttempt
unfolding ensure_attempt_allowed_in record_auth_failure_in clear_auth_failures
auth_event max_keys attempts (checks key now) = (ensure_attempt_allowed_in attempts key now).0
auth_event max_keys attempts (fails key now) = record_auth_failure_in attempts key now max_keys
auth_event max_keys attempts (succeeds key) = clear_auth_failures attempts key

unfoldable pub auth_events : Option ℕ → List AuthAttempt → List AuthEvent → List AuthAttempt
unfolding auth_event
auth_events max_keys attempts [] = attempts
auth_events max_keys attempts (e ∷ rest) =
    auth_events max_keys (auth_event max_keys attempts e) rest

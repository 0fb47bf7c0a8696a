-- ===== src/Auth/Tests.antt =====
-- backend/src/admin_auth.rs: an account that fails five times in a minute, and one other.
use operation_monitoring.Base.{
  ◌≤◌, ◌≡◌, refl, Option, true, false, none, some, [], ◌∷◌, List, arith, length,
}
use operation_monitoring.Base.Int.{pos, ◌+ℤ◌}
use operation_monitoring.Auth.Limiter.{
  AuthEvent, checks, fails, succeeds, ensure_attempt_allowed_in, record_auth_failure_in,
  auth_events,
}
use operation_monitoring.Auth.Bounded.{auth_events-bounded}
use Prim.Native.String.{String}
use text.Mathlib.Text.{◌==◌ as str_eq}
use operation_monitoring.Auth.Proxy.{
  Addresses, is_trusted_proxy, walk_parts, walk_values, resolved_client_ip,
}
use operation_monitoring.Auth.Hops.{left_values_ignored, opaque_left_value_hides_client}
use operation_monitoring.Auth.Release.{blocks_end}
use operation_monitoring.Auth.Held.{five_failures_block}

abbrev wrong_passwords : List AuthEvent
wrong_passwords =
    fails 1 (pos 1010)
    ∷ fails 2 (pos 1015)
    ∷ fails 1 (pos 1020)
    ∷ succeeds 2
    ∷ fails 1 (pos 1030)
    ∷ []

abbrev meanwhile : List AuthEvent
meanwhile = checks 1 (pos 1100) ∷ fails 2 (pos 1200) ∷ succeeds 2 ∷ checks 2 (pos 1300) ∷ []

five_failures_block_example :
    (ensure_attempt_allowed_in
      (auth_events none
        (record_auth_failure_in
          (auth_events none (record_auth_failure_in [] 1 (pos 1000) none) wrong_passwords)
          1
          (pos 1040)
          none)
        meanwhile)
      1
      (pos 1339)).1
    ≡ false
unfolding ◌+ℤ◌
five_failures_block_example =
    five_failures_block 1 (pos 1000) (pos 1040) (pos 1339) [] wrong_passwords meanwhile
      (omega arith) refl (omega arith, (omega arith, (omega arith, (refl, (omega arith, tt)))))
      (omega arith) (omega arith) (omega arith)
      (omega arith, ((refl, omega arith), (refl, (omega arith, tt)))) (omega arith)

auth_events-bounded_example : length (auth_events (some 1) [] wrong_passwords) ≤ 1
auth_events-bounded_example = auth_events-bounded 1 [] wrong_passwords (omega arith)

blocks_end_example :
    (ensure_attempt_allowed_in (auth_events (some 1) [] wrong_passwords) 1 (pos 1330)).1 ≡ true
unfolding ◌+ℤ◌
blocks_end_example =
    blocks_end (some 1) wrong_passwords 1 (pos 1030) (pos 1330) (omega arith)
      (omega arith, (omega arith, (omega arith, (tt, (omega arith, tt))))) (omega arith)

-- Addresses are texts; a header value is a text of one part, or none.
abbrev names : Addresses
names = record {
  Ip = String;
  Network = String;
  HeaderValue = Option String;
  contains = λ n ip. str_eq n ip;
  to_str = λ value. value;
  rsplit_commas = λ text. text ∷ [];
  trim = λ text. text;
  parse_ip = λ text. some text;
}

abbrev forged : List (Option String)
forged = some "forged" ∷ []

abbrev honest : List (Option String)
honest = some "client" ∷ []

left_values_ignored_example :
    resolved_client_ip names true
      ("proxy" ∷ [])
      (record { x_forwarded_for = some "forged" ∷ some "client" ∷ []; x_real_ip = [] })
      "proxy"
    ≡ resolved_client_ip names true
        ("proxy" ∷ [])
        (record { x_forwarded_for = honest; x_real_ip = [] })
        "proxy"
unfolding walk_values walk_parts is_trusted_proxy
left_values_ignored_example =
    left_values_ignored names ("proxy" ∷ []) true "proxy" honest forged [] (refl, refl)
      (("forged", "forged", [], refl, refl), tt)

opaque_left_value_hides_client_example :
    resolved_client_ip names true
      ("proxy" ∷ [])
      (record { x_forwarded_for = none ∷ some "client" ∷ []; x_real_ip = [] })
      "proxy"
    ≡ "proxy"
unfolding walk_values walk_parts is_trusted_proxy
opaque_left_value_hides_client_example =
    opaque_left_value_hides_client names ("proxy" ∷ []) "proxy" "client" true none honest [] [] refl
      refl

-- ===== src/Auth/Blocking.antt =====
-- backend/src/admin_auth.rs: five failures within five minutes block a key for five minutes.
use mathlib.Core.Option.{some-injective}
use operation_monitoring.Base.{
  ℕ, ◌+◌, ◌%◌, ◌≤◌, ◌<◌, ◌≡◌, ◌∙◌, refl, sym, ap, subst, arith, Bool, true, false, ◌&&◌, ◌||◌, not,
  none, some, List, [], ◌∷◌, ◌==◌, ==_iff, ==_refl, leb, if◌then◌else◌, if-holds, any, find, retain,
  length, All, Bool-cases, inl, inr, find-holds, find-append, find-update_same, any_of_find,
  any_of_count, count_of_find-none,
}
use operation_monitoring.Base.Int.{ℤ, pos, ◌+ℤ◌, ◌-ℤ◌, ◌≤ℤ◌, ◌<ℤ◌, leb_ℤ, ltb_ℤ, eq_ℤ}
use operation_monitoring.Auth.Limiter.{
  AuthAttempt, key_is, is_kept, prune_auth_attempts, ensure_attempt_allowed_in, make_room,
  failed_attempt, default_attempt, count_failure, count_in, record_auth_failure_locked,
  record_auth_failure_in, clear_auth_failures, AuthEvent, checks, fails, succeeds, auth_event,
  auth_events, auth_failure_limit,
}

pub find-retain :
    {A : Type 0} (p q : A → Bool) (xs : List A) (e : A)
    → find p xs ≡ some e
    → q e ≡ true
    → find p (retain q xs) ≡ some e
find-retain p q [] e h k = cc
find-retain p q (x ∷ xs) e h k = elim (Bool-cases (p x)) [
  | inl hit ↦
      let same = some-injective x e (rw hit at h) in
      rw (subst (λ y. q y ≡ true) (sym same) k) (rw hit (ap some same))
  | inr miss ↦
      let found = find-retain p q xs e (rw miss at h) k in
      if-holds (λ ys. find p ys ≡ some e) (q x) _ _ (λ _. rw miss found) (λ _. found)
]

find-retain-none :
    {A : Type 0} (p q : A → Bool) (xs : List A) → find p xs ≡ none → find p (retain q xs) ≡ none
find-retain-none p q [] h = refl
find-retain-none p q (x ∷ xs) h = ground (arith, find-retain-none p q xs)

-- The entry of the key: when its window began, and the failures in it.
abbrev pub Counts : ℕ → ℤ → ℕ → List AuthAttempt → Type 0
Counts key began n attempts =
    (a : AuthAttempt) × (find (key_is key) attempts ≡ some a)
    × (a.window_started_at ≡ began)
    × (a.failures ≡ n)

-- Up to five minutes after the beginning, and no success for the key.
abbrev pub InWindow : ℕ → ℤ → AuthEvent → Type 0
InWindow key began (checks k t) = t ≤ℤ (began +ℤ pos 300)
InWindow key began (fails k t) = t ≤ℤ (began +ℤ pos 300)
InWindow key began (succeeds k) = (k == key) ≡ false

abbrev pub own_failures : ℕ → List AuthEvent → ℕ
own_failures key [] = 0
own_failures key (checks k t ∷ rest) = own_failures key rest
own_failures key (fails k t ∷ rest) = (if k == key then 1 else 0) + own_failures key rest
own_failures key (succeeds k ∷ rest) = own_failures key rest

within : (now began : ℤ) → now ≤ℤ (began +ℤ pos 300) → leb_ℤ (now -ℤ began) (pos 300) ≡ true
unfolding ◌+ℤ◌ ◌-ℤ◌
within now began h = ground arith

pruned-Counts :
    (key : ℕ) (began : ℤ) (n : ℕ) (attempts : List AuthAttempt) (now : ℤ)
    → now ≤ℤ (began +ℤ pos 300)
    → Counts key began n attempts
    → Counts key began n (prune_auth_attempts attempts now)
unfolding prune_auth_attempts
pruned-Counts key began n attempts now h (a, found, start, failures) =
    let fresh : leb_ℤ (now -ℤ a.window_started_at) (pos 300) ≡ true =
      rw start (within now began h) in
    (a, find-retain (key_is key) (is_kept now) attempts a found (ground arith), start, failures)

lt→leb : (n : ℕ) → 4 ≤ n → leb auth_failure_limit (n + 1) ≡ true
lt→leb n h = ground arith

-- One more failure within the window.
failed_attempt-within :
    (now : ℤ) (a : AuthAttempt)
    → eq_ℤ a.window_started_at (pos 0) ≡ false
    → leb_ℤ (now -ℤ a.window_started_at) (pos 300) ≡ true
    → a.failures + 1 < 4294967296
    → ((failed_attempt now a).window_started_at ≡ a.window_started_at)
      × ((failed_attempt now a).failures ≡ a.failures + 1)
      × (4 ≤ a.failures → (failed_attempt now a).blocked_until ≡ now +ℤ pos 300)
unfolding failed_attempt
failed_attempt-within now a started fresh few =
    let small : (a.failures + 1) % 4294967296 ≡ a.failures + 1 = omega arith in
    rw (started, fresh, small) (refl, refl, λ four. rw (lt→leb a.failures four) refl)

same_key : (key : ℕ) (now : ℤ) (a : AuthAttempt) → key_is key (failed_attempt now a) ≡ key_is key a
unfolding failed_attempt
same_key key now a =
    elim (Bool-cases
      (eq_ℤ a.window_started_at (pos 0) || not (leb_ℤ (now -ℤ a.window_started_at) (pos 300)))) [
        | inl e ↦ rw e refl
        | inr e ↦ rw e refl
      ]

-- The entry that is counted on is the one of the key.
count_failure-own :
    (key : ℕ) (now : ℤ) (attempts : List AuthAttempt) (a : AuthAttempt)
    → find (key_is key) attempts ≡ some a
    → find (key_is key) (count_failure key now attempts) ≡ some (failed_attempt now a)
count_failure-own key now attempts a found =
    let known =
      any_of_find (key_is key) (key_is key) attempts a found
        (find-holds (key_is key) attempts a found) in
    rw known (
      find-update_same (key_is key) (key_is key) (failed_attempt now) (λ x _. same_key key now x)
        attempts
      ∙ rw (found, find-holds (key_is key) attempts a found) refl)

not_updated :
    (key other : ℕ) (now : ℤ) (a : AuthAttempt)
    → (other == key) ≡ false
    → key_is key a ≡ true
    → (if key_is other a then failed_attempt now a else a) ≡ a
not_updated key other now a differs own =
    let elsewhere : key_is other a ≡ false = ground arith in rw elsewhere refl

never : (b : Bool) → (not b && false) ≡ true → ⊥
never true e = cc
never false e = cc

pub count_failure-other :
    (key other : ℕ) (now : ℤ) (attempts : List AuthAttempt) (a : AuthAttempt)
    → (other == key) ≡ false
    → find (key_is key) attempts ≡ some a
    → find (key_is key) (count_failure other now attempts) ≡ some a
count_failure-other key other now attempts a differs found =
    if-holds (λ xs. find (key_is key) xs ≡ some a) (any (key_is other) attempts) _ _
      (λ _.
        find-update_same (key_is key) (key_is other) (failed_attempt now)
          (λ x _. same_key key now x) attempts
        ∙ rw found (
            ap some
              (not_updated key other now a differs (find-holds (key_is key) attempts a found))))
      (λ _.
        find-append (key_is key) attempts (failed_attempt now (default_attempt other) ∷ [])
        ∙ rw found refl)

pub recorded-unlimited :
    (attempts : List AuthAttempt) (key : ℕ) (now : ℤ)
    → record_auth_failure_in attempts key now none
      ≡ count_failure key now (prune_auth_attempts attempts now)
unfolding record_auth_failure_in record_auth_failure_locked make_room
recorded-unlimited attempts key now =
    if-holds
      (λ room.
        count_in key now (prune_auth_attempts attempts now) room
        ≡ count_failure key now (prune_auth_attempts attempts now))
      (not (any (key_is key) (prune_auth_attempts attempts now)) && false) _ _
      (λ e. absurd (never (any (key_is key) (prune_auth_attempts attempts now)) e)) (λ _. refl)

pub not_cleared :
    (key other : ℕ) (a : AuthAttempt)
    → (other == key) ≡ false
    → key_is key a ≡ true
    → not (key_is other a) ≡ true
not_cleared key other a differs own = ground arith

sum_zero : (n : ℕ) → n + 0 ≡ n
sum_zero n = omega arith

pub sooner : (a b : ℤ) → a <ℤ b → ltb_ℤ a b ≡ true
sooner a b h = ground arith

pub both : {a b : Bool} → a ≡ true → b ≡ true → (a && b) ≡ true
both h k = rw (h, k) refl

module _ (key : ℕ) (began : ℤ) (started : pos 0 <ℤ began) where
  not_zero : (w : ℤ) → w ≡ began → eq_ℤ w (pos 0) ≡ false
  not_zero w e = rw e (ground arith)

  fails_own :
      (n : ℕ) (attempts : List AuthAttempt) (now : ℤ)
      → now ≤ℤ (began +ℤ pos 300)
      → n + 1 < 4294967296
      → Counts key began n attempts
      → Counts key began (n + 1) (record_auth_failure_in attempts key now none)
  fails_own n attempts now h few counts =
      let (a, found, start, failures) = pruned-Counts key began n attempts now h counts in
      let fresh : leb_ℤ (now -ℤ a.window_started_at) (pos 300) ≡ true =
        rw start (within now began h) in
      let (window, more, _) =
        failed_attempt-within now a (not_zero a.window_started_at start) fresh (rw failures few) in
      (
        failed_attempt now a,
        rw (recorded-unlimited attempts key now)
            (count_failure-own key now (prune_auth_attempts attempts now) a found),
        window ∙ start,
        more ∙ ap (λ m. m + 1) failures,
      )

  auth_event-Counts :
      (n : ℕ) (attempts : List AuthAttempt) (e : AuthEvent)
      → InWindow key began e
      → n + 1 < 4294967296
      → Counts key began n attempts
      → Counts key began (n + own_failures key (e ∷ [])) (auth_event none attempts e)
  unfolding auth_event ensure_attempt_allowed_in clear_auth_failures
  auth_event-Counts n attempts (checks k t) h few counts =
      rw (sum_zero n) (pruned-Counts key began n attempts t h counts)
  auth_event-Counts n attempts (fails k t) h few counts = elim (Bool-cases (k == key)) [
    | inl hit ↦ rw hit (
        subst (λ x. Counts key began (n + 1) (record_auth_failure_in attempts x t none))
          (sym ((==_iff k key).0 hit)) (fails_own n attempts t h few counts))
    | inr miss ↦
        let (a, found, start, failures) = pruned-Counts key began n attempts t h counts in
        rw miss (
          a,
          rw (recorded-unlimited attempts k t)
              (count_failure-other key k t (prune_auth_attempts attempts t) a miss found),
          start,
          failures ∙ sym (sum_zero n),
        )
  ]
  auth_event-Counts n attempts (succeeds k) h few (a, found, start, failures) = rw (sum_zero n) (
    a,
    find-retain (key_is key) (λ x. not (key_is k x)) attempts a found
        (not_cleared key k a h (find-holds (key_is key) attempts a found)),
    start,
    failures,
  )

  own_one : (e : AuthEvent) → own_failures key (e ∷ []) ≤ 1
  own_one (checks k t) = omega arith
  own_one (fails k t) = ground arith
  own_one (succeeds k) = omega arith

  own_cons :
      (e : AuthEvent) (rest : List AuthEvent)
      → own_failures key (e ∷ rest) ≡ own_failures key (e ∷ []) + own_failures key rest
  own_cons (checks k t) rest = omega arith
  own_cons (fails k t) rest = omega arith
  own_cons (succeeds k) rest = omega arith

  pub auth_events-Counts :
      (events : List AuthEvent) (n : ℕ) (attempts : List AuthAttempt)
      → All (InWindow key began) events
      → n + length events < 4294967296
      → Counts key began n attempts
      → Counts key began (n + own_failures key events) (auth_events none attempts events)
  unfolding auth_events
  auth_events-Counts [] n attempts h few counts = rw (sum_zero n) counts
  auth_events-Counts (e ∷ rest) n attempts h few counts =
      let next = auth_event-Counts n attempts e h.0 (omega arith) counts in
      let sum : n + own_failures key (e ∷ []) + own_failures key rest
          ≡ n + own_failures key (e ∷ rest) =
        omega (arith, own_cons e rest) in
      subst (λ m. Counts key began m (auth_events none (auth_event none attempts e) rest)) sum
        (auth_events-Counts rest (n + own_failures key (e ∷ [])) (auth_event none attempts e) h.1
          (omega (arith, own_one e)) next)

  pub own_le : (events : List AuthEvent) → own_failures key events ≤ length events
  own_le [] = omega arith
  own_le (e ∷ rest) = omega (arith, own_cons e rest, own_one e, own_le rest)

  pruned_none :
      (attempts : List AuthAttempt)
      → find (key_is key) attempts ≡ none
      → find (key_is key) (prune_auth_attempts attempts began) ≡ none
  unfolding prune_auth_attempts
  pruned_none attempts absent = find-retain-none (key_is key) (is_kept began) attempts absent

  fresh_row :
      ((failed_attempt began (default_attempt key)).window_started_at ≡ began)
      × ((failed_attempt began (default_attempt key)).failures ≡ 1)
  unfolding failed_attempt
  fresh_row = (refl, refl)

  -- The failure that blocks the key.
  pub held_after :
      (attempts : List AuthAttempt) (n : ℕ) (t : ℤ)
      → Counts key began n attempts
      → 4 ≤ n
      → n + 1 < 4294967296
      → t ≤ℤ (began +ℤ pos 300)
      → (a : AuthAttempt) × (find (key_is key) (record_auth_failure_in attempts key t none)
          ≡ some a)
        × (a.blocked_until ≡ t +ℤ pos 300)
  held_after attempts n t counts four few h =
      let (a, found, start, failures) = pruned-Counts key began n attempts t h counts in
      let fresh : leb_ℤ (t -ℤ a.window_started_at) (pos 300) ≡ true = rw start (within t began h) in
      let (window, more, block) =
        failed_attempt-within t a (not_zero a.window_started_at start) fresh (rw failures few) in
      (
        failed_attempt t a,
        rw (recorded-unlimited attempts key t)
            (count_failure-own key t (prune_auth_attempts attempts t) a found),
        block (rw failures four),
      )

  pub first_failure :
      (attempts : List AuthAttempt)
      → find (key_is key) attempts ≡ none
      → Counts key began 1 (record_auth_failure_in attempts key began none)
  first_failure attempts absent =
      let kept = pruned_none attempts absent in
      let new =
        any_of_count (key_is key) (prune_auth_attempts attempts began)
          (count_of_find-none (key_is key) (prune_auth_attempts attempts began) kept) in
      (
        failed_attempt began (default_attempt key),
        rw (recorded-unlimited attempts key began) (
            rw new (
              find-append (key_is key) (prune_auth_attempts attempts began)
                (failed_attempt began (default_attempt key) ∷ [])
              ∙ rw (kept, same_key key began (default_attempt key), ==_refl key) refl)),
        fresh_row.0,
        fresh_row.1,
      )

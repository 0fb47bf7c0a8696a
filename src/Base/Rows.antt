-- ===== src/Base/Rows.antt =====
-- Laws of queries over the rows of a table: counts and searches after an update or an insertion.
use Prim.Native.Nat.{ℕ, ◌≤◌}
use mathlib.Core.Path.{◌≡◌, ◌∙◌, refl, sym, ap, subst}
use mathlib.Core.Bool.{Bool, true, false, not, ◌&&◌}
use mathlib.Core.Option.{Option, none, some, some-injective}
use mathlib.Core.Logic.{inl, inr, ◌⊎◌}
use mathlib.Core.List.{List, [], ◌∷◌, ◌++◌}
use native.Mathlib.Omega.{arith}
use operation_monitoring.Base.Tests.{if◌then◌else◌, if-holds, Bool-cases, ◌==◌}
use operation_monitoring.Base.Lists.{
  count, find, first_by, pick, any, update_where, retain, All, All-map,
}

module _ {ℓ} {A : Type ℓ} where
  -- An update that brings no row under the test.
  pub count-update_le :
      (p q : A → Bool) (f : A → A)
      → ((x : A) → q x ≡ true → p (f x) ≡ true → p x ≡ true)
      → (xs : List A) → count p (update_where q f xs) ≤ count p xs
  count-update_le p q f h [] = omega arith
  count-update_le p q f h (x ∷ xs) = ground (arith, h x, count-update_le p q f h xs)

  pub count-update_same :
      (p q : A → Bool) (f : A → A)
      → ((x : A) → q x ≡ true → p (f x) ≡ p x)
      → (xs : List A) → count p (update_where q f xs) ≡ count p xs
  count-update_same p q f h [] = refl
  count-update_same p q f h (x ∷ xs) = ground (arith, h x, count-update_same p q f h xs)

  -- An update that takes every row out of its test.
  pub count-update_all :
      (p : A → Bool) (f : A → A)
      → ((x : A) → p x ≡ true → p (f x) ≡ false)
      → (xs : List A) → count p (update_where p f xs) ≡ 0
  count-update_all p f h [] = refl
  count-update_all p f h (x ∷ xs) = ground (arith, h x, count-update_all p f h xs)

  pub update_none :
      (q : A → Bool) (f : A → A) (xs : List A) → count q xs ≡ 0 → update_where q f xs ≡ xs
  update_none q f [] h = refl
  update_none q f (x ∷ xs) h = ground (arith, update_none q f xs)

  pub count-update_found :
      (p q : A → Bool) (f : A → A) (xs : List A) (e : A)
      → find q xs ≡ some e
      → count q xs ≤ 1
      → p (f e) ≡ p e
      → count p (update_where q f xs) ≡ count p xs
  count-update_found p q f [] e h u s = cc
  count-update_found p q f (x ∷ xs) e h u s =
      ground (arith, update_none q f xs, count-update_found p q f xs e)

  pub find-none_of_count : (p : A → Bool) (xs : List A) → count p xs ≡ 0 → find p xs ≡ none
  find-none_of_count p [] h = refl
  find-none_of_count p (x ∷ xs) h = ground (arith, find-none_of_count p xs)

  pub count_of_find-none : (p : A → Bool) (xs : List A) → find p xs ≡ none → count p xs ≡ 0
  count_of_find-none p [] h = refl
  count_of_find-none p (x ∷ xs) h = ground (arith, count_of_find-none p xs)

  pub count_of_any-false : (p : A → Bool) (xs : List A) → any p xs ≡ false → count p xs ≡ 0
  count_of_any-false p [] h = refl
  count_of_any-false p (x ∷ xs) h = ground (arith, count_of_any-false p xs)

  pub find_of_any : (p : A → Bool) (xs : List A) → any p xs ≡ true → (x : A) × (find p xs ≡ some x)
  find_of_any p [] h = cc
  find_of_any p (x ∷ xs) h = elim (Bool-cases (p x)) [
    | inl e ↦ (x, rw e)
    | inr e ↦ let (y, found) = find_of_any p xs (rw e at h) in (y, rw e found)
  ]

  pub any_of_find :
      (p q : A → Bool) (xs : List A) (e : A) → find p xs ≡ some e → q e ≡ true → any q xs ≡ true
  any_of_find p q [] e h k = cc
  any_of_find p q (x ∷ xs) e h k = ground (arith, any_of_find p q xs e)

  pub any_of_count : (p : A → Bool) (xs : List A) → count p xs ≡ 0 → any p xs ≡ false
  any_of_count p [] h = refl
  any_of_count p (x ∷ xs) h = ground (arith, any_of_count p xs)

  pub find-holds : (p : A → Bool) (xs : List A) (e : A) → find p xs ≡ some e → p e ≡ true
  find-holds p [] e h = cc
  find-holds p (x ∷ xs) e h = ground (arith, find-holds p xs e)

  pub find-append :
      (p : A → Bool) (xs ys : List A)
      → find p (xs ++ ys) ≡ (elim (find p xs) [ none ↦ find p ys | some x ↦ some x ])
  find-append p [] ys = refl
  find-append p (x ∷ xs) ys = ground (arith, find-append p xs ys)

  -- An update that keeps the test finds the updated row.
  pub find-update_same :
      (p q : A → Bool) (f : A → A)
      → ((x : A) → q x ≡ true → p (f x) ≡ p x)
      → (xs : List A)
      → find p (update_where q f xs)
        ≡ (elim (find p xs) [ none ↦ none | some x ↦ some (if q x then f x else x) ])
  find-update_same p q f h [] = refl
  find-update_same p q f h (x ∷ xs) = ground (arith, h x, find-update_same p q f h xs)

  pub All-update {κ} :
      (P : A → Type κ) (q : A → Bool) (f : A → A)
      → ((x : A) → P x → P (f x))
      → (xs : List A) → All P xs
      → All P (update_where q f xs)
  All-update P q f h [] a = tt
  All-update P q f h (x ∷ xs) a = ground (arith, h x a.0, All-update P q f h xs a.1)

  -- The same, where the update may use the test.
  pub All-update_under {κ} :
      (P : A → Type κ) (q : A → Bool) (f : A → A)
      → ((x : A) → q x ≡ true → P x → P (f x))
      → (xs : List A) → All P xs
      → All P (update_where q f xs)
  All-update_under P q f h [] a = tt
  All-update_under P q f h (x ∷ xs) a =
      let rest = All-update_under P q f h xs a.1 in
      elim (Bool-cases (q x)) [
        | inl hit ↦ rw hit (h x hit a.0, rest)
        | inr miss ↦ rw miss (a.0, rest)
      ]

  pub All-append {κ} : (P : A → Type κ) (xs ys : List A) → All P xs → All P ys → All P (xs ++ ys)
  All-append P [] ys a b = b
  All-append P (x ∷ xs) ys a b = (a.0, All-append P xs ys a.1 b)

  pub count-retain_le : (p q : A → Bool) (xs : List A) → count p (retain q xs) ≤ count p xs
  count-retain_le p q [] = omega arith
  count-retain_le p q (x ∷ xs) = ground (arith, count-retain_le p q xs)

  pick_cases :
      (precedes : A → A → Bool) (x e : A) (o : Option A)
      → pick precedes x o ≡ some e
      → (x ≡ e) ⊎ (o ≡ some e)
  pick_cases precedes x e none h = inl (some-injective x e h)
  pick_cases precedes x e (some y) h = elim (Bool-cases (precedes y x)) [
    | inl lt ↦ inr (rw lt at h)
    | inr ge ↦ inl (some-injective x e (rw ge at h))
  ]

  pub All-first_by {κ} :
      (P : A → Type κ) (precedes : A → A → Bool) (xs : List A) (e : A)
      → All P xs
      → first_by precedes xs ≡ some e
      → P e
  All-first_by P precedes [] e a h = absurd (cc)
  All-first_by P precedes (x ∷ xs) e a h = elim (pick_cases precedes x e (first_by precedes xs) h) [
    | inl head ↦ subst P head a.0
    | inr found ↦ All-first_by P precedes xs e a.1 found
  ]

  pub retain-All : (p : A → Bool) (xs : List A) → All (λ x. p x ≡ true) (retain p xs)
  retain-All p [] = tt
  retain-All p (x ∷ xs) = ground (arith, retain-All p xs)

  pub count_pos_of_find : (p : A → Bool) (xs : List A) (e : A) → find p xs ≡ some e → 1 ≤ count p xs
  count_pos_of_find p [] e h = cc
  count_pos_of_find p (x ∷ xs) e h = ground (arith, count_pos_of_find p xs e)

  -- Under a primary key every row is the one found under its key.
  pub find_self :
      (id : A → ℕ) (xs : List A)
      → ((k : ℕ) → count (λ x. id x == k) xs ≤ 1)
      → All (λ x. find (λ y. id y == id x) xs ≡ some x) xs
  find_self id [] h = tt
  find_self id (x ∷ xs) h = (
    ground arith,
    All-map (λ y. find (λ z. id z == id y) xs ≡ some y) _
        (λ y e. ground (arith, e, h (id y), count_pos_of_find (λ z. id z == id y) xs y e)) xs
        (find_self id xs (λ k. ground (arith, h k))),
  )

  -- The one row under a test, replaced.
  pub count-update_found_le :
      (p q : A → Bool) (f : A → A) (xs : List A) (e : A)
      → find q xs ≡ some e
      → count q xs ≤ 1
      → (p (f e) ≡ true → p e ≡ true)
      → count p (update_where q f xs) ≤ count p xs
  count-update_found_le p q f [] e h u s = cc
  count-update_found_le p q f (x ∷ xs) e h u s =
      ground (arith, update_none q f xs, count-update_found_le p q f xs e)

  pub All-update_found {κ} :
      (P : A → Type κ) (q : A → Bool) (f : A → A) (xs : List A) (e : A)
      → find q xs ≡ some e
      → count q xs ≤ 1
      → All P xs
      → P (f e)
      → All P (update_where q f xs)
  All-update_found P q f [] e h u a k = tt
  All-update_found P q f (x ∷ xs) e h u a k = elim (Bool-cases (q x)) [
    | inl hit ↦ (
      rw hit (subst (λ y. P (f y)) (sym (some-injective x e (rw hit at h))) k),
      subst (All P) (sym (update_none q f xs (ground arith))) a.1,
    )
    | inr miss ↦ (rw miss a.0, All-update_found P q f xs e (rw miss at h) (ground arith) a.1 k)
  ]

  -- No other row is under `p`, so at most the replaced one is.
  pub count-update_one :
      (p q : A → Bool) (f : A → A) (xs : List A)
      → any (λ x. p x && not (q x)) xs ≡ false
      → count p (update_where q f xs) ≤ count q xs
  count-update_one p q f [] h = omega arith
  count-update_one p q f (x ∷ xs) h = ground (arith, count-update_one p q f xs)

  pub count_of_none :
      (p q : A → Bool)
      → ((x : A) → p x ≡ true → q x ≡ true)
      → (xs : List A) → any q xs ≡ false
      → count p xs ≡ 0
  count_of_none p q h [] n = refl
  count_of_none p q h (x ∷ xs) n = ground (arith, h x, count_of_none p q h xs)

  pub All-find {κ} :
      (P : A → Type κ) (p : A → Bool) (xs : List A) (e : A) → All P xs → find p xs ≡ some e → P e
  All-find P p [] e a h = cc
  All-find P p (x ∷ xs) e a h = elim (Bool-cases (p x)) [
    | inl hit ↦ subst P (some-injective x e (rw hit at h)) a.0
    | inr miss ↦ All-find P p xs e a.1 (rw miss at h)
  ]

  pub update_where-twice :
      (q : A → Bool) (f : A → A)
      → ((x : A) → q (f x) ≡ q x)
      → ((x : A) → f (f x) ≡ f x)
      → (xs : List A) → update_where q f (update_where q f xs) ≡ update_where q f xs
  update_where-twice q f same once [] = refl
  update_where-twice q f same once (x ∷ xs) = elim (Bool-cases (q x)) [
    | inl hit ↦
        rw hit
          (rw (same x ∙ hit) (rw (once x) (ap (◌∷◌ (f x)) (update_where-twice q f same once xs))))
    | inr miss ↦ rw miss (rw miss (ap (◌∷◌ x) (update_where-twice q f same once xs)))
  ]

  -- What an update brings about in the rows that it changes, and what the others have already.
  pub All-updated {κ} :
      (P : A → Type κ) (q : A → Bool) (f : A → A)
      → ((x : A) → q x ≡ true → P (f x))
      → ((x : A) → q x ≡ false → P x)
      → (xs : List A) → All P (update_where q f xs)
  All-updated P q f changed kept [] = tt
  All-updated P q f changed kept (x ∷ xs) =
      (if-holds P (q x) (f x) x (changed x) (kept x), All-updated P q f changed kept xs)

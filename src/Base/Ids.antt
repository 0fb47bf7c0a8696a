-- ===== src/Base/Ids.antt =====
-- Identifiers that `Uuid::new_v4` yields, and the rows that have them.
use Prim.Native.Nat.{ℕ, ◌≤◌, ◌<◌}
use mathlib.Core.Path.{◌≡◌, refl, subst}
use mathlib.Core.Logic.{inl, inr}
use mathlib.Core.List.{List, [], ◌∷◌, ◌++◌}
use native.Mathlib.Omega.{arith}
use operation_monitoring.Base.Tests.{◌==◌, Bool-cases}
use operation_monitoring.Base.Lists.{All, All-map, count, count-append}

-- `Uuid::new_v4` does not repeat itself.
abbrev pub Distinct : (ℕ → ℕ) → Type 0
Distinct uuids = (m n : ℕ) → uuids m ≡ uuids n → m ≡ n

abbrev pub IsDrawn {ℓ} : {A : Type ℓ} → (A → ℕ) → (ℕ → ℕ) → ℕ → A → Type 0
IsDrawn id uuids drawn x = (n : ℕ) × (n < drawn) × (id x ≡ uuids n)

module _ {ℓ} {A : Type ℓ} (id : A → ℕ) (uuids : ℕ → ℕ) where
  later : (m n : ℕ) → m ≤ n → (x : A) → IsDrawn id uuids m x → IsDrawn id uuids n x
  later m n h x (k, lt, eq) = (k, omega arith, eq)

  pub IsDrawn-later :
      (m n : ℕ) (xs : List A) → m ≤ n → All (IsDrawn id uuids m) xs → All (IsDrawn id uuids n) xs
  IsDrawn-later m n xs h = All-map (IsDrawn id uuids m) (IsDrawn id uuids n) (later m n h) xs

  -- A fresh identifier is not in the table.
  pub fresh_id :
      (drawn : ℕ)
      → Distinct uuids
      → (xs : List A) → All (IsDrawn id uuids drawn) xs
      → count (λ x. id x == uuids drawn) xs ≡ 0
  fresh_id drawn distinct [] h = refl
  fresh_id drawn distinct (x ∷ rest) ((n, lt, eq), hs) =
      ground (arith, fresh_id drawn distinct rest hs, distinct n drawn)

  -- A row whose identifier was drawn for it is the only one with it.
  pub count-append_fresh :
      (drawn : ℕ) (xs : List A) (x : A)
      → Distinct uuids
      → All (IsDrawn id uuids drawn) xs
      → id x ≡ uuids drawn
      → ((k : ℕ) → count (λ y. id y == k) xs ≤ 1)
      → (k : ℕ) → count (λ y. id y == k) (xs ++ x ∷ []) ≤ 1
  count-append_fresh drawn xs x distinct drawn_ids new one_id k = elim (Bool-cases (id x == k)) [
    | inl hit ↦
        let same : uuids drawn ≡ k = ground arith in
        let none_yet =
          subst (λ n. count (λ y. id y == n) xs ≡ 0) same (fresh_id drawn distinct xs drawn_ids) in
        rw (count-append (λ y. id y == k) xs (x ∷ [])) (rw hit (omega (arith, none_yet)))
    | inr miss ↦ rw (count-append (λ y. id y == k) xs (x ∷ [])) (rw miss (omega (arith, one_id k)))
  ]

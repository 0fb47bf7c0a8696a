-- ===== src/Updates/Answers.antt =====
-- What holds of the result of a computation of backend/src/updates.rs that may return early.
use operation_monitoring.Base.{◌≡◌, refl, subst, Bool, true, false, Option, none, some}
use operation_monitoring.Updates.Model.{UpdateError, Answer, ok, err, ◌>>=◌, require, ok_or}

abbrev pub Ensures {ℓ κ} : {A : Type ℓ} → (A → Type κ) → Answer A → Type κ
Ensures P (ok a) = P a
Ensures P (err e) = Unit

pub Ensures-bind {ℓ κ μ} :
    {A : Type ℓ} {B : Type κ} (P : B → Type μ) (m : Answer A) (k : A → Answer B)
    → ((a : A) → m ≡ ok a → Ensures P (k a))
    → Ensures P (m >>= k)
unfolding ◌>>=◌
Ensures-bind P (ok a) k h = h a refl
Ensures-bind P (err e) k h = tt

pub result {ℓ κ} :
    {A : Type ℓ} (P : A → Type κ) (m : Answer A) (a : A) → Ensures P m → m ≡ ok a → P a
result P m a h e = subst (Ensures P) e h

pub require-true : (b : Bool) (e : UpdateError) (u : Unit {0}) → require b e ≡ ok u → b ≡ true
require-true true e u h = refl
require-true false e u h = cc

pub ok_or-some {ℓ} :
    {A : Type ℓ} (o : Option A) (e : UpdateError) (a : A) → ok_or o e ≡ ok a → o ≡ some a
ok_or-some none e a h = cc
ok_or-some (some b) e a h = cc

pub ok-injective {ℓ} : {A : Type ℓ} (a b : A) → Answer.ok a ≡ ok b → a ≡ b
ok-injective a b h = cc

pub Ensures-require {ℓ} :
    (P : Unit {0} → Type ℓ) (b : Bool) (e : UpdateError)
    → (b ≡ true → P tt)
    → Ensures P (require b e)
Ensures-require P true e h = h refl
Ensures-require P false e h = tt

pub Ensures-map {ℓ κ μ} :
    {A : Type ℓ} {Q : A → Type κ} (P : A → Type μ) (m : Answer A)
    → ((a : A) → Q a → P a)
    → Ensures Q m
    → Ensures P m
Ensures-map P (ok a) f h = f a h
Ensures-map P (err e) f h = tt

-- ===== src/FileFrames/Bytes.antt =====
-- Big-endian bytes, and the parts of a list that was put together.
use operation_monitoring.Base.{
  ℕ, zero, suc, ◌+◌, ◌-◌, ◌*◌, ◌/◌, ◌%◌, ◌≡◌, ◌<◌, refl, ap, ◌∙◌, List, [], ◌∷◌, ◌++◌, arith,
  length, length-append, take, drop,
}
use operation_monitoring.FileFrames.{to_be_bytes, from_be_bytes}

-- 256 to the power of k.
abbrev pub byte_bound : ℕ → ℕ
byte_bound zero = 1
byte_bound (suc k) = 256 * byte_bound k

from_be_bytes-append :
    (acc : ℕ) (xs : List ℕ) (b : ℕ)
    → from_be_bytes acc (xs ++ b ∷ []) ≡ from_be_bytes acc xs * 256 + b
unfolding from_be_bytes
from_be_bytes-append acc [] b = refl
from_be_bytes-append acc (x ∷ xs) b = from_be_bytes-append (acc * 256 + x) xs b

pub from_be_bytes-to_be_bytes : (k n : ℕ) → n < byte_bound k → from_be_bytes 0 (to_be_bytes k n) ≡ n
unfolding from_be_bytes to_be_bytes
from_be_bytes-to_be_bytes zero n h = omega (arith, h)
from_be_bytes-to_be_bytes (suc k) n h =
    from_be_bytes-append 0 (to_be_bytes k (n / 256)) (n % 256)
    ∙ rw (from_be_bytes-to_be_bytes k (n / 256) (omega (arith, h))) (omega arith)

pub length-to_be_bytes : (k n : ℕ) → length (to_be_bytes k n) ≡ k
unfolding to_be_bytes
length-to_be_bytes zero n = refl
length-to_be_bytes (suc k) n =
    length-append (to_be_bytes k (n / 256)) (n % 256 ∷ [])
    ∙ omega (arith, length-to_be_bytes k (n / 256))

module _ {ℓ} {A : Type ℓ} where
  pub take-append : (n : ℕ) (xs ys : List A) → length xs ≡ n → take n (xs ++ ys) ≡ xs
  take-append zero [] ys h = refl
  take-append zero (x ∷ xs) ys h = absurd (omega (arith, h))
  take-append (suc n) [] ys h = absurd (omega (arith, h))
  take-append (suc n) (x ∷ xs) ys h = ap (λ r. x ∷ r) (take-append n xs ys (omega (arith, h)))

  pub drop-append : (n : ℕ) (xs ys : List A) → length xs ≡ n → drop n (xs ++ ys) ≡ ys
  drop-append zero [] ys h = refl
  drop-append zero (x ∷ xs) ys h = absurd (omega (arith, h))
  drop-append (suc n) [] ys h = absurd (omega (arith, h))
  drop-append (suc n) (x ∷ xs) ys h = drop-append n xs ys (omega (arith, h))

  pub length-drop : (n : ℕ) (xs : List A) → length (drop n xs) ≡ length xs - n
  length-drop zero xs = omega arith
  length-drop (suc n) [] = omega arith
  length-drop (suc n) (x ∷ xs) = length-drop n xs ∙ omega arith

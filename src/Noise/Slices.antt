-- ===== src/Noise/Slices.antt =====
-- Cutting a byte string and joining the pieces, as src/noise.rs slices a payload.
use thalovant_rust_sdk.Prelude.{
  ℕ, zero, suc, ◌+◌, ◌-◌, ◌≤◌, [], ◌∷◌, ◌++◌, length, take, drop, ◌≡◌, refl, arith, length-take, ap,
}
use thalovant_rust_sdk.Noise.Cipher.{Bytes}
use thalovant_rust_sdk.Noise.Frames.{slice}

-- take n xs ++ take m (drop n xs) ≡ take (n + m) xs
pub take-append-take : (n m : ℕ) (xs : Bytes) → take n xs ++ take m (drop n xs) ≡ take (n + m) xs
take-append-take zero m xs = let e : 0 + m ≡ m = omega arith in rw e
take-append-take (suc n) zero [] = let e : suc n + 0 ≡ suc n = omega arith in rw e
take-append-take (suc n) (suc m) [] = let e : suc n + suc m ≡ suc (n + suc m) = omega arith in rw e
take-append-take (suc n) m (x ∷ xs) =
    let e : suc n + m ≡ suc (n + m) = omega arith in rw (e, take-append-take n m xs)

pub take_all : (n : ℕ) (xs : Bytes) → length xs ≤ n → take n xs ≡ xs
take_all zero [] h = refl
take_all zero (x ∷ xs) h = absurd (omega arith)
take_all (suc n) [] h = refl
take_all (suc n) (x ∷ xs) h = ap (λ t. x ∷ t) (take_all n xs (omega arith))

pub take-append-slice :
    (from to : ℕ) (xs : Bytes) → from ≤ to → take from xs ++ slice from to xs ≡ take to xs
take-append-slice from to xs h =
    let e : from + (to - from) ≡ to = omega arith in rw (take-append-take from (to - from) xs, e)

pub length-slice-le : (from to : ℕ) (xs : Bytes) → length (slice from to xs) ≤ to - from
length-slice-le from to xs = omega (arith, length-take (to - from) (drop from xs))

-- ===== src/Wire/Bits.antt =====
-- Reading whole bytes, and parts of one, with the bit reader of src/wire.rs.
use thalovant_rust_sdk.Prelude.{
  ℕ, zero, suc, ◌+◌, ◌-◌, ◌*◌, ◌/◌, ◌%◌, ◌^◌, ◌≤◌, ◌<◌, [], ◌∷◌, length, take, drop, ◌≡◌, refl,
  arith, All, ap, ◌∙◌, lt→leb, length-drop,
}
use thalovant_rust_sdk.Wire.{
  Bytes, BitReader, byte_at, ok, read_bit, read_more, read_uint, read_bytes, read_remaining_bytes,
}

-- A reader at bit `i` of byte `k`.
abbrev pub at : Bytes → ℕ → ℕ → BitReader
at p k i = record { payload = p; offset = 8 * k + i }

abbrev pub bit_of : ℕ → ℕ → ℕ
bit_of b i = b / 2 ^ (7 - i) % 2

abbrev pub IsByte : ℕ → Type 0
IsByte b = b < 256

pub read_bit-at :
    (p : Bytes) (k i : ℕ)
    → k < length p
    → i < 8
    → read_bit (at p k i) ≡ ok (bit_of (byte_at p k) i, at p k (suc i))
unfolding read_bit
read_bit-at p k i h g =
    let place : (8 * k + i) / 8 ≡ k = omega arith in
    let bit : (8 * k + i) % 8 ≡ i = omega arith in
    rw (lt→leb (length p * 8) (8 * k + i) (omega arith), place, bit)
      (ap (λ o. ok (bit_of (byte_at p k) i, record { payload = p; offset = o })) (omega arith))

pub at-next : (p : Bytes) (k : ℕ) → at p k 8 ≡ at p (suc k) 0
at-next p k = ap (λ o. record { payload = p; offset = o }) (omega arith)

pub read_uint-byte :
    (p : Bytes) (k : ℕ)
    → k < length p
    → IsByte (byte_at p k)
    → read_uint 8 (at p k 0) ≡ ok (byte_at p k, at p (suc k) 0)
unfolding read_uint read_more
read_uint-byte p k h byte =
    rw
      (
        read_bit-at p k 0 h (omega arith),
        read_bit-at p k 1 h (omega arith),
        read_bit-at p k 2 h (omega arith),
        read_bit-at p k 3 h (omega arith),
        read_bit-at p k 4 h (omega arith),
        read_bit-at p k 5 h (omega arith),
        read_bit-at p k 6 h (omega arith),
        read_bit-at p k 7 h (omega arith),
      )
      (ap (λ v. ok (v, at p k 8)) (omega (arith, byte))
        ∙ ap (λ r. ok (byte_at p k, r)) (at-next p k))

-- The five bits after the first two.
pub read_uint-five :
    (p : Bytes) (k : ℕ)
    → k < length p
    → IsByte (byte_at p k)
    → read_uint 5 (at p k 2) ≡ ok (byte_at p k / 2 % 32, at p k 7)
unfolding read_uint read_more
read_uint-five p k h byte =
    rw
      (
        read_bit-at p k 2 h (omega arith),
        read_bit-at p k 3 h (omega arith),
        read_bit-at p k 4 h (omega arith),
        read_bit-at p k 5 h (omega arith),
        read_bit-at p k 6 h (omega arith),
      )
      (ap (λ v. ok (v, at p k 7)) (omega (arith, byte)))

-- The last bit of a byte.
pub read_bit-last :
    (p : Bytes) (k : ℕ) → k < length p → read_bit (at p k 7) ≡ ok (byte_at p k % 2, at p (suc k) 0)
read_bit-last p k h =
    read_bit-at p k 7 h (omega arith)
    ∙ ap (λ v. ok (v, at p k 8)) (omega arith)
    ∙ ap (λ r. ok (byte_at p k % 2, r)) (at-next p k)

-- What stands from byte `k` on.
pub byte_at-drop : (p : Bytes) (k : ℕ) → k < length p → drop k p ≡ byte_at p k ∷ drop (suc k) p
byte_at-drop [] k h = absurd (omega (arith, h))
byte_at-drop (b ∷ bs) zero h = refl
byte_at-drop (b ∷ bs) (suc k) h = byte_at-drop bs k (omega arith)

pub byte_at-IsByte : (p : Bytes) (k : ℕ) → All IsByte p → k < length p → IsByte (byte_at p k)
byte_at-IsByte [] k v h = omega (arith, h)
byte_at-IsByte (b ∷ bs) zero v h = v.0
byte_at-IsByte (b ∷ bs) (suc k) v h = byte_at-IsByte bs k v.1 (omega arith)

pub read_bytes-at :
    (n : ℕ) (p : Bytes) (k : ℕ)
    → All IsByte p
    → k + n ≤ length p
    → read_bytes n (at p k 0) ≡ ok (take n (drop k p), at p (k + n) 0)
unfolding read_bytes
read_bytes-at zero p k v h = ap (λ o. ok ([], record { payload = p; offset = o })) (omega arith)
read_bytes-at (suc n) p k v h =
    rw
      (
        read_uint-byte p k (omega arith) (byte_at-IsByte p k v (omega arith)),
        read_bytes-at n p (suc k) v (omega arith),
        byte_at-drop p k (omega arith),
      )
      (ap (λ o. ok (byte_at p k ∷ take n (drop (suc k) p), record { payload = p; offset = o }))
        (omega arith))

pub take_all : (xs : Bytes) (n : ℕ) → length xs ≤ n → take n xs ≡ xs
take_all [] zero h = refl
take_all [] (suc n) h = refl
take_all (x ∷ xs) zero h = absurd (omega (arith, h))
take_all (x ∷ xs) (suc n) h = rw (take_all xs n (omega arith))

-- At the start of a byte, the rest of the frame is read to its end.
pub read_remaining_bytes-at :
    (p : Bytes) (k : ℕ)
    → All IsByte p
    → k ≤ length p
    → read_remaining_bytes (at p k 0) ≡ ok (drop k p, at p (length p) 0)
unfolding read_remaining_bytes
read_remaining_bytes-at p k v h =
    let left : (length p * 8 - (8 * k + 0)) / 8 ≡ length p - k = omega arith in
    rw
      (
        left,
        read_bytes-at (length p - k) p k v (omega arith),
        take_all (drop k p) (length p - k) (omega (arith, length-drop k p)),
      )
      (ap (λ o. ok (drop k p, record { payload = p; offset = o })) (omega arith))

-- ===== src/Wire/Padding.antt =====
-- The padding loop of src/wire.rs ends within the bits of the frame.
use thalovant_rust_sdk.Prelude.{
  ℕ, zero, suc, ◌+◌, ◌-◌, ◌*◌, ◌/◌, ◌%◌, ◌^◌, ◌≤◌, ◌<◌, ◌==◌, length, leb, if◌then◌else◌, ◌≡◌, ◌∙◌,
  ap, sym, arith, inl, inr, Bool-cases,
}
use thalovant_rust_sdk.Wire.{
  Bytes, byte_at, BitReader, Result, ok, err, end_of_frame, read_bit, skip_padding,
  skip_left_padding,
}

-- Bit `k` of the bytes, the highest bit of a byte first.
abbrev pub bit_at : Bytes → ℕ → ℕ
bit_at p k = byte_at p (k / 8) / 2 ^ (7 - k % 8) % 2

-- The bits from `i` on and before `j` are clear.
pub record IsClear (p : Bytes) (i j : ℕ) : Type 0 where
  pub clear : (k : ℕ) → i ≤ k → k < j → bit_at p k ≡ 0

-- What skipping the padding gives: the reader behind the first bit that is set, or the error for the
-- end of a frame that has no such bit.
pub data Skips (r : BitReader) : Result BitReader → Type 0 where
  ends : IsClear r.payload r.offset (length r.payload * 8) → Skips r (err end_of_frame)
  stops :
      (k : ℕ)
      → r.offset ≤ k
      → k < length r.payload * 8
      → IsClear r.payload r.offset k
      → bit_at r.payload k ≡ 1
      → Skips r (ok (record { payload = r.payload; offset = k + 1 }))

-- The round that reads a bit of the frame.
abbrev next : BitReader → BitReader
next r = record r { offset = r.offset + 1 }

-- A clear bit before others that are.
IsClear-before : (p : Bytes) (i j : ℕ) → bit_at p i ≡ 0 → IsClear p (i + 1) j → IsClear p i j
IsClear-before p i j e v = record {
  clear = λ k h g. elim (Bool-cases (k == i)) [
    | inl here ↦ (let same : i ≡ k = ground (arith, here) in ap (bit_at p) (sym same) ∙ e)
    | inr past ↦ v.clear k (ground (arith, past)) g
  ];
}

further :
    (r : BitReader) (x : Result BitReader)
    → bit_at r.payload r.offset ≡ 0
    → Skips (next r) x
    → Skips r x
further r _ e (ends v) = ends (IsClear-before r.payload r.offset (length r.payload * 8) e v)
further r _ e (stops k after within v set) =
    stops k (omega (arith, after)) within (IsClear-before r.payload r.offset k e v) set

chosen :
    (r : BitReader) (x : Result BitReader)
    → r.offset < length r.payload * 8
    → Skips (next r) x
    → Skips r (if bit_at r.payload r.offset == 1 then ok (next r) else x)
chosen r x h v = elim (Bool-cases (bit_at r.payload r.offset == 1)) [
  | inl set ↦ rw set (
      stops r.offset (omega arith) h (record { clear = λ k a b. absurd (omega (arith, a, b)) })
        (ground (arith, set)))
  | inr unset ↦ rw unset (further r x (ground (arith, unset)) v)
]

skip_padding-Skips :
    (fuel : ℕ) (r : BitReader)
    → length r.payload * 8 - r.offset < fuel
    → Skips r (skip_padding fuel r)
unfolding skip_padding read_bit
skip_padding-Skips zero r h = absurd (omega (arith, h))
skip_padding-Skips (suc fuel) r h = elim (Bool-cases (leb (length r.payload * 8) r.offset)) [
  | inl over ↦
      let past : length r.payload * 8 ≤ r.offset = ground (arith, over) in
      rw over (ends (record { clear = λ k a b. absurd (omega (arith, past, a, b)) }))
  | inr open_bits ↦
      let inside : r.offset < length r.payload * 8 = ground (arith, open_bits) in
      rw open_bits (
        chosen r (skip_padding fuel (next r)) inside
          (skip_padding-Skips fuel (next r) (omega arith)))
]

-- Whatever bytes a frame has, the loop that skips its padding ends: behind the first bit that is set,
-- with every bit before it clear, or, when no bit from where it starts is set, with the error for a
-- frame that is over.
pub skip_left_padding-Skips : (r : BitReader) → Skips r (skip_left_padding r)
unfolding skip_left_padding
skip_left_padding-Skips r =
    skip_padding-Skips (suc (length r.payload * 8 - r.offset)) r (omega arith)

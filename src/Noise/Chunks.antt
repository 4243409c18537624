-- ===== src/Noise/Chunks.antt =====
-- The loop of `encrypt_message` of src/noise.rs against a receiver, round by round.
use thalovant_rust_sdk.Prelude.{
  ℕ, zero, suc, ◌+◌, ◌-◌, ◌*◌, ◌/◌, ◌≤◌, ◌<◌, min, Bool, Option, none, [], ◌∷◌, ◌++◌, length, take,
  ◌≡◌, arith, length-take, ◌∙◌, sym, subst,
}
use native.Mathlib.Decide.{dec_lt}
use native.Mathlib.Nat.{div-add-mod, mod-lt}
use thalovant_rust_sdk.Noise.Slices.{take_all, take-append-slice, length-slice-le}
use thalovant_rust_sdk.Noise.Carry.{
  opening, accept_first, accept_more, accept_last, receive, Carried, carry, Delivers, advance,
  loop_step, loop_end, budget, leftover,
}
use thalovant_rust_sdk.Noise.Cipher.{Bytes, Calls, Laws, max_plaintext}
use thalovant_rust_sdk.Noise.Frames.{
  ok, message, partial, Reassembly, accept, encrypt_loop, frame_last, frame_more, marker_at,
  first_of_chunks, slice,
}

module _ (c : Calls) (laws : Laws c) where
  open c use {Transport}
  open laws use {InStep, CanWrite}

  module _ (limit chunk r : ℕ) (payload : Bytes) (json : Bool) (pos : 0 < chunk)
      (fits : chunk < max_plaintext) (long : chunk < length payload)
      (capped : length payload ≤ limit) where
    abbrev pub to_of : ℕ → ℕ
    to_of offset = min (offset + chunk) (length payload)

    abbrev pub marker_of : ℕ → ℕ
    marker_of offset = marker_at (first_of_chunks json) (length payload - chunk) offset

    chunk_fits : (offset : ℕ) → length (slice offset (to_of offset) payload) < max_plaintext
    chunk_fits offset = omega (arith, length-slice-le offset (to_of offset) payload)

    -- What the receiver holds once it has taken the chunk at `offset`.
    joined :
        (offset : ℕ)
        → offset < length payload
        → take offset payload ++ slice offset (to_of offset) payload ≡ take (to_of offset) payload
    joined offset h = take-append-slice offset (to_of offset) payload (omega arith)

    taken_capped : (n : ℕ) → length (take n payload) ≤ limit
    taken_capped n = omega (arith, length-take n payload)

    abbrev pub Rest : ℕ → Transport → Transport → Option Reassembly → ℕ → Type 0
    Rest fuel a b o offset =
        Delivers c laws limit r (encrypt_loop c chunk fuel a (first_of_chunks json) payload offset)
          (record { transport = b; reassembly = o }) (payload, json)

    marker_last :
        (offset : ℕ) → 0 < offset → length payload ≤ offset + chunk → marker_of offset ≡ frame_last
    marker_last offset p l = ground arith

    marker_more :
        (offset : ℕ) → 0 < offset → offset + chunk < length payload → marker_of offset ≡ frame_more
    marker_more offset p l = ground arith

    accept_at_end :
        (offset : ℕ)
        → 0 < offset
        → offset < length payload
        → length payload ≤ offset + chunk
        → accept limit
            (opening (take offset payload) json)
            (marker_of offset ∷ slice offset (to_of offset) payload)
          ≡ (none, ok (message payload json))
    accept_at_end offset p h l =
        let whole : take offset payload ++ slice offset (to_of offset) payload ≡ payload =
          joined offset h ∙ take_all (to_of offset) payload (omega arith) in
        rw (marker_last offset p l) (
          accept_last limit (take offset payload) (slice offset (to_of offset) payload) json
            (rw whole capped)
          ∙ rw whole)

    accept_at_middle :
        (offset : ℕ)
        → 0 < offset
        → offset + chunk < length payload
        → accept limit
            (opening (take offset payload) json)
            (marker_of offset ∷ slice offset (to_of offset) payload)
          ≡ (opening (take (offset + chunk) payload) json, ok partial)
    accept_at_middle offset p l =
        let end : to_of offset ≡ offset + chunk = omega arith in
        let whole : take offset payload ++ slice offset (to_of offset) payload
            ≡ take (offset + chunk) payload =
          joined offset (omega arith) ∙ rw end in
        rw (marker_more offset p l) (
          accept_more limit (take offset payload) (slice offset (to_of offset) payload) json
            (rw whole (taken_capped (offset + chunk)))
          ∙ rw whole)

    carry_at :
        (n : ℕ) (a b : Transport) (offset : ℕ)
        → InStep a b
        → CanWrite (suc n) a
        → Carried c laws limit n a b (marker_of offset) (slice offset (to_of offset) payload)
    carry_at n a b offset i w =
        carry c laws limit n a b (marker_of offset) (slice offset (to_of offset) payload) i w
          (chunk_fits offset)

    last_round :
        (k fuel : ℕ) (a b : Transport) (offset : ℕ)
        → 0 < offset
        → offset < length payload
        → length payload ≤ offset + chunk
        → (x : Carried c laws limit
            (k + r)
            a
            b
            (marker_of offset)
            (slice offset (to_of offset) payload))
        → Rest (suc (suc fuel)) a b (opening (take offset payload) json) offset
    unfolding receive
    last_round k fuel a b offset p h l x = record {
      frames = x.frame ∷ [];
      a' = x.a';
      b' = x.b';
      sent =
          loop_step c laws chunk (suc fuel) a x.a' (first_of_chunks json) payload offset x.frame h
            x.sent
          ∙ rw (loop_end c laws chunk fuel x.a' (first_of_chunks json) payload (offset + chunk) l);
      got = rw (x.got (opening (take offset payload) json), accept_at_end offset p h l);
      in_step = x.in_step;
      left = leftover c laws k r x.a' x.can_write;
    }

    -- One round that only advances the message, before rounds that deliver it.
    round_then :
        (fuel : ℕ) {n : ℕ} {a b : Transport} {offset : ℕ} {o o' : Option Reassembly}
        (x : Carried c laws limit n a b (marker_of offset) (slice offset (to_of offset) payload))
        → offset < length payload
        → accept limit o (marker_of offset ∷ slice offset (to_of offset) payload) ≡ (o', ok partial)
        → Rest fuel x.a' x.b' o' (offset + chunk)
        → Rest (suc fuel) a b o offset
    round_then fuel {n} {a} {b} {offset} {o} {o'} x h e rest =
        subst
          (λ q.
            Delivers c laws limit r q (record { transport = b; reassembly = o }) (payload, json))
          (sym (
            loop_step c laws chunk fuel a x.a' (first_of_chunks json) payload offset x.frame h
              x.sent))
          (advance c laws limit r a b n (marker_of offset) (slice offset (to_of offset) payload) o
            o' (payload, json) _ x e rest)

    rounds :
        (k fuel : ℕ) (a b : Transport) (offset : ℕ)
        → 0 < offset
        → offset < length payload
        → length payload ≤ offset + k * chunk
        → length payload < offset + fuel
        → InStep a b
        → CanWrite (k + r) a
        → Rest fuel a b (opening (take offset payload) json) offset
    rounds zero fuel a b offset p h k f i w = absurd (omega arith)
    rounds (suc k) zero a b offset p h l f i w = absurd (omega arith)
    rounds (suc k) (suc zero) a b offset p h l f i w = absurd (omega arith)
    rounds (suc k) (suc (suc fuel)) a b offset p h l f i w =
        elim (dec_lt (offset + chunk) (length payload)) [
          | no done ↦
              last_round k fuel a b offset p h (omega arith)
                (carry_at (k + r) a b offset i (budget c laws k r a w))
          | yes more ↦
              let x = carry_at (k + r) a b offset i (budget c laws k r a w) in
              let rest =
                rounds k (suc fuel) x.a' x.b' (offset + chunk) (omega arith) more (grind arith)
                  (omega arith) x.in_step x.can_write in
              round_then (suc fuel) x h (accept_at_middle offset p more) rest
        ]

    accept_at_start :
        accept limit none (marker_of 0 ∷ slice 0 (to_of 0) payload)
        ≡ (opening (take (0 + chunk) payload) json, ok partial)
    accept_at_start =
        let end : to_of 0 ≡ 0 + chunk = omega arith in
        let whole : slice 0 (to_of 0) payload ≡ take (0 + chunk) payload =
          joined 0 (omega arith) ∙ rw end in
        rw whole (accept_first limit (take (0 + chunk) payload) json (taken_capped (0 + chunk)))

    enough_rounds : length payload ≤ (0 + chunk) + length payload / chunk * chunk
    enough_rounds = omega (arith, div-add-mod (length payload) chunk, mod-lt (length payload) pos)

    -- The first chunk, before the others.
    pub chunked :
        (a b : Transport)
        → InStep a b
        → CanWrite (suc (length payload / chunk) + r) a
        → Rest (suc (length payload)) a b none 0
    chunked a b i w =
        let x =
          carry_at (length payload / chunk + r) a b 0 i
            (budget c laws (length payload / chunk) r a w) in
        let rest =
          rounds (length payload / chunk) (length payload) x.a' x.b' (0 + chunk) (omega arith)
            (omega arith) enough_rounds (omega arith) x.in_step x.can_write in
        round_then (length payload) x (omega arith) accept_at_start rest

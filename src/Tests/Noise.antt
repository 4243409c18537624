-- ===== src/Tests/Noise.antt =====
-- src/noise.rs over a transport that counts its messages and changes nothing else.
use thalovant_rust_sdk.Prelude.{
  ℕ, zero, suc, ◌+◌, ◌-◌, ◌^◌, ◌≤◌, true, false, ◌&&◌, Option, none, some, List, [], ◌∷◌, length,
  leb, ltb, ◌==◌, if◌then◌else◌, ◌≡◌, refl, arith, ◌⊎◌, ◌↔◌, le→leb, lt→ltb, All,
}
use thalovant_rust_sdk.Noise.Cipher.{Bytes, Calls, Laws, max_plaintext}
use thalovant_rust_sdk.Noise.Frames.{
  NoiseSession, buffered, noise_max_reassembly, frame_more, frame_first_binary,
}
use thalovant_rust_sdk.Noise.Carry.{Message, receive}
use thalovant_rust_sdk.Noise.RoundTrip.{receive-send_each, Carries, frames_of_all}
use thalovant_rust_sdk.Noise.Reassembly.{receive_bounded}
use thalovant_rust_sdk.Noise.Select.{
  select_iff, select_none_iff, select_noise_options, IsChoice, offers, has_key, noise_pattern_kk,
  noise_pattern_xx, suite_chacha, suite_aes,
}

-- What was sent and what was received.
abbrev Counters : Type 0
Counters = ℕ × ℕ

abbrev nonces : ℕ
nonces = 2 ^ 64 - 1

unfoldable write : Counters → Bytes → Counters × Option Bytes
write (s, r) p =
    if leb (length p) max_plaintext && ltb s nonces
    then ((s + 1, r), some (s ∷ p))
    else ((s, r), none)

unfoldable read : Counters → Bytes → Counters × Option Bytes
read (s, r) [] = ((s, r), none)
read (s, r) (n ∷ p) = if n == r then ((s, r + 1), some p) else ((s, r), none)

abbrev counting : Calls
counting = record { Transport = Counters; write_message = write; read_message = read }

write_counts :
    (a : Counters) (n : ℕ) (p : Bytes)
    → suc n + a.0 ≤ nonces
    → length p ≤ max_plaintext
    → (s : Bytes) × ((write a p).1 ≡ some s) × (n + (write a p).0.0 ≤ nonces)
unfolding write
write_counts (s, r) n p w h =
    rw (le→leb _ _ h, lt→ltb s nonces (omega arith)) (s ∷ p, refl, omega arith)

read_counts :
    (a b : Counters) (p s : Bytes)
    → a.0 ≡ b.1
    → (write a p).1 ≡ some s
    → ((read b s).1 ≡ some p) × ((write a p).0.0 ≡ (read b s).0.1)
unfolding write read
read_counts (s, r) (t, u) p [] i e = ground arith
read_counts (s, r) (t, u) p (x ∷ xs) i e = ground arith

abbrev counting_Laws : Laws counting
counting_Laws = record {
  InStep = λ a b. a.0 ≡ b.1;
  CanWrite = λ n a. n + a.0 ≤ nonces;
  weaken = λ a n w. omega arith;
  write_lem = write_counts;
  read_lem = read_counts;
}

replicate : ℕ → ℕ → Bytes
replicate zero x = []
replicate (suc n) x = x ∷ replicate n x

length-replicate : (n x : ℕ) → length (replicate n x) ≡ n
unfolding replicate
length-replicate zero x = refl
length-replicate (suc n) x = omega (arith, length-replicate n x)

-- A message of three frames and a short one.
abbrev messages : List Message
messages = (replicate 140000 7, false) ∷ (1 ∷ 2 ∷ [], true) ∷ []

abbrev fresh : NoiseSession counting
fresh = record { transport = (0, 0); reassembly = none }

messages_fit : All (λ m. length m.0 ≤ noise_max_reassembly) messages
messages_fit = (omega (arith, length-replicate 140000 7), (omega arith, tt))

messages_writable : frames_of_all messages + 0 ≤ nonces
messages_writable = rw (length-replicate 140000 7) (omega arith)

receive-send_each_example : Carries counting counting_Laws fresh (0, 0) messages
receive-send_each_example =
    receive-send_each counting counting_Laws messages fresh (0, 0) messages_fit refl
      messages_writable

-- The first frame of a message, and a frame that follows it.
abbrev two_frames : List Bytes
two_frames = (0 ∷ frame_first_binary ∷ 5 ∷ []) ∷ (1 ∷ frame_more ∷ 6 ∷ []) ∷ []

receive_bounded_example :
    buffered (receive counting noise_max_reassembly fresh two_frames).0.reassembly
    ≤ noise_max_reassembly
receive_bounded_example = receive_bounded counting fresh two_frames (omega arith)

select_iff_example :
    (select_noise_options (noise_pattern_xx ∷ noise_pattern_kk ∷ []) (suite_aes ∷ []) (some "key")
      ≡ some (noise_pattern_kk, suite_aes))
    ↔ IsChoice
        (noise_pattern_xx ∷ noise_pattern_kk ∷ [])
        (suite_aes ∷ [])
        (some "key")
        noise_pattern_kk
        suite_aes
select_iff_example =
    select_iff (noise_pattern_xx ∷ noise_pattern_kk ∷ []) (suite_aes ∷ []) (some "key")
      noise_pattern_kk suite_aes

select_none_iff_example :
    (select_noise_options (noise_pattern_kk ∷ []) (suite_aes ∷ []) none ≡ none) ↔ (
      ((offers (suite_aes ∷ []) suite_chacha ≡ false) × (offers (suite_aes ∷ []) suite_aes ≡ false))
      ⊎ ((offers (noise_pattern_kk ∷ []) noise_pattern_xx ≡ false)
          × ((has_key none && offers (noise_pattern_kk ∷ []) noise_pattern_kk) ≡ false)))
select_none_iff_example = select_none_iff (noise_pattern_kk ∷ []) (suite_aes ∷ []) none

-- ===== src/Noise/Reassembly.antt =====
-- The reassembly buffer of src/noise.rs under frames from a peer that need not follow the protocol.
use thalovant_rust_sdk.Prelude.{
  ℕ, ◌≤◌, Option, none, some, List, [], ◌∷◌, arith, Option-cases, inl, inr,
}
use thalovant_rust_sdk.Noise.Carry.{Message, add_message_state, collect, receive}
use thalovant_rust_sdk.Noise.Cipher.{Bytes, Calls}
use thalovant_rust_sdk.Noise.Frames.{
  Result, ok, err, NoiseFrame, message, partial, NoiseSession, buffered, accept, decrypt_with,
  noise_max_reassembly, Reassembly,
}

-- Whatever the plaintext, what stays buffered is within the limit, and a message is within the
-- limit too unless it came whole in the one frame.
accept_bounded :
    (limit : ℕ) (o : Option Reassembly) (plaintext : Bytes)
    → buffered o ≤ limit
    → buffered (accept limit o plaintext).0 ≤ limit
unfolding accept
accept_bounded limit none [] h = h
accept_bounded limit (some r) [] h = h
accept_bounded limit none (marker ∷ body) h = ground arith
accept_bounded limit (some r) (marker ∷ body) h = ground arith

module _ (c : Calls) where
  decrypt_with_bounded :
      (limit : ℕ) (s : NoiseSession c) (frame : Bytes)
      → buffered s.reassembly ≤ limit
      → buffered (decrypt_with c limit s frame).0.reassembly ≤ limit
  unfolding decrypt_with
  decrypt_with_bounded limit s frame h = elim (Option-cases (c.read_message s.transport frame).1) [
    | inl e ↦ rw (e, decrypt_with) h
    | inr (p, e) ↦ rw (e, decrypt_with) (accept_bounded limit s.reassembly p h)
  ]

  collect_bounded :
      (limit : ℕ) (d : NoiseSession c × Result NoiseFrame)
      (go : NoiseSession c → NoiseSession c × Result (List Message))
      → buffered d.0.reassembly ≤ limit
      → ((u : NoiseSession c)
          → buffered u.reassembly ≤ limit
          → buffered (go u).0.reassembly ≤ limit)
      → buffered (collect c d go).0.reassembly ≤ limit
  collect_bounded limit (u, err z) go h k = h
  collect_bounded limit (u, ok partial) go h k = k u h
  collect_bounded limit (u, ok (message p j)) go h k =
      rw (add_message_state c (p, j) (go u)) (k u h)

  -- Whatever frames a peer sends, and in whatever order, a session never holds more than 32 MiB of
  -- an unfinished message, neither along the way nor after an error.
  pub receive_bounded :
      (s : NoiseSession c) (frames : List Bytes)
      → buffered s.reassembly ≤ noise_max_reassembly
      → buffered (receive c noise_max_reassembly s frames).0.reassembly ≤ noise_max_reassembly
  unfolding receive
  receive_bounded s [] h = h
  receive_bounded s (f ∷ fs) h =
      collect_bounded noise_max_reassembly (decrypt_with c noise_max_reassembly s f) _
        (decrypt_with_bounded noise_max_reassembly s f h) (λ u k. receive_bounded u fs k)

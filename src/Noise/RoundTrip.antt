-- ===== src/Noise/RoundTrip.antt =====
-- A completed session of src/noise.rs carries messages whole and in order.
use native.Mathlib.Decide.{dec_le}
use thalovant_rust_sdk.Prelude.{
  ℕ, suc, ◌+◌, ◌/◌, ◌≤◌, ◌<◌, Bool, none, List, [], ◌∷◌, ◌++◌, length, ◌≡◌, refl, arith, All,
  le→leb, lt→leb, ap, ◌∙◌, sym, subst,
}
use thalovant_rust_sdk.Noise.Cipher.{Bytes, Calls, Laws}
use thalovant_rust_sdk.Noise.Frames.{
  Result, ok, err, message, partial, NoiseSession, NoiseFrame, encrypt_one, encrypt_loop,
  encrypt_with, decrypt_with, encrypt_message, noise_chunk_size, noise_max_reassembly, single_of,
  first_of_chunks,
}
use thalovant_rust_sdk.Noise.Carry.{
  Message, accept_single, add_message, collect, receive, carry, Delivers, budget, leftover,
}
use thalovant_rust_sdk.Noise.Chunks.{chunked}

-- The transport messages that one message, or a list of them, may take.
abbrev pub frames_of : Message → ℕ
frames_of m = suc (length m.0 / noise_chunk_size)

abbrev pub frames_of_all : List Message → ℕ
frames_of_all [] = 0
frames_of_all (m ∷ ms) = frames_of m + frames_of_all ms

module _ (c : Calls) where
  open c use {Transport}

  abbrev pub append_frames :
      List Bytes → NoiseSession c × Result (List Bytes) → NoiseSession c × Result (List Bytes)
  append_frames frames (s, ok more) = (s, ok (frames ++ more))
  append_frames frames (s, err e) = (s, err e)

  abbrev pub then_send :
      NoiseSession c
      → Result (List Bytes)
      → (NoiseSession c → NoiseSession c × Result (List Bytes))
      → NoiseSession c × Result (List Bytes)
  then_send s (err e) go = (s, err e)
  then_send s (ok frames) go = append_frames frames (go s)

  -- A sender that encrypts one message after the other.
  pub send_each : NoiseSession c → List Message → NoiseSession c × Result (List Bytes)
  send_each s [] = (s, ok [])
  send_each s ((payload, json) ∷ ms) =
      let sent = encrypt_message c s payload json in then_send sent.0 sent.1 (λ t. send_each t ms)

  abbrev prefix :
      List Message → NoiseSession c × Result (List Message) → NoiseSession c × Result (List Message)
  prefix ms (s, ok more) = (s, ok (ms ++ more))
  prefix ms (s, err e) = (s, err e)

  prefix_nil :
      (s t : NoiseSession c) (ms : List Message) (x : NoiseSession c × Result (List Message))
      → ◌≡◌ {A = NoiseSession c × Result (List Message)} (s, ok []) (t, ok ms)
      → x ≡ prefix ms x
  prefix_nil s t ms (u, ok more) e = cc
  prefix_nil s t ms (u, err x) e = refl

  add_message-prefix :
      (m : Message) (t : NoiseSession c) (ms : List Message)
      (g x y : NoiseSession c × Result (List Message))
      → add_message c m g ≡ (t, ok ms)
      → ((ns : List Message) → g ≡ (t, ok ns) → x ≡ prefix ns y)
      → add_message c m x ≡ prefix ms y
  add_message-prefix m t ms (u, err z) x y e h = cc
  add_message-prefix m t ms (u, ok ns) x (v, ok more) e h = rw (h ns (cc)) (cc)
  add_message-prefix m t ms (u, ok ns) x (v, err z) e h = rw (h ns (cc))

  collect-prefix :
      (d : NoiseSession c × Result NoiseFrame)
      (go go' : NoiseSession c → NoiseSession c × Result (List Message)) (t : NoiseSession c)
      (ms : List Message) (y : NoiseSession c × Result (List Message))
      → collect c d go ≡ (t, ok ms)
      → ((u : NoiseSession c) (ns : List Message) → go u ≡ (t, ok ns) → go' u ≡ prefix ns y)
      → collect c d go' ≡ prefix ms y
  collect-prefix (u, err z) go go' t ms y e h = cc
  collect-prefix (u, ok partial) go go' t ms y e h = h u ms e
  collect-prefix (u, ok (message p j)) go go' t ms y e h =
      add_message-prefix (p, j) t ms (go u) (go' u) y e (h u)

  -- What a receiver does with frames does not depend on the frames that follow.
  receive-append :
      (limit : ℕ) (s t : NoiseSession c) (fs gs : List Bytes) (ms : List Message)
      → receive c limit s fs ≡ (t, ok ms)
      → receive c limit s (fs ++ gs) ≡ prefix ms (receive c limit t gs)
  unfolding receive
  receive-append limit s t [] gs ms e =
      let same : s ≡ t = ap (λ q. q.0) e in rw same (prefix_nil s t ms (receive c limit t gs) e)
  receive-append limit s t (f ∷ fs) gs ms e =
      collect-prefix (decrypt_with c limit s f) (λ u. receive c limit u fs)
        (λ u. receive c limit u (fs ++ gs)) t ms (receive c limit t gs) e
        (λ u ns g. receive-append limit u t fs gs ns g)

  encrypt_with_single :
      (chunk : ℕ) (a a' : Transport) (payload frame : Bytes) (json : Bool)
      → length payload ≤ chunk
      → encrypt_one c a (single_of json) payload ≡ (a', ok frame)
      → encrypt_with c chunk a payload json ≡ (a', ok (frame ∷ []))
  unfolding encrypt_with
  encrypt_with_single chunk a a' payload frame json h e =
      rw (le→leb _ _ h, ap (λ r. r.1) e, ap (λ r. r.0) e)

  encrypt_with_large :
      (chunk : ℕ) (a : Transport) (payload : Bytes) (json : Bool)
      → chunk < length payload
      → encrypt_with c chunk a payload json
        ≡ encrypt_loop c chunk (suc (length payload)) a (first_of_chunks json) payload 0
  unfolding encrypt_with
  encrypt_with_large chunk a payload json h = rw (lt→leb _ _ h)

  module _ (laws : Laws c) where
    open laws use {InStep, CanWrite}

    pub message_Delivers :
        (r : ℕ) (a b : Transport) (payload : Bytes) (json : Bool)
        → length payload ≤ noise_max_reassembly
        → InStep a b
        → CanWrite (frames_of (payload, json) + r) a
        → Delivers c laws noise_max_reassembly r
            (encrypt_with c noise_chunk_size a payload json)
            (record { transport = b; reassembly = none })
            (payload, json)
    unfolding receive
    message_Delivers r a b payload json capped i w =
        elim (dec_le (length payload) noise_chunk_size) [
          | yes fits ↦
              let x =
                carry c laws noise_max_reassembly (length payload / noise_chunk_size + r) a b
                  (single_of json) payload i
                  (budget c laws (length payload / noise_chunk_size) r a w) (omega arith) in
              record {
                frames = x.frame ∷ [];
                a' = x.a';
                b' = x.b';
                sent = encrypt_with_single noise_chunk_size a x.a' payload x.frame json fits x.sent;
                got = rw (x.got none, accept_single noise_max_reassembly payload json);
                in_step = x.in_step;
                left = leftover c laws (length payload / noise_chunk_size) r x.a' x.can_write;
              }
          | no large ↦
              subst
                (λ q.
                  Delivers c laws noise_max_reassembly r q
                    (record { transport = b; reassembly = none }) (payload, json))
                (sym (encrypt_with_large noise_chunk_size a payload json (omega arith)))
                (chunked c laws noise_max_reassembly noise_chunk_size r payload json (omega arith)
                  (omega arith) (omega arith) capped a b i w)
        ]

    -- A receiver with no chunked message open.
    abbrev pub idle : Transport → NoiseSession c
    idle b = record { transport = b; reassembly = none }

    -- The frames of a list of messages, all taken in, with the two ends in step again.
    pub record Carries (s : NoiseSession c) (b : Transport) (ms : List Message) : Type 0 where
      pub frames : List Bytes
      pub s' : NoiseSession c
      pub b' : Transport
      pub sent : send_each s ms ≡ (s', ok frames)
      pub got : receive c noise_max_reassembly (idle b) frames ≡ (idle b', ok ms)
      pub in_step : InStep s'.transport b'

    encrypt_message_sent :
        (s : NoiseSession c) (a' : Transport) (payload : Bytes) (json : Bool) (frames : List Bytes)
        → encrypt_with c noise_chunk_size s.transport payload json ≡ (a', ok frames)
        → encrypt_message c s payload json ≡ (record s { transport = a' }, ok frames)
    unfolding encrypt_message
    encrypt_message_sent s a' payload json frames e = rw (ap (λ r. r.1) e, ap (λ r. r.0) e)

    send_each-cons :
        (s t : NoiseSession c) (payload : Bytes) (json : Bool) (ms : List Message)
        (frames : List Bytes)
        → encrypt_message c s payload json ≡ (t, ok frames)
        → send_each s ((payload, json) ∷ ms) ≡ append_frames frames (send_each t ms)
    unfolding send_each
    send_each-cons s t payload json ms frames e = rw (ap (λ r. r.1) e, ap (λ r. r.0) e)

    -- The frames that a session encrypts for a list of messages of at most 32 MiB, while it has a
    -- nonce for each, are decrypted to exactly those messages, in order and with their kinds.
    pub receive-send_each :
        (ms : List Message) (s : NoiseSession c) (b : Transport)
        → All (λ m. length m.0 ≤ noise_max_reassembly) ms
        → InStep s.transport b
        → CanWrite (frames_of_all ms) s.transport
        → Carries s b ms
    unfolding send_each receive
    receive-send_each [] s b h i w = record {
      frames = [];
      s' = s;
      b' = b;
      sent = refl;
      got = refl;
      in_step = i;
    }
    receive-send_each ((payload, json) ∷ ms) s b h i w =
        let d = message_Delivers (frames_of_all ms) s.transport b payload json h.0 i w in
        let rest = receive-send_each ms (record s { transport = d.a' }) d.b' h.1 d.in_step d.left in
        record {
          frames = d.frames ++ rest.frames;
          s' = rest.s';
          b' = rest.b';
          sent =
              send_each-cons s (record s { transport = d.a' }) payload json ms d.frames
                (encrypt_message_sent s d.a' payload json d.frames d.sent)
              ∙ rw rest.sent;
          got =
              receive-append noise_max_reassembly (idle b) (idle d.b') d.frames rest.frames
                ((payload, json) ∷ []) d.got
              ∙ rw rest.got;
          in_step = rest.in_step;
        }

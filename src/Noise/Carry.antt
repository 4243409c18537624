-- ===== src/Noise/Carry.antt =====
-- One frame of src/noise.rs sent and taken in: what each marker does at the receiver, and the loop of
-- `encrypt_message` one round at a time.
use thalovant_rust_sdk.Prelude.{
  ℕ, zero, suc, ◌+◌, ◌-◌, ◌≤◌, ◌<◌, min, Bool, true, false, Option, none, some, List, [], ◌∷◌, ◌++◌,
  length, ◌≡◌, refl, arith, le→leb, lt→ltb, le→not_ltb, ap, subst,
}
use thalovant_rust_sdk.Noise.Cipher.{Bytes, Calls, Laws, max_plaintext}
use thalovant_rust_sdk.Noise.Frames.{
  Result, ok, err, NoiseFrame, message, partial, Reassembly, NoiseSession, accept, encrypt_one,
  encrypt_loop, decrypt_with, frame_last, frame_more, marker_at, single_of, first_of_chunks, slice,
  push_front,
}

abbrev pub Message : Type 0
Message = Bytes × Bool

abbrev pub opening : Bytes → Bool → Option Reassembly
opening buffer json = some (record { buffer = buffer; is_json = json })

pub accept_single :
    (limit : ℕ) (body : Bytes) (json : Bool)
    → accept limit none (single_of json ∷ body) ≡ (none, ok (message body json))
unfolding accept
accept_single limit body true = refl
accept_single limit body false = refl

pub accept_first :
    (limit : ℕ) (body : Bytes) (json : Bool)
    → length body ≤ limit
    → accept limit none (first_of_chunks json ∷ body) ≡ (opening body json, ok partial)
unfolding accept
accept_first limit body true h = rw (le→leb _ _ h)
accept_first limit body false h = rw (le→leb _ _ h)

pub accept_more :
    (limit : ℕ) (buffer body : Bytes) (json : Bool)
    → length (buffer ++ body) ≤ limit
    → accept limit (opening buffer json) (frame_more ∷ body)
      ≡ (opening (buffer ++ body) json, ok partial)
unfolding accept
accept_more limit buffer body json h = rw (le→leb _ _ h)

pub accept_last :
    (limit : ℕ) (buffer body : Bytes) (json : Bool)
    → length (buffer ++ body) ≤ limit
    → accept limit (opening buffer json) (frame_last ∷ body)
      ≡ (none, ok (message (buffer ++ body) json))
unfolding accept
accept_last limit buffer body json h = rw (le→leb _ _ h)

module _ (c : Calls) where
  open c use {Transport, write_message, read_message}

  -- What a receiver that feeds every frame to `decrypt_frame` has been given: the messages in order,
  -- or the first error, after which the session is dropped.
  abbrev pub add_message :
      Message → NoiseSession c × Result (List Message) → NoiseSession c × Result (List Message)
  add_message m (t, ok ms) = (t, ok (m ∷ ms))
  add_message m (t, err e) = (t, err e)

  pub add_message_state :
      (m : Message) (x : NoiseSession c × Result (List Message)) → (add_message m x).0 ≡ x.0
  add_message_state m (t, ok ms) = refl
  add_message_state m (t, err e) = refl

  abbrev pub collect :
      NoiseSession c × Result NoiseFrame
      → (NoiseSession c → NoiseSession c × Result (List Message))
      → NoiseSession c × Result (List Message)
  collect (s, err e) go = (s, err e)
  collect (s, ok partial) go = go s
  collect (s, ok (message payload json)) go = add_message (payload, json) (go s)

  unfoldable pub receive : ℕ → NoiseSession c → List Bytes → NoiseSession c × Result (List Message)
  receive limit s [] = (s, ok [])
  receive limit s (f ∷ fs) = collect (decrypt_with c limit s f) (λ t. receive limit t fs)

  pub decrypt_with_read :
      (limit : ℕ) (b : Transport) (o : Option Reassembly) (frame plaintext : Bytes)
      → (read_message b frame).1 ≡ some plaintext
      → decrypt_with c limit (record { transport = b; reassembly = o }) frame ≡ (
        record { transport = (read_message b frame).0; reassembly = (accept limit o plaintext).0 },
        (accept limit o plaintext).1,
      )
  unfolding decrypt_with
  decrypt_with_read limit b o frame plaintext e = rw (e, decrypt_with)

  pub encrypt_one_write :
      (a : Transport) (marker : ℕ) (body frame : Bytes)
      → (write_message a (marker ∷ body)).1 ≡ some frame
      → encrypt_one c a marker body ≡ ((write_message a (marker ∷ body)).0, ok frame)
  unfolding encrypt_one
  encrypt_one_write a marker body frame e = rw e

  module _ (laws : Laws c) where
    open laws use {InStep, CanWrite, weaken, write_lem, read_lem}

    pub budget : (k r : ℕ) (a : Transport) → CanWrite (suc k + r) a → CanWrite (suc (k + r)) a
    budget k r a w = let e : suc k + r ≡ suc (k + r) = omega arith in subst (λ n. CanWrite n a) e w

    pub leftover : (k r : ℕ) (a : Transport) → CanWrite (k + r) a → CanWrite r a
    leftover zero r a w = let e : 0 + r ≡ r = omega arith in subst (λ n. CanWrite n a) e w
    leftover (suc k) r a w = leftover k r a (weaken a (k + r) (budget k r a w))

    -- One frame sent and taken in.
    pub record Carried (limit n : ℕ) (a b : Transport) (marker : ℕ) (body : Bytes) : Type 0 where
      pub frame : Bytes
      pub a' : Transport
      pub b' : Transport
      pub sent : encrypt_one c a marker body ≡ (a', ok frame)
      pub got :
          (o : Option Reassembly)
          → decrypt_with c limit (record { transport = b; reassembly = o }) frame ≡ (
            record { transport = b'; reassembly = (accept limit o (marker ∷ body)).0 },
            (accept limit o (marker ∷ body)).1,
          )
      pub in_step : InStep a' b'
      pub can_write : CanWrite n a'

    pub carry :
        (limit n : ℕ) (a b : Transport) (marker : ℕ) (body : Bytes)
        → InStep a b
        → CanWrite (suc n) a
        → length body < max_plaintext
        → Carried limit n a b marker body
    carry limit n a b marker body i w l =
        let (s, e, w') = write_lem a n (marker ∷ body) w (omega arith) in
        let (e', i') = read_lem a b (marker ∷ body) s i e in
        record {
          frame = s;
          a' = (write_message a (marker ∷ body)).0;
          b' = (read_message b s).0;
          sent = encrypt_one_write a marker body s e;
          got = λ o. decrypt_with_read limit b o s (marker ∷ body) e';
          in_step = i';
          can_write = w';
        }

    -- The frames of one message, all taken in.
    pub record Delivers (limit r : ℕ) (outcome : Transport × Result (List Bytes))
        (s : NoiseSession c) (m : Message) : Type 0 where
      pub frames : List Bytes
      pub a' : Transport
      pub b' : Transport
      pub sent : outcome ≡ (a', ok frames)
      pub got : receive limit s frames ≡ (record { transport = b'; reassembly = none }, ok (m ∷ []))
      pub in_step : InStep a' b'
      pub left : CanWrite r a'

    pub loop_step :
        (chunk fuel : ℕ) (a a' : Transport) (first : ℕ) (payload : Bytes) (offset : ℕ)
        (frame : Bytes)
        → offset < length payload
        → encrypt_one c a
            (marker_at first (length payload - chunk) offset)
            (slice offset (min (offset + chunk) (length payload)) payload)
          ≡ (a', ok frame)
        → encrypt_loop c chunk (suc fuel) a first payload offset
          ≡ push_front frame (encrypt_loop c chunk fuel a' first payload (offset + chunk))
    unfolding encrypt_loop
    loop_step chunk fuel a a' first payload offset frame h e =
        rw (lt→ltb _ _ h, ap (λ r. r.1) e, ap (λ r. r.0) e)

    pub loop_end :
        (chunk fuel : ℕ) (a : Transport) (first : ℕ) (payload : Bytes) (offset : ℕ)
        → length payload ≤ offset
        → encrypt_loop c chunk (suc fuel) a first payload offset ≡ (a, ok [])
    unfolding encrypt_loop
    loop_end chunk fuel a first payload offset h = rw (le→not_ltb _ _ h)

    -- A chunk that only advances the message, before chunks that deliver it.
    pub advance :
        (limit r : ℕ) (a b : Transport) (n marker : ℕ) (body : Bytes) (o o' : Option Reassembly)
        (m : Message) (outcome : Transport × Result (List Bytes))
        (x : Carried limit n a b marker body)
        → accept limit o (marker ∷ body) ≡ (o', ok partial)
        → Delivers limit r outcome (record { transport = x.b'; reassembly = o' }) m
        → Delivers limit r (push_front x.frame outcome) (record { transport = b; reassembly = o }) m
    unfolding receive
    advance limit r a b n marker body o o' m outcome x e d = record {
      frames = x.frame ∷ d.frames;
      a' = d.a';
      b' = d.b';
      sent = rw d.sent;
      got = rw (x.got o, e) d.got;
      in_step = d.in_step;
      left = d.left;
    }

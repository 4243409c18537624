-- ===== src/Channel/Gate.antt =====
-- What the channel of src/transport.rs lets through.
use text.Mathlib.Text.{◌==◌ as str_eq}
use thalovant_rust_sdk.Prelude.{
  Bool, true, false, ◌||◌, Option, none, some, List, [], ◌∷◌, ◌≡◌, refl, sym, ap, ◌∙◌, is_some,
  if◌then◌else◌, Bool-cases, inl, inr, arith,
}
use thalovant_rust_sdk.Json.{get, as_str, as_object, Fields}
use thalovant_rust_sdk.Errors.{ThalovantError, json, Result, ok, err}
use thalovant_rust_sdk.Wire.{HiveMessage}
use thalovant_rust_sdk.Noise.Cipher.{Bytes}
use thalovant_rust_sdk.Channel.{
  Host, Visits, Session, NoiseWrite, NoiseChannel, after, ◌>>=◌, give, change, ready, encode,
  not_ready, or_fail,
}
use thalovant_rust_sdk.Channel.Starting.{Act}
use thalovant_rust_sdk.Channel.Finishing.{or_empty}
use thalovant_rust_sdk.Channel.Receiving.{
  Got, receive, receive_inner, marked, received, before_session, in_session, take_clear, take_hello,
  take_payload, take_shake, shaken, failed_before, plaintext, ciphertext, duplicate_hello,
  too_early, no_noise, no_node_id,
}
use thalovant_rust_sdk.Channel.Life.{Frame, feed}

if_true : {A : Type 0} (b : Bool) (x y : A) → b ≡ true → (if b then x else y) ≡ x
if_true b x y e = rw e

if_false : {A : Type 0} (b : Bool) (x y : A) → b ≡ false → (if b then x else y) ≡ y
if_false b x y e = rw e

module _ (h : Host) where
  open h use {from_slice}

  -- A call that hands no message on.
  record Silent (m : Act h Got) : Type 0 where
    silent :
        (ch : NoiseChannel h) (message : HiveMessage) (writes : List NoiseWrite)
        → (m ch).1 ≡ ok (some message, writes)
        → ⊥

  after-Silent :
      {A : Type 0} (x : NoiseChannel h × Result A) (k : A → Act h Got) (message : HiveMessage)
      (writes : List NoiseWrite)
      → ((a : A) → Silent (k a))
      → (after x k).1 ≡ ok (some message, writes)
      → ⊥
  after-Silent (ch, ok a) k message writes s e = (s a).silent ch message writes e
  after-Silent (ch, err x) k message writes s e = cc

  bind-Silent :
      {A : Type 0} (m : Act h A) (k : A → Act h Got) → ((a : A) → Silent (k a)) → Silent (m >>= k)
  unfolding ◌>>=◌
  bind-Silent m k s = record {
    silent = λ ch message writes e. after-Silent (m ch) k message writes s e;
  }

  none-some :
      (message : HiveMessage) (sent writes : List NoiseWrite)
      → ◌≡◌ {A = Result Got} (ok (none, sent)) (ok (some message, writes))
      → ⊥
  none-some message sent writes e = cc

  err-some :
      (x : ThalovantError) (message : HiveMessage) (writes : List NoiseWrite)
      → ◌≡◌ {A = Result Got} (err x) (ok (some message, writes))
      → ⊥
  err-some x message writes e = cc

  wrote-Silent : (writes : List NoiseWrite) → Silent (give (ok (none, writes)))
  unfolding give
  wrote-Silent writes = record { silent = λ ch message sent e. none-some message writes sent e }

  err-Silent : (x : ThalovantError) → Silent (give (err x))
  unfolding give
  err-Silent x = record { silent = λ ch message writes e. err-some x message writes e }

  Silent-if : (b : Bool) (m n : Act h Got) → Silent m → Silent n → Silent (if b then m else n)
  Silent-if true m n s t = s
  Silent-if false m n s t = t

  payload-Silent : (b : Bool) (payload : Fields) → Silent (take_payload h b payload)
  payload-Silent true payload = err-Silent no_node_id
  payload-Silent false payload =
      bind-Silent (change (λ c. record c { hello = some payload })) _ (λ _. wrote-Silent [])

  take_hello-Silent : (ch : NoiseChannel h) (m : HiveMessage) → Silent (take_hello h ch m)
  unfolding take_hello
  take_hello-Silent ch m =
      Silent-if (is_some ch.hello || is_some ch.handshake) _ _ (err-Silent duplicate_hello) (
        bind-Silent
          (change (λ c. record c { node_id = or_empty (as_str (get "node_id" m.payload)) })) _
          (λ _. payload-Silent (str_eq (or_empty (as_str (get "node_id" m.payload))) "") m.payload))

  take_clear-Silent :
      (w : Visits) (ch : NoiseChannel h) (m : HiveMessage) → Silent (take_clear h w ch m)
  unfolding take_clear take_shake
  take_clear-Silent w ch m = Silent-if (str_eq m.msg_type "hello") _ _ (take_hello-Silent ch m) (
      Silent-if (str_eq m.msg_type "shake" || str_eq m.msg_type "handshake") _ _
        (bind-Silent (give (or_fail no_noise (as_object (get "noise" m.payload)))) _
          (λ params. bind-Silent (shaken h w ch m params) _ (λ writes. wrote-Silent writes)))
        (err-Silent too_early))

  before_session-Silent :
      (w : Visits) (ch : NoiseChannel h) (bytes : Bytes) (binary : Bool)
      → Silent (before_session h w ch bytes binary)
  unfolding before_session
  before_session-Silent w ch bytes true = err-Silent ciphertext
  before_session-Silent w ch bytes false =
      bind-Silent (give (or_fail json (from_slice bytes))) _ (λ m. take_clear-Silent w ch m)

  marked_result : (x : NoiseChannel h × Result Got) → (marked h x).1 ≡ x.1
  marked_result (ch, ok got) = refl
  marked_result (ch, err e) = refl

  -- What came out of a frame that was taken in.
  session_spoke :
      (w : Visits) (bytes : Bytes) (binary : Bool) (ch : NoiseChannel h) (o : Option (Session h))
      (message : HiveMessage) (writes : List NoiseWrite)
      → (received h w bytes binary ch o).1 ≡ ok (some message, writes)
      → (is_some o ≡ true) × (binary ≡ true)
  unfolding in_session give
  session_spoke w bytes true ch (some s) message writes e = (refl, refl)
  session_spoke w bytes false ch (some s) message writes e =
      absurd (err-some plaintext message writes e)
  session_spoke w bytes binary ch none message writes e =
      absurd ((before_session-Silent w ch bytes binary).silent ch message writes e)

  receive_bad :
      (w : Visits) (bytes : Bytes) (binary : Bool) (ch : NoiseChannel h)
      → ch.is_failed ≡ true
      → receive h w bytes binary ch ≡ (ch, err failed_before)
  unfolding receive
  receive_bad w bytes binary ch f = if_true ch.is_failed _ _ f

  receive_good :
      (w : Visits) (bytes : Bytes) (binary : Bool) (ch : NoiseChannel h)
      → ch.is_failed ≡ false
      → receive h w bytes binary ch ≡ marked h (received h w bytes binary ch ch.session)
  unfolding receive receive_inner
  receive_good w bytes binary ch f = if_false ch.is_failed _ _ f

  session_ready :
      (ch : NoiseChannel h) → is_some ch.session ≡ true → ch.is_failed ≡ false → ready h ch ≡ true
  unfolding ready
  session_ready ch s f = ground (arith, s, f)

  -- A message is handed on only out of a binary frame, by a channel that is ready: nothing that comes
  -- in the clear, nor anything of the handshake, passes for traffic.
  pub delivered_in_session :
      (w : Visits) (bytes : Bytes) (binary : Bool) (ch : NoiseChannel h) (message : HiveMessage)
      (writes : List NoiseWrite)
      → (receive h w bytes binary ch).1 ≡ ok (some message, writes)
      → (ready h ch ≡ true) × (binary ≡ true)
  delivered_in_session w bytes binary ch message writes e = elim (Bool-cases ch.is_failed) [
    | inl bad ↦ absurd (
        err-some failed_before message writes
          (sym (ap (λ x. x.1) (receive_bad w bytes binary ch bad)) ∙ e))
    | inr good ↦
        (let x = received h w bytes binary ch ch.session in
          let (s, b) = session_spoke w bytes binary ch ch.session message writes (
            sym (marked_result x)
            ∙ sym (ap (λ x. x.1) (receive_good w bytes binary ch good))
            ∙ e) in
          (session_ready ch s good, b))
  ]

  marked_failed :
      (x : NoiseChannel h × Result Got) (e : ThalovantError)
      → (marked h x).1 ≡ err e
      → (marked h x).0.is_failed ≡ true
  marked_failed (ch, ok got) e p = absurd (cc)
  marked_failed (ch, err x) e p = refl

  fails :
      (w : Visits) (bytes : Bytes) (binary : Bool) (ch : NoiseChannel h) (e : ThalovantError)
      → (receive h w bytes binary ch).1 ≡ err e
      → (receive h w bytes binary ch).0.is_failed ≡ true
  fails w bytes binary ch e p = elim (Bool-cases ch.is_failed) [
    | inl bad ↦ ap (λ x. x.0.is_failed) (receive_bad w bytes binary ch bad) ∙ bad
    | inr good ↦
        ap (λ x. x.0.is_failed) (receive_good w bytes binary ch good)
        ∙ marked_failed (received h w bytes binary ch ch.session) e
            (sym (ap (λ x. x.1) (receive_good w bytes binary ch good)) ∙ p)
  ]

  stays_failed :
      (frames : List Frame) (ch : NoiseChannel h) → ch.is_failed ≡ true → feed h frames ch ≡ ch
  unfolding feed
  stays_failed [] ch f = refl
  stays_failed (x ∷ frames) ch f =
      ap (λ y. feed h frames y.0) (receive_bad x.visits x.bytes x.is_binary ch f)
      ∙ stays_failed frames ch f

  failed_encode :
      (ch : NoiseChannel h) (m : HiveMessage)
      → ch.is_failed ≡ true
      → (ready h ch ≡ false) × (encode h m ch ≡ (ch, err (not_ready h)))
  unfolding encode ready
  failed_encode ch m f = ground (arith, f)

  -- A frame that is refused ends the channel: whatever frames come after it, the channel stays as it
  -- is, it is not ready, and it encodes nothing more.
  pub refused_for_good :
      (w : Visits) (bytes : Bytes) (binary : Bool) (ch : NoiseChannel h) (e : ThalovantError)
      (frames : List Frame) (m : HiveMessage)
      → (receive h w bytes binary ch).1 ≡ err e
      → (feed h frames (receive h w bytes binary ch).0 ≡ (receive h w bytes binary ch).0)
        × (ready h (receive h w bytes binary ch).0 ≡ false)
        × (encode h m (receive h w bytes binary ch).0
            ≡ ((receive h w bytes binary ch).0, err (not_ready h)))
  refused_for_good w bytes binary ch e frames m p =
      let f = fails w bytes binary ch e p in
      let (r, s) = failed_encode (receive h w bytes binary ch).0 m f in
      (stays_failed frames (receive h w bytes binary ch).0 f, r, s)

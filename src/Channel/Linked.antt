-- ===== src/Channel/Linked.antt =====
-- `receive_noise` of src/transport.rs: the channel in its slot, and what the control is told.
use thalovant_rust_sdk.Prelude.{
  Bool, true, false, Option, none, some, List, [], ◌∷◌, is_some, if◌then◌else◌, ◌≡◌, refl, sym, ◌∙◌,
}
use thalovant_rust_sdk.Errors.{ThalovantError, connection, Result, ok, err}
use thalovant_rust_sdk.Noise.Cipher.{Bytes}
use thalovant_rust_sdk.Noise.Select.{noise_pattern_xx}
use thalovant_rust_sdk.Noise.Frames as Frames
use thalovant_rust_sdk.Noise.Frames.{NoiseSession, NoiseFrame, decrypt_frame}
use thalovant_rust_sdk.Channel.{Host, Session, NoiseChannel, ◌>>=◌, give, change, is_pattern}
use thalovant_rust_sdk.Channel.Receiving.{
  Got, receive, receive_inner, marked, received, in_session, heard_frame, failed_before,
}
use thalovant_rust_sdk.Channel.Life.{Frame}
use thalovant_rust_sdk.Control.{ConnectionControl, note_failure, note_verdict, verdict_of}

abbrev pub not_connected : ThalovantError
not_connected = connection "Noise transport is not connected"

module _ (h : Host) where
  open h use {snow}
  open snow use {calls}

  pub record Linked : Type 0 where
    pub slot : Option (NoiseChannel h)
    pub control : ConnectionControl

  -- In a session: a frame that was decrypted is noted.
  abbrev pub noted_heard : ConnectionControl → NoiseChannel h × Result Got → Linked × Result Got
  noted_heard c (ch, r) =
      (record { slot = some ch; control = if ch.heard then record c { heard = true } else c }, r)

  -- Before one: a failure is noted, or how the handshake that just ended was made.
  abbrev pub noted_handshake : ConnectionControl → NoiseChannel h × Result Got → Linked × Result Got
  noted_handshake c (ch, err e) =
      (record { slot = some ch; control = note_failure e ch.kk_failed c }, err e)
  noted_handshake c (ch, ok got) = (
    record {
      slot = some ch;
      control =
          if is_some ch.session
          then record c { completed_xx = is_pattern h noise_pattern_xx ch.pattern_name }
          else c;
    },
    ok got,
  )

  abbrev pub received_by : Frame → ConnectionControl → NoiseChannel h → Bool → Linked × Result Got
  received_by f c ch true = noted_heard c (receive h f.visits f.bytes f.is_binary ch)
  received_by f c ch false = noted_handshake c (receive h f.visits f.bytes f.is_binary ch)

  abbrev pub receive_in : Frame → ConnectionControl → Option (NoiseChannel h) → Linked × Result Got
  receive_in f c none = (record { slot = none; control = c }, err not_connected)
  receive_in f c (some ch) = received_by f c ch (is_some ch.session)

  unfoldable pub receive_noise : Frame → Linked → Linked × Result Got
  unfolding receive note_failure
  receive_noise f l = receive_in f l.control l.slot

  unfoldable pub feed_link : List Frame → Linked → Linked
  unfolding receive_noise
  feed_link [] l = l
  feed_link (f ∷ fs) l = feed_link fs (receive_noise f l).0

  abbrev pub has_session : Option (NoiseChannel h) → Bool
  has_session none = false
  has_session (some ch) = is_some ch.session

  -- A session that is open stays.
  record Proven (l : Linked) : Type 0 where
    proven : l.control.heard ≡ true → has_session l.slot ≡ true

  heard_stays :
      (ch : NoiseChannel h) (s : Session h) (x : NoiseSession calls × Frames.Result NoiseFrame)
      → is_some (heard_frame h x s ch).0.session ≡ true
  unfolding ◌>>=◌ give change
  heard_stays ch s (noise, Frames.ok frame) = refl
  heard_stays ch s (noise, Frames.err e) = refl

  in_session_stays :
      (ch : NoiseChannel h) (s : Session h) (bytes : Bytes) (binary : Bool)
      → is_some ch.session ≡ true
      → is_some (in_session h bytes binary s ch).0.session ≡ true
  unfolding in_session give
  in_session_stays ch s bytes false o = o
  in_session_stays ch s bytes true o = heard_stays ch s (decrypt_frame calls s.noise bytes)

  received_stays :
      (f : Frame) (ch : NoiseChannel h) (o : Option (Session h))
      → is_some o ≡ true
      → is_some ch.session ≡ true
      → is_some (received h f.visits f.bytes f.is_binary ch o).0.session ≡ true
  received_stays f ch none e p = absurd (cc)
  received_stays f ch (some s) e p = in_session_stays ch s f.bytes f.is_binary p

  marked_stays :
      (x : NoiseChannel h × Result Got)
      → is_some x.0.session ≡ true
      → is_some (marked h x).0.session ≡ true
  marked_stays (ch, ok got) p = p
  marked_stays (ch, err e) p = p

  stays_if :
      (b : Bool) (x y : NoiseChannel h × Result Got)
      → is_some x.0.session ≡ true
      → is_some y.0.session ≡ true
      → is_some (if b then x else y).0.session ≡ true
  stays_if true x y p q = p
  stays_if false x y p q = q

  receive_stays :
      (f : Frame) (ch : NoiseChannel h)
      → is_some ch.session ≡ true
      → is_some (receive h f.visits f.bytes f.is_binary ch).0.session ≡ true
  unfolding receive receive_inner
  receive_stays f ch p =
      stays_if ch.is_failed (ch, err failed_before)
        (marked h (receive_inner h f.visits f.bytes f.is_binary ch)) p
        (marked_stays (receive_inner h f.visits f.bytes f.is_binary ch)
          (received_stays f ch ch.session p p))

  heard_same :
      (c : ConnectionControl) (e : ThalovantError) (kk : Bool)
      → (note_failure e kk c).heard ≡ c.heard
  unfolding note_failure
  heard_same c e kk = elim (verdict_of e) as (λ v. (note_verdict c kk v).heard ≡ c.heard) [
    | none ↦ refl
    | some v ↦ refl
  ]

  noted_same :
      (c : ConnectionControl) (x : NoiseChannel h × Result Got)
      → (noted_handshake c x).0.control.heard ≡ c.heard
  noted_same c (ch, err e) = heard_same c e ch.kk_failed
  noted_same c (ch, ok got) =
      elim (is_some ch.session)
        as (λ b.
          (if b
            then record c { completed_xx = is_pattern h noise_pattern_xx ch.pattern_name }
            else c).heard
          ≡ c.heard) [ true ↦ refl | false ↦ refl ]

  received_by-Proven :
      (f : Frame) (c : ConnectionControl) (ch : NoiseChannel h) (o : Bool)
      → is_some ch.session ≡ o
      → (c.heard ≡ true → o ≡ true)
      → Proven (received_by f c ch o).0
  received_by-Proven f c ch true e p = record { proven = λ t. receive_stays f ch e }
  received_by-Proven f c ch false e p = record {
    proven = λ t.
        absurd (never (p (sym (noted_same c (receive h f.visits f.bytes f.is_binary ch)) ∙ t)));
  }
    where
      never : false ≡ true → ⊥
      never e = cc

  receive_in-Proven :
      (f : Frame) (c : ConnectionControl) (slot : Option (NoiseChannel h))
      → (c.heard ≡ true → has_session slot ≡ true)
      → Proven (receive_in f c slot).0
  receive_in-Proven f c none p = record { proven = p }
  receive_in-Proven f c (some ch) p = received_by-Proven f c ch (is_some ch.session) refl p

  feed-Proven : (frames : List Frame) (l : Linked) → Proven l → Proven (feed_link frames l)
  unfolding feed_link receive_noise
  feed-Proven [] l p = p
  feed-Proven (f ∷ fs) l p =
      feed-Proven fs (receive_noise f l).0 (receive_in-Proven f l.control l.slot p.proven)

  -- On a link that was reset, whatever frames come, the hub counts as heard only when the channel has
  -- a session: no frame before it makes a later close a mere drop.
  pub heard_in_session :
      (frames : List Frame) (l : Linked)
      → l.control.heard ≡ false
      → (feed_link frames l).control.heard ≡ true
      → has_session (feed_link frames l).slot ≡ true
  heard_in_session frames l quiet h =
      (feed-Proven frames l (record { proven = λ t. absurd (never (sym quiet ∙ t)) })).proven h
    where
      never : false ≡ true → ⊥
      never e = cc

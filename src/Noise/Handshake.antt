-- ===== src/Noise/Handshake.antt =====
-- The initiator's side of a handshake: `NoiseHandshake` of src/noise.rs over the `snow` crate.
use Prim.Native.String.{String, ◌++◌}
use text.Mathlib.Text.{◌==◌ as str_eq}
use thalovant_rust_sdk.Prelude.{ℕ, Bool, Option, none, some, length, ◌==◌, if◌then◌else◌, is_some}
use thalovant_rust_sdk.Errors.{ThalovantError, connection, crypto, Result, ok, err}
use thalovant_rust_sdk.Noise.Cipher.{Bytes, Calls}
use thalovant_rust_sdk.Noise.Select.{noise_pattern_kk, noise_pattern_xx}

-- The calls of `snow` on a handshake: `none` is an error. A prologue is a text.
pub record Snow : Type 1 where
  pub calls : Calls
  pub HandshakeState : Type 0
  pub build_initiator :
      (name : String) (static_key : Bytes) (prologue : String) (psk_index : ℕ) (psk : Bytes)
      (remote : Option Bytes)
      → Option HandshakeState
  pub write_handshake : HandshakeState → Bytes → HandshakeState × Option Bytes
  pub read_handshake : HandshakeState → Bytes → HandshakeState × Option Bytes
  pub is_handshake_finished : HandshakeState → Bool
  pub get_remote_static : HandshakeState → Option Bytes
  pub into_transport_mode : HandshakeState → Option calls.Transport

abbrev pub noise_protocol_name : String → String → String
noise_protocol_name pattern_name suite = "Noise_" ++ (pattern_name ++ ("_" ++ suite))

-- The error messages leave out what `snow` says.
abbrev pub unsupported_pattern : ThalovantError
unsupported_pattern = connection "unsupported Noise pattern"

abbrev pub needs_pin : ThalovantError
needs_pin = connection "KKpsk0 needs a pinned 32-byte hub static key"

abbrev pub not_started : ThalovantError
not_started = connection "could not start the Noise handshake"

abbrev pub already_finished : ThalovantError
already_finished = connection "the Noise handshake has already finished"

abbrev pub write_failed : ThalovantError
write_failed = connection "Noise handshake write failed"

abbrev pub not_authenticated : ThalovantError
not_authenticated =
    connection "Noise handshake authentication failed (wrong password or tampered negotiation)"

abbrev pub no_transport : ThalovantError
no_transport = connection "could not enter Noise transport mode"

abbrev pub not_finished : ThalovantError
not_finished = connection "the Noise handshake is not finished"

unfoldable pub psk_index_of : String → Option ℕ
psk_index_of name =
    if str_eq name noise_pattern_xx
    then some 2
    else if str_eq name noise_pattern_kk
    then some 0
    else none

-- The pinned key, decoded, which KK needs; `some none` for XX.
abbrev pub pinned_bytes : Option Bytes → Option (Option Bytes)
pinned_bytes none = none
pinned_bytes (some b) = if length b == 32 then some (some b) else none

abbrev pub or_empty_key : Option String → String
or_empty_key none = ""
or_empty_key (some key) = key

abbrev pub remote_of : (String → Option Bytes) → String → Option String → Option (Option Bytes)
remote_of hex_decode name pin =
    if str_eq name noise_pattern_kk then pinned_bytes (hex_decode (or_empty_key pin)) else some none

module _ (snow : Snow) where
  open snow use {
    calls, HandshakeState, build_initiator, write_handshake, read_handshake, is_handshake_finished,
    get_remote_static, into_transport_mode,
  }

  pub record NoiseHandshake : Type 0 where
    pub state : Option HandshakeState
    pub transport : Option calls.Transport
    pub remote_static_key : Option String

  abbrev pub initiated : Option HandshakeState → Result NoiseHandshake
  initiated none = err not_started
  initiated (some state) =
      ok (record { state = some state; transport = none; remote_static_key = none })

  abbrev pub built :
      String → String → Bytes → String → Bytes → ℕ → Option (Option Bytes) → Result NoiseHandshake
  built name suite psk prologue static_key index none = err needs_pin
  built name suite psk prologue static_key index (some remote) =
      initiated
        (build_initiator (noise_protocol_name name suite) static_key prologue index psk remote)

  abbrev pub indexed :
      (String → Option Bytes)
      → String
      → String
      → Bytes
      → String
      → Bytes
      → Option String
      → Option ℕ
      → Result NoiseHandshake
  indexed hex_decode name suite psk prologue static_key pin none = err unsupported_pattern
  indexed hex_decode name suite psk prologue static_key pin (some index) =
      built name suite psk prologue static_key index (remote_of hex_decode name pin)

  unfoldable pub new_handshake :
      (String → Option Bytes)
      → String
      → String
      → Bytes
      → String
      → Bytes
      → Option String
      → Result NoiseHandshake
  unfolding psk_index_of
  new_handshake hex_decode name suite psk prologue static_key pin =
      indexed hex_decode name suite psk prologue static_key pin (psk_index_of name)

  abbrev pub hex_of : (Bytes → String) → Option Bytes → Option String
  hex_of hex_encode none = none
  hex_of hex_encode (some b) = some (hex_encode b)

  -- `maybe_finish`, before the bytes that the call returns.
  abbrev pub moved : NoiseHandshake → Bytes → Option calls.Transport → NoiseHandshake × Result Bytes
  moved h bytes none = (h, err no_transport)
  moved h bytes (some t) = (record h { transport = some t }, ok bytes)

  abbrev pub maybe_finish :
      (Bytes → String) → NoiseHandshake → HandshakeState → Bytes → NoiseHandshake × Result Bytes
  maybe_finish hex_encode h state bytes =
      if is_handshake_finished state
      then moved
          (record h {
            state = none;
            remote_static_key = hex_of hex_encode (get_remote_static state);
          })
          bytes (into_transport_mode state)
      else (record h { state = some state }, ok bytes)

  abbrev pub stepped :
      (Bytes → String)
      → NoiseHandshake
      → ThalovantError
      → HandshakeState × Option Bytes
      → NoiseHandshake × Result Bytes
  stepped hex_encode h e (state, none) = (record h { state = some state }, err e)
  stepped hex_encode h e (state, some bytes) = maybe_finish hex_encode h state bytes

  abbrev pub write_with :
      (Bytes → String)
      → NoiseHandshake
      → Bytes
      → Option HandshakeState
      → NoiseHandshake × Result Bytes
  write_with hex_encode h payload none = (h, err already_finished)
  write_with hex_encode h payload (some state) =
      stepped hex_encode h write_failed (write_handshake state payload)

  unfoldable pub write_message :
      (Bytes → String) → NoiseHandshake → Bytes → NoiseHandshake × Result Bytes
  write_message hex_encode h payload = write_with hex_encode h payload h.state

  abbrev pub read_with :
      (Bytes → String)
      → NoiseHandshake
      → Bytes
      → Option HandshakeState
      → NoiseHandshake × Result Bytes
  read_with hex_encode h message none = (h, err already_finished)
  read_with hex_encode h message (some state) =
      stepped hex_encode h not_authenticated (read_handshake state message)

  unfoldable pub read_message :
      (Bytes → String) → NoiseHandshake → Bytes → NoiseHandshake × Result Bytes
  read_message hex_encode h message = read_with hex_encode h message h.state

  abbrev pub is_finished : NoiseHandshake → Bool
  is_finished h = is_some h.transport

  -- The session's transport, and the hub's key in hexadecimal.
  abbrev pub into_session_from :
      Option String → Option calls.Transport → Result (calls.Transport × Option String)
  into_session_from key none = err not_finished
  into_session_from key (some t) = ok (t, key)

  unfoldable pub into_session : NoiseHandshake → Result (calls.Transport × Option String)
  into_session h = into_session_from h.remote_static_key h.transport

abbrev pub no_psk : ThalovantError
no_psk = crypto "could not derive the Noise pre-shared key"

abbrev pub psk_of : Option Bytes → Result Bytes
psk_of none = err no_psk
psk_of (some psk) = ok psk

-- `digest` is SHA-256, and `argon2id` hashes with the parameters of the source.
unfoldable pub derive_psk :
    (String → Bytes) → (String → Bytes → Option Bytes) → String → String → Result Bytes
derive_psk digest argon2id password node_id = psk_of (argon2id password (digest node_id))

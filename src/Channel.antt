-- ===== src/Channel.antt =====
-- src/transport.rs: `NoiseChannel`, the negotiation of a link and the session that comes of it. The
-- children have the handshake, the receiving of frames, and what they promise.
pub mod Starting
pub mod Finishing
pub mod Receiving
pub mod Opening
pub mod Quiet
pub mod Establishing
pub mod Trusting
pub mod Life
pub mod Gate
pub mod Linked
use Prim.Native.Char.{Char, code}
use Prim.Native.String.{String}
use text.Mathlib.Text.{◌==◌ as str_eq}
use thalovant_rust_sdk.Prelude.{
  Bool, true, false, not, ◌&&◌, Option, none, some, List, [], ◌∷◌, if◌then◌else◌, is_some,
}
use thalovant_rust_sdk.Json.{Number, Fields}
use thalovant_rust_sdk.Errors.{ThalovantError, connection, json, runtime, io, Result, ok, err}
use thalovant_rust_sdk.Wire as Wire
use thalovant_rust_sdk.Wire.{
  HiveMessage, WireError, not_json, metadata_too_long, end_of_frame, unreachable,
  unsupported_version, corrupt, too_large, not_text,
}
use thalovant_rust_sdk.Trust.{Folder, Codec, Answers, Outcome}
use thalovant_rust_sdk.Trust.Calls.{Action, run}
use thalovant_rust_sdk.Noise.Cipher.{Bytes, Calls}
use thalovant_rust_sdk.Noise.Select.{noise_pattern_kk}
use thalovant_rust_sdk.Noise.Frames as Frames
use thalovant_rust_sdk.Noise.Frames.{NoiseSession, encrypt_message}
use thalovant_rust_sdk.Noise.Handshake.{Snow, NoiseHandshake}

-- The crates below: snow, serde_json on maps of texts, on messages and on numbers, the frames' codec,
-- the hashes, and a fresh UUID.
pub record Host : Type 1 where
  pub snow : Snow
  pub files : Codec
  pub wire : Wire.Codec
  pub from_slice : Bytes → Option HiveMessage
  pub to_vec : HiveMessage → Option Bytes
  pub show : Number → String
  pub digest : String → Bytes
  pub argon2id : String → Bytes → Option Bytes
  pub uuid : String

pub record Identity : Type 0 where
  pub password : String
  pub public_key : Option String
  pub site_id : String

-- One call on the state folder: what other processes did to the folder since the call before, and
-- what the call is answered.
pub record Visit : Type 0 where
  pub meanwhile : List Action
  pub answers : Answers

-- The calls of one `receive`. A copy of an old key makes two writes, after a reading of the old folder.
pub record Visits : Type 0 where
  pub adopt : Visit
  pub adopt_from : Answers
  pub adopt_key : Answers
  pub load_pin : Visit
  pub make_key : Visit
  pub load_psk : Visit
  pub save_psk : Visit
  pub forget_psk : Visit
  pub check_pin : Visit
  pub pin_key : Visit

pub record NoiseWrite : Type 0 where
  pub payload : Bytes
  pub is_binary : Bool

-- ASCII text.
unfoldable pub as_bytes : String → Bytes
as_bytes String.[] = []
as_bytes (String.◌∷◌ c s) = code c ∷ as_bytes s

-- The errors without their details.
abbrev pub of_frame : {A : Type 0} → Frames.Result A → Result A
of_frame (Frames.ok a) = ok a
of_frame (Frames.err e) = err (connection "Noise transport failed")

abbrev pub wire_error : WireError → ThalovantError
wire_error not_json = json
wire_error corrupt = io
wire_error metadata_too_long = runtime "metadata is too long"
wire_error end_of_frame = runtime "unexpected end of frame"
wire_error unreachable = runtime "unreachable"
wire_error (unsupported_version n) = runtime "unsupported version"
wire_error too_large = runtime "the frame inflates past its limit"
wire_error not_text = runtime "not UTF-8"

abbrev pub of_wire : {A : Type 0} → Wire.Result A → Result A
of_wire (Wire.ok a) = ok a
of_wire (Wire.err e) = err (wire_error e)

abbrev pub or_fail : {A : Type 0} → ThalovantError → Option A → Result A
or_fail e none = err e
or_fail e (some a) = ok a

-- A call on a state that may fail.
abbrev pub Op : Type 0 → Type 0 → Type 0
Op S A = S → S × Result A

abbrev pub after : {S A B : Type 0} → S × Result A → (A → Op S B) → S × Result B
after (s, err e) k = (s, err e)
after (s, ok a) k = k a s

infixl 5 ◌>>=◌ ◌>>◌
unfoldable pub ◌>>=◌ : {S A B : Type 0} → Op S A → (A → Op S B) → Op S B
(m >>= k) s = after (m s) k

abbrev pub ◌>>◌ : {S B : Type 0} → Op S (Unit {0}) → Op S B → Op S B
m >> n = m >>= λ _. n

unfoldable pub give : {S A : Type 0} → Result A → Op S A
give r s = (s, r)

abbrev pub changed : {S : Type 0} → S → S × Result (Unit {0})
changed s = (s, ok tt)

unfoldable pub change : {S : Type 0} → (S → S) → Op S (Unit {0})
change f s = changed (f s)

unfoldable pub get_state : {S : Type 0} → Op S S
get_state s = (s, ok s)

-- `let _ = ..`.
unfoldable pub ignoring : {S A : Type 0} → Op S A → Op S (Unit {0})
ignoring m s = changed (m s).0

module _ (h : Host) where
  open h use {snow, files, to_vec}
  open snow use {calls}

  pub record Session : Type 0 where
    pub noise : NoiseSession calls
    pub remote_static_key : Option String

  -- `disk` is the state folder, the default one where the channel has none; `adopt_from` has the old
  -- folder, and whether it is the same one.
  pub record NoiseChannel : Type 0 where
    pub identity : Identity
    pub disk : Folder
    pub has_state_dir : Bool
    pub hello : Option Fields
    pub node_id : String
    pub handshake : Option (NoiseHandshake snow)
    pub session : Option Session
    pub is_failed : Bool
    pub force_xx : Bool
    pub pattern_name : Option String
    pub kk_failed : Bool
    pub heard : Bool
    pub adopt_from : Option (Folder × Bool)

  unfoldable pub new_channel : Identity → Folder → Bool → Bool → NoiseChannel
  new_channel identity disk has_state_dir force_xx = record {
    identity = identity;
    disk = disk;
    has_state_dir = has_state_dir;
    hello = none;
    node_id = "";
    handshake = none;
    session = none;
    is_failed = false;
    force_xx = force_xx;
    pattern_name = none;
    kk_failed = false;
    heard = false;
    adopt_from = none;
  }

  unfoldable pub adopting : NoiseChannel → Option (Folder × Bool) → NoiseChannel
  adopting ch from = record ch { adopt_from = from }

  abbrev pub is_pattern : String → Option String → Bool
  is_pattern name none = false
  is_pattern name (some p) = str_eq p name

  unfoldable pub kk_pending : NoiseChannel → Bool
  kk_pending ch =
      not (is_some ch.session)
      && (is_some ch.handshake && is_pattern noise_pattern_kk ch.pattern_name)

  unfoldable pub ready : NoiseChannel → Bool
  ready ch = is_some ch.session && not ch.is_failed

  abbrev pub key_in : Option Session → Option String
  key_in none = none
  key_in (some s) = s.remote_static_key

  unfoldable pub remote_key : NoiseChannel → Option String
  remote_key ch = if ch.is_failed then none else key_in ch.session

  abbrev pub put_disk : {A : Type 0} → NoiseChannel → Outcome A → NoiseChannel × Result A
  put_disk ch (f, r) = (record ch { disk = f }, r)

  -- A call on the state folder, after what other processes did.
  unfoldable pub on_disk : {A : Type 0} → Visit → (Answers → Folder → Outcome A) → Op NoiseChannel A
  unfolding run
  on_disk v call ch = put_disk ch (call v.answers (run files ch.disk v.meanwhile))

  abbrev pub binary_write : Bytes → NoiseWrite
  binary_write payload = record { payload = payload; is_binary = true }

  unfoldable pub binary_writes : List Bytes → List NoiseWrite
  binary_writes [] = []
  binary_writes (p ∷ ps) = binary_write p ∷ binary_writes ps

  abbrev pub not_ready : ThalovantError
  not_ready = connection "refusing to send before the v3 Noise session is established"

  abbrev pub writes_of :
      NoiseChannel
      → Session
      → NoiseSession calls × Frames.Result (List Bytes)
      → NoiseChannel × Result (List NoiseWrite)
  writes_of ch s (t, Frames.err e) = (
    record ch { session = some (record s { noise = t }) },
    err (connection "Noise transport failed"),
  )
  writes_of ch s (t, Frames.ok frames) =
      (record ch { session = some (record s { noise = t }) }, ok (binary_writes frames))

  abbrev pub encode_bytes :
      NoiseChannel → Session → Option Bytes → NoiseChannel × Result (List NoiseWrite)
  encode_bytes ch s none = (ch, err json)
  encode_bytes ch s (some bytes) = writes_of ch s (encrypt_message calls s.noise bytes true)

  abbrev pub encode_in :
      NoiseChannel → HiveMessage → Option Session → NoiseChannel × Result (List NoiseWrite)
  encode_in ch m none = (ch, err not_ready)
  encode_in ch m (some s) = encode_bytes ch s (to_vec m)

  unfoldable pub encode : HiveMessage → Op NoiseChannel (List NoiseWrite)
  unfolding encrypt_message binary_writes ready
  encode m ch = if ready ch then encode_in ch m ch.session else (ch, err not_ready)

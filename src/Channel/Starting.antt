-- ===== src/Channel/Starting.antt =====
-- `NoiseChannel::start` of src/transport.rs: the answer to a hub's offer.
use Prim.Native.String.{String}
use text.Mathlib.Text.{◌==◌ as str_eq}
use thalovant_rust_sdk.Prelude.{
  Bool, true, false, ◌||◌, Option, none, some, List, [], ◌∷◌, if◌then◌else◌, is_some,
}
use thalovant_rust_sdk.Json.{
  Value, bool, string, array, object, Items, nil, Fields, end, field, get, as_array, strings_of,
}
use thalovant_rust_sdk.Errors.{
  ThalovantError, connection, json, missing_identity_field, Result, ok, err,
}
use thalovant_rust_sdk.Wire.{HiveMessage}
use thalovant_rust_sdk.Trust.{Folder}
use thalovant_rust_sdk.Trust.Pins.{load_noise_pin}
use thalovant_rust_sdk.Trust.Keys.{load_or_create_noise_key, load_cached_psk, save_cached_psk}
use thalovant_rust_sdk.Trust.Adopt.{adopt_legacy_key}
use thalovant_rust_sdk.Noise.Cipher.{Bytes}
use thalovant_rust_sdk.Noise.Select.{select_noise_options}
use thalovant_rust_sdk.Noise.Canonical.{canonical_json, build_prologue}
use thalovant_rust_sdk.Noise.Handshake.{
  NoiseHandshake, noise_protocol_name, new_handshake, write_message, derive_psk,
}
use thalovant_rust_sdk.Channel.{
  Host, Visits, NoiseWrite, as_bytes, or_fail, NoiseChannel, Op, ◌>>=◌, ◌>>◌, give, change,
  get_state, on_disk, ignoring,
}

abbrev pub string_items : Option Items → List String
string_items none = []
string_items (some xs) = strings_of xs

abbrev pub string_list : Option Value → List String
string_list v = string_items (as_array v)

abbrev pub unexpected_offer : ThalovantError
unexpected_offer = connection "unexpected Noise capability offer"

abbrev pub no_password : ThalovantError
no_password = missing_identity_field "password: v3 Noise requires the identity password"

abbrev pub no_option : ThalovantError
no_option = connection "no supported Noise pattern and suite"

abbrev pub preferences : Value
preferences = object (field "binarize" (bool false) (field "encodings" (array nil) end))

abbrev pub shake_message : Fields → HiveMessage
shake_message params = record {
  msg_type = "shake";
  payload = field "noise" (object params) end;
  binary = none;
  metadata = end;
  route = nil;
  node = none;
  target_site_id = none;
  target_pubkey = none;
  source_peer = none;
}

module _ (h : Host) where
  open h use {snow, files, to_vec, show, digest, argon2id}

  abbrev pub clear_write : Bytes → NoiseWrite
  clear_write payload = record { payload = payload; is_binary = false }

  abbrev pub clear_of : Option Bytes → Result NoiseWrite
  clear_of none = err json
  clear_of (some payload) = ok (clear_write payload)

  unfoldable pub clear : Fields → Result NoiseWrite
  clear params = clear_of (to_vec (shake_message params))

  abbrev pub Act : Type 0 → Type 0
  Act A = Op (NoiseChannel h) A

  -- A key is copied where the channel has a state folder of its own.
  abbrev pub adopt_from : Visits → Bool → Option (Folder × Bool) → String → Act Bool
  adopt_from w false from node_id = give (ok false)
  adopt_from w true none node_id = give (ok false)
  adopt_from w true (some (legacy, same)) node_id =
      on_disk h w.adopt
        (λ a f. adopt_legacy_key files w.adopt_from a w.adopt_key same f legacy node_id)

  -- The old folder is taken either way.
  unfoldable pub adopt : Visits → Act Bool
  unfolding give on_disk adopt_legacy_key change ◌>>=◌ get_state
  adopt w = do
    ch ← get_state
    change (λ c. record c { adopt_from = none })
    adopt_from w ch.has_state_dir ch.adopt_from ch.node_id

  abbrev pub save_derived : Visits → String → Result Bytes → Act Bytes
  save_derived w node_id (err e) = give (err e)
  save_derived w node_id (ok psk) = do
    ignoring (on_disk h w.save_psk (λ a f. save_cached_psk files a f node_id psk))
    give (ok psk)

  abbrev pub psk_or : Visits → String → String → Option Bytes → Act Bytes
  psk_or w password node_id (some psk) = give (ok psk)
  psk_or w password node_id none =
      save_derived w node_id (derive_psk digest argon2id password node_id)

  unfoldable pub cached_psk : Visits → String → String → Act Bytes
  unfolding give on_disk load_cached_psk save_cached_psk ignoring ◌>>=◌ derive_psk
  cached_psk w password node_id = do
    cached ← on_disk h w.load_psk (λ a f. load_cached_psk files a f node_id)
    psk_or w password node_id cached

  abbrev pub keep_handshake : String → NoiseHandshake snow → Act (Unit {0})
  keep_handshake name handshake =
      change (λ c. record c { handshake = some handshake; pattern_name = some name })

  abbrev pub offer_with :
      String → String → NoiseHandshake snow × Result Bytes → Act (List NoiseWrite)
  offer_with name suite (handshake, err e) = give (err e)
  offer_with name suite (handshake, ok msg) = do
    keep_handshake name handshake
    write ← give (
        clear (
          field "pattern" (string name)
            (field "suite" (string suite) (field "msg" (string (files.hex_encode msg)) end))))
    give (ok (write ∷ []))

  unfoldable pub first_message : String → String → NoiseHandshake snow → Act (List NoiseWrite)
  unfolding give change clear ◌>>=◌ canonical_json as_bytes write_message
  first_message name suite handshake =
      offer_with name suite
        (write_message snow files.hex_encode handshake (as_bytes (canonical_json show preferences)))

  -- `expect("HELLO checked above")`: a node id comes with its HELLO.
  abbrev pub or_no_hello : Option Fields → Fields
  or_no_hello none = end
  or_no_hello (some fs) = fs

  abbrev pub selection_pin : Bool → Option String → Option String
  selection_pin force_xx pin = if force_xx then none else pin

  abbrev pub shake_hands :
      Visits → NoiseChannel h → Fields → Option String → String × String → Act (List NoiseWrite)
  shake_hands w ch offer pin (name, suite) = do
    key ← on_disk h w.make_key (λ a f. load_or_create_noise_key files a f)
    psk ← cached_psk w ch.identity.password ch.node_id
    handshake ← give (
        new_handshake snow files.hex_decode name suite psk
          (build_prologue show (or_no_hello ch.hello) offer (noise_protocol_name name suite)) key
          pin)
    first_message name suite handshake

  unfoldable pub negotiate : Visits → NoiseChannel h → Fields → Fields → Act (List NoiseWrite)
  unfolding give on_disk adopt load_noise_pin load_or_create_noise_key cached_psk first_message
      ◌>>=◌ new_handshake build_prologue select_noise_options
  negotiate w ch offer params = do
    _ ← adopt w
    pin ← on_disk h w.load_pin (λ a f. load_noise_pin files a f ch.node_id)
    chosen ← give (
        or_fail no_option (
          select_noise_options (string_list (get "patterns" params))
            (string_list (get "suites" params)) (selection_pin ch.force_xx pin)))
    shake_hands w ch offer pin chosen

  unfoldable pub start : Visits → NoiseChannel h → Fields → Fields → Act (List NoiseWrite)
  unfolding negotiate give
  start w ch offer params =
      if str_eq ch.node_id "" || is_some ch.handshake
      then give (err unexpected_offer)
      else if str_eq ch.identity.password ""
      then give (err no_password)
      else negotiate w ch offer params

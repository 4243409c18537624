-- ===== src/Channel/Finishing.antt =====
-- `NoiseChannel::continue_handshake` of src/transport.rs: the hub's answer, and the session.
use Prim.Native.String.{String, ◌++◌}
use text.Mathlib.Text.{◌==◌ as str_eq}
use thalovant_rust_sdk.Prelude.{
  Bool, true, false, not, Option, none, some, List, [], ◌∷◌, ◌++◌ as append, if◌then◌else◌,
}
use thalovant_rust_sdk.Json.{string, object, nil, Fields, end, field, get, as_str}
use thalovant_rust_sdk.Errors.{
  ThalovantError, connection, hub_refused, hub_key_changed, Result, ok, err,
}
use thalovant_rust_sdk.Wire.{HiveMessage}
use thalovant_rust_sdk.Trust.{eq_ignore_ascii_case}
use thalovant_rust_sdk.Trust.Pins.{load_noise_pin, pin_hub_key}
use thalovant_rust_sdk.Trust.Keys.{forget_cached_psk}
use thalovant_rust_sdk.Noise.Cipher.{Bytes}
use thalovant_rust_sdk.Noise.Select.{noise_pattern_kk}
use thalovant_rust_sdk.Noise.Handshake.{
  NoiseHandshake, read_message, write_message, is_finished, into_session,
}
use thalovant_rust_sdk.Channel.{
  Host, Identity, Visits, NoiseWrite, Session, or_fail, NoiseChannel, ◌>>=◌, ◌>>◌, give, change,
  on_disk, ignoring, is_pattern, encode,
}
use thalovant_rust_sdk.Channel.Starting.{Act, clear}

abbrev pub malformed : ThalovantError
malformed = connection "malformed Noise envelope"

abbrev pub not_negotiating : ThalovantError
not_negotiating = connection "Noise response before negotiation"

abbrev pub turned_away : ThalovantError
turned_away =
    hub_refused
      "the hub's Noise handshake did not authenticate under this password (wrong password, or a tampered negotiation)"

abbrev pub no_identity : ThalovantError
no_identity = connection "Noise peer supplied no static identity"

abbrev pub another_key : ThalovantError
another_key =
    hub_key_changed
      "if the hub was not reinstalled or replaced, another machine may be answering at this address. If it was, drop the stale pin with forget_noise_pin and connect again"

-- `filter(|msg| !msg.is_empty())`.
abbrev pub not_empty : Option String → Option String
not_empty none = none
not_empty (some s) = if str_eq s "" then none else some s

abbrev pub differs : Option String → String → Bool
differs none key = false
differs (some pinned) key = not (eq_ignore_ascii_case pinned key)

abbrev pub or_empty : Option String → String
or_empty none = ""
or_empty (some s) = s

abbrev pub hello_hive_message : String → Identity → String → HiveMessage
hello_hive_message uuid identity prefix = record {
  msg_type = "hello";
  payload = field "pubkey" (string (or_empty identity.public_key)) (
      field "session" (object (field "session_id" (string (prefix ++ uuid)) end))
        (field "site_id" (string identity.site_id) end));
  binary = none;
  metadata = end;
  route = nil;
  node = none;
  target_site_id = none;
  target_pubkey = none;
  source_peer = none;
}

module _ (h : Host) where
  open h use {snow, files, uuid}
  open snow use {calls}

  abbrev pub set_handshake : Option (NoiseHandshake snow) → Act h (Unit {0})
  set_handshake handshake = change (λ c. record c { handshake = handshake })

  abbrev pub drop_handshake : NoiseChannel h → NoiseChannel h
  drop_handshake c = record c {
    handshake = none;
    kk_failed = if is_pattern h noise_pattern_kk c.pattern_name then true else c.kk_failed;
  }

  unfoldable pub turn_away : Visits → String → Act h (List NoiseWrite)
  unfolding ◌>>=◌ give change ignoring on_disk forget_cached_psk hub_refused
  turn_away w node_id = do
    ignoring (on_disk h w.forget_psk (λ a f. forget_cached_psk files a f node_id))
    change drop_handshake
    give (err turned_away)

  -- The reply that XX has left to write.
  abbrev pub replied :
      NoiseHandshake snow × Result Bytes → Act h (NoiseHandshake snow × List NoiseWrite)
  replied (handshake, err e) = do set_handshake (some handshake); give (err e)
  replied (handshake, ok msg) = do
    set_handshake (some handshake)
    write ← give (clear h (field "msg" (string (files.hex_encode msg)) end))
    give (ok (handshake, write ∷ []))

  unfoldable pub reply : NoiseHandshake snow → Act h (NoiseHandshake snow × List NoiseWrite)
  unfolding ◌>>=◌ give change clear write_message
  reply handshake =
      if is_finished snow handshake
      then give (ok (handshake, []))
      else replied (write_message snow files.hex_encode handshake [])

  abbrev pub fresh_session : calls.Transport → Option String → Session h
  fresh_session t key = record {
    noise = record { transport = t; reassembly = none };
    remote_static_key = key;
  }

  abbrev pub open_session : calls.Transport → String → NoiseChannel h → NoiseChannel h
  open_session t key c = record c { session = some (fresh_session t (some key)) }

  -- The pin, and the session.
  unfoldable pub pin_and_open : Visits → String → calls.Transport → String → Act h (Unit {0})
  unfolding ◌>>=◌ on_disk pin_hub_key change
  pin_and_open w node_id t remote = do
    on_disk h w.pin_key (λ a f. pin_hub_key files a f node_id remote)
    change (open_session t remote)

  unfoldable pub check_pin : Visits → String → String → Act h (Unit {0})
  unfolding ◌>>=◌ on_disk load_noise_pin give hub_key_changed eq_ignore_ascii_case
  check_pin w node_id remote = do
    pinned ← on_disk h w.check_pin (λ a f. load_noise_pin files a f node_id)
    give (if differs pinned remote then err another_key else ok tt)

  unfoldable pub establish :
      Visits → NoiseChannel h → NoiseHandshake snow × List NoiseWrite → Act h (List NoiseWrite)
  unfolding ◌>>=◌ give change into_session check_pin pin_and_open encode
  establish w ch (handshake, writes) = do
    set_handshake none
    taken ← give (into_session snow handshake)
    remote ← give (or_fail no_identity taken.1)
    check_pin w ch.node_id remote
    pin_and_open w ch.node_id taken.0 remote
    hello ← encode h (hello_hive_message uuid ch.identity "thalovant-rust-")
    give (ok (append writes hello))

  abbrev pub answered :
      Visits → NoiseChannel h → NoiseHandshake snow × Result Bytes → Act h (List NoiseWrite)
  answered w ch (handshake, err e) = do set_handshake (some handshake); turn_away w ch.node_id
  answered w ch (handshake, ok payload) = do
    set_handshake (some handshake)
    x ← reply handshake
    establish w ch x

  unfoldable pub continue_handshake : Visits → NoiseChannel h → Fields → Act h (List NoiseWrite)
  unfolding ◌>>=◌ give change turn_away reply establish read_message
  continue_handshake w ch params = do
    encoded ← give (or_fail malformed (not_empty (as_str (get "msg" params))))
    msg ← give (or_fail malformed (files.hex_decode encoded))
    handshake ← give (or_fail not_negotiating ch.handshake)
    answered w ch (read_message snow files.hex_encode handshake msg)

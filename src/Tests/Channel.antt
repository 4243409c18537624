-- ===== src/Tests/Channel.antt =====
-- A link of src/transport.rs from the hub's HELLO to the session.
use Prim.Native.String.{String}
use thalovant_rust_sdk.Prelude.{
  ℕ, suc, true, false, Option, none, some, List, [], ◌∷◌, ◌==◌, leb, ◌≡◌, refl, All, if◌then◌else◌,
}
use thalovant_rust_sdk.Json.{get, Fields, Value, field, end, string, array, object, nil, cons}
use thalovant_rust_sdk.Errors.{connection, ok, err}
use thalovant_rust_sdk.Wire.{HiveMessage}
use thalovant_rust_sdk.Trust.{
  Folder, holds, absent, get_pin, all_valid, is_valid_pin, all_hex, eq_ignore_ascii_case,
}
use thalovant_rust_sdk.Trust.Pinning.{pinned}
use thalovant_rust_sdk.Trust.Agreement.{Accepted}
use thalovant_rust_sdk.Noise.Cipher.{Bytes, Calls}
use thalovant_rust_sdk.Noise.Handshake.{Snow}
use thalovant_rust_sdk.Noise.Select.{offers}
use thalovant_rust_sdk.Noise.Frames.{encrypt_one, accept, decrypt_frame, decrypt_with}
use thalovant_rust_sdk.Text.{is_blank}
use thalovant_rust_sdk.Trust.Pins.{read_pins}
use thalovant_rust_sdk.Channel.{
  Host, Identity, Visit, Visits, NoiseChannel, remote_key, ready, encode, not_ready,
}
use thalovant_rust_sdk.Channel.Receiving.{receive}
use thalovant_rust_sdk.Channel.Opening.{Spares}
use thalovant_rust_sdk.Channel.Life.{
  Frame, feed, begun, ended, remote_key-Accepted, remote_key-pinned,
}
use thalovant_rust_sdk.Channel.Gate.{delivered_in_session, refused_for_good}
use thalovant_rust_sdk.Channel.Linked.{Linked, feed_link, has_session, heard_in_session}
use thalovant_rust_sdk.Control.{ConnectionControl}
use thalovant_rust_sdk.Tests.Trust.{hub_key, key_32, one_map, one_map-Laws, quiet}

abbrev plain_calls : Calls
plain_calls = record {
  Transport = ℕ;
  write_message = λ t p. (suc t, some p);
  read_message = λ t p. (suc t, some p);
}

-- A handshake of three messages that proves nothing.
abbrev plain_snow : Snow
plain_snow = record {
  calls = plain_calls;
  HandshakeState = ℕ;
  build_initiator = λ name static_key prologue index psk remote. some 0;
  write_handshake = λ s p. (suc s, some (1 ∷ []));
  read_handshake = λ s p. (suc s, some []);
  is_handshake_finished = λ s. leb 3 s;
  get_remote_static = λ s. some key_32;
  into_transport_mode = λ s. some 0;
}

abbrev names : String → Value
names s = array (cons (string s) nil)

abbrev offer : Fields
offer = field "patterns" (names "XXpsk2") (field "suites" (names "25519_ChaChaPoly_SHA256") end)

abbrev message_of : String → Fields → HiveMessage
message_of name payload = record {
  msg_type = name;
  payload = payload;
  binary = none;
  metadata = end;
  route = nil;
  node = none;
  target_site_id = none;
  target_pubkey = none;
  source_peer = none;
}

abbrev read_message : Bytes → Option HiveMessage
read_message [] = none
read_message (b ∷ bs) =
    if b == 1
    then some (message_of "hello" (field "node_id" (string "hub") end))
    else if b == 2
    then some (message_of "shake" (field "noise" (object offer) end))
    else if b == 3
    then some (message_of "shake" (field "noise" (object (field "msg" (string "00") end)) end))
    else some (message_of "bus" end)

abbrev plain_host : Host
plain_host = record {
  snow = plain_snow;
  files = one_map;
  wire = record {
    to_vec = λ f. some [];
    from_str = λ s. none;
    from_utf8 = λ b. none;
    read_zlib = λ n b. none;
  };
  from_slice = read_message;
  to_vec = λ m. some (9 ∷ []);
  show = λ n. "";
  digest = λ s. [];
  argon2id = λ p s. some key_32;
  uuid = "0";
}

abbrev owner : Identity
owner = record { password = "secret"; public_key = none; site_id = "home" }

abbrev visit : Visit
visit = record { meanwhile = []; answers = quiet }

abbrev visits : Visits
visits = record {
  adopt = visit;
  adopt_from = quiet;
  adopt_key = quiet;
  load_pin = visit;
  make_key = visit;
  load_psk = visit;
  save_psk = visit;
  forget_psk = visit;
  check_pin = visit;
  pin_key = visit;
}

visits-Spares : Spares "hub" visits
visits-Spares = record {
  adopt = tt;
  load_pin = tt;
  make_key = tt;
  load_psk = tt;
  save_psk = tt;
  forget_psk = tt;
  check_pin = tt;
  pin_key = tt;
}

abbrev clear_frame : ℕ → Frame
clear_frame n = record { visits = visits; bytes = n ∷ []; is_binary = false }

abbrev frames : List Frame
frames = clear_frame 1 ∷ clear_frame 2 ∷ clear_frame 3 ∷ []

frames_spare : All (λ f. Spares "hub" f.visits) frames
frames_spare = (visits-Spares, (visits-Spares, (visits-Spares, tt)))

abbrev known : Folder
known = record { key = absent; pins = holds "pins\n"; psks = absent }

abbrev after_all : NoiseChannel plain_host
after_all = ended plain_host owner known true false none frames

opened : remote_key plain_host after_all ≡ some hub_key
unfolding remote_key feed begun receive get offers encrypt_one
opened = refl

known_hub : pinned one_map known "hub" ≡ some hub_key
unfolding pinned read_pins get_pin all_valid is_valid_pin is_blank all_hex
known_hub = refl

hub_named : after_all.node_id ≡ "hub"
unfolding feed begun receive get offers encrypt_one
hub_named = refl

remote_key-Accepted_example : Accepted one_map one_map-Laws after_all.disk "hub" hub_key
remote_key-Accepted_example =
    remote_key-Accepted plain_host one_map-Laws "hub" owner known true false none frames
      frames_spare hub_key hub_named opened

remote_key-pinned_example : eq_ignore_ascii_case hub_key hub_key ≡ true
remote_key-pinned_example =
    remote_key-pinned plain_host one_map-Laws "hub" owner known true false none frames frames_spare
      hub_key hub_key known_hub hub_named opened

-- A frame of JSON under its marker.
speaks :
    (receive plain_host visits (0 ∷ 4 ∷ []) true after_all).1 ≡ ok (some (message_of "bus" end), [])
unfolding receive feed begun get offers encrypt_one accept decrypt_frame decrypt_with
speaks = refl

delivered_in_session_example : (ready plain_host after_all ≡ true) × (true ≡ true)
delivered_in_session_example =
    delivered_in_session plain_host visits (0 ∷ 4 ∷ []) true after_all (message_of "bus" end) []
      speaks

refused :
    (receive plain_host visits (9 ∷ []) true after_all).1
    ≡ err (connection "Noise transport failed")
unfolding receive feed begun get offers encrypt_one accept decrypt_frame decrypt_with
refused = refl

refused_for_good_example :
    (feed plain_host frames (receive plain_host visits (9 ∷ []) true after_all).0
      ≡ (receive plain_host visits (9 ∷ []) true after_all).0)
    × (ready plain_host (receive plain_host visits (9 ∷ []) true after_all).0 ≡ false)
    × (encode plain_host
          (message_of "bus" end)
          (receive plain_host visits (9 ∷ []) true after_all).0
        ≡ ((receive plain_host visits (9 ∷ []) true after_all).0, err (not_ready plain_host)))
refused_for_good_example =
    refused_for_good plain_host visits (9 ∷ []) true after_all (connection "Noise transport failed")
      frames (message_of "bus" end) refused

abbrev quiet_control : ConnectionControl
quiet_control = record {
  active_replies = [];
  untracked_sends = [];
  verdict = none;
  kk_failed = false;
  force_xx = false;
  heard = false;
  completed_xx = false;
  key_rejected = false;
  refused_after_handshake = false;
}

abbrev linked : Linked plain_host
linked = record {
  slot = some (begun plain_host owner known true false none);
  control = quiet_control;
}

abbrev data_frame : Frame
data_frame = record { visits = visits; bytes = 0 ∷ 4 ∷ []; is_binary = true }

abbrev with_data : List Frame
with_data = clear_frame 1 ∷ clear_frame 2 ∷ clear_frame 3 ∷ data_frame ∷ []

hub_spoke : (feed_link plain_host with_data linked).control.heard ≡ true
unfolding feed_link receive begun get offers encrypt_one accept decrypt_frame decrypt_with
hub_spoke = refl

heard_in_session_example :
    has_session plain_host (feed_link plain_host with_data linked).slot ≡ true
heard_in_session_example = heard_in_session plain_host with_data linked refl hub_spoke

-- ===== src/Channel/Receiving.antt =====
-- `NoiseChannel::receive` of src/transport.rs: one frame taken in, and the drop of a channel.
use Prim.Native.String.{String}
use text.Mathlib.Text.{◌==◌ as str_eq}
use thalovant_rust_sdk.Prelude.{
  Bool, true, false, not, ◌||◌, ◌&&◌, Option, none, some, List, [], if◌then◌else◌, is_some,
}
use thalovant_rust_sdk.Json.{Fields, get, as_str, as_object}
use thalovant_rust_sdk.Errors.{ThalovantError, connection, json, Result, ok, err}
use thalovant_rust_sdk.Wire.{HiveMessage, decode_hive_binary_frame}
use thalovant_rust_sdk.Trust.{Folder}
use thalovant_rust_sdk.Trust.Keys.{forget_cached_psk}
use thalovant_rust_sdk.Noise.Cipher.{Bytes}
use thalovant_rust_sdk.Noise.Frames as Frames
use thalovant_rust_sdk.Noise.Frames.{NoiseFrame, message, partial, NoiseSession, decrypt_frame}
use thalovant_rust_sdk.Channel.{
  Host, Visit, Visits, NoiseWrite, Session, or_fail, of_wire, NoiseChannel, ◌>>=◌, ◌>>◌, give,
  change, on_disk,
}
use thalovant_rust_sdk.Channel.Starting.{Act, start}
use thalovant_rust_sdk.Channel.Finishing.{continue_handshake, or_empty}

abbrev pub failed_before : ThalovantError
failed_before = connection "Noise session failed; reconnect required"

abbrev pub plaintext : ThalovantError
plaintext = connection "plaintext received after Noise negotiation"

abbrev pub ciphertext : ThalovantError
ciphertext = connection "ciphertext arrived before Noise negotiation"

abbrev pub duplicate_hello : ThalovantError
duplicate_hello = connection "duplicate Noise HELLO"

abbrev pub no_node_id : ThalovantError
no_node_id = connection "Noise HELLO lacks node_id"

abbrev pub no_noise : ThalovantError
no_noise = connection "the hub did not offer v3 Noise"

abbrev pub too_early : ThalovantError
too_early = connection "application traffic received before Noise negotiation"

-- What a call of `receive` returns.
abbrev pub Got : Type 0
Got = Option HiveMessage × List NoiseWrite

module _ (h : Host) where
  open h use {snow, files, wire, from_slice}
  open snow use {calls}

  abbrev pub delivered : Result HiveMessage → Result Got
  delivered (err e) = err e
  delivered (ok m) = ok (some m, [])

  unfoldable pub got_frame : NoiseFrame → Result Got
  unfolding decode_hive_binary_frame
  got_frame partial = ok (none, [])
  got_frame (message payload true) = delivered (or_fail json (from_slice payload))
  got_frame (message payload false) = delivered (of_wire (decode_hive_binary_frame wire payload))

  abbrev pub heard_frame : NoiseSession calls × Frames.Result NoiseFrame → Session h → Act h Got
  heard_frame (noise, Frames.err e) s = do
    change (λ c. record c { session = some (record s { noise = noise }) })
    give (err (connection "Noise transport failed"))
  heard_frame (noise, Frames.ok frame) s = do
    change (λ c. record c { session = some (record s { noise = noise }); heard = true })
    give (got_frame frame)

  unfoldable pub in_session : Bytes → Bool → Session h → Act h Got
  unfolding ◌>>=◌ give change decrypt_frame got_frame
  in_session bytes false s = give (err plaintext)
  in_session bytes true s = heard_frame (decrypt_frame calls s.noise bytes) s

  abbrev pub has_key : String → Fields → Bool
  has_key key fs = is_some (get key fs)

  abbrev pub take_payload : Bool → Fields → Act h Got
  take_payload true payload = give (err no_node_id)
  take_payload false payload = do
    change (λ c. record c { hello = some payload })
    give (ok (none, []))

  -- The node id is set before it is tested.
  unfoldable pub take_hello : NoiseChannel h → HiveMessage → Act h Got
  unfolding ◌>>=◌ give change
  take_hello ch m =
      let node_id = or_empty (as_str (get "node_id" m.payload)) in
      if is_some ch.hello || is_some ch.handshake then give (err duplicate_hello) else (do
        change (λ c. record c { node_id = node_id })
        take_payload (str_eq node_id "") m.payload)

  abbrev pub shaken : Visits → NoiseChannel h → HiveMessage → Fields → Act h (List NoiseWrite)
  shaken w ch m params =
      if has_key "msg" params
      then continue_handshake h w ch params
      else start h w ch m.payload params

  unfoldable pub take_shake : Visits → NoiseChannel h → HiveMessage → Act h Got
  unfolding ◌>>=◌ give continue_handshake start
  take_shake w ch m = do
    params ← give (or_fail no_noise (as_object (get "noise" m.payload)))
    writes ← shaken w ch m params
    give (ok (none, writes))

  unfoldable pub take_clear : Visits → NoiseChannel h → HiveMessage → Act h Got
  unfolding take_hello take_shake give
  take_clear w ch m =
      if str_eq m.msg_type "hello"
      then take_hello ch m
      else if str_eq m.msg_type "shake" || str_eq m.msg_type "handshake"
      then take_shake w ch m
      else give (err too_early)

  unfoldable pub before_session : Visits → NoiseChannel h → Bytes → Bool → Act h Got
  unfolding ◌>>=◌ give take_clear
  before_session w ch bytes true = give (err ciphertext)
  before_session w ch bytes false = do m ← give (or_fail json (from_slice bytes)); take_clear w ch m

  abbrev pub received :
      Visits → Bytes → Bool → NoiseChannel h → Option (Session h) → NoiseChannel h × Result Got
  received w bytes binary ch (some s) = in_session bytes binary s ch
  received w bytes binary ch none = before_session w ch bytes binary ch

  unfoldable pub receive_inner : Visits → Bytes → Bool → Act h Got
  unfolding in_session before_session
  receive_inner w bytes binary ch = received w bytes binary ch ch.session

  abbrev pub marked : NoiseChannel h × Result Got → NoiseChannel h × Result Got
  marked (ch, ok got) = (ch, ok got)
  marked (ch, err e) = (record ch { is_failed = true }, err e)

  unfoldable pub receive : Visits → Bytes → Bool → Act h Got
  unfolding receive_inner
  receive w bytes binary ch =
      if ch.is_failed then (ch, err failed_before) else marked (receive_inner w bytes binary ch)

  abbrev pub dropped_psk : Visit → NoiseChannel h → Folder
  dropped_psk v ch = (on_disk h v (λ a f. forget_cached_psk files a f ch.node_id) ch).0.disk

  -- `Drop`: the folder that a dropped channel leaves.
  unfoldable pub drop_channel : Visit → NoiseChannel h → Folder
  unfolding on_disk forget_cached_psk
  drop_channel v ch =
      if is_some ch.handshake && not (is_some ch.session) then dropped_psk v ch else ch.disk

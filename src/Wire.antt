-- ===== src/Wire.antt =====
-- src/wire.rs: the binary frames of a HiveMind link, as bits. What serde_json, flate2 and the UTF-8
-- check answer is a `Codec`.
pub mod Bits
pub mod Padding
pub mod RoundTrip
use Prim.Native.String.{String}
use text.Mathlib.Text.{◌==◌ as str_eq}
use thalovant_rust_sdk.Prelude.{
  ℕ, zero, suc, ◌+◌, ◌-◌, ◌*◌, ◌/◌, ◌%◌, ◌^◌, Bool, true, false, Option, none, some, List, [], ◌∷◌,
  ◌++◌, length, ltb, leb, ◌==◌, if◌then◌else◌,
}
use thalovant_rust_sdk.Json.{Value, Items, nil, Fields, as_object}

abbrev pub Bytes : Type 0
Bytes = List ℕ

pub data WireError : Type 0 where
  not_json metadata_too_long end_of_frame unreachable : WireError
  unsupported_version : ℕ → WireError
  corrupt too_large not_text : WireError

pub data Result {ℓ} (A : Type ℓ) : Type ℓ where
  ok : A → Result A
  err : WireError → Result A

-- `?`.
infixl 5 ◌>>=◌
abbrev pub ◌>>=◌ {ℓ κ} : {A : Type ℓ} {B : Type κ} → Result A → (A → Result B) → Result B
◌>>=◌ (ok a) k = k a
◌>>=◌ (err e) k = err e

-- `ok_or`.
abbrev pub or_fail {ℓ} : {A : Type ℓ} → WireError → Option A → Result A
or_fail e none = err e
or_fail e (some a) = ok a

-- The calls: `serde_json::to_vec` of a map, `serde_json::from_str`, `String::from_utf8`, and what
-- reading at most so many bytes of a zlib stream gives.
pub record Codec : Type 0 where
  pub to_vec : Fields → Option Bytes
  pub from_str : String → Option Value
  pub from_utf8 : Bytes → Option String
  pub read_zlib : ℕ → Bytes → Option Bytes

-- A binary payload is its wire number and its clip.
pub record HiveMessage : Type 0 where
  pub msg_type : String
  pub payload : Fields
  pub binary : Option (ℕ × Bytes)
  pub metadata : Fields
  pub route : Items
  pub node : Option Value
  pub target_site_id : Option Value
  pub target_pubkey : Option Value
  pub source_peer : Option Value

pub record BitReader : Type 0 where
  pub payload : Bytes
  pub offset : ℕ

abbrev pub Read : Type 0 → Type 0
Read A = Result (A × BitReader)

-- An index that the test before it keeps in range.
abbrev pub byte_at : Bytes → ℕ → ℕ
byte_at [] k = 0
byte_at (b ∷ bs) zero = b
byte_at (b ∷ bs) (suc k) = byte_at bs k

unfoldable pub read_bit : BitReader → Read ℕ
read_bit r =
    if leb (length r.payload * 8) r.offset
    then err end_of_frame
    else ok (
      byte_at r.payload (r.offset / 8) / 2 ^ (7 - r.offset % 8) % 2,
      record r { offset = r.offset + 1 },
    )

-- `read_uint` from the value so far. No width exceeds 8, so that nothing is shifted out.
unfoldable pub read_more : ℕ → ℕ → BitReader → Read ℕ
unfolding read_bit
read_more zero value r = ok (value, r)
read_more (suc width) value r = read_bit r >>= λ x. read_more width (value * 2 + x.0) x.1

unfoldable pub read_uint : ℕ → BitReader → Read ℕ
unfolding read_more
read_uint width r = read_more width 0 r

unfoldable pub read_bytes : ℕ → BitReader → Read Bytes
unfolding read_uint
read_bytes zero r = ok ([], r)
read_bytes (suc n) r = read_uint 8 r >>= λ x. read_bytes n x.1 >>= λ y. ok (x.0 ∷ y.0, y.1)

unfoldable pub read_remaining_bytes : BitReader → Read Bytes
unfolding read_bytes
read_remaining_bytes r = read_bytes ((length r.payload * 8 - r.offset) / 8) r

-- `skip_left_padding`, in at most so many rounds.
unfoldable pub skip_padding : ℕ → BitReader → Result BitReader
unfolding read_bit
skip_padding zero r = err unreachable
skip_padding (suc fuel) r =
    read_bit r >>= λ x. let rest = skip_padding fuel x.1 in if x.0 == 1 then ok x.1 else rest

-- A round for every bit, and one for the end of the frame.
unfoldable pub skip_left_padding : BitReader → Result BitReader
unfolding skip_padding
skip_left_padding r = skip_padding (suc (length r.payload * 8 - r.offset)) r

-- The version, which a frame may leave out.
unfoldable pub read_version : BitReader → Result BitReader
unfolding read_bit read_uint
read_version r = read_bit r >>= λ versioned.
    if versioned.0 == 1
    then (read_uint 8 versioned.1 >>= λ version.
        if ltb 1 version.0 then err (unsupported_version version.0) else ok version.1)
    else ok versioned.1

unfoldable pub hive_type_to_int : String → ℕ
hive_type_to_int s =
    if str_eq s "shake"
    then 0
    else if str_eq s "handshake"
    then 0
    else if str_eq s "bus"
    then 1
    else if str_eq s "shared_bus"
    then 2
    else if str_eq s "broadcast"
    then 3
    else if str_eq s "propagate"
    then 4
    else if str_eq s "escalate"
    then 5
    else if str_eq s "hello"
    then 6
    else if str_eq s "query"
    then 7
    else if str_eq s "cascade"
    then 8
    else if str_eq s "ping"
    then 9
    else if str_eq s "rendezvous"
    then 10
    else if str_eq s "3rdparty"
    then 11
    else if str_eq s "bin"
    then 12
    else 11

unfoldable pub hive_int_to_type : ℕ → String
hive_int_to_type n =
    if n == 0
    then "shake"
    else if n == 1
    then "bus"
    else if n == 2
    then "shared_bus"
    else if n == 3
    then "broadcast"
    else if n == 4
    then "propagate"
    else if n == 5
    then "escalate"
    else if n == 6
    then "hello"
    else if n == 7
    then "query"
    else if n == 8
    then "cascade"
    else if n == 9
    then "ping"
    else if n == 10
    then "rendezvous"
    else if n == 12
    then "bin"
    else "3rdparty"

abbrev pub max_inflated : ℕ
max_inflated = 32 * 1024 * 1024

-- `as_object().cloned().unwrap_or_default()`.
abbrev pub or_empty : Option Fields → Fields
or_empty none = Fields.end
or_empty (some fs) = fs

module _ (c : Codec) where
  unfoldable pub inflate : Bytes → ℕ → Result Bytes
  inflate payload limit = or_fail corrupt (c.read_zlib (limit + 1) payload) >>= λ out.
      if ltb limit (length out) then err too_large else ok out

  unfoldable pub decode_wire_text : Bytes → Bool → Result String
  unfolding inflate
  decode_wire_text payload compressed =
      (if compressed then inflate payload max_inflated else ok payload) >>= λ bytes.
      or_fail not_text (c.from_utf8 bytes)

  unfoldable pub parse_map : String → Result Fields
  parse_map raw = or_fail not_json (c.from_str raw) >>= λ v. ok (or_empty (as_object (some v)))

  -- `0x80 | ((type_id & 0x1f) << 1)`, whose bits do not overlap.
  unfoldable pub encode_hive_binary_frame : HiveMessage → Result Bytes
  unfolding hive_type_to_int
  encode_hive_binary_frame m = or_fail not_json (c.to_vec m.metadata) >>= λ metadata.
      if ltb 255 (length metadata)
      then err metadata_too_long
      else (or_fail not_json (c.to_vec m.payload) >>= λ payload. ok (
          (0x80 + hive_type_to_int m.msg_type % 32 * 2)
          ∷ (length metadata % 256)
          ∷ (metadata ++ payload)))

  -- The frame after its metadata: a clip, or JSON.
  unfoldable pub decode_payload : String → Bool → Fields → BitReader → Result HiveMessage
  unfolding read_uint read_remaining_bytes decode_wire_text parse_map
  decode_payload msg_type compressed metadata r =
      if str_eq msg_type "bin"
      then (read_uint 4 r >>= λ kind. read_remaining_bytes kind.1 >>= λ clip. ok (record {
        msg_type = msg_type;
        payload = Fields.end;
        binary = some (kind.0, clip.0);
        metadata = metadata;
        route = nil;
        node = none;
        target_site_id = none;
        target_pubkey = none;
        source_peer = none;
      }))
      else (read_remaining_bytes r >>= λ rest. decode_wire_text rest.0 compressed >>= λ text.
          parse_map text >>= λ payload. ok (record {
            msg_type = msg_type;
            payload = payload;
            binary = none;
            metadata = metadata;
            route = nil;
            node = none;
            target_site_id = none;
            target_pubkey = none;
            source_peer = none;
          }))

  unfoldable pub decode_hive_binary_frame : Bytes → Result HiveMessage
  unfolding skip_left_padding read_version read_uint read_bit read_bytes hive_int_to_type
      decode_payload
  decode_hive_binary_frame frame =
      skip_left_padding (record { payload = frame; offset = 0 }) >>= λ start.
      read_version start >>= λ typed. read_uint 5 typed >>= λ type_id.
      read_bit type_id.1 >>= λ compressed. read_uint 8 compressed.1 >>= λ metadata_len.
      read_bytes metadata_len.0 metadata_len.1 >>= λ raw.
      decode_wire_text raw.0 (compressed.0 == 1) >>= λ text. parse_map text >>= λ metadata.
      decode_payload (hive_int_to_type type_id.0) (compressed.0 == 1) metadata raw.1

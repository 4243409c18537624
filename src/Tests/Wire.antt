-- ===== src/Tests/Wire.antt =====
-- A frame of src/wire.rs over a codec that knows one map.
use Prim.Native.String.{String}
use thalovant_rust_sdk.Prelude.{◌%◌, Option, none, some, [], ◌∷◌, ◌≡◌, refl, arith, All, subst}
use thalovant_rust_sdk.Json.{Fields, object, end, field, string, null, nil, cons}
use thalovant_rust_sdk.Wire.{
  Bytes, Codec, HiveMessage, ok, encode_hive_binary_frame, decode_hive_binary_frame,
  hive_int_to_type, hive_type_to_int, skip_left_padding,
}
use thalovant_rust_sdk.Wire.Bits.{IsByte}
use thalovant_rust_sdk.Wire.RoundTrip.{Laws, decode-encode, type_number}
use thalovant_rust_sdk.Wire.Padding.{Skips, skip_left_padding-Skips}

unfoldable print : Fields → Option Bytes
print end = some (123 ∷ 125 ∷ [])
print (field k v fs) = none

abbrev braces : Codec
braces = record {
  to_vec = print;
  from_str = λ s. some (object end);
  from_utf8 = λ b. some "{}";
  read_zlib = λ n b. none;
}

print_bytes : (fs : Fields) (b : Bytes) → print fs ≡ some b → All IsByte b
unfolding print
print_bytes end b e =
    let is : ◌≡◌ {A = Bytes} (123 ∷ 125 ∷ []) b = cc in
    subst (λ x. All IsByte x) is (omega arith, (omega arith, tt))
print_bytes (field k v fs) b e = absurd (cc)

print_reads :
    (fs : Fields) (b : Bytes)
    → print fs ≡ some b
    → (s : String) × ((some "{}") ≡ some s) × (some (object end) ≡ some (object fs))
unfolding print
print_reads end b e = ("{}", refl, refl)
print_reads (field k v fs) b e = cc

abbrev braces_Laws : Laws braces
braces_Laws = record { to_vec_bytes = print_bytes; to_vec_reads = print_reads }

abbrev message : HiveMessage
message = record {
  msg_type = "query";
  payload = end;
  binary = none;
  metadata = end;
  route = cons (string "hub") nil;
  node = some (string "n");
  target_site_id = some (string "home");
  target_pubkey = none;
  source_peer = some null;
}

abbrev frame : Bytes
frame = 142 ∷ 2 ∷ 123 ∷ 125 ∷ 123 ∷ 125 ∷ []

message_frame : encode_hive_binary_frame braces message ≡ ok frame
unfolding encode_hive_binary_frame print hive_type_to_int
message_frame = refl

decode-encode_example :
    decode_hive_binary_frame braces frame
    ≡ ok (record {
      msg_type = hive_int_to_type (hive_type_to_int "query" % 32);
      payload = end;
      binary = none;
      metadata = end;
      route = nil;
      node = none;
      target_site_id = none;
      target_pubkey = none;
      source_peer = none;
    })
decode-encode_example = decode-encode braces braces_Laws message frame refl message_frame

type_number_example : hive_type_to_int (hive_int_to_type 7) ≡ 7
type_number_example = type_number 7 (omega arith)

skip_left_padding-Skips_example :
    Skips
      (record { payload = frame; offset = 0 })
      (skip_left_padding (record { payload = frame; offset = 0 }))
skip_left_padding-Skips_example = skip_left_padding-Skips (record { payload = frame; offset = 0 })

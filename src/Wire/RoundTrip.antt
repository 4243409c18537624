-- ===== src/Wire/RoundTrip.antt =====
-- The round trip of a frame of src/wire.rs that carries JSON.
use Prim.Native.String.{String}
use text.Mathlib.Text.{◌==◌ as str_eq}
use thalovant_rust_sdk.Prelude.{
  ℕ, zero, suc, ◌+◌, ◌*◌, ◌%◌, ◌≤◌, Bool, true, false, none, some, [], ◌∷◌, ◌++◌, length, take,
  drop, if◌then◌else◌, ◌≡◌, refl, arith, All, ap, ◌∙◌, Option-cases, inl, inr, length-append,
}
use thalovant_rust_sdk.Json.{Fields, object, nil}
use thalovant_rust_sdk.Wire.{
  Bytes, ok, read_bit, read_uint, read_bytes, read_remaining_bytes, skip_left_padding, skip_padding,
  read_version, hive_type_to_int, hive_int_to_type, Codec, HiveMessage, decode_wire_text, parse_map,
  decode_payload, encode_hive_binary_frame, decode_hive_binary_frame,
}
use thalovant_rust_sdk.Wire.Bits.{
  at, bit_of, IsByte, read_bit-at, read_uint-byte, read_uint-five, read_bit-last, read_bytes-at,
  read_remaining_bytes-at,
}

-- What is documented of the calls: a map is printed as bytes of UTF-8 that are read back as it.
pub record Laws (c : Codec) : Type 0 where
  pub to_vec_bytes : (fs : Fields) (b : Bytes) → c.to_vec fs ≡ some b → All IsByte b
  pub to_vec_reads :
      (fs : Fields) (b : Bytes)
      → c.to_vec fs ≡ some b
      → (s : String) × (c.from_utf8 b ≡ some s) × (c.from_str s ≡ some (object fs))

-- The first byte of a frame, of a type that fits five bits.
abbrev head_of : ℕ → ℕ
head_of t = 0x80 + t % 32 * 2

skip_left_padding-head :
    (t : ℕ) (rest : Bytes)
    → skip_left_padding (at (head_of t ∷ rest) 0 0) ≡ ok (at (head_of t ∷ rest) 0 1)
unfolding skip_left_padding skip_padding
skip_left_padding-head t rest =
    let first : bit_of (head_of t) 0 ≡ 1 = omega arith in
    rw (read_bit-at (head_of t ∷ rest) 0 0 (omega arith) (omega arith), first)

read_version-head :
    (t : ℕ) (rest : Bytes)
    → read_version (at (head_of t ∷ rest) 0 1) ≡ ok (at (head_of t ∷ rest) 0 2)
unfolding read_version
read_version-head t rest =
    let second : bit_of (head_of t) 1 ≡ 0 = omega arith in
    rw (read_bit-at (head_of t ∷ rest) 0 1 (omega arith) (omega arith), second)

read_type-head :
    (t : ℕ) (rest : Bytes)
    → read_uint 5 (at (head_of t ∷ rest) 0 2) ≡ ok (t % 32, at (head_of t ∷ rest) 0 7)
read_type-head t rest =
    read_uint-five (head_of t ∷ rest) 0 (omega arith) (omega arith)
    ∙ ap (λ v. ok (v, at (head_of t ∷ rest) 0 7)) (omega arith)

read_flag-head :
    (t : ℕ) (rest : Bytes)
    → read_bit (at (head_of t ∷ rest) 0 7) ≡ ok (0, at (head_of t ∷ rest) 1 0)
read_flag-head t rest =
    read_bit-last (head_of t ∷ rest) 0 (omega arith)
    ∙ ap (λ v. ok (v, at (head_of t ∷ rest) 1 0)) (omega arith)

take-append : (xs ys : Bytes) → take (length xs) (xs ++ ys) ≡ xs
take-append [] ys = refl
take-append (x ∷ xs) ys = rw (take-append xs ys)

drop-append : (xs ys : Bytes) → drop (length xs) (xs ++ ys) ≡ ys
drop-append [] ys = refl
drop-append (x ∷ xs) ys = drop-append xs ys

append_bytes : (xs ys : Bytes) → All IsByte xs → All IsByte ys → All IsByte (xs ++ ys)
append_bytes [] ys v w = w
append_bytes (x ∷ xs) ys v w = (v.0, append_bytes xs ys v.1 w)

-- A number that does not name "bin".
record IsJson (n : ℕ) : Type 0 where
  named : str_eq (hive_int_to_type (n % 32)) "bin" ≡ false

IsJson-if : (b : Bool) (x y : ℕ) → IsJson x → IsJson y → IsJson (if b then x else y)
IsJson-if true x y v w = v
IsJson-if false x y v w = w

IsJson-last : (s : String) → str_eq s "bin" ≡ false → IsJson (if str_eq s "bin" then 12 else 11)
unfolding hive_int_to_type
IsJson-last s h = rw h (record { named = refl })

-- No type but "bin" is read back as "bin".
type-IsJson : (s : String) → str_eq s "bin" ≡ false → IsJson (hive_type_to_int s)
unfolding hive_type_to_int hive_int_to_type
type-IsJson s h =
    IsJson-if (str_eq s "shake") 0 _ (record { named = refl })
      (IsJson-if (str_eq s "handshake") 0 _ (record { named = refl })
        (IsJson-if (str_eq s "bus") 1 _ (record { named = refl })
          (IsJson-if (str_eq s "shared_bus") 2 _ (record { named = refl })
            (IsJson-if (str_eq s "broadcast") 3 _ (record { named = refl })
              (IsJson-if (str_eq s "propagate") 4 _ (record { named = refl })
                (IsJson-if (str_eq s "escalate") 5 _ (record { named = refl })
                  (IsJson-if (str_eq s "hello") 6 _ (record { named = refl })
                    (IsJson-if (str_eq s "query") 7 _ (record { named = refl })
                      (IsJson-if (str_eq s "cascade") 8 _ (record { named = refl })
                        (IsJson-if (str_eq s "ping") 9 _ (record { named = refl })
                          (IsJson-if (str_eq s "rendezvous") 10 _ (record { named = refl })
                            (IsJson-if (str_eq s "3rdparty") 11 _ (record { named = refl })
                              (IsJson-last s h)))))))))))))

json_type :
    (s : String)
    → str_eq s "bin" ≡ false
    → str_eq (hive_int_to_type (hive_type_to_int s % 32)) "bin" ≡ false
json_type s h = (type-IsJson s h).named

-- What a frame says of a message: its payload and its metadata, under the name that its type's
-- number has. It has no place for the clip, the route, the node, the targets and the source.
abbrev pub carried : HiveMessage → HiveMessage
carried m = record {
  msg_type = hive_int_to_type (hive_type_to_int m.msg_type % 32);
  payload = m.payload;
  binary = none;
  metadata = m.metadata;
  route = nil;
  node = none;
  target_site_id = none;
  target_pubkey = none;
  source_peer = none;
}

module _ (c : Codec) (laws : Laws c) where
  open laws use {to_vec_bytes, to_vec_reads}

  read_text : (b : Bytes) (s : String) → c.from_utf8 b ≡ some s → decode_wire_text c b false ≡ ok s
  unfolding decode_wire_text
  read_text b s e = rw e

  read_fields : (s : String) (fs : Fields) → c.from_str s ≡ some (object fs) → parse_map c s ≡ ok fs
  unfolding parse_map
  read_fields s fs e = rw e

  -- A frame of a type, some metadata and a payload.
  abbrev frame_of : ℕ → Bytes → Bytes → Bytes
  frame_of t m p = head_of t ∷ (length m % 256) ∷ (m ++ p)

  frame_bytes : (t : ℕ) (m p : Bytes) → All IsByte m → All IsByte p → All IsByte (frame_of t m p)
  frame_bytes t m p v w = (omega arith, (omega arith, append_bytes m p v w))

  drop_frame : (t : ℕ) (m p : Bytes) → drop (suc (suc (length m))) (frame_of t m p) ≡ p
  drop_frame t m p = drop-append m p

  read_metadata :
      (t : ℕ) (m p : Bytes)
      → length m ≤ 255
      → All IsByte (frame_of t m p)
      → read_bytes (length m % 256) (at (frame_of t m p) 2 0)
        ≡ ok (m, at (frame_of t m p) (suc (suc (length m))) 0)
  read_metadata t m p short v =
      ap (λ n. read_bytes n (at (frame_of t m p) 2 0)) (omega arith)
      ∙ read_bytes-at (length m) (frame_of t m p) 2 v (omega (arith, length-append m p))
      ∙ ap (λ k. ok (take (length m) (m ++ p), at (frame_of t m p) k 0)) (omega arith)
      ∙ ap (λ b. ok (b, at (frame_of t m p) (suc (suc (length m))) 0)) (take-append m p)

  read_payload :
      (t : ℕ) (m p : Bytes)
      → All IsByte (frame_of t m p)
      → read_remaining_bytes (at (frame_of t m p) (suc (suc (length m))) 0)
        ≡ ok (p, at (frame_of t m p) (length (frame_of t m p)) 0)
  read_payload t m p v =
      read_remaining_bytes-at (frame_of t m p) (suc (suc (length m))) v
        (omega (arith, length-append m p))
      ∙ ap (λ b. ok (b, at (frame_of t m p) (length (frame_of t m p)) 0)) (drop_frame t m p)

  -- What a decode does with the frame, up to the payload.
  decode_frame_of :
      (t : ℕ) (m p : Bytes) (metadata : Fields)
      → length m ≤ 255
      → All IsByte m
      → All IsByte p
      → c.to_vec metadata ≡ some m
      → decode_hive_binary_frame c (frame_of t m p)
        ≡ decode_payload c
            (hive_int_to_type (t % 32))
            false
            metadata
            (at (frame_of t m p) (suc (suc (length m))) 0)
  unfolding decode_hive_binary_frame
  decode_frame_of t m p metadata short v w e =
      let (s, text, value) = to_vec_reads metadata m e in
      rw
        (
          skip_left_padding-head t ((length m % 256) ∷ (m ++ p)),
          read_version-head t ((length m % 256) ∷ (m ++ p)),
          read_type-head t ((length m % 256) ∷ (m ++ p)),
          read_flag-head t ((length m % 256) ∷ (m ++ p)),
          read_uint-byte (frame_of t m p) 1 (omega arith) (omega arith),
          read_metadata t m p short (frame_bytes t m p v w),
          read_text m s text,
          read_fields s metadata value,
        )
        refl

  -- The payload that is JSON.
  decode_payload_of :
      (name : String) (t : ℕ) (m p : Bytes) (payload metadata : Fields)
      → str_eq name "bin" ≡ false
      → All IsByte m
      → All IsByte p
      → c.to_vec payload ≡ some p
      → decode_payload c name false metadata (at (frame_of t m p) (suc (suc (length m))) 0)
        ≡ ok (record {
          msg_type = name;
          payload = payload;
          binary = none;
          metadata = metadata;
          route = nil;
          node = none;
          target_site_id = none;
          target_pubkey = none;
          source_peer = none;
        })
  unfolding decode_payload
  decode_payload_of name t m p payload metadata json v w e =
      let (s, text, value) = to_vec_reads payload p e in
      rw
        (
          json,
          read_payload t m p (frame_bytes t m p v w),
          read_text p s text,
          read_fields s payload value,
        )
        refl

  -- An encode that succeeds.
  pub record IsEncoded (m : HiveMessage) (frame : Bytes) : Type 0 where
    pub metadata : Bytes
    pub payload : Bytes
    pub metadata_printed : c.to_vec m.metadata ≡ some metadata
    pub payload_printed : c.to_vec m.payload ≡ some payload
    pub short : length metadata ≤ 255
    pub is_frame : frame ≡ frame_of (hive_type_to_int m.msg_type) metadata payload

  encode-IsEncoded :
      (m : HiveMessage) (frame : Bytes)
      → encode_hive_binary_frame c m ≡ ok frame
      → IsEncoded m frame
  unfolding encode_hive_binary_frame
  encode-IsEncoded m frame e = elim (Option-cases (c.to_vec m.metadata)) [
    | inl missing ↦ absurd (ground (arith, missing, e))
    | inr (metadata, printed) ↦ elim (Option-cases (c.to_vec m.payload)) [
      | inl missing ↦ absurd (ground (arith, missing, printed, e))
      | inr (payload, also) ↦ record {
        metadata = metadata;
        payload = payload;
        metadata_printed = printed;
        payload_printed = also;
        short = ground (arith, printed, also, e);
        is_frame = ground (arith, printed, also, e);
      }
    ]
  ]

  -- A frame that `encode` made of a message, whatever its fields, is decoded to the payload and the
  -- metadata of the message, under the name that its type's number has, with no clip, an empty route
  -- and no node, target site, target key and source: those are lost. The message is not of the type
  -- "bin", whose frames carry a clip instead of JSON, and maps are printed as text that is read back.
  pub decode-encode :
      (m : HiveMessage) (frame : Bytes)
      → str_eq m.msg_type "bin" ≡ false
      → encode_hive_binary_frame c m ≡ ok frame
      → decode_hive_binary_frame c frame ≡ ok (carried m)
  decode-encode m frame json e =
      let x = encode-IsEncoded m frame e in
      let v = to_vec_bytes m.metadata x.metadata x.metadata_printed in
      let w = to_vec_bytes m.payload x.payload x.payload_printed in
      let t = hive_type_to_int m.msg_type in
      ap (decode_hive_binary_frame c) x.is_frame
      ∙ decode_frame_of t x.metadata x.payload m.metadata x.short v w x.metadata_printed
      ∙ decode_payload_of (hive_int_to_type (t % 32)) t x.metadata x.payload m.payload m.metadata
          (json_type m.msg_type json) v w x.payload_printed

-- The number of a type that has a name of its own is read back from the name.
pub type_number : (n : ℕ) → n ≤ 12 → hive_type_to_int (hive_int_to_type n) ≡ n
unfolding hive_type_to_int hive_int_to_type
type_number zero h = refl
type_number (suc zero) h = refl
type_number (suc (suc zero)) h = refl
type_number (suc (suc (suc zero))) h = refl
type_number (suc (suc (suc (suc zero)))) h = refl
type_number (suc (suc (suc (suc (suc zero))))) h = refl
type_number (suc (suc (suc (suc (suc (suc zero)))))) h = refl
type_number (suc (suc (suc (suc (suc (suc (suc zero))))))) h = refl
type_number (suc (suc (suc (suc (suc (suc (suc (suc zero)))))))) h = refl
type_number (suc (suc (suc (suc (suc (suc (suc (suc (suc zero))))))))) h = refl
type_number (suc (suc (suc (suc (suc (suc (suc (suc (suc (suc zero)))))))))) h = refl
type_number (suc (suc (suc (suc (suc (suc (suc (suc (suc (suc (suc zero))))))))))) h = refl
type_number (suc (suc (suc (suc (suc (suc (suc (suc (suc (suc (suc (suc zero)))))))))))) h = refl
type_number (suc (suc (suc (suc (suc (suc (suc (suc (suc (suc (suc (suc (suc n))))))))))))) h =
    absurd (omega arith)

-- ===== src/Trust/Keys.antt =====
-- This client's static key and the cached credentials of src/noise_store.rs.
use Prim.Native.String.{String, ◌++◌}
use text.Mathlib.Text.{◌==◌ as str_eq}
use thalovant_rust_sdk.Prelude.{Bool, false, Option, none, some, [], length, ◌==◌, if◌then◌else◌}
use thalovant_rust_sdk.Text.{trim, is_blank}
use thalovant_rust_sdk.Errors.{ThalovantError, invalid_identity, json, Result, ok, err}
use thalovant_rust_sdk.Trust.{
  File, absent, holds, refused, Folder, Pins, Bytes, Codec, Answers, Outcome, locked, get_pin,
  remove_pin, insert_pin,
}

abbrev pub bad_key_file : ThalovantError
bad_key_file = invalid_identity "Noise key file is not a 32-byte hex key"

-- `try_into` an array of 32 bytes.
abbrev pub of_32 : Option Bytes → Option Bytes
of_32 none = none
of_32 (some b) = if length b == 32 then some b else none

abbrev pub key_or_bad : Option Bytes → Result Bytes
key_or_bad none = err bad_key_file
key_or_bad (some b) = ok b

abbrev pub no_file : ThalovantError
no_file = ThalovantError.io

unfoldable pub load_existing_noise_key : Codec → File → Result Bytes
unfolding trim
load_existing_noise_key c absent = err no_file
load_existing_noise_key c (refused e) = err e
load_existing_noise_key c (holds raw) = key_or_bad (of_32 (c.hex_decode (trim raw)))

-- `write_private_exclusive`: who publishes first wins.
unfoldable pub create_key :
    Codec → Answers → Folder → Option File → Option ThalovantError → Outcome Bytes
unfolding load_existing_noise_key
create_key c w f (some other) failed = (record f { key = other }, load_existing_noise_key c other)
create_key c w f none (some e) = (f, err e)
create_key c w f none none = (record f { key = holds (c.hex_encode w.random) }, ok w.random)

unfoldable pub key_of : Codec → Answers → Folder → File → Outcome Bytes
unfolding create_key load_existing_noise_key
key_of c w f absent = create_key c w f w.raced w.write
key_of c w f (refused e) = (f, err e)
key_of c w f (holds raw) = (f, load_existing_noise_key c (holds raw))

unfoldable pub load_or_create_noise_key : Codec → Answers → Folder → Outcome Bytes
unfolding key_of
load_or_create_noise_key c w f = locked w f (key_of c w f f.key)

-- A cache that does not parse is an empty one.
abbrev pub or_none : Option Pins → Pins
or_none none = []
or_none (some cache) = cache

unfoldable pub read_psk_cache : Codec → File → Result Pins
read_psk_cache c absent = ok []
read_psk_cache c (refused e) = err e
read_psk_cache c (holds raw) = ok (or_none (c.from_str raw))

abbrev pub publish_psks : Option ThalovantError → Folder → Option String → Outcome (Unit {0})
publish_psks w f none = (f, err json)
publish_psks none f (some text) = (record f { psks = holds (text ++ "\n") }, ok tt)
publish_psks (some e) f (some text) = (f, err e)

unfoldable pub write_psk_cache : Codec → Answers → Folder → Pins → Outcome (Unit {0})
write_psk_cache c w f cache = publish_psks w.write f (c.to_string_pretty cache)

abbrev pub decoded_psk : Codec → Option String → Option Bytes
decoded_psk c none = none
decoded_psk c (some encoded) = of_32 (c.hex_decode (trim encoded))

abbrev pub psk_in : Codec → Folder → String → Result Pins → Outcome (Option Bytes)
psk_in c f node (err e) = (f, err e)
psk_in c f node (ok cache) = (f, ok (decoded_psk c (get_pin node cache)))

unfoldable pub load_cached_psk : Codec → Answers → Folder → String → Outcome (Option Bytes)
unfolding read_psk_cache get_pin trim is_blank
load_cached_psk c w f node =
    if is_blank node then (f, ok none) else locked w f (psk_in c f node (read_psk_cache c f.psks))

abbrev pub is_current : Option String → String → Bool
is_current none text = false
is_current (some current) text = str_eq current text

abbrev pub psk_saved : Codec → Answers → Folder → String → Bytes → Result Pins → Outcome (Unit {0})
psk_saved c w f node psk (err e) = (f, err e)
psk_saved c w f node psk (ok cache) =
    if is_current (get_pin node cache) (c.hex_encode psk)
    then (f, ok tt)
    else write_psk_cache c w f (insert_pin node (c.hex_encode psk) cache)

unfoldable pub save_cached_psk : Codec → Answers → Folder → String → Bytes → Outcome (Unit {0})
unfolding read_psk_cache write_psk_cache get_pin insert_pin is_blank
save_cached_psk c w f node psk =
    if is_blank node
    then (f, ok tt)
    else locked w f (psk_saved c w f node psk (read_psk_cache c f.psks))

abbrev pub psk_dropped :
    Codec → Answers → Folder → String → Pins → Option String → Outcome (Unit {0})
psk_dropped c w f node cache none = (f, ok tt)
psk_dropped c w f node cache (some current) = write_psk_cache c w f (remove_pin node cache)

abbrev pub psk_forgotten : Codec → Answers → Folder → String → Result Pins → Outcome (Unit {0})
psk_forgotten c w f node (err e) = (f, err e)
psk_forgotten c w f node (ok cache) = psk_dropped c w f node cache (get_pin node cache)

unfoldable pub forget_cached_psk : Codec → Answers → Folder → String → Outcome (Unit {0})
unfolding read_psk_cache write_psk_cache get_pin remove_pin
forget_cached_psk c w f node = locked w f (psk_forgotten c w f node (read_psk_cache c f.psks))

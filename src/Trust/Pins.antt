-- ===== src/Trust/Pins.antt =====
-- The pinned hub keys of src/noise_store.rs. Error messages leave the path out.
use Prim.Native.String.{String, ◌++◌}
use thalovant_rust_sdk.Prelude.{Option, none, some, [], if◌then◌else◌}
use thalovant_rust_sdk.Errors.{ThalovantError, invalid_identity, connection, json, Result, ok, err}
use thalovant_rust_sdk.Trust.{
  File, absent, holds, refused, Folder, Pins, Codec, Answers, Outcome, locked, get_pin, remove_pin,
  insert_pin, eq_ignore_ascii_case, is_valid_pin, all_valid,
}

abbrev pub invalid_pin : ThalovantError
invalid_pin =
    invalid_identity "Noise pin requires a nonempty node id and a 32-byte hexadecimal static key"

abbrev pub bad_pin_file : ThalovantError
bad_pin_file = invalid_identity "Noise pin file is not a JSON object of node id to key"

abbrev pub static_key_changed : ThalovantError
static_key_changed = connection "the hub's Noise static key changed"

abbrev pub checked_pins : Option Pins → Result Pins
checked_pins none = err bad_pin_file
checked_pins (some pins) = if all_valid pins then ok pins else err invalid_pin

unfoldable pub read_pins : Codec → File → Result Pins
unfolding all_valid
read_pins c absent = ok []
read_pins c (refused e) = err e
read_pins c (holds raw) = checked_pins (c.from_str raw)

-- `write_private`: the file is replaced as a whole, or stays as it was.
abbrev pub publish_pins : Option ThalovantError → Folder → String → Outcome (Unit {0})
publish_pins none f text = (record f { pins = holds text }, ok tt)
publish_pins (some e) f text = (f, err e)

abbrev pub written : Answers → Folder → Option String → Outcome (Unit {0})
written w f none = (f, err json)
written w f (some text) = publish_pins w.write f (text ++ "\n")

unfoldable pub write_pins : Codec → Answers → Folder → Pins → Outcome (Unit {0})
write_pins c w f pins = written w f (c.to_string_pretty pins)

abbrev pub found_pin : Folder → String → Result Pins → Outcome (Option String)
found_pin f node (err e) = (f, err e)
found_pin f node (ok pins) = (f, ok (get_pin node pins))

unfoldable pub load_noise_pin : Codec → Answers → Folder → String → Outcome (Option String)
unfolding read_pins get_pin
load_noise_pin c w f node = locked w f (found_pin f node (read_pins c f.pins))

-- The match of `pin_hub_key` on what is pinned.
unfoldable pub pin_against :
    Codec → Answers → Folder → String → String → Pins → Option String → Outcome (Unit {0})
unfolding write_pins insert_pin eq_ignore_ascii_case
pin_against c w f node key pins none = write_pins c w f (insert_pin node key pins)
pin_against c w f node key pins (some pinned) =
    if eq_ignore_ascii_case pinned key then (f, ok tt) else (f, err static_key_changed)

unfoldable pub pin_with :
    Codec → Answers → Folder → String → String → Result Pins → Outcome (Unit {0})
unfolding pin_against get_pin
pin_with c w f node key (err e) = (f, err e)
pin_with c w f node key (ok pins) = pin_against c w f node key pins (get_pin node pins)

-- `save_noise_pin` is the same function.
unfoldable pub pin_hub_key : Codec → Answers → Folder → String → String → Outcome (Unit {0})
unfolding pin_with read_pins is_valid_pin
pin_hub_key c w f node key =
    if is_valid_pin node key
    then locked w f (pin_with c w f node key (read_pins c f.pins))
    else (f, err invalid_pin)

unfoldable pub forget_found :
    Codec → Answers → Folder → String → Pins → Option String → Outcome (Unit {0})
unfolding write_pins remove_pin
forget_found c w f node pins none = (f, ok tt)
forget_found c w f node pins (some key) = write_pins c w f (remove_pin node pins)

unfoldable pub forget_with : Codec → Answers → Folder → String → Result Pins → Outcome (Unit {0})
unfolding forget_found get_pin
forget_with c w f node (err e) = (f, err e)
forget_with c w f node (ok pins) = forget_found c w f node pins (get_pin node pins)

unfoldable pub forget_noise_pin : Codec → Answers → Folder → String → Outcome (Unit {0})
unfolding forget_with read_pins
forget_noise_pin c w f node = locked w f (forget_with c w f node (read_pins c f.pins))

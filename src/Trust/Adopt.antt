-- ===== src/Trust/Adopt.antt =====
-- `adopt_legacy_key` of src/noise_store.rs: a key and its pins copied from another folder.
use Prim.Native.String.{String}
use thalovant_rust_sdk.Prelude.{
  Bool, true, false, not, ◌||◌, Option, none, some, [], ◌∷◌, if◌then◌else◌,
}
use thalovant_rust_sdk.Errors.{ThalovantError, Result, ok, err}
use thalovant_rust_sdk.Trust.{
  File, absent, holds, refused, Folder, Pins, Bytes, Codec, Answers, Outcome, locked, get_pin,
}
use thalovant_rust_sdk.Trust.Pins.{read_pins, write_pins}
use thalovant_rust_sdk.Trust.Keys.{load_existing_noise_key}

-- `symlink_metadata().is_ok()`.
abbrev pub exists : File → Bool
exists absent = false
exists (holds s) = true
exists (refused e) = true

abbrev pub is_file : File → Bool
is_file absent = false
is_file (holds s) = true
is_file (refused e) = false

abbrev pub is_locked : Option ThalovantError → Bool
is_locked none = false
is_locked (some e) = true

-- The key and the pins of the old folder, if the key has met the hub.
abbrev pub met_key : Pins → Option String → Result Bytes → Option (Bytes × Pins)
met_key pins none key = none
met_key pins (some pin) (err e) = none
met_key pins (some pin) (ok key) = some (key, pins)

abbrev pub known_key : Codec → Folder → String → Result Pins → Option (Bytes × Pins)
known_key c legacy node (err e) = none
known_key c legacy node (ok pins) =
    met_key pins (get_pin node pins) (load_existing_noise_key c legacy.key)

unfoldable pub legacy_key : Codec → Answers → Folder → String → Option (Bytes × Pins)
unfolding read_pins get_pin load_existing_noise_key
legacy_key c w legacy node = elim w.lock [
  | some e ↦ none
  | none ↦ known_key c legacy node (read_pins c legacy.pins)
]

abbrev pub adopted : Codec → Folder → Bytes → Option File → Option ThalovantError → Outcome Bool
adopted c f key (some other) failed = (record f { key = other }, ok false)
adopted c f key none (some e) = (f, err e)
adopted c f key none none = (record f { key = holds (c.hex_encode key) }, ok true)

-- The key, after the pins.
abbrev pub adopt_key : Codec → Answers → Folder → Bytes → Result (Unit {0}) → Outcome Bool
adopt_key c w f key (err e) = (f, err e)
adopt_key c w f key (ok u) = adopted c f key w.raced w.write

-- The pins are written only where there are none yet.
unfoldable pub adopt_pins : Codec → Answers → Folder → Pins → Result Pins → Outcome (Unit {0})
unfolding write_pins
adopt_pins c w f pins (err e) = (f, err e)
adopt_pins c w f pins (ok []) = write_pins c w f pins
adopt_pins c w f pins (ok (p ∷ ps)) = (f, ok tt)

abbrev pub adopt_found : Codec → Answers → Answers → Folder → Option (Bytes × Pins) → Outcome Bool
adopt_found c w k f none = (f, ok false)
adopt_found c w k f (some (key, pins)) = locked w f (
    if exists f.key
    then (f, ok false)
    else (let x = adopt_pins c w f pins (read_pins c f.pins) in adopt_key c k x.0 key x.1))

-- `target` is `f`; `same` is that the two paths are one folder, and `l` answers the calls on `legacy`.
-- The pins and the key are two writes: `w` answers the first and `k` the second.
unfoldable pub adopt_legacy_key :
    Codec → Answers → Answers → Answers → Bool → Folder → Folder → String → Outcome Bool
unfolding legacy_key adopt_pins read_pins
adopt_legacy_key c l w k same f legacy node =
    if exists f.key || (not (is_file legacy.key) || same)
    then (f, ok false)
    else adopt_found c w k f (legacy_key c l legacy node)

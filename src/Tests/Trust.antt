-- ===== src/Tests/Trust.antt =====
-- A state folder of src/noise_store.rs on first contact, and a prologue of src/noise.rs.
use Prim.Native.String.{String, ◌++◌}
use text.Mathlib.Text.{◌==◌ as str_eq}
use text.Mathlib.TextEquality.{eq_iff}
use thalovant_rust_sdk.Prelude.{
  Bool, true, false, ◌&&◌, Option, none, some, List, [], ◌∷◌, ◌≡◌, refl, sym, ap, subst,
  if◌then◌else◌, All,
}
use thalovant_rust_sdk.Text.{is_blank}
use thalovant_rust_sdk.Errors.{ok}
use thalovant_rust_sdk.Json.{Fields, field, end, string}
use thalovant_rust_sdk.Trust.{
  absent, Folder, Pins, Bytes, Codec, Answers, get_pin, insert_pin, remove_pin,
  eq_ignore_ascii_case, is_valid_pin, all_valid, all_hex,
}
use thalovant_rust_sdk.Trust.Pins.{
  pin_hub_key, pin_with, pin_against, read_pins, write_pins, forget_noise_pin, forget_with,
  forget_found,
}
use thalovant_rust_sdk.Trust.Keys.{load_or_create_noise_key, key_of, create_key}
use thalovant_rust_sdk.Trust.Pinning.{Laws, SameMap, Keeps}
use thalovant_rust_sdk.Trust.Calls.{
  Action, pins_key, forgets, makes_key, spares, run, step, run-Keeps,
}
use thalovant_rust_sdk.Trust.Agreement.{accepted_agree}
use thalovant_rust_sdk.Noise.Canonical.{before, build_prologue}
use thalovant_rust_sdk.Noise.Canonical.Order.{
  SameFields, swapped, next_field, itself, no_fields, same_prologue,
}

abbrev pub hub_key : String
hub_key = "aaaaaaaaaaaaaaaaaaaaaaaaaaaaaaaaaaaaaaaaaaaaaaaaaaaaaaaaaaaaaaaa"

abbrev shouted : String
shouted = "AAAAAAAAAAAAAAAAAAAAAAAAAAAAAAAAAAAAAAAAAAAAAAAAAAAAAAAAAAAAAAAA"

abbrev pub hub_pins : Pins
hub_pins = ("hub", hub_key) ∷ []

abbrev pub key_32 : Bytes
key_32 =
    7 ∷ 7 ∷ 7 ∷ 7 ∷ 7 ∷ 7 ∷ 7 ∷ 7 ∷ 7 ∷ 7 ∷ 7 ∷ 7 ∷ 7 ∷ 7 ∷ 7 ∷ 7 ∷ 7 ∷ 7 ∷ 7 ∷ 7 ∷ 7 ∷ 7 ∷ 7 ∷ 7
    ∷ 7 ∷ 7 ∷ 7 ∷ 7 ∷ 7 ∷ 7 ∷ 7 ∷ 7 ∷ []

abbrev printed_pins : Pins → Option String
printed_pins [] = none
printed_pins ((k, v) ∷ []) = if str_eq k "hub" && str_eq v hub_key then some "pins" else none
printed_pins (p ∷ q ∷ ps) = none

-- Prints the one map, and reads it.
abbrev pub one_map : Codec
one_map = record {
  from_str = λ s. if str_eq s "pins\n" then some hub_pins else none;
  to_string_pretty = printed_pins;
  hex_encode = λ b. hub_key;
  hex_decode = λ s. some key_32;
}

text_of : (t : String) → some "pins" ≡ some t → "pins" ≡ t
text_of t e = cc

one_entry :
    (k v t : String) (a b : Bool)
    → str_eq k "hub" ≡ a
    → str_eq v hub_key ≡ b
    → (if a && b then some "pins" else none) ≡ some t
    → (got : Pins) × (one_map.from_str (t ++ "\n") ≡ some got) × SameMap ((k, v) ∷ []) got
one_entry k v t true true p q e =
    let same : hub_pins ≡ (k, v) ∷ [] = rw ((eq_iff k "hub").0 p, (eq_iff v hub_key).0 q) in
    (
      hub_pins,
      ap (λ x. one_map.from_str (x ++ "\n")) (sym (text_of t e)),
      subst (λ x. SameMap x hub_pins) same (record { finds = λ n. refl; is_valid = λ v. v }),
    )
one_entry k v t true false p q e = absurd (cc)
one_entry k v t false b p q e = absurd (cc)

one_printed :
    (pins : Pins) (t : String)
    → printed_pins pins ≡ some t
    → (got : Pins) × (one_map.from_str (t ++ "\n") ≡ some got) × SameMap pins got
one_printed [] t e = absurd (cc)
one_printed ((k, v) ∷ []) t e = one_entry k v t (str_eq k "hub") (str_eq v hub_key) refl refl e
one_printed (p ∷ q ∷ ps) t e = absurd (cc)

pub one_map-Laws : Laws one_map
one_map-Laws = record { printed = one_printed }

abbrev pub quiet : Answers
quiet = record { lock = none; write = none; random = key_32; raced = none }

abbrev pub no_folder : Folder
no_folder = record { key = absent; pins = absent; psks = absent }

abbrev calls : List Action
calls = makes_key quiet ∷ pins_key quiet "hub" hub_key ∷ forgets quiet "attic" ∷ []

calls_spare : All (λ a. spares "hub" a ≡ true) calls
calls_spare = (refl, (refl, (refl, tt)))

run-Keeps_example : Keeps one_map "hub" no_folder (run one_map no_folder calls)
run-Keeps_example = run-Keeps one_map one_map-Laws "hub" no_folder calls calls_spare

first_contact : (pin_hub_key one_map quiet no_folder "hub" hub_key).1 ≡ ok tt
unfolding pin_hub_key pin_with pin_against read_pins write_pins is_valid_pin is_blank all_hex
    get_pin insert_pin remove_pin
first_contact = refl

later_contact :
    (pin_hub_key one_map quiet
      (run one_map (pin_hub_key one_map quiet no_folder "hub" hub_key).0 calls)
      "hub"
      shouted).1
    ≡ ok tt
unfolding pin_hub_key pin_with pin_against read_pins write_pins is_valid_pin is_blank all_valid
    all_hex get_pin insert_pin remove_pin eq_ignore_ascii_case run step load_or_create_noise_key
    key_of create_key forget_noise_pin forget_with forget_found
later_contact = refl

accepted_agree_example : eq_ignore_ascii_case hub_key shouted ≡ true
accepted_agree_example =
    accepted_agree one_map one_map-Laws quiet quiet no_folder "hub" hub_key shouted calls
      calls_spare first_contact later_contact

a_first : before "a" "b" ≡ true
unfolding before
a_first = refl

abbrev said : Fields
said = field "a" (string "1") (field "b" (string "2") end)

abbrev heard : Fields
heard = field "b" (string "2") (field "a" (string "1") end)

other_order : SameFields said heard
other_order = swapped "a" "b" (string "1") (string "2") end a_first

same_prologue_example :
    build_prologue (λ n. "") said said "Noise" ≡ build_prologue (λ n. "") heard said "Noise"
same_prologue_example =
    same_prologue (λ n. "") said heard said said "Noise" other_order
      (next_field "a" (string "1") (string "1") _ _ (itself (string "1"))
        (next_field "b" (string "2") (string "2") _ _ (itself (string "2")) no_fields))

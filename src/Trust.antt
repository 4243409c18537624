-- ===== src/Trust.antt =====
-- src/noise_store.rs: the folder that keeps this client's key, the pinned hub keys and the derived
-- credentials. The files are the state; the children have the operations and what they keep.
pub mod Pins
pub mod Keys
pub mod Adopt
pub mod Assoc
pub mod Pinning
pub mod Agreement
pub mod Calls
pub mod FirstUse
use Prim.Native.Char.{Char, code}
use Prim.Native.String.{String, len}
use text.Mathlib.Text.{◌==◌ as str_eq}
use thalovant_rust_sdk.Prelude.{
  ℕ, ◌+◌, Bool, true, false, not, ◌&&◌, ◌||◌, Option, none, some, List, [], ◌∷◌, leb, ◌==◌,
  if◌then◌else◌,
}
use thalovant_rust_sdk.Text.{is_blank}
use thalovant_rust_sdk.Errors.{ThalovantError, invalid_identity, Result, ok, err}

-- `refused` is a file that is no regular file, that others can read, or that cannot be read.
pub data File : Type 0 where
  absent : File
  holds : String → File
  refused : ThalovantError → File

pub record Folder : Type 0 where
  pub key : File
  pub pins : File
  pub psks : File

-- A `BTreeMap<String, String>`.
abbrev pub Pins : Type 0
Pins = List (String × String)

abbrev pub Bytes : Type 0
Bytes = List ℕ

-- serde_json on such a map, and the `hex` crate.
pub record Codec : Type 0 where
  pub from_str : String → Option Pins
  pub to_string_pretty : Pins → Option String
  pub hex_encode : Bytes → String
  pub hex_decode : String → Option Bytes

-- What one call is answered: the lock's error, the error of publishing a file, the random key, and
-- the key file that another process published first.
pub record Answers : Type 0 where
  pub lock : Option ThalovantError
  pub write : Option ThalovantError
  pub random : Bytes
  pub raced : Option File

abbrev pub Outcome {ℓ} : Type ℓ → Type ℓ
Outcome A = Folder × Result A

-- `lock_state(..)?`, and the operation under the lock.
abbrev pub locked_by : {A : Type 0} → Option ThalovantError → Folder → Outcome A → Outcome A
locked_by none f x = x
locked_by (some e) f x = (f, err e)

abbrev pub locked : {A : Type 0} → Answers → Folder → Outcome A → Outcome A
locked w f x = locked_by w.lock f x

unfoldable pub get_pin : String → Pins → Option String
get_pin node [] = none
get_pin node ((k, v) ∷ pins) =
    let rest = get_pin node pins in if str_eq k node then some v else rest

unfoldable pub remove_pin : String → Pins → Pins
remove_pin node [] = []
remove_pin node ((k, v) ∷ pins) =
    let rest = remove_pin node pins in if str_eq k node then rest else (k, v) ∷ rest

unfoldable pub insert_pin : String → String → Pins → Pins
unfolding remove_pin
insert_pin node key pins = (node, key) ∷ remove_pin node pins

abbrev pub to_ascii_lowercase : ℕ → ℕ
to_ascii_lowercase c = if leb 0x41 c && leb c 0x5a then c + 0x20 else c

unfoldable pub eq_ignore_ascii_case : String → String → Bool
eq_ignore_ascii_case String.[] String.[] = true
eq_ignore_ascii_case (String.◌∷◌ c s) String.[] = false
eq_ignore_ascii_case String.[] (String.◌∷◌ d t) = false
eq_ignore_ascii_case (String.◌∷◌ c s) (String.◌∷◌ d t) =
    to_ascii_lowercase (code c) == to_ascii_lowercase (code d) && eq_ignore_ascii_case s t

abbrev pub is_ascii_hexdigit : ℕ → Bool
is_ascii_hexdigit c =
    leb 0x30 c && leb c 0x39 || (leb 0x41 c && leb c 0x46 || (leb 0x61 c && leb c 0x66))

unfoldable pub all_hex : String → Bool
all_hex String.[] = true
all_hex (String.◌∷◌ c s) = is_ascii_hexdigit (code c) && all_hex s

-- `validate_pin`. The length in bytes is the length in characters where all are hexadecimal.
unfoldable pub is_valid_pin : String → String → Bool
unfolding all_hex
is_valid_pin node key = not (is_blank node) && (len key == 64 && all_hex key)

unfoldable pub all_valid : Pins → Bool
unfolding is_valid_pin
all_valid [] = true
all_valid ((k, v) ∷ pins) = is_valid_pin k v && all_valid pins

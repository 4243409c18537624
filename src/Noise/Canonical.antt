-- ===== src/Noise/Canonical.antt =====
-- `canonical_json` and `build_prologue` of src/noise.rs. A text's `into_bytes` is the text, so that a
-- prologue is a text.
pub mod Order
use Prim.Native.Char.{Char, code}
use Prim.Native.String.{String, ◌++◌}
use thalovant_rust_sdk.Prelude.{
  ℕ, ◌+◌, ◌-◌, ◌%◌, Bool, true, false, ◌&&◌, ◌||◌, Option, none, some, List, [], ◌∷◌, ltb, leb,
  ◌==◌, if◌then◌else◌,
}
use thalovant_rust_sdk.Json.{
  Number, Value, null, bool, number, string, array, object, Items, nil, cons, Fields, end, field,
}

abbrev pub hex_text : ℕ → String
hex_text n =
    if n == 0
    then "0"
    else if n == 1
    then "1"
    else if n == 2
    then "2"
    else if n == 3
    then "3"
    else if n == 4
    then "4"
    else if n == 5
    then "5"
    else if n == 6
    then "6"
    else if n == 7
    then "7"
    else if n == 8
    then "8"
    else if n == 9
    then "9"
    else if n == 10
    then "a"
    else if n == 11
    then "b"
    else if n == 12
    then "c"
    else if n == 13
    then "d"
    else if n == 14
    then "e"
    else "f"

-- One character of a JSON string, before the text that follows it.
unfoldable pub escape : Char → String → String
escape c rest =
    if code c == 0x22
    then "\\\"" ++ rest
    else if code c == 0x5c
    then "\\\\" ++ rest
    else if code c == 0x08
    then "\\b" ++ rest
    else if code c == 0x0c
    then "\\f" ++ rest
    else if code c == 0x0a
    then "\\n" ++ rest
    else if code c == 0x0d
    then "\\r" ++ rest
    else if code c == 0x09
    then "\\t" ++ rest
    else if ltb (code c) 0x20
    then "\\u00" ++ ((if ltb (code c) 16 then "0" else "1") ++ (hex_text (code c % 16) ++ rest))
    else String.◌∷◌ c rest

unfoldable pub escaped : String → String
unfolding escape
escaped String.[] = "\""
escaped (String.◌∷◌ c s) = escape c (escaped s)

unfoldable pub write_canonical_string : String → String
unfolding escaped
write_canonical_string s = "\"" ++ escaped s

-- Rust orders texts by their bytes, which for UTF-8 is by their code points.
unfoldable pub before : String → String → Bool
before String.[] String.[] = false
before String.[] (String.◌∷◌ d t) = true
before (String.◌∷◌ c s) String.[] = false
before (String.◌∷◌ c s) (String.◌∷◌ d t) = ltb (code c) (code d) || (code c == code d && before s t)

-- An entry's key, and its value as it is written.
abbrev pub Entry : Type 0
Entry = String × String

-- The entries in the order of their keys, as a `BTreeMap` iterates.
unfoldable pub insert_entry : Entry → List Entry → List Entry
unfolding before
insert_entry e [] = e ∷ []
insert_entry e (x ∷ xs) =
    let rest = insert_entry e xs in if before e.0 x.0 then e ∷ x ∷ xs else x ∷ rest

unfoldable pub sort_entries : List Entry → List Entry
unfolding insert_entry
sort_entries [] = []
sort_entries (e ∷ es) = insert_entry e (sort_entries es)

abbrev pub comma : Bool → String
comma first = if first then "" else ","

unfoldable pub write_entries : Bool → List Entry → String
unfolding write_canonical_string
write_entries first [] = "}"
write_entries first ((k, v) ∷ es) =
    comma first ++ (write_canonical_string k ++ (":" ++ (v ++ write_entries false es)))

-- `number.to_string()` is serde_json's.
module _ (show : Number → String) where
  unfoldable mutual
    unfolding write_canonical_string write_entries sort_entries

    pub canonical_json : Value → String
    canonical_json null = "null"
    canonical_json (bool true) = "true"
    canonical_json (bool false) = "false"
    canonical_json (number n) = show n
    canonical_json (string s) = write_canonical_string s
    canonical_json (array xs) = "[" ++ write_items true xs
    canonical_json (object fs) = "{" ++ write_entries true (sort_entries (entries fs))

    pub write_items : Bool → Items → String
    write_items first nil = "]"
    write_items first (cons x xs) = comma first ++ (canonical_json x ++ write_items false xs)

    pub entries : Fields → List Entry
    entries end = []
    entries (field k v fs) = (k, canonical_json v) ∷ entries fs

  unfoldable pub build_prologue : Fields → Fields → String → String
  unfolding canonical_json
  build_prologue hello handshake protocol_name =
      canonical_json (object hello) ++ (canonical_json (object handshake) ++ protocol_name)

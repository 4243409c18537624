-- ===== src/Json.antt =====
-- `serde_json::Value` and its `Map`, as the source reads them.
use Prim.Native.String.{String}
use text.Mathlib.Text.{◌==◌ as str_eq}
use thalovant_rust_sdk.Prelude.{ℕ, Bool, Option, none, some, List, [], ◌∷◌, if◌then◌else◌}

-- An integer that fits a `u64`, a negative one that fits an `i64` (`negative n` is -(n + 1)), and a
-- number that is no integer, as it is printed.
pub data Number : Type 0 where
  natural : ℕ → Number
  negative : ℕ → Number
  real : String → Number

-- A `Map` is the list of its entries in the order in which it iterates, each key once.
mutual
  pub data Value : Type 0 where
    null : Value
    bool : Bool → Value
    number : Number → Value
    string : String → Value
    array : Items → Value
    object : Fields → Value

  pub data Items : Type 0 where
    nil : Items
    cons : Value → Items → Items

  pub data Fields : Type 0 where
    end : Fields
    field : String → Value → Fields → Fields

-- `Map::get`.
unfoldable pub get : String → Fields → Option Value
get key end = none
get key (field k v fs) = let rest = get key fs in if str_eq k key then some v else rest

abbrev pub as_str : Option Value → Option String
as_str (some (string s)) = some s
as_str _ = none

abbrev pub as_object : Option Value → Option Fields
as_object (some (object fs)) = some fs
as_object _ = none

abbrev pub as_array : Option Value → Option Items
as_array (some (array xs)) = some xs
as_array _ = none

-- `and_then(|object| object.get(key))`.
abbrev pub get_in : String → Option Fields → Option Value
get_in key none = none
get_in key (some fs) = get key fs

-- `filter_map(Value::as_str)`.
abbrev pub strings_of : Items → List String
strings_of nil = []
strings_of (cons (string s) xs) = s ∷ strings_of xs
strings_of (cons null xs) = strings_of xs
strings_of (cons (bool b) xs) = strings_of xs
strings_of (cons (number n) xs) = strings_of xs
strings_of (cons (array a) xs) = strings_of xs
strings_of (cons (object o) xs) = strings_of xs

abbrev pub or_else {ℓ} : {A : Type ℓ} → Option A → Option A → Option A
or_else none b = b
or_else (some a) b = some a

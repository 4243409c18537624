-- ===== src/Redact.antt =====
-- src/redact.rs: what of a JSON value may be printed. A normalized key is the codes of its characters.
pub mod Hiding
use Prim.Native.Char.{Char, code}
use Prim.Native.String.{String}
use text.Mathlib.Text.{◌==◌ as str_eq}
use thalovant_rust_sdk.Prelude.{
  ℕ, ◌+◌, Bool, true, false, ◌&&◌, ◌||◌, List, [], ◌∷◌, leb, ◌==◌, if◌then◌else◌,
}
use thalovant_rust_sdk.Json.{
  Value, null, bool, number, string, array, object, Items, nil, cons, Fields, end, field,
}

abbrev pub redacted : Value
redacted = string "<redacted>"

abbrev pub omitted : Value
omitted = string "[omitted]"

abbrev between : ℕ → ℕ → ℕ → Bool
between low n high = leb low n && leb n high

abbrev pub is_ascii_alphanumeric : ℕ → Bool
is_ascii_alphanumeric n = between 0x30 n 0x39 || (between 0x41 n 0x5a || between 0x61 n 0x7a)

abbrev pub to_lowercase : ℕ → ℕ
to_lowercase n = if between 0x41 n 0x5a then n + 0x20 else n

unfoldable pub normalize_key : String → List ℕ
normalize_key String.[] = []
normalize_key (String.◌∷◌ c s) =
    let rest = normalize_key s in
    if is_ascii_alphanumeric (code c) then to_lowercase (code c) ∷ rest else rest

unfoldable pub codes : String → List ℕ
codes String.[] = []
codes (String.◌∷◌ c s) = code c ∷ codes s

unfoldable pub same_codes : List ℕ → List ℕ → Bool
same_codes [] [] = true
same_codes [] (y ∷ ys) = false
same_codes (x ∷ xs) [] = false
same_codes (x ∷ xs) (y ∷ ys) = x == y && same_codes xs ys

unfoldable pub one_of : List ℕ → List String → Bool
unfolding same_codes codes
one_of key [] = false
one_of key (name ∷ names) = same_codes key (codes name) || one_of key names

abbrev pub secret_names : List String
secret_names =
    "password" ∷ "authorization" ∷ "clientsecret" ∷ "privatekey" ∷ "apisecret" ∷ "secretkey"
    ∷ "credentials" ∷ "apikey" ∷ "cryptokey" ∷ "accesskey" ∷ "secret" ∷ "presharedkey"
    ∷ "brokerpassword" ∷ "token" ∷ "accesstoken" ∷ "authtoken" ∷ "refreshtoken" ∷ "devicecode"
    ∷ "otpcode" ∷ "recoverycode" ∷ []

unfoldable pub is_secret_key : String → Bool
unfolding one_of normalize_key
is_secret_key key = one_of (normalize_key key) secret_names

unfoldable pub is_identity_bundle : String → Bool
unfolding one_of normalize_key
is_identity_bundle key = one_of (normalize_key key) ("initialidentify" ∷ "identity" ∷ [])

-- A bare `key` is secret in an identity bundle.
unfoldable pub is_hidden : Bool → String → Bool
unfolding is_secret_key normalize_key same_codes codes
is_hidden in_bundle key =
    is_secret_key key || (in_bundle && same_codes (normalize_key key) (codes "key"))

unfoldable mutual
  unfolding is_hidden is_identity_bundle

  pub redact_value_scoped : Bool → Value → Value
  redact_value_scoped b null = null
  redact_value_scoped b (bool x) = bool x
  redact_value_scoped b (number n) = number n
  redact_value_scoped b (string s) = string s
  redact_value_scoped b (array xs) = array (redact_items b xs)
  redact_value_scoped b (object fs) = object (redact_map_scoped b fs)

  pub redact_items : Bool → Items → Items
  redact_items b nil = nil
  redact_items b (cons x xs) = cons (redact_value_scoped b x) (redact_items b xs)

  pub redact_map_scoped : Bool → Fields → Fields
  redact_map_scoped b end = end
  redact_map_scoped b (field k v fs) =
      let rest = redact_map_scoped b fs in
      let below = redact_value_scoped (b || is_identity_bundle k) v in
      field k (if is_hidden b k then redacted else below) rest

unfoldable pub redact_value : Value → Value
unfolding redact_value_scoped
redact_value v = redact_value_scoped false v

unfoldable pub redact_map : Fields → Fields
unfolding redact_map_scoped
redact_map fs = redact_map_scoped false fs

-- `entry.get_mut("input")`: a key stands once.
unfoldable pub omit_input : Fields → Fields
omit_input end = end
omit_input (field k v fs) = field k (if str_eq k "input" then omitted else v) (omit_input fs)

unfoldable pub omit_entries : Items → Items
unfolding omit_input
omit_entries nil = nil
omit_entries (cons (object fs) xs) = cons (object (omit_input fs)) (omit_entries xs)
omit_entries (cons null xs) = cons null (omit_entries xs)
omit_entries (cons (bool b) xs) = cons (bool b) (omit_entries xs)
omit_entries (cons (number n) xs) = cons (number n) (omit_entries xs)
omit_entries (cons (string s) xs) = cons (string s) (omit_entries xs)
omit_entries (cons (array a) xs) = cons (array a) (omit_entries xs)

unfoldable mutual
  unfolding omit_entries

  pub omit_echoed_inputs : Fields → Fields
  omit_echoed_inputs end = end
  omit_echoed_inputs (field k v fs) =
      field k
        (if str_eq k "detail" then omit_detail v else if str_eq k "errors" then omit_list v else v)
        (omit_echoed_inputs fs)

  pub omit_detail : Value → Value
  omit_detail (array xs) = array (omit_entries xs)
  omit_detail (object fs) = object (omit_echoed_inputs fs)
  omit_detail null = null
  omit_detail (bool b) = bool b
  omit_detail (number n) = number n
  omit_detail (string s) = string s

  pub omit_list : Value → Value
  omit_list (array xs) = array (omit_entries xs)
  omit_list (object fs) = object fs
  omit_list null = null
  omit_list (bool b) = bool b
  omit_list (number n) = number n
  omit_list (string s) = string s

-- ===== src/Refusal.antt =====
-- src/refusal.rs: what an ask does when the hub refuses it.
pub mod Counts
use Prim.Native.Char.{Char, code}
use Prim.Native.String.{String}
use text.Mathlib.Text.{◌==◌ as str_eq}
use thalovant_rust_sdk.Prelude.{
  ℕ, ◌+◌, ◌-◌, ◌*◌, ◌^◌, Bool, true, false, ◌&&◌, Option, none, some, List, [], ◌∷◌, ltb, leb, ◌==◌,
  if◌then◌else◌,
}
use thalovant_rust_sdk.Text.{trim, is_blank}
use thalovant_rust_sdk.Json.{
  Number, natural, negative, real, Value, string, number, Fields, Items, get, get_in, as_str,
  as_object, as_array, strings_of,
}
use thalovant_rust_sdk.Errors.{ThalovantError, policy_denied, Quota}
use thalovant_rust_sdk.Events.{Event}

abbrev pub event_recognizer_loop_utterance : String
event_recognizer_loop_utterance = "recognizer_loop:utterance"

-- A request id that is there and not empty.
abbrev pub own_id : Option String → Option String
own_id none = none
own_id (some s) = if str_eq s "" then none else some s

abbrev pub is_text : Option String → String → Bool
is_text none s = false
is_text (some t) s = str_eq t s

unfoldable pub judged : Option String → String → Option String → ℕ → ℕ → ℕ → Bool
judged (some id) own denied asks queries sends = str_eq id own
judged none own denied asks queries sends =
    is_text denied event_recognizer_loop_utterance && (asks == 1 && (queries == 0 && sends == 0))

unfoldable pub refusal_belongs_to_ask : Option String → String → Option String → ℕ → ℕ → ℕ → Bool
unfolding judged
refusal_belongs_to_ask request_id own denied asks queries sends =
    judged (own_id request_id) own denied asks queries sends

-- 2^53 - 1.
abbrev pub max_count : ℕ
max_count = 2 ^ 53 - 1

-- `str::parse::<i64>`, of which what is not negative is kept: the digits after an optional `+`, at
-- least one, and no more than an `i64` holds. A negative number counts as 0 like no number.
unfoldable pub digits : ℕ → String → Option ℕ
digits n String.[] = some n
digits n (String.◌∷◌ c s) =
    let m = n * 10 + (code c - 0x30) in
    let rest = digits m s in
    if leb 0x30 (code c) && (leb (code c) 0x39 && ltb m (2 ^ 63)) then rest else none

abbrev pub some_digits : String → Option ℕ
some_digits String.[] = none
some_digits (String.◌∷◌ c s) = digits 0 (String.◌∷◌ c s)

unfoldable pub parse_whole : String → Option ℕ
unfolding digits
parse_whole String.[] = none
parse_whole (String.◌∷◌ c s) =
    if code c == 0x2b then some_digits s else some_digits (String.◌∷◌ c s)

abbrev pub or_zero : Option ℕ → ℕ
or_zero none = 0
or_zero (some n) = n

-- `as_i64().unwrap_or(0)` of a number, and the text trimmed and read; 0 for all else and below 0.
unfoldable pub whole : Option Value → ℕ
unfolding parse_whole trim
whole (some (number (natural n))) = if ltb n (2 ^ 63) then n else 0
whole (some (string text)) = or_zero (parse_whole (trim text))
whole _ = 0

unfoldable pub whole_count : Option Value → ℕ
unfolding whole
whole_count value = if leb (whole value) max_count then whole value else 0

abbrev pub or_empty_text : Option String → String
or_empty_text none = ""
or_empty_text (some s) = s

unfoldable pub string_field : Fields → String → String
string_field payload key = or_empty_text (as_str (get key payload))

-- The strings of a list, trimmed, without those that are blank.
unfoldable pub trimmed : List String → List String
unfolding trim is_blank
trimmed [] = []
trimmed (s ∷ ss) = let rest = trimmed ss in if is_blank s then rest else trim s ∷ rest

abbrev pub allowed_of : Option Items → List String
allowed_of none = []
allowed_of (some items) = trimmed (strings_of items)

abbrev pub exceeded_code : String
exceeded_code = "intent_quota_exceeded"

abbrev pub quota_of : Option Fields → Quota
quota_of inner = record {
  period = or_empty_text (as_str (get_in "period" inner));
  limit = whole_count (get_in "limit" inner);
  used = whole_count (get_in "used" inner);
  reset_after = whole_count (get_in "reset_after" inner);
}

unfoldable pub denial : Event → ThalovantError
unfolding string_field trimmed whole_count
denial e =
    let inner = as_object (get "data" e.payload) in
    let found = string_field e.payload "code" in
    policy_denied (string_field e.payload "denied_type") found (string_field e.payload "reason")
      (allowed_of (as_array (get_in "allowed" inner)))
      (if str_eq found exceeded_code then some (quota_of inner) else none)

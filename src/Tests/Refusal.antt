-- ===== src/Tests/Refusal.antt =====
-- A denial of src/refusal.rs that is a spent quota.
use Prim.Native.String.{String}
use text.Mathlib.Text.{◌==◌ as str_eq}
use thalovant_rust_sdk.Prelude.{ℕ, true, none, some, [], ◌≡◌, refl, ◌↔◌, ◌⊎◌}
use thalovant_rust_sdk.Json.{end, field, string, number, object, natural, negative, get}
use thalovant_rust_sdk.Errors.{policy_denied, Quota}
use thalovant_rust_sdk.Events.{Event}
use thalovant_rust_sdk.Refusal.{
  refusal_belongs_to_ask, own_id, is_text, event_recognizer_loop_utterance, denial, exceeded_code,
  whole_count, whole, string_field, trimmed,
}
use thalovant_rust_sdk.Refusal.Counts.{belongs_iff, denial-IsExact, IsExact}

abbrev spent : Event
spent = record {
  name = "hive.policy.denied";
  payload = field "code" (string "intent_quota_exceeded") (
      field "data"
        (object (field "limit" (number (natural 5)) (field "used" (number (negative 2)) end))) end);
  context = end;
  raw = none;
}

abbrev quota : Quota
quota = record { period = ""; limit = 5; used = 0; reset_after = 0 }

spent-denial : denial spent ≡ policy_denied "" exceeded_code "" [] (some quota)
unfolding denial string_field get whole_count whole trimmed
spent-denial = refl

denial-IsExact_example : (str_eq exceeded_code exceeded_code ≡ true) × IsExact quota
denial-IsExact_example = denial-IsExact spent "" exceeded_code "" [] quota spent-denial

belongs_iff_example :
    (refusal_belongs_to_ask (some "") "r1" (some "recognizer_loop:utterance") 1 0 0 ≡ true) ↔ (
      ((id : String) × (own_id (some "") ≡ some id) × (str_eq id "r1" ≡ true))
      ⊎ ((own_id (some "") ≡ none)
          × (is_text (some "recognizer_loop:utterance") event_recognizer_loop_utterance ≡ true)
          × (◌≡◌ {A = ℕ} 1 1)
          × (◌≡◌ {A = ℕ} 0 0)
          × (◌≡◌ {A = ℕ} 0 0)))
belongs_iff_example = belongs_iff (some "") "r1" (some "recognizer_loop:utterance") 1 0 0

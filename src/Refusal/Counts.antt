-- ===== src/Refusal/Counts.antt =====
-- Whose refusal it is, and the counts that come with it (src/refusal.rs).
use Prim.Native.String.{String}
use text.Mathlib.Text.{◌==◌ as str_eq}
use thalovant_rust_sdk.Prelude.{
  ℕ, ◌≤◌, Bool, true, false, Option, none, some, ◌≡◌, refl, ◌↔◌, ◌⊎◌, arith, inl, inr, ap, subst,
  List, if◌then◌else◌,
}
use thalovant_rust_sdk.Json.{Value, Fields}
use thalovant_rust_sdk.Errors.{ThalovantError, policy_denied, Quota}
use thalovant_rust_sdk.Events.{Event}
use thalovant_rust_sdk.Refusal.{
  refusal_belongs_to_ask, judged, own_id, is_text, event_recognizer_loop_utterance, whole_count,
  max_count, denial, quota_of, exceeded_code,
}

judged_iff :
    (id_given : Option String) (own : String) (denied : Option String) (asks queries sends : ℕ)
    → (judged id_given own denied asks queries sends ≡ true) ↔ (
        ((id : String) × (id_given ≡ some id) × (str_eq id own ≡ true))
        ⊎ ((id_given ≡ none)
            × (is_text denied event_recognizer_loop_utterance ≡ true)
            × (asks ≡ 1)
            × (queries ≡ 0)
            × (sends ≡ 0)))
unfolding judged
judged_iff none own denied asks queries sends = (
  λ e. inr (refl, ground (arith, e), ground (arith, e), ground (arith, e), ground (arith, e)),
  λ h. elim h [
    | inl (id, is, same) ↦ absurd (cc)
    | inr (is, names, a, q, s) ↦ ground (arith, names, a, q, s)
  ],
)
judged_iff (some id) own denied asks queries sends = (
  λ e. inl (id, refl, e),
  λ h. elim h [ inl (given, is, same) ↦ cc | inr (is, names, a, q, s) ↦ absurd (cc) ],
)

-- A refusal is an ask's exactly when it carries the ask's request id, or carries none and names an
-- utterance while the ask is the only thing under way.
pub belongs_iff :
    (request_id : Option String) (own : String) (denied : Option String) (asks queries sends : ℕ)
    → (refusal_belongs_to_ask request_id own denied asks queries sends ≡ true) ↔ (
        ((id : String) × (own_id request_id ≡ some id) × (str_eq id own ≡ true))
        ⊎ ((own_id request_id ≡ none)
            × (is_text denied event_recognizer_loop_utterance ≡ true)
            × (asks ≡ 1)
            × (queries ≡ 0)
            × (sends ≡ 0)))
unfolding refusal_belongs_to_ask
belongs_iff request_id own denied asks queries sends =
    judged_iff (own_id request_id) own denied asks queries sends

whole_count_bound : (v : Option Value) → whole_count v ≤ max_count
unfolding whole_count
whole_count_bound v = ground arith

-- The numbers of a quota that every JSON decoder holds exactly.
pub record IsExact (q : Quota) : Type 0 where
  pub limit : q.limit ≤ max_count
  pub used : q.used ≤ max_count
  pub reset_after : q.reset_after ≤ max_count

abbrev quota_in : ThalovantError → Option Quota
quota_in (policy_denied denied found reason allowed quota) = quota
quota_in _ = none

abbrev code_in : ThalovantError → String
code_in (policy_denied denied found reason allowed quota) = found
code_in _ = ""

quota_of-IsExact : (inner : Option Fields) → IsExact (quota_of inner)
quota_of-IsExact inner = record {
  limit = whole_count_bound _;
  used = whole_count_bound _;
  reset_after = whole_count_bound _;
}

given_quota :
    (b : Bool) (inner : Option Fields) (q : Quota)
    → (if b then some (quota_of inner) else none) ≡ some q
    → (b ≡ true) × IsExact q
given_quota true inner q h =
    let same : quota_of inner ≡ q = cc in
    (refl, subst (λ x. IsExact x) same (quota_of-IsExact inner))
given_quota false inner q h = absurd (cc)

-- A denial comes with a quota only under the code for an exceeded quota, and whatever the hub sent,
-- the counts of that quota are at most 2^53 - 1.
pub denial-IsExact :
    (e : Event) (denied found reason : String) (allowed : List String) (q : Quota)
    → denial e ≡ policy_denied denied found reason allowed (some q)
    → (str_eq found exceeded_code ≡ true) × IsExact q
unfolding denial
denial-IsExact e denied found reason allowed q h =
    let (under, exact) = given_quota _ _ q (ap quota_in h) in
    (subst (λ x. str_eq x exceeded_code ≡ true) (ap code_in h) under, exact)

-- ===== src/Errors/Kinds.antt =====
-- The kinds of connection error of src/errors.rs that ride in the message of one variant.
use Prim.Native.String.{String, ◌++◌}
use text.Mathlib.Text.{starts_with}
use text.Mathlib.TextEquality.{eq_iff, starts_with_iff}
use text.Mathlib.TextLemmas.{append_assoc, append_inj}
use thalovant_rust_sdk.Prelude.{
  true, false, ◌&&◌, ◌||◌, ◌≡◌, ◌∙◌, sym, inl, inr, refl, arith, Bool-cases,
}
use thalovant_rust_sdk.Text.{strip_prefix}
use thalovant_rust_sdk.Errors.{
  ThalovantError, connection, is_timeout, is_connection_error, is_hub_refused, is_hub_key_changed,
  is_client_key_rejected, hub_refused_text, hub_key_changed_text,
}

-- The two openings differ in their eighth byte.
openings_differ :
    (m : String)
    → starts_with m hub_refused_text ≡ true
    → starts_with m hub_key_changed_text ≡ true
    → ⊥
openings_differ m r k =
    let refused : String = "refused this connection's credentials" in
    let changed : String = "s Noise key is not the one pinned for it" in
    let (t, p) = (starts_with_iff m hub_refused_text).0 r in
    let (u, q) = (starts_with_iff m hub_key_changed_text).0 k in
    let left : "the hub " ++ (refused ++ t) ≡ m = sym (append_assoc "the hub " refused t) ∙ p in
    let right : "the hub'" ++ (changed ++ u) ≡ m = sym (append_assoc "the hub'" changed u) ∙ q in
    let same = (append_inj (left ∙ sym right) refl).0 in cc ((eq_iff "the hub " "the hub'").1 same)

refused_not_changed : (e : ThalovantError) → (is_hub_refused e && is_hub_key_changed e) ≡ false
unfolding is_hub_refused is_hub_key_changed
refused_not_changed (connection m) = elim (Bool-cases (starts_with m hub_refused_text)) [
  | inl r ↦ elim (Bool-cases (starts_with m hub_key_changed_text)) [
    | inl k ↦ absurd (openings_differ m r k)
    | inr k ↦ rw (r, k)
  ]
  | inr r ↦ rw r
]
refused_not_changed _ = refl

rejected_refused : (e : ThalovantError) → is_client_key_rejected e ≡ true → is_hub_refused e ≡ true
unfolding is_client_key_rejected is_hub_refused strip_prefix
rejected_refused (connection m) h = ground arith
rejected_refused _ h = cc

-- The three finer kinds of connection error are read back from a message without confusion: a
-- rejected client key is a refusal, a refusal is never a changed hub key, and each is a connection
-- error and no timeout.
pub kinds_apart :
    (e : ThalovantError)
    → (is_client_key_rejected e || is_hub_refused e || is_hub_key_changed e) ≡ true
    → ((is_client_key_rejected e ≡ true) → (is_hub_refused e ≡ true))
      × ((is_hub_refused e && is_hub_key_changed e) ≡ false)
      × (is_connection_error e ≡ true)
      × (is_timeout e ≡ false)
unfolding is_connection_error is_timeout is_hub_refused is_hub_key_changed is_client_key_rejected
kinds_apart (connection m) h =
    (rejected_refused (connection m), refused_not_changed (connection m), refl, refl)
kinds_apart _ h = absurd (cc)

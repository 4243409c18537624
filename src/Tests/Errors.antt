-- ===== src/Tests/Errors.antt =====
-- The error kinds of src/errors.rs on concrete messages.
use thalovant_rust_sdk.Prelude.{true, false, ◌&&◌, ◌≡◌, refl}
use thalovant_rust_sdk.Errors.{
  is_hub_refused, is_hub_key_changed, is_client_key_rejected, is_connection_error, is_timeout,
  hub_refused,
}
use thalovant_rust_sdk.Errors.Kinds.{kinds_apart}

kinds_apart_example :
    ((is_client_key_rejected (hub_refused "x") ≡ true) → (is_hub_refused (hub_refused "x") ≡ true))
    × ((is_hub_refused (hub_refused "x") && is_hub_key_changed (hub_refused "x")) ≡ false)
    × (is_connection_error (hub_refused "x") ≡ true)
    × (is_timeout (hub_refused "x") ≡ false)
unfolding is_client_key_rejected is_hub_refused is_hub_key_changed hub_refused
kinds_apart_example = kinds_apart (hub_refused "x") refl

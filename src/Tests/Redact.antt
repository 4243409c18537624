-- ===== src/Tests/Redact.antt =====
-- Values of src/redact.rs with a secret in them.
use thalovant_rust_sdk.Prelude.{true, false, ◌≡◌, refl}
use thalovant_rust_sdk.Json.{Value, string, array, object, nil, cons, Items, Fields, end, field}
use thalovant_rust_sdk.Redact.{
  redacted, omitted, omit_detail, omit_list, omit_entries, omit_input, is_hidden, is_secret_key,
  normalize_key, codes, same_codes, one_of, is_identity_bundle, redact_value, redact_value_scoped,
  omit_echoed_inputs,
}
use thalovant_rust_sdk.Redact.Hiding.{
  Alike, itself, in_object, no_fields, hidden, visible, secrets_hidden, redact-Alike, in_detail,
  no_entries, in_list, next_error, no_errors, input, other, same_input, inputs_hidden, AlikeEntries,
  same_error, in_errors,
}

abbrev inner : Value → Value
inner key = object (field "key" key (field "site" (string "home") end))

abbrev bundle : Value → Value
bundle key = object (field "initial_identify" (inner key) end)

key_hidden : is_hidden true "key" ≡ true
unfolding is_hidden is_secret_key normalize_key codes same_codes one_of
key_hidden = refl

crypto_hidden : is_hidden false "CRYPTO-Key" ≡ true
unfolding is_hidden is_secret_key normalize_key codes same_codes one_of
crypto_hidden = refl

public_shown : is_hidden true "public_key" ≡ false
unfolding is_hidden is_secret_key normalize_key codes same_codes one_of
public_shown = refl

is_bundle : is_identity_bundle "initial_identify" ≡ true
unfolding is_identity_bundle normalize_key codes same_codes one_of
is_bundle = refl

bundle_printed : redact_value (bundle (string "s3")) ≡ bundle redacted
unfolding redact_value redact_value_scoped is_hidden is_identity_bundle is_secret_key normalize_key
    codes same_codes one_of
bundle_printed = refl

inner-Alike :
    Alike (is_identity_bundle "initial_identify") (inner (string "s3")) (inner (string "other"))
inner-Alike = rw is_bundle (
    in_object true _ _ (
      hidden true "key" (string "s3") (string "other") _ _ key_hidden
        (visible true "site" _ _ end end (itself _ (string "home")) (no_fields true))))

secrets_hidden_example :
    redact_value (bundle (string "s3")) ≡ redact_value (bundle (string "other"))
secrets_hidden_example = secrets_hidden (bundle (string "s3")) (bundle (string "other")) (
    in_object false _ _ (
      visible false "initial_identify" (inner (string "s3")) (inner (string "other")) end end
        inner-Alike (no_fields false)))

redact-Alike_example :
    Alike false (bundle (string "s3")) (redact_value (bundle (string "s3")))
    × (redact_value (redact_value (bundle (string "s3"))) ≡ redact_value (bundle (string "s3")))
redact-Alike_example = redact-Alike (bundle (string "s3"))

-- An entry that is no object stands before the one that echoes an input.
abbrev mistakes : Value → Items
mistakes sent =
    cons (string "rejected")
      (cons (object (field "msg" (string "bad") (field "input" sent end))) nil)

abbrev body : Value → Fields
body sent = field "detail" (array (mistakes sent)) (field "errors" (array (mistakes sent)) end)

mistakes-AlikeEntries : AlikeEntries (mistakes (string "s3")) (mistakes (string "x"))
mistakes-AlikeEntries = same_error (string "rejected") _ _ (
    next_error _ _ nil nil
      (other "msg" (string "bad") _ _ (input (string "s3") (string "x") end end same_input))
      no_errors)

input_omitted : omit_echoed_inputs (body (string "s3")) ≡ body omitted
unfolding omit_echoed_inputs omit_detail omit_list omit_entries omit_input
input_omitted = refl

inputs_hidden_example :
    omit_echoed_inputs (body (string "s3")) ≡ omit_echoed_inputs (body (string "x"))
inputs_hidden_example = inputs_hidden (body (string "s3")) (body (string "x")) (
    in_detail _ _ _ _ (in_list _ _ mistakes-AlikeEntries)
      (in_errors _ _ end end mistakes-AlikeEntries no_entries))

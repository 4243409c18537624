-- ===== src/Errors.antt =====
-- src/errors.rs: the error type, what an API error body says, and the kinds that ride in messages.
pub mod Kinds
use Prim.Native.String.{String, ◌++◌}
use text.Mathlib.Text.{◌==◌ as str_eq, starts_with}
use thalovant_rust_sdk.Prelude.{
  ℕ, Bool, true, false, ◌||◌, Option, none, some, List, [], is_some, ◌==◌, if◌then◌else◌,
}
use thalovant_rust_sdk.Text.{is_blank, strip_prefix}
use thalovant_rust_sdk.Json.{Fields, get, as_str, as_object, as_array, get_in, strings_of, or_else}

pub record Quota : Type 0 where
  pub period : String
  pub limit : ℕ
  pub used : ℕ
  pub reset_after : ℕ

-- An `ApiProblem` is the body it wraps. The errors of other crates carry nothing that is read here
-- but the HTTP status of a reqwest error.
pub data ThalovantError : Type 0 where
  missing_identity_field : String → ThalovantError
  invalid_identity : String → ThalovantError
  connection : String → ThalovantError
  timeout : String → ThalovantError
  listing : String → ThalovantError
  runtime : String → ThalovantError
  policy_denied :
      (denied_type code reason : String) (allowed : List String) (quota : Option Quota)
      → ThalovantError
  unanswered : String → ThalovantError
  api : String → ThalovantError
  api_response : (status_code : ℕ) (detail : String) (problem : Option Fields) → ThalovantError
  device_authorization_denied : ThalovantError
  device_authorization_expired : ThalovantError
  device_login_pending : (interval status_code : ℕ) (problem : Option Fields) → ThalovantError
  device_login_expired : (status_code : ℕ) (problem : Option Fields) → ThalovantError
  device_login_denied : (status_code : ℕ) (problem : Option Fields) → ThalovantError
  unsupported_connection_type :
      (connection_type reason : String) (status_code : Option ℕ) (problem : Option Fields)
      → ThalovantError
  admission_timeout : ℕ → ThalovantError
  admission_failed :
      (error_code : Option String) (reason : String) (status_code : Option ℕ)
      (problem : Option Fields)
      → ThalovantError
  unsupported_protocol : String → ThalovantError
  crypto : String → ThalovantError
  io : ThalovantError
  json : ThalovantError
  http : Option ℕ → ThalovantError

-- `Result<A>`.
pub data Result {ℓ} (A : Type ℓ) : Type ℓ where
  ok : A → Result A
  err : ThalovantError → Result A

pub data ApiRefusal : Type 0 where
  auth plan already_linked : ApiRefusal

-- `problem_text`.
abbrev pub not_blank : Option String → Option String
not_blank none = none
not_blank (some s) = if is_blank s then none else some s

-- `ApiProblem::code` and `ApiProblem::detail`, which look for the key in one way.
unfoldable pub problem_member : String → Fields → Option String
unfolding is_blank
problem_member key body =
    or_else (not_blank (as_str (get key body)))
      (not_blank (as_str (get_in key (as_object (get "detail" body)))))

abbrev pub code_of : Option Fields → Option String
code_of none = none
code_of (some body) = problem_member "code" body

abbrev pub detail_of : Option Fields → Option String
detail_of none = none
detail_of (some body) = problem_member "detail" body

-- `api_answer`.
unfoldable pub api_answer : ThalovantError → Option (ℕ × Option Fields)
api_answer (api_response status detail problem) = some (status, problem)
api_answer (device_login_pending interval status problem) = some (status, problem)
api_answer (device_login_expired status problem) = some (status, problem)
api_answer (device_login_denied status problem) = some (status, problem)
api_answer (unsupported_connection_type kind reason (some status) problem) = some (status, problem)
api_answer (admission_failed code reason (some status) problem) = some (status, problem)
api_answer _ = none

unfoldable pub status_code : ThalovantError → Option ℕ
unfolding api_answer
status_code (http status) = status
status_code e = elim (api_answer e) [ none ↦ none | some (status, problem) ↦ some status ]

abbrev pub is_text : Option String → String → Bool
is_text none s = false
is_text (some t) s = str_eq t s

-- The match of `api_refusal`.
unfoldable pub refusal_of : ℕ → Option String → Option String → Option ApiRefusal
refusal_of status code detail =
    if status == 401 || status == 423
    then some auth
    else if status == 403
    then (if is_text detail "Insufficient scopes"
        then some auth
        else if is_text code "plan_limit"
        then some plan
        else none)
    else if status == 402
    then some plan
    else if status == 409
    then (if is_text code "home_assistant_already_linked" then some already_linked else none)
    else none

unfoldable pub api_refusal : ThalovantError → Option ApiRefusal
unfolding api_answer refusal_of
api_refusal e = elim (api_answer e) [
  | none ↦ none
  | some (status, problem) ↦ refusal_of status (code_of problem) (detail_of problem)
]

abbrev pub hub_refused_text : String
hub_refused_text = "the hub refused this connection's credentials"

abbrev pub hub_key_changed_text : String
hub_key_changed_text = "the hub's Noise key is not the one pinned for it"

abbrev pub api_unreachable_text : String
api_unreachable_text = "could not reach the Thalovant API"

abbrev pub client_key_rejected_text : String
client_key_rejected_text =
    "it pinned a different Noise key for this client when the connection first connected"

unfoldable pub is_timeout : ThalovantError → Bool
is_timeout (timeout m) = true
is_timeout (admission_timeout t) = true
is_timeout _ = false

unfoldable pub is_api_unreachable : ThalovantError → Bool
is_api_unreachable (api m) = starts_with m api_unreachable_text
is_api_unreachable _ = false

unfoldable pub is_connection_error : ThalovantError → Bool
unfolding is_api_unreachable
is_connection_error (connection m) = true
is_connection_error (admission_timeout t) = true
is_connection_error (admission_failed c r s p) = true
is_connection_error e = is_api_unreachable e

unfoldable pub is_hub_refused : ThalovantError → Bool
is_hub_refused (connection m) = starts_with m hub_refused_text
is_hub_refused _ = false

unfoldable pub is_hub_key_changed : ThalovantError → Bool
is_hub_key_changed (connection m) = starts_with m hub_key_changed_text
is_hub_key_changed _ = false

-- `?` on a chain of `strip_prefix`.
abbrev pub strip_from : Option String → String → Option String
strip_from none p = none
strip_from (some s) p = strip_prefix s p

-- What follows the fixed opening of a rejected-key message.
unfoldable pub client_key_rejection : ThalovantError → Option String
unfolding strip_prefix
client_key_rejection (connection m) =
    strip_from (strip_from (strip_prefix m hub_refused_text) ": ") client_key_rejected_text
client_key_rejection _ = none

unfoldable pub is_client_key_rejected : ThalovantError → Bool
unfolding client_key_rejection
is_client_key_rejected e = is_some (client_key_rejection e)

unfoldable pub hub_refused : String → ThalovantError
hub_refused detail = connection (hub_refused_text ++ (": " ++ detail))

unfoldable pub hub_key_changed : String → ThalovantError
hub_key_changed detail = connection (hub_key_changed_text ++ (": " ++ detail))

unfoldable pub api_unreachable : String → ThalovantError
api_unreachable detail = api (api_unreachable_text ++ (": " ++ detail))

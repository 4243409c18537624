-- ===== src/Events.antt =====
-- src/events.rs: an event, and whether it answers to what a caller expects. `payload` is the field
-- `data`.
pub mod Matching
use Prim.Native.String.{String}
use text.Mathlib.Text.{◌==◌ as str_eq}
use thalovant_rust_sdk.Prelude.{Bool, true, false, not, Option, none, some, if◌then◌else◌}
use thalovant_rust_sdk.Json.{Value, Fields, get, as_str, as_object, or_else}

pub record Event : Type 0 where
  pub name : String
  pub payload : Fields
  pub context : Fields
  pub raw : Option Value

abbrev pub or_no_fields : Option Fields → Fields
or_no_fields none = Fields.end
or_no_fields (some fs) = fs

unfoldable pub session_from_context : Fields → Fields
session_from_context context = or_no_fields (as_object (get "session" context))

unfoldable pub session_id_from_context : Fields → Option String
unfolding session_from_context
session_id_from_context context =
    or_else (as_str (get "session_id" (session_from_context context)))
      (as_str (get "session_id" context))

unfoldable pub request_id_from_map : Fields → Option String
request_id_from_map values =
    or_else (as_str (get "request_id" values))
      (or_else (as_str (get "thalovant_request_id" values)) (as_str (get "correlation_id" values)))

unfoldable pub request_id_from_context : Fields → Option String
unfolding request_id_from_map session_from_context
request_id_from_context context =
    or_else (request_id_from_map context) (request_id_from_map (session_from_context context))

-- `Event::request_id` and `Event::session_id`.
unfoldable pub request_id : Event → Option String
unfolding request_id_from_context
request_id e = or_else (request_id_from_context e.context) (request_id_from_map e.payload)

unfoldable pub session_id : Event → Option String
unfolding session_id_from_context
session_id e = session_id_from_context e.context

-- The sessions, when no request id decides.
unfoldable pub same_session : Option String → Option String → Bool
same_session (some expected) (some got) = str_eq expected got
same_session none got = true
same_session (some expected) none = true

unfoldable pub decided_by : Option String → Option String → Option String → Option String → Bool
unfolding same_session
decided_by (some expected) (some got) wanted session = str_eq expected got
decided_by none got wanted session = same_session wanted session
decided_by (some expected) none wanted session = same_session wanted session

unfoldable pub event_matches_context : Event → Option Fields → Bool
unfolding decided_by request_id session_id
event_matches_context e none = true
event_matches_context e (some expected) =
    decided_by (request_id_from_context expected) (request_id e) (session_id_from_context expected)
      (session_id e)

-- ===== src/Events/Matching.antt =====
-- Which of the ids of src/events.rs decides.
use Prim.Native.String.{String}
use text.Mathlib.Text.{◌==◌ as str_eq}
use thalovant_rust_sdk.Prelude.{Bool, true, false, not, Option, none, some, ◌≡◌, ◌↔◌, ◌⊎◌, arith}
use thalovant_rust_sdk.Json.{Fields}
use thalovant_rust_sdk.Events.{
  Event, event_matches_context, request_id, session_id, request_id_from_context,
  session_id_from_context, decided_by, same_session,
}

-- Both sides have an id, and the ids differ.
abbrev pub differ : Option String → Option String → Bool
differ (some wanted) (some had) = not (str_eq wanted had)
differ none had = false
differ (some wanted) none = false

-- Not both sides have an id.
abbrev pub Lacks : Option String → Option String → Type 0
Lacks wanted had = (wanted ≡ none) ⊎ (had ≡ none)

decided_iff :
    (wanted had session held : Option String)
    → (decided_by wanted had session held ≡ false)
      ↔ ((differ wanted had ≡ true) ⊎ (Lacks wanted had × (differ session held ≡ true)))
unfolding decided_by same_session
decided_iff wanted had session held = (λ e. ground (arith, e), λ e. ground (arith, e))

-- An event is turned away exactly when its request id and the expected one differ, or when one of the
-- two is missing and the session ids differ.
pub matches_iff :
    (e : Event) (expected : Fields)
    → (event_matches_context e (some expected) ≡ false) ↔ (
        (differ (request_id_from_context expected) (request_id e) ≡ true)
        ⊎ (Lacks (request_id_from_context expected) (request_id e)
            × (differ (session_id_from_context expected) (session_id e) ≡ true)))
unfolding event_matches_context
matches_iff e expected =
    decided_iff (request_id_from_context expected) (request_id e) (session_id_from_context expected)
      (session_id e)

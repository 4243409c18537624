-- ===== src/Tests/Stream.antt =====
-- A stream of src/stream.rs that takes one event.
use thalovant_rust_sdk.Prelude.{ℕ, true, false, ◌↔◌, ◌⊎◌, none, some, [], ◌∷◌, ◌≡◌, refl, arith}
use thalovant_rust_sdk.Json.{Fields, string, end, field}
use thalovant_rust_sdk.Events.{
  Event, event_matches_context, request_id_from_context, request_id, session_id_from_context,
  session_id,
}
use thalovant_rust_sdk.Events.Matching.{matches_iff, differ, Lacks}
use thalovant_rust_sdk.Stream.{
  EventStream, Tick, event, lagged, ok, err, overflow, recv, recv_all, handle,
}
use thalovant_rust_sdk.Stream.Delivery.{recv_all-Keeps, Keeps, HasRoom, recv_error}

abbrev asked : Fields
asked = field "request_id" (string "r1") end

abbrev speaking : Event
speaking = record { name = "speak"; payload = end; context = asked; raw = none }

abbrev subscribed : EventStream
subscribed = record {
  open_stream = true;
  has_transport = true;
  event_name = "speak";
  expected = asked;
  accepts = λ _. true;
  max_events = some 1;
  deadline = some 100;
  received = 0;
}

abbrev arrives : ℕ → Tick
arrives now = record { top = now; woken = now; received = some (event speaking); healthy = none }

abbrev lags : Tick
lags = record { top = 1; woken = 2; received = some (lagged 3); healthy = none }

subscribed-HasRoom : HasRoom 1 subscribed
subscribed-HasRoom = record { limited = refl; within = omega arith; below = λ _. omega arith }

recv_all-Keeps_example :
    Keeps 1 subscribed (recv_all ((arrives 3 ∷ []) ∷ (arrives 4 ∷ []) ∷ []) subscribed).1
recv_all-Keeps_example =
    recv_all-Keeps 1 ((arrives 3 ∷ []) ∷ (arrives 4 ∷ []) ∷ []) subscribed subscribed-HasRoom

lag_fails : (recv (lags ∷ []) subscribed).1 ≡ some (err (overflow 3))
unfolding recv handle
lag_fails = refl

recv_error_example :
    recv (arrives 5 ∷ []) (recv (lags ∷ []) subscribed).0
    ≡ ((recv (lags ∷ []) subscribed).0, some (ok none))
recv_error_example = recv_error (lags ∷ []) subscribed (overflow 3) (arrives 5) [] lag_fails

matches_iff_example : (event_matches_context speaking (some asked) ≡ false) ↔ (
    (differ (request_id_from_context asked) (request_id speaking) ≡ true)
    ⊎ (Lacks (request_id_from_context asked) (request_id speaking)
        × (differ (session_id_from_context asked) (session_id speaking) ≡ true)))
matches_iff_example = matches_iff speaking asked

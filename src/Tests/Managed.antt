-- ===== src/Tests/Managed.antt =====
-- The loop of `HubSession::run` (src/session.rs) with a hub that refuses every attempt.
use thalovant_rust_sdk.Prelude.{ℕ, true, false, List, [], ◌∷◌, none, ◌≡◌, refl, arith}
use thalovant_rust_sdk.Errors.{
  ThalovantError, err, hub_refused, is_hub_refused, is_hub_key_changed, is_client_key_rejected,
}
use thalovant_rust_sdk.Link.{default_policy, seconds, after, new_supervisor, next_wait}
use thalovant_rust_sdk.Link.Reference.{IsOrdered}
use thalovant_rust_sdk.Link.Grace.{IsMonotone}
use thalovant_rust_sdk.Session.{
  new_session, connect, connect_over, establish, take_client, cleanup, back_off,
}
use thalovant_rust_sdk.Session.Managed.{
  Round, Managed, returns, turn, managed, after_rounds, classify, classified, dialled, answer, tell,
}
use thalovant_rust_sdk.Session.Supervised.{run_returns, Stops}

in_order : IsOrdered default_policy
in_order = record { positive = omega arith; ordered = omega arith; in_range = omega arith }

abbrev refusal : ThalovantError
refusal = hub_refused "no such client"

-- A round that begins so long after the first.
abbrev refused_round : ℕ → Round
refused_round now = record {
  alive_first = λ _. true;
  world = record {
    now = now;
    connect = err refusal;
    close_client = λ _. none;
    alive = λ _. true;
    settled = λ _. none;
    closed_connecting = false;
    closed_settling = false;
  };
  elapsed = now;
  closed_watching = false;
}

abbrev first_rounds : List Round
first_rounds = refused_round (seconds 1) ∷ refused_round (seconds 11) ∷ []

abbrev later : Managed
later =
    after_rounds first_rounds (managed (new_session default_policy) default_policy (seconds 300))

later-IsMonotone : IsMonotone (seconds 320) later.seen
unfolding after_rounds managed turn dialled classified classify tell answer connect connect_over
    establish take_client cleanup back_off new_session is_hub_refused is_hub_key_changed
    is_client_key_rejected hub_refused after new_supervisor
later-IsMonotone = ground arith

later_returns : (turn (refused_round (seconds 320)) later).1 ≡ returns (err refusal)
unfolding after_rounds managed turn dialled classified classify tell answer connect connect_over
    establish take_client cleanup back_off new_session is_hub_refused is_hub_key_changed
    is_client_key_rejected hub_refused after new_supervisor next_wait
later_returns = refl

run_returns_example : Stops (seconds 300) (seconds 320) later.seen refusal
run_returns_example =
    run_returns (new_session default_policy) default_policy (seconds 300) first_rounds
      (refused_round (seconds 320)) refusal in_order (omega arith) later-IsMonotone later_returns

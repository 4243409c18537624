-- ===== src/Tests/Session.antt =====
-- A hub session of src/session.rs through a short life.
use thalovant_rust_sdk.Prelude.{ℕ, true, false, not, List, [], ◌∷◌, none, ◌≡◌, refl, arith, ◌==◌}
use thalovant_rust_sdk.Errors.{timeout, Result, ok, err}
use thalovant_rust_sdk.Link.{default_policy, seconds, next_wait}
use thalovant_rust_sdk.Link.Reference.{IsOrdered}
use thalovant_rust_sdk.Session.{
  World, Client, new_session, close, drop_client, begin_close, cleanup, connect, connect_over,
  establish, take_client, settle_client, hold_client, call, back_off, discard,
}
use thalovant_rust_sdk.Session.Invariant.{Inv}
use thalovant_rust_sdk.Session.Lifecycle.{
  Action, connects, calls, warms_up, run, step, run-Inv, close_final, Ended,
}

policy_IsOrdered : IsOrdered default_policy
policy_IsOrdered = record { positive = omega arith; ordered = omega arith; in_range = omega arith }

-- A world in which everything succeeds, with the next client.
abbrev fine : ℕ → Client → World
fine now c = record {
  now = now;
  connect = ok c;
  close_client = λ _. none;
  alive = λ _. true;
  settled = λ _. none;
  closed_connecting = false;
  closed_settling = false;
}

-- The same with client 1 dead, and one whose factory fails.
abbrev first_dead : ℕ → Client → World
first_dead now c = record (fine now c) { alive = λ d. not (d == 1) }

abbrev refusing : ℕ → World
refusing now = record (fine now 0) { connect = err (timeout "no answer") }

abbrev answers : Client → Result ℕ
answers c = ok c

abbrev fails : Client → Result ℕ
fails c = err (timeout "no answer")

-- A refused attempt, then client 1; it dies, client 2 replaces it and fails an operation.
abbrev life : List Action
life =
    connects (refusing (seconds 1))
    ∷ connects (fine (seconds 20) 1)
    ∷ calls (first_dead (seconds 30) 2) answers
    ∷ calls (fine (seconds 40) 3) fails
    ∷ warms_up (fine (seconds 50) 4)
    ∷ []

run-Inv_example : Inv (run life (new_session default_policy))
run-Inv_example = run-Inv default_policy life policy_IsOrdered

closes_well : (close (fine (seconds 60) 5) (run life (new_session default_policy))).1 ≡ ok tt
unfolding run step new_session close drop_client begin_close cleanup connect connect_over establish
    take_client settle_client hold_client call back_off next_wait discard
closes_well = refl

close_final_example :
    Ended (close (fine (seconds 60) 5) (run life (new_session default_policy))).0 (
      run
        (connects (fine (seconds 70) 6) ∷ [])
        (close (fine (seconds 60) 5) (run life (new_session default_policy))).0)
close_final_example =
    close_final default_policy life (fine (seconds 60) 5) (connects (fine (seconds 70) 6) ∷ [])
      policy_IsOrdered closes_well

-- ===== src/Tests/Handlers.antt =====
-- The handler registry of src/session.rs on short interleavings.
use thalovant_rust_sdk.Prelude.{◌<◌, true, false, List, [], ◌∷◌, some, ◌≡◌, refl, arith}
use thalovant_rust_sdk.Handlers.Store.{
  Shared, Registration, fresh_session, take_registration, off_take, close_take, retire_taken,
  retire, contains, on_enter, on_push, dispatch_copy, start_task, number_matching, begin_close,
}
use thalovant_rust_sdk.Handlers.Schedule.{
  Action, enters_on, registers, dispatches, starts, ends, removes, retires, begins_close, run, step,
}
use thalovant_rust_sdk.Handlers.Removal.{off-IsQuiet, IsQuiet}
use thalovant_rust_sdk.Handlers.Closing.{close-IsQuiet}

-- Two handlers of one event type, of which the first is started and the second still waits.
abbrev dispatched : List Action
dispatched =
    enters_on
    ∷ enters_on
    ∷ registers "speak"
    ∷ registers "speak"
    ∷ dispatches "speak"
    ∷ starts (0, 1)
    ∷ []

abbrev second : Registration
second = record { id = 2; event_type = "speak"; running = 1 }

taken_first :
    take_registration 1 (run fresh_session dispatched).events
    ≡ some (record { id = 1; event_type = "speak"; running = 0 }, second ∷ [])
unfolding run step fresh_session on_enter on_push dispatch_copy number_matching start_task
    take_registration
taken_first = refl

-- While the first waits to be retired, the second starts.
off-IsQuiet_example : IsQuiet 0 (
    run
      (retire_taken (run (off_take (run fresh_session dispatched) 1).0 (starts (1, 2) ∷ [])) 0)
      (ends (0, 1) ∷ []))
off-IsQuiet_example =
    off-IsQuiet dispatched (starts (1, 2) ∷ []) (ends (0, 1) ∷ []) 1
      (record { id = 1; event_type = "speak"; running = 0 }) (second ∷ []) taken_first

-- Two handlers; `off` has taken the first, and not yet retired it, when `close` begins.
abbrev closing : List Action
closing =
    enters_on
    ∷ registers "speak"
    ∷ enters_on
    ∷ registers "speak"
    ∷ dispatches "speak"
    ∷ removes 1
    ∷ begins_close
    ∷ []

-- `close` retires the second; a copy of the first that `off` has not yet retired still starts.
abbrev between : List Action
between = retires 1 ∷ starts (0, 1) ∷ retires 0 ∷ []

closing_closed : (run fresh_session closing).closed ≡ true
unfolding run step fresh_session on_enter on_push dispatch_copy number_matching off_take
    take_registration begin_close
closing_closed = refl

closing_settled : (run fresh_session closing).entering ≡ 0
unfolding run step fresh_session on_enter on_push dispatch_copy number_matching off_take
    take_registration begin_close
closing_settled = refl

-- Before its `retire`, the first does run.
still_runs :
    ((run (close_take (run fresh_session closing)) (retires 1 ∷ starts (0, 1) ∷ [])).tasks
      0).running
    ≡ 1 ∷ []
unfolding run step fresh_session on_enter on_push dispatch_copy number_matching off_take
    take_registration begin_close close_take retire_taken retire start_task
still_runs = refl

first_through : contains 0 (run (close_take (run fresh_session closing)) between).retiring ≡ false
unfolding run step fresh_session on_enter on_push dispatch_copy number_matching off_take
    take_registration begin_close close_take retire_taken retire start_task
first_through = refl

abbrev after_close : Shared
after_close = run (run (close_take (run fresh_session closing)) between) (dispatches "speak" ∷ [])

first_allocated : 0 < after_close.next_address
unfolding run step fresh_session on_enter on_push dispatch_copy number_matching off_take
    take_registration begin_close close_take retire_taken retire start_task
first_allocated = omega arith

close-IsQuiet_example : IsQuiet 0 after_close
close-IsQuiet_example =
    close-IsQuiet closing between (dispatches "speak" ∷ []) 0 closing_closed closing_settled
      first_through first_allocated

-- ===== src/Handlers/Schedule.antt =====
-- The session's handlers under any interleaving of the threads that use them (src/session.rs).
use Prim.Native.String.{String}
use thalovant_rust_sdk.Prelude.{ℕ, List, [], ◌∷◌, if◌then◌else◌, ltb}
use thalovant_rust_sdk.Handlers.Store.{
  Shared, TaskRef, start_task, drop_entry, on_enter, on_push, on_state_change, off_take,
  retire_taken, dispatch_copy, begin_close, close_take, logged, same_ref, contains,
}

pub data Action : Type 0 where
  enters_on : Action
  registers : String → Action
  registers_state : Action
  removes : ℕ → Action
  dispatches : String → Action
  starts : TaskRef → Action
  skips : TaskRef → Action
  ends : TaskRef → Action
  begins_close : Action
  takes_all : Action
  retires : ℕ → Action

abbrev pub drop_ref : TaskRef → List TaskRef → List TaskRef
drop_ref x [] = []
drop_ref x (y ∷ ys) = let rest = drop_ref x ys in if same_ref y x then ys else y ∷ rest

abbrev pub taken : Shared → TaskRef → Shared
taken s x = record s { pending = drop_ref x s.pending }

-- `enters_on` and `registers` are the two halves of `on`, `starts` is `dispatch` going on with
-- one of its copies, `skips` a handler that panicked before its task was built, and `ends` a task
-- that is over. `removes` and `takes_all` are the first halves of `off` and of the end of `close`,
-- and `retires` is one `retire` of either's second half, which may come at any later moment.
unfoldable pub step : Shared → Action → Shared
step s enters_on = (on_enter s).0
step s (registers name) = if ltb 0 s.entering then (on_push s name).0 else s
step s registers_state = (on_state_change s).0
step s (removes id) = (off_take s id).0
step s (dispatches name) = dispatch_copy s name
step s (starts (a, t)) = if logged (a, t) s.pending then (start_task (taken s (a, t)) a t).0 else s
step s (skips x) = taken s x
step s (ends (a, t)) = drop_entry s a t
step s begins_close = begin_close s
step s takes_all = close_take s
step s (retires a) = if contains a s.retiring then retire_taken s a else s

unfoldable pub run : Shared → List Action → Shared
run s [] = s
run s (x ∷ xs) = run (step s x) xs

-- ===== src/Handlers/Removal.antt =====
-- What `off` and `close` of src/session.rs promise: a removed handler is gone for good.
use thalovant_rust_sdk.Prelude.{ℕ, ◌≤◌, ◌<◌, true, some, List, [], ◌∷◌, ◌||◌, ◌≡◌, arith}
use thalovant_rust_sdk.Handlers.Store.{
  Shared, Registration, fresh_session, start_task, retire, drop_entry, on_enter, on_push,
  on_state_change, off_take, retire_taken, take_registration, dispatch_copy, begin_close,
  close_take, logged,
}
use thalovant_rust_sdk.Handlers.Schedule.{
  Action, enters_on, registers, registers_state, removes, dispatches, starts, skips, ends,
  begins_close, takes_all, retires, step, run,
}
use thalovant_rust_sdk.Handlers.Invariant.{
  Inv, EventsBelow-take, retire_taken-Inv, step-Inv, run-Inv, fresh_session-Inv,
}

-- The handler whose tasks are at `a` was removed.
pub record IsRetired (a : ℕ) (s : Shared) : Type 0 where
  pub allocated : a < s.next_address
  pub marked : (s.tasks a).retired ≡ true

start_task-IsRetired : (s : Shared) (a b t : ℕ) → IsRetired a s → IsRetired a (start_task s b t).0
unfolding start_task
start_task-IsRetired s a b t r = ground arith

retire_taken-IsRetired : (s : Shared) (a b : ℕ) → IsRetired a s → IsRetired a (retire_taken s b)
unfolding retire_taken retire
retire_taken-IsRetired s a b r = ground arith

off_take-IsRetired : (s : Shared) (a id : ℕ) → IsRetired a s → IsRetired a (off_take s id).0
unfolding off_take
off_take-IsRetired s a id r = ground arith

step-IsRetired : (s : Shared) (x : Action) (a : ℕ) → IsRetired a s → IsRetired a (step s x)
unfolding step
step-IsRetired s enters_on a r = unfold on_enter in ground arith
step-IsRetired s (registers name) a r = unfold on_push in ground arith
step-IsRetired s registers_state a r = unfold on_state_change in ground arith
step-IsRetired s (removes id) a r = off_take-IsRetired s a id r
step-IsRetired s (dispatches name) a r = unfold dispatch_copy in ground arith
step-IsRetired s (starts (b, t)) a r = unfold start_task in ground arith
step-IsRetired s (skips x) a r = ground arith
step-IsRetired s (ends (b, t)) a r = unfold drop_entry in ground arith
step-IsRetired s begins_close a r = unfold begin_close in ground arith
step-IsRetired s takes_all a r = unfold close_take in ground arith
step-IsRetired s (retires b) a r = ground (arith, retire_taken-IsRetired s a b r)

pub run-IsRetired : (s : Shared) (xs : List Action) (a : ℕ) → IsRetired a s → IsRetired a (run s xs)
unfolding run
run-IsRetired s [] a r = r
run-IsRetired s (x ∷ xs) a r = run-IsRetired (step s x) xs a (step-IsRetired s x a r)

-- A retired handler runs nothing, and all it ever started has ended or was aborted.
pub record IsQuiet (a : ℕ) (s : Shared) : Type 0 where
  pub idle : (s.tasks a).running ≡ []
  pub over :
      (t : ℕ)
      → logged (a, t) s.started ≡ true
      → (logged (a, t) s.ended || logged (a, t) s.aborted) ≡ true

pub IsRetired-IsQuiet : (a : ℕ) (s : Shared) → Inv s → IsRetired a s → IsQuiet a s
IsRetired-IsQuiet a s v r = record {
  idle = v.retired_idle a r.marked;
  over = λ t e. ground (arith, v.all_accounted a t, v.retired_idle a);
}

-- Addresses are never given back.
step_grows : (s : Shared) (x : Action) → s.next_address ≤ (step s x).next_address
unfolding step
step_grows s enters_on = unfold on_enter in ground arith
step_grows s (registers name) = unfold on_push in ground arith
step_grows s registers_state = unfold on_state_change in ground arith
step_grows s (removes id) = unfold off_take in ground arith
step_grows s (dispatches name) = unfold dispatch_copy in ground arith
step_grows s (starts (b, t)) = unfold start_task in ground arith
step_grows s (skips x) = ground arith
step_grows s (ends (b, t)) = unfold drop_entry in ground arith
step_grows s begins_close = unfold begin_close in ground arith
step_grows s takes_all = unfold close_take in ground arith
step_grows s (retires b) = unfold retire_taken retire in ground arith

run_grows : (s : Shared) (xs : List Action) → s.next_address ≤ (run s xs).next_address
unfolding run
run_grows s [] = omega arith
run_grows s (x ∷ xs) = omega (arith, step_grows s x, run_grows (step s x) xs)

retire_taken_marks : (s : Shared) (a : ℕ) → a < s.next_address → IsRetired a (retire_taken s a)
unfolding retire_taken retire
retire_taken_marks s a h = record { allocated = h; marked = ground arith }

-- What `off` took is allocated.
off_takes :
    (s : Shared) (id : ℕ) (r : Registration) (others : List Registration)
    → Inv s
    → take_registration id s.events ≡ some (r, others)
    → r.running < (off_take s id).0.next_address
unfolding step
off_takes s id r others v e =
    let known = (EventsBelow-take s.next_address id s.events others r v.events_below e).0 in
    omega (arith, known, step_grows s (removes id))

-- Once `off` has removed a handler, at any moment of any interleaving, and then retired it, whatever
-- other threads did between the two, none of its tasks runs and every task it ever started has ended
-- or was aborted, whatever threads do afterwards: a dispatch that had copied the handler before
-- cannot start it any more.
pub off-IsQuiet :
    (before between later : List Action) (id : ℕ) (r : Registration) (others : List Registration)
    → take_registration id (run fresh_session before).events ≡ some (r, others)
    → IsQuiet r.running (
        run (retire_taken (run (off_take (run fresh_session before) id).0 between) r.running) later)
unfolding step
off-IsQuiet before between later id r others e =
    let s = run fresh_session before in
    let v = run-Inv fresh_session before fresh_session-Inv in
    let t = (off_take s id).0 in
    let u = run t between in
    let w = retire_taken-Inv u r.running (run-Inv t between (step-Inv s (removes id) v)) in
    let known : r.running < u.next_address =
      omega (arith, off_takes s id r others v e, run_grows t between) in
    IsRetired-IsQuiet r.running (run (retire_taken u r.running) later)
      (run-Inv (retire_taken u r.running) later w)
      (run-IsRetired (retire_taken u r.running) later r.running
        (retire_taken_marks u r.running known))

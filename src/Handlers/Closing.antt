-- ===== src/Handlers/Closing.antt =====
-- `close` of src/session.rs against calls of `on` and of `off`.
use Prim.Native.String.{String}
use thalovant_rust_sdk.Prelude.{
  ℕ, ◌<◌, Bool, true, false, some, List, [], ◌∷◌, ◌++◌, ◌==◌, ◌||◌, if◌then◌else◌, ◌≡◌, refl, arith,
  Option-cases, Bool-cases, inl, inr, ltb, length,
}
use thalovant_rust_sdk.Handlers.Store.{
  Shared, Registration, fresh_session, start_task, retire, drop_entry, on_enter, on_push,
  on_state_change, off_take, retire_taken, take_registration, dispatch_copy, begin_close,
  close_take, next_of, addresses, contains,
}
use thalovant_rust_sdk.Handlers.Schedule.{
  Action, enters_on, registers, registers_state, removes, dispatches, starts, skips, ends,
  begins_close, takes_all, retires, step, run,
}
use thalovant_rust_sdk.Handlers.Invariant.{contains-remove, step-Inv, run-Inv, fresh_session-Inv}
use thalovant_rust_sdk.Handlers.Removal.{IsRetired, IsQuiet, IsRetired-IsQuiet}

-- A registration holds the tasks at `a`.
abbrev holds : ℕ → List Registration → Bool
holds a [] = false
holds a (r ∷ rs) = r.running == a || holds a rs

-- Every `Tasks` ever made belongs to a registration, waits to be retired or was retired.
abbrev Owned : Shared → Type 0
Owned s =
    (a : ℕ)
    → a < s.next_address
    → (holds a s.events || contains a s.retiring || (s.tasks a).retired) ≡ true

holds-push :
    (a : ℕ) (rs : List Registration) (r : Registration)
    → holds a (rs ++ r ∷ []) ≡ (holds a rs || r.running == a)
holds-push a [] r = ground arith
holds-push a (x ∷ rs) r = ground (arith, holds-push a rs r)

holds-take :
    (a id : ℕ) (rs others : List Registration) (r : Registration)
    → take_registration id rs ≡ some (r, others)
    → holds a rs ≡ (holds a others || r.running == a)
unfolding take_registration
holds-take a id [] others r e = cc
holds-take a id (x ∷ rs) others r e = elim (Bool-cases (x.id == id)) [
  | inl hit ↦ ground arith
  | inr miss ↦ elim (Option-cases (take_registration id rs)) [
    | inl absent ↦ absurd (ground arith)
    | inr ((y, ys), found) ↦ ground (arith, holds-take a id rs ys y found)
  ]
]

off_take-Owned : (s : Shared) (id : ℕ) → Owned s → Owned (off_take s id).0
unfolding off_take
off_take-Owned s id w a h = elim (Option-cases (take_registration id s.events)) [
  | inl absent ↦ ground (arith, w a)
  | inr ((r, others), found) ↦ ground (arith, w a, holds-take a id s.events others r found)
]

contains-addresses :
    (a : ℕ) (rs : List Registration) (us : List ℕ)
    → contains a (addresses rs ++ us) ≡ (holds a rs || contains a us)
contains-addresses a [] us = refl
contains-addresses a (r ∷ rs) us = ground (arith, contains-addresses a rs us)

close_take-Owned : (s : Shared) → Owned s → Owned (close_take s)
unfolding close_take
close_take-Owned s w a h = ground (arith, w a, contains-addresses a s.events s.retiring)

retire_taken-Owned : (s : Shared) (b : ℕ) → Owned s → Owned (retire_taken s b)
unfolding retire_taken retire
retire_taken-Owned s b w a h = ground (arith, w a, contains-remove a b s.retiring)

on_push-Owned : (s : Shared) (name : String) → Owned s → Owned (on_push s name).0
unfolding on_push
on_push-Owned s name w a h = ground (
  arith,
  w a,
  holds-push a s.events (record { id = next_of s; event_type = name; running = s.next_address }),
)

Owned-if : (b : Bool) (s t : Shared) → Owned t → Owned s → Owned (if b then t else s)
Owned-if true s t w x = w
Owned-if false s t w x = x

step-Owned : (s : Shared) (x : Action) → Owned s → Owned (step s x)
unfolding step
step-Owned s enters_on w a h = unfold on_enter in ground (arith, w a)
step-Owned s (registers name) w a h =
    Owned-if (ltb 0 s.entering) s (on_push s name).0 (on_push-Owned s name w) w a h
step-Owned s registers_state w a h = unfold on_state_change in ground (arith, w a)
step-Owned s (removes id) w a h = off_take-Owned s id w a h
step-Owned s (dispatches name) w a h = unfold dispatch_copy in ground (arith, w a)
step-Owned s (starts (b, t)) w a h = unfold start_task in ground (arith, w a)
step-Owned s (skips x) w a h = ground (arith, w a)
step-Owned s (ends (b, t)) w a h = unfold drop_entry in ground (arith, w a)
step-Owned s begins_close w a h = unfold begin_close in ground (arith, w a)
step-Owned s takes_all w a h = close_take-Owned s w a h
step-Owned s (retires b) w a h =
    Owned-if (contains b s.retiring) s (retire_taken s b) (retire_taken-Owned s b w) w a h

run-Owned : (s : Shared) (xs : List Action) → Owned s → Owned (run s xs)
unfolding run
run-Owned s [] w = w
run-Owned s (x ∷ xs) w = run-Owned (step s x) xs (step-Owned s x w)

-- Closed, with every call of `on` through, and no registration left.
record IsShut (s : Shared) : Type 0 where
  closed : s.closed ≡ true
  nobody : s.entering ≡ 0
  empty : s.events ≡ []

close_take-IsShut : (s : Shared) → s.closed ≡ true → s.entering ≡ 0 → IsShut (close_take s)
unfolding close_take
close_take-IsShut s c n = record { closed = c; nobody = n; empty = refl }

-- What a step does to a session that is shut: nobody comes to wait for being retired.
record StaysShut (s t : Shared) : Type 0 where
  shut : IsShut t
  fewer : (a : ℕ) → contains a s.retiring ≡ false → contains a t.retiring ≡ false

off_take-StaysShut : (s : Shared) (id : ℕ) → IsShut s → StaysShut s (off_take s id).0
unfolding off_take take_registration
off_take-StaysShut s id v =
    rw (v.empty, off_take)
      (record {
        shut = record { closed = v.closed; nobody = v.nobody; empty = v.empty };
        fewer = λ a h. h;
      })

close_take-StaysShut : (s : Shared) → IsShut s → StaysShut s (close_take s)
unfolding close_take
close_take-StaysShut s v = record {
  shut = close_take-IsShut s v.closed v.nobody;
  fewer = λ a h. ground (arith, contains-addresses a s.events s.retiring, v.empty);
}

retire_taken-StaysShut : (s : Shared) (b : ℕ) → IsShut s → StaysShut s (retire_taken s b)
unfolding retire_taken retire
retire_taken-StaysShut s b v = record {
  shut = record { closed = v.closed; nobody = v.nobody; empty = v.empty };
  fewer = λ a h. ground (arith, contains-remove a b s.retiring);
}

StaysShut-if :
    (b : Bool) (s t : Shared) → IsShut s → StaysShut s t → StaysShut s (if b then t else s)
StaysShut-if true s t v w = w
StaysShut-if false s t v w = record { shut = v; fewer = λ a h. h }

step-StaysShut : (s : Shared) (x : Action) → IsShut s → StaysShut s (step s x)
unfolding step
step-StaysShut s enters_on v = unfold on_enter in ground (arith, v)
step-StaysShut s (registers name) v = ground (arith, v)
step-StaysShut s registers_state v = unfold on_state_change in ground (arith, v)
step-StaysShut s (removes id) v = off_take-StaysShut s id v
step-StaysShut s (dispatches name) v = unfold dispatch_copy in ground (arith, v)
step-StaysShut s (starts (b, t)) v = unfold start_task in ground (arith, v)
step-StaysShut s (skips x) v = ground (arith, v)
step-StaysShut s (ends (b, t)) v = unfold drop_entry in ground (arith, v)
step-StaysShut s begins_close v = unfold begin_close in ground (arith, v)
step-StaysShut s takes_all v = close_take-StaysShut s v
step-StaysShut s (retires b) v =
    StaysShut-if (contains b s.retiring) s (retire_taken s b) v (retire_taken-StaysShut s b v)

run-StaysShut : (s : Shared) (xs : List Action) → IsShut s → StaysShut s (run s xs)
unfolding run
run-StaysShut s [] v = record { shut = v; fewer = λ a h. h }
run-StaysShut s (x ∷ xs) v =
    let w = step-StaysShut s x v in
    let u = run-StaysShut (step s x) xs w.shut in
    record { shut = u.shut; fewer = λ a h. u.fewer a (w.fewer a h) }

IsShut-IsRetired :
    (s : Shared) (a : ℕ)
    → IsShut s
    → Owned s
    → contains a s.retiring ≡ false
    → a < s.next_address
    → IsRetired a s
IsShut-IsRetired s a v w through h = record { allocated = h; marked = ground (arith, w a, v.empty) }

-- One `retire` of the handler, by whoever took it, is enough for it to wait no more.
retires_settles : (s : Shared) (a : ℕ) → contains a (step s (retires a)).retiring ≡ false
unfolding step retire_taken retire
retires_settles s a = ground (arith, contains-remove a a s.retiring)

fresh_session-Owned : Owned fresh_session
unfolding fresh_session
fresh_session-Owned a h = absurd (omega arith)

-- Once `close` has taken the registrations with no call of `on` under way, every handler that the
-- session ever had runs nothing as soon as the call of `off` or of `close` that took it has retired
-- it, whatever threads did in between and do afterwards: no task of it runs, and all it started have
-- ended or were aborted.
pub close-IsQuiet :
    (before between later : List Action) (a : ℕ)
    → (run fresh_session before).closed ≡ true
    → (run fresh_session before).entering ≡ 0
    → contains a (run (close_take (run fresh_session before)) between).retiring ≡ false
    → a < (run (run (close_take (run fresh_session before)) between) later).next_address
    → IsQuiet a (run (run (close_take (run fresh_session before)) between) later)
unfolding step
close-IsQuiet before between later a c n through h =
    let s = run fresh_session before in
    let t = close_take s in
    let u = run t between in
    let w = run-Owned fresh_session before fresh_session-Owned in
    let v = step-Inv s takes_all (run-Inv fresh_session before fresh_session-Inv) in
    let x = run-StaysShut t between (close_take-IsShut s c n) in
    let y = run-StaysShut u later x.shut in
    let owned = run-Owned u later (run-Owned t between (step-Owned s takes_all w)) in
    IsRetired-IsQuiet a (run u later) (run-Inv u later (run-Inv t between v))
      (IsShut-IsRetired (run u later) a y.shut owned (y.fewer a through) h)

-- The hypothesis on `on` is needed: a call that passed its test before `close` leaves its handler
-- registered on the closed session, whatever its event type.
pub late_on_stays :
    (name : String)
    → length (run fresh_session (enters_on ∷ begins_close ∷ takes_all ∷ registers name ∷ [])).events
      ≡ 1
unfolding run step fresh_session on_enter begin_close close_take on_push
late_on_stays name = refl

-- ===== src/Handlers/Store.antt =====
-- `Tasks`, `Registration`, `Handlers` and the operations on them, from src/session.rs.
use Prim.Native.String.{String}
use text.Mathlib.Text.{◌==◌ as str_eq}
use thalovant_rust_sdk.Prelude.{
  ℕ, ◌+◌, ◌-◌, ◌%◌, ◌^◌, Bool, true, false, not, Option, none, some, List, [], ◌∷◌, ◌++◌, map,
  length, ◌==◌, ◌&&◌, ◌||◌, if◌then◌else◌,
}

-- An abort handle is its task's number.
pub record Tasks : Type 0 where
  pub retired : Bool
  pub running : List ℕ

-- `Running::default()`.
abbrev pub no_tasks : Tasks
no_tasks = record { retired = false; running = [] }

pub record Registration : Type 0 where
  pub id : ℕ
  pub event_type : String
  pub running : ℕ

-- A task of the `Tasks` at an address.
abbrev pub TaskRef : Type 0
TaskRef = ℕ × ℕ

-- The session's handlers, and around them what the other threads share: the `Tasks` by address, the
-- next free address, the calls of `on` past their test, the copies that `dispatch` has made and not
-- yet started, the `Tasks` that `off` and `close` have taken and not yet retired, and for the proofs
-- a log of the tasks started, ended and aborted.
pub record Shared : Type 0 where
  pub closed : Bool
  pub entering : ℕ
  pub next_id : ℕ
  pub next_task : ℕ
  pub events : List Registration
  pub states : List ℕ
  pub tasks : ℕ → Tasks
  pub next_address : ℕ
  pub pending : List TaskRef
  pub retiring : List ℕ
  pub started : List TaskRef
  pub ended : List TaskRef
  pub aborted : List TaskRef

unfoldable pub fresh_session : Shared
fresh_session = record {
  closed = false;
  entering = 0;
  next_id = 0;
  next_task = 0;
  events = [];
  states = [];
  tasks = λ a. no_tasks;
  next_address = 0;
  pending = [];
  retiring = [];
  started = [];
  ended = [];
  aborted = [];
}

abbrev pub update : (ℕ → Tasks) → ℕ → Tasks → ℕ → Tasks
update f a v b = if a == b then v else f b

-- `HashMap::remove` on the numbers.
abbrev pub remove : ℕ → List ℕ → List ℕ
remove t [] = []
remove t (u ∷ us) = let rest = remove t us in if u == t then rest else u ∷ rest

-- A `HashMap` holds a key once.
abbrev pub insert : ℕ → List ℕ → List ℕ
insert t us = t ∷ remove t us

-- `start_task`; its `bool` says whether the task was started.
unfoldable pub start_task : Shared → ℕ → ℕ → Shared × Bool
start_task s a t = if (s.tasks a).retired then (s, false) else (
  record s {
    tasks =
        update s.tasks a
          (record { retired = (s.tasks a).retired; running = insert t (s.tasks a).running });
    started = (a, t) ∷ s.started;
  },
  true,
)

abbrev pub at_address : ℕ → List ℕ → List TaskRef
at_address a = map (λ t. (a, t))

-- `retire`: the tasks are drained under their lock, and aborted. A drained task that ends before its
-- abort finds no entry of its own to remove.
unfoldable pub retire : Shared → ℕ → Shared
retire s a = record s {
  tasks = update s.tasks a (record { retired = true; running = [] });
  aborted = at_address a (s.tasks a).running ++ s.aborted;
}

-- `RunningEntry::drop`, however the task ended.
unfoldable pub drop_entry : Shared → ℕ → ℕ → Shared
drop_entry s a t = record s {
  tasks =
      update s.tasks a
        (record { retired = (s.tasks a).retired; running = remove t (s.tasks a).running });
  ended = (a, t) ∷ s.ended;
}

-- `next_id += 1` on a `u64`.
abbrev pub next_of : Shared → ℕ
next_of s = (s.next_id + 1) % 2 ^ 64

-- The first half of `on`: its test of `closed`, made before it takes the lock.
unfoldable pub on_enter : Shared → Shared × Bool
on_enter s = if s.closed then (s, false) else (record s { entering = s.entering + 1 }, true)

-- The second half of `on`: the registration under the lock, and the handler's id.
unfoldable pub on_push : Shared → String → Shared × ℕ
on_push s event_type = (
  record s {
    next_id = next_of s;
    events =
        s.events
        ++ record { id = next_of s; event_type = event_type; running = s.next_address } ∷ [];
    tasks = update s.tasks s.next_address no_tasks;
    next_address = s.next_address + 1;
    entering = s.entering - 1;
  },
  next_of s,
)

unfoldable pub on_state_change : Shared → Shared × ℕ
on_state_change s =
    (record s { next_id = next_of s; states = s.states ++ next_of s ∷ [] }, next_of s)

-- `position(|r| r.id == id)` with `remove`: the registration and the others.
abbrev pub cons_other :
    Registration
    → Option (Registration × List Registration)
    → Option (Registration × List Registration)
cons_other r none = none
cons_other r (some (x, others)) = some (x, r ∷ others)

unfoldable pub take_registration : ℕ → List Registration → Option (Registration × List Registration)
take_registration id [] = none
take_registration id (r ∷ rs) =
    let rest = cons_other r (take_registration id rs) in if r.id == id then some (r, rs) else rest

-- `off` up to where it lets go of the handlers: the registration is taken, and waits to be retired.
-- The `bool` that `off` answers says whether the id was registered.
unfoldable pub off_take : Shared → ℕ → Shared × Bool
unfolding take_registration
off_take s id = elim (take_registration id s.events) [
  | some (r, others) ↦ (record s { events = others; retiring = r.running ∷ s.retiring }, true)
  | none ↦
      let kept = remove id s.states in
      (record s { states = kept }, not (length kept == length s.states))
]

-- `retire` of a handler that `off` or `close` took, which they call with no lock held. An
-- address waits once, since a registration is taken once.
unfoldable pub retire_taken : Shared → ℕ → Shared
unfolding retire
retire_taken s a = retire (record s { retiring = remove a s.retiring }) a

-- The first half of `dispatch`: the matching handlers are copied and numbered under the lock. The
-- counter wraps at 64 bits.
unfoldable pub number_matching : String → List Registration → ℕ → List TaskRef × ℕ
number_matching name [] n = ([], n)
number_matching name (r ∷ rs) n =
    let matches = str_eq r.event_type name in
    let m = if matches then (n + 1) % 2 ^ 64 else n in
    let rest = number_matching name rs m in
    if matches then ((r.running, m) ∷ rest.0, rest.1) else rest

unfoldable pub dispatch_copy : Shared → String → Shared
unfolding number_matching
dispatch_copy s name = record s {
  next_task = (number_matching name s.events s.next_task).1;
  pending = s.pending ++ (number_matching name s.events s.next_task).0;
}

-- The end of `close` up to where it lets go of the handlers: each registration is taken, and waits
-- for the loop of `retire` calls that follows.
abbrev pub addresses : List Registration → List ℕ
addresses [] = []
addresses (r ∷ rs) = r.running ∷ addresses rs

unfoldable pub close_take : Shared → Shared
close_take s = record s { events = []; states = []; retiring = addresses s.events ++ s.retiring }

-- The start of `close`: from here on the test of `on` fails.
unfoldable pub begin_close : Shared → Shared
begin_close s = record s { closed = true }

abbrev pub same_ref : TaskRef → TaskRef → Bool
same_ref (a, t) (b, u) = a == b && t == u

abbrev pub logged : TaskRef → List TaskRef → Bool
logged x [] = false
logged x (y ∷ ys) = same_ref y x || logged x ys

abbrev pub contains : ℕ → List ℕ → Bool
contains t [] = false
contains t (u ∷ us) = u == t || contains t us

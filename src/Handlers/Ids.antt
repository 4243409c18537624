-- ===== src/Handlers/Ids.antt =====
-- Handler ids of src/session.rs: `off` answers `true` once.
use Prim.Native.String.{String}
use thalovant_rust_sdk.Prelude.{
  ℕ, suc, ◌+◌, ◌≤◌, ◌<◌, not, List, [], ◌∷◌, ◌==◌, if◌then◌else◌, ◌≡◌, ◌⊎◌,
}
use thalovant_rust_sdk.Handlers.Store.{Shared, Registration, off_take}
use thalovant_rust_sdk.Handlers.Schedule.{
  Action, enters_on, registers, registers_state, removes, dispatches, starts, skips, ends,
  begins_close, takes_all, retires, run,
}

-- How often an id is registered.
abbrev count_events : ℕ → List Registration → ℕ
count_events id [] = 0
count_events id (r ∷ rs) = let n = count_events id rs in if r.id == id then suc n else n

abbrev count_states : ℕ → List ℕ → ℕ
count_states id [] = 0
count_states id (i ∷ is) = let n = count_states id is in if i == id then suc n else n

abbrev uses : Shared → ℕ → ℕ
uses s id = count_events id s.events + count_states id s.states

-- Ids are handed out once.
pub record HasFreshIds (s : Shared) : Type 0 where
  once : (id : ℕ) → uses s id ≤ 1
  unused : (id : ℕ) → s.next_id < id → uses s id ≡ 0

-- What `off` leaves, and what it answers.
record OffUses (s : Shared) (id : ℕ) : Type 0 where
  left : (i : ℕ) → uses (off_take s id).0 i ≡ (if id == i then 0 else uses s i)
  answer : (off_take s id).1 ≡ not (uses s id == 0)
  same_next : (off_take s id).0.next_id ≡ s.next_id

-- How many ids a step hands out, and how many a run.
abbrev ids_of : Action → ℕ
ids_of enters_on = 0
ids_of (registers name) = 1
ids_of registers_state = 1
ids_of (removes id) = 0
ids_of (dispatches name) = 0
ids_of (starts x) = 0
ids_of (skips x) = 0
ids_of (ends x) = 0
ids_of begins_close = 0
ids_of takes_all = 0
ids_of (retires a) = 0

abbrev pub ids_given : List Action → ℕ
ids_given [] = 0
ids_given (x ∷ xs) = ids_of x + ids_given xs

-- How a step that hands out `n` ids may change them: it keeps each, takes it away, or hands out the
-- next.
record IdsMove (n : ℕ) (s t : Shared) : Type 0 where
  grows : s.next_id ≤ t.next_id
  small : t.next_id ≤ s.next_id + n
  move :
      (i : ℕ)
      → (uses t i ≤ uses s i) ⊎ ((s.next_id < i) × (i ≤ t.next_id) × (uses t i ≤ uses s i + 1))

-- What holds after a run that does not exhaust the ids.
record AfterRun (s : Shared) (xs : List Action) : Type 0 where
  fresh : HasFreshIds (run s xs)
  small : (run s xs).next_id ≤ s.next_id + ids_given xs
  gone : (id : ℕ) → uses s id ≡ 0 → id ≤ s.next_id → uses (run s xs) id ≡ 0

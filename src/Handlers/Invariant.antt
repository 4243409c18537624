-- ===== src/Handlers/Invariant.antt =====
-- What holds of the handlers' tasks at every moment (src/session.rs).
use Prim.Native.String.{String}
use text.Mathlib.Text.{◌==◌ as str_eq}
use thalovant_rust_sdk.Prelude.{
  ℕ, ◌+◌, ◌%◌, ◌^◌, ◌≤◌, ◌<◌, Bool, true, not, some, List, [], ◌∷◌, ◌++◌, ◌==◌, ◌&&◌, ◌||◌, ◌≡◌,
  refl, arith, All, Option-cases, Bool-cases, inl, inr, ltb,
}
use thalovant_rust_sdk.Handlers.Store.{
  Shared, Registration, TaskRef, fresh_session, start_task, retire, drop_entry, on_enter, on_push,
  on_state_change, off_take, retire_taken, take_registration, number_matching, dispatch_copy,
  begin_close, close_take, logged, contains, remove, at_address,
}
use thalovant_rust_sdk.Handlers.Schedule.{
  Action, enters_on, registers, registers_state, removes, dispatches, starts, skips, ends,
  begins_close, takes_all, retires, step, run, drop_ref, taken,
}

-- A task that was started still runs, or has ended, or was aborted.
abbrev pub accounted : Shared → ℕ → ℕ → Bool
accounted s a t = contains t (s.tasks a).running || logged (a, t) s.ended || logged (a, t) s.aborted

abbrev pub Below : ℕ → List TaskRef → Type 0
Below n = All (λ x. x.0 < n)

pub record Inv (s : Shared) : Type 0 where
  -- A removed handler runs nothing.
  pub retired_idle : (a : ℕ) → (s.tasks a).retired ≡ true → (s.tasks a).running ≡ []
  -- No task is lost sight of.
  pub all_accounted : (a t : ℕ) → logged (a, t) s.started ≡ true → accounted s a t ≡ true
  -- Addresses are allocated once.
  pub pending_below : Below s.next_address s.pending
  pub started_below : Below s.next_address s.started
  pub events_below : All (λ r. r.running < s.next_address) s.events

pub contains-remove :
    (t u : ℕ) (us : List ℕ) → contains t (remove u us) ≡ (not (u == t) && contains t us)
contains-remove t u [] = ground arith
contains-remove t u (x ∷ us) = ground (arith, contains-remove t u us)

logged-append :
    (x : TaskRef) (ys zs : List TaskRef) → logged x (ys ++ zs) ≡ (logged x ys || logged x zs)
logged-append x [] zs = refl
logged-append x (y ∷ ys) zs = ground (arith, logged-append x ys zs)

logged-at_address :
    (a b t : ℕ) (us : List ℕ) → logged (a, t) (at_address b us) ≡ (b == a && contains t us)
logged-at_address a b t [] = ground arith
logged-at_address a b t (u ∷ us) = ground (arith, logged-at_address a b t us)

start_task-Inv : (s : Shared) (a t : ℕ) → a < s.next_address → Inv s → Inv (start_task s a t).0
unfolding start_task
start_task-Inv s a t h v = elim (Bool-cases (s.tasks a).retired) [
  | inl gone ↦ rw gone v
  | inr live ↦ rw live (record {
    retired_idle = λ b e. ground (arith, v.retired_idle b);
    all_accounted =
        λ b u e. ground (arith, v.all_accounted b u, contains-remove u t (s.tasks a).running);
    pending_below = v.pending_below;
    started_below = (h, v.started_below);
    events_below = v.events_below;
  })
]

retire-Inv : (s : Shared) (a : ℕ) → Inv s → Inv (retire s a)
unfolding retire
retire-Inv s a v = record {
  retired_idle = λ b e. ground (arith, v.retired_idle b);
  all_accounted = λ b u e. ground (
    arith,
    v.all_accounted b u,
    logged-append (b, u) (at_address a (s.tasks a).running) s.aborted,
    logged-at_address b a u (s.tasks a).running,
  );
  pending_below = v.pending_below;
  started_below = v.started_below;
  events_below = v.events_below;
}

drop_entry-Inv : (s : Shared) (a t : ℕ) → Inv s → Inv (drop_entry s a t)
unfolding drop_entry
drop_entry-Inv s a t v = record {
  retired_idle = λ b e. ground (arith, v.retired_idle b);
  all_accounted =
      λ b u e. ground (arith, v.all_accounted b u, contains-remove u t (s.tasks a).running);
  pending_below = v.pending_below;
  started_below = v.started_below;
  events_below = v.events_below;
}

logged-Below : (n a t : ℕ) (xs : List TaskRef) → Below n xs → logged (a, t) xs ≡ true → a < n
logged-Below n a t [] b e = cc
logged-Below n a t (x ∷ xs) b e = ground (arith, logged-Below n a t xs b.1)

Below-mono : (m n : ℕ) (xs : List TaskRef) → m ≤ n → Below m xs → Below n xs
Below-mono m n [] h b = tt
Below-mono m n (x ∷ xs) h b = (omega arith, Below-mono m n xs h b.1)

Below-append : (n : ℕ) (xs ys : List TaskRef) → Below n xs → Below n ys → Below n (xs ++ ys)
Below-append n [] ys b d = d
Below-append n (x ∷ xs) ys b d = (b.0, Below-append n xs ys b.1 d)

abbrev EventsBelow : ℕ → List Registration → Type 0
EventsBelow n = All (λ r. r.running < n)

EventsBelow-mono : (m n : ℕ) (rs : List Registration) → m ≤ n → EventsBelow m rs → EventsBelow n rs
EventsBelow-mono m n [] h b = tt
EventsBelow-mono m n (r ∷ rs) h b = (omega arith, EventsBelow-mono m n rs h b.1)

EventsBelow-push :
    (n : ℕ) (rs : List Registration) (r : Registration)
    → EventsBelow n rs
    → r.running < n
    → EventsBelow n (rs ++ r ∷ [])
EventsBelow-push n [] r b h = (h, tt)
EventsBelow-push n (x ∷ rs) r b h = (b.0, EventsBelow-push n rs r b.1 h)

EventsBelow-eq :
    (n : ℕ) (x r : Registration) (xs others : List Registration)
    → x ≡ r
    → xs ≡ others
    → EventsBelow n (x ∷ xs)
    → (r.running < n) × EventsBelow n others
EventsBelow-eq n x r xs others e f b = rw (← e, ← f) b

pub EventsBelow-take :
    (n id : ℕ) (rs others : List Registration) (r : Registration)
    → EventsBelow n rs
    → take_registration id rs ≡ some (r, others)
    → (r.running < n) × EventsBelow n others
unfolding take_registration
EventsBelow-take n id [] others r b e = cc
EventsBelow-take n id (x ∷ rs) others r b e = elim (Bool-cases (x.id == id)) [
  | inl hit ↦ EventsBelow-eq n x r rs others (ground arith) (ground arith) b
  | inr miss ↦ elim (Option-cases (take_registration id rs)) [
    | inl absent ↦ absurd (ground arith)
    | inr ((y, ys), found) ↦
        let ih = EventsBelow-take n id rs ys y b.1 found in
        EventsBelow-eq n y r (x ∷ ys) others (ground arith) (ground arith) (ih.0, (b.0, ih.1))
  ]
]

number_matching-Below :
    (n : ℕ) (name : String) (rs : List Registration) (k : ℕ)
    → EventsBelow n rs
    → Below n (number_matching name rs k).0
unfolding number_matching
number_matching-Below n name [] k b = tt
number_matching-Below n name (r ∷ rs) k b = elim (Bool-cases (str_eq r.event_type name)) [
  | inl hit ↦ rw hit (b.0, number_matching-Below n name rs ((k + 1) % 2 ^ 64) b.1)
  | inr miss ↦ rw miss (number_matching-Below n name rs k b.1)
]

on_enter-Inv : (s : Shared) → Inv s → Inv (on_enter s).0
unfolding on_enter
on_enter-Inv s v = elim (Bool-cases s.closed) [
  | inl shut ↦ simp shut v
  | inr live ↦ simp live (ground (arith, v))
]

on_push-Inv : (s : Shared) (name : String) → Inv s → Inv (on_push s name).0
unfolding on_push
on_push-Inv s name v = record {
  retired_idle = λ b e. ground (arith, v.retired_idle b);
  all_accounted = λ b u e.
      ground
        (arith, v.all_accounted b u, logged-Below s.next_address b u s.started v.started_below);
  pending_below = Below-mono s.next_address _ s.pending (omega arith) v.pending_below;
  started_below = Below-mono s.next_address _ s.started (omega arith) v.started_below;
  events_below =
      EventsBelow-push _ s.events _
        (EventsBelow-mono s.next_address _ s.events (omega arith) v.events_below) (omega arith);
}

off_take-Inv : (s : Shared) (id : ℕ) → Inv s → Inv (off_take s id).0
unfolding off_take
off_take-Inv s id v = elim (Option-cases (take_registration id s.events)) [
  | inl absent ↦
      rw (absent, off_take)
        (record {
          retired_idle = v.retired_idle;
          all_accounted = v.all_accounted;
          pending_below = v.pending_below;
          started_below = v.started_below;
          events_below = v.events_below;
        })
  | inr ((r, others), found) ↦
      rw (found, off_take)
        (record {
          retired_idle = v.retired_idle;
          all_accounted = v.all_accounted;
          pending_below = v.pending_below;
          started_below = v.started_below;
          events_below =
              (EventsBelow-take s.next_address id s.events others r v.events_below found).1;
        })
]

pub retire_taken-Inv : (s : Shared) (a : ℕ) → Inv s → Inv (retire_taken s a)
unfolding retire_taken
retire_taken-Inv s a v =
    retire-Inv (record s { retiring = remove a s.retiring }) a
      (record {
        retired_idle = v.retired_idle;
        all_accounted = v.all_accounted;
        pending_below = v.pending_below;
        started_below = v.started_below;
        events_below = v.events_below;
      })

dispatch_copy-Inv : (s : Shared) (name : String) → Inv s → Inv (dispatch_copy s name)
unfolding dispatch_copy
dispatch_copy-Inv s name v = record {
  retired_idle = v.retired_idle;
  all_accounted = v.all_accounted;
  pending_below =
      Below-append s.next_address s.pending _ v.pending_below
        (number_matching-Below s.next_address name s.events s.next_task v.events_below);
  started_below = v.started_below;
  events_below = v.events_below;
}

drop_ref-Below : (n : ℕ) (x : TaskRef) (xs : List TaskRef) → Below n xs → Below n (drop_ref x xs)
drop_ref-Below n x [] b = tt
drop_ref-Below n x (y ∷ ys) b = ground (arith, drop_ref-Below n x ys b.1)

taken-Inv : (s : Shared) (x : TaskRef) → Inv s → Inv (taken s x)
taken-Inv s x v = record {
  retired_idle = v.retired_idle;
  all_accounted = v.all_accounted;
  pending_below = drop_ref-Below s.next_address x s.pending v.pending_below;
  started_below = v.started_below;
  events_below = v.events_below;
}

close_take-Inv : (s : Shared) → Inv s → Inv (close_take s)
unfolding close_take
close_take-Inv s v = record {
  retired_idle = v.retired_idle;
  all_accounted = v.all_accounted;
  pending_below = v.pending_below;
  started_below = v.started_below;
  events_below = tt;
}

on_state_change-Inv : (s : Shared) → Inv s → Inv (on_state_change s).0
unfolding on_state_change
on_state_change-Inv s v = ground (arith, v)

begin_close-Inv : (s : Shared) → Inv s → Inv (begin_close s)
unfolding begin_close
begin_close-Inv s v = ground (arith, v)

pub step-Inv : (s : Shared) (x : Action) → Inv s → Inv (step s x)
unfolding step
step-Inv s enters_on v = on_enter-Inv s v
step-Inv s (registers name) v = elim (Bool-cases (ltb 0 s.entering)) [
  | inl inside ↦ rw inside (on_push-Inv s name v)
  | inr outside ↦ rw outside v
]
step-Inv s registers_state v = on_state_change-Inv s v
step-Inv s (removes id) v = off_take-Inv s id v
step-Inv s (dispatches name) v = dispatch_copy-Inv s name v
step-Inv s (starts (a, t)) v = elim (Bool-cases (logged (a, t) s.pending)) [
  | inl there ↦ rw there (
      start_task-Inv (taken s (a, t)) a t
        (logged-Below s.next_address a t s.pending v.pending_below there) (taken-Inv s (a, t) v))
  | inr absent ↦ rw absent v
]
step-Inv s (skips x) v = taken-Inv s x v
step-Inv s (ends (a, t)) v = drop_entry-Inv s a t v
step-Inv s begins_close v = begin_close-Inv s v
step-Inv s takes_all v = close_take-Inv s v
step-Inv s (retires a) v = elim (Bool-cases (contains a s.retiring)) [
  | inl taken_before ↦ rw taken_before (retire_taken-Inv s a v)
  | inr unknown ↦ rw unknown v
]

pub run-Inv : (s : Shared) (xs : List Action) → Inv s → Inv (run s xs)
unfolding run
run-Inv s [] v = v
run-Inv s (x ∷ xs) v = run-Inv (step s x) xs (step-Inv s x v)

pub fresh_session-Inv : Inv fresh_session
unfolding fresh_session
fresh_session-Inv = record {
  retired_idle = λ a e. refl;
  all_accounted = λ a t e. cc;
  pending_below = tt;
  started_below = tt;
  events_below = tt;
}

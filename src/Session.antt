-- ===== src/Session.antt =====
-- src/session.rs: a hub session's hold on its client. What awaits, the clock and the other
-- components answer is a `World`, one for each call; the handlers are `Handlers`.
pub mod Invariant
pub mod Lifecycle
pub mod Managed
pub mod Operations
pub mod Supervised
pub mod Told
use thalovant_rust_sdk.Prelude.{
  ℕ, ◌+◌, ◌*◌, ◌%◌, ◌^◌, ◌==◌, Bool, true, false, not, ◌||◌, ◌&&◌, Option, none, some, List, [],
  ◌∷◌, ltb, if◌then◌else◌, is_some,
}
use thalovant_rust_sdk.Link.{HubSessionPolicy, next_wait}
use thalovant_rust_sdk.Errors.{ThalovantError, connection, runtime, policy_denied, Result, ok, err}

-- A client is the number of its handle.
abbrev pub Client : Type 0
Client = ℕ

-- The parts of `Inner`; a relay task is the generation that it compares. `built`, `shut` and
-- `announced` record, newest first, the clients that the factory returned, those whose `close`
-- succeeded, and what the state callbacks were told.
pub record HubSession : Type 0 where
  pub policy : HubSessionPolicy
  pub client : Option Client
  pub retired : Option Client
  pub relay : Option ℕ
  pub generation : ℕ
  pub sender : Bool
  pub retry_at : Option ℕ
  pub retry_wait : ℕ
  pub closed : Bool
  pub warming : Bool
  pub has_client : Bool
  pub settle : ℕ
  pub built : List Client
  pub shut : List Client
  pub announced : List Bool

-- The answers that one call gets: the time, the factory's, those of `Client::close` (`none` for
-- success), `alive` and `settled` (`none` for a link that stayed up), and whether `close` was
-- called while the factory or the settle window was awaited.
pub record World : Type 0 where
  pub now : ℕ
  pub connect : Result Client
  pub close_client : Client → Option ThalovantError
  pub alive : Client → Bool
  pub settled : Client → Option ThalovantError
  pub closed_connecting : Bool
  pub closed_settling : Bool

-- "hub session is closed".
abbrev pub session_closed : ThalovantError
session_closed = connection "hub session is closed"

-- 750 ms.
abbrev pub default_settle_window : ℕ
default_settle_window = 750 * 10 ^ 6

unfoldable pub new_session : HubSessionPolicy → HubSession
new_session p = record {
  policy = p;
  client = none;
  retired = none;
  relay = none;
  generation = 0;
  sender = true;
  retry_at = none;
  retry_wait = p.retry;
  closed = false;
  warming = false;
  has_client = false;
  settle = default_settle_window;
  built = [];
  shut = [];
  announced = [];
}

abbrev pub Outcome : Type 0 → Type 0
Outcome A = HubSession × Result A

-- `?` on a call that keeps the session.
infixl 5 ◌>>=◌
abbrev pub ◌>>=◌ : {A B : Type 0} → Outcome A → (HubSession → A → Outcome B) → Outcome B
◌>>=◌ (s, ok a) k = k s a
◌>>=◌ (s, err e) k = (s, err e)

abbrev pub close_retired : HubSession → Client → Option ThalovantError → Outcome (Unit {0})
close_retired s c none = (record s { retired = none; shut = c ∷ s.shut }, ok tt)
close_retired s c (some e) = (s, err e)

unfoldable pub cleanup : World → HubSession → Outcome (Unit {0})
cleanup w s = elim s.retired [ none ↦ (s, ok tt) | some c ↦ close_retired s c (w.close_client c) ]

abbrev pub wrap_next : ℕ → ℕ
wrap_next g = (g + 1) % 2 ^ 64

-- `has_client.swap(up)`, with the callbacks told if it changed.
abbrev pub swap_has_client : HubSession → Bool → HubSession
swap_has_client s up =
    if up
    then (if s.has_client
        then s
        else record s { has_client = true; announced = true ∷ s.announced })
    else (if s.has_client
        then record s { has_client = false; announced = false ∷ s.announced }
        else s)

abbrev pub retire_client : HubSession → Option Client → HubSession
retire_client s none = s
retire_client s (some c) = record (swap_has_client (record s { client = none }) false) {
  retired = some c;
}

unfoldable pub drop_client : World → HubSession → Outcome (Unit {0})
unfolding cleanup
drop_client w s =
    let t = record s { generation = wrap_next s.generation; relay = none } in
    cleanup w (retire_client t t.client)

unfoldable pub back_off : World → HubSession → HubSession
back_off w s = record s {
  retry_at = some (w.now + s.retry_wait);
  retry_wait = next_wait s.policy s.retry_wait;
}

-- The first half of `close`, which another thread may run while a call awaits.
unfoldable pub begin_close : HubSession → HubSession
begin_close s = record s { closed = true; sender = false }

abbrev pub meanwhile : Bool → HubSession → HubSession
meanwhile b s = if b then begin_close s else s

-- The client that must not be kept is retired and cleaned up.
unfoldable pub discard : World → HubSession → Client → Outcome (Unit {0})
unfolding cleanup
discard w s c = cleanup w (record s { retired = some c })

-- A client that came when the session was closed already.
unfoldable pub refuse_client : World → HubSession → Client → Outcome Client
unfolding discard
refuse_client w s c = discard w s c >>= λ t _. (t, err session_closed)

-- The end of `establish`: the relay's generation, the client, the retry and the flag.
unfoldable pub hold_client : HubSession → Client → HubSession
hold_client s c =
    swap_has_client
      (record s {
        generation = wrap_next s.generation;
        relay = some (wrap_next s.generation);
        client = some c;
        retry_at = none;
        retry_wait = s.policy.retry;
      })
      true

-- After the settle window; `settling` is whether there was one.
unfoldable pub settle_client :
    World → Bool → HubSession → Client → Option ThalovantError → Outcome Client
unfolding discard back_off hold_client begin_close refuse_client
settle_client w false s c failed = (hold_client s c, ok c)
settle_client w true s c (some e) =
    (back_off w (discard w (meanwhile w.closed_settling s) c).0, err e)
settle_client w true s c none =
    let t = meanwhile w.closed_settling s in
    if t.closed then refuse_client w t c else (hold_client t c, ok c)

-- After the factory answered.
unfoldable pub take_client : World → Bool → HubSession → Result Client → Outcome Client
unfolding back_off settle_client begin_close refuse_client
take_client w settle s (err e) = (back_off w (meanwhile w.closed_connecting s), err e)
take_client w settle s (ok c) =
    let t = record (meanwhile w.closed_connecting s) { built = c ∷ s.built } in
    if t.closed
    then refuse_client w t c
    else settle_client w settle t c (if t.settle == 0 then none else w.settled c)

abbrev pub kept_or_new : World → Bool → HubSession → Option Client → Outcome Client
kept_or_new w settle s (some c) = (s, ok c)
kept_or_new w settle s none = take_client w settle s w.connect

unfoldable pub establish : World → Bool → HubSession → Outcome Client
unfolding cleanup take_client
establish w settle s =
    if s.closed
    then (s, err session_closed)
    else (cleanup w s >>= λ t _. kept_or_new w settle t t.client)

-- A client that is held and dead is dropped.
abbrev pub drop_dead : World → HubSession → Option Client → Outcome (Unit {0})
drop_dead w s none = (s, ok tt)
drop_dead w s (some c) = if w.alive c then (s, ok tt) else drop_client w s

abbrev pub forget {ℓ} : {A : Type ℓ} → HubSession × Result A → HubSession × Result (Unit {0})
forget (s, ok a) = (s, ok tt)
forget (s, err e) = (s, err e)

-- `connect`: an alive link is kept, any other is dropped and a new one made, held to the window.
unfoldable pub connect_over : World → HubSession → Option Client → Outcome (Unit {0})
unfolding drop_client establish
connect_over w s none = forget (establish w true s)
connect_over w s (some c) =
    if w.alive c then (s, ok tt) else (drop_client w s >>= λ t _. forget (establish w true t))

unfoldable pub connect : World → HubSession → Outcome (Unit {0})
unfolding connect_over
connect w s = connect_over w s s.client

-- An error after which the client is kept.
abbrev pub keeps_client : ThalovantError → Bool
keeps_client (runtime m) = true
keeps_client (policy_denied d c r a q) = true
keeps_client _ = false

abbrev pub after_operation : {A : Type 0} → World → HubSession → Result A → Outcome A
after_operation w s (ok a) = (s, ok a)
after_operation w s (err e) =
    if keeps_client e then (s, err e) else (drop_client w s >>= λ t _. (t, err e))

-- `call`, for the operation `run`.
unfoldable pub call : {A : Type 0} → World → (Client → Result A) → HubSession → Outcome A
unfolding drop_client establish
call w run s =
    drop_dead w s s.client >>= (λ t _. establish w false t) >>= (λ u c. after_operation w u (run c))

-- Whether `warm` starts an attempt.
unfoldable pub may_warm : World → HubSession → Bool
may_warm w s =
    not (s.closed || (elim s.retry_at [ none ↦ false | some at ↦ ltb w.now at ] || s.warming))

-- The task that `warm` spawns, once it has the lock; `warming` is reset when it is over.
unfoldable pub warm_task : World → HubSession → HubSession
unfolding establish
warm_task w s = record (establish w false s).0 { warming = false }

unfoldable pub warm : World → HubSession → HubSession
unfolding may_warm
warm w s = if may_warm w s then record s { warming = true } else s

-- `probe` when it gets the lock.
unfoldable pub probe : World → HubSession → Outcome (Unit {0})
unfolding drop_client warm
probe w s =
    if s.closed
    then (s, ok tt)
    else (drop_dead w s s.client >>= λ t _.
        if is_some t.client then (t, ok tt) else (warm w t, ok tt))

-- `close` up to the handlers.
unfoldable pub close : World → HubSession → Outcome (Unit {0})
unfolding begin_close drop_client
close w s = drop_client w (begin_close s)

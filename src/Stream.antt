-- ===== src/Stream.antt =====
-- src/stream.rs: a subscription to events. One call of `recv` is a loop; each of its rounds is a
-- `Tick`, with what the clock, the channel and the health check answer.
pub mod Delivery
use Prim.Native.String.{String}
use text.Mathlib.Text.{◌==◌ as str_eq}
use thalovant_rust_sdk.Prelude.{
  ℕ, ◌+◌, Bool, true, false, not, ◌&&◌, ◌||◌, Option, none, some, List, [], ◌∷◌, ◌++◌, leb,
  if◌then◌else◌,
}
use thalovant_rust_sdk.Json.{Fields}
use thalovant_rust_sdk.Events.{Event, event_matches_context}

-- The errors of `recv`, named for their messages.
pub data StreamError : Type 0 where
  deadline_expired transport_closed not_authenticated : StreamError
  overflow : ℕ → StreamError

pub data Result {ℓ} (A : Type ℓ) : Type ℓ where
  ok : A → Result A
  err : StreamError → Result A

-- What a broadcast channel gives.
pub data Received : Type 0 where
  event : Event → Received
  lagged : ℕ → Received
  channel_closed : Received

-- The time at the top of the loop and after the wait, what was received (`none` if the wait ended
-- first), and whether the transport is authenticated (`none` if the check took too long).
pub record Tick : Type 0 where
  pub top : ℕ
  pub woken : ℕ
  pub received : Option Received
  pub healthy : Option Bool

-- `open` is that there is a receiver; `accepts` is the predicate, which accepts all when there is none.
pub record EventStream : Type 0 where
  pub open_stream : Bool
  pub has_transport : Bool
  pub event_name : String
  pub expected : Fields
  pub accepts : Event → Bool
  pub max_events : Option ℕ
  pub deadline : Option ℕ
  pub received : ℕ

unfoldable pub close : EventStream → EventStream
close s = record s { open_stream = false }

abbrev pub is_past : Option ℕ → ℕ → Bool
is_past none now = false
is_past (some d) now = leb d now

abbrev pub is_full : Option ℕ → ℕ → Bool
is_full none n = false
is_full (some max) n = leb max n

unfoldable pub is_wanted : EventStream → Event → Bool
is_wanted s e =
    str_eq e.name s.event_name && (event_matches_context e (some s.expected) && s.accepts e)

-- `recv` has returned, or waits for its next round.
abbrev pub Reply : Type 0
Reply = EventStream × Option (Result (Option Event))

abbrev pub fails : EventStream → StreamError → Reply
fails s e = (record s { open_stream = false }, some (err e))

abbrev pub counted : EventStream → EventStream
counted s = record s {
  open_stream = if is_full s.max_events (s.received + 1) then false else s.open_stream;
  received = s.received + 1;
}

abbrev pub checked : EventStream → Option Bool → Reply → Reply
checked s none rest = rest
checked s (some true) rest = rest
checked s (some false) rest = if s.has_transport then fails s not_authenticated else rest

-- The match on what was received; `rest` is the rest of the loop.
unfoldable pub handle : EventStream → Option Received → Option Bool → Reply → Reply
unfolding is_wanted
handle s (some (event e)) healthy rest =
    if is_wanted s e then (counted s, some (ok (some e))) else rest
handle s (some (lagged n)) healthy rest = fails s (overflow n)
handle s (some channel_closed) healthy rest = fails s transport_closed
handle s none healthy rest = checked s healthy rest

unfoldable pub recv : List Tick → EventStream → Reply
unfolding handle
recv [] s = (s, none)
recv (t ∷ ts) s =
    let rest = recv ts s in
    if not s.open_stream
    then (s, some (ok none))
    else if is_past s.deadline t.top
    then fails s deadline_expired
    else if is_past s.deadline t.woken
    then fails s deadline_expired
    else handle s t.received t.healthy rest

-- The events that a call returned: none or one.
abbrev pub got : Reply → List Event
got (s, some (ok (some e))) = e ∷ []
got (s, some (ok none)) = []
got (s, some (err e)) = []
got (s, none) = []

-- One call of `recv` after the other, and the events that they returned.
unfoldable pub recv_all : List (List Tick) → EventStream → EventStream × List Event
unfolding recv
recv_all [] s = (s, [])
recv_all (ts ∷ calls) s =
    let r = recv ts s in let rest = recv_all calls r.0 in (rest.0, got r ++ rest.1)

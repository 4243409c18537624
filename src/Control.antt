-- ===== src/Control.antt =====
-- src/transport.rs: `ConnectionControl`, what a transport keeps of the replies and sends under way and
-- of how its last link ended. Instants and durations are nanoseconds.
pub mod Verdicts
pub mod InFlight
use Prim.Native.String.{String}
use text.Mathlib.Text.{◌==◌ as str_eq}
use thalovant_rust_sdk.Prelude.{
  ℕ, zero, suc, ◌+◌, ◌-◌, ◌*◌, Bool, true, false, not, ◌&&◌, ◌||◌, Option, none, some, List, [],
  ◌∷◌, ◌++◌, is_some, length, ltb, leb, ◌==◌, if◌then◌else◌,
}
use thalovant_rust_sdk.Errors.{
  ThalovantError, connection, runtime, hub_refused, is_hub_refused, is_hub_key_changed, Result, ok,
  err,
}

pub data HandshakeVerdict : Type 0 where
  refused key_changed : String → HandshakeVerdict

-- A reservation is whether it is a query's, and its id.
pub record ConnectionControl : Type 0 where
  pub active_replies : List (Bool × String)
  pub untracked_sends : List ℕ
  pub verdict : Option HandshakeVerdict
  pub kk_failed : Bool
  pub force_xx : Bool
  pub heard : Bool
  pub completed_xx : Bool
  pub key_rejected : Bool
  pub refused_after_handshake : Bool

abbrev pub seconds : ℕ → ℕ
seconds n = n * 1000000000

abbrev pub milliseconds : ℕ → ℕ
milliseconds n = n * 1000000

abbrev pub untracked_utterance_grace : ℕ
untracked_utterance_grace = seconds 10

-- Replies and sends.

abbrev pub is_old : ℕ → ℕ → Bool
is_old now sent = ltb untracked_utterance_grace (now - sent)

unfoldable pub drop_old : ℕ → List ℕ → List ℕ
drop_old now [] = []
drop_old now (sent ∷ sends) =
    let rest = drop_old now sends in if is_old now sent then rest else sent ∷ sends

unfoldable pub drop_excess : List ℕ → List ℕ
drop_excess [] = []
drop_excess (sent ∷ sends) =
    let rest = drop_excess sends in if ltb 1024 (suc (length sends)) then rest else sent ∷ sends

unfoldable pub prune_untracked_sends : ℕ → List ℕ → List ℕ
unfolding drop_old drop_excess
prune_untracked_sends now sends = drop_excess (drop_old now sends)

-- The two readings of the clock are one.
unfoldable pub record_untracked_send : ℕ → ConnectionControl → ConnectionControl
unfolding prune_untracked_sends
record_untracked_send now c = record c {
  untracked_sends = prune_untracked_sends now (c.untracked_sends ++ (now ∷ []));
}

unfoldable pub count_queries : List (Bool × String) → ℕ
count_queries [] = 0
count_queries ((query, id) ∷ active) =
    let rest = count_queries active in if query then suc rest else rest

-- Asks, queries and sends.
unfoldable pub utterances_in_flight : ℕ → ConnectionControl → ConnectionControl × (ℕ × ℕ × ℕ)
unfolding count_queries prune_untracked_sends
utterances_in_flight now c =
    let queries = count_queries c.active_replies in
    let sends = prune_untracked_sends now c.untracked_sends in
    (
      record c { untracked_sends = sends },
      (length c.active_replies - queries, queries, length sends),
    )

abbrev pub same_bool : Bool → Bool → Bool
same_bool a b = if a then b else not b

abbrev pub same_key : Bool × String → Bool × String → Bool
same_key a b = same_bool a.0 b.0 && str_eq a.1 b.1

unfoldable pub is_active : Bool × String → List (Bool × String) → Bool
is_active key [] = false
is_active key (k ∷ active) = same_key k key || is_active key active

unfoldable pub remove_key : Bool × String → List (Bool × String) → List (Bool × String)
remove_key key [] = []
remove_key key (k ∷ active) =
    let rest = remove_key key active in if same_key k key then rest else k ∷ rest

abbrev pub already_active : ThalovantError
already_active = runtime "reply correlation ID is already active on this transport"

-- The reservation is its key.
unfoldable pub reserve_reply :
    Bool → String → ConnectionControl → ConnectionControl × Result (Bool × String)
unfolding is_active
reserve_reply query id c =
    if is_active (query, id) c.active_replies
    then (c, err already_active)
    else (record c { active_replies = (query, id) ∷ c.active_replies }, ok (query, id))

unfoldable pub drop_reservation : Bool × String → ConnectionControl → ConnectionControl
unfolding remove_key
drop_reservation key c = record c { active_replies = remove_key key c.active_replies }

-- How a link ended.

unfoldable pub reset_link : ConnectionControl → ConnectionControl
reset_link c = record c {
  heard = false;
  completed_xx = false;
  key_rejected = false;
  refused_after_handshake = false;
}

abbrev pub verdict_of : ThalovantError → Option HandshakeVerdict
verdict_of (connection m) =
    if is_hub_refused (connection m)
    then some (refused m)
    else if is_hub_key_changed (connection m)
    then some (key_changed m)
    else none
verdict_of _ = none

abbrev pub note_verdict : ConnectionControl → Bool → Option HandshakeVerdict → ConnectionControl
note_verdict c channel_kk_failed none = c
note_verdict c channel_kk_failed (some v) = record c {
  verdict = some v;
  kk_failed = if channel_kk_failed then true else c.kk_failed;
}

-- The channel is whether it has one whose KK handshake failed.
unfoldable pub note_failure : ThalovantError → Bool → ConnectionControl → ConnectionControl
unfolding is_hub_refused is_hub_key_changed
note_failure e channel_kk_failed c = note_verdict c channel_kk_failed (verdict_of e)

abbrev pub into_connection_message : ThalovantError → String
into_connection_message (connection m) = m
into_connection_message _ = ""

-- The message leaves the code out.
abbrev pub closed_in_handshake : ThalovantError
closed_in_handshake =
    hub_refused
      "the hub closed the link during the handshake: it does not accept these credentials, or not yet"

unfoldable pub note_refusal_close : Bool → ConnectionControl → ConnectionControl
unfolding hub_refused
note_refusal_close kk_pending c = record c {
  verdict = some (refused (into_connection_message closed_in_handshake));
  kk_failed = if kk_pending then true else c.kk_failed;
}

abbrev pub typed_as : ThalovantError → Option HandshakeVerdict → ThalovantError
typed_as fallback none = fallback
typed_as fallback (some (refused m)) = connection m
typed_as fallback (some (key_changed m)) = connection m

unfoldable pub typed : ThalovantError → ConnectionControl → ConnectionControl × ThalovantError
typed fallback c = (record c { verdict = none }, typed_as fallback c.verdict)

abbrev pub is_refusal_code : ℕ → Bool
is_refusal_code code = code == 1000 || (code == 1005 || code == 1008)

abbrev pub is_settling : Option ℕ → Bool
is_settling none = true
is_settling (some after) = leb after (milliseconds 750)

unfoldable pub close_refuses_after : Option ℕ → Option ℕ → ℕ → Bool → Bool
close_refuses_after none after late authenticated = false
close_refuses_after (some code) after late authenticated =
    not authenticated
    && (is_refusal_code code && (leb late (milliseconds 250) && is_settling after))

unfoldable pub close_refuses : Option ℕ → Option ℕ → ℕ → Bool
unfolding close_refuses_after
close_refuses code after late = close_refuses_after code after late false

abbrev pub code_of : Option ℕ → ℕ
code_of none = 1005
code_of (some code) = code

-- The reader of a WebSocket on a close frame, which may have no status: `after` is how long ago the
-- handshake was done. What it does to the socket and to the health is left out.
unfoldable pub peer_closed : Option ℕ → Option ℕ → Bool → ConnectionControl → ConnectionControl
unfolding close_refuses_after note_refusal_close
peer_closed frame after kk_pending c =
    let refuses = close_refuses_after (some (code_of frame)) after 0 c.heard in
    let d = record c { key_rejected = refuses && (is_some after && c.completed_xx) } in
    if refuses && not (is_some after) then note_refusal_close kk_pending d else d

-- What a link tells the control while an attempt runs: of `receive_noise`, a failure, a frame that
-- was decrypted, or a handshake that ended, over XX or not; and a close frame.
pub data Note : Type 0 where
  receive_failed : ThalovantError → Bool → Note
  decrypted : Note
  opened : Bool → Note
  closed : Option ℕ → Option ℕ → Bool → Note

unfoldable pub note : Note → ConnectionControl → ConnectionControl
unfolding note_failure peer_closed
note (receive_failed e channel_kk_failed) c = note_failure e channel_kk_failed c
note decrypted c = record c { heard = true }
note (opened xx) c = record c { completed_xx = xx }
note (closed frame after kk_pending) c = peer_closed frame after kk_pending c

unfoldable pub note_all : List Note → ConnectionControl → ConnectionControl
unfolding note
note_all [] c = c
note_all (n ∷ ns) c = note_all ns (note n c)

-- What `connect_locked` of the transport does, by whether it is to use XX.
abbrev pub Link : Type 0
Link = Bool → List Note × Result (Unit {0})

unfoldable pub connect_attempt : Link → ConnectionControl → ConnectionControl × Result (Unit {0})
unfolding reset_link note_all
connect_attempt link c =
    let x = link c.force_xx in (note_all x.0 (reset_link (record c { verdict = none })), x.1)

abbrev pub is_ok : Result (Unit {0}) → Bool
is_ok (ok u) = true
is_ok (err e) = false

abbrev pub end_xx : ConnectionControl × Result (Unit {0}) → ConnectionControl × Result (Unit {0})
end_xx (c, r) = (record c { force_xx = false }, r)

abbrev pub retry :
    Link → ConnectionControl → ThalovantError → Bool → ConnectionControl × Result (Unit {0})
retry link c e true = end_xx (connect_attempt link (record c { force_xx = true }))
retry link c e false = (c, err e)

-- `swap`, and the second attempt.
unfoldable pub after_kk :
    Link → ConnectionControl × Result (Unit {0}) → ConnectionControl × Result (Unit {0})
unfolding connect_attempt
after_kk link (c, ok u) = (c, ok u)
after_kk link (c, err e) = retry link (record c { kk_failed = false }) e c.kk_failed

unfoldable pub connect_kk_then_xx : Link → ConnectionControl → ConnectionControl × Result (Unit {0})
unfolding connect_attempt after_kk
connect_kk_then_xx link c =
    after_kk link (connect_attempt link (record c { kk_failed = false; force_xx = false }))

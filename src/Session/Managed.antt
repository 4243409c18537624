-- ===== src/Session/Managed.antt =====
-- `HubSession::run` of src/session.rs: a loop that keeps the link up and asks the supervisor after
-- every attempt, one round at a time.
use thalovant_rust_sdk.Prelude.{
  ℕ, Bool, true, false, Option, none, some, List, [], ◌∷◌, if◌then◌else◌,
}
use thalovant_rust_sdk.Errors.{
  ThalovantError, missing_identity_field, invalid_identity, unsupported_protocol,
  is_hub_key_changed, is_client_key_rejected, is_hub_refused, Result, ok, err,
}
use thalovant_rust_sdk.Link.{
  HubSessionPolicy, LinkOutcome, up, dropped, failed, refused, key_changed, client_key_rejected,
  LinkDecision, hold, retry, give_up, LinkSupervisor, after, new_supervisor, History,
}
use thalovant_rust_sdk.Session.{
  HubSession, World, Client, Outcome, connect, drop_client, begin_close, meanwhile,
}

-- What one round of the loop is told: what `alive` answers before the link is watched, the world of
-- the call that follows, the time since the loop began, and whether `close` was called meanwhile.
pub record Round : Type 0 where
  pub alive_first : Client → Bool
  pub world : World
  pub elapsed : ℕ
  pub closed_watching : Bool

-- The session and the supervisor, with what the latter was told, the newest first.
pub record Managed : Type 0 where
  pub session : HubSession
  pub supervisor : LinkSupervisor
  pub seen : History

-- The loop returns, or goes on after a wait.
pub data Turn : Type 0 where
  returns : Result (Unit {0}) → Turn
  again : ℕ → Turn

-- An identity that the client cannot use at all.
abbrev pub is_unusable : ThalovantError → Bool
is_unusable (missing_identity_field f) = true
is_unusable (invalid_identity m) = true
is_unusable (unsupported_protocol p) = true
is_unusable _ = false

-- What an error tells the supervisor; nothing for an identity that cannot be used.
unfoldable pub classify : ThalovantError → Option LinkOutcome
classify e =
    if is_hub_key_changed e
    then some key_changed
    else if is_client_key_rejected e
    then some client_key_rejected
    else if is_hub_refused e
    then some refused
    else if is_unusable e
    then none
    else some failed

unfoldable pub tell : Managed → LinkOutcome → ℕ → Managed × LinkDecision
unfolding after
tell m o now = (
  record m { supervisor = (after m.supervisor o now).0; seen = (o, now) ∷ m.seen },
  (after m.supervisor o now).1,
)

abbrev pub wait_of : LinkDecision → ℕ
wait_of (retry w) = w
wait_of hold = 0
wait_of (give_up reason) = 0

-- The end of a round whose attempt failed; `closed` is the session's flag.
abbrev pub go_on : Bool → LinkDecision → Turn
go_on closed d = if closed then returns (ok tt) else again (wait_of d)

unfoldable pub answer : LinkOutcome → LinkDecision → Bool → ThalovantError → Turn
answer key_changed d closed e = returns (err e)
answer client_key_rejected d closed e = returns (err e)
answer refused (give_up reason) closed e = returns (err e)
answer refused d closed e = go_on closed d
answer o d closed e = go_on closed d

unfoldable pub classified : Managed → ℕ → ThalovantError → Option LinkOutcome → Managed × Turn
unfolding tell answer
classified m now e none = (m, returns (err e))
classified m now e (some o) = ((tell m o now).0, answer o (tell m o now).1 m.session.closed e)

-- After `connect`.
unfoldable pub dialled : Managed → ℕ → Outcome (Unit {0}) → Managed × Turn
unfolding classify classified tell
dialled m now (s, ok u) = ((tell (record m { session = s }) up now).0, again 0)
dialled m now (s, err e) = classified (record m { session = s }) now e (classify e)

-- A link that is held and dead when the watch ends is dropped and dialled again at once.
unfoldable pub watched : Round → Managed → Option Client → Managed × Turn
unfolding drop_client tell
watched r m none = (m, again 0)
watched r m (some c) = if r.world.alive c then (m, again 0) else (
  (tell (record m { session = (drop_client r.world m.session).0 }) dropped r.elapsed).0,
  again 0,
)

abbrev pub watch_or_end : Round → Managed → Managed × Turn
watch_or_end r m = if m.session.closed then (m, returns (ok tt)) else watched r m m.session.client

abbrev pub is_up : Round → Option Client → Bool
is_up r none = false
is_up r (some c) = r.alive_first c

unfoldable pub turn : Round → Managed → Managed × Turn
unfolding begin_close watched dialled connect
turn r m =
    if m.session.closed
    then (m, returns (ok tt))
    else if is_up r m.session.client
    then watch_or_end r (record m { session = meanwhile r.closed_watching m.session })
    else dialled m r.elapsed (connect r.world m.session)

-- The loop before any round, and after some.
unfoldable pub managed : HubSession → HubSessionPolicy → ℕ → Managed
unfolding new_supervisor
managed s p grace = record { session = s; supervisor = new_supervisor p grace; seen = [] }

unfoldable pub after_rounds : List Round → Managed → Managed
unfolding turn
after_rounds [] m = m
after_rounds (r ∷ rs) m = after_rounds rs (turn r m).0

-- ===== src/Session/Lifecycle.antt =====
-- A hub session of src/session.rs from its construction on: any sequence of its operations, with
-- another answer of the world for each.
use thalovant_rust_sdk.Prelude.{
  ℕ, Bool, true, false, Option, none, some, List, [], ◌∷◌, ◌≡◌, refl, arith,
}
use thalovant_rust_sdk.Errors.{Result, ok, err}
use thalovant_rust_sdk.Link.{HubSessionPolicy}
use thalovant_rust_sdk.Link.Reference.{IsOrdered}
use thalovant_rust_sdk.Session.{
  HubSession, World, Client, ◌>>=◌, session_closed, new_session, cleanup, drop_client, establish,
  connect, connect_over, call, warm, warm_task, probe, close, drop_dead, after_operation,
  begin_close, may_warm,
}
use thalovant_rust_sdk.Session.Invariant.{
  Inv, contains, begin_close-Inv, drop_client_clears, cleanup_clears,
}
use thalovant_rust_sdk.Session.Operations.{
  connect-Inv, call-Inv, warm-Inv, warm_task-Inv, probe-Inv, close-Inv,
}

-- An operation may answer a number, which is enough to tell one run of it from another.
pub data Action : Type 0 where
  connects : World → Action
  calls : World → (Client → Result ℕ) → Action
  warms : World → Action
  warms_up : World → Action
  probes : World → Action
  begins_close : Action
  closes : World → Action

unfoldable pub step : Action → HubSession → HubSession
unfolding connect call warm warm_task probe close begin_close
step (connects w) s = (connect w s).0
step (calls w op) s = (call w op s).0
step (warms w) s = warm w s
step (warms_up w) s = warm_task w s
step (probes w) s = (probe w s).0
step begins_close s = begin_close s
step (closes w) s = (close w s).0

unfoldable pub run : List Action → HubSession → HubSession
unfolding step
run [] s = s
run (a ∷ more) s = run more (step a s)

step-Inv : (a : Action) (s : HubSession) → Inv s → Inv (step a s)
unfolding step
step-Inv (connects w) s v = connect-Inv w s v
step-Inv (calls w op) s v = call-Inv w op s v
step-Inv (warms w) s v = warm-Inv w s v
step-Inv (warms_up w) s v = warm_task-Inv w s v
step-Inv (probes w) s v = probe-Inv w s v
step-Inv begins_close s v = begin_close-Inv s v
step-Inv (closes w) s v = close-Inv w s v

kept-Inv : (more : List Action) (s : HubSession) → Inv s → Inv (run more s)
unfolding run
kept-Inv [] s v = v
kept-Inv (a ∷ more) s v = kept-Inv more (step a s) (step-Inv a s v)

new_session-Inv : (p : HubSessionPolicy) → IsOrdered p → Inv (new_session p)
unfolding new_session
new_session-Inv p o = record { basics = ground (arith, o); ledger = λ c e. ground arith }

-- After any operations on a new session whose policy is ordered, the link flag says whether
-- a client is held, the callbacks heard each change once and in turn, the relay belongs to the
-- current generation, no client is held while another waits for its cleanup, the retry wait is
-- within the policy's bounds, and every client that the factory made is held, waits for its
-- cleanup, or was closed.
pub run-Inv :
    (p : HubSessionPolicy) (more : List Action) → IsOrdered p → Inv (run more (new_session p))
run-Inv p more o = kept-Inv more (new_session p) (new_session-Inv p o)

-- Closed, with nothing held and nothing to clean up.
pub record IsOver (s : HubSession) : Type 0 where
  pub is_closed : s.closed ≡ true
  pub no_client : s.client ≡ none
  pub no_retired : s.retired ≡ none

-- What no later operation changes.
pub record Same (s t : HubSession) : Type 0 where
  pub closed : t.closed ≡ s.closed
  pub client : t.client ≡ s.client
  pub retired : t.retired ≡ s.retired
  pub built : t.built ≡ s.built
  pub shut : t.shut ≡ s.shut
  pub announced : t.announced ≡ s.announced

abbrev same : (s : HubSession) → Same s s
same s = record {
  closed = refl;
  client = refl;
  retired = refl;
  built = refl;
  shut = refl;
  announced = refl;
}

establish_over :
    (w : World) (settle : Bool) (s : HubSession)
    → s.closed ≡ true
    → establish w settle s ≡ (s, err session_closed)
unfolding establish
establish_over w settle s e = rw e refl

drop_client_over : (w : World) (s : HubSession) → IsOver s → Same s (drop_client w s).0
unfolding drop_client cleanup
drop_client_over w s o = ground (arith, o)

connect_over_closed :
    (w : World) (s : HubSession) (held : Option Client)
    → s.closed ≡ true
    → held ≡ none
    → Same s (connect_over w s held).0
unfolding connect_over
connect_over_closed w s none shut e = rw (establish_over w true s shut) (same s)
connect_over_closed w s (some c) shut e = grind (arith, e)

call_closed :
    (w : World) (op : Client → Result ℕ) (s : HubSession) (held : Option Client)
    → s.closed ≡ true
    → held ≡ none
    → Same s
        (drop_dead w s held
          >>= (λ t _. establish w false t)
          >>= (λ u c. after_operation w u (op c))).0
call_closed w op s none shut e = rw (establish_over w false s shut) (same s)
call_closed w op s (some c) shut e = grind (arith, e)

warm_over : (w : World) (s : HubSession) → IsOver s → Same s (warm w s)
unfolding warm may_warm
warm_over w s o = ground (arith, o)

warm_task_over : (w : World) (s : HubSession) → IsOver s → Same s (warm_task w s)
unfolding warm_task
warm_task_over w s o = rw (establish_over w false s o.is_closed) (record {
  closed = refl;
  client = refl;
  retired = refl;
  built = refl;
  shut = refl;
  announced = refl;
})

probe_over : (w : World) (s : HubSession) → IsOver s → Same s (probe w s).0
unfolding probe
probe_over w s o = ground (arith, o)

close_over : (w : World) (s : HubSession) → IsOver s → Same s (close w s).0
unfolding close drop_client cleanup begin_close
close_over w s o = ground (arith, o)

begin_close_over : (s : HubSession) → IsOver s → Same s (begin_close s)
unfolding begin_close
begin_close_over s o = ground (arith, o)

step_over : (a : Action) (s : HubSession) → IsOver s → Same s (step a s)
unfolding step connect call
step_over (connects w) s o = connect_over_closed w s s.client o.is_closed o.no_client
step_over (calls w op) s o = call_closed w op s s.client o.is_closed o.no_client
step_over (warms w) s o = warm_over w s o
step_over (warms_up w) s o = warm_task_over w s o
step_over (probes w) s o = probe_over w s o
step_over begins_close s o = begin_close_over s o
step_over (closes w) s o = close_over w s o

Same-IsOver : (s t : HubSession) → IsOver s → Same s t → IsOver t
Same-IsOver s t o e = ground (arith, o, e)

trans_Same : {s t u : HubSession} → Same s t → Same t u → Same s u
trans_Same e f = ground (arith, e, f)

-- Once closed with nothing held, a session that any operations follow makes no client, tells no
-- callback and changes none of what it holds.
pub run_over : (more : List Action) (s : HubSession) → IsOver s → Same s (run more s)
unfolding run
run_over [] s o = same s
run_over (a ∷ more) s o =
    let first = step_over a s o in
    trans_Same first (run_over more (step a s) (Same-IsOver s (step a s) o first))

begin_close_shut : (w : World) (s : HubSession) → (close w s).0.closed ≡ true
unfolding close drop_client cleanup begin_close
begin_close_shut w s = ground arith

close-IsOver : (w : World) (s : HubSession) → (close w s).1 ≡ ok tt → IsOver (close w s).0
unfolding close drop_client
close-IsOver w s good = record {
  is_closed = begin_close_shut w s;
  no_client = drop_client_clears w (begin_close s);
  no_retired = cleanup_clears w _ good;
}

over_shut :
    (s : HubSession) (c : Client)
    → Inv s
    → IsOver s
    → contains c s.built ≡ true
    → contains c s.shut ≡ true
over_shut s c v o e = ground (arith, v.ledger c, o)

-- What a `close` that returned no error leaves, whatever is called on the session afterwards.
pub record Ended (closed_at s : HubSession) : Type 0 where
  pub over : IsOver s
  pub unchanged : Same closed_at s
  pub all_shut : (c : Client) → contains c s.built ≡ true → contains c s.shut ≡ true

-- Where the policy is ordered and, after any operations on a new session, a
-- `close` succeeds, then whatever is called later the session stays closed, holds nothing, makes no
-- client and tells no callback, and every client that was ever made has been closed.
pub close_final :
    (p : HubSessionPolicy) (before : List Action) (w : World) (more : List Action)
    → IsOrdered p
    → (close w (run before (new_session p))).1 ≡ ok tt
    → Ended
        (close w (run before (new_session p))).0
        (run more (close w (run before (new_session p))).0)
close_final p before w more o good =
    let s = run before (new_session p) in
    let over = close-IsOver w s good in
    let kept = run_over more (close w s).0 over in
    let v = kept-Inv more (close w s).0 (close-Inv w s (run-Inv p before o)) in
    let after = Same-IsOver (close w s).0 (run more (close w s).0) over kept in
    record {
      over = after;
      unchanged = kept;
      all_shut = λ c e. over_shut (run more (close w s).0) c v after e;
    }

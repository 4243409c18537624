-- ===== src/Session/Operations.antt =====
-- Every operation of a hub session of src/session.rs keeps the invariant, on every branch and
-- whatever is answered.
use thalovant_rust_sdk.Prelude.{true, false, Option, none, some, is_some, if◌then◌else◌, arith}
use thalovant_rust_sdk.Errors.{Result, ok, err}
use thalovant_rust_sdk.Session.{
  HubSession, World, Client, Outcome, ◌>>=◌, drop_client, establish, connect, connect_over, call,
  warm, warm_task, probe, close, drop_dead, forget, after_operation, keeps_client, begin_close,
}
use thalovant_rust_sdk.Session.Invariant.{
  Inv, Inv-if, Inv-then, drop_client-Inv, establish-Inv, begin_close-Inv,
}

forget-Inv : {A : Type 0} (x : Outcome A) → Inv x.0 → Inv (forget x).0
forget-Inv (s, ok a) v = v
forget-Inv (s, err e) v = v

connect_over-Inv :
    (w : World) (s : HubSession) (held : Option Client) → Inv s → Inv (connect_over w s held).0
unfolding connect_over
connect_over-Inv w s none v = forget-Inv (establish w true s) (establish-Inv w true s v)
connect_over-Inv w s (some c) v =
    Inv-if (w.alive c) (s, ok tt) (drop_client w s >>= λ t _. forget (establish w true t)) v
      (Inv-then (drop_client w s) (λ t _. forget (establish w true t)) (drop_client-Inv w s v)
        (λ _ _.
          forget-Inv (establish w true (drop_client w s).0)
            (establish-Inv w true (drop_client w s).0 (drop_client-Inv w s v))))

pub connect-Inv : (w : World) (s : HubSession) → Inv s → Inv (connect w s).0
unfolding connect
connect-Inv w s v = connect_over-Inv w s s.client v

drop_dead-Inv :
    (w : World) (s : HubSession) (held : Option Client) → Inv s → Inv (drop_dead w s held).0
drop_dead-Inv w s none v = v
drop_dead-Inv w s (some c) v =
    Inv-if (w.alive c) (s, ok tt) (drop_client w s) v (drop_client-Inv w s v)

after_operation-Inv :
    {A : Type 0} (w : World) (s : HubSession) (r : Result A) → Inv s → Inv (after_operation w s r).0
after_operation-Inv w s (ok a) v = v
after_operation-Inv {A} w s (err e) v =
    Inv-if (keeps_client e) (s, err e) (drop_client w s >>= λ t _. (t, err e)) v
      (Inv-then {B = A} (drop_client w s) (λ t _. (t, err e)) (drop_client-Inv w s v)
        (λ _ _. drop_client-Inv w s v))

pub call-Inv :
    {A : Type 0} (w : World) (run : Client → Result A) (s : HubSession)
    → Inv s
    → Inv (call w run s).0
unfolding call
call-Inv w run s v =
    let dropped = drop_dead w s s.client in
    let dropped-Inv = drop_dead-Inv w s s.client v in
    let made = dropped >>= λ t _. establish w false t in
    let made-Inv =
      Inv-then dropped (λ t _. establish w false t) dropped-Inv
        (λ _ _. establish-Inv w false dropped.0 dropped-Inv) in
    Inv-then made (λ u c. after_operation w u (run c)) made-Inv
      (λ c _. after_operation-Inv w made.0 (run c) made-Inv)

pub warm-Inv : (w : World) (s : HubSession) → Inv s → Inv (warm w s)
unfolding warm
warm-Inv w s v = record {
  basics = ground (arith, v.basics);
  ledger = λ c e. ground (arith, v.ledger c);
}

pub warm_task-Inv : (w : World) (s : HubSession) → Inv s → Inv (warm_task w s)
unfolding warm_task
warm_task-Inv w s v =
    let u = establish-Inv w false s v in
    record { basics = ground (arith, u.basics); ledger = u.ledger }

pub probe-Inv : (w : World) (s : HubSession) → Inv s → Inv (probe w s).0
unfolding probe
probe-Inv w s v =
    let dropped = drop_dead w s s.client in
    let dropped-Inv = drop_dead-Inv w s s.client v in
    Inv-if s.closed (s, ok tt)
      (dropped >>= λ t _. if is_some t.client then (t, ok tt) else (warm w t, ok tt)) v
      (Inv-then dropped (λ t _. if is_some t.client then (t, ok tt) else (warm w t, ok tt))
        dropped-Inv
        (λ _ _.
          Inv-if {A = Unit {0}} (is_some dropped.0.client) (dropped.0, ok tt)
            (warm w dropped.0, ok tt) dropped-Inv (warm-Inv w dropped.0 dropped-Inv)))

pub close-Inv : (w : World) (s : HubSession) → Inv s → Inv (close w s).0
unfolding close
close-Inv w s v = drop_client-Inv w (begin_close s) (begin_close-Inv s v)

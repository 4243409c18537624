-- ===== src/Session/Told.antt =====
-- The supervisor of `HubSession::run` (src/session.rs) has seen what the loop told it, and no more.
use thalovant_rust_sdk.Prelude.{
  ℕ, Bool, true, false, Option, none, some, List, [], ◌∷◌, if◌then◌else◌, ◌≡◌, refl, ap,
}
use thalovant_rust_sdk.Errors.{ThalovantError, ok, err}
use thalovant_rust_sdk.Link.{
  HubSessionPolicy, LinkOutcome, up, dropped, after, new_supervisor, observe,
}
use thalovant_rust_sdk.Session.{HubSession, Client, Outcome, connect, drop_client, meanwhile}
use thalovant_rust_sdk.Session.Managed.{
  Round, Managed, Turn, returns, again, classify, tell, classified, dialled, watched, watch_or_end,
  is_up, turn, managed, after_rounds,
}

-- The supervisor has seen exactly the history that is kept.
abbrev pub Knows : HubSessionPolicy → ℕ → Managed → Type 0
Knows p grace m = m.supervisor ≡ observe (new_supervisor p grace) m.seen

tell-Knows :
    (p : HubSessionPolicy) (grace : ℕ) (m : Managed) (o : LinkOutcome) (now : ℕ)
    → Knows p grace m
    → Knows p grace (tell m o now).0
unfolding tell observe
tell-Knows p grace m o now k = ap (λ s. (after s o now).0) k

classified-Knows :
    (p : HubSessionPolicy) (grace : ℕ) (m : Managed) (now : ℕ) (e : ThalovantError)
    (o : Option LinkOutcome)
    → Knows p grace m
    → Knows p grace (classified m now e o).0
unfolding classified
classified-Knows p grace m now e none k = k
classified-Knows p grace m now e (some o) k = tell-Knows p grace m o now k

dialled-Knows :
    (p : HubSessionPolicy) (grace : ℕ) (m : Managed) (now : ℕ) (x : Outcome (Unit {0}))
    → Knows p grace m
    → Knows p grace (dialled m now x).0
unfolding dialled
dialled-Knows p grace m now (s, ok u) k = tell-Knows p grace (record m { session = s }) up now k
dialled-Knows p grace m now (s, err e) k =
    classified-Knows p grace (record m { session = s }) now e (classify e) k

Knows-if :
    (p : HubSessionPolicy) (grace : ℕ) (b : Bool) (x y : Managed × Turn)
    → Knows p grace x.0
    → Knows p grace y.0
    → Knows p grace (if b then x else y).0
Knows-if p grace true x y v w = v
Knows-if p grace false x y v w = w

watched-Knows :
    (p : HubSessionPolicy) (grace : ℕ) (r : Round) (m : Managed) (held : Option Client)
    → Knows p grace m
    → Knows p grace (watched r m held).0
unfolding watched
watched-Knows p grace r m none k = k
watched-Knows p grace r m (some c) k =
    Knows-if p grace (r.world.alive c) (m, again 0) _ k
      (tell-Knows p grace (record m { session = (drop_client r.world m.session).0 }) dropped
        r.elapsed k)

turn-Knows :
    (p : HubSessionPolicy) (grace : ℕ) (r : Round) (m : Managed)
    → Knows p grace m
    → Knows p grace (turn r m).0
unfolding turn
turn-Knows p grace r m k =
    let t = record m { session = meanwhile r.closed_watching m.session } in
    Knows-if p grace m.session.closed (m, returns (ok tt)) _ k
      (Knows-if p grace (is_up r m.session.client) (watch_or_end r t)
        (dialled m r.elapsed (connect r.world m.session))
        (Knows-if p grace t.session.closed (t, returns (ok tt)) (watched r t t.session.client) k
          (watched-Knows p grace r t t.session.client k))
        (dialled-Knows p grace m r.elapsed (connect r.world m.session) k))

pub after_rounds-Knows :
    (p : HubSessionPolicy) (grace : ℕ) (rs : List Round) (m : Managed)
    → Knows p grace m
    → Knows p grace (after_rounds rs m)
unfolding after_rounds
after_rounds-Knows p grace [] m k = k
after_rounds-Knows p grace (r ∷ rs) m k =
    after_rounds-Knows p grace rs (turn r m).0 (turn-Knows p grace r m k)

pub managed-Knows :
    (s : HubSession) (p : HubSessionPolicy) (grace : ℕ) → Knows p grace (managed s p grace)
unfolding managed observe
managed-Knows s p grace = refl

-- ===== src/Session/Supervised.antt =====
-- When `HubSession::run` of src/session.rs returns.
use thalovant_rust_sdk.Prelude.{
  ℕ, ◌+◌, ◌≤◌, ◌<◌, Bool, true, false, Option, none, some, List, if◌then◌else◌, ◌≡◌, refl, arith,
  ap, ◌∙◌, sym, subst,
}
use thalovant_rust_sdk.Errors.{
  ThalovantError, is_hub_key_changed, is_client_key_rejected, is_hub_refused, ok, err,
}
use thalovant_rust_sdk.Link.{
  HubSessionPolicy, LinkOutcome, up, dropped, failed, refused, key_changed, client_key_rejected,
  LinkDecision, hold, retry, give_up, LinkSupervisor, after, History,
}
use thalovant_rust_sdk.Link.Reference.{IsOrdered}
use thalovant_rust_sdk.Link.Grace.{gives_up_iff, IsMonotone, RefusedAt}
use thalovant_rust_sdk.Session.{HubSession, Client, Outcome, connect, drop_client, meanwhile}
use thalovant_rust_sdk.Session.Managed.{
  Round, Managed, Turn, returns, again, is_unusable, classify, tell, answer, go_on, classified,
  dialled, watched, watch_or_end, is_up, turn, managed, after_rounds,
}
use thalovant_rust_sdk.Session.Told.{Knows, after_rounds-Knows, managed-Knows}

-- Why the loop may return an error.
pub data Stops (grace now : ℕ) (h : History) (e : ThalovantError) : Type 0 where
  by_hub_key : is_hub_key_changed e ≡ true → Stops grace now h e
  by_client_key : is_client_key_rejected e ≡ true → Stops grace now h e
  by_identity : is_unusable e ≡ true → Stops grace now h e
  by_refusals :
      (t : ℕ) → is_hub_refused e ≡ true → RefusedAt t h → t + grace ≤ now → Stops grace now h e

classify-none : (e : ThalovantError) → classify e ≡ none → is_unusable e ≡ true
unfolding classify
classify-none e h = ground (arith, h)

classify-key_changed :
    (e : ThalovantError) → classify e ≡ some key_changed → is_hub_key_changed e ≡ true
unfolding classify
classify-key_changed e h = ground (arith, h)

classify_client_key :
    (e : ThalovantError) → classify e ≡ some client_key_rejected → is_client_key_rejected e ≡ true
unfolding classify
classify_client_key e h = ground (arith, h)

classify-refused : (e : ThalovantError) → classify e ≡ some refused → is_hub_refused e ≡ true
unfolding classify
classify-refused e h = ground (arith, h)

go_on_answers :
    (closed : Bool) (d : LinkDecision) (f : ThalovantError) → go_on closed d ≡ returns (err f) → ⊥
go_on_answers true d f h = cc
go_on_answers false d f h = cc

reason_refused :
    (s : LinkSupervisor) (now : ℕ) (o : LinkOutcome)
    → (after s refused now).1 ≡ give_up o
    → (after s refused now).1 ≡ give_up refused
unfolding after
reason_refused s now o h = ground (arith, h)

refused_ends :
    (d : LinkDecision) (closed : Bool) (e f : ThalovantError)
    → answer refused d closed e ≡ returns (err f)
    → (o : LinkOutcome) × (d ≡ give_up o)
unfolding answer
refused_ends (give_up o) closed e f h = (o, refl)
refused_ends hold closed e f h = absurd (go_on_answers closed hold f h)
refused_ends (retry w) closed e f h = absurd (go_on_answers closed (retry w) f h)

answer_error :
    (o : LinkOutcome) (d : LinkDecision) (closed : Bool) (e f : ThalovantError)
    → answer o d closed e ≡ returns (err f)
    → e ≡ f
unfolding answer
answer_error key_changed d closed e f h = cc
answer_error client_key_rejected d closed e f h = cc
answer_error refused (give_up o) closed e f h = cc
answer_error refused hold closed e f h = absurd (go_on_answers closed hold f h)
answer_error refused (retry w) closed e f h = absurd (go_on_answers closed (retry w) f h)
answer_error up d closed e f h = absurd (go_on_answers closed d f h)
answer_error dropped d closed e f h = absurd (go_on_answers closed d f h)
answer_error failed d closed e f h = absurd (go_on_answers closed d f h)

classified_ends :
    (p : HubSessionPolicy) (grace : ℕ) (m : Managed) (now : ℕ) (e : ThalovantError)
    (o : Option LinkOutcome)
    → IsOrdered p
    → 0 < grace
    → classify e ≡ o
    → Knows p grace m
    → IsMonotone now m.seen
    → (f : ThalovantError) → (classified m now e o).1 ≡ returns (err f)
    → Stops grace now m.seen e
unfolding classified tell answer
classified_ends p grace m now e none v g is k mono f h = by_identity (classify-none e is)
classified_ends p grace m now e (some key_changed) v g is k mono f h =
    by_hub_key (classify-key_changed e is)
classified_ends p grace m now e (some client_key_rejected) v g is k mono f h =
    by_client_key (classify_client_key e is)
classified_ends p grace m now e (some refused) v g is k mono f h =
    let (o, gives) = refused_ends (after m.supervisor refused now).1 m.session.closed e f h in
    let ends = reason_refused m.supervisor now o gives in
    let (t, at, old) =
      (gives_up_iff p grace m.seen now v g mono).0
        (ap (λ s. (after s refused now).1) (sym k) ∙ ends) in
    by_refusals t (classify-refused e is) at old
classified_ends p grace m now e (some up) v g is k mono f h =
    absurd (go_on_answers m.session.closed (tell m up now).1 f h)
classified_ends p grace m now e (some dropped) v g is k mono f h =
    absurd (go_on_answers m.session.closed (tell m dropped now).1 f h)
classified_ends p grace m now e (some failed) v g is k mono f h =
    absurd (go_on_answers m.session.closed (tell m failed now).1 f h)

classified_error :
    (m : Managed) (now : ℕ) (e : ThalovantError) (o : Option LinkOutcome) (f : ThalovantError)
    → (classified m now e o).1 ≡ returns (err f)
    → e ≡ f
unfolding classified
classified_error m now e none f h = cc
classified_error m now e (some o) f h = answer_error o (tell m o now).1 m.session.closed e f h

dialled_ends :
    (p : HubSessionPolicy) (grace : ℕ) (m : Managed) (now : ℕ) (x : Outcome (Unit {0}))
    → IsOrdered p
    → 0 < grace
    → Knows p grace m
    → IsMonotone now m.seen
    → (f : ThalovantError) → (dialled m now x).1 ≡ returns (err f)
    → Stops grace now m.seen f
unfolding dialled
dialled_ends p grace m now (s, ok u) v g k mono f h = absurd (cc)
dialled_ends p grace m now (s, err e) v g k mono f h =
    let t = record m { session = s } in
    subst (λ x. Stops grace now m.seen x) (classified_error t now e (classify e) f h)
      (classified_ends p grace t now e (classify e) v g refl k mono f h)

ends-if :
    {P : Type 0} (b : Bool) (x y : Managed × Turn) (f : ThalovantError)
    → (x.1 ≡ returns (err f) → P)
    → (y.1 ≡ returns (err f) → P)
    → (if b then x else y).1 ≡ returns (err f)
    → P
ends-if true x y f v w h = v h
ends-if false x y f v w h = w h

watched_ends :
    (r : Round) (m : Managed) (held : Option Client) (f : ThalovantError)
    → (watched r m held).1 ≡ returns (err f)
    → ⊥
unfolding watched
watched_ends r m none f h = cc
watched_ends r m (some c) f h =
    ends-if (r.world.alive c) (m, again 0)
      (
        (tell (record m { session = (drop_client r.world m.session).0 }) dropped r.elapsed).0,
        again 0,
      )
      f (λ x. cc) (λ x. cc) h

turn_ends :
    (p : HubSessionPolicy) (grace : ℕ) (r : Round) (m : Managed)
    → IsOrdered p
    → 0 < grace
    → Knows p grace m
    → IsMonotone r.elapsed m.seen
    → (f : ThalovantError) → (turn r m).1 ≡ returns (err f)
    → Stops grace r.elapsed m.seen f
unfolding turn
turn_ends p grace r m v g k mono f h =
    let t = record m { session = meanwhile r.closed_watching m.session } in
    ends-if m.session.closed (m, returns (ok tt))
      (if is_up r m.session.client
        then watch_or_end r t
        else dialled m r.elapsed (connect r.world m.session))
      f (λ x. absurd (cc))
      (ends-if (is_up r m.session.client) (watch_or_end r t)
        (dialled m r.elapsed (connect r.world m.session)) f
        (ends-if t.session.closed (t, returns (ok tt)) (watched r t t.session.client) f
          (λ x. absurd (cc)) (λ x. absurd (watched_ends r t t.session.client f x)))
        (dialled_ends p grace m r.elapsed (connect r.world m.session) v g k mono f))
      h

-- Whatever the rounds before it brought, on a clock that does not run backwards, a round of `run`
-- returns an error only for a changed hub key, for a rejected client key, for an identity that
-- cannot be used, or for a refusal when a refusal of the same unbroken run is at least the grace
-- old. The policy is ordered and the grace positive.
pub run_returns :
    (s : HubSession) (p : HubSessionPolicy) (grace : ℕ) (before : List Round) (r : Round)
    (e : ThalovantError)
    → IsOrdered p
    → 0 < grace
    → IsMonotone r.elapsed (after_rounds before (managed s p grace)).seen
    → (turn r (after_rounds before (managed s p grace))).1 ≡ returns (err e)
    → Stops grace r.elapsed (after_rounds before (managed s p grace)).seen e
run_returns s p grace before r e v g mono h =
    let m = after_rounds before (managed s p grace) in
    turn_ends p grace r m v g
      (after_rounds-Knows p grace before (managed s p grace) (managed-Knows s p grace)) mono e h

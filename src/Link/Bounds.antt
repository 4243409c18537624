-- ===== src/Link/Bounds.antt =====
-- How long a supervisor may wait (src/session.rs, the ladder of `LinkSupervisor`).
use thalovant_rust_sdk.Prelude.{ℕ, ◌*◌, ◌^◌, ◌≤◌, ◌<◌, ◌≡◌, ◌↔◌, Bool, true, ◌⊎◌, some, arith}
use native.Mathlib.Nat.{one-le-pow}
use thalovant_rust_sdk.Link.{
  HubSessionPolicy, LinkOutcome, History, up, dropped, failed, refused, key_changed,
  client_key_rejected, retry, validate, new_supervisor, after, observe,
}
use thalovant_rust_sdk.Link.Reference.{IsOrdered, rung, steps, decide, after-observe}

rung_bounds :
    (p : HubSessionPolicy) (n : ℕ)
    → IsOrdered p
    → (p.retry ≤ rung p n) × (rung p n ≤ p.retry_ceiling)
unfolding rung
rung_bounds p n v =
    let grows : p.retry ≤ p.retry * 2 ^ n = grind (arith, one-le-pow n 2) in
    omega (arith, v.ordered)

-- `validate` accepts exactly the policies whose budgets are positive, whose ceiling is not below
-- the first wait, and whose ceiling the clock can add; an accepted policy is unchanged.
pub validate_iff :
    (addable : ℕ → Bool) (p q : HubSessionPolicy)
    → (validate addable p ≡ some q) ↔ (
        (q ≡ p)
        × (0 < p.retry)
        × (p.retry ≤ p.retry_ceiling)
        × (0 < p.probe)
        × (0 < p.probe_down)
        × (addable p.retry_ceiling ≡ true))
unfolding validate
validate_iff addable p q = (λ e. ground arith, λ h. ground arith)

decide_bounds :
    (p : HubSessionPolicy) (grace : ℕ) (h : History) (o : LinkOutcome) (now w : ℕ)
    → IsOrdered p
    → decide p grace h o now ≡ retry w
    → (w ≤ p.retry_ceiling) × (((o ≡ dropped) × (w ≡ 0)) ⊎ (p.retry ≤ w))
unfolding decide
decide_bounds p grace h up now w v e = cc
decide_bounds p grace h dropped now w v e = ground arith
decide_bounds p grace h key_changed now w v e = cc
decide_bounds p grace h client_key_rejected now w v e = cc
decide_bounds p grace h failed now w v e = ground (arith, rung_bounds p (steps grace h) v)
decide_bounds p grace h refused now w v e = ground (arith, rung_bounds p (steps grace h) v)

-- No decision, after any history, waits longer than the ceiling, and a wait that is not a drop's
-- immediate redial is at least the policy's first wait.
pub wait_bounds :
    (p : HubSessionPolicy) (grace : ℕ) (h : History) (o : LinkOutcome) (now w : ℕ)
    → IsOrdered p
    → (after (observe (new_supervisor p grace) h) o now).1 ≡ retry w
    → (w ≤ p.retry_ceiling) × (((o ≡ dropped) × (w ≡ 0)) ⊎ (p.retry ≤ w))
wait_bounds p grace h o now w v e =
    decide_bounds p grace h o now w v (rw (after-observe p grace h o now v) at e)

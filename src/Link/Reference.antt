-- ===== src/Link/Reference.antt =====
-- What `after` promises, as a function of the whole history and of nothing else, and the proof that
-- the supervisor's two mutable fields implement it (src/session.rs, the doc of `LinkSupervisor`).
use native.Mathlib.Nat.{pow-suc}
use thalovant_rust_sdk.Prelude.{
  ℕ, suc, ◌-◌, ◌*◌, ◌^◌, ◌≤◌, ◌<◌, min, ◌≡◌, Bool, Option, none, some, [], ◌∷◌, arith, leb,
  if◌then◌else◌,
}
use thalovant_rust_sdk.Link.{
  HubSessionPolicy, LinkOutcome, LinkDecision, LinkSupervisor, History, up, dropped, failed,
  refused, key_changed, client_key_rejected, hold, retry, give_up, duration_max, next_wait,
  new_supervisor, first_refusal, after, observe,
}

-- The first refusal since the link was last up or unreachable.
unfoldable pub refused_from : History → Option ℕ
refused_from [] = none
refused_from ((up, t) ∷ h) = none
refused_from ((failed, t) ∷ h) = none
refused_from ((refused, t) ∷ h) = some (first_refusal (refused_from h) t)
refused_from ((dropped, t) ∷ h) = refused_from h
refused_from ((key_changed, t) ∷ h) = refused_from h
refused_from ((client_key_rejected, t) ∷ h) = refused_from h

-- Whether a refusal at `now` has lasted the grace out.
unfoldable pub outlasted : ℕ → History → ℕ → Bool
outlasted grace h now = leb grace (now - first_refusal (refused_from h) now)

-- How many ladder steps were taken since the link was last up.
unfoldable pub steps : ℕ → History → ℕ
steps grace [] = 0
steps grace ((up, t) ∷ h) = 0
steps grace ((failed, t) ∷ h) = suc (steps grace h)
steps grace ((refused, t) ∷ h) = let n = steps grace h in if outlasted grace h t then n else suc n
steps grace ((dropped, t) ∷ h) = steps grace h
steps grace ((key_changed, t) ∷ h) = steps grace h
steps grace ((client_key_rejected, t) ∷ h) = steps grace h

-- The retry, doubled once for every step, up to the ceiling.
unfoldable pub rung : HubSessionPolicy → ℕ → ℕ
rung p n = min (p.retry * 2 ^ n) p.retry_ceiling

unfoldable pub decide : HubSessionPolicy → ℕ → History → LinkOutcome → ℕ → LinkDecision
decide p grace h up now = hold
decide p grace h dropped now = retry 0
decide p grace h key_changed now = give_up key_changed
decide p grace h client_key_rejected now = give_up client_key_rejected
decide p grace h failed now = retry (rung p (steps grace h))
decide p grace h refused now =
    if outlasted grace h now then give_up refused else retry (rung p (steps grace h))

-- What `validate` leaves, and what every `Duration` satisfies.
pub record IsOrdered (p : HubSessionPolicy) : Type 0 where
  pub positive : 0 < p.retry
  pub ordered : p.retry ≤ p.retry_ceiling
  pub in_range : p.retry_ceiling ≤ duration_max

double_pow : (r k : ℕ) → r * 2 ^ suc k ≡ r * 2 ^ k * 2
double_pow r k = rw (pow-suc 2 k) (omega arith)

-- The ladder's step, as the code computes it, is one rung up.
pub rung-suc :
    (p : HubSessionPolicy) (n : ℕ) → IsOrdered p → next_wait p (rung p n) ≡ rung p (suc n)
unfolding next_wait rung
rung-suc p n v = omega (arith, double_pow p.retry n, v.in_range)

pub rung-zero : (p : HubSessionPolicy) → IsOrdered p → rung p 0 ≡ p.retry
unfolding rung
rung-zero p v = omega (arith, v.ordered)

-- The state of the supervisor is the history's ladder step and first refusal.
pub record Tracks (p : HubSessionPolicy) (grace : ℕ) (h : History) (s : LinkSupervisor)
    : Type 0 where
  pub same_policy : s.policy ≡ p
  pub same_grace : s.refusal_grace ≡ grace
  pub on_rung : s.wait ≡ rung p (steps grace h)
  pub clocked : s.refused_since ≡ refused_from h

after-Tracks :
    (p : HubSessionPolicy) (grace : ℕ) (h : History) (s : LinkSupervisor) (o : LinkOutcome)
    (now : ℕ)
    → IsOrdered p
    → Tracks p grace h s
    → Tracks p grace ((o, now) ∷ h) (after s o now).0 × ((after s o now).1 ≡ decide p grace h o now)
unfolding after decide steps refused_from outlasted
after-Tracks p grace h s up now v t = ground (arith, rung-zero p v)
after-Tracks p grace h s dropped now v t = ground arith
after-Tracks p grace h s key_changed now v t = ground arith
after-Tracks p grace h s client_key_rejected now v t = ground arith
after-Tracks p grace h s failed now v t = ground (arith, rung-suc p (steps grace h) v)
after-Tracks p grace h s refused now v t = ground (arith, rung-suc p (steps grace h) v)

pub observe-Tracks :
    (p : HubSessionPolicy) (grace : ℕ) (h : History)
    → IsOrdered p
    → Tracks p grace h (observe (new_supervisor p grace) h)
unfolding observe new_supervisor steps refused_from
observe-Tracks p grace [] v = ground (arith, rung-zero p v)
observe-Tracks p grace ((o, now) ∷ h) v =
    (after-Tracks p grace h (observe (new_supervisor p grace) h) o now v
      (observe-Tracks p grace h v)).0

-- After any history the supervisor decides by the reference: every retry waits the rung that the
-- history's failures and admissible refusals since the last `up` have climbed to, and a refusal
-- gives up exactly when the unbroken run of refusals it belongs to has lasted the grace.
pub after-observe :
    (p : HubSessionPolicy) (grace : ℕ) (h : History) (o : LinkOutcome) (now : ℕ)
    → IsOrdered p
    → (after (observe (new_supervisor p grace) h) o now).1 ≡ decide p grace h o now
after-observe p grace h o now v =
    (after-Tracks p grace h (observe (new_supervisor p grace) h) o now v
      (observe-Tracks p grace h v)).1

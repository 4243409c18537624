-- ===== src/Link/Grace.antt =====
-- When refusals end a link (src/session.rs, `LinkSupervisor::after` on `Refused`).
use thalovant_rust_sdk.Prelude.{
  ℕ, ◌+◌, ◌≤◌, subst, ◌<◌, ◌≡◌, ◌↔◌, inl, inr, some, [], ◌∷◌, arith, Option-cases,
}
use thalovant_rust_sdk.Link.{
  HubSessionPolicy, LinkOutcome, History, up, dropped, failed, refused, key_changed,
  client_key_rejected, give_up, new_supervisor, after, observe,
}
use thalovant_rust_sdk.Link.Reference.{IsOrdered, refused_from, outlasted, decide, after-observe}

-- The outcomes that leave the refusal clock running.
abbrev pub KeepsClock : LinkOutcome → Type 0
KeepsClock up = ⊥
KeepsClock failed = ⊥
KeepsClock dropped = Unit
KeepsClock refused = Unit
KeepsClock key_changed = Unit
KeepsClock client_key_rejected = Unit

-- There was a refusal at `t`, and the link was neither up nor unreachable since.
pub data RefusedAt (t : ℕ) : History → Type 0 where
  here : {h : History} → RefusedAt t ((refused, t) ∷ h)
  earlier :
      {o : LinkOutcome} {n : ℕ} {h : History}
      → KeepsClock o
      → RefusedAt t h
      → RefusedAt t ((o, n) ∷ h)

-- The clock does not run backwards.
abbrev pub IsMonotone : ℕ → History → Type 0
IsMonotone now [] = Unit
IsMonotone now ((o, t) ∷ h) = (t ≤ now) × IsMonotone t h

refused_from-RefusedAt : (h : History) (t : ℕ) → refused_from h ≡ some t → RefusedAt t h
unfolding refused_from
refused_from-RefusedAt [] t e = cc
refused_from-RefusedAt ((up, n) ∷ h) t e = cc
refused_from-RefusedAt ((failed, n) ∷ h) t e = cc
refused_from-RefusedAt ((dropped, n) ∷ h) t e = earlier tt (refused_from-RefusedAt h t e)
refused_from-RefusedAt ((key_changed, n) ∷ h) t e = earlier tt (refused_from-RefusedAt h t e)
refused_from-RefusedAt ((client_key_rejected, n) ∷ h) t e =
    earlier tt (refused_from-RefusedAt h t e)
refused_from-RefusedAt ((refused, n) ∷ h) t e = elim (Option-cases (refused_from h)) [
  | inl fresh ↦ let at : t ≡ n = ground arith in subst (λ k. RefusedAt t ((refused, k) ∷ h)) at here
  | inr (s, kept) ↦ earlier tt (refused_from-RefusedAt h t (ground arith))
]

refused_from-le : (h : History) (now s : ℕ) → IsMonotone now h → refused_from h ≡ some s → s ≤ now
unfolding refused_from
refused_from-le [] now s m e = cc
refused_from-le ((up, n) ∷ h) now s m e = cc
refused_from-le ((failed, n) ∷ h) now s m e = cc
refused_from-le ((dropped, n) ∷ h) now s m e = omega (arith, refused_from-le h n s m.1 e)
refused_from-le ((key_changed, n) ∷ h) now s m e = omega (arith, refused_from-le h n s m.1 e)
refused_from-le ((client_key_rejected, n) ∷ h) now s m e =
    omega (arith, refused_from-le h n s m.1 e)
refused_from-le ((refused, n) ∷ h) now s m e = ground (arith, refused_from-le h n s m.1)

-- The clock starts at or before every refusal of the run.
abbrev StartsBy : ℕ → History → Type 0
StartsBy t h = (s : ℕ) × (refused_from h ≡ some s) × (s ≤ t)

StartsBy-cons :
    (o : LinkOutcome) (n t : ℕ) (h : History)
    → KeepsClock o
    → StartsBy t h
    → StartsBy t ((o, n) ∷ h)
unfolding refused_from
StartsBy-cons up n t h k b = elim k [ ]
StartsBy-cons failed n t h k b = elim k [ ]
StartsBy-cons dropped n t h k b = b
StartsBy-cons key_changed n t h k b = b
StartsBy-cons client_key_rejected n t h k b = b
StartsBy-cons refused n t h k (s, e, l) = (s, ground arith, l)

RefusedAt-StartsBy :
    {t : ℕ} {h : History} (now : ℕ) → RefusedAt t h → IsMonotone now h → StartsBy t h
unfolding refused_from
RefusedAt-StartsBy {t} now (here {h}) m = elim (Option-cases (refused_from h)) [
  | inl fresh ↦ (t, ground arith, omega arith)
  | inr (s, kept) ↦ (s, ground arith, refused_from-le h t s m.1 kept)
]
RefusedAt-StartsBy {t} now (earlier {o} {n} {h} k r) m =
    StartsBy-cons o n t h k (RefusedAt-StartsBy n r m.1)

decide_ends :
    (p : HubSessionPolicy) (grace : ℕ) (h : History) (now : ℕ)
    → 0 < grace
    → decide p grace h refused now ≡ give_up refused
    → (t : ℕ) × RefusedAt t h × (t + grace ≤ now)
unfolding decide outlasted
decide_ends p grace h now pos e = elim (Option-cases (refused_from h)) [
  | inl fresh ↦ absurd (ground arith)
  | inr (s, kept) ↦ (s, refused_from-RefusedAt h s kept, ground arith)
]

decide_lasts :
    (p : HubSessionPolicy) (grace : ℕ) (h : History) (now t : ℕ)
    → StartsBy t h
    → t + grace ≤ now
    → decide p grace h refused now ≡ give_up refused
unfolding decide outlasted
decide_lasts p grace h now t (s, e, le) l = ground arith

-- A refusal ends the link exactly when some refusal of the same unbroken run, on a clock that does
-- not run backwards, is at least the grace old: not sooner, and not later.
pub gives_up_iff :
    (p : HubSessionPolicy) (grace : ℕ) (h : History) (now : ℕ)
    → IsOrdered p
    → 0 < grace
    → IsMonotone now h
    → ((after (observe (new_supervisor p grace) h) refused now).1 ≡ give_up refused)
      ↔ ((t : ℕ) × RefusedAt t h × (t + grace ≤ now))
gives_up_iff p grace h now v pos m = rw (after-observe p grace h refused now v) (
  decide_ends p grace h now pos,
  λ found. decide_lasts p grace h now found.0 (RefusedAt-StartsBy now found.1 m) found.2,
)

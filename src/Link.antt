-- ===== src/Link.antt =====
-- src/session.rs: the policy of a managed link and `LinkSupervisor`, the pure function that decides
-- after every attempt. A `Duration` is its number of nanoseconds.
pub mod Reference
pub mod Grace
pub mod Bounds
use thalovant_rust_sdk.Prelude.{
  ℕ, ◌-◌, ◌*◌, ◌^◌, min, Bool, true, false, not, ◌||◌, Option, none, some, List, [], ◌∷◌, ltb, leb,
  ◌==◌, if◌then◌else◌,
}

-- `Duration::MAX`: u64::MAX seconds and 999,999,999 nanoseconds.
abbrev pub duration_max : ℕ
duration_max = 2 ^ 64 * 10 ^ 9 - 1

pub record HubSessionPolicy : Type 0 where
  pub retry : ℕ
  pub retry_ceiling : ℕ
  pub probe : ℕ
  pub probe_down : ℕ

abbrev pub seconds : ℕ → ℕ
seconds s = s * 10 ^ 9

abbrev pub default_policy : HubSessionPolicy
default_policy = record {
  retry = seconds 10;
  retry_ceiling = seconds 120;
  probe = seconds 60;
  probe_down = seconds 5;
}

-- `addable` is `Instant::now().checked_add(_).is_some()`, which is the clock's to answer.
unfoldable pub validate : (ℕ → Bool) → HubSessionPolicy → Option HubSessionPolicy
validate addable p =
    if p.retry == 0
      || (ltb p.retry_ceiling p.retry
          || (p.probe == 0 || (p.probe_down == 0 || not (addable p.retry_ceiling))))
    then none
    else some p

-- `saturating_mul(2).min(retry_ceiling)`.
unfoldable pub next_wait : HubSessionPolicy → ℕ → ℕ
next_wait p current = min (min (current * 2) duration_max) p.retry_ceiling

pub data LinkOutcome : Type 0 where
  up dropped failed refused key_changed client_key_rejected : LinkOutcome

pub data LinkDecision : Type 0 where
  hold : LinkDecision
  retry : ℕ → LinkDecision
  give_up : LinkOutcome → LinkDecision

pub record LinkSupervisor : Type 0 where
  pub policy : HubSessionPolicy
  pub refusal_grace : ℕ
  pub wait : ℕ
  pub refused_since : Option ℕ

unfoldable pub new_supervisor : HubSessionPolicy → ℕ → LinkSupervisor
new_supervisor p grace = record {
  policy = p;
  refusal_grace = grace;
  wait = p.retry;
  refused_since = none;
}

-- `*refused_since.get_or_insert(now)`.
abbrev pub first_refusal : Option ℕ → ℕ → ℕ
first_refusal none now = now
first_refusal (some since) now = since

-- The tail of `after`: the ladder's step, and the ladder moved on.
abbrev pub step_ladder : LinkSupervisor → LinkSupervisor × LinkDecision
step_ladder s = (record s { wait = next_wait s.policy s.wait }, retry s.wait)

unfoldable pub after : LinkSupervisor → LinkOutcome → ℕ → LinkSupervisor × LinkDecision
after s up now = (record s { wait = s.policy.retry; refused_since = none }, hold)
after s dropped now = (s, retry 0)
after s key_changed now = (s, give_up key_changed)
after s client_key_rejected now = (s, give_up client_key_rejected)
after s refused now =
    let since = first_refusal s.refused_since now in
    let s' = record s { refused_since = some since } in
    if leb s.refusal_grace (now - since) then (s', give_up refused) else step_ladder s'
after s failed now = step_ladder (record s { refused_since = none })

-- What a supervisor has seen, the newest outcome first.
abbrev pub History : Type 0
History = List (LinkOutcome × ℕ)

-- The supervisor after a whole history.
unfoldable pub observe : LinkSupervisor → History → LinkSupervisor
observe s [] = s
observe s ((o, now) ∷ h) = (after (observe s h) o now).0

-- ===== src/Tests/Link.antt =====
-- The supervisor of src/session.rs on short histories.
use thalovant_rust_sdk.Prelude.{ℕ, ◌≤◌, ◌<◌, ◌+◌, true, [], ◌∷◌, some, ◌≡◌, refl, arith, ◌⊎◌, ◌↔◌}
use thalovant_rust_sdk.Link.{
  HubSessionPolicy, default_policy, seconds, validate, LinkOutcome, up, dropped, failed, refused,
  retry, give_up, after, observe, new_supervisor, History,
}
use thalovant_rust_sdk.Link.Reference.{IsOrdered, decide, after-observe}
use thalovant_rust_sdk.Link.Grace.{gives_up_iff, IsMonotone, RefusedAt}
use thalovant_rust_sdk.Link.Bounds.{validate_iff, wait_bounds}

default_IsOrdered : IsOrdered default_policy
default_IsOrdered = record { positive = omega arith; ordered = omega arith; in_range = omega arith }

-- Refused, dropped and refused again, after a failure; the newest first.
abbrev outage : History
outage =
    (refused, seconds 200)
    ∷ (dropped, seconds 150)
    ∷ (refused, seconds 100)
    ∷ (failed, seconds 50)
    ∷ []

after-observe_example :
    (after (observe (new_supervisor default_policy (seconds 300)) outage) refused (seconds 390)).1
    ≡ decide default_policy (seconds 300) outage refused (seconds 390)
after-observe_example =
    after-observe default_policy (seconds 300) outage refused (seconds 390) default_IsOrdered

fourth_wait :
    (after (observe (new_supervisor default_policy (seconds 300)) outage) refused (seconds 390)).1
    ≡ retry (seconds 80)
unfolding after observe new_supervisor thalovant_rust_sdk.Link.next_wait
fourth_wait = refl

outage-IsMonotone : IsMonotone (seconds 400) outage
outage-IsMonotone = ground arith

gives_up_iff_example :
    ((after (observe (new_supervisor default_policy (seconds 300)) outage) refused (seconds 400)).1
      ≡ give_up refused)
    ↔ ((t : ℕ) × RefusedAt t outage × (t + seconds 300 ≤ seconds 400))
gives_up_iff_example =
    gives_up_iff default_policy (seconds 300) outage (seconds 400) default_IsOrdered (omega arith)
      outage-IsMonotone

wait_bounds_example :
    (seconds 80 ≤ seconds 120)
    × (((LinkOutcome.refused ≡ dropped) × (seconds 80 ≡ 0)) ⊎ (seconds 10 ≤ seconds 80))
wait_bounds_example =
    wait_bounds default_policy (seconds 300) outage refused (seconds 390) (seconds 80)
      default_IsOrdered fourth_wait

validate_iff_example : (validate (λ _. true) default_policy ≡ some default_policy) ↔ (
    (default_policy ≡ default_policy)
    × (0 < seconds 10)
    × (seconds 10 ≤ seconds 120)
    × (0 < seconds 60)
    × (0 < seconds 5)
    × (true ≡ true))
validate_iff_example = validate_iff (λ _. true) default_policy default_policy

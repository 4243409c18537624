-- ===== src/Session/Invariant.antt =====
-- What holds of a hub session of src/session.rs between any two calls.
use thalovant_rust_sdk.Prelude.{
  ℕ, ◌≤◌, Bool, true, false, not, ◌&&◌, ◌||◌, Option, none, some, List, [], ◌∷◌, is_some, ◌==◌,
  if◌then◌else◌, ◌≡◌, refl, arith, ◌⊎◌, inl, inr,
}
use thalovant_rust_sdk.Link.{HubSessionPolicy, next_wait}
use thalovant_rust_sdk.Link.Reference.{IsOrdered}
use thalovant_rust_sdk.Errors.{ThalovantError, Result, ok, err}
use thalovant_rust_sdk.Session.{
  HubSession, World, Client, ◌>>=◌, session_closed, cleanup, drop_client, retire_client, back_off,
  begin_close, discard, hold_client, settle_client, take_client, establish, wrap_next, meanwhile,
  Outcome, refuse_client, kept_or_new,
}

abbrev pub contains : Client → List Client → Bool
contains c [] = false
contains c (d ∷ ds) = d == c || contains c ds

abbrev pub is_client : Client → Option Client → Bool
is_client c none = false
is_client c (some d) = d == c

-- The callbacks heard the changes one by one, beginning with up, and know the present state.
abbrev pub Toggles : Bool → List Bool → Type 0
Toggles up [] = up ≡ false
Toggles up (b ∷ bs) = (b ≡ up) × Toggles (not up) bs

-- No client that the factory made is lost: it is held, waits for its cleanup, or was closed.
abbrev pub tracked : HubSession → Client → Bool
tracked s c = is_client c s.client || is_client c s.retired || contains c s.shut

pub record Basics (s : HubSession) : Type 0 where
  pub ordered : IsOrdered s.policy
  pub flag : s.has_client ≡ is_some s.client
  pub apart : (is_some s.client && is_some s.retired) ≡ false
  pub relayed : s.relay ≡ (if is_some s.client then some s.generation else none)
  pub silent : s.sender ≡ not s.closed
  pub heard : Toggles s.has_client s.announced
  pub at_least : s.policy.retry ≤ s.retry_wait
  pub at_most : s.retry_wait ≤ s.policy.retry_ceiling

abbrev pub Ledger : HubSession → Type 0
Ledger s = (c : Client) → contains c s.built ≡ true → tracked s c ≡ true

pub record Inv (s : HubSession) : Type 0 where
  pub basics : Basics s
  pub open basics use *
  pub ledger : Ledger s

next_wait_bounds :
    (p : HubSessionPolicy) (t : ℕ)
    → IsOrdered p
    → p.retry ≤ t
    → (p.retry ≤ next_wait p t) × (next_wait p t ≤ p.retry_ceiling)
unfolding next_wait
next_wait_bounds p t v h = omega (arith, v.ordered, v.in_range)

pub Result-cases {ℓ} :
    {A : Type ℓ} (r : Result A) → ((a : A) × (r ≡ ok a)) ⊎ ((e : ThalovantError) × (r ≡ err e))
Result-cases (ok a) = inl (a, refl)
Result-cases (err e) = inr (e, refl)

cleanup-Inv : (w : World) (s : HubSession) → Inv s → Inv (cleanup w s).0
unfolding cleanup
cleanup-Inv w s v = record {
  basics = ground (arith, v.basics);
  ledger = λ c e. ground (arith, v.ledger c);
}

-- After a cleanup that succeeds no client waits for one.
pub cleanup_clears :
    (w : World) (s : HubSession) → (cleanup w s).1 ≡ ok tt → (cleanup w s).0.retired ≡ none
unfolding cleanup
cleanup_clears w s e = ground arith

pub cleanup_keeps :
    (w : World) (s : HubSession)
    → ((cleanup w s).0.client ≡ s.client)
      × ((cleanup w s).0.closed ≡ s.closed)
      × ((cleanup w s).0.built ≡ s.built)
unfolding cleanup
cleanup_keeps w s = ground arith

-- The client is taken out before the cleanup, so the invariant holds when that begins.
retire_client-Inv :
    (s : HubSession)
    → Inv s
    → Inv (retire_client (record s { generation = wrap_next s.generation; relay = none }) s.client)
retire_client-Inv s v = record {
  basics = ground (arith, v.basics);
  ledger = λ c e. ground (arith, v.ledger c);
}

pub drop_client-Inv : (w : World) (s : HubSession) → Inv s → Inv (drop_client w s).0
unfolding drop_client
drop_client-Inv w s v = cleanup-Inv w _ (retire_client-Inv s v)

pub drop_client_clears : (w : World) (s : HubSession) → (drop_client w s).0.client ≡ none
unfolding drop_client
drop_client_clears w s = ground (arith, cleanup_keeps w _)

back_off-Inv : (w : World) (s : HubSession) → Inv s → Inv (back_off w s)
unfolding back_off
back_off-Inv w s v = record {
  basics = ground (arith, v.basics, next_wait_bounds s.policy s.retry_wait);
  ledger = v.ledger;
}

pub begin_close-Inv : (s : HubSession) → Inv s → Inv (begin_close s)
unfolding begin_close
begin_close-Inv s v = record { basics = ground (arith, v.basics); ledger = v.ledger }

meanwhile-Inv : (b : Bool) (s : HubSession) → Inv s → Inv (meanwhile b s)
meanwhile-Inv true s v = begin_close-Inv s v
meanwhile-Inv false s v = v

-- Nothing is held and nothing waits for a cleanup: what `establish` makes sure of.
pub record IsClear (s : HubSession) : Type 0 where
  pub no_client : s.client ≡ none
  pub no_retired : s.retired ≡ none

-- A client that the factory has just returned, and that stands nowhere yet.
abbrev built_with : HubSession → Client → HubSession
built_with s c = record s { built = c ∷ s.built }

discard-Inv :
    (w : World) (s : HubSession) (c : Client)
    → Inv s
    → IsClear s
    → Inv (discard w (built_with s c) c).0
unfolding discard
discard-Inv w s c v k =
    cleanup-Inv w (record (built_with s c) { retired = some c })
      (record {
        basics = ground (arith, v.basics, k);
        ledger = λ d e. ground (arith, v.ledger d, k);
      })

hold_client-Inv :
    (s : HubSession) (c : Client) → Inv s → IsClear s → Inv (hold_client (built_with s c) c)
unfolding hold_client
hold_client-Inv s c v k = record {
  basics = ground (arith, v.basics, v.basics.ordered, k);
  ledger = λ d e. ground (arith, v.ledger d, k);
}

begin_close-IsClear : (s : HubSession) → IsClear s → IsClear (begin_close s)
unfolding begin_close
begin_close-IsClear s k = record { no_client = k.no_client; no_retired = k.no_retired }

-- An invariant of what either branch, or either step, leaves.
pub Inv-if :
    {A : Type 0} (b : Bool) (x y : Outcome A) → Inv x.0 → Inv y.0 → Inv (if b then x else y).0
Inv-if true x y v u = v
Inv-if false x y v u = u

pub Inv-then :
    {A B : Type 0} (x : Outcome A) (k : HubSession → A → Outcome B)
    → Inv x.0
    → ((a : A) → x.1 ≡ ok a → Inv (k x.0 a).0)
    → Inv (x >>= k).0
Inv-then (s, ok a) k v f = f a refl
Inv-then (s, err e) k v f = v

refuse_client-Inv :
    (w : World) (s : HubSession) (c : Client)
    → Inv s
    → IsClear s
    → Inv (refuse_client w (built_with s c) c).0
unfolding refuse_client
refuse_client-Inv w s c v k =
    Inv-then {B = Client} (discard w (built_with s c) c) (λ u _. (u, err session_closed))
      (discard-Inv w s c v k) (λ _ _. discard-Inv w s c v k)

settled-Inv :
    (w : World) (s : HubSession) (c : Client)
    → Inv s
    → IsClear s
    → Inv
        (if s.closed
          then refuse_client w (built_with s c) c
          else (hold_client (built_with s c) c, ok c)).0
settled-Inv w s c v k =
    Inv-if s.closed (refuse_client w (built_with s c) c) (hold_client (built_with s c) c, ok c)
      (refuse_client-Inv w s c v k) (hold_client-Inv s c v k)

settle_client-Inv :
    (w : World) (settle : Bool) (s : HubSession) (c : Client) (failed : Option ThalovantError)
    → Inv s
    → IsClear s
    → Inv (settle_client w settle (built_with s c) c failed).0
unfolding settle_client
settle_client-Inv w false s c failed v k = hold_client-Inv s c v k
settle_client-Inv w true s c (some e) v k =
    back_off-Inv w (discard w (meanwhile w.closed_settling (built_with s c)) c).0
      (elim w.closed_settling as (λ b. Inv (discard w (meanwhile b (built_with s c)) c).0) [
        | true ↦ discard-Inv w (begin_close s) c (begin_close-Inv s v) (begin_close-IsClear s k)
        | false ↦ discard-Inv w s c v k
      ])
settle_client-Inv w true s c none v k =
    elim w.closed_settling
      as (λ b.
        Inv
          (if (meanwhile b (built_with s c)).closed
            then refuse_client w (meanwhile b (built_with s c)) c
            else (hold_client (meanwhile b (built_with s c)) c, ok c)).0) [
              | true ↦
                  settled-Inv w (begin_close s) c (begin_close-Inv s v) (begin_close-IsClear s k)
              | false ↦ settled-Inv w s c v k
            ]

taken-Inv :
    (w : World) (settle : Bool) (s : HubSession) (c : Client) (failed : Option ThalovantError)
    → Inv s
    → IsClear s
    → Inv
        (if s.closed
          then refuse_client w (built_with s c) c
          else settle_client w settle (built_with s c) c failed).0
taken-Inv w settle s c failed v k =
    Inv-if s.closed (refuse_client w (built_with s c) c)
      (settle_client w settle (built_with s c) c failed) (refuse_client-Inv w s c v k)
      (settle_client-Inv w settle s c failed v k)

take_client-Inv :
    (w : World) (settle : Bool) (s : HubSession) (r : Result Client)
    → Inv s
    → IsClear s
    → Inv (take_client w settle s r).0
unfolding take_client begin_close
take_client-Inv w settle s (err e) v k = back_off-Inv w _ (meanwhile-Inv w.closed_connecting s v)
take_client-Inv w settle s (ok c) v k =
    elim w.closed_connecting
      as (λ b.
        Inv
          (let t = record (meanwhile b s) { built = c ∷ s.built } in
            if t.closed
            then refuse_client w t c
            else settle_client w settle t c (if t.settle == 0 then none else w.settled c)).0) [
              | true ↦
                  taken-Inv w settle (begin_close s) c (if s.settle == 0 then none else w.settled c)
                    (begin_close-Inv s v) (begin_close-IsClear s k)
              | false ↦ taken-Inv w settle s c (if s.settle == 0 then none else w.settled c) v k
            ]

kept_or_new-Inv :
    (w : World) (settle : Bool) (s : HubSession) (held : Option Client)
    → s.client ≡ held
    → Inv s
    → s.retired ≡ none
    → Inv (kept_or_new w settle s held).0
kept_or_new-Inv w settle s (some c) _ v _ = v
kept_or_new-Inv w settle s none e v r =
    take_client-Inv w settle s w.connect v (record { no_client = e; no_retired = r })

pub establish-Inv :
    (w : World) (settle : Bool) (s : HubSession) → Inv s → Inv (establish w settle s).0
unfolding establish
establish-Inv w settle s v =
    Inv-if s.closed (s, err session_closed) (cleanup w s >>= λ t _. kept_or_new w settle t t.client)
      v
      (Inv-then (cleanup w s) (λ t _. kept_or_new w settle t t.client) (cleanup-Inv w s v)
        (λ _ good. kept_or_new-Inv w settle _ _ refl (cleanup-Inv w s v) (cleanup_clears w s good)))

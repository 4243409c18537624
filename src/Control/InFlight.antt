-- ===== src/Control/InFlight.antt =====
-- The replies and sends under way of src/transport.rs, and whose refusal a refusal without an id is.
use Prim.Native.String.{String}
use thalovant_rust_sdk.Prelude.{
  ℕ, suc, ◌-◌, ◌≤◌, Bool, true, false, none, some, List, [], ◌∷◌, length, drop, length-drop, ltb,
  ◌≡◌, ◌↔◌, refl, sym, ap, ◌∙◌, arith, All, if◌then◌else◌, Bool-cases, inl, inr,
}
use thalovant_rust_sdk.Refusal.{own_id, refusal_belongs_to_ask, event_recognizer_loop_utterance}
use thalovant_rust_sdk.Refusal.Counts.{belongs_iff}
use thalovant_rust_sdk.Control.{
  ConnectionControl, is_old, drop_old, drop_excess, prune_untracked_sends, count_queries,
  utterances_in_flight,
}

-- Instants in the order of a clock.
abbrev pub Ascending : List ℕ → Type 0
Ascending [] = Unit
Ascending (x ∷ xs) = All (λ y. x ≤ y) xs × Ascending xs

unfoldable pub recent : ℕ → List ℕ → List ℕ
recent now [] = []
recent now (x ∷ xs) = let rest = recent now xs in if is_old now x then rest else x ∷ rest

abbrev pub newest : List ℕ → List ℕ
newest xs = drop (length xs - 1024) xs

later_recent :
    (now x : ℕ) (xs : List ℕ) → is_old now x ≡ false → All (λ y. x ≤ y) xs → recent now xs ≡ xs
unfolding recent
later_recent now x [] f a = refl
later_recent now x (y ∷ ys) f a =
    let fresh : is_old now y ≡ false = ground (arith, f, a.0) in
    rw (fresh, later_recent now x ys f a.1)

drop_old-recent : (now : ℕ) (xs : List ℕ) → Ascending xs → drop_old now xs ≡ recent now xs
unfolding drop_old recent
drop_old-recent now [] a = refl
drop_old-recent now (x ∷ xs) a = elim (Bool-cases (is_old now x)) [
  | inl old ↦ rw old (drop_old-recent now xs a.1)
  | inr fresh ↦ rw (fresh, later_recent now x xs fresh a.0)
]

drop_excess-newest : (xs : List ℕ) → drop_excess xs ≡ newest xs
unfolding drop_excess
drop_excess-newest [] = refl
drop_excess-newest (x ∷ xs) = elim (Bool-cases (ltb 1024 (suc (length xs)))) [
  | inl many ↦
      (let e : suc (length xs) - 1024 ≡ suc (length xs - 1024) = ground (arith, many) in
        rw (many, e) (drop_excess-newest xs))
  | inr few ↦ (let e : suc (length xs) - 1024 ≡ 0 = ground (arith, few) in rw (few, e))
]

-- Of instants in the order of a clock, those that are left are the newest 1024 of those within the
-- grace.
pub prune_lem :
    (now : ℕ) (sends : List ℕ)
    → Ascending sends
    → prune_untracked_sends now sends ≡ newest (recent now sends)
unfolding prune_untracked_sends
prune_lem now sends a =
    ap drop_excess (drop_old-recent now sends a) ∙ drop_excess-newest (recent now sends)

no_recent : (now : ℕ) (xs : List ℕ) → length (recent now xs) ≡ 0 → All (λ x. is_old now x ≡ true) xs
unfolding recent
no_recent now [] e = tt
no_recent now (x ∷ xs) e = elim (Bool-cases (is_old now x)) [
  | inl old ↦ (old, no_recent now xs (rw old at e))
  | inr fresh ↦ absurd (more (length (recent now xs)) (rw fresh at e))
]
  where
    more : (n : ℕ) → suc n ≡ 0 → ⊥
    more n e = omega (arith, e)

none_recent : (now : ℕ) (xs : List ℕ) → All (λ x. is_old now x ≡ true) xs → recent now xs ≡ []
unfolding recent
none_recent now [] a = refl
none_recent now (x ∷ xs) a = rw a.0 (none_recent now xs a.1)

left_none :
    (now : ℕ) (sends : List ℕ)
    → Ascending sends
    → length (prune_untracked_sends now sends) ≡ 0
    → length (recent now sends) ≡ 0
left_none now sends a e =
    let r = recent now sends in
    let n : length (newest r) ≡ 0 = sym (ap length (prune_lem now sends a)) ∙ e in
    omega (arith, length-drop (length r - 1024) r, n)

one_ask :
    (active : List (Bool × String))
    → length active - count_queries active ≡ 1
    → count_queries active ≡ 0
    → (id : String) × (active ≡ (false, id) ∷ [])
unfolding count_queries
one_ask [] e q = absurd (omega (arith, e))
one_ask ((true, id) ∷ active) e q = absurd (omega (arith, q))
one_ask ((false, id) ∷ []) e q = (id, refl)
one_ask ((false, id) ∷ (k ∷ active)) e q = absurd (omega (arith, e, q))

lone_ask :
    (active : List (Bool × String)) (id : String)
    → active ≡ (false, id) ∷ []
    → (length active - count_queries active ≡ 1) × (count_queries active ≡ 0)
unfolding count_queries
lone_ask active id e = rw e (refl, refl)

no_id : (id : String) → own_id none ≡ some id → ⊥
no_id id e = cc

abbrev pub takes_refusal : ℕ → String → ConnectionControl → Bool
takes_refusal now own c =
    let x = utterances_in_flight now c in
    refusal_belongs_to_ask none own (some event_recognizer_loop_utterance) x.1.0 x.1.1 x.1.2

-- A refusal of an utterance that carries no id is an ask's exactly when one reply is awaited, an
-- ask's, and every utterance that was sent without waiting is older than the grace, where the sends
-- are in the order of a clock.
pub alone_iff :
    (now : ℕ) (own : String) (c : ConnectionControl)
    → Ascending c.untracked_sends
    → (takes_refusal now own c ≡ true) ↔ (
        ((id : String) × (c.active_replies ≡ (false, id) ∷ []))
        × All (λ sent. is_old now sent ≡ true) c.untracked_sends)
unfolding utterances_in_flight
alone_iff now own c a =
    let sends = prune_untracked_sends now c.untracked_sends in
    let queries = count_queries c.active_replies in
    let iff =
      belongs_iff none own (some event_recognizer_loop_utterance)
        (length c.active_replies - queries) queries (length sends) in
    (
      λ t. elim (iff.0 t) [
        | inl (id, e, s) ↦ absurd (no_id id e)
        | inr (u, v, one, q, s) ↦ (
          one_ask c.active_replies one q,
          no_recent now c.untracked_sends (left_none now c.untracked_sends a s),
        )
      ],
      λ x.
          let one = lone_ask c.active_replies x.0.0 x.0.1 in
          iff.1 (
            inr (
              refl,
              refl,
              one.0,
              one.1,
              ap length (
                  prune_lem now c.untracked_sends a
                  ∙ ap newest (none_recent now c.untracked_sends x.1)),
            )),
    )

-- ===== src/Conversations/Fuel.antt =====
-- The loop of src/client.rs that takes over the ids of a conversation, and its fuel.
use Prim.Native.String.{String}
use text.Mathlib.Text.{◌==◌ as str_eq}
use thalovant_rust_sdk.Prelude.{
  ℕ, zero, suc, ◌+◌, ◌≤◌, ◌<◌, Bool, true, false, Option, none, some, List, [], ◌∷◌, ◌++◌, length,
  length-append, ◌≡◌, refl, ap, arith, if◌then◌else◌, Bool-cases, inl, inr, ◌∙◌, sym, subst,
}
use thalovant_rust_sdk.Conversations.{
  ConversationEntry, ConversationStore, find_entry, remove_entry, contains_id, absorb, absorbed,
  take_over, total_aliases,
}
use thalovant_rust_sdk.Conversations.Absent.{
  Absent, removed, Absent-remove_entry, Absent-push, append_nil, append_assoc, absorbed-Goes,
}

fewer_aliases :
    (id : String) (s : ConversationStore) → total_aliases (remove_entry id s) ≤ total_aliases s
unfolding remove_entry total_aliases
fewer_aliases id [] = omega arith
fewer_aliases id ((k, e) ∷ s) = ground (arith, fewer_aliases id s)

group_gone :
    (id : String) (s : ConversationStore) (e : ConversationEntry)
    → find_entry id s ≡ some e
    → length e.group + total_aliases (remove_entry id s) ≤ total_aliases s
unfolding find_entry remove_entry total_aliases
group_gone id [] e f = absurd (cc)
group_gone id ((k, d) ∷ s) e f = elim (Bool-cases (str_eq k id)) [
  | inl same ↦
      (let is : length d.group ≡ length e.group =
          ap (λ x. length x.group) (entry_same d e (rw same at f)) in
        rw same (omega (arith, is, fewer_aliases id s)))
  | inr apart ↦ rw apart (omega (arith, group_gone id s e (rw apart at f)))
]
  where
    entry_same : (a b : ConversationEntry) → some a ≡ some b → a ≡ b
    entry_same a b p = cc

abbrev measure : List String × ConversationStore → ℕ
measure x = length x.0 + total_aliases x.1

one_longer :
    (b : Bool) (id : String) (todo : List String)
    → length (if b then todo else todo ++ (id ∷ [])) ≤ suc (length todo)
one_longer true id todo = omega arith
one_longer false id todo = omega (arith, length-append todo (id ∷ []))

absorb-bound :
    (before todo group : List String) (s : ConversationStore)
    → measure (absorb before todo group s) ≤ length todo + length group + total_aliases s
unfolding absorb
absorb-bound before todo [] s = omega arith
absorb-bound before todo (id ∷ group) s =
    let more = if contains_id id (before ++ todo) then todo else todo ++ (id ∷ []) in
    omega (
      arith,
      absorb-bound before more group (remove_entry id s),
      one_longer (contains_id id (before ++ todo)) id todo,
      fewer_aliases id s,
    )

absorbed-bound :
    (before todo : List String) (key : String) (s : ConversationStore)
    (o : Option ConversationEntry)
    → find_entry key s ≡ o
    → measure (absorbed before todo (remove_entry key s) o) ≤ length todo + total_aliases s
absorbed-bound before todo key s none f = omega (arith, fewer_aliases key s)
absorbed-bound before todo key s (some e) f =
    omega (arith, absorb-bound before todo e.group (remove_entry key s), group_gone key s e f)

-- A further round changes nothing.
one_more_round :
    (n : ℕ) (before todo : List String) (s : ConversationStore)
    → length todo + total_aliases s < n
    → take_over (suc n) before todo s ≡ take_over n before todo s
unfolding take_over
one_more_round zero before todo s h = absurd (omega (arith, h))
one_more_round (suc n) before [] s h = refl
one_more_round (suc n) before (key ∷ todo) s h =
    let b = before ++ (key ∷ []) in
    let x = absorbed b todo (remove_entry key s) (find_entry key s) in
    one_more_round n b x.0 x.1
      (omega (arith, absorbed-bound b todo key s (find_entry key s) refl, h))

-- A loop that ended: its ids begin with those it was given, in their order, and what it left has no
-- entry under any of them.
pub data Ended (given : List String) : Option (List String × ConversationStore) → Type 0 where
  ended :
      (inherited : List String) (left : ConversationStore)
      → Absent left (given ++ inherited)
      → Ended given (some (given ++ inherited, left))

Ended-eq :
    (xs ys inherited : List String) (o : Option (List String × ConversationStore))
    → xs ≡ ys ++ inherited
    → Ended xs o
    → Ended ys o
Ended-eq xs ys inherited _ e (ended more left v) =
    let is : xs ++ more ≡ ys ++ (inherited ++ more) =
      ap (λ zs. zs ++ more) e ∙ append_assoc ys inherited more in
    rw is (ended (inherited ++ more) left (rw is at v))

take_over-Ended :
    (n : ℕ) (before todo : List String) (s : ConversationStore)
    → length todo + total_aliases s < n
    → Absent s before
    → Ended (before ++ todo) (take_over n before todo s)
unfolding take_over
take_over-Ended zero before todo s h v = absurd (omega (arith, h))
take_over-Ended (suc n) before [] s h v =
    let is = append_nil before in
    let here : Ended before (some (before ++ [], s)) =
      ended [] s (subst (λ zs. Absent s zs) is v) in
    subst (λ zs. Ended zs (some (before, s))) is
      (subst (λ zs. Ended before (some (zs, s))) (sym is) here)
take_over-Ended (suc n) before (key ∷ todo) s h v =
    let b = before ++ (key ∷ []) in
    let gone =
      Absent-push before key (remove_entry key s) (Absent-remove_entry before key s v)
        (removed key s) in
    let x = absorbed b todo (remove_entry key s) (find_entry key s) in
    let g = absorbed-Goes b b todo (remove_entry key s) (find_entry key s) gone in
    let bound : length x.0 + total_aliases x.1 < n =
      omega (arith, absorbed-bound b todo key s (find_entry key s) refl, h) in
    Ended-eq (b ++ x.0) (before ++ (key ∷ todo)) g.more _
      (ap (λ zs. b ++ zs) g.behind
        ∙ append_assoc before (key ∷ []) (todo ++ g.more)
        ∙ sym (append_assoc before (key ∷ todo) g.more))
      (take_over-Ended n b x.0 x.1 bound g.still_absent)

-- With a round for every id to look at, for every alias of the remembered conversations and for the
-- test that ends it, the loop ends, and a further round would change nothing. It gives back the ids
-- that it was given, in their order, with the ones it inherited behind them, and leaves no entry
-- under any of these.
pub take_over_enough :
    (n : ℕ) (keys : List String) (s : ConversationStore)
    → length keys + total_aliases s < n
    → Ended keys (take_over n [] keys s) × (take_over (suc n) [] keys s ≡ take_over n [] keys s)
take_over_enough n keys s h = (take_over-Ended n [] keys s h tt, one_more_round n [] keys s h)

-- ===== src/Conversations/Evicting.antt =====
-- The eviction of src/client.rs, round by round.
use Prim.Native.String.{String}
use text.Mathlib.Text.{◌==◌ as str_eq}
use text.Mathlib.TextEquality.{eq_iff}
use thalovant_rust_sdk.Prelude.{
  ℕ, zero, suc, ◌≤◌, ◌<◌, true, false, Option, none, some, List, [], ◌∷◌, length, ltb, leb, ◌≡◌,
  refl, sym, ap, ◌∙◌, subst, arith, is_some, Bool-cases, inl, inr,
}
use thalovant_rust_sdk.Trust.Assoc.{str_eq_self}
use thalovant_rust_sdk.Conversations.{
  ConversationEntry, ConversationStore, find_entry, remove_entry, remove_all, contains_id,
  distinct_conversations, older, oldest, evict,
}
use thalovant_rust_sdk.Conversations.Filing.{Fits, AllFit, remove_all-AllFit}

remove-shorter : (id : String) (s : ConversationStore) → length (remove_entry id s) ≤ length s
unfolding remove_entry
remove-shorter id [] = omega arith
remove-shorter id ((k, e) ∷ s) = ground (arith, remove-shorter id s)

remove_all-shorter :
    (ids : List String) (s : ConversationStore) → length (remove_all ids s) ≤ length s
unfolding remove_all
remove_all-shorter [] s = omega arith
remove_all-shorter (id ∷ ids) s =
    omega (arith, remove_all-shorter ids (remove_entry id s), remove-shorter id s)

found_shorter :
    (id : String) (s : ConversationStore)
    → is_some (find_entry id s) ≡ true
    → length (remove_entry id s) < length s
unfolding find_entry remove_entry
found_shorter id [] f = absurd (cc)
found_shorter id ((k, e) ∷ s) f = elim (Bool-cases (str_eq k id)) [
  | inl same ↦ rw same (omega (arith, remove-shorter id s))
  | inr apart ↦ rw apart (omega (arith, found_shorter id s (rw apart at f)))
]

still_found :
    (id key : String) (s : ConversationStore)
    → str_eq id key ≡ false
    → is_some (find_entry key s) ≡ true
    → is_some (find_entry key (remove_entry id s)) ≡ true
unfolding find_entry remove_entry
still_found id key [] d f = absurd (cc)
still_found id key ((k, e) ∷ s) d f = elim (Bool-cases (str_eq k id)) [
  | inl same ↦
      (let is : k ≡ id = (eq_iff k id).0 same in
        let apart : str_eq k key ≡ false = ap (λ x. str_eq x key) is ∙ d in
        rw same (still_found id key s d (rw apart at f)))
  | inr other ↦ elim (Bool-cases (str_eq k key)) [
    | inl here ↦ rw (other, here) refl
    | inr apart ↦ rw (other, apart) (still_found id key s d (rw apart at f))
  ]
]

group_shorter :
    (ids : List String) (key : String) (s : ConversationStore)
    → contains_id key ids ≡ true
    → is_some (find_entry key s) ≡ true
    → length (remove_all ids s) < length s
unfolding remove_all contains_id
group_shorter [] key s c f = absurd (cc)
group_shorter (id ∷ ids) key s c f = elim (Bool-cases (str_eq id key)) [
  | inl same ↦
      (let is : id ≡ key = (eq_iff id key).0 same in
        let shorter =
          found_shorter id s (subst (λ x. is_some (find_entry x s) ≡ true) (sym is) f) in
        omega (arith, remove_all-shorter ids (remove_entry id s), shorter))
  | inr apart ↦ omega (
    arith,
    group_shorter ids key (remove_entry id s) (rw apart at c) (still_found id key s apart f),
    remove-shorter id s,
  )
]

record Listed (s : ConversationStore) (e : ConversationEntry) : Type 0 where
  key : String
  in_group : contains_id key e.group ≡ true
  is_found : is_some (find_entry key s) ≡ true

entry_same : (a b : ConversationEntry) → some a ≡ some b → a ≡ b
entry_same a b e = cc

head_found :
    (k : String) (e : ConversationEntry) (s : ConversationStore)
    → is_some (find_entry k ((k, e) ∷ s)) ≡ true
unfolding find_entry
head_found k e s = rw (str_eq_self k)

tail_found :
    (k key : String) (e : ConversationEntry) (s : ConversationStore)
    → is_some (find_entry key s) ≡ true
    → is_some (find_entry key ((k, e) ∷ s)) ≡ true
unfolding find_entry
tail_found k key e s f = elim (Bool-cases (str_eq k key)) [
  | inl here ↦ rw here
  | inr apart ↦ rw apart f
]

older-Listed :
    (l : List ℕ) (k : String) (e0 e : ConversationEntry) (s : ConversationStore)
    (o : Option ConversationEntry)
    → Fits l (k, e0)
    → ((d : ConversationEntry) → o ≡ some d → Listed s d)
    → some (older e0 o) ≡ some e
    → Listed ((k, e0) ∷ s) e
older-Listed l k e0 e s none fit below p =
    subst (λ x. Listed ((k, e0) ∷ s) x) (entry_same e0 e p)
      (record { key = k; in_group = fit.own; is_found = head_found k e0 s })
older-Listed l k e0 e s (some d) fit below p =
    subst (λ x. Listed ((k, e0) ∷ s) x) (entry_same (older e0 (some d)) e p)
      (elim (Bool-cases (leb e0.inserted d.inserted)) [
        | inl first ↦
            rw first (record { key = k; in_group = fit.own; is_found = head_found k e0 s })
        | inr later ↦
            (let x = below d refl in
              rw later (record {
                key = x.key;
                in_group = x.in_group;
                is_found = tail_found k x.key e0 s x.is_found;
              }))
      ])

oldest-Listed :
    (l : List ℕ) (s : ConversationStore) (e : ConversationEntry)
    → AllFit l s
    → oldest s ≡ some e
    → Listed s e
unfolding oldest
oldest-Listed l [] e a p = absurd (cc)
oldest-Listed l ((k, e0) ∷ s) e a p =
    older-Listed l k e0 e s (oldest s) a.0 (λ d q. oldest-Listed l s d a.1 q) p

pub evict-AllFit : (l : List ℕ) (n : ℕ) (s : ConversationStore) → AllFit l s → AllFit l (evict n s)
unfolding evict
evict-AllFit l zero s a = a
evict-AllFit l (suc n) [] a = tt
evict-AllFit l (suc n) ((k, e) ∷ s) a =
    elim (Bool-cases (ltb 32 (distinct_conversations ((k, e) ∷ s)))) [
      | inl many ↦
          rw many
            (evict-AllFit l n _ (remove_all-AllFit l (older e (oldest s)).group ((k, e) ∷ s) a))
      | inr few ↦ rw few a
    ]

none_left : distinct_conversations [] ≤ 32
unfolding distinct_conversations
none_left = omega arith

-- As many rounds as there are entries are enough.
pub evict_bound :
    (l : List ℕ) (n : ℕ) (s : ConversationStore)
    → AllFit l s
    → length s ≤ n
    → distinct_conversations (evict n s) ≤ 32
unfolding evict
evict_bound l zero [] a h = none_left
evict_bound l zero (x ∷ s) a h = absurd (omega (arith, h))
evict_bound l (suc n) [] a h = none_left
evict_bound l (suc n) ((k, e) ∷ s) a h =
    elim (Bool-cases (ltb 32 (distinct_conversations ((k, e) ∷ s)))) [
      | inl many ↦
          (let d = older e (oldest s) in
            let x = oldest-Listed l ((k, e) ∷ s) d a refl in
            let shorter = group_shorter d.group x.key ((k, e) ∷ s) x.in_group x.is_found in
            rw many (
              evict_bound l n _ (remove_all-AllFit l d.group ((k, e) ∷ s) a)
                (omega (arith, shorter, h))))
      | inr few ↦ rw few (ground (arith, few))
    ]

-- ===== src/Conversations/Filing.antt =====
-- The calls of src/client.rs on the remembered conversations, and their entries.
use Prim.Native.String.{String}
use text.Mathlib.Text.{◌==◌ as str_eq}
use thalovant_rust_sdk.Prelude.{
  ℕ, zero, suc, ◌≤◌, true, Option, none, some, List, [], ◌∷◌, ◌++◌, length, ◌≡◌, arith, All,
  if◌then◌else◌, Bool-cases, inl, inr,
}
use thalovant_rust_sdk.Trust.Assoc.{str_eq_self}
use thalovant_rust_sdk.Conversations.{
  ConversationEntry, ConversationStore, find_entry, remove_entry, remove_all, insert_all,
  contains_id, contains_number, absorb, absorbed, take_over,
}

-- An entry stands under an id of its own group, which is small, and is one of the conversations
-- that are counted.
pub record Fits (l : List ℕ) (x : String × ConversationEntry) : Type 0 where
  pub own : contains_id x.0 x.1.group ≡ true
  pub small : length x.1.group ≤ 8
  pub counted : contains_number x.1.inserted l ≡ true

abbrev pub AllFit : List ℕ → ConversationStore → Type 0
AllFit l s = All (λ x. Fits l x) s

pub remove-AllFit :
    (l : List ℕ) (id : String) (s : ConversationStore) → AllFit l s → AllFit l (remove_entry id s)
unfolding remove_entry
remove-AllFit l id [] a = tt
remove-AllFit l id ((k, e) ∷ s) a = elim (Bool-cases (str_eq k id)) [
  | inl same ↦ rw same (remove-AllFit l id s a.1)
  | inr apart ↦ rw apart (a.0, remove-AllFit l id s a.1)
]

pub remove_all-AllFit :
    (l : List ℕ) (ids : List String) (s : ConversationStore)
    → AllFit l s
    → AllFit l (remove_all ids s)
unfolding remove_all
remove_all-AllFit l [] s a = a
remove_all-AllFit l (id ∷ ids) s a =
    remove_all-AllFit l ids (remove_entry id s) (remove-AllFit l id s a)

pub absorb-AllFit :
    (l : List ℕ) (before todo group : List String) (s : ConversationStore)
    → AllFit l s
    → AllFit l (absorb before todo group s).1
unfolding absorb
absorb-AllFit l before todo [] s a = a
absorb-AllFit l before todo (sibling ∷ group) s a =
    absorb-AllFit l before
      (if contains_id sibling (before ++ todo) then todo else todo ++ (sibling ∷ [])) group
      (remove_entry sibling s) (remove-AllFit l sibling s a)

pub absorbed-AllFit :
    (l : List ℕ) (before todo : List String) (s : ConversationStore) (e : Option ConversationEntry)
    → AllFit l s
    → AllFit l (absorbed before todo s e).1
absorbed-AllFit l before todo s none a = a
absorbed-AllFit l before todo s (some e) a = absorb-AllFit l before todo e.group s a

-- The loop is still going, or left a store that fits.
abbrev pub LeftFit : List ℕ → Option (List String × ConversationStore) → Type 0
LeftFit l none = Unit
LeftFit l (some x) = AllFit l x.1

pub take_over-LeftFit :
    (l : List ℕ) (n : ℕ) (before todo : List String) (s : ConversationStore)
    → AllFit l s
    → LeftFit l (take_over n before todo s)
unfolding take_over
take_over-LeftFit l zero before todo s a = tt
take_over-LeftFit l (suc n) before [] s a = a
take_over-LeftFit l (suc n) before (key ∷ todo) s a =
    let x = absorbed (before ++ (key ∷ [])) todo (remove_entry key s) (find_entry key s) in
    take_over-LeftFit l n (before ++ (key ∷ [])) x.0 x.1 (
      absorbed-AllFit l (before ++ (key ∷ [])) todo (remove_entry key s) (find_entry key s)
        (remove-AllFit l key s a))

pub insert_all-AllFit :
    (l : List ℕ) (ids : List String) (e : ConversationEntry) (s : ConversationStore)
    → All (λ id. contains_id id e.group ≡ true) ids
    → length e.group ≤ 8
    → contains_number e.inserted l ≡ true
    → AllFit l s
    → AllFit l (insert_all ids e s)
unfolding insert_all
insert_all-AllFit l [] e s o n c a = a
insert_all-AllFit l (id ∷ ids) e s o n c a =
    insert_all-AllFit l ids e ((id, e) ∷ remove_entry id s) o.1 n c
      (record { own = o.0; small = n; counted = c }, remove-AllFit l id s a)

also_in :
    (k : String) (ks ids : List String)
    → All (λ id. contains_id id ks ≡ true) ids
    → All (λ id. contains_id id (k ∷ ks) ≡ true) ids
unfolding contains_id
also_in k ks [] a = tt
also_in k ks (id ∷ ids) a = (ground (arith, a.0), also_in k ks ids a.1)

pub each_in : (ks : List String) → All (λ id. contains_id id ks ≡ true) ks
unfolding contains_id
each_in [] = tt
each_in (k ∷ ks) = (ground (arith, str_eq_self k), also_in k ks ks (each_in ks))

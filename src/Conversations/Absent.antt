-- ===== src/Conversations/Absent.antt =====
-- The ids that one round of the loop of src/client.rs adds, and the entries that it removes.
use Prim.Native.String.{String}
use text.Mathlib.Text.{◌==◌ as str_eq}
use thalovant_rust_sdk.Prelude.{
  Option, none, some, List, [], ◌∷◌, ◌++◌, ◌≡◌, refl, ap, arith, Bool-cases, inl, inr, All, ◌∙◌,
}
use thalovant_rust_sdk.Conversations.{
  ConversationEntry, ConversationStore, find_entry, remove_entry, contains_id, absorb, absorbed,
}

-- No entry stands under any of the ids.
abbrev pub Absent : ConversationStore → List String → Type 0
Absent s = All (λ id. find_entry id s ≡ none)

find_entry-remove_entry :
    (id k : String) (s : ConversationStore)
    → find_entry id s ≡ none
    → find_entry id (remove_entry k s) ≡ none
unfolding find_entry remove_entry
find_entry-remove_entry id k [] e = refl
find_entry-remove_entry id k ((j, d) ∷ s) e = elim (Bool-cases (str_eq j id)) [
  | inl same ↦ absurd (ground (arith, same, e))
  | inr apart ↦ ground (arith, apart, find_entry-remove_entry id k s)
]

pub removed : (id : String) (s : ConversationStore) → find_entry id (remove_entry id s) ≡ none
unfolding find_entry remove_entry
removed id [] = refl
removed id ((j, d) ∷ s) = ground (arith, removed id s)

pub Absent-remove_entry :
    (ids : List String) (k : String) (s : ConversationStore)
    → Absent s ids
    → Absent (remove_entry k s) ids
Absent-remove_entry [] k s v = tt
Absent-remove_entry (id ∷ ids) k s v =
    (find_entry-remove_entry id k s v.0, Absent-remove_entry ids k s v.1)

pub Absent-push :
    (ids : List String) (id : String) (s : ConversationStore)
    → Absent s ids
    → find_entry id s ≡ none
    → Absent s (ids ++ (id ∷ []))
Absent-push [] id s v e = (e, tt)
Absent-push (k ∷ ids) id s v e = (v.0, Absent-push ids id s v.1 e)

pub append_nil : (xs : List String) → xs ≡ xs ++ []
append_nil [] = refl
append_nil (x ∷ xs) = ap (λ r. x ∷ r) (append_nil xs)

pub append_assoc : (xs ys zs : List String) → (xs ++ ys) ++ zs ≡ xs ++ (ys ++ zs)
append_assoc [] ys zs = refl
append_assoc (x ∷ xs) ys zs = ap (λ r. x ∷ r) (append_assoc xs ys zs)

-- A round only adds ids behind those to look at, and brings no entry back.
pub record Goes (ids todo : List String) (x : List String × ConversationStore) : Type 0 where
  pub more : List String
  pub behind : x.0 ≡ todo ++ more
  pub still_absent : Absent x.1 ids

absorb-Goes :
    (ids before todo group : List String) (s : ConversationStore)
    → Absent s ids
    → Goes ids todo (absorb before todo group s)
unfolding absorb
absorb-Goes ids before todo [] s v = record {
  more = [];
  behind = append_nil todo;
  still_absent = v;
}
absorb-Goes ids before todo (id ∷ group) s v =
    let w = Absent-remove_entry ids id s v in
    elim (Bool-cases (contains_id id (before ++ todo))) [
      | inl known ↦ rw known (absorb-Goes ids before todo group (remove_entry id s) w)
      | inr fresh ↦ rw fresh (
          let g = absorb-Goes ids before (todo ++ (id ∷ [])) group (remove_entry id s) w in
          record {
            more = id ∷ g.more;
            behind = g.behind ∙ append_assoc todo (id ∷ []) g.more;
            still_absent = g.still_absent;
          })
    ]

pub absorbed-Goes :
    (ids before todo : List String) (s : ConversationStore) (o : Option ConversationEntry)
    → Absent s ids
    → Goes ids todo (absorbed before todo s o)
absorbed-Goes ids before todo s none v = record {
  more = [];
  behind = append_nil todo;
  still_absent = v;
}
absorbed-Goes ids before todo s (some e) v = absorb-Goes ids before todo e.group s v

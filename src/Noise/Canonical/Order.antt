-- ===== src/Noise/Canonical/Order.antt =====
-- The canonical text of src/noise.rs and the order in which a map iterates.
use Prim.Native.String.{String, ◌++◌}
use thalovant_rust_sdk.Prelude.{
  Bool, true, false, List, [], ◌∷◌, ◌≡◌, refl, arith, ap, ◌∙◌, sym, Bool-cases, inl, inr,
}
use thalovant_rust_sdk.Json.{Number, Value, object, Fields, end, field, array, Items, nil, cons}
use thalovant_rust_sdk.Noise.Canonical.{
  before, Entry, insert_entry, sort_entries, write_entries, canonical_json, write_items, comma,
  entries, build_prologue,
}

before_trans : (a b c : String) → before a b ≡ true → before b c ≡ true → before a c ≡ true
unfolding before
before_trans String.[] String.[] c h k = absurd (cc)
before_trans String.[] (String.◌∷◌ b t) String.[] h k = absurd (cc)
before_trans String.[] (String.◌∷◌ b t) (String.◌∷◌ c u) h k = refl
before_trans (String.◌∷◌ a s) String.[] c h k = absurd (cc)
before_trans (String.◌∷◌ a s) (String.◌∷◌ b t) String.[] h k = absurd (cc)
before_trans (String.◌∷◌ a s) (String.◌∷◌ b t) (String.◌∷◌ c u) h k =
    ground (arith, h, k, before_trans s t u)

before_not : (a b : String) → before a b ≡ true → before b a ≡ false
unfolding before
before_not String.[] String.[] h = refl
before_not String.[] (String.◌∷◌ b t) h = refl
before_not (String.◌∷◌ a s) String.[] h = absurd (cc)
before_not (String.◌∷◌ a s) (String.◌∷◌ b t) h = ground (arith, h, before_not s t)

-- Two entries with keys that differ may be inserted in either order.
insert_swap :
    (a b : Entry) (xs : List Entry)
    → before a.0 b.0 ≡ true
    → insert_entry a (insert_entry b xs) ≡ insert_entry b (insert_entry a xs)
unfolding insert_entry
insert_swap a b [] h = rw (h, before_not a.0 b.0 h)
insert_swap a b (x ∷ xs) h = elim (Bool-cases (before b.0 x.0)) [
  | inl below ↦ rw (below, h, before_trans a.0 b.0 x.0 h below, before_not a.0 b.0 h) (rw below)
  | inr above ↦ elim (Bool-cases (before a.0 x.0)) [
    | inl between ↦ rw (above, between, before_not a.0 b.0 h) (rw above)
    | inr over ↦ rw (above, over, above) (ap (λ ys. x ∷ ys) (insert_swap a b xs h))
  ]
]

-- Values that differ in nothing but the order of their maps' entries, at every depth.
mutual
  pub data SameValue : Value → Value → Type 0 where
    itself : (v : Value) → SameValue v v
    in_object : (fs gs : Fields) → SameFields fs gs → SameValue (object fs) (object gs)
    in_array : (xs ys : Items) → SameItems xs ys → SameValue (array xs) (array ys)

  pub data SameItems : Items → Items → Type 0 where
    no_items : SameItems nil nil
    next_item :
        (v w : Value) (xs ys : Items)
        → SameValue v w
        → SameItems xs ys
        → SameItems (cons v xs) (cons w ys)

  pub data SameFields : Fields → Fields → Type 0 where
    no_fields : SameFields end end
    next_field :
        (k : String) (v w : Value) (fs gs : Fields)
        → SameValue v w
        → SameFields fs gs
        → SameFields (field k v fs) (field k w gs)
    swapped :
        (k l : String) (v w : Value) (fs : Fields)
        → before k l ≡ true
        → SameFields (field k v (field l w fs)) (field l w (field k v fs))
    swapped_back :
        (k l : String) (v w : Value) (fs : Fields)
        → before l k ≡ true
        → SameFields (field k v (field l w fs)) (field l w (field k v fs))
    one_after_other : (fs gs hs : Fields) → SameFields fs gs → SameFields gs hs → SameFields fs hs

module _ (show : Number → String) where
  mutual
    unfolding canonical_json sort_entries

    same_text : (v w : Value) → SameValue v w → canonical_json show v ≡ canonical_json show w
    same_text _ _ (itself v) = refl
    same_text _ _ (in_object fs gs s) =
        ap (λ es. "{" ++ write_entries true es) (same_entries fs gs s)
    same_text _ _ (in_array xs ys s) = ap (λ t. "[" ++ t) (same_items true xs ys s)

    same_items :
        (first : Bool) (xs ys : Items)
        → SameItems xs ys
        → write_items show first xs ≡ write_items show first ys
    same_items first _ _ no_items = refl
    same_items first _ _ (next_item v w xs ys s t) =
        ap (λ x. comma first ++ (x ++ write_items show false xs)) (same_text v w s)
        ∙ ap (λ x. comma first ++ (canonical_json show w ++ x)) (same_items false xs ys t)

    same_entries :
        (fs gs : Fields)
        → SameFields fs gs
        → sort_entries (entries show fs) ≡ sort_entries (entries show gs)
    same_entries _ _ no_fields = refl
    same_entries _ _ (next_field k v w fs gs s t) =
        ap (λ x. insert_entry (k, x) (sort_entries (entries show fs))) (same_text v w s)
        ∙ ap (λ es. insert_entry (k, canonical_json show w) es) (same_entries fs gs t)
    same_entries _ _ (swapped k l v w fs h) =
        insert_swap (k, canonical_json show v) (l, canonical_json show w)
          (sort_entries (entries show fs)) h
    same_entries _ _ (swapped_back k l v w fs h) = sym (
        insert_swap (l, canonical_json show w) (k, canonical_json show v)
          (sort_entries (entries show fs)) h)
    same_entries _ _ (one_after_other fs gs hs s t) = same_entries fs gs s ∙ same_entries gs hs t

  -- Two peers whose maps hold the same entries, at every depth and in any order, make the same
  -- prologue.
  pub same_prologue :
      (hello hello' shake shake' : Fields) (name : String)
      → SameFields hello hello'
      → SameFields shake shake'
      → build_prologue show hello shake name ≡ build_prologue show hello' shake' name
  unfolding build_prologue
  same_prologue hello hello' shake shake' name h s =
      ap (λ x. x ++ (canonical_json show (object shake) ++ name))
        (same_text (object hello) (object hello') (in_object hello hello' h))
      ∙ ap (λ x. canonical_json show (object hello') ++ (x ++ name))
          (same_text (object shake) (object shake') (in_object shake shake' s))

-- ===== src/Redact/Hiding.antt =====
-- What src/redact.rs prints, and what it hides.
use Prim.Native.String.{String}
use thalovant_rust_sdk.Prelude.{
  Bool, true, false, ◌||◌, ◌≡◌, refl, ap, ◌∙◌, sym, Bool-cases, inl, inr, if◌then◌else◌,
}
use thalovant_rust_sdk.Json.{
  Value, null, bool, number, string, array, object, Items, nil, cons, Fields, end, field,
}
use text.Mathlib.Text.{◌==◌ as str_eq}
use thalovant_rust_sdk.Redact.{
  redacted, omitted, omit_input, omit_entries, omit_echoed_inputs, omit_detail, omit_list,
  is_hidden, is_identity_bundle, redact_value_scoped, redact_items, redact_map_scoped, redact_value,
}

-- Two values that differ, at any depth, in nothing but what stands under hidden keys. The scope is
-- whether they stand in an identity bundle.
mutual
  pub data Alike : Bool → Value → Value → Type 0 where
    itself : (b : Bool) (v : Value) → Alike b v v
    in_object : (b : Bool) (fs gs : Fields) → AlikeMap b fs gs → Alike b (object fs) (object gs)
    in_array : (b : Bool) (xs ys : Items) → AlikeItems b xs ys → Alike b (array xs) (array ys)

  pub data AlikeItems : Bool → Items → Items → Type 0 where
    no_items : (b : Bool) → AlikeItems b nil nil
    next_item :
        (b : Bool) (v w : Value) (xs ys : Items)
        → Alike b v w
        → AlikeItems b xs ys
        → AlikeItems b (cons v xs) (cons w ys)

  pub data AlikeMap : Bool → Fields → Fields → Type 0 where
    no_fields : (b : Bool) → AlikeMap b end end
    hidden :
        (b : Bool) (k : String) (v w : Value) (fs gs : Fields)
        → is_hidden b k ≡ true
        → AlikeMap b fs gs
        → AlikeMap b (field k v fs) (field k w gs)
    visible :
        (b : Bool) (k : String) (v w : Value) (fs gs : Fields)
        → Alike (b || is_identity_bundle k) v w
        → AlikeMap b fs gs
        → AlikeMap b (field k v fs) (field k w gs)

-- One entry as it is printed.
abbrev entry : Bool → String → Value → Fields → Fields
entry b k v rest = field k (if is_hidden b k then redacted else v) rest

mutual
  unfolding redact_value_scoped

  same_value :
      (b : Bool) (v w : Value) → Alike b v w → redact_value_scoped b v ≡ redact_value_scoped b w
  same_value _ _ _ (itself b v) = refl
  same_value _ _ _ (in_object b fs gs a) = ap object (same_map b fs gs a)
  same_value _ _ _ (in_array b xs ys a) = ap array (same_items b xs ys a)

  same_items :
      (b : Bool) (xs ys : Items) → AlikeItems b xs ys → redact_items b xs ≡ redact_items b ys
  same_items _ _ _ (no_items b) = refl
  same_items _ _ _ (next_item b v w xs ys a as') =
      ap (λ x. cons x (redact_items b xs)) (same_value b v w a)
      ∙ ap (λ r. cons (redact_value_scoped b w) r) (same_items b xs ys as')

  same_map :
      (b : Bool) (fs gs : Fields)
      → AlikeMap b fs gs
      → redact_map_scoped b fs ≡ redact_map_scoped b gs
  same_map _ _ _ (no_fields b) = refl
  same_map _ _ _ (hidden b k v w fs gs h a) =
      rw h (ap (λ r. field k redacted r) (same_map b fs gs a))
  same_map _ _ _ (visible b k v w fs gs a more) =
      ap (λ x. entry b k x (redact_map_scoped b fs)) (same_value (b || is_identity_bundle k) v w a)
      ∙ ap (λ r. entry b k (redact_value_scoped (b || is_identity_bundle k) w) r)
          (same_map b fs gs more)

-- Values that differ in nothing but what stands under secret keys, at any depth, are printed alike.
pub secrets_hidden : (v w : Value) → Alike false v w → redact_value v ≡ redact_value w
unfolding redact_value
secrets_hidden v w a = same_value false v w a

mutual
  unfolding redact_value_scoped

  value-Alike : (b : Bool) (v : Value) → Alike b v (redact_value_scoped b v)
  value-Alike b null = itself b null
  value-Alike b (bool x) = itself b (bool x)
  value-Alike b (number n) = itself b (number n)
  value-Alike b (string s) = itself b (string s)
  value-Alike b (array xs) = in_array b xs _ (items-Alike b xs)
  value-Alike b (object fs) = in_object b fs _ (map-Alike b fs)

  items-Alike : (b : Bool) (xs : Items) → AlikeItems b xs (redact_items b xs)
  items-Alike b nil = no_items b
  items-Alike b (cons x xs) = next_item b x _ xs _ (value-Alike b x) (items-Alike b xs)

  map-Alike : (b : Bool) (fs : Fields) → AlikeMap b fs (redact_map_scoped b fs)
  map-Alike b end = no_fields b
  map-Alike b (field k v fs) = elim (Bool-cases (is_hidden b k)) [
    | inl h ↦ hidden b k v _ fs _ h (map-Alike b fs)
    | inr shown ↦
        rw shown (visible b k v _ fs _ (value-Alike (b || is_identity_bundle k) v) (map-Alike b fs))
  ]

-- What is printed differs from the value in nothing but what stands under secret keys, and printing
-- it again changes nothing.
pub redact-Alike :
    (v : Value) → Alike false v (redact_value v) × (redact_value (redact_value v) ≡ redact_value v)
unfolding redact_value
redact-Alike v =
    let a = value-Alike false v in (a, sym (same_value false v (redact_value_scoped false v) a))

-- Error bodies that differ in nothing but the inputs that they echo.
mutual
  pub data AlikeBody : Fields → Fields → Type 0 where
    no_entries : AlikeBody end end
    in_detail :
        (v w : Value) (fs gs : Fields)
        → AlikeDetail v w
        → AlikeBody fs gs
        → AlikeBody (field "detail" v fs) (field "detail" w gs)
    in_errors :
        (xs ys : Items) (fs gs : Fields)
        → AlikeEntries xs ys
        → AlikeBody fs gs
        → AlikeBody (field "errors" (array xs) fs) (field "errors" (array ys) gs)
    same_entry :
        (k : String) (v : Value) (fs gs : Fields)
        → AlikeBody fs gs
        → AlikeBody (field k v fs) (field k v gs)

  pub data AlikeDetail : Value → Value → Type 0 where
    in_list : (xs ys : Items) → AlikeEntries xs ys → AlikeDetail (array xs) (array ys)
    nested : (fs gs : Fields) → AlikeBody fs gs → AlikeDetail (object fs) (object gs)
    same_value_of : (v : Value) → AlikeDetail v v

  pub data AlikeEntries : Items → Items → Type 0 where
    no_errors : AlikeEntries nil nil
    next_error :
        (fs gs : Fields) (xs ys : Items)
        → AlikeInput fs gs
        → AlikeEntries xs ys
        → AlikeEntries (cons (object fs) xs) (cons (object gs) ys)
    same_error :
        (v : Value) (xs ys : Items) → AlikeEntries xs ys → AlikeEntries (cons v xs) (cons v ys)

  pub data AlikeInput : Fields → Fields → Type 0 where
    same_input : AlikeInput end end
    input :
        (v w : Value) (fs gs : Fields)
        → AlikeInput fs gs
        → AlikeInput (field "input" v fs) (field "input" w gs)
    other :
        (k : String) (v : Value) (fs gs : Fields)
        → AlikeInput fs gs
        → AlikeInput (field k v fs) (field k v gs)

same_omitted : (fs gs : Fields) → AlikeInput fs gs → omit_input fs ≡ omit_input gs
unfolding omit_input
same_omitted _ _ same_input = refl
same_omitted _ _ (input v w fs gs a) = ap (λ r. field "input" omitted r) (same_omitted fs gs a)
same_omitted _ _ (other k v fs gs a) =
    ap (λ r. field k (if str_eq k "input" then omitted else v) r) (same_omitted fs gs a)

-- An entry of any kind, an object or not, is printed as itself alone tells.
same_head :
    (v : Value) (xs ys : Items)
    → omit_entries xs ≡ omit_entries ys
    → omit_entries (cons v xs) ≡ omit_entries (cons v ys)
unfolding omit_entries
same_head null xs ys e = ap (cons null) e
same_head (bool b) xs ys e = ap (cons (bool b)) e
same_head (number n) xs ys e = ap (cons (number n)) e
same_head (string s) xs ys e = ap (cons (string s)) e
same_head (array a) xs ys e = ap (cons (array a)) e
same_head (object fs) xs ys e = ap (cons (object (omit_input fs))) e

same_entries : (xs ys : Items) → AlikeEntries xs ys → omit_entries xs ≡ omit_entries ys
unfolding omit_entries
same_entries _ _ no_errors = refl
same_entries _ _ (next_error fs gs xs ys a more) =
    ap (λ x. cons (object x) (omit_entries xs)) (same_omitted fs gs a)
    ∙ ap (λ r. cons (object (omit_input gs)) r) (same_entries xs ys more)
same_entries _ _ (same_error v xs ys more) = same_head v xs ys (same_entries xs ys more)

abbrev under : String → Value → Value
under k v =
    if str_eq k "detail" then omit_detail v else if str_eq k "errors" then omit_list v else v

mutual
  unfolding omit_echoed_inputs omit_detail omit_list

  same_body : (fs gs : Fields) → AlikeBody fs gs → omit_echoed_inputs fs ≡ omit_echoed_inputs gs
  same_body _ _ no_entries = refl
  same_body _ _ (in_detail v w fs gs a more) =
      ap (λ x. field "detail" x (omit_echoed_inputs fs)) (same_detail v w a)
      ∙ ap (λ r. field "detail" (omit_detail w) r) (same_body fs gs more)
  same_body _ _ (in_errors xs ys fs gs a more) =
      ap (λ x. field "errors" (array x) (omit_echoed_inputs fs)) (same_entries xs ys a)
      ∙ ap (λ r. field "errors" (array (omit_entries ys)) r) (same_body fs gs more)
  same_body _ _ (same_entry k v fs gs more) = ap (λ r. field k (under k v) r) (same_body fs gs more)

  same_detail : (v w : Value) → AlikeDetail v w → omit_detail v ≡ omit_detail w
  same_detail _ _ (in_list xs ys a) = ap array (same_entries xs ys a)
  same_detail _ _ (nested fs gs a) = ap object (same_body fs gs a)
  same_detail _ _ (same_value_of v) = refl

-- Error bodies that differ in nothing but the inputs that their validation errors echo, in a list
-- of the details or of the errors or in a nested detail, are printed alike. A list may hold entries
-- that are no objects, before and between those that echo an input.
pub inputs_hidden :
    (fs gs : Fields) → AlikeBody fs gs → omit_echoed_inputs fs ≡ omit_echoed_inputs gs
inputs_hidden fs gs a = same_body fs gs a

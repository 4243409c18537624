-- ===== src/Trust/Assoc.antt =====
-- The maps of src/noise_store.rs: what an entry's insertion and removal leave of the others.
use Prim.Native.String.{String}
use text.Mathlib.Text.{◌==◌ as str_eq}
use text.Mathlib.TextEquality.{eq_iff}
use thalovant_rust_sdk.Prelude.{
  true, false, none, some, [], ◌∷◌, ◌≡◌, refl, sym, subst, ap, ◌∙◌, arith, Bool-cases, inl, inr,
}
use thalovant_rust_sdk.Trust.{Pins, get_pin, remove_pin, insert_pin, is_valid_pin, all_valid}

pub same_text : (a b : String) → str_eq a b ≡ true → a ≡ b
same_text a b = (eq_iff a b).0

-- Two texts that differ from one another are not both equal to a third.
pub apart : (a b c : String) → str_eq a c ≡ false → str_eq b a ≡ true → str_eq b c ≡ false
apart a b c d e = subst (λ x. str_eq x c ≡ false) (sym (same_text b a e)) d

pub get-remove :
    (node other : String) (pins : Pins)
    → str_eq node other ≡ false
    → get_pin other (remove_pin node pins) ≡ get_pin other pins
unfolding get_pin remove_pin
get-remove node other [] d = refl
get-remove node other ((k, v) ∷ pins) d = elim (Bool-cases (str_eq k node)) [
  | inl same ↦ rw (same, apart node k other d same) (get-remove node other pins d)
  | inr differs ↦ rw (differs, get-remove node other pins d) refl
]

pub get-insert :
    (node other key : String) (pins : Pins)
    → str_eq node other ≡ false
    → get_pin other (insert_pin node key pins) ≡ get_pin other pins
unfolding get_pin insert_pin
get-insert node other key pins d = rw d (get-remove node other pins d)

pub str_eq_self : (a : String) → str_eq a a ≡ true
str_eq_self a = (eq_iff a a).1 refl

pub get-inserted :
    (node key : String) (pins : Pins) → get_pin node (insert_pin node key pins) ≡ some key
unfolding get_pin insert_pin
get-inserted node key pins = rw (str_eq_self node)

pub all_valid-remove :
    (node : String) (pins : Pins) → all_valid pins ≡ true → all_valid (remove_pin node pins) ≡ true
unfolding all_valid remove_pin
all_valid-remove node [] v = refl
all_valid-remove node ((k, x) ∷ pins) v = ground (arith, v, all_valid-remove node pins)

pub all_valid-insert :
    (node key : String) (pins : Pins)
    → is_valid_pin node key ≡ true
    → all_valid pins ≡ true
    → all_valid (insert_pin node key pins) ≡ true
unfolding all_valid insert_pin
all_valid-insert node key pins i v = rw i (all_valid-remove node pins v)

-- What was looked up differently is not one key.
pub get_apart :
    (node other : String) (pins : Pins) (key : String)
    → get_pin node pins ≡ none
    → get_pin other pins ≡ some key
    → str_eq node other ≡ false
get_apart node other pins key n s = elim (Bool-cases (str_eq node other)) [
  | inl same ↦ absurd (clash (sym n ∙ ap (λ x. get_pin x pins) (same_text node other same) ∙ s))
  | inr differs ↦ differs
]
  where
    clash : none ≡ some key → ⊥
    clash e = cc

-- ===== src/Trust/Pinning.antt =====
-- The pins of src/noise_store.rs before and after a call, and what serde_json is relied on for.
use Prim.Native.String.{String, ◌++◌}
use thalovant_rust_sdk.Prelude.{
  true, Option, none, some, [], ◌≡◌, refl, sym, subst, ap, ◌∙◌, Bool-cases, Option-cases, inl, inr,
}
use thalovant_rust_sdk.Errors.{ThalovantError, Result, ok, err}
use thalovant_rust_sdk.Trust.{
  File, absent, holds, refused, Folder, Pins, Codec, Answers, Outcome, get_pin, all_valid,
}
use thalovant_rust_sdk.Trust.Pins.{read_pins, checked_pins, publish_pins, write_pins}

-- One map, whatever the order of its entries.
pub record SameMap (pins got : Pins) : Type 0 where
  pub finds : (node : String) → get_pin node got ≡ get_pin node pins
  pub is_valid : all_valid pins ≡ true → all_valid got ≡ true

-- What is documented of serde_json: a map that it printed is read back, with a newline after it.
pub record Laws (c : Codec) : Type 0 where
  pub printed :
      (pins : Pins) (text : String)
      → c.to_string_pretty pins ≡ some text
      → (got : Pins) × (c.from_str (text ++ "\n") ≡ some got) × SameMap pins got

abbrev pub pin_in : String → Result Pins → Option String
pin_in node (err e) = none
pin_in node (ok pins) = get_pin node pins

-- What a folder's pin file says of a hub.
unfoldable pub pinned : Codec → Folder → String → Option String
unfolding read_pins get_pin
pinned c f node = pin_in node (read_pins c f.pins)

-- The pin of a hub stays what it is.
pub record Keeps (c : Codec) (node : String) (f g : Folder) : Type 0 where
  pub kept : (key : String) → pinned c f node ≡ some key → pinned c g node ≡ some key

pub same_pins : (c : Codec) (node : String) (f g : Folder) → g.pins ≡ f.pins → Keeps c node f g
unfolding pinned
same_pins c node f g e = record { kept = λ key p. ap (λ x. pin_in node (read_pins c x)) e ∙ p }

-- Either nothing was written, or the file holds the new map.
pub data Wrote (c : Codec) (f : Folder) (pins : Pins) : Outcome (Unit {0}) → Type 0 where
  failed : (e : ThalovantError) → Wrote c f pins (f, err e)
  wrote :
      (file : File) (got : Pins)
      → read_pins c file ≡ ok got
      → ((node : String) → get_pin node got ≡ get_pin node pins)
      → Wrote c f pins (record f { pins = file }, ok tt)

read_valid :
    (c : Codec) (raw : String) (pins : Pins)
    → c.from_str raw ≡ some pins
    → all_valid pins ≡ true
    → read_pins c (holds raw) ≡ ok pins
unfolding read_pins
read_valid c raw pins e v = rw (e, v)

ok_same : {A : Type 0} (a b : A) → ◌≡◌ {A = Result A} (ok a) (ok b) → a ≡ b
ok_same a b e = cc

valid_checked : (x : Option Pins) (pins : Pins) → checked_pins x ≡ ok pins → all_valid pins ≡ true
valid_checked none pins e = absurd (cc)
valid_checked (some got) pins e = elim (Bool-cases (all_valid got)) [
  | inl good ↦ subst (λ x. all_valid x ≡ true) (ok_same got pins (rw good at e)) good
  | inr bad ↦ absurd (wrong (rw bad at e))
]
  where
    wrong : {x : ThalovantError} → ◌≡◌ {A = Result Pins} (err x) (ok pins) → ⊥
    wrong e = cc

pub read_is_valid :
    (c : Codec) (file : File) (pins : Pins) → read_pins c file ≡ ok pins → all_valid pins ≡ true
unfolding read_pins all_valid
read_is_valid c absent pins e = subst (λ x. all_valid x ≡ true) (ok_same [] pins e) refl
read_is_valid c (refused x) pins e = absurd (cc)
read_is_valid c (holds raw) pins e = valid_checked (c.from_str raw) pins e

module _ (c : Codec) (laws : Laws c) where
  pub write_pins-Wrote :
      (w : Answers) (f : Folder) (pins : Pins)
      → all_valid pins ≡ true
      → Wrote c f pins (write_pins c w f pins)
  unfolding write_pins
  write_pins-Wrote w f pins v = elim (Option-cases (c.to_string_pretty pins)) [
    | inl silent ↦ rw (silent) (failed _)
    | inr (text, said) ↦
        rw said (elim w.write as (λ x. Wrote c f pins (publish_pins x f (text ++ "\n"))) [
          | none ↦
              (let (got, reads, same) = laws.printed pins text said in
                wrote (holds (text ++ "\n")) got
                  (read_valid c (text ++ "\n") got reads (same.is_valid v)) same.finds)
          | some e ↦ failed e
        ])
  ]

  -- What was written under another key keeps the pin.
  pub Wrote-Keeps :
      (node : String) (f : Folder) (old new : Pins) (x : Outcome (Unit {0}))
      → read_pins c f.pins ≡ ok old
      → get_pin node new ≡ get_pin node old
      → Wrote c f new x
      → Keeps c node f x.0
  unfolding pinned
  Wrote-Keeps node f old new x r same (failed e) = record { kept = λ key p. p }
  Wrote-Keeps node f old new x r same (wrote file got is finds) = record {
    kept = λ key p. ap (pin_in node) is ∙ finds node ∙ same ∙ sym (ap (pin_in node) r) ∙ p;
  }

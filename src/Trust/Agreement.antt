-- ===== src/Trust/Agreement.antt =====
-- Which key src/noise_store.rs accepts of a hub.
use Prim.Native.String.{String}
use Prim.Native.Char.{code}
use thalovant_rust_sdk.Prelude.{
  true, Option, none, some, List, ◌≡◌, refl, sym, subst, ap, ◌∙◌, arith, Bool-cases, inl, inr, All,
  ==_self,
}
use thalovant_rust_sdk.Errors.{ThalovantError, Result, ok, err}
use thalovant_rust_sdk.Trust.{
  Folder, Pins, Codec, Answers, Outcome, locked_by, get_pin, insert_pin, eq_ignore_ascii_case,
  is_valid_pin, to_ascii_lowercase,
}
use thalovant_rust_sdk.Trust.Pins.{
  read_pins, pin_hub_key, pin_with, pin_against, invalid_pin, static_key_changed,
}
use thalovant_rust_sdk.Trust.Assoc.{get-inserted, all_valid-insert}
use thalovant_rust_sdk.Trust.Pinning.{
  Laws, pin_in, pinned, Wrote, failed, wrote, read_is_valid, write_pins-Wrote,
}
use thalovant_rust_sdk.Trust.FirstUse.{pin_hub_key-Keeps}
use thalovant_rust_sdk.Trust.Calls.{Action, spares, run, run-Keeps}

eq_ignore_self : (s : String) → eq_ignore_ascii_case s s ≡ true
unfolding eq_ignore_ascii_case
eq_ignore_self String.[] = refl
eq_ignore_self (String.◌∷◌ c s) = rw (==_self (to_ascii_lowercase (code c)), eq_ignore_self s)

eq_ignore_euclid :
    (s t u : String)
    → eq_ignore_ascii_case s t ≡ true
    → eq_ignore_ascii_case s u ≡ true
    → eq_ignore_ascii_case t u ≡ true
unfolding eq_ignore_ascii_case
eq_ignore_euclid String.[] String.[] u a b = b
eq_ignore_euclid String.[] (String.◌∷◌ d t) u a b = absurd (cc)
eq_ignore_euclid (String.◌∷◌ c s) String.[] u a b = absurd (cc)
eq_ignore_euclid (String.◌∷◌ c s) (String.◌∷◌ d t) String.[] a b = absurd (cc)
eq_ignore_euclid (String.◌∷◌ c s) (String.◌∷◌ d t) (String.◌∷◌ e u) a b =
    ground (arith, a, b, eq_ignore_euclid s t u)

some_same : (a b : String) → some a ≡ some b → a ≡ b
some_same a b e = cc

module _ (c : Codec) (laws : Laws c) where
  -- What a call that accepted a key leaves.
  pub record Accepted (f : Folder) (node key : String) : Type 0 where
    pub pin : String
    pub is_pinned : pinned c f node ≡ some pin
    pub agrees : eq_ignore_ascii_case pin key ≡ true

  Wrote-Accepted :
      (f : Folder) (node key : String) (entries : Pins) (x : Outcome (Unit {0}))
      → Wrote c f (insert_pin node key entries) x
      → x.1 ≡ ok tt
      → Accepted x.0 node key
  unfolding pinned
  Wrote-Accepted f node key entries x (failed e) good = absurd (cc)
  Wrote-Accepted f node key entries x (wrote file got is finds) good = record {
    pin = key;
    is_pinned = ap (pin_in node) is ∙ finds node ∙ get-inserted node key entries;
    agrees = eq_ignore_self key;
  }

  against-Accepted :
      (w : Answers) (f : Folder) (node key : String) (entries : Pins) (found : Option String)
      → is_valid_pin node key ≡ true
      → read_pins c f.pins ≡ ok entries
      → get_pin node entries ≡ found
      → (pin_against c w f node key entries found).1 ≡ ok tt
      → Accepted (pin_against c w f node key entries found).0 node key
  unfolding pin_against pinned
  against-Accepted w f node key entries none v r e good =
      Wrote-Accepted f node key entries _
        (write_pins-Wrote c laws w f (insert_pin node key entries)
          (all_valid-insert node key entries v (read_is_valid c f.pins entries r)))
        good
  against-Accepted w f node key entries (some pin) v r e good =
      elim (Bool-cases (eq_ignore_ascii_case pin key)) [
        | inl same ↦
            rw same (record { pin = pin; is_pinned = ap (pin_in node) r ∙ e; agrees = same })
        | inr differs ↦ absurd (refused (rw differs at good))
      ]
    where
      refused : ◌≡◌ {A = Result (Unit {0})} (err static_key_changed) (ok tt) → ⊥
      refused e = cc

  with-Accepted :
      (w : Answers) (f : Folder) (node key : String) (r : Result Pins)
      → is_valid_pin node key ≡ true
      → read_pins c f.pins ≡ r
      → (pin_with c w f node key r).1 ≡ ok tt
      → Accepted (pin_with c w f node key r).0 node key
  unfolding pin_with
  with-Accepted w f node key (err e) v r good = absurd (cc)
  with-Accepted w f node key (ok entries) v r good =
      against-Accepted w f node key entries (get_pin node entries) v r refl good

  locked-Accepted :
      (l : Option ThalovantError) (f : Folder) (node key : String) (x : Outcome (Unit {0}))
      → (x.1 ≡ ok tt → Accepted x.0 node key)
      → (locked_by l f x).1 ≡ ok tt
      → Accepted (locked_by l f x).0 node key
  locked-Accepted none f node key x h good = h good
  locked-Accepted (some e) f node key x h good = absurd (cc)

  pub pin_hub_key-Accepted :
      (w : Answers) (f : Folder) (node key : String)
      → (pin_hub_key c w f node key).1 ≡ ok tt
      → Accepted (pin_hub_key c w f node key).0 node key
  unfolding pin_hub_key
  pin_hub_key-Accepted w f node key good = elim (Bool-cases (is_valid_pin node key)) [
    | inl v ↦ rw v (
        locked-Accepted w.lock f node key (pin_with c w f node key (read_pins c f.pins))
          (with-Accepted w f node key (read_pins c f.pins) v refl) (rw v at good))
    | inr bad ↦ absurd (refused (rw bad at good))
  ]
    where
      refused : ◌≡◌ {A = Result (Unit {0})} (err invalid_pin) (ok tt) → ⊥
      refused e = cc

  -- After a hub's key was accepted, and any calls that do not forget its pin, every key that is
  -- accepted for the hub is the first one, but for the case of its letters. What serde_json prints
  -- of a map it reads back.
  pub accepted_agree :
      (w later : Answers) (f : Folder) (node first second : String) (calls : List Action)
      → All (λ a. spares node a ≡ true) calls
      → (pin_hub_key c w f node first).1 ≡ ok tt
      → (pin_hub_key c later (run c (pin_hub_key c w f node first).0 calls) node second).1 ≡ ok tt
      → eq_ignore_ascii_case first second ≡ true
  accepted_agree w later f node first second calls s good again =
      let g = run c (pin_hub_key c w f node first).0 calls in
      let one = pin_hub_key-Accepted w f node first good in
      let two = pin_hub_key-Accepted later g node second again in
      let still =
        (run-Keeps c laws node (pin_hub_key c w f node first).0 calls s).kept one.pin
          one.is_pinned in
      let same = (pin_hub_key-Keeps c laws node node second later g).kept one.pin still in
      eq_ignore_euclid one.pin first second one.agrees (
        subst (λ x. eq_ignore_ascii_case x second ≡ true)
          (some_same two.pin one.pin (sym two.is_pinned ∙ same)) two.agrees)

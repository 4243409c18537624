-- ===== src/Trust/FirstUse.antt =====
-- Each call of src/noise_store.rs, and the pins before and after it.
use Prim.Native.String.{String}
use text.Mathlib.Text.{◌==◌ as str_eq}
use thalovant_rust_sdk.Prelude.{
  Bool, true, false, Option, none, some, ◌≡◌, ◌⊎◌, refl, sym, ap, ◌∙◌, Bool-cases, inl, inr,
  if◌then◌else◌,
}
use thalovant_rust_sdk.Text.{is_blank}
use thalovant_rust_sdk.Errors.{ThalovantError, Result, ok, err}
use thalovant_rust_sdk.Trust.{
  File, absent, holds, refused, Folder, Pins, Bytes, Codec, Answers, Outcome, locked, locked_by,
  get_pin, remove_pin, insert_pin, eq_ignore_ascii_case, is_valid_pin,
}
use thalovant_rust_sdk.Trust.Pins.{
  read_pins, load_noise_pin, found_pin, pin_hub_key, pin_with, pin_against, forget_noise_pin,
  forget_with, forget_found, static_key_changed,
}
use thalovant_rust_sdk.Trust.Keys.{
  load_or_create_noise_key, key_of, create_key, load_cached_psk, psk_in, save_cached_psk, psk_saved,
  write_psk_cache, publish_psks, forget_cached_psk, psk_forgotten, psk_dropped, read_psk_cache,
  is_current,
}
use thalovant_rust_sdk.Trust.Assoc.{
  get-remove, get-insert, all_valid-remove, all_valid-insert, get_apart,
}
use thalovant_rust_sdk.Trust.Pinning.{
  Laws, pin_in, pinned, Keeps, same_pins, read_is_valid, write_pins-Wrote, Wrote-Keeps,
}

Result-cases :
    {A : Type 0} (r : Result A) → ((e : ThalovantError) × (r ≡ err e)) ⊎ ((a : A) × (r ≡ ok a))
Result-cases (ok a) = inr (a, refl)
Result-cases (err e) = inl (e, refl)

module _ (c : Codec) (laws : Laws c) where
  pub locked-Keeps :
      {A : Type 0} (node : String) (w : Answers) (f : Folder) (x : Outcome A)
      → Keeps c node f x.0
      → Keeps c node f (locked w f x).0
  locked-Keeps {A} node w f x k = elim w.lock as (λ l. Keeps c node f (locked_by {A = A} l f x).0) [
    | none ↦ k
    | some e ↦ same_pins c node f f refl
  ]

  pub Keeps-if :
      {A : Type 0} (node : String) (f : Folder) (b : Bool) (x y : Outcome A)
      → Keeps c node f x.0
      → Keeps c node f y.0
      → Keeps c node f (if b then x else y).0
  Keeps-if node f true x y k l = k
  Keeps-if node f false x y k l = l

  pin_against-Keeps :
      (node other key : String) (w : Answers) (f : Folder) (pins : Pins) (found : Option String)
      → is_valid_pin node key ≡ true
      → read_pins c f.pins ≡ ok pins
      → get_pin node pins ≡ found
      → Keeps c other f (pin_against c w f node key pins found).0
  unfolding pin_against pinned
  pin_against-Keeps node other key w f pins none v r e = record {
    kept = λ k p.
        let here : get_pin other pins ≡ some k = sym (ap (pin_in other) r) ∙ p in
        (Wrote-Keeps c laws other f pins (insert_pin node key pins) _ r
            (get-insert node other key pins (get_apart node other pins k e here))
            (write_pins-Wrote c laws w f (insert_pin node key pins)
              (all_valid-insert node key pins v (read_is_valid c f.pins pins r)))).kept
          k p;
  }
  pin_against-Keeps node other key w f pins (some old) v r e =
      Keeps-if other f (eq_ignore_ascii_case old key) (f, ok tt) (f, err static_key_changed)
        (same_pins c other f f refl) (same_pins c other f f refl)

  pin_with-Keeps :
      (node other key : String) (w : Answers) (f : Folder) (r : Result Pins)
      → is_valid_pin node key ≡ true
      → read_pins c f.pins ≡ r
      → Keeps c other f (pin_with c w f node key r).0
  unfolding pin_with
  pin_with-Keeps node other key w f (err e) v r = same_pins c other f f refl
  pin_with-Keeps node other key w f (ok pins) v r =
      pin_against-Keeps node other key w f pins (get_pin node pins) v r refl

  pub pin_hub_key-Keeps :
      (node other key : String) (w : Answers) (f : Folder)
      → Keeps c other f (pin_hub_key c w f node key).0
  unfolding pin_hub_key
  pin_hub_key-Keeps node other key w f = elim (Bool-cases (is_valid_pin node key)) [
    | inl v ↦ rw v (
        locked-Keeps other w f (pin_with c w f node key (read_pins c f.pins))
          (pin_with-Keeps node other key w f (read_pins c f.pins) v refl))
    | inr bad ↦ rw bad (same_pins c other f f refl)
  ]

  forget_with-Keeps :
      (node other : String) (w : Answers) (f : Folder) (r : Result Pins)
      → str_eq node other ≡ false
      → read_pins c f.pins ≡ r
      → Keeps c other f (forget_with c w f node r).0
  unfolding forget_with forget_found
  forget_with-Keeps node other w f (err e) d r = same_pins c other f f refl
  forget_with-Keeps node other w f (ok pins) d r =
      elim (get_pin node pins) as (λ x. Keeps c other f (forget_found c w f node pins x).0) [
        | none ↦ same_pins c other f f refl
        | some key ↦
            Wrote-Keeps c laws other f pins (remove_pin node pins) _ r
              (get-remove node other pins d)
              (write_pins-Wrote c laws w f (remove_pin node pins)
                (all_valid-remove node pins (read_is_valid c f.pins pins r)))
      ]

  pub forget_noise_pin-Keeps :
      (node other : String) (w : Answers) (f : Folder)
      → str_eq node other ≡ false
      → Keeps c other f (forget_noise_pin c w f node).0
  unfolding forget_noise_pin
  forget_noise_pin-Keeps node other w f d =
      locked-Keeps other w f (forget_with c w f node (read_pins c f.pins))
        (forget_with-Keeps node other w f (read_pins c f.pins) d refl)

  -- The other files are written without the pins.
  key_of-Keeps :
      (other : String) (w : Answers) (f : Folder) (file : File)
      → Keeps c other f (key_of c w f file).0
  unfolding key_of create_key
  key_of-Keeps other w f absent =
      elim w.raced as (λ r. Keeps c other f (create_key c w f r w.write).0) [
        | some file ↦ same_pins c other f _ refl
        | none ↦ elim w.write as (λ e. Keeps c other f (create_key c w f none e).0) [
          | none ↦ same_pins c other f _ refl
          | some e ↦ same_pins c other f f refl
        ]
      ]
  key_of-Keeps other w f (refused e) = same_pins c other f f refl
  key_of-Keeps other w f (holds raw) = same_pins c other f f refl

  pub make_key-Keeps :
      (other : String) (w : Answers) (f : Folder)
      → Keeps c other f (load_or_create_noise_key c w f).0
  unfolding load_or_create_noise_key
  make_key-Keeps other w f =
      locked-Keeps other w f (key_of c w f f.key) (key_of-Keeps other w f f.key)

  write_psks-Keeps :
      (other : String) (w : Answers) (f : Folder) (cache : Pins)
      → Keeps c other f (write_psk_cache c w f cache).0
  unfolding write_psk_cache
  write_psks-Keeps other w f cache =
      elim (c.to_string_pretty cache) as (λ t. Keeps c other f (publish_psks w.write f t).0) [
        | none ↦ same_pins c other f f refl
        | some text ↦ elim w.write as (λ e. Keeps c other f (publish_psks e f (some text)).0) [
          | none ↦ same_pins c other f _ refl
          | some e ↦ same_pins c other f f refl
        ]
      ]

  psk_saved-Keeps :
      (other node : String) (w : Answers) (f : Folder) (psk : Bytes) (r : Result Pins)
      → Keeps c other f (psk_saved c w f node psk r).0
  psk_saved-Keeps other node w f psk (err e) = same_pins c other f f refl
  psk_saved-Keeps other node w f psk (ok cache) =
      Keeps-if other f (is_current (get_pin node cache) (c.hex_encode psk)) (f, ok tt) _
        (same_pins c other f f refl)
        (write_psks-Keeps other w f (insert_pin node (c.hex_encode psk) cache))

  pub save_psk-Keeps :
      (other node : String) (w : Answers) (f : Folder) (psk : Bytes)
      → Keeps c other f (save_cached_psk c w f node psk).0
  unfolding save_cached_psk
  save_psk-Keeps other node w f psk =
      Keeps-if other f (is_blank node) (f, ok tt) _ (same_pins c other f f refl)
        (locked-Keeps other w f (psk_saved c w f node psk (read_psk_cache c f.psks))
          (psk_saved-Keeps other node w f psk (read_psk_cache c f.psks)))

  psk_forgotten-Keeps :
      (other node : String) (w : Answers) (f : Folder) (r : Result Pins)
      → Keeps c other f (psk_forgotten c w f node r).0
  psk_forgotten-Keeps other node w f (err e) = same_pins c other f f refl
  psk_forgotten-Keeps other node w f (ok cache) =
      elim (get_pin node cache) as (λ x. Keeps c other f (psk_dropped c w f node cache x).0) [
        | none ↦ same_pins c other f f refl
        | some key ↦ write_psks-Keeps other w f (remove_pin node cache)
      ]

  pub forget_psk-Keeps :
      (other node : String) (w : Answers) (f : Folder)
      → Keeps c other f (forget_cached_psk c w f node).0
  unfolding forget_cached_psk
  forget_psk-Keeps other node w f =
      locked-Keeps other w f (psk_forgotten c w f node (read_psk_cache c f.psks))
        (psk_forgotten-Keeps other node w f (read_psk_cache c f.psks))

  -- The calls that read.
  found-Keeps :
      (other node : String) (f : Folder) (r : Result Pins) → Keeps c other f (found_pin f node r).0
  found-Keeps other node f (err e) = same_pins c other f f refl
  found-Keeps other node f (ok pins) = same_pins c other f f refl

  pub load_pin-Keeps :
      (other node : String) (w : Answers) (f : Folder)
      → Keeps c other f (load_noise_pin c w f node).0
  unfolding load_noise_pin
  load_pin-Keeps other node w f =
      locked-Keeps other w f (found_pin f node (read_pins c f.pins))
        (found-Keeps other node f (read_pins c f.pins))

  psk_in-Keeps :
      (other node : String) (f : Folder) (r : Result Pins) → Keeps c other f (psk_in c f node r).0
  psk_in-Keeps other node f (err e) = same_pins c other f f refl
  psk_in-Keeps other node f (ok cache) = same_pins c other f f refl

  pub load_psk-Keeps :
      (other node : String) (w : Answers) (f : Folder)
      → Keeps c other f (load_cached_psk c w f node).0
  unfolding load_cached_psk
  load_psk-Keeps other node w f =
      Keeps-if other f (is_blank node) (f, ok none) _ (same_pins c other f f refl)
        (locked-Keeps other w f (psk_in c f node (read_psk_cache c f.psks))
          (psk_in-Keeps other node f (read_psk_cache c f.psks)))

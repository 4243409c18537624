-- ===== src/Trust/Calls.antt =====
-- Any sequence of calls on a folder of src/noise_store.rs.
use Prim.Native.String.{String}
use text.Mathlib.Text.{◌==◌ as str_eq}
use thalovant_rust_sdk.Prelude.{
  Bool, true, false, not, ◌||◌, Option, none, some, List, [], ◌∷◌, ◌≡◌, refl, sym, ap, ◌∙◌, arith,
  All,
}
use thalovant_rust_sdk.Errors.{ThalovantError, Result, ok, err}
use thalovant_rust_sdk.Trust.{File, holds, Folder, Pins, Bytes, Codec, Answers}
use thalovant_rust_sdk.Trust.Pins.{read_pins, pin_hub_key, forget_noise_pin}
use thalovant_rust_sdk.Trust.Keys.{load_or_create_noise_key, save_cached_psk, forget_cached_psk}
use thalovant_rust_sdk.Trust.Adopt.{
  adopt_legacy_key, adopt_found, adopt_pins, adopt_key, adopted, legacy_key, exists, is_file,
}
use thalovant_rust_sdk.Trust.Pinning.{Laws, pin_in, pinned, Keeps, same_pins}
use thalovant_rust_sdk.Trust.FirstUse.{
  pin_hub_key-Keeps, forget_noise_pin-Keeps, make_key-Keeps, save_psk-Keeps, forget_psk-Keeps,
  locked-Keeps, Keeps-if,
}

-- The calls that write; the others leave the folder as it is.
pub data Action : Type 0 where
  pins_key : Answers → String → String → Action
  forgets : Answers → String → Action
  makes_key : Answers → Action
  saves_psk : Answers → String → Bytes → Action
  forgets_psk : Answers → String → Action
  adopts : Answers → Answers → Answers → Bool → Folder → String → Action

abbrev pub spares : String → Action → Bool
spares node (forgets w other) = not (str_eq other node)
spares node _ = true

module _ (c : Codec) where
  unfoldable pub step : Folder → Action → Folder
  unfolding pin_hub_key forget_noise_pin load_or_create_noise_key save_cached_psk forget_cached_psk
      adopt_legacy_key
  step f (pins_key w node key) = (pin_hub_key c w f node key).0
  step f (forgets w node) = (forget_noise_pin c w f node).0
  step f (makes_key w) = (load_or_create_noise_key c w f).0
  step f (saves_psk w node psk) = (save_cached_psk c w f node psk).0
  step f (forgets_psk w node) = (forget_cached_psk c w f node).0
  step f (adopts l w k same legacy node) = (adopt_legacy_key c l w k same f legacy node).0

  unfoldable pub run : Folder → List Action → Folder
  unfolding step
  run f [] = f
  run f (a ∷ more) = run (step f a) more

  module _ (laws : Laws c) where
    -- Pins are adopted only into a folder that has none.
    adopt_pins-Keeps :
        (node : String) (w : Answers) (f : Folder) (pins : Pins) (r : Result Pins)
        → read_pins c f.pins ≡ r
        → Keeps c node f (adopt_pins c w f pins r).0
    unfolding adopt_pins pinned
    adopt_pins-Keeps node w f pins (err e) r = same_pins c node f f refl
    adopt_pins-Keeps node w f pins (ok (p ∷ ps)) r = same_pins c node f f refl
    adopt_pins-Keeps node w f pins (ok []) r = record {
      kept = λ key p. absurd (nothing (sym (ap (pin_in node) r) ∙ p));
    }
      where
        nothing : {k : String} → none ≡ some k → ⊥
        nothing e = cc

    -- The key is another file.
    key_file :
        (node : String) (f g : Folder) (file : File)
        → Keeps c node f g
        → Keeps c node f (record g { key = file })
    unfolding pinned
    key_file node f g file v = record { kept = λ key p. v.kept key p }

    adopted-Keeps :
        (node : String) (f g : Folder) (key : Bytes) (raced : Option File)
        (failed : Option ThalovantError)
        → Keeps c node f g
        → Keeps c node f (adopted c g key raced failed).0
    adopted-Keeps node f g key (some other) failed v = key_file node f g other v
    adopted-Keeps node f g key none (some e) v = v
    adopted-Keeps node f g key none none v = key_file node f g (holds (c.hex_encode key)) v

    adopt_key-Keeps :
        (node : String) (w : Answers) (f g : Folder) (key : Bytes) (r : Result (Unit {0}))
        → Keeps c node f g
        → Keeps c node f (adopt_key c w g key r).0
    adopt_key-Keeps node w f g key (err e) v = v
    adopt_key-Keeps node w f g key (ok u) v = adopted-Keeps node f g key w.raced w.write v

    adopt_found-Keeps :
        (node : String) (w k : Answers) (f : Folder) (found : Option (Bytes × Pins))
        → Keeps c node f (adopt_found c w k f found).0
    adopt_found-Keeps node w k f none = same_pins c node f f refl
    adopt_found-Keeps node w k f (some (key, pins)) =
        let x = adopt_pins c w f pins (read_pins c f.pins) in
        locked-Keeps c laws node w f _ (
          Keeps-if c laws node f (exists f.key) (f, ok false) (adopt_key c k x.0 key x.1)
            (same_pins c node f f refl)
            (adopt_key-Keeps node k f x.0 key x.1
              (adopt_pins-Keeps node w f pins (read_pins c f.pins) refl)))

    pub adopt-Keeps :
        (node hub : String) (l w k : Answers) (same : Bool) (f legacy : Folder)
        → Keeps c node f (adopt_legacy_key c l w k same f legacy hub).0
    unfolding adopt_legacy_key
    adopt-Keeps node hub l w k same f legacy =
        Keeps-if c laws node f (exists f.key || (not (is_file legacy.key) || same)) (f, ok false) _
          (same_pins c node f f refl) (adopt_found-Keeps node w k f (legacy_key c l legacy hub))

    step-Keeps :
        (node : String) (f : Folder) (a : Action) → spares node a ≡ true → Keeps c node f (step f a)
    unfolding step
    step-Keeps node f (pins_key w other key) s = pin_hub_key-Keeps c laws other node key w f
    step-Keeps node f (forgets w other) s =
        forget_noise_pin-Keeps c laws other node w f (ground (arith, s))
    step-Keeps node f (makes_key w) s = make_key-Keeps c laws node w f
    step-Keeps node f (saves_psk w other psk) s = save_psk-Keeps c laws node other w f psk
    step-Keeps node f (forgets_psk w other) s = forget_psk-Keeps c laws node other w f
    step-Keeps node f (adopts l w k same legacy hub) s = adopt-Keeps node hub l w k same f legacy

    -- A hub's pin survives any calls on its folder that do not forget it, whatever they are given
    -- and however they fail.
    pub run-Keeps :
        (node : String) (f : Folder) (calls : List Action)
        → All (λ a. spares node a ≡ true) calls
        → Keeps c node f (run f calls)
    unfolding run
    run-Keeps node f [] s = same_pins c node f f refl
    run-Keeps node f (a ∷ calls) s = record {
      kept = λ key p.
          (run-Keeps node (step f a) calls s.1).kept key ((step-Keeps node f a s.0).kept key p);
    }

-- ===== src/Channel/Quiet.antt =====
-- The calls of src/transport.rs before the hub's key is checked, one by one.
use Prim.Native.String.{String}
use text.Mathlib.Text.{◌==◌ as str_eq}
use thalovant_rust_sdk.Prelude.{
  Bool, true, false, ◌||◌, Option, none, some, [], ◌∷◌, if◌then◌else◌, is_some,
}
use thalovant_rust_sdk.Json.{Fields}
use thalovant_rust_sdk.Errors.{Result, ok, err}
use thalovant_rust_sdk.Trust.{Folder, Answers, Outcome}
use thalovant_rust_sdk.Trust.Pins.{load_noise_pin}
use thalovant_rust_sdk.Trust.Keys.{
  load_or_create_noise_key, load_cached_psk, save_cached_psk, forget_cached_psk,
}
use thalovant_rust_sdk.Trust.Pinning.{Laws, Keeps}
use thalovant_rust_sdk.Trust.FirstUse.{
  make_key-Keeps, save_psk-Keeps, forget_psk-Keeps, load_pin-Keeps, load_psk-Keeps,
}
use thalovant_rust_sdk.Trust.Calls.{adopt-Keeps}
use thalovant_rust_sdk.Noise.Cipher.{Bytes}
use thalovant_rust_sdk.Noise.Canonical.{canonical_json}
use thalovant_rust_sdk.Noise.Handshake.{NoiseHandshake, write_message, derive_psk, is_finished}
use thalovant_rust_sdk.Channel.{
  Host, Visit, Visits, NoiseChannel, ◌>>=◌, give, change, get_state, on_disk, as_bytes,
}
use thalovant_rust_sdk.Channel.Starting.{
  Act, adopt, adopt_from, cached_psk, psk_or, save_derived, first_message, offer_with, shake_hands,
  negotiate, start, preferences, unexpected_offer, no_password,
}
use thalovant_rust_sdk.Channel.Finishing.{
  check_pin, reply, replied, turn_away, set_handshake, drop_handshake, turned_away, another_key,
  differs,
}
use thalovant_rust_sdk.Channel.Opening.{
  SparesAt, Spares, Before, Safe, Ends, bind-Safe, give-Safe, ignoring-Safe, change-Safe,
  on_disk-Safe,
}

module _ (h : Host) (laws : Laws h.files) (node : String) (begin : Folder) (w : Visits)
    (spared : Spares node w) (id : String) where
  open h use {snow, files, uuid}
  open snow use {calls}

  abbrev pub Quiet : {A : Type 0} → Act h A → Type 0
  Quiet m = Safe h laws node begin id m

  abbrev pub Opens : {A : Type 0} → Act h A → Type 0
  Opens m = Ends h laws node begin id m

  pub given : {A : Type 0} (r : Result A) → Quiet (give r)
  given r = give-Safe h laws node begin id r

  bound :
      {A B : Type 0} (m : Act h A) (k : A → Act h B)
      → Quiet m
      → ((a : A) → Quiet (k a))
      → Quiet (m >>= k)
  bound m k s t = bind-Safe h laws node begin id m k s t

  either : {A : Type 0} (b : Bool) (m n : Act h A) → Quiet m → Quiet n → Quiet (if b then m else n)
  either true m n s t = s
  either false m n s t = t

  changed :
      (f : NoiseChannel h → NoiseChannel h)
      → ((ch : NoiseChannel h)
          → Before h laws node begin id ch
          → Before h laws node begin id (f ch))
      → Quiet (change f)
  changed f s = change-Safe h laws node begin id f s

  visited :
      {A : Type 0} (v : Visit) (call : Answers → Folder → Outcome A)
      → SparesAt node v
      → ((a : Answers) (f : Folder) → Keeps files node f (call a f).0)
      → Quiet (on_disk h v call)
  visited v call s k = on_disk-Safe h laws node begin id v call s k

  adopt_from-Quiet :
      (own : Bool) (from : Option (Folder × Bool)) (hub : String)
      → Quiet (adopt_from h w own from hub)
  adopt_from-Quiet false from hub = given (ok false)
  adopt_from-Quiet true none hub = given (ok false)
  adopt_from-Quiet true (some (legacy, same)) hub =
      visited w.adopt _ spared.adopt
        (λ a f. adopt-Keeps files laws node hub w.adopt_from a w.adopt_key same f legacy)

  read_state : Quiet get_state
  unfolding get_state
  read_state = record { safe = λ ch b. b }

  adopt-Quiet : Quiet (adopt h w)
  unfolding adopt
  adopt-Quiet = bound _ _ read_state (λ ch.
      bound _ _
        (changed (λ c. record c { adopt_from = none })
          (λ c b. record { keeps = b.keeps; no_session = b.no_session; is_named = b.is_named }))
        (λ _. adopt_from-Quiet ch.has_state_dir ch.adopt_from ch.node_id))

  save_derived-Quiet : (hub : String) (r : Result Bytes) → Quiet (save_derived h w hub r)
  save_derived-Quiet hub (err e) = given (err e)
  save_derived-Quiet hub (ok psk) =
      bound _ _
        (ignoring-Safe h laws node begin id _ (
          visited w.save_psk (λ a f. save_cached_psk files a f hub psk) spared.save_psk
            (λ a f. save_psk-Keeps files laws node hub a f psk)))
        (λ _. given (ok psk))

  psk_or-Quiet :
      (password hub : String) (cached : Option Bytes) → Quiet (psk_or h w password hub cached)
  psk_or-Quiet password hub (some psk) = given (ok psk)
  psk_or-Quiet password hub none =
      save_derived-Quiet hub (derive_psk h.digest h.argon2id password hub)

  cached_psk-Quiet : (password hub : String) → Quiet (cached_psk h w password hub)
  unfolding cached_psk
  cached_psk-Quiet password hub =
      bound _ _
        (visited w.load_psk (λ a f. load_cached_psk files a f hub) spared.load_psk
          (λ a f. load_psk-Keeps files laws node hub a f))
        (λ cached. psk_or-Quiet password hub cached)

  offer_with-Quiet :
      (name suite : String) (x : NoiseHandshake snow × Result Bytes)
      → Quiet (offer_with h name suite x)
  offer_with-Quiet name suite (handshake, err e) = given (err e)
  offer_with-Quiet name suite (handshake, ok msg) =
      bound _ _
        (changed (λ c. record c { handshake = some handshake; pattern_name = some name })
          (λ c b. record { keeps = b.keeps; no_session = b.no_session; is_named = b.is_named }))
        (λ _. bound _ _ (given _) (λ write. given (ok (write ∷ []))))

  first_message-Quiet :
      (name suite : String) (handshake : NoiseHandshake snow)
      → Quiet (first_message h name suite handshake)
  unfolding first_message
  first_message-Quiet name suite handshake =
      offer_with-Quiet name suite (
        write_message snow files.hex_encode handshake
          (as_bytes (canonical_json h.show preferences)))

  shake_hands-Quiet :
      (ch : NoiseChannel h) (offer : Fields) (pin : Option String) (chosen : String × String)
      → Quiet (shake_hands h w ch offer pin chosen)
  shake_hands-Quiet ch offer pin (name, suite) =
      bound _ _
        (visited w.make_key (λ a f. load_or_create_noise_key files a f) spared.make_key
          (λ a f. make_key-Keeps files laws node a f))
        (λ key.
          bound _ _ (cached_psk-Quiet ch.identity.password ch.node_id)
            (λ psk. bound _ _ (given _) (λ handshake. first_message-Quiet name suite handshake)))

  negotiate-Quiet :
      (ch : NoiseChannel h) (offer params : Fields) → Quiet (negotiate h w ch offer params)
  unfolding negotiate
  negotiate-Quiet ch offer params = bound _ _ adopt-Quiet (λ _.
      bound _ _
        (visited w.load_pin (λ a f. load_noise_pin files a f ch.node_id) spared.load_pin
          (λ a f. load_pin-Keeps files laws node ch.node_id a f))
        (λ pin. bound _ _ (given _) (λ chosen. shake_hands-Quiet ch offer pin chosen)))

  pub start-Quiet :
      (ch : NoiseChannel h) (offer params : Fields) → Quiet (start h w ch offer params)
  unfolding start
  start-Quiet ch offer params =
      either (str_eq ch.node_id "" || is_some ch.handshake) _ _ (given (err unexpected_offer)) (
        either (str_eq ch.identity.password "") _ _ (given (err no_password))
          (negotiate-Quiet ch offer params))

  pub turn_away-Quiet : (hub : String) → Quiet (turn_away h w hub)
  unfolding turn_away
  turn_away-Quiet hub =
      bound _ _
        (ignoring-Safe h laws node begin id
          (on_disk h w.forget_psk (λ a f. forget_cached_psk files a f hub))
          (visited w.forget_psk (λ a f. forget_cached_psk files a f hub) spared.forget_psk
            (λ a f. forget_psk-Keeps files laws node hub a f)))
        (λ _.
          bound _ _
            (changed (drop_handshake h)
              (λ c b. record { keeps = b.keeps; no_session = b.no_session; is_named = b.is_named }))
            (λ _. given (err turned_away)))

  pub set_handshake-Quiet :
      (handshake : Option (NoiseHandshake snow)) → Quiet (set_handshake h handshake)
  set_handshake-Quiet handshake =
      changed (λ c. record c { handshake = handshake })
        (λ c b. record { keeps = b.keeps; no_session = b.no_session; is_named = b.is_named })

  replied-Quiet : (x : NoiseHandshake snow × Result Bytes) → Quiet (replied h x)
  replied-Quiet (handshake, err e) =
      bound _ _ (set_handshake-Quiet (some handshake)) (λ _. given (err e))
  replied-Quiet (handshake, ok msg) =
      bound _ _ (set_handshake-Quiet (some handshake))
        (λ _. bound _ _ (given _) (λ write. given (ok (handshake, write ∷ []))))

  pub reply-Quiet : (handshake : NoiseHandshake snow) → Quiet (reply h handshake)
  unfolding reply
  reply-Quiet handshake =
      either (is_finished snow handshake) _ _ (given (ok (handshake, [])))
        (replied-Quiet (write_message snow files.hex_encode handshake []))

  pub check_pin-Quiet : (hub remote : String) → Quiet (check_pin h w hub remote)
  unfolding check_pin
  check_pin-Quiet hub remote =
      bound _ _
        (visited w.check_pin (λ a f. load_noise_pin files a f hub) spared.check_pin
          (λ a f. load_pin-Keeps files laws node hub a f))
        (λ pinned. given (if differs pinned remote then err another_key else ok tt))

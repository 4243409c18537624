-- ===== src/Channel/Establishing.antt =====
-- The handshake of src/transport.rs and the pin of the hub, step by step.
use Prim.Native.String.{String}
use thalovant_rust_sdk.Prelude.{
  Bool, true, false, Option, none, some, List, ◌++◌ as append, ◌≡◌, refl, sym, ap, ◌∙◌, subst,
  if◌then◌else◌,
}
use thalovant_rust_sdk.Json.{Fields, get, as_str}
use thalovant_rust_sdk.Errors.{Result, ok, err}
use thalovant_rust_sdk.Wire.{HiveMessage}
use thalovant_rust_sdk.Trust.{Folder, Outcome}
use thalovant_rust_sdk.Trust.Pins.{pin_hub_key}
use thalovant_rust_sdk.Trust.Pinning.{Laws, Keeps}
use thalovant_rust_sdk.Trust.FirstUse.{pin_hub_key-Keeps}
use thalovant_rust_sdk.Trust.Calls.{run, run-Keeps}
use thalovant_rust_sdk.Trust.Agreement.{Accepted, pin_hub_key-Accepted}
use thalovant_rust_sdk.Noise.Cipher.{Bytes}
use thalovant_rust_sdk.Noise.Frames as Frames
use thalovant_rust_sdk.Noise.Frames.{NoiseSession, NoiseFrame, encrypt_message, decrypt_frame}
use thalovant_rust_sdk.Noise.Handshake.{NoiseHandshake, read_message, into_session}
use thalovant_rust_sdk.Channel.{
  Host, Visits, NoiseWrite, Session, NoiseChannel, after, ◌>>=◌, give, change, on_disk, put_disk,
  or_fail, encode, encode_in, encode_bytes, writes_of, not_ready, ready,
}
use thalovant_rust_sdk.Channel.Starting.{Act}
use thalovant_rust_sdk.Channel.Finishing.{
  continue_handshake, answered, establish, pin_and_open, hello_hive_message, open_session,
  fresh_session, malformed, not_empty, not_negotiating, no_identity,
}
use thalovant_rust_sdk.Channel.Opening.{
  SparesAt, Spares, Trusted, Before, Before-Trusted, Keeps-on, Ends, Holds, bind-Ends, Ends-Holds,
  bind-Holds, Safe-Ends, give-Safe, give-Holds, put_disk-Safe,
}
use thalovant_rust_sdk.Channel.Quiet.{
  set_handshake-Quiet, turn_away-Quiet, reply-Quiet, check_pin-Quiet,
}

some_same : {A : Type 0} (a b : A) → some a ≡ some b → a ≡ b
some_same a b e = cc

module _ (h : Host) (laws : Laws h.files) (node : String) (begin : Folder) where
  open h use {snow, files, uuid, to_vec, from_slice}
  open snow use {calls}

  abbrev T : NoiseChannel h → Type 0
  T ch = Trusted h laws node begin ch

  abbrev B : String → NoiseChannel h → Type 0
  B id ch = Before h laws node begin id ch

  opened :
      (id remote : String) (t : calls.Transport) (ch : NoiseChannel h) (x : Outcome (Unit {0}))
      → B id ch
      → Keeps files node begin x.0
      → (x.1 ≡ ok tt → Accepted files laws x.0 id remote)
      → T (after (put_disk h ch x) (λ _. change (open_session h t remote))).0
  unfolding change
  opened id remote t ch (f, err e) b k a =
      Before-Trusted h laws node begin id _
        (put_disk-Safe h laws node begin {A = Unit {0}} id ch (f, err e) b k)
  opened id remote t ch (f, ok u) b k a = record {
    keeps = k;
    agrees = λ s e n. record {
      key = remote;
      is_key =
          ap (λ x. x.remote_static_key) (sym (some_same (fresh_session h t (some remote)) s e));
      is_accepted = subst (λ x. Accepted files laws f x remote) (sym b.is_named ∙ n) (a refl);
    };
  }

  pin_and_open-Ends :
      (w : Visits) (id remote : String) (t : calls.Transport)
      → SparesAt node w.pin_key
      → Ends h laws node begin id (pin_and_open h w id t remote)
  unfolding pin_and_open ◌>>=◌ on_disk
  pin_and_open-Ends w id remote t s = record {
    ends = λ ch b.
        let f = run files ch.disk w.pin_key.meanwhile in
        let x = pin_hub_key files w.pin_key.answers f id remote in
        opened id remote t ch x b
          (Keeps-on h laws node begin f x.0
            (Keeps-on h laws node begin ch.disk f b.keeps
              (run-Keeps files laws node ch.disk w.pin_key.meanwhile s))
            (pin_hub_key-Keeps files laws id node remote w.pin_key.answers f))
          (pin_hub_key-Accepted files laws w.pin_key.answers f id remote);
  }

  -- A session that has moved on is with the same hub.
  pub moved_on :
      (ch : NoiseChannel h) (s : Session h) (noise : NoiseSession calls)
      → ch.session ≡ some s
      → T ch
      → T (record ch { session = some (record s { noise = noise }) })
  moved_on ch s noise e t = record {
    keeps = t.keeps;
    agrees = λ r p n.
        let a = t.agrees s e n in
        let same = some_same (record s { noise = noise }) r p in
        record {
          key = a.key;
          is_key = ap (λ x. x.remote_static_key) (sym same) ∙ a.is_key;
          is_accepted = a.is_accepted;
        };
  }

  writes_of-Trusted :
      (ch : NoiseChannel h) (s : Session h) (x : NoiseSession calls × Frames.Result (List Bytes))
      → ch.session ≡ some s
      → T ch
      → T (writes_of h ch s x).0
  writes_of-Trusted ch s (noise, Frames.ok frames) e t = moved_on ch s noise e t
  writes_of-Trusted ch s (noise, Frames.err x) e t = moved_on ch s noise e t

  encode_in-Trusted :
      (ch : NoiseChannel h) (m : HiveMessage) (o : Option (Session h))
      → ch.session ≡ o
      → T ch
      → T (encode_in h ch m o).0
  encode_in-Trusted ch m none e t = t
  encode_in-Trusted ch m (some s) e t = elim (to_vec m) as (λ x. T (encode_bytes h ch s x).0) [
    | none ↦ t
    | some bytes ↦ writes_of-Trusted ch s (encrypt_message calls s.noise bytes true) e t
  ]

  pub T-if :
      {A : Type 0} (b : Bool) (x y : NoiseChannel h × Result A)
      → T x.0
      → T y.0
      → T (if b then x else y).0
  T-if true x y s t = s
  T-if false x y s t = t

  pub encode-Holds : (m : HiveMessage) → Holds h laws node begin (encode h m)
  unfolding encode
  encode-Holds m = record {
    stays = λ ch t.
        T-if (ready h ch) (encode_in h ch m ch.session) (ch, err (not_ready h))
          (encode_in-Trusted ch m ch.session refl t) t;
  }

  pub given-Ends :
      {A C : Type 0} (id : String) (r : Result A) (k : A → Act h C)
      → ((a : A) → Ends h laws node begin id (k a))
      → Ends h laws node begin id (give r >>= k)
  given-Ends id r k s =
      bind-Ends h laws node begin id (give r) k (give-Safe h laws node begin id r) s

  module _ (w : Visits) (spared : Spares node w) where
    establish-Ends :
        (ch : NoiseChannel h) (x : NoiseHandshake snow × List NoiseWrite)
        → Ends h laws node begin ch.node_id (establish h w ch x)
    unfolding establish
    establish-Ends ch (handshake, writes) =
        let id = ch.node_id in
        bind-Ends h laws node begin id _ _ (set_handshake-Quiet h laws node begin w spared id none)
          (λ _. given-Ends id (into_session snow handshake) _ (λ taken.
            given-Ends id (or_fail no_identity taken.1) _ (λ remote.
              bind-Ends h laws node begin id _ _
                (check_pin-Quiet h laws node begin w spared id id remote)
                (λ _.
                  Ends-Holds h laws node begin id _ _
                    (pin_and_open-Ends w id remote taken.0 spared.pin_key)
                    (λ _.
                      bind-Holds h laws node begin _ _
                        (encode-Holds (hello_hive_message uuid ch.identity "thalovant-rust-"))
                        (λ hello. give-Holds h laws node begin (ok (append writes hello))))))))

    answered-Ends :
        (ch : NoiseChannel h) (x : NoiseHandshake snow × Result Bytes)
        → Ends h laws node begin ch.node_id (answered h w ch x)
    answered-Ends ch (handshake, err e) =
        let id = ch.node_id in
        bind-Ends h laws node begin id _ _
          (set_handshake-Quiet h laws node begin w spared id (some handshake))
          (λ _. Safe-Ends h laws node begin id _ (turn_away-Quiet h laws node begin w spared id id))
    answered-Ends ch (handshake, ok payload) =
        let id = ch.node_id in
        bind-Ends h laws node begin id _ _
          (set_handshake-Quiet h laws node begin w spared id (some handshake))
          (λ _.
            bind-Ends h laws node begin id _ _ (reply-Quiet h laws node begin w spared id handshake)
              (λ x. establish-Ends ch x))

    pub continue-Ends :
        (ch : NoiseChannel h) (params : Fields)
        → Ends h laws node begin ch.node_id (continue_handshake h w ch params)
    unfolding continue_handshake
    continue-Ends ch params =
        let id = ch.node_id in
        given-Ends id (or_fail malformed (not_empty (as_str (get "msg" params)))) _ (λ encoded.
          given-Ends id (or_fail malformed (files.hex_decode encoded)) _ (λ msg.
            given-Ends id (or_fail not_negotiating ch.handshake) _
              (λ handshake. answered-Ends ch (read_message snow files.hex_encode handshake msg))))

-- ===== src/Channel/Trusting.antt =====
-- One frame of src/transport.rs and the pin of the hub.
use Prim.Native.String.{String}
use text.Mathlib.Text.{◌==◌ as str_eq}
use thalovant_rust_sdk.Prelude.{
  Bool, true, false, ◌||◌, Option, none, some, ◌≡◌, refl, if◌then◌else◌, is_some,
}
use thalovant_rust_sdk.Json.{Fields, get, as_str, as_object}
use thalovant_rust_sdk.Errors.{json, Result, ok, err}
use thalovant_rust_sdk.Wire.{HiveMessage}
use thalovant_rust_sdk.Trust.{Folder}
use thalovant_rust_sdk.Trust.Pinning.{Laws}
use thalovant_rust_sdk.Noise.Cipher.{Bytes}
use thalovant_rust_sdk.Noise.Frames as Frames
use thalovant_rust_sdk.Noise.Frames.{NoiseSession, NoiseFrame, encrypt_message, decrypt_frame}
use thalovant_rust_sdk.Channel.{
  Host, Visits, Session, NoiseChannel, ◌>>=◌, ◌>>◌, give, change, or_fail,
}
use thalovant_rust_sdk.Channel.Starting.{Act}
use thalovant_rust_sdk.Channel.Finishing.{or_empty}
use thalovant_rust_sdk.Channel.Receiving.{
  Got, in_session, heard_frame, take_hello, take_payload, take_shake, has_key, take_clear,
  before_session, received, receive_inner, marked, receive, ciphertext, failed_before,
  duplicate_hello, too_early, no_noise,
}
use thalovant_rust_sdk.Channel.Opening.{
  Spares, Trusted, Before, Before-Trusted, Ends, Ends-Holds, Safe-Ends, give-Safe, give-Holds,
}
use thalovant_rust_sdk.Channel.Quiet.{start-Quiet}
use thalovant_rust_sdk.Channel.Establishing.{moved_on, T-if, given-Ends, continue-Ends}

module _ (h : Host) (laws : Laws h.files) (node : String) (begin : Folder) where
  open h use {snow, files, uuid, to_vec, from_slice}
  open snow use {calls}

  abbrev T : NoiseChannel h → Type 0
  T ch = Trusted h laws node begin ch

  abbrev B : String → NoiseChannel h → Type 0
  B id ch = Before h laws node begin id ch

  module _ (w : Visits) (spared : Spares node w) where
    Ends-if :
        {A : Type 0} (id : String) (b : Bool) (m n : Act h A)
        → Ends h laws node begin id m
        → Ends h laws node begin id n
        → Ends h laws node begin id (if b then m else n)
    Ends-if id true m n s t = s
    Ends-if id false m n s t = t

    refuse : {A : Type 0} (id : String) (r : Result A) → Ends h laws node begin id (give r)
    refuse id r = Safe-Ends h laws node begin id _ (give-Safe h laws node begin id r)

    take_shake-Ends :
        (ch : NoiseChannel h) (m : HiveMessage)
        → Ends h laws node begin ch.node_id (take_shake h w ch m)
    unfolding take_shake
    take_shake-Ends ch m =
        let id = ch.node_id in
        given-Ends h laws node begin id (or_fail no_noise (as_object (get "noise" m.payload))) _
          (λ params.
            Ends-Holds h laws node begin id _ _
              (Ends-if id (has_key h "msg" params) _ _
                (continue-Ends h laws node begin w spared ch params)
                (Safe-Ends h laws node begin id _
                  (start-Quiet h laws node begin w spared id ch m.payload params)))
              (λ writes. give-Holds h laws node begin (ok (none, writes))))

    payload-Trusted :
        (b : Bool) (payload : Fields) (id : String) (ch : NoiseChannel h)
        → B id ch
        → T (take_payload h b payload ch).0
    unfolding ◌>>=◌ give change
    payload-Trusted true payload id ch b = Before-Trusted h laws node begin id ch b
    payload-Trusted false payload id ch b =
        Before-Trusted h laws node begin id _
          (record { keeps = b.keeps; no_session = b.no_session; is_named = b.is_named })

    named_Ends :
        (payload : Fields) (name id : String)
        → Ends h laws node begin id
            (change (λ c. record c { node_id = name }) >> take_payload h (str_eq name "") payload)
    unfolding ◌>>=◌ change
    named_Ends payload name id = record {
      ends = λ c b.
          payload-Trusted (str_eq name "") payload name (record c { node_id = name })
            (record { keeps = b.keeps; no_session = b.no_session; is_named = refl });
    }

    take_hello-Ends :
        (ch : NoiseChannel h) (m : HiveMessage) (id : String)
        → Ends h laws node begin id (take_hello h ch m)
    unfolding take_hello
    take_hello-Ends ch m id =
        let name = or_empty (as_str (get "node_id" m.payload)) in
        Ends-if id (is_some ch.hello || is_some ch.handshake) _ _ (refuse id (err duplicate_hello))
          (named_Ends m.payload name id)

    take_clear-Ends :
        (ch : NoiseChannel h) (m : HiveMessage)
        → Ends h laws node begin ch.node_id (take_clear h w ch m)
    unfolding take_clear
    take_clear-Ends ch m =
        let id = ch.node_id in
        Ends-if id (str_eq m.msg_type "hello") _ _ (take_hello-Ends ch m id) (
          Ends-if id (str_eq m.msg_type "shake" || str_eq m.msg_type "handshake") _ _
            (take_shake-Ends ch m) (refuse id (err too_early)))

    before_session-Ends :
        (ch : NoiseChannel h) (bytes : Bytes) (binary : Bool)
        → Ends h laws node begin ch.node_id (before_session h w ch bytes binary)
    unfolding before_session
    before_session-Ends ch bytes true = refuse ch.node_id (err ciphertext)
    before_session-Ends ch bytes false =
        given-Ends h laws node begin ch.node_id (or_fail json (from_slice bytes)) _
          (λ m. take_clear-Ends ch m)

    heard-Trusted :
        (ch : NoiseChannel h) (s : Session h) (x : NoiseSession calls × Frames.Result NoiseFrame)
        → ch.session ≡ some s
        → T ch
        → T (heard_frame h x s ch).0
    unfolding ◌>>=◌ give change
    heard-Trusted ch s (noise, Frames.err x) e t = moved_on h laws node begin ch s noise e t
    heard-Trusted ch s (noise, Frames.ok frame) e t =
        let m = moved_on h laws node begin ch s noise e t in
        record { keeps = m.keeps; agrees = m.agrees }

    in_session-Trusted :
        (ch : NoiseChannel h) (s : Session h) (bytes : Bytes) (binary : Bool)
        → ch.session ≡ some s
        → T ch
        → T (in_session h bytes binary s ch).0
    unfolding in_session give
    in_session-Trusted ch s bytes false e t = t
    in_session-Trusted ch s bytes true e t =
        heard-Trusted ch s (decrypt_frame calls s.noise bytes) e t

    received-Trusted :
        (ch : NoiseChannel h) (bytes : Bytes) (binary : Bool) (o : Option (Session h))
        → ch.session ≡ o
        → T ch
        → T (received h w bytes binary ch o).0
    received-Trusted ch bytes binary (some s) e t = in_session-Trusted ch s bytes binary e t
    received-Trusted ch bytes binary none e t =
        (before_session-Ends ch bytes binary).ends ch
          (record { keeps = t.keeps; no_session = e; is_named = refl })

    marked-Trusted : (x : NoiseChannel h × Result Got) → T x.0 → T (marked h x).0
    marked-Trusted (ch, ok got) t = t
    marked-Trusted (ch, err e) t = record { keeps = t.keeps; agrees = t.agrees }

    pub receive-Trusted :
        (ch : NoiseChannel h) (bytes : Bytes) (binary : Bool)
        → T ch
        → T (receive h w bytes binary ch).0
    unfolding receive receive_inner
    receive-Trusted ch bytes binary t =
        T-if h laws node begin ch.is_failed (ch, err failed_before)
          (marked h (receive_inner h w bytes binary ch)) t
          (marked-Trusted (receive_inner h w bytes binary ch)
            (received-Trusted ch bytes binary ch.session refl t))

-- ===== src/Tests/Control.antt =====
-- A link of src/transport.rs that fails under KK and is made under XX, and an ask that is refused.
use Prim.Native.String.{String}
use thalovant_rust_sdk.Prelude.{
  true, false, not, ◌&&◌, none, some, [], ◌∷◌, ◌≡◌, ◌↔◌, refl, arith, All,
}
use thalovant_rust_sdk.Errors.{ThalovantError, hub_refused, ok, err}
use thalovant_rust_sdk.Control.{
  ConnectionControl, receive_failed, opened, Link, connect_kk_then_xx, peer_closed, note_all,
  reset_link, is_refusal_code, code_of, is_old, reserve_reply, already_active, is_active,
}
use thalovant_rust_sdk.Control.Verdicts.{
  connect_lem, outcome, retries, key_rejected_lem, soon_after, any_heard, last_xx,
}
use thalovant_rust_sdk.Control.InFlight.{alone_iff, takes_refusal}

abbrev idle : ConnectionControl
idle = record {
  active_replies = (false, "ask 1") ∷ [];
  untracked_sends = 1 ∷ 2 ∷ [];
  verdict = none;
  kk_failed = false;
  force_xx = false;
  heard = true;
  completed_xx = false;
  key_rejected = false;
  refused_after_handshake = false;
}

abbrev turned_away : ThalovantError
turned_away = hub_refused "wrong password"

abbrev rotated : Link
rotated false = (receive_failed turned_away true ∷ [], err turned_away)
rotated true = (opened true ∷ [], ok tt)

second_attempt : (connect_kk_then_xx rotated idle).1 ≡ ok tt
unfolding connect_kk_then_xx
second_attempt = refl

connect_lem_example :
    ((connect_kk_then_xx rotated idle).1 ≡ outcome rotated (retries rotated))
    × ((connect_kk_then_xx rotated idle).0.force_xx ≡ false)
connect_lem_example = connect_lem rotated idle

key_rejected_lem_example :
    (peer_closed none (some 5) false (note_all (opened true ∷ []) (reset_link idle))).key_rejected
    ≡ (is_refusal_code (code_of none)
        && (soon_after (some 5)
            && (not (any_heard false (opened true ∷ [])) && last_xx false (opened true ∷ []))))
key_rejected_lem_example = key_rejected_lem (opened true ∷ []) idle none (some 5) false

alone_iff_example : (takes_refusal 99999999999 "ask 1" idle ≡ true) ↔ (
    ((id : String) × (idle.active_replies ≡ (false, id) ∷ []))
    × All (λ sent. is_old 99999999999 sent ≡ true) idle.untracked_sends)
alone_iff_example = alone_iff 99999999999 "ask 1" idle ((omega arith, tt), (tt, tt))

reserved_twice : (reserve_reply false "ask 1" idle).1 ≡ err already_active
unfolding reserve_reply is_active
reserved_twice = refl

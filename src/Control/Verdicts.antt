-- ===== src/Control/Verdicts.antt =====
-- What src/transport.rs makes of how a link ended.
use thalovant_rust_sdk.Prelude.{
  ℕ, Bool, true, false, not, ◌&&◌, ◌||◌, Option, none, some, List, [], ◌∷◌, ◌≡◌, refl, ap, ◌∙◌,
  arith, is_some, if◌then◌else◌, leb,
}
use thalovant_rust_sdk.Errors.{Result, ok, err}
use thalovant_rust_sdk.Control.{
  ConnectionControl, HandshakeVerdict, verdict_of, note_verdict, note_failure, note_refusal_close,
  peer_closed, close_refuses_after, code_of, Note, receive_failed, decrypted, opened, closed, note,
  note_all, Link, connect_attempt, after_kk, connect_kk_then_xx, is_ok, retry, reset_link,
  milliseconds, is_refusal_code,
}

-- The notes alone, without the rest of the control: whether a frame was decrypted, and how the last
-- handshake ended.
abbrev hears : Bool → Note → Bool
hears h (receive_failed e kk) = h
hears h decrypted = true
hears h (opened xx) = h
hears h (closed frame after kk) = h

abbrev pub any_heard : Bool → List Note → Bool
any_heard h [] = h
any_heard h (n ∷ ns) = any_heard (hears h n) ns

abbrev ends_xx : Bool → Note → Bool
ends_xx xx (receive_failed e kk) = xx
ends_xx xx decrypted = xx
ends_xx xx (opened now) = now
ends_xx xx (closed frame after kk) = xx

abbrev pub last_xx : Bool → List Note → Bool
last_xx xx [] = xx
last_xx xx (n ∷ ns) = last_xx (ends_xx xx n) ns

-- Whether one note says that a KK handshake failed.
abbrev kk_verdict : Bool → Option HandshakeVerdict → Bool
kk_verdict kk none = false
kk_verdict kk (some v) = kk

abbrev says_kk_failed : Bool → Note → Bool
says_kk_failed h (receive_failed e kk) = kk_verdict kk (verdict_of e)
says_kk_failed h decrypted = false
says_kk_failed h (opened xx) = false
says_kk_failed h (closed frame after kk) =
    close_refuses_after (some (code_of frame)) after 0 h && (not (is_some after) && kk)

abbrev pub kk_failed_in : Bool → List Note → Bool
kk_failed_in h [] = false
kk_failed_in h (n ∷ ns) = says_kk_failed h n || kk_failed_in (hears h n) ns

record Follows (h xx kk forced : Bool) (d : ConnectionControl) : Type 0 where
  heard_lem : d.heard ≡ h
  xx_lem : d.completed_xx ≡ xx
  kk_lem : d.kk_failed ≡ kk
  forced_lem : d.force_xx ≡ forced

verdict-Follows :
    (c : ConnectionControl) (kk : Bool) (v : Option HandshakeVerdict)
    → Follows c.heard c.completed_xx
        (kk_verdict kk v || c.kk_failed)
        c.force_xx
        (note_verdict c kk v)
verdict-Follows c kk none = record {
  heard_lem = refl;
  xx_lem = refl;
  kk_lem = refl;
  forced_lem = refl;
}
verdict-Follows c true (some v) = record {
  heard_lem = refl;
  xx_lem = refl;
  kk_lem = refl;
  forced_lem = refl;
}
verdict-Follows c false (some v) = record {
  heard_lem = refl;
  xx_lem = refl;
  kk_lem = refl;
  forced_lem = refl;
}

closed-Follows :
    (c : ConnectionControl) (refuses before kk rejected : Bool)
    → Follows c.heard c.completed_xx ((refuses && (before && kk)) || c.kk_failed) c.force_xx (
        if refuses && before
        then note_refusal_close kk (record c { key_rejected = rejected })
        else record c { key_rejected = rejected })
unfolding note_refusal_close
closed-Follows c true true true rejected = record {
  heard_lem = refl;
  xx_lem = refl;
  kk_lem = refl;
  forced_lem = refl;
}
closed-Follows c true true false rejected = record {
  heard_lem = refl;
  xx_lem = refl;
  kk_lem = refl;
  forced_lem = refl;
}
closed-Follows c true false kk rejected = record {
  heard_lem = refl;
  xx_lem = refl;
  kk_lem = refl;
  forced_lem = refl;
}
closed-Follows c false before kk rejected = record {
  heard_lem = refl;
  xx_lem = refl;
  kk_lem = refl;
  forced_lem = refl;
}

note-Follows :
    (n : Note) (c : ConnectionControl)
    → Follows
        (hears c.heard n)
        (ends_xx c.completed_xx n)
        (says_kk_failed c.heard n || c.kk_failed)
        c.force_xx
        (note n c)
unfolding note note_failure peer_closed
note-Follows (receive_failed e kk) c = verdict-Follows c kk (verdict_of e)
note-Follows decrypted c = record {
  heard_lem = refl;
  xx_lem = refl;
  kk_lem = refl;
  forced_lem = refl;
}
note-Follows (opened xx) c = record {
  heard_lem = refl;
  xx_lem = refl;
  kk_lem = refl;
  forced_lem = refl;
}
note-Follows (closed frame after kk) c =
    closed-Follows c (close_refuses_after (some (code_of frame)) after 0 c.heard)
      (not (is_some after)) kk _

or_later : (a b c : Bool) → (b || (a || c)) ≡ ((a || b) || c)
or_later a b c = ground arith

all-Follows :
    (ns : List Note) (c : ConnectionControl)
    → Follows
        (any_heard c.heard ns)
        (last_xx c.completed_xx ns)
        (kk_failed_in c.heard ns || c.kk_failed)
        c.force_xx
        (note_all ns c)
unfolding note_all
all-Follows [] c = record { heard_lem = refl; xx_lem = refl; kk_lem = refl; forced_lem = refl }
all-Follows (n ∷ ns) c =
    let d = note n c in
    let one = note-Follows n c in
    let rest = all-Follows ns d in
    record {
      heard_lem = rest.heard_lem ∙ ap (λ h. any_heard h ns) one.heard_lem;
      xx_lem = rest.xx_lem ∙ ap (λ x. last_xx x ns) one.xx_lem;
      kk_lem =
          rest.kk_lem
          ∙ ap (λ h. kk_failed_in h ns || d.kk_failed) one.heard_lem
          ∙ ap (λ k. kk_failed_in (hears c.heard n) ns || k) one.kk_lem
          ∙ or_later (says_kk_failed c.heard n) (kk_failed_in (hears c.heard n) ns) c.kk_failed;
      forced_lem = rest.forced_lem ∙ one.forced_lem;
    }

-- Whether the first attempt is followed by one over XX.
abbrev pub retries : Link → Bool
retries link = not (is_ok (link false).1) && kk_failed_in false (link false).0

abbrev pub outcome : Link → Bool → Result (Unit {0})
outcome link again = if again then (link true).1 else (link false).1

after_lem :
    (link : Link) (c : ConnectionControl) (r : Result (Unit {0})) (kk : Bool)
    → c.kk_failed ≡ kk
    → c.force_xx ≡ false
    → ((after_kk link (c, r)).1 ≡ (if not (is_ok r) && kk then (link true).1 else r))
      × ((after_kk link (c, r)).0.force_xx ≡ false)
unfolding after_kk connect_attempt
after_lem link c (ok u) kk k f = (refl, f)
after_lem link c (err e) true k f = (
  ap (λ b. (retry link (record c { kk_failed = false }) e b).1) k,
  ap (λ b. (retry link (record c { kk_failed = false }) e b).0.force_xx) k,
)
after_lem link c (err e) false k f = (
  ap (λ b. (retry link (record c { kk_failed = false }) e b).1) k,
  ap (λ b. (retry link (record c { kk_failed = false }) e b).0.force_xx) k ∙ f,
)

or_false : (a : Bool) → (a || false) ≡ a
or_false true = refl
or_false false = refl

-- A connect makes the attempt that may use KK, and one over XX exactly when the first failed and it
-- was noted that KK did not authenticate: in an answer that did not, with a verdict on the
-- credentials, or in a close that refuses them while KK was pending. The last attempt's outcome is
-- the connect's, and no later connect is held to XX.
pub connect_lem :
    (link : Link) (c : ConnectionControl)
    → ((connect_kk_then_xx link c).1 ≡ outcome link (retries link))
      × ((connect_kk_then_xx link c).0.force_xx ≡ false)
unfolding connect_kk_then_xx connect_attempt reset_link
connect_lem link c =
    let start = reset_link (record c { verdict = none; kk_failed = false; force_xx = false }) in
    let f = all-Follows (link false).0 start in
    after_lem link (note_all (link false).0 start) (link false).1
      (kk_failed_in false (link false).0) (f.kk_lem ∙ or_false (kk_failed_in false (link false).0))
      f.forced_lem

abbrev pub soon_after : Option ℕ → Bool
soon_after none = false
soon_after (some t) = leb t (milliseconds 750)

rejected_lem :
    (c : ConnectionControl) (refuses before kk rejected : Bool)
    → (if refuses && before
        then note_refusal_close kk (record c { key_rejected = rejected })
        else record c { key_rejected = rejected }).key_rejected
      ≡ rejected
unfolding note_refusal_close
rejected_lem c true true kk rejected = refl
rejected_lem c true false kk rejected = refl
rejected_lem c false before kk rejected = refl

rejects :
    (code : ℕ) (after : Option ℕ) (h xx : Bool)
    → (close_refuses_after (some code) after 0 h && (is_some after && xx))
      ≡ (is_refusal_code code && (soon_after after && (not h && xx)))
unfolding close_refuses_after
rejects code none h xx = ground arith
rejects code (some t) h xx = ground arith

-- After what a link noted, a close frame is taken for the refusal of the client's own key exactly
-- when its code is one that refuses, or it has none, it comes within 750 ms after the handshake, no
-- frame was decrypted before it, and the last handshake was over XX.
pub key_rejected_lem :
    (ns : List Note) (c : ConnectionControl) (frame after : Option ℕ) (kk : Bool)
    → (peer_closed frame after kk (note_all ns (reset_link c))).key_rejected ≡ (
        is_refusal_code (code_of frame)
        && (soon_after after && (not (any_heard false ns) && last_xx false ns)))
unfolding peer_closed reset_link
key_rejected_lem ns c frame after kk =
    let d = note_all ns (reset_link c) in
    let f = all-Follows ns (reset_link c) in
    rejected_lem d (close_refuses_after (some (code_of frame)) after 0 d.heard)
      (not (is_some after)) kk _
    ∙ ap
        (λ h.
          close_refuses_after (some (code_of frame)) after 0 h && (is_some after && d.completed_xx))
        f.heard_lem
    ∙ ap
        (λ x.
          close_refuses_after (some (code_of frame)) after 0 (any_heard false ns)
          && (is_some after && x))
        f.xx_lem
    ∙ rejects (code_of frame) after (any_heard false ns) (last_xx false ns)

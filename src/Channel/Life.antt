-- ===== src/Channel/Life.antt =====
-- A whole link of src/transport.rs: the frames that a channel is given, one after the other.
use Prim.Native.String.{String}
use thalovant_rust_sdk.Prelude.{
  Bool, true, Option, none, some, List, [], ◌∷◌, ◌≡◌, refl, sym, ◌∙◌, subst, All, Bool-cases, inl,
  inr,
}
use thalovant_rust_sdk.Trust.{Folder, eq_ignore_ascii_case}
use thalovant_rust_sdk.Trust.Pinning.{Laws, pinned}
use thalovant_rust_sdk.Trust.Agreement.{Accepted}
use thalovant_rust_sdk.Noise.Cipher.{Bytes}
use thalovant_rust_sdk.Channel.{
  Host, Visits, Session, Identity, NoiseChannel, new_channel, adopting, remote_key, key_in,
}
use thalovant_rust_sdk.Channel.Receiving.{receive}
use thalovant_rust_sdk.Channel.Opening.{Spares, Trusted}
use thalovant_rust_sdk.Channel.Trusting.{receive-Trusted}

pub record Frame : Type 0 where
  pub visits : Visits
  pub bytes : Bytes
  pub is_binary : Bool

some_same : (a b : String) → some a ≡ some b → a ≡ b
some_same a b e = cc

module _ (h : Host) where
  open h use {files}

  unfoldable pub feed : List Frame → NoiseChannel h → NoiseChannel h
  unfolding receive
  feed [] ch = ch
  feed (f ∷ fs) ch = feed fs (receive h f.visits f.bytes f.is_binary ch).0

  -- A channel as it is made, on a state folder.
  unfoldable pub begun : Identity → Folder → Bool → Bool → Option (Folder × Bool) → NoiseChannel h
  unfolding new_channel adopting
  begun identity disk has_state_dir force_xx from =
      adopting h (new_channel h identity disk has_state_dir force_xx) from

  -- After some frames.
  abbrev pub ended :
      Identity → Folder → Bool → Bool → Option (Folder × Bool) → List Frame → NoiseChannel h
  ended identity disk has_state_dir force_xx from frames =
      feed frames (begun identity disk has_state_dir force_xx from)

  module _ (laws : Laws files) (node : String) where
    feed-Trusted :
        (begin : Folder) (frames : List Frame) (ch : NoiseChannel h)
        → All (λ f. Spares node f.visits) frames
        → Trusted h laws node begin ch
        → Trusted h laws node begin (feed frames ch)
    unfolding feed
    feed-Trusted begin [] ch s t = t
    feed-Trusted begin (f ∷ fs) ch s t =
        feed-Trusted begin fs _ s.1
          (receive-Trusted h laws node begin f.visits s.0 ch f.bytes f.is_binary t)

    begun-Trusted :
        (identity : Identity) (disk : Folder) (has_state_dir force_xx : Bool)
        (from : Option (Folder × Bool))
        → Trusted h laws node disk (begun identity disk has_state_dir force_xx from)
    unfolding begun adopting new_channel
    begun-Trusted identity disk has_state_dir force_xx from = record {
      keeps = record { kept = λ key p. p };
      agrees = λ s e n. absurd (no_session s e);
    }
      where
        no_session : (s : Session h) → none ≡ some s → ⊥
        no_session s e = cc

    with_key :
        (begin : Folder) (ch : NoiseChannel h) (o : Option (Session h)) (key : String)
        → Trusted h laws node begin ch
        → ch.session ≡ o
        → ch.node_id ≡ node
        → key_in h o ≡ some key
        → Accepted files laws ch.disk node key
    with_key begin ch none key t s n e = absurd (cc)
    with_key begin ch (some s) key t p n e =
        let a = t.agrees s p n in
        subst (λ x. Accepted files laws ch.disk node x) (some_same a.key key (sym a.is_key ∙ e))
          a.is_accepted

    key_Accepted :
        (begin : Folder) (ch : NoiseChannel h) (key : String)
        → Trusted h laws node begin ch
        → ch.node_id ≡ node
        → remote_key h ch ≡ some key
        → Accepted files laws ch.disk node key
    unfolding remote_key
    key_Accepted begin ch key t n e = elim (Bool-cases ch.is_failed) [
      | inl bad ↦ absurd (nothing (rw bad at e))
      | inr good ↦ with_key begin ch ch.session key t refl n (rw good at e)
    ]
      where
        nothing : none ≡ some key → ⊥
        nothing e = cc

    module _ (identity : Identity) (disk : Folder) (has_state_dir force_xx : Bool)
        (from : Option (Folder × Bool)) (frames : List Frame)
        (s : All (λ f. Spares node f.visits) frames) where
      abbrev at_end : NoiseChannel h
      at_end = ended identity disk has_state_dir force_xx from frames

      ended-Trusted : Trusted h laws node disk at_end
      ended-Trusted =
          feed-Trusted disk frames _ s (begun-Trusted identity disk has_state_dir force_xx from)

      -- Whatever frames a channel is given, and whatever becomes of its folder meanwhile, while no
      -- other process forgets the pin of the hub that the channel names: when the channel has a
      -- session with that hub, the hub's key is the one that the folder now has pinned for it, but
      -- for the case of letters. What serde_json prints of a map it reads back.
      pub remote_key-Accepted :
          (key : String)
          → at_end.node_id ≡ node
          → remote_key h at_end ≡ some key
          → Accepted files laws at_end.disk node key
      remote_key-Accepted key n e = key_Accepted disk at_end key ended-Trusted n e

      -- A channel on a folder that had a key pinned for a hub has a session with that hub only under
      -- the key that was pinned, but for the case of letters, whatever frames it was given, while no
      -- other process forgets the pin. What serde_json prints of a map it reads back.
      pub remote_key-pinned :
          (key old : String)
          → pinned files disk node ≡ some old
          → at_end.node_id ≡ node
          → remote_key h at_end ≡ some key
          → eq_ignore_ascii_case old key ≡ true
      remote_key-pinned key old p n e =
          let a = remote_key-Accepted key n e in
          let still = ended-Trusted.keeps.kept old p in
          subst (λ x. eq_ignore_ascii_case x key ≡ true)
            (some_same a.pin old (sym a.is_pinned ∙ still)) a.agrees

-- ===== src/Channel/Opening.antt =====
-- What is followed through the calls of src/transport.rs: the session, the hub's name and its pin.
use Prim.Native.String.{String}
use thalovant_rust_sdk.Prelude.{true, none, some, ◌≡◌, sym, ◌∙◌, All}
use thalovant_rust_sdk.Errors.{Result, ok, err}
use thalovant_rust_sdk.Trust.{Folder, Answers, Outcome}
use thalovant_rust_sdk.Trust.Pinning.{Laws, Keeps}
use thalovant_rust_sdk.Trust.Calls.{spares, run, run-Keeps}
use thalovant_rust_sdk.Trust.Agreement.{Accepted}
use thalovant_rust_sdk.Channel.{
  Host, Visit, Visits, Session, NoiseChannel, after, ◌>>=◌, give, change, on_disk, put_disk,
  ignoring,
}
use thalovant_rust_sdk.Channel.Starting.{Act}

abbrev pub SparesAt : String → Visit → Type 0
SparesAt node v = All (λ a. spares node a ≡ true) v.meanwhile

-- No other process forgets the pin of the hub.
pub record Spares (node : String) (w : Visits) : Type 0 where
  pub adopt : SparesAt node w.adopt
  pub load_pin : SparesAt node w.load_pin
  pub make_key : SparesAt node w.make_key
  pub load_psk : SparesAt node w.load_psk
  pub save_psk : SparesAt node w.save_psk
  pub forget_psk : SparesAt node w.forget_psk
  pub check_pin : SparesAt node w.check_pin
  pub pin_key : SparesAt node w.pin_key

module _ (h : Host) (laws : Laws h.files) (node : String) (begin : Folder) where
  open h use {files}

  -- The hub's key of a session is the one that is pinned.
  pub record Agrees (f : Folder) (s : Session h) : Type 0 where
    pub key : String
    pub is_key : s.remote_static_key ≡ some key
    pub is_accepted : Accepted files laws f node key

  pub record Trusted (ch : NoiseChannel h) : Type 0 where
    pub keeps : Keeps files node begin ch.disk
    pub agrees : (s : Session h) → ch.session ≡ some s → ch.node_id ≡ node → Agrees ch.disk s

  pub record Before (id : String) (ch : NoiseChannel h) : Type 0 where
    pub keeps : Keeps files node begin ch.disk
    pub no_session : ch.session ≡ none
    pub is_named : ch.node_id ≡ id

  pub Before-Trusted : (id : String) (ch : NoiseChannel h) → Before id ch → Trusted ch
  Before-Trusted id ch b = record {
    keeps = b.keeps;
    agrees = λ s e n. absurd (apart s (sym b.no_session ∙ e));
  }
    where
      apart : (s : Session h) → none ≡ some s → ⊥
      apart s e = cc

  pub Keeps-on :
      (f g : Folder) → Keeps files node begin f → Keeps files node f g → Keeps files node begin g
  Keeps-on f g k l = record { kept = λ key p. l.kept key (k.kept key p) }

  -- A call that opens no session, one that may, and one on a session that may be open.
  pub record Safe {A : Type 0} (id : String) (m : Act h A) : Type 0 where
    pub safe : (ch : NoiseChannel h) → Before id ch → Before id (m ch).0

  pub record Ends {A : Type 0} (id : String) (m : Act h A) : Type 0 where
    pub ends : (ch : NoiseChannel h) → Before id ch → Trusted (m ch).0

  pub record Holds {A : Type 0} (m : Act h A) : Type 0 where
    pub stays : (ch : NoiseChannel h) → Trusted ch → Trusted (m ch).0

  after-Safe :
      {A B : Type 0} (id : String) (x : NoiseChannel h × Result A) (k : A → Act h B)
      → Before id x.0
      → ((a : A) → Safe id (k a))
      → Before id (after x k).0
  after-Safe id (ch, ok a) k b s = (s a).safe ch b
  after-Safe id (ch, err e) k b s = b

  pub bind-Safe :
      {A B : Type 0} (id : String) (m : Act h A) (k : A → Act h B)
      → Safe id m
      → ((a : A) → Safe id (k a))
      → Safe id (m >>= k)
  unfolding ◌>>=◌
  bind-Safe id m k s t = record { safe = λ ch b. after-Safe id (m ch) k (s.safe ch b) t }

  after-Ends :
      {A B : Type 0} (id : String) (x : NoiseChannel h × Result A) (k : A → Act h B)
      → Before id x.0
      → ((a : A) → Ends id (k a))
      → Trusted (after x k).0
  after-Ends id (ch, ok a) k b s = (s a).ends ch b
  after-Ends id (ch, err e) k b s = Before-Trusted id ch b

  pub bind-Ends :
      {A B : Type 0} (id : String) (m : Act h A) (k : A → Act h B)
      → Safe id m
      → ((a : A) → Ends id (k a))
      → Ends id (m >>= k)
  unfolding ◌>>=◌
  bind-Ends id m k s t = record { ends = λ ch b. after-Ends id (m ch) k (s.safe ch b) t }

  after-Holds :
      {A B : Type 0} (x : NoiseChannel h × Result A) (k : A → Act h B)
      → Trusted x.0
      → ((a : A) → Holds (k a))
      → Trusted (after x k).0
  after-Holds (ch, ok a) k b s = (s a).stays ch b
  after-Holds (ch, err e) k b s = b

  pub Ends-Holds :
      {A B : Type 0} (id : String) (m : Act h A) (k : A → Act h B)
      → Ends id m
      → ((a : A) → Holds (k a))
      → Ends id (m >>= k)
  unfolding ◌>>=◌
  Ends-Holds id m k s t = record { ends = λ ch b. after-Holds (m ch) k (s.ends ch b) t }

  pub bind-Holds :
      {A B : Type 0} (m : Act h A) (k : A → Act h B)
      → Holds m
      → ((a : A) → Holds (k a))
      → Holds (m >>= k)
  unfolding ◌>>=◌
  bind-Holds m k s t = record { stays = λ ch b. after-Holds (m ch) k (s.stays ch b) t }

  pub Safe-Ends : {A : Type 0} (id : String) (m : Act h A) → Safe id m → Ends id m
  Safe-Ends id m s = record { ends = λ ch b. Before-Trusted id (m ch).0 (s.safe ch b) }

  pub give-Safe : {A : Type 0} (id : String) (r : Result A) → Safe id (give r)
  unfolding give
  give-Safe id r = record { safe = λ ch b. b }

  pub give-Holds : {A : Type 0} (r : Result A) → Holds (give r)
  unfolding give
  give-Holds r = record { stays = λ ch b. b }

  pub ignoring-Safe : {A : Type 0} (id : String) (m : Act h A) → Safe id m → Safe id (ignoring m)
  unfolding ignoring
  ignoring-Safe id m s = record { safe = λ ch b. s.safe ch b }

  -- A change of the fields that say nothing of the session, the hub or the folder.
  pub change-Safe :
      (id : String) (f : NoiseChannel h → NoiseChannel h)
      → ((ch : NoiseChannel h) → Before id ch → Before id (f ch))
      → Safe id (change f)
  unfolding change
  change-Safe id f s = record { safe = s }

  pub put_disk-Safe :
      {A : Type 0} (id : String) (ch : NoiseChannel h) (x : Outcome A)
      → Before id ch
      → Keeps files node begin x.0
      → Before id (put_disk h ch x).0
  put_disk-Safe id ch (f, r) b k = record {
    keeps = k;
    no_session = b.no_session;
    is_named = b.is_named;
  }

  pub on_disk-Safe :
      {A : Type 0} (id : String) (v : Visit) (call : Answers → Folder → Outcome A)
      → SparesAt node v
      → ((a : Answers) (f : Folder) → Keeps files node f (call a f).0)
      → Safe id (on_disk h v call)
  unfolding on_disk
  on_disk-Safe id v call s k = record {
    safe = λ ch b.
        let g = run files ch.disk v.meanwhile in
        put_disk-Safe id ch (call v.answers g) b (
          Keeps-on g (call v.answers g).0
            (Keeps-on ch.disk g b.keeps (run-Keeps files laws node ch.disk v.meanwhile s))
            (k v.answers g));
  }

-- ===== src/Noise/Cipher.antt =====
-- What src/noise.rs asks of the `snow` crate's `TransportState`: two stateful calls, and what its
-- documentation promises of a pair of states that came out of one handshake.
use thalovant_rust_sdk.Prelude.{ℕ, suc, ◌≤◌, ◌≡◌, Option, some, List, length}

abbrev pub Bytes : Type 0
Bytes = List ℕ

-- The calls: each returns the state after it, and `none` for an error.
pub record Calls : Type 1 where
  pub Transport : Type 0
  pub write_message : Transport → Bytes → Transport × Option Bytes
  pub read_message : Transport → Bytes → Transport × Option Bytes

-- A Noise transport message holds 65535 bytes, 16 of them the tag.
abbrev pub max_plaintext : ℕ
max_plaintext = 65519

module _ (c : Calls) where
  open c use {Transport, write_message, read_message}

  pub record Laws : Type 1 where
    -- What `a` sends next is what `b` expects next.
    pub InStep : Transport → Transport → Type 0
    -- `a` has nonces left for that many messages.
    pub CanWrite : ℕ → Transport → Type 0
    pub weaken : (a : Transport) (n : ℕ) → CanWrite (suc n) a → CanWrite n a
    pub write_lem :
        (a : Transport) (n : ℕ) (p : Bytes)
        → CanWrite (suc n) a
        → length p ≤ max_plaintext
        → (s : Bytes) × ((write_message a p).1 ≡ some s) × CanWrite n (write_message a p).0
    pub read_lem :
        (a b : Transport) (p s : Bytes)
        → InStep a b
        → (write_message a p).1 ≡ some s
        → ((read_message b s).1 ≡ some p) × InStep (write_message a p).0 (read_message b s).0

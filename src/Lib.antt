-- ===== src/Lib.antt =====
-- Verification library of the Thalovant Rust SDK.
--
-- The SDK is a client of a HiveMind hub. A `Client` opens an encrypted link and sends and receives
-- events; a `HubSession` keeps one such client alive: it makes the client by a factory, notices when
-- the link drops, dials again by a policy, and hands every event to the registered handlers. Below
-- the client, a Noise session cuts messages into encrypted frames and puts them together again.
--
-- Which file models what:
--
-- * Link (src/session.rs): `HubSessionPolicy` and `LinkSupervisor::after`. Link/Reference gives a
--   reference that reads the whole history; Link/Grace and Link/Bounds prove from it.
-- * Handlers (src/session.rs): the registry of handlers. Handlers/Store has `start_task`, `retire`,
--   the drop of `RunningEntry`, `dispatch`, and `on`, `off` and the end of `close` each in two parts,
--   since the code tests, or retires, without the lock of the handlers: what `off` and `close` have
--   taken and not yet retired is a list of its own. Handlers/Schedule lets threads run these in any
--   order. A `Tasks` stands at an address, since copies of a registration share it; an abort handle is
--   its task's number.
-- * Session (src/session.rs): the held client. One function each for `cleanup`, `drop_client`,
--   `establish`, `connect`, `call`, `warm`, `probe` and `close`. They run under the `held` lock, so
--   an operation is one step; what another thread can do to it meanwhile is the first half of
--   `close`, and the answers to all that is awaited are a `World`, one for each step.
--   Session/Managed is the loop of `HubSession::run`, one round at a time.
-- * Wire (src/wire.rs): the binary frames of a link, read bit by bit. serde_json, flate2 and the
--   UTF-8 check are the record `Codec`. `HiveMessage` (src/transport.rs) has all its fields; a frame
--   has room for the type, the payload and the metadata.
-- * Stream (src/stream.rs): `EventStream::recv`, each round of its loop a `Tick`. Events
--   (src/events.rs) has which event belongs to a request or a session;
--   Refusal (src/refusal.rs) whose refusal one is, and the error it becomes.
-- * Noise (src/noise.rs): Noise/Select is `select_noise_options`; Noise/Frames is `encrypt_message`
--   and `decrypt_frame`. The transport state of the `snow` crate is the record `Calls` of
--   Noise/Cipher, and its documented behaviour (what one end writes the other reads, in order,
--   while nonces last) is `Laws`.
--   Noise/Canonical is the canonical JSON of the prologue, and Noise/Handshake the initiator over
--   the record `Snow` of that crate's calls on a handshake.
-- * Trust (src/noise_store.rs): the state folder. Its three files are values; each operation is
--   given `Answers`, what the lock, the writing and a race with another process come to. Trust/Calls
--   has any sequence of operations.
-- * Channel (src/transport.rs): `NoiseChannel`, built of the two before and of Wire. An operation is
--   a function `Op` from a channel to a channel and a result, sequenced by `do`; before each call on
--   the folder stand the calls that other processes made meanwhile. Channel/Life runs a channel
--   over a list of frames, Channel/Gate has what it lets through, and
--   Channel/Linked is `receive_noise`, with what it tells the Control.
-- * Control (src/transport.rs): `ConnectionControl`. The transport's own `connect_locked` is a `Link`,
--   which says what is noted while it runs and how it ends. Control/InFlight counts the replies and
--   sends under way for Refusal; Control/Verdicts has how a link ended.
-- * Conversations (src/client.rs, src/events.rs): what a client remembers from turn to turn. A
--   HashMap is a list of entries.
-- * Redact (src/redact.rs): what may be printed of a value and of an error body.
-- * Errors (src/errors.rs): `ThalovantError`, the HTTP answers of the API, and the kinds of
--   connection error that are told apart by how the message begins. Text and Json have what the
--   source uses of `str` and of `serde_json::Value`.
--
-- Numbers: a `Duration` and an `Instant` are nanoseconds; the additions that saturate and the
-- counters that wrap at 64 bits do so in the model. Fuel: the loop of `encrypt_message` has one round
-- more than the payload has bytes, and every round but the last takes a chunk, so it never
-- runs out. The loop that skips a frame's padding has a round for every bit and one more, and a value
-- of its own for running out. The loop that takes over a conversation's ids has a round for each id
-- and each alias and one more, and is `none` when it runs out. The one that evicts has a round for
-- each entry.
--
-- An ordered policy has a positive first wait, not above its ceiling, which a `Duration` can hold.
-- Tests has the definitions at concrete inputs.
--
-- Not modelled: the transport's sockets, the API client, the intents and home models. The
-- cryptographic crates, serde_json on disk and the clock are parameters.
pub mod Prelude
pub mod Link
pub mod Noise
pub mod Handlers
pub mod Refusal
pub mod Stream
pub mod Trust
pub mod Channel
pub mod Conversations
pub mod Control
pub mod Redact
pub mod Text
pub mod Json
pub mod Errors
pub mod Session
pub mod Events
pub mod Tests
pub mod Wire

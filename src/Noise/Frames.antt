-- ===== src/Noise/Frames.antt =====
-- `encrypt_message` and `decrypt_frame` of src/noise.rs over an abstract cipher. A byte string is a
-- list of numbers.
use thalovant_rust_sdk.Prelude.{
  ℕ, zero, suc, ◌+◌, ◌-◌, ◌*◌, min, Bool, true, false, Option, none, some, List, [], ◌∷◌, ◌++◌,
  length, take, drop, ltb, leb, ◌==◌, if◌then◌else◌,
}
use thalovant_rust_sdk.Noise.Cipher.{Bytes, Calls}

-- Each is a `ThalovantError::Connection`; the constructors stand for its messages.
pub data FrameError : Type 0 where
  encryption_failed rejected empty_message no_chunk_open out_of_fuel : FrameError
  stale over_cap unknown_marker : ℕ → FrameError

pub data Result {ℓ} (A : Type ℓ) : Type ℓ where
  ok : A → Result A
  err : FrameError → Result A

abbrev pub frame_json : ℕ
frame_json = 0

abbrev pub frame_binary : ℕ
frame_binary = 1

abbrev pub frame_first_json : ℕ
frame_first_json = 2

abbrev pub frame_first_binary : ℕ
frame_first_binary = 3

abbrev pub frame_more : ℕ
frame_more = 4

abbrev pub frame_last : ℕ
frame_last = 5

abbrev pub noise_chunk_size : ℕ
noise_chunk_size = 65000

abbrev pub noise_max_reassembly : ℕ
noise_max_reassembly = 32 * 1024 * 1024

pub data NoiseFrame : Type 0 where
  message : Bytes → Bool → NoiseFrame
  partial : NoiseFrame

pub record Reassembly : Type 0 where
  pub buffer : Bytes
  pub is_json : Bool

abbrev pub buffered : Option Reassembly → ℕ
buffered none = 0
buffered (some r) = length r.buffer

-- `guard_reassembly_cap`, at the cap `limit`.
unfoldable pub guard_reassembly_cap : ℕ → Option Reassembly → Option Reassembly × Result (Unit {0})
guard_reassembly_cap limit open_message =
    if leb (buffered open_message) limit
    then (open_message, ok tt)
    else (none, err (over_cap (buffered open_message)))

-- After the guard, `Partial` or the error.
abbrev partial_after : Option Reassembly × Result (Unit {0}) → Option Reassembly × Result NoiseFrame
partial_after (o, ok u) = (o, ok partial)
partial_after (o, err e) = (o, err e)

-- After the guard, the finished message or the error.
abbrev finish_after : Option Reassembly × Result (Unit {0}) → Option Reassembly × Result NoiseFrame
finish_after (o, err e) = (o, err e)
finish_after (none, ok u) = (none, err no_chunk_open)
finish_after (some r, ok u) = (none, ok (message r.buffer r.is_json))

abbrev complete : Option Reassembly → Bytes → Bool → Option Reassembly × Result NoiseFrame
complete none body json = (none, ok (message body json))
complete (some r) body json = (none, err (stale (length r.buffer)))

abbrev start : ℕ → Option Reassembly → Bytes → Bool → Option Reassembly × Result NoiseFrame
start limit none body json =
    partial_after (guard_reassembly_cap limit (some (record { buffer = body; is_json = json })))
start limit (some r) body json = (none, err (stale (length r.buffer)))

abbrev extend : Reassembly → Bytes → Option Reassembly
extend r body = some (record r { buffer = r.buffer ++ body })

abbrev more : ℕ → Option Reassembly → Bytes → Option Reassembly × Result NoiseFrame
more limit none body = (none, err no_chunk_open)
more limit (some r) body = partial_after (guard_reassembly_cap limit (extend r body))

abbrev last : ℕ → Option Reassembly → Bytes → Option Reassembly × Result NoiseFrame
last limit none body = (none, err no_chunk_open)
last limit (some r) body = finish_after (guard_reassembly_cap limit (extend r body))

-- The match on the marker of `decrypt_frame`.
unfoldable pub accept : ℕ → Option Reassembly → Bytes → Option Reassembly × Result NoiseFrame
unfolding guard_reassembly_cap
accept limit o [] = (o, err empty_message)
accept limit o (marker ∷ body) =
    if marker == frame_json
    then complete o body true
    else if marker == frame_binary
    then complete o body false
    else if marker == frame_first_json
    then start limit o body true
    else if marker == frame_first_binary
    then start limit o body false
    else if marker == frame_more
    then more limit o body
    else if marker == frame_last
    then last limit o body
    else (o, err (unknown_marker marker))

-- `&payload[from..to]`.
abbrev pub slice : ℕ → ℕ → Bytes → Bytes
slice from to payload = take (to - from) (drop from payload)

abbrev pub marker_at : ℕ → ℕ → ℕ → ℕ
marker_at first last_offset offset =
    if offset == 0 then first else if leb last_offset offset then frame_last else frame_more

abbrev pub single_of : Bool → ℕ
single_of json = if json then frame_json else frame_binary

abbrev pub first_of_chunks : Bool → ℕ
first_of_chunks json = if json then frame_first_json else frame_first_binary

-- `frames.push(encrypt_one(…)?)`, once the rest of the loop is known.
abbrev pub push_front : {T : Type 0} → Bytes → T × Result (List Bytes) → T × Result (List Bytes)
push_front frame (t, ok frames) = (t, ok (frame ∷ frames))
push_front frame (t, err e) = (t, err e)

-- `vec![encrypt_one(…)?]`.
abbrev pub one_frame : {T : Type 0} → T × Result Bytes → T × Result (List Bytes)
one_frame (t, ok frame) = (t, ok (frame ∷ []))
one_frame (t, err e) = (t, err e)

-- The `?` on `encrypt_one`, inside the loop.
abbrev pub after_sent :
    {T : Type 0} → T → Result Bytes → (T → T × Result (List Bytes)) → T × Result (List Bytes)
after_sent t (err e) rest = (t, err e)
after_sent t (ok frame) rest = push_front frame (rest t)

module _ (c : Calls) where
  open c use {Transport, write_message, read_message}

  pub record NoiseSession : Type 0 where
    pub transport : Transport
    pub reassembly : Option Reassembly

  -- `encrypt_one`.
  unfoldable pub encrypt_one : Transport → ℕ → Bytes → Transport × Result Bytes
  encrypt_one t marker body =
      let (t', sealed) = write_message t (marker ∷ body) in
      (t', elim sealed [ none ↦ err encryption_failed | some s ↦ ok s ])

  -- The `while` of `encrypt_message`: the frames from `offset` on, at the chunk size `chunk`.
  unfoldable pub encrypt_loop : ℕ → ℕ → Transport → ℕ → Bytes → ℕ → Transport × Result (List Bytes)
  encrypt_loop chunk zero t first payload offset = (t, err out_of_fuel)
  encrypt_loop chunk (suc fuel) t first payload offset =
      let to = min (offset + chunk) (length payload) in
      let marker = marker_at first (length payload - chunk) offset in
      let sent = encrypt_one t marker (slice offset to payload) in
      let rest = λ (t' : Transport). encrypt_loop chunk fuel t' first payload (offset + chunk) in
      if ltb offset (length payload) then after_sent sent.0 sent.1 rest else (t, ok [])

  -- Every round of the loop takes a chunk, so `length payload` rounds and the last test suffice.
  unfoldable pub encrypt_with : ℕ → Transport → Bytes → Bool → Transport × Result (List Bytes)
  encrypt_with chunk t payload json =
      if leb (length payload) chunk
      then one_frame (encrypt_one t (single_of json) payload)
      else encrypt_loop chunk (suc (length payload)) t (first_of_chunks json) payload 0

  unfoldable pub decrypt_with : ℕ → NoiseSession → Bytes → NoiseSession × Result NoiseFrame
  decrypt_with limit s frame =
      let (t, opened) = read_message s.transport frame in
      elim opened [
        | none ↦ (record s { transport = t }, err rejected)
        | some plaintext ↦
            let (o, result) = accept limit s.reassembly plaintext in
            (record { transport = t; reassembly = o }, result)
      ]

  unfoldable pub encrypt_message : NoiseSession → Bytes → Bool → NoiseSession × Result (List Bytes)
  unfolding encrypt_with
  encrypt_message s payload json =
      let (t, frames) = encrypt_with noise_chunk_size s.transport payload json in
      (record s { transport = t }, frames)

  unfoldable pub decrypt_frame : NoiseSession → Bytes → NoiseSession × Result NoiseFrame
  decrypt_frame s frame = decrypt_with noise_max_reassembly s frame

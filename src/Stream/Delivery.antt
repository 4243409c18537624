-- ===== src/Stream/Delivery.antt =====
-- What a stream of src/stream.rs returns.
use thalovant_rust_sdk.Prelude.{
  ℕ, ◌+◌, ◌≤◌, ◌<◌, Bool, true, false, not, Option, none, some, List, [], ◌∷◌, if◌then◌else◌, ◌≡◌,
  refl, arith, inl, inr, length, All, Bool-cases, ◌++◌, length-append,
}
use thalovant_rust_sdk.Events.{Event}
use thalovant_rust_sdk.Stream.{
  EventStream, Tick, Received, event, lagged, channel_closed, ok, err, StreamError, Reply, got,
  recv, recv_all, handle, is_wanted, is_past, counted, fails, deadline_expired, not_authenticated,
}

-- The stream has room: its count is within the limit, and below it while the stream is open.
pub record HasRoom (max : ℕ) (s : EventStream) : Type 0 where
  pub limited : s.max_events ≡ some max
  pub within : s.received ≤ max
  pub below : s.open_stream ≡ true → s.received < max

handle-HasRoom :
    (max : ℕ) (s : EventStream) (x : Option Received) (healthy : Option Bool) (rest : Reply)
    → s.open_stream ≡ true
    → HasRoom max s
    → HasRoom max rest.0
    → HasRoom max (handle s x healthy rest).0
unfolding handle
handle-HasRoom max s (some (event e)) healthy rest o v w = ground (arith, o, v, w)
handle-HasRoom max s (some (lagged n)) healthy rest o v w = ground (arith, o, v, w)
handle-HasRoom max s (some channel_closed) healthy rest o v w = ground (arith, o, v, w)
handle-HasRoom max s none none rest o v w = w
handle-HasRoom max s none (some true) rest o v w = w
handle-HasRoom max s none (some false) rest o v w = ground (arith, o, v, w)

recv-HasRoom :
    (max : ℕ) (ts : List Tick) (s : EventStream) → HasRoom max s → HasRoom max (recv ts s).0
unfolding recv
recv-HasRoom max [] s v = v
recv-HasRoom max (t ∷ ts) s v = elim (Bool-cases s.open_stream) [
  | inl o ↦
      let h = handle-HasRoom max s t.received t.healthy (recv ts s) o v (recv-HasRoom max ts s v) in
      ground (arith, o, v, h)
  | inr o ↦ ground (arith, o, v)
]

-- A call counts what it returns, returns only what the stream wants, and changes none of its terms.
record Fair (s : EventStream) (r : Reply) : Type 0 where
  counts : r.0.received ≡ s.received + length (got r)
  wants : All (λ e. is_wanted s e ≡ true) (got r)
  same_name : r.0.event_name ≡ s.event_name
  same_expected : r.0.expected ≡ s.expected
  same_accepts : r.0.accepts ≡ s.accepts

Fair-if :
    (s : EventStream) (b : Bool) (x y : Reply)
    → (b ≡ true → Fair s x)
    → (b ≡ false → Fair s y)
    → Fair s (if b then x else y)
Fair-if s true x y v w = v refl
Fair-if s false x y v w = w refl

fails-Fair : (s : EventStream) (e : StreamError) → Fair s (fails s e)
fails-Fair s e = record {
  counts = omega arith;
  wants = tt;
  same_name = refl;
  same_expected = refl;
  same_accepts = refl;
}

counted-Fair :
    (s : EventStream) (e : Event) → is_wanted s e ≡ true → Fair s (counted s, some (ok (some e)))
counted-Fair s e w = record {
  counts = omega arith;
  wants = (w, tt);
  same_name = refl;
  same_expected = refl;
  same_accepts = refl;
}

handle-Fair :
    (s : EventStream) (x : Option Received) (healthy : Option Bool) (rest : Reply)
    → Fair s rest
    → Fair s (handle s x healthy rest)
unfolding handle
handle-Fair s (some (event e)) healthy rest v =
    Fair-if s (is_wanted s e) (counted s, some (ok (some e))) rest (counted-Fair s e) (λ _. v)
handle-Fair s (some (lagged n)) healthy rest v = fails-Fair s _
handle-Fair s (some channel_closed) healthy rest v = fails-Fair s _
handle-Fair s none none rest v = v
handle-Fair s none (some true) rest v = v
handle-Fair s none (some false) rest v =
    Fair-if s s.has_transport (fails s not_authenticated) rest (λ _. fails-Fair s _) (λ _. v)

idle-Fair : (s : EventStream) → Fair s (s, some (ok none))
idle-Fair s = record {
  counts = omega arith;
  wants = tt;
  same_name = refl;
  same_expected = refl;
  same_accepts = refl;
}

recv-Fair : (ts : List Tick) (s : EventStream) → Fair s (recv ts s)
unfolding recv
recv-Fair [] s = record {
  counts = omega arith;
  wants = tt;
  same_name = refl;
  same_expected = refl;
  same_accepts = refl;
}
recv-Fair (t ∷ ts) s =
    Fair-if s (not s.open_stream) (s, some (ok none)) _ (λ _. idle-Fair s)
      (λ _.
        Fair-if s (is_past s.deadline t.top) (fails s deadline_expired) _ (λ _. fails-Fair s _)
          (λ _.
            Fair-if s (is_past s.deadline t.woken) (fails s deadline_expired)
              (handle s t.received t.healthy (recv ts s)) (λ _. fails-Fair s _)
              (λ _. handle-Fair s t.received t.healthy (recv ts s) (recv-Fair ts s))))

-- The events of a sequence of calls, one after the other.
pub record Keeps (max : ℕ) (s : EventStream) (es : List Event) : Type 0 where
  pub few : s.received + length es ≤ max
  pub wanted : All (λ e. is_wanted s e ≡ true) es

All-append : (P : Event → Type 0) (xs ys : List Event) → All P xs → All P ys → All P (xs ++ ys)
All-append P [] ys v w = w
All-append P (x ∷ xs) ys v w = (v.0, All-append P xs ys v.1 w)

All-wanted :
    (s t : EventStream) (es : List Event)
    → ((e : Event) → is_wanted t e ≡ true → is_wanted s e ≡ true)
    → All (λ e. is_wanted t e ≡ true) es
    → All (λ e. is_wanted s e ≡ true) es
All-wanted s t [] f v = tt
All-wanted s t (e ∷ es) f v = (f e v.0, All-wanted s t es f v.1)

wanted_before :
    (s : EventStream) (r : Reply)
    → Fair s r
    → (e : Event) → is_wanted r.0 e ≡ true
    → is_wanted s e ≡ true
unfolding is_wanted
wanted_before s r f e w = rw (f.same_name, f.same_expected, f.same_accepts) at w

-- However many calls of `recv` are made, and whatever the channel, the clock and the transport do
-- meanwhile, they return no more events than the limit leaves, each of them with the stream's name
-- and context and accepted by its predicate. The stream has room for the limit.
pub recv_all-Keeps :
    (max : ℕ) (calls : List (List Tick)) (s : EventStream)
    → HasRoom max s
    → Keeps max s (recv_all calls s).1
unfolding recv_all
recv_all-Keeps max [] s v = record { few = omega (arith, v.within); wanted = tt }
recv_all-Keeps max (ts ∷ calls) s v =
    let r = recv ts s in
    let f = recv-Fair ts s in
    let rest = recv_all-Keeps max calls r.0 (recv-HasRoom max ts s v) in
    record {
      few = omega (arith, f.counts, rest.few, length-append (got r) (recv_all calls r.0).1);
      wanted =
          All-append (λ e. is_wanted s e ≡ true) (got r) (recv_all calls r.0).1 f.wants
            (All-wanted s r.0 (recv_all calls r.0).1 (wanted_before s r f) rest.wanted);
    }

handle_closes :
    (s : EventStream) (x : Option Received) (healthy : Option Bool) (rest : Reply) (e : StreamError)
    → (rest.1 ≡ some (err e) → rest.0.open_stream ≡ false)
    → (handle s x healthy rest).1 ≡ some (err e)
    → (handle s x healthy rest).0.open_stream ≡ false
unfolding handle
handle_closes s (some (event a)) healthy rest e v h = ground (arith, v, h)
handle_closes s (some (lagged n)) healthy rest e v h = refl
handle_closes s (some channel_closed) healthy rest e v h = refl
handle_closes s none none rest e v h = v h
handle_closes s none (some true) rest e v h = v h
handle_closes s none (some false) rest e v h = ground (arith, v, h)

error_closes :
    (ts : List Tick) (s : EventStream) (e : StreamError)
    → (recv ts s).1 ≡ some (err e)
    → (recv ts s).0.open_stream ≡ false
unfolding recv
error_closes [] s e h = absurd (cc)
error_closes (t ∷ ts) s e h =
    let rest = handle_closes s t.received t.healthy (recv ts s) e (error_closes ts s e) in
    ground (arith, h, rest)

-- A call that fails closes the stream, so that every later call returns no event.
pub recv_error :
    (ts : List Tick) (s : EventStream) (e : StreamError) (t : Tick) (later : List Tick)
    → (recv ts s).1 ≡ some (err e)
    → recv (t ∷ later) (recv ts s).0 ≡ ((recv ts s).0, some (ok none))
unfolding recv
recv_error ts s e t later h = rw (error_closes ts s e h)

-- ===== src/Conversations/Bounded.antt =====
-- The bounds on what a client of src/client.rs remembers.
use Prim.Native.String.{String}
use thalovant_rust_sdk.Prelude.{
  ℕ, suc, ◌+◌, ◌≤◌, true, Option, none, some, List, [], ◌∷◌, length, take, length-take, ◌≡◌, arith,
  All,
}
use thalovant_rust_sdk.Json.{Fields, end, field, get, as_object}
use thalovant_rust_sdk.Conversations.{
  ConversationStore, Client, contains_number, distinct, inserted_of, distinct_conversations,
  total_aliases, evict, insert_all, entry_of, file_under, remember, remember_keys,
  remember_conversation, keep_fields, conversation_session_fields, or_no_fields, unique_ids,
}
use thalovant_rust_sdk.Conversations.Distinct.{AllIn, distinct_bound, in_distinct}
use thalovant_rust_sdk.Conversations.Filing.{
  AllFit, remove_all-AllFit, take_over-LeftFit, LeftFit, insert_all-AllFit, each_in,
}
use thalovant_rust_sdk.Conversations.Evicting.{evict-AllFit, evict_bound}

record Few (s : ConversationStore) : Type 0 where
  among : List ℕ
  few : length among ≤ 32
  fit : AllFit among s

one_more : (n : ℕ) (l : List ℕ) (s : ConversationStore) → AllFit l s → AllFit (n ∷ l) s
unfolding contains_number
one_more n l [] a = tt
one_more n l (x ∷ s) a = (
  record { own = a.0.own; small = a.0.small; counted = ground (arith, a.0.counted) },
  one_more n l s a.1,
)

counted_in : (l : List ℕ) (s : ConversationStore) → AllFit l s → AllIn l (inserted_of s)
unfolding inserted_of
counted_in l [] a = tt
counted_in l ((k, e) ∷ s) a = (a.0.counted, counted_in l s a.1)

recounted :
    (l m : List ℕ) (s : ConversationStore) → AllFit l s → AllIn m (inserted_of s) → AllFit m s
unfolding inserted_of
recounted l m [] a c = tt
recounted l m ((k, e) ∷ s) a c =
    (record { own = a.0.own; small = a.0.small; counted = c.0 }, recounted l m s a.1 c.1)

same_number : (n : ℕ) (l : List ℕ) → contains_number n (n ∷ l) ≡ true
unfolding contains_number
same_number n l = ground arith

module _ (c : Client) (f : Few c.conversations) where
  filed-Few :
      (keys : List String) (kept : Fields) (s : ConversationStore)
      → AllFit f.among s
      → Few (file_under c (take 8 keys) kept s).conversations
  unfolding distinct_conversations
  filed-Few keys kept s a =
      let now = c.conversation_sequence in
      let ids = take 8 keys in
      let full = insert_all ids (entry_of now ids kept) s in
      let l = now ∷ f.among in
      let fits =
        insert_all-AllFit l ids (entry_of now ids kept) s (each_in ids)
          (omega (arith, length-take 8 keys)) (same_number now f.among)
          (one_more now f.among s a) in
      let left = evict (length full) full in
      record {
        among = distinct (inserted_of left);
        few = evict_bound l (length full) full fits (omega arith);
        fit =
            recounted l (distinct (inserted_of left)) left (evict-AllFit l (length full) full fits)
              (in_distinct (inserted_of left));
      }

  remember-Few :
      (kept : Fields) (x : Option (List String × ConversationStore))
      → LeftFit f.among x
      → Few (remember c kept x).conversations
  remember-Few kept none a = f
  remember-Few kept (some (keys, s)) a =
      elim kept as (λ fs. Few (remember c fs (some (keys, s))).conversations) [
        | end ↦ record { among = f.among; few = f.few; fit = remove_all-AllFit f.among keys s a }
        | field k v fs ↦ filed-Few keys (field k v fs) s a
      ]

  keys-Few : (kept : Fields) (keys : List String) → Few (remember_keys c kept keys).conversations
  keys-Few kept [] = f
  keys-Few kept (key ∷ keys) = remember-Few kept _ (
      take_over-LeftFit f.among (suc (length (key ∷ keys) + total_aliases c.conversations)) []
        (key ∷ keys) c.conversations f.fit)

  turn-Few :
      (ids : List String) (context : Fields)
      → Few (remember_conversation ids context c).conversations
  unfolding remember_conversation
  turn-Few ids context =
      keys-Few
        (keep_fields conversation_session_fields (or_no_fields (as_object (get "session" context)))
          end)
        (unique_ids [] ids)

-- A turn is the ids that its session goes by, and the context that came back.
abbrev pub Turn : Type 0
Turn = List String × Fields

abbrev pub run_turns : List Turn → Client → Client
run_turns [] c = c
run_turns ((ids, context) ∷ turns) c = run_turns turns (remember_conversation ids context c)

abbrev pub no_conversations : Client
no_conversations = record { conversations = []; conversation_sequence = 0 }

turns-Few :
    (turns : List Turn) (c : Client) → Few c.conversations → Few (run_turns turns c).conversations
turns-Few [] c f = f
turns-Few ((ids, context) ∷ turns) c f =
    turns-Few turns (remember_conversation ids context c) (turn-Few c f ids context)

small_groups : (l : List ℕ) (s : ConversationStore) → AllFit l s → All (λ x. length x.1.group ≤ 8) s
small_groups l [] a = tt
small_groups l (x ∷ s) a = (a.0.small, small_groups l s a.1)

-- After any turns, whatever ids they go by and whatever came back, a client that began with no
-- conversations remembers at most 32, and each goes by at most 8 ids.
pub turns_bounded :
    (turns : List Turn)
    → (distinct_conversations (run_turns turns no_conversations).conversations ≤ 32)
      × All (λ x. length x.1.group ≤ 8) (run_turns turns no_conversations).conversations
unfolding distinct_conversations
turns_bounded turns =
    let s = (run_turns turns no_conversations).conversations in
    let f = turns-Few turns no_conversations (record { among = []; few = omega arith; fit = tt }) in
    (
      omega (arith, distinct_bound f.among (inserted_of s) (counted_in f.among s f.fit), f.few),
      small_groups f.among s f.fit,
    )

-- ===== src/Tests/Conversations.antt =====
-- Turns of a client of src/client.rs.
use thalovant_rust_sdk.Prelude.{◌+◌, ◌<◌, ◌≤◌, some, List, [], ◌∷◌, length, ◌≡◌, refl, arith, All}
use Prim.Native.String.{String}
use thalovant_rust_sdk.Json.{Fields, string, object, end, field}
use thalovant_rust_sdk.Conversations.{
  ConversationStore, entry_of, continue_conversation, total_aliases, distinct_conversations,
  take_over, absorb, find_entry, remove_entry, contains_id, remember_conversation,
}
use thalovant_rust_sdk.Conversations.Bounded.{Turn, run_turns, no_conversations, turns_bounded}
use thalovant_rust_sdk.Conversations.Fuel.{Ended, take_over_enough}

abbrev left : Fields
left = field "response_mode" (string "ask") end

abbrev came_back : Fields
came_back = field "session" (object left) end

abbrev turns : List Turn
turns = ("sat-1" ∷ "hub:sat-1" ∷ [], came_back) ∷ ("hub:sat-1" ∷ "hub:2" ∷ [], came_back) ∷ []

-- A turn under an id of the first goes on with what the second left.
goes_on :
    continue_conversation (some end) "sat-1" (run_turns turns no_conversations) ≡ some came_back
unfolding continue_conversation remember_conversation
goes_on = refl

turns_bounded_example :
    (distinct_conversations (run_turns turns no_conversations).conversations ≤ 32)
    × All (λ x. length x.1.group ≤ 8) (run_turns turns no_conversations).conversations
turns_bounded_example = turns_bounded turns

abbrev one_group : ConversationStore
one_group = ("a", entry_of 0 ("a" ∷ "b" ∷ []) left) ∷ ("b", entry_of 0 ("a" ∷ "b" ∷ []) left) ∷ []

rounds : length {A = String} ("a" ∷ []) + total_aliases one_group < 6
unfolding total_aliases
rounds = omega arith

take_over_enough_example :
    Ended ("a" ∷ []) (take_over 6 [] ("a" ∷ []) one_group)
    × (take_over 7 [] ("a" ∷ []) one_group ≡ take_over 6 [] ("a" ∷ []) one_group)
take_over_enough_example = take_over_enough 6 ("a" ∷ []) one_group rounds

taken_over : take_over 6 [] ("a" ∷ []) one_group ≡ some ("a" ∷ "b" ∷ [], [])
unfolding take_over absorb find_entry remove_entry contains_id
taken_over = refl

-- ===== src/Conversations.antt =====
-- src/client.rs: the conversations that a client remembers, and src/events.rs: what is carried from
-- one turn to the next. A lock is never poisoned. A map of entries is a list with each key once; the
-- order tells nothing.
pub mod Distinct
pub mod Filing
pub mod Evicting
pub mod Bounded
pub mod Absent
pub mod Fuel
use Prim.Native.String.{String}
use text.Mathlib.Text.{◌==◌ as str_eq}
use thalovant_rust_sdk.Prelude.{
  ℕ, zero, suc, ◌+◌, ◌%◌, ◌^◌, Bool, true, false, not, ◌&&◌, ◌||◌, Option, none, some, List, [],
  ◌∷◌, ◌++◌, length, take, ltb, leb, ◌==◌, if◌then◌else◌, is_some,
}
use thalovant_rust_sdk.Json.{
  Number, natural, negative, real, Value, null, bool, number, string, array, object, Items, nil,
  cons, Fields, end, field, get, as_object,
}

abbrev pub max_remembered_conversations : ℕ
max_remembered_conversations = 32

abbrev pub max_conversation_aliases : ℕ
max_conversation_aliases = 8

pub record ConversationEntry : Type 0 where
  pub inserted : ℕ
  pub group : List String
  pub kept : Fields

abbrev pub ConversationStore : Type 0
ConversationStore = List (String × ConversationEntry)

pub record Client : Type 0 where
  pub conversations : ConversationStore
  pub conversation_sequence : ℕ

unfoldable pub find_entry : String → ConversationStore → Option ConversationEntry
find_entry id [] = none
find_entry id ((k, e) ∷ s) = let rest = find_entry id s in if str_eq k id then some e else rest

unfoldable pub remove_entry : String → ConversationStore → ConversationStore
remove_entry id [] = []
remove_entry id ((k, e) ∷ s) =
    let rest = remove_entry id s in if str_eq k id then rest else (k, e) ∷ rest

unfoldable pub remove_all : List String → ConversationStore → ConversationStore
unfolding remove_entry
remove_all [] s = s
remove_all (id ∷ ids) s = remove_all ids (remove_entry id s)

unfoldable pub insert_all : List String → ConversationEntry → ConversationStore → ConversationStore
unfolding remove_entry
insert_all [] e s = s
insert_all (id ∷ ids) e s = insert_all ids e ((id, e) ∷ remove_entry id s)

unfoldable pub contains_id : String → List String → Bool
contains_id id [] = false
contains_id id (k ∷ ks) = str_eq k id || contains_id id ks

unfoldable pub contains_number : ℕ → List ℕ → Bool
contains_number n [] = false
contains_number n (k ∷ ks) = k == n || contains_number n ks

unfoldable pub distinct : List ℕ → List ℕ
unfolding contains_number
distinct [] = []
distinct (n ∷ ns) = let rest = distinct ns in if contains_number n rest then rest else n ∷ rest

unfoldable pub inserted_of : ConversationStore → List ℕ
inserted_of [] = []
inserted_of ((k, e) ∷ s) = e.inserted ∷ inserted_of s

-- Conversations held, counting a group of aliases once.
unfoldable pub distinct_conversations : ConversationStore → ℕ
unfolding distinct inserted_of
distinct_conversations s = length (distinct (inserted_of s))

abbrev pub conversation_session_fields : List String
conversation_session_fields =
    "converse_handlers" ∷ "active_handlers" ∷ "active_skills" ∷ "context" ∷ "utterance_states"
    ∷ "response_mode" ∷ []

abbrev pub is_zero : Number → Bool
is_zero (natural n) = n == 0
is_zero (negative n) = false
is_zero (real s) = str_eq s "0.0" || str_eq s "-0.0"

abbrev pub has_items : Items → Bool
has_items nil = false
has_items (cons x xs) = true

abbrev pub has_fields : Fields → Bool
has_fields end = false
has_fields (field k v fs) = true

-- A value that the hub set.
unfoldable pub is_kept : Value → Bool
is_kept null = false
is_kept (bool b) = b
is_kept (string s) = not (str_eq s "")
is_kept (number n) = not (is_zero n)
is_kept (array xs) = has_items xs
is_kept (object fs) = has_fields fs

unfoldable pub is_carried : Value → Bool
is_carried null = false
is_carried (array xs) = has_items xs
is_carried (object fs) = has_fields fs
is_carried (bool b) = true
is_carried (string s) = true
is_carried (number n) = true

unfoldable pub insert_field : String → Value → Fields → Fields
insert_field key v end = field key v end
insert_field key v (field k w fs) =
    let rest = insert_field key v fs in if str_eq k key then field k v fs else field k w rest

abbrev pub keep_value : String → Option Value → Fields → Fields
keep_value name none kept = kept
keep_value name (some v) kept = if is_kept v then insert_field name v kept else kept

unfoldable pub keep_fields : List String → Fields → Fields → Fields
unfolding is_kept insert_field get
keep_fields [] session kept = kept
keep_fields (name ∷ names) session kept =
    keep_fields names session (keep_value name (get name session) kept)

abbrev pub or_no_fields : Option Fields → Fields
or_no_fields none = end
or_no_fields (some fs) = fs

unfoldable pub unique_ids : List String → List String → List String
unfolding contains_id
unique_ids keys [] = keys
unique_ids keys (id ∷ ids) =
    unique_ids (if contains_id id keys then keys else keys ++ (id ∷ [])) ids

-- The siblings of one entry, with the keys before and after the one it was found under.
unfoldable pub absorb :
    List String → List String → List String → ConversationStore → List String × ConversationStore
unfolding contains_id remove_entry
absorb before todo [] s = (todo, s)
absorb before todo (sibling ∷ group) s =
    absorb before (if contains_id sibling (before ++ todo) then todo else todo ++ (sibling ∷ []))
      group (remove_entry sibling s)

abbrev pub absorbed :
    List String
    → List String
    → ConversationStore
    → Option ConversationEntry
    → List String × ConversationStore
absorbed before todo s none = (todo, s)
absorbed before todo s (some e) = absorb before todo e.group s

-- The loop over the keys: those before the index, and those from it on. `none` is a loop that is
-- still going after so many rounds. Every key that the loop adds stood in the group of an entry that
-- it removed.
unfoldable pub take_over :
    ℕ → List String → List String → ConversationStore → Option (List String × ConversationStore)
unfolding absorb find_entry remove_entry
take_over zero before todo s = none
take_over (suc n) before [] s = some (before, s)
take_over (suc n) before (key ∷ todo) s =
    let x = absorbed (before ++ (key ∷ [])) todo (remove_entry key s) (find_entry key s) in
    take_over n (before ++ (key ∷ [])) x.0 x.1

unfoldable pub total_aliases : ConversationStore → ℕ
total_aliases [] = 0
total_aliases ((k, e) ∷ s) = length e.group + total_aliases s

-- `min_by_key`: the first of the oldest.
abbrev pub older : ConversationEntry → Option ConversationEntry → ConversationEntry
older e none = e
older e (some d) = if leb e.inserted d.inserted then e else d

unfoldable pub oldest : ConversationStore → Option ConversationEntry
oldest [] = none
oldest ((k, e) ∷ s) = some (older e (oldest s))

abbrev pub without_oldest : ConversationStore → Option ConversationEntry → ConversationStore
without_oldest s none = s
without_oldest s (some e) = remove_all e.group s

-- The `while` that evicts, a round for each entry at most.
unfoldable pub evict : ℕ → ConversationStore → ConversationStore
unfolding distinct_conversations oldest remove_all
evict zero s = s
evict (suc n) s =
    let rest = evict n (without_oldest s (oldest s)) in
    if ltb max_remembered_conversations (distinct_conversations s) then rest else s

abbrev pub store_of : Client → ConversationStore → Client
store_of c s = record c { conversations = s }

abbrev pub entry_of : ℕ → List String → Fields → ConversationEntry
entry_of inserted group kept = record { inserted = inserted; group = group; kept = kept }

abbrev pub filed : Client → ConversationStore → Client
filed c full = record {
  conversations = evict (length full) full;
  conversation_sequence = (c.conversation_sequence + 1) % 2 ^ 64;
}

abbrev pub file_under : Client → List String → Fields → ConversationStore → Client
file_under c keys kept s = filed c (insert_all keys (entry_of c.conversation_sequence keys kept) s)

-- What follows the loop, and nothing while it goes on.
abbrev pub remember : Client → Fields → Option (List String × ConversationStore) → Client
remember c kept none = c
remember c kept (some (keys, s)) =
    if has_fields kept
    then file_under c (take max_conversation_aliases keys) kept s
    else store_of c (remove_all keys s)

abbrev pub remember_keys : Client → Fields → List String → Client
remember_keys c kept [] = c
remember_keys c kept (key ∷ keys) = remember c kept (
    take_over (suc (length (key ∷ keys) + total_aliases c.conversations)) [] (key ∷ keys)
      c.conversations)

unfoldable pub remember_conversation : List String → Fields → Client → Client
unfolding keep_fields get unique_ids take_over total_aliases insert_all evict remove_all
remember_conversation session_ids context c =
    let session = or_no_fields (as_object (get "session" context)) in
    remember_keys c (keep_fields conversation_session_fields session end)
      (unique_ids [] session_ids)

abbrev pub carry_value : String → Option Value → Fields → Fields
carry_value name none carried = carried
carry_value name (some v) carried = if is_carried v then insert_field name v carried else carried

unfoldable pub carry_fields : List String → Fields → Fields → Fields
unfolding is_carried insert_field get
carry_fields [] previous carried = carried
carry_fields (name ∷ names) previous carried =
    carry_fields names previous
      (if is_some (get name carried) then carried else carry_value name (get name previous) carried)

unfoldable pub carry_conversation : Option Fields → Fields → Fields
unfolding carry_fields
carry_conversation none session = session
carry_conversation (some previous) session =
    carry_fields conversation_session_fields previous session

abbrev pub continued : Option Fields → Option ConversationEntry → Option Fields
continued context none = none
continued context (some e) =
    let next = or_no_fields context in
    let session = or_no_fields (as_object (get "session" next)) in
    some (insert_field "session" (object (carry_conversation (some e.kept) session)) next)

unfoldable pub continue_conversation : Option Fields → String → Client → Option Fields
unfolding find_entry get insert_field carry_conversation
continue_conversation context session_id c =
    continued context (find_entry session_id c.conversations)

-- ===== src/Store/Messages.antt =====
-- The message methods of server/internal/store/memory.go.
pub mod Numbering
pub mod Later
pub mod Idempotency
pub mod Paging
use zzzproject.Base.{
  ℕ, suc, ◌+◌, ◌-◌, String, Bool, true, false, not, ◌||◌, ◌&&◌, Option, none, some, List, [], ◌∷◌,
  ◌++◌, map, length, take, drop, leb, ltb, eqb, ◌==◌, if◌then◌else◌, Map, lookup, insert, remove,
  retain, Result, ok, err,
}
use zzzproject.Protocol.{MessageSegment, Reaction}
use zzzproject.Store.Types.{Message, DynamicInteractionEvent}
use zzzproject.Store.State.{
  Runtime, MessageRef, MessageIdempotency, DynamicUpdateIdempotency, MemoryStore, StoreError,
  encoding_failed, message_conflict, pair_key,
}

abbrev pub refs_of : Option (List MessageRef) → List MessageRef
refs_of none = []
refs_of (some refs) = refs

-- A write through a message pointer.
abbrev pub write : (MessageRef → Message) → MessageRef → Message → MessageRef → Message
write heap r m r' = if eqb r r' then m else heap r'

-- The users who gave a message each emoji.
abbrev pub emojis_of : Option (Map (Map (Unit {0}))) → Map (Map (Unit {0}))
emojis_of none = []
emojis_of (some m) = m

used_emojis : Map (Map (Unit {0})) → List String
used_emojis [] = []
used_emojis ((emoji, users) ∷ m) =
    let rest = used_emojis m in if ltb 0 (length users) then emoji ∷ rest else rest

abbrev pub users_of : Option (Map (Unit {0})) → Map (Unit {0})
users_of none = []
users_of (some m) = m

-- reactionCountsLocked.
unfoldable pub reaction_counts : Runtime → MemoryStore → String → List Reaction
unfolding used_emojis
reaction_counts rt s id =
    let by_emoji = emojis_of (lookup id s.message_reactions) in
    map (λ emoji. record { emoji_id = emoji; count = length (users_of (lookup emoji by_emoji)) })
      (rt.sort_strings (used_emojis by_emoji))

-- `copy := *message; copy.Reactions = ...`
unfoldable pub snapshot : Runtime → MemoryStore → MessageRef → Message
unfolding reaction_counts
snapshot rt s r = record (s.heap r) { reactions = reaction_counts rt s (s.heap r).id }

unfoldable pub find_in : (MessageRef → Message) → String → List MessageRef → Option MessageRef
find_in heap id [] = none
find_in heap id (r ∷ refs) = if (heap r).id == id then some r else find_in heap id refs

abbrev or_else : Option MessageRef → Option MessageRef → Option MessageRef
or_else none o = o
or_else (some r) o = some r

find_in_all : (MessageRef → Message) → String → Map (List MessageRef) → Option MessageRef
unfolding find_in
find_in_all heap id [] = none
find_in_all heap id ((conversation, refs) ∷ m) =
    or_else (find_in heap id refs) (find_in_all heap id m)

-- findMessageLocked.
unfoldable pub find_message : MemoryStore → String → Option MessageRef
unfolding find_in_all
find_message s id = find_in_all s.heap id s.messages

-- The message that StoreMessageIdempotent makes, in the store and in its conversation.
unfoldable pub new_message :
    Runtime → MemoryStore → ℕ → String → String → String → List MessageSegment → Message
new_message rt s now conversation sender nickname segments = record {
  id = rt.message_id (s.msg_counter + 1);
  conversation_id = conversation;
  sender_id = sender;
  sender_nickname = nickname;
  segments = segments;
  timestamp = now;
  recalled = false;
  reactions = [];
}

unfoldable pub append_message :
    Runtime → MemoryStore → ℕ → String → String → String → List MessageSegment → MemoryStore
unfolding new_message
append_message rt s now conversation sender nickname segments =
    let r = s.msg_counter + 1 in
    record s {
      msg_counter = r;
      heap = write s.heap r (new_message rt s now conversation sender nickname segments);
      messages =
          insert conversation (refs_of (lookup conversation s.messages) ++ r ∷ []) s.messages;
    }

abbrev pub Stored : Type 0
Stored = MemoryStore × Result StoreError (Message × Bool)

unfoldable pub store_new :
    Runtime
    → MemoryStore
    → ℕ
    → String
    → String
    → String
    → String
    → List MessageSegment
    → String
    → Stored
store_new rt s now conversation sender nickname client segments fingerprint =
    let s' = append_message rt s now conversation sender nickname segments in
    let key = pair_key sender client in
    let entry : MessageIdempotency = record {
      fingerprint = fingerprint;
      message = s'.msg_counter;
    } in
    (
      (if client == ""
          then s'
          else record s' { message_idempotency = insert key entry s'.message_idempotency }),
      ok (s'.heap s'.msg_counter, false),
    )

unfoldable pub store_checked :
    Runtime
    → MemoryStore
    → ℕ
    → String
    → String
    → String
    → String
    → List MessageSegment
    → String
    → Option MessageIdempotency
    → Stored
unfolding store_new
store_checked rt s now conversation sender nickname client segments fingerprint none =
    store_new rt s now conversation sender nickname client segments fingerprint
store_checked rt s now conversation sender nickname client segments fingerprint (some existing) =
    if existing.fingerprint == fingerprint
    then (s, ok (snapshot rt s existing.message, true))
    else (s, err message_conflict)

-- StoreMessageIdempotent: the message and whether it is a duplicate.
unfoldable pub store_message_idempotent :
    Runtime → MemoryStore → ℕ → String → String → String → String → List MessageSegment → Stored
unfolding store_checked
store_message_idempotent rt s now conversation sender nickname client segments =
    elim (rt.message_fingerprint conversation segments) [
      | none ↦ (s, err encoding_failed)
      | some fingerprint ↦
          store_checked rt s now conversation sender nickname client segments fingerprint
            (if client == "" then none else lookup (pair_key sender client) s.message_idempotency)
    ]

-- StoreMessage.
unfoldable pub store_message :
    Runtime → MemoryStore → ℕ → String → String → String → List MessageSegment → Stored
store_message rt s now conversation sender nickname segments =
    store_message_idempotent rt s now conversation sender nickname "" segments

-- updateMessageSegmentsLocked, which UpdateMessageSegments calls under the mutex.
unfoldable pub update_message_segments :
    Runtime → MemoryStore → String → List MessageSegment → MemoryStore × Option Message
update_message_segments rt s id segments = elim (find_message s id) [
  | none ↦ (s, none)
  | some r ↦
      let s' = record s { heap = write s.heap r (record (s.heap r) { segments = segments }) } in
      (s', some (snapshot rt s' r))
]

unfoldable pub get_message : Runtime → MemoryStore → String → Option Message
get_message rt s id = elim (find_message s id) [ none ↦ none | some r ↦ some (snapshot rt s r) ]

-- The index of the first message with this identifier; the length if there is none.
unfoldable pub index_of : (MessageRef → Message) → String → List MessageRef → ℕ
index_of heap id [] = 0
index_of heap id (r ∷ refs) =
    let rest = index_of heap id refs in if (heap r).id == id then 0 else suc rest

abbrev window_end : MemoryStore → String → List MessageRef → ℕ
window_end s before refs = if before == "" then length refs else index_of s.heap before refs

-- GetMessagesBefore; a negative limit acts as 0 does.
unfoldable pub get_messages_before : Runtime → MemoryStore → String → String → ℕ → List Message
unfolding index_of
get_messages_before rt s conversation before limit =
    let refs = refs_of (lookup conversation s.messages) in
    let end' = window_end s before refs in
    let limit' = if eqb limit 0 || ltb end' limit then end' else limit in
    map (snapshot rt s) (drop (end' - limit') (take end' refs))

unfoldable pub get_messages : Runtime → MemoryStore → String → ℕ → List Message
get_messages rt s conversation limit = get_messages_before rt s conversation "" limit

-- deleteMessageIdempotencyLocked.
unfoldable pub delete_message_idempotency : MemoryStore → String → MemoryStore
delete_message_idempotency s id = record s {
  message_idempotency =
      retain (λ k (e : MessageIdempotency). not ((s.heap e.message).id == id))
        s.message_idempotency;
  dynamic_update_idempotency =
      retain (λ k (e : DynamicUpdateIdempotency). not (e.message_id == id))
        s.dynamic_update_idempotency;
}

abbrev pub events_of : Option (List DynamicInteractionEvent) → List DynamicInteractionEvent
events_of none = []
events_of (some es) = es

remove_records : {V : Type 0} → List DynamicInteractionEvent → Map V → Map V
remove_records [] m = m
remove_records (e ∷ es) m = remove_records es (remove (pair_key e.actor_id e.event_id) m)

-- deleteDynamicInteractionEventsLocked.
unfoldable pub delete_dynamic_interaction_events : MemoryStore → String → MemoryStore
unfolding remove_records
delete_dynamic_interaction_events s id = record s {
  dynamic_interaction_by_id =
      remove_records (events_of (lookup id s.dynamic_interaction_events))
        s.dynamic_interaction_by_id;
  dynamic_interaction_events = remove id s.dynamic_interaction_events;
}

-- `append(messages[:index], messages[index+1:]...)`
unfoldable pub remove_first : (MessageRef → Message) → String → List MessageRef → List MessageRef
remove_first heap id [] = []
remove_first heap id (r ∷ refs) =
    let rest = remove_first heap id refs in if (heap r).id == id then refs else r ∷ rest

abbrev pub is_in : Option MessageRef → Bool
is_in none = false
is_in (some r) = true

unfoldable pub remove_message :
    (MessageRef → Message) → String → Map (List MessageRef) → Map (List MessageRef)
unfolding remove_first
remove_message heap id [] = []
remove_message heap id ((conversation, refs) ∷ m) =
    let rest = remove_message heap id m in
    if is_in (find_in heap id refs)
    then (conversation, remove_first heap id refs) ∷ m
    else (conversation, refs) ∷ rest

unfoldable pub delete_message : MemoryStore → String → MemoryStore × Bool
unfolding remove_message delete_dynamic_interaction_events delete_message_idempotency
delete_message s id = elim (find_message s id) [
  | none ↦ (s, false)
  | some r ↦
      let s1 = record s {
        messages = remove_message s.heap id s.messages;
        message_reactions = remove id s.message_reactions;
      } in
      (delete_message_idempotency (delete_dynamic_interaction_events s1 id) id, true)
]

unfoldable pub recall_message : MemoryStore → String → MemoryStore × Bool
recall_message s id = elim (find_message s id) [
  | none ↦ (s, false)
  | some r ↦ (record s { heap = write s.heap r (record (s.heap r) { recalled = true }) }, true)
]

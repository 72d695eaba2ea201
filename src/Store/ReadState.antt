-- ===== src/Store/ReadState.antt =====
-- The in-memory part of server/internal/store/read_state.go.
pub mod Unread
use zzzproject.Base.{
  ℕ, suc, String, Bool, not, Option, none, some, List, [], ◌∷◌, length, drop, ltb, ◌==◌,
  if◌then◌else◌, Map, lookup, insert,
}
use zzzproject.Store.Types.{Message, ReadState}
use zzzproject.Store.State.{MessageRef, MemoryStore}
use zzzproject.Store.Messages.{refs_of}

abbrev pub states_of : Option (Map ReadState) → Map ReadState
states_of none = []
states_of (some m) = m

unfoldable pub last_of : List MessageRef → Option MessageRef
last_of [] = none
last_of (r ∷ []) = some r
last_of (r ∷ r' ∷ refs) = last_of (r' ∷ refs)

abbrev cursor_at : MemoryStore → String → String → ℕ → Option MessageRef → ReadState
cursor_at s conversation user now none = record {
  conversation_id = conversation;
  user_id = user;
  last_read_message_id = "";
  read_at = now;
}
cursor_at s conversation user now (some r) = record {
  conversation_id = conversation;
  user_id = user;
  last_read_message_id = (s.heap r).id;
  read_at = (s.heap r).timestamp;
}

unfoldable pub mark_conversation_read : MemoryStore → ℕ → String → String → MemoryStore × ReadState
unfolding last_of
mark_conversation_read s now conversation user =
    let refs = refs_of (lookup conversation s.messages) in
    let state = cursor_at s conversation user now (last_of refs) in
    (
      record s {
        read_states =
            insert conversation (insert user state (states_of (lookup conversation s.read_states)))
              s.read_states;
      },
      state,
    )

unfoldable pub get_conversation_read : MemoryStore → String → String → Option ReadState
get_conversation_read s conversation user =
    lookup user (states_of (lookup conversation s.read_states))

unfoldable pub get_conversation_read_states : MemoryStore → String → Map ReadState
get_conversation_read_states s conversation = states_of (lookup conversation s.read_states)

-- Behind the message with this identifier; at the end if there is none.
unfoldable pub after_id : (MessageRef → Message) → String → List MessageRef → List MessageRef
after_id heap id [] = []
after_id heap id (r ∷ refs) =
    let rest = after_id heap id refs in if (heap r).id == id then refs else rest

-- From the first message that is later than this time; at the end if there is none.
unfoldable pub later_than : (MessageRef → Message) → ℕ → List MessageRef → List MessageRef
later_than heap t [] = []
later_than heap t (r ∷ refs) =
    let rest = later_than heap t refs in if ltb t (heap r).timestamp then r ∷ refs else rest

-- `messages[start:]` of CountUnreadMessages.
abbrev pub unread_from : MemoryStore → List MessageRef → Option ReadState → List MessageRef
unread_from s refs none = refs
unread_from s refs (some state) =
    if not (state.last_read_message_id == "")
    then after_id s.heap state.last_read_message_id refs
    else later_than s.heap state.read_at refs

unfoldable pub count_others : (MessageRef → Message) → String → List MessageRef → ℕ
count_others heap user [] = 0
count_others heap user (r ∷ refs) =
    let rest = count_others heap user refs in if (heap r).sender_id == user then rest else suc rest

unfoldable pub count_unread_messages : MemoryStore → String → String → ℕ
unfolding after_id later_than count_others get_conversation_read
count_unread_messages s conversation user = count_others s.heap user (
    unread_from s (refs_of (lookup conversation s.messages))
      (get_conversation_read s conversation user))

-- ===== src/Store/Conversations.antt =====
-- The conversation methods of server/internal/store/memory.go.
pub mod Preferences
use zzzproject.Base.{
  ℕ, String, Bool, false, Option, none, some, List, [], ◌∷◌, ◌||◌, ◌==◌, if◌then◌else◌, Map, lookup,
  insert, remove,
}
use zzzproject.Store.Types.{Conversation, ConversationPreference, normalize_notification_level}
use zzzproject.Store.State.{MessageRef, MemoryStore}
use zzzproject.Store.Messages.{
  refs_of, delete_message_idempotency, delete_dynamic_interaction_events,
}
use zzzproject.Store.Groups.{values_of, is_group_member}

-- GetOrCreateConversation.
unfoldable pub get_or_create_conversation :
    MemoryStore → ℕ → String → String → String → MemoryStore × Conversation
get_or_create_conversation s now id type title = elim (lookup id s.conversations) [
  | none ↦
      let c : Conversation = record {
        id = id;
        type = type;
        title = title;
        avatar = "";
        owner_id = "";
        participants = [];
        created_at = now;
      } in
      (record s { conversations = insert id c s.conversations }, c)
  | some c ↦ (s, c)
]

-- SaveConversation.
unfoldable pub save_conversation : MemoryStore → Conversation → MemoryStore
save_conversation s c = record s { conversations = insert c.id c s.conversations }

unfoldable pub get_conversation : MemoryStore → String → Option Conversation
get_conversation s id = lookup id s.conversations

-- GetConversations, in some order.
unfoldable get_conversations : MemoryStore → List Conversation
get_conversations s = values_of s.conversations

unfoldable pub is_one_of : String → List String → Bool
is_one_of id [] = false
is_one_of id (p ∷ ps) = p == id || is_one_of id ps

takes_part : MemoryStore → String → Conversation → Bool
unfolding is_one_of
takes_part s user c =
    if c.type == "private" then is_one_of user c.participants else is_group_member s c.id user

conversations_with : MemoryStore → String → List Conversation → List Conversation
unfolding takes_part
conversations_with s user [] = []
conversations_with s user (c ∷ cs) =
    let rest = conversations_with s user cs in if takes_part s user c then c ∷ rest else rest

-- GetUserConversations, in some order.
unfoldable get_user_conversations : MemoryStore → String → List Conversation
unfolding conversations_with
get_user_conversations s user = conversations_with s user (values_of s.conversations)

abbrev pub preferences_of : Option (Map ConversationPreference) → Map ConversationPreference
preferences_of none = []
preferences_of (some m) = m

-- GetConversationPreference.
unfoldable pub get_conversation_preference :
    MemoryStore → String → String → Option ConversationPreference
get_conversation_preference s conversation user =
    lookup user (preferences_of (lookup conversation s.preferences))

-- SetConversationPreference.
unfoldable pub set_conversation_preference : MemoryStore → ℕ → ConversationPreference → MemoryStore
set_conversation_preference s now p =
    let level = normalize_notification_level p.notification_level p.is_muted in
    let p' : ConversationPreference = record p {
      notification_level = level;
      is_muted = level == "muted";
      updated_at = now;
    } in
    let by_user = preferences_of (lookup p.conversation_id s.preferences) in
    record s { preferences = insert p.conversation_id (insert p.user_id p' by_user) s.preferences }

-- What DeleteConversation deletes with each message.
forget_messages : MemoryStore → List MessageRef → MemoryStore
forget_messages s [] = s
forget_messages s (r ∷ refs) =
    let id = (s.heap r).id in
    let s1 = record s { message_reactions = remove id s.message_reactions } in
    forget_messages (delete_dynamic_interaction_events (delete_message_idempotency s1 id) id) refs

-- DeleteConversation.
unfoldable pub delete_conversation : MemoryStore → String → MemoryStore
unfolding forget_messages
delete_conversation s id =
    let s1 = forget_messages s (refs_of (lookup id s.messages)) in
    record s1 {
      conversations = remove id s1.conversations;
      preferences = remove id s1.preferences;
      messages = remove id s1.messages;
      read_states = remove id s1.read_states;
    }

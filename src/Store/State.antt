-- ===== src/Store/State.antt =====
-- The state of server/internal/store/memory.go.
--
-- The mutex makes each method one atomic step: a function from the store, with the current time as
-- the argument `now` where the method reads the clock, to the new store and its results.
--
-- Messages are shared by pointer: the list of a conversation and the idempotency table hold the same
-- one, and a change through one is seen through the other. So messages live in `heap`, under the
-- value that the message counter had when they were made, and everything else holds references.
use Prim.Native.String.{◌++◌}
use zzzproject.Base.{ℕ, String, Bool, false, List, [], Map, Option}
use zzzproject.Protocol.{MessageSegment}
use zzzproject.Store.Types.{
  Message, DynamicInteractionEvent, ReadState, Conversation, ConversationPreference, User,
  UserTitle, UserReport, Session, TerminalSession, TerminalVault, Group, GroupAnnouncement,
  FriendRequest, ForwardMessage, MediaFile, PushSubscription,
}

-- What the store uses of Go's standard library: `fmt.Sprintf` of the identifiers' patterns, the
-- SHA-256 of a request's JSON (or the encoding error), and `sort.Strings`.
pub record Runtime : Type 0 where
  pub message_id : ℕ → String
  pub request_id : ℕ → String
  pub announcement_id : ℕ → ℕ → String
  pub forward_id : ℕ → String
  pub message_fingerprint : String → List MessageSegment → Option String
  pub interaction_fingerprint : DynamicInteractionEvent → Option String
  pub sort_strings : List String → List String

abbrev pub MessageRef : Type 0
MessageRef = ℕ

pub record MessageIdempotency : Type 0 where
  pub fingerprint : String
  pub message : MessageRef

pub record DynamicUpdateIdempotency : Type 0 where
  pub fingerprint : String
  pub message_id : String

pub record InteractionRecord : Type 0 where
  pub fingerprint : String
  pub event : DynamicInteractionEvent

pub record MemoryStore : Type 0 where
  pub heap : MessageRef → Message
  pub users : Map User
  pub sessions : Map Session
  pub groups : Map Group
  pub conversations : Map Conversation
  pub preferences : Map (Map ConversationPreference)
  pub group_announcements : Map (List GroupAnnouncement)
  pub announcement_reads : Map (Map Bool)
  pub messages : Map (List MessageRef)
  pub message_idempotency : Map MessageIdempotency
  pub dynamic_update_idempotency : Map DynamicUpdateIdempotency
  pub dynamic_interaction_events : Map (List DynamicInteractionEvent)
  pub dynamic_interaction_by_id : Map InteractionRecord
  pub message_reactions : Map (Map (Map (Unit {0})))
  pub read_states : Map (Map ReadState)
  pub friend_requests : Map FriendRequest
  pub friendships : Map (Map ℕ)
  pub user_titles : Map UserTitle
  pub user_blocks : Map (Map ℕ)
  pub user_reports : List UserReport
  pub forwards : Map ForwardMessage
  pub media_files : Map MediaFile
  pub push_subscriptions : Map (Map PushSubscription)
  pub terminal_vaults : Map TerminalVault
  pub terminal_sessions : Map TerminalSession
  pub msg_counter : ℕ
  pub announcement_counter : ℕ
  pub friend_req_counter : ℕ

-- What stands at a reference that no message has been made under.
abbrev no_message : Message
no_message = record {
  id = "";
  conversation_id = "";
  sender_id = "";
  sender_nickname = "";
  segments = [];
  timestamp = 0;
  recalled = false;
  reactions = [];
}

unfoldable pub new_memory_store : MemoryStore
new_memory_store = record {
  heap = λ r. no_message;
  users = [];
  sessions = [];
  groups = [];
  conversations = [];
  preferences = [];
  group_announcements = [];
  announcement_reads = [];
  messages = [];
  message_idempotency = [];
  dynamic_update_idempotency = [];
  dynamic_interaction_events = [];
  dynamic_interaction_by_id = [];
  message_reactions = [];
  read_states = [];
  friend_requests = [];
  friendships = [];
  user_titles = [];
  user_blocks = [];
  user_reports = [];
  forwards = [];
  media_files = [];
  push_subscriptions = [];
  terminal_vaults = [];
  terminal_sessions = [];
  msg_counter = 0;
  announcement_counter = 0;
  friend_req_counter = 0;
}

-- The errors of the store's methods that are modelled.
pub data StoreError : Type 0 where
  encoding_failed message_conflict already_recalled : StoreError
  group_not_found group_member_not_found owner_mismatch invalid_transfer : StoreError
  vault_conflict title_limit : StoreError
  identity_required target_not_found interaction_conflict dynamic_update_conflict : StoreError
  no_rows : StoreError

-- `senderID + "\x00" + clientMessageID`
abbrev pub pair_key : String → String → String
pair_key first second = first ++ "\0" ++ second

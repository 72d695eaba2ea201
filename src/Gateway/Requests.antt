-- ===== src/Gateway/Requests.antt =====
-- Requests, replies and notices of server/internal/protocol/protocol.go, as the group handlers of
-- server/internal/gateway/gateway.go use them.
use zzzproject.Base.{
  ℕ, String, ◌≡◌, Bool, false, Option, none, some, List, [], ◌∷◌, ◌==◌, if◌then◌else◌, if-cases,
}
use zzzproject.Protocol.{Json, boolean, Fields, Sender}
use zzzproject.Store.Types.{GroupMember, GroupAnnouncement, Message}
use zzzproject.Store.State.{MemoryStore}

-- What the gateway uses of Go: strings.TrimSpace, the number of bytes of a text, whether unicode.IsControl
-- holds of one of its characters, whether the literal of a JSON number is a natural number once it is a
-- float64, `fmt.Sprintf("group_%d", ...)` and sort.SliceStable.
pub record Host : Type 0 where
  pub trim_space : String → String
  pub byte_len : String → ℕ
  pub has_control : String → Bool
  pub exact_natural : String → Option ℕ
  pub group_id : ℕ → String
  pub sort_stable : (GroupMember → GroupMember → Bool) → List GroupMember → List GroupMember

-- NoticeEvent, with the fields that group notices fill.
pub record Notice : Type 0 where
  pub notice_type : String
  pub group_id : String
  pub user_id : String
  pub operator_id : String
  pub sub_type : String
  pub duration : ℕ
  pub enabled : Bool
  pub announcement_id : String
  pub action : String

-- The data of a response, by the handler that sends it.
pub data Answer : Type 0 where
  no_data : Answer
  group_created : String → String → String → String → List String → Answer
  members_invited : List String → List String → Answer
  group_joined : List String → Answer
  member_banned : String → String → ℕ → Answer
  group_updated : String → String → String → String → Answer
  friend_requested : String → Answer
  announcement_data : GroupAnnouncement → Answer
  announcements_data : List GroupAnnouncement → Answer

-- RequestEvent, with the fields that a friend request fills.
pub record RequestEvent : Type 0 where
  pub user_id : String
  pub comment : String
  pub flag : String

-- The payload of pushEventToUser.
pub record PushEvent : Type 0 where
  pub type : String
  pub title : String
  pub body : String
  pub request_id : String
  pub user_id : String
  pub path : String

-- sendError, sendJSON of an "ok" response, broadcastToConversation with the user who is left out (the
-- empty text for none), sendToUser, the broadcast of a message event, pushToConversation with the author,
-- and pushEventToUser with its label.
pub data Output : Type 0 where
  rejected : String → Output
  accepted : Answer → Output
  broadcast : String → Notice → String → Output
  to_user : String → Notice → Output
  request_to_user : String → RequestEvent → Output
  broadcast_message : String → Sender → Message → Output
  push_message : String → Message → String → Output
  push_to_user : String → PushEvent → String → Output

abbrev pub Handled : Type 0
Handled = MemoryStore × List Output

abbrev pub reject : MemoryStore → String → Handled
reject s message = (s, rejected message ∷ [])

-- The start of every handler: the client's user, and the parameters as a JSON object.
unfoldable pub with_params :
    MemoryStore → String → String → Option Fields → (Fields → Handled) → Handled
with_params s user invalid none body =
    if user == "" then reject s "not authenticated" else reject s invalid
with_params s user invalid (some params) body =
    if user == "" then reject s "not authenticated" else body params

abbrev pub as_bool : Option Json → Option Bool
as_bool (some (boolean b)) = some b
as_bool _ = none

abbrev pub plain_notice : String → String → String → String → Notice
plain_notice type group user operator = record {
  notice_type = type;
  group_id = group;
  user_id = user;
  operator_id = operator;
  sub_type = "";
  duration = 0;
  enabled = false;
  announcement_id = "";
  action = "";
}

-- A handler keeps what its refusals and its body keep.
pub with_params-keeps :
    (P : Handled → Type 0) (s : MemoryStore) (user invalid : String) (params : Option Fields)
    (body : Fields → Handled)
    → ((message : String) → P (reject s message))
    → ((user == "") ≡ false → (fields : Fields) → P (body fields))
    → P (with_params s user invalid params body)
unfolding with_params
with_params-keeps P s user invalid none body no_reply yes_reply =
    if-cases P (user == "") (λ _. no_reply "not authenticated") (λ _. no_reply invalid)
with_params-keeps P s user invalid (some params) body no_reply yes_reply =
    if-cases P (user == "") (λ _. no_reply "not authenticated") (λ e. yes_reply e params)

-- ===== src/Store/Types.antt =====
-- server/internal/store/store.go: the records that every store keeps.
--
-- A time is a natural number of nanoseconds, 0 for Go's zero time; `*time.Time` is an option.
use zzzproject.Base.{ℕ, String, Bool, List, Option, ◌==◌, ◌||◌, if◌then◌else◌}
use zzzproject.Protocol.{MessageSegment, Reaction, Fields}

pub record Message : Type 0 where
  pub id : String
  pub conversation_id : String
  pub sender_id : String
  pub sender_nickname : String
  pub segments : List MessageSegment
  pub timestamp : ℕ
  pub recalled : Bool
  pub reactions : List Reaction

pub record DynamicInteractionEvent : Type 0 where
  pub event_id : String
  pub conversation_id : String
  pub message_id : String
  pub content_id : String
  pub node_id : String
  pub event : String
  pub action : String
  pub payload : Fields
  pub actor_id : String
  pub actor_nickname : String
  pub actor_kind : String
  pub created_at : ℕ

pub record ReadState : Type 0 where
  pub conversation_id : String
  pub user_id : String
  pub last_read_message_id : String
  pub read_at : ℕ

pub record Conversation : Type 0 where
  pub id : String
  pub type : String
  pub title : String
  pub avatar : String
  pub owner_id : String
  pub participants : List String
  pub created_at : ℕ

pub record ConversationPreference : Type 0 where
  pub conversation_id : String
  pub user_id : String
  pub is_pinned : Bool
  pub notification_level : String
  pub is_muted : Bool
  pub updated_at : ℕ

-- NormalizeNotificationLevel.
unfoldable pub normalize_notification_level : String → Bool → String
normalize_notification_level level legacy_muted =
    if level == "normal" || (level == "mentions_only" || level == "muted")
    then level
    else if legacy_muted
    then "muted"
    else "normal"

pub record User : Type 0 where
  pub id : String
  pub nickname : String
  pub avatar : String
  pub bio : String
  pub card_background_url : String
  pub card_background_color : String
  pub card_background_sensitive : Bool
  pub show_mutual_groups : Bool
  pub show_account_id : Bool
  pub online : Bool
  pub password_hash : String
  pub created_at : ℕ

pub record UserTitle : Type 0 where
  pub id : String
  pub user_id : String
  pub scope_type : String
  pub scope_id : String
  pub text : String
  pub style : String
  pub granted_by : String
  pub expires_at : Option ℕ
  pub created_at : ℕ

pub record UserReport : Type 0 where
  pub id : String
  pub reporter_id : String
  pub target_id : String
  pub reason : String
  pub details : String
  pub created_at : ℕ

pub record Session : Type 0 where
  pub token_hash : String
  pub user_id : String
  pub expires_at : ℕ
  pub created_at : ℕ

pub record TerminalSession : Type 0 where
  pub id : String
  pub user_id : String
  pub device_id : String
  pub client_type : String
  pub connected : Bool
  pub login_at : ℕ
  pub last_seen_at : ℕ
  pub logout_at : Option ℕ

pub record TerminalVault : Type 0 where
  pub user_id : String
  pub payload : String
  pub revision : ℕ
  pub updated_at : ℕ

pub record GroupMember : Type 0 where
  pub user_id : String
  pub role : String
  pub joined_at : ℕ
  pub muted_until : ℕ

pub record Group : Type 0 where
  pub id : String
  pub name : String
  pub avatar : String
  pub announcement : String
  pub owner_id : String
  pub mute_all : Bool
  pub members : List GroupMember
  pub created_at : ℕ

pub record GroupAnnouncement : Type 0 where
  pub id : String
  pub group_id : String
  pub content : String
  pub author_id : String
  pub is_pinned : Bool
  pub is_read : Bool
  pub created_at : ℕ
  pub updated_at : ℕ

pub record FriendRequest : Type 0 where
  pub id : String
  pub from_id : String
  pub to_id : String
  pub comment : String
  pub status : String
  pub created_at : ℕ

pub record ForwardMessage : Type 0 where
  pub id : String
  pub conversation_id : String
  pub messages : List Message
  pub created_at : ℕ

pub record MediaFile : Type 0 where
  pub id : String
  pub file_name : String
  pub file_type : String
  pub mime_type : String
  pub size : ℕ
  pub url : String
  pub thumbnail_url : String
  pub width : ℕ
  pub height : ℕ
  pub uploader_id : String
  pub created_at : ℕ

pub record PushSubscription : Type 0 where
  pub user_id : String
  pub endpoint : String
  pub p256dh : String
  pub auth : String
  pub created_at : ℕ
  pub updated_at : ℕ

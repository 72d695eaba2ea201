-- ===== src/Store/RecordTests.antt =====
-- Runs of the store's groups, friends, reactions, sessions and profiles on concrete inputs, and the
-- theorems about them applied there.
use zzzproject.Base.{
  String, ◌≡◌, refl, ◌⊎◌, inl, true, false, none, some, [], ◌∷◌, arith, lookup, text_ne, insert, ok,
  err,
}
use zzzproject.Store.Types.{
  Message, ConversationPreference, UserTitle, Session, Group, GroupMember, FriendRequest,
}
use zzzproject.Store.State.{
  Runtime, MemoryStore, new_memory_store, owner_mismatch, invalid_transfer,
}
use zzzproject.Store.Conversations.{get_conversation_preference, set_conversation_preference}
use zzzproject.Store.Conversations.Preferences.{IsNormal, set_conversation_preference-IsNormal}
use zzzproject.Store.Groups.{
  create_group, set_group_member_role, set_group_member_mute, add_group_member, remove_group_member,
  transfer_group_ownership, Changed,
}
use zzzproject.Store.Groups.Members.{IsDistinct, groups-IsDistinct}
use zzzproject.Store.Groups.Ownership.{
  transfer_group_ownership_effect, transfer_group_ownership-refused,
}
use zzzproject.Store.Friends.{are_friends, add_friend, remove_friend, handle_friend_request}
use zzzproject.Store.Friends.Symmetry.{
  IsSymmetric, remove_friend_effect, friends-IsSymmetric, handle_friend_request_once,
}
use zzzproject.Store.Reactions.{react_to_message}
use zzzproject.Store.Reactions.Effect.{gave, react_to_message_effect}
use zzzproject.Store.Sessions.{
  get_session, delete_sessions_for_user, put_terminal_vault, get_terminal_vault,
}
use zzzproject.Store.Sessions.Vault.{written, put_terminal_vault_once}
use zzzproject.Store.Sessions.Revocation.{delete_sessions_for_user_effect}
use zzzproject.Store.Profile.{grant_user_title, delete_user_title}
use zzzproject.Store.Profile.Titles.{IsLimited, titles-IsLimited}

abbrev empty : MemoryStore
empty = new_memory_store

abbrev member : String → String → GroupMember
member id role = record { user_id = id; role = role; joined_at = 5; muted_until = 9 }

abbrev group : Group
group = record {
  id = "g";
  name = "G";
  avatar = "";
  announcement = "";
  owner_id = "ann";
  mute_all = false;
  members = member "ann" "owner" ∷ member "bob" "member" ∷ [];
  created_at = 5;
}

abbrev grouped : MemoryStore
grouped = record empty { groups = ("g", group) ∷ [] }

transfer_group_ownership_effect_example :
    (g' : Group) × ((transfer_group_ownership grouped "g" "ann" "bob"
        ≡ (record grouped { groups = insert "g" g' grouped.groups }, ok tt))
      × (g'.owner_id ≡ "bob"))
unfolding lookup zzzproject.Store.Groups.last_member
transfer_group_ownership_effect_example =
    let t =
      transfer_group_ownership_effect grouped "g" "ann" "bob" group (member "bob" "member") refl
        refl refl refl (text_ne "member" "owner" refl) (text_ne "ann" "bob" refl) in
    (t.0, (t.1.0, t.1.1.0))

transfer_group_ownership-refused_example :
    (transfer_group_ownership grouped "g" "bob" "ann" ≡ (grouped, err owner_mismatch))
    ⊎ (transfer_group_ownership grouped "g" "bob" "ann" ≡ (grouped, err invalid_transfer))
unfolding lookup
transfer_group_ownership-refused_example =
    transfer_group_ownership-refused grouped "g" "bob" "ann" group refl
      (inl (text_ne "ann" "bob" refl))

empty-IsDistinct : IsDistinct empty
unfolding new_memory_store lookup
empty-IsDistinct id g found = ground (arith, found)

abbrev founded : MemoryStore
founded = (create_group empty 5 "g" "G" "" "ann").0

founded-IsDistinct : IsDistinct founded
founded-IsDistinct =
    (groups-IsDistinct empty 5 "g" "G" "" "ann" "bob" "admin" 50 empty-IsDistinct).0

empty-IsSymmetric : IsSymmetric empty
unfolding new_memory_store lookup are_friends
empty-IsSymmetric a b = refl

befriended-IsSymmetric : IsSymmetric (add_friend empty 5 "ann" "bob").0
befriended-IsSymmetric = (friends-IsSymmetric empty 5 "ann" "bob" empty-IsSymmetric).0

friends-IsSymmetric_example :
    IsSymmetric (add_friend (add_friend empty 5 "ann" "bob").0 6 "bob" "ann").0
    × IsSymmetric (remove_friend (add_friend empty 5 "ann" "bob").0 "bob" "ann").0
friends-IsSymmetric_example =
    friends-IsSymmetric (add_friend empty 5 "ann" "bob").0 6 "bob" "ann" befriended-IsSymmetric

remove_friend_effect_example :
    are_friends (remove_friend (add_friend empty 5 "ann" "bob").0 "bob" "ann").0 "ann" "bob" ≡ false
remove_friend_effect_example =
    remove_friend_effect (add_friend empty 5 "ann" "bob").0 "bob" "ann" "ann" "bob"
      befriended-IsSymmetric

abbrev request : FriendRequest
request = record {
  id = "f1";
  from_id = "ann";
  to_id = "bob";
  comment = "";
  status = "pending";
  created_at = 5;
}

abbrev asked : MemoryStore
asked = record empty { friend_requests = ("f1", request) ∷ [] }

handle_friend_request_once_example : (handle_friend_request asked "f1" "accept").1 ≡ true
unfolding lookup
handle_friend_request_once_example =
    (handle_friend_request_once asked "f1" "accept" "reject" "f2" request refl refl
      (text_ne "accept" "pending" refl) (text_ne "f1" "f2" refl)).0

abbrev message : Message
message = record {
  id = "m1";
  conversation_id = "c";
  sender_id = "ann";
  sender_nickname = "Ann";
  segments = [];
  timestamp = 10;
  recalled = false;
  reactions = [];
}

abbrev posted : MemoryStore
posted = record empty { heap = λ r. message; messages = ("c", 1 ∷ []) ∷ [] }

abbrev runtime : Runtime
runtime = record {
  message_id = λ n. "m1";
  request_id = λ n. "f1";
  announcement_id = λ t n. "a1";
  forward_id = λ n. "w1";
  message_fingerprint = λ conversation segments. none;
  interaction_fingerprint = λ e. none;
  sort_strings = λ l. l;
}

react_to_message_effect_example :
    let s' = (react_to_message runtime posted "m1" "bob" "smile" false).0 in
    (gave s' "m1" "smile" "bob" ≡ true)
    × (s' ≡ record posted { message_reactions = s'.message_reactions })
unfolding zzzproject.Store.Messages.find_message
react_to_message_effect_example =
    react_to_message_effect runtime posted "m1" "bob" "smile" false 1 "m1" "smile" "bob" refl refl

put_terminal_vault_once_example :
    (put_terminal_vault empty 5 "ann" "data" 0).1 ≡ (some (written 5 "ann" "data" 0), ok tt)
unfolding get_terminal_vault lookup new_memory_store
put_terminal_vault_once_example = (put_terminal_vault_once empty 5 6 "ann" "data" "other" 0 refl).0

abbrev session : Session
session = record { token_hash = "h"; user_id = "ann"; expires_at = 99; created_at = 5 }

abbrev logged_in : MemoryStore
logged_in = record empty { sessions = ("h", session) ∷ [] }

delete_sessions_for_user_effect_example :
    get_session (delete_sessions_for_user logged_in "bob") "h" ≡ some session
unfolding get_session lookup
delete_sessions_for_user_effect_example =
    (delete_sessions_for_user_effect logged_in "bob" "h" session).1 refl (text_ne "ann" "bob" refl)

abbrev title : UserTitle
title = record {
  id = "t1";
  user_id = "ann";
  scope_type = "system";
  scope_id = "";
  text = "first";
  style = "";
  granted_by = "root";
  expires_at = none;
  created_at = 0;
}

no_titles : IsLimited 5 empty
unfolding zzzproject.Store.Profile.active_titles new_memory_store
no_titles user = omega arith

titles-IsLimited_example :
    IsLimited 6 (grant_user_title empty 6 title).0 × IsLimited 6 (delete_user_title empty "t1").0
titles-IsLimited_example = titles-IsLimited empty 5 6 title "t1" (omega arith) no_titles

abbrev muted_here : ConversationPreference
muted_here = record {
  conversation_id = "c";
  user_id = "ann";
  is_pinned = false;
  notification_level = "";
  is_muted = true;
  updated_at = 0;
}

empty-IsNormal : IsNormal empty
unfolding new_memory_store lookup get_conversation_preference
empty-IsNormal c u p found = ground (arith, found)

set_conversation_preference-IsNormal_example :
    IsNormal (set_conversation_preference empty 5 muted_here)
set_conversation_preference-IsNormal_example =
    (set_conversation_preference-IsNormal empty 5 muted_here empty-IsNormal).0

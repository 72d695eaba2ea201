-- ===== src/Gateway/Roles.antt =====
-- Roles in a group, and the conversation that follows a group's members, of
-- server/internal/gateway/gateway.go.
use Prim.Native.Nat.{Ordering, compare}
use Prim.Native.String.{◌++◌}
use zzzproject.Base.{
  ℕ, String, Bool, true, false, not, ◌&&◌, ◌||◌, Option, none, some, List, [], ◌∷◌, ltb, leb, eqb,
  ◌==◌, if◌then◌else◌, Result, ok, err, is_some,
}
use zzzproject.Protocol.{Json, Items, nil, cons, text, array, null}
use zzzproject.Store.Types.{Group, GroupMember, Conversation}
use zzzproject.Store.State.{MemoryStore}
use zzzproject.Store.Users.{get_user}
use zzzproject.Store.Groups.{get_group, get_group_members}
use zzzproject.Store.Friends.{are_friends}
use zzzproject.Store.Conversations.{is_one_of, get_conversation, save_conversation}
use zzzproject.Gateway.Requests.{Host}

unfoldable pub role_of : String → List GroupMember → String
role_of user [] = ""
role_of user (m ∷ ms) = let rest = role_of user ms in if m.user_id == user then m.role else rest

abbrev pub members_or_none : Option (List GroupMember) → List GroupMember
members_or_none none = []
members_or_none (some ms) = ms

unfoldable pub group_member_role : MemoryStore → String → String → String
unfolding role_of get_group_members
group_member_role s group user = role_of user (members_or_none (get_group_members s group))

abbrev pub is_admin_role : String → Bool
is_admin_role role = role == "owner" || role == "admin"

-- isGroupAdmin.
unfoldable pub is_group_admin : MemoryStore → String → String → Bool
unfolding group_member_role
is_group_admin s group user = is_admin_role (group_member_role s group user)

abbrev pub max_group_members : ℕ
max_group_members = 500

abbrev pub max_group_invite_batch : ℕ
max_group_invite_batch = 100

abbrev pub max_group_ban_seconds : ℕ
max_group_ban_seconds = 2592000

unfoldable pub group_role_order : String → ℕ
group_role_order role = if role == "owner" then 0 else if role == "admin" then 1 else 2

unfoldable pub can_manage_group_member : String → String → Bool
can_manage_group_member actor target =
    ((actor == "owner") && (target == "admin" || target == "member"))
    || ((actor == "admin") && (target == "member"))

abbrev text_less : String → String → Bool
text_less a b = elim (Prim.Native.String.compare a b) [ Ordering.lt ↦ true | _ ↦ false ]

-- The order of a group's participants: by role, by the time of joining, by identifier.
unfoldable pub member_less : GroupMember → GroupMember → Bool
unfolding group_role_order
member_less a b =
    let left = group_role_order a.role in
    let right = group_role_order b.role in
    if not (eqb left right)
    then ltb left right
    else if not (eqb a.joined_at b.joined_at)
    then ltb a.joined_at b.joined_at
    else text_less a.user_id b.user_id

unfoldable pub user_ids : List GroupMember → List String
user_ids [] = []
user_ids (m ∷ ms) = m.user_id ∷ user_ids ms

abbrev conversation_or_new : String → Group → Option Conversation → Conversation
conversation_or_new id group none = record {
  id = id;
  type = "";
  title = "";
  avatar = "";
  owner_id = "";
  participants = [];
  created_at = group.created_at;
}
conversation_or_new id group (some c) = record c {
  created_at = if eqb c.created_at 0 then group.created_at else c.created_at;
}

abbrev group_conversation : Group → List String → Conversation → Conversation
group_conversation group participants c = record c {
  type = "group";
  title = group.name;
  avatar = group.avatar;
  owner_id = group.owner_id;
  participants = participants;
}

-- The participants in their order, and the conversation with them.
unfoldable pub synchronized : Host → MemoryStore → String → Group → MemoryStore × List String
unfolding member_less user_ids
synchronized host s id group =
    let participants =
      user_ids (host.sort_stable member_less (members_or_none (get_group_members s id))) in
    let c = conversation_or_new id group (get_conversation s id) in
    (save_conversation s (group_conversation group participants c), participants)

-- syncGroupConversationParticipants; none is "group not found".
unfoldable pub sync_group_conversation_participants :
    Host → MemoryStore → String → Option (MemoryStore × List String)
unfolding synchronized
sync_group_conversation_participants host s id = elim (get_group s id) [
  | none ↦ none
  | some group ↦ some (synchronized host s id group)
]

-- The error is ignored.
unfoldable pub resync : Host → MemoryStore → String → MemoryStore
unfolding sync_group_conversation_participants
resync host s id = elim (sync_group_conversation_participants host s id) [
  | none ↦ s
  | some (s', participants) ↦ s'
]

unfoldable pub valid_user_id : Host → String → Bool
valid_user_id host value =
    not (value == "")
    && (leb (host.byte_len value) 128
        && ((value == host.trim_space value) && not (host.has_control value)))

abbrev consed : String → Result String (List String) → Result String (List String)
consed id (ok ids) = ok (id ∷ ids)
consed id (err message) = err message

-- The loop of validateGroupInviteTargets; `seen` holds the keys of the map.
unfoldable pub invite_targets :
    Host → MemoryStore → String → List String → Items → Result String (List String)
unfolding valid_user_id
invite_targets host s inviter seen nil = ok []
invite_targets host s inviter seen (cons (text id) rest) =
    let known = is_one_of id seen in
    let later = invite_targets host s inviter (if known then seen else id ∷ seen) rest in
    if not (valid_user_id host id)
    then err "invalid member id"
    else if known
    then later
    else if not (is_some (get_user s id))
    then err ("member account not found: " ++ id)
    else if not (are_friends s inviter id)
    then err ("only friends can be invited: " ++ id)
    else consed id later
invite_targets host s inviter seen (cons _ rest) = err "invalid member id"

unfoldable pub count_items : Items → ℕ
count_items nil = 0
count_items (cons x rest) = Prim.Native.Nat.suc (count_items rest)

unfoldable pub validate_group_invite_targets :
    Host → MemoryStore → String → Option Json → Result String (List String)
unfolding invite_targets count_items
validate_group_invite_targets host s inviter none = ok []
validate_group_invite_targets host s inviter (some null) = ok []
validate_group_invite_targets host s inviter (some (array items)) =
    if ltb max_group_invite_batch (count_items items)
    then err "invite at most 100 members at once"
    else invite_targets host s inviter (inviter ∷ []) items
validate_group_invite_targets host s inviter (some _) = err "members must be a list"

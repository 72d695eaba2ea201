-- ===== src/Gateway/Management.antt =====
-- The management of a group: handleGroupBan, handleUpdateGroup, handleSetGroupAdmin, handleTransferGroup,
-- handleDismissGroup and handleGroupMuteAll of server/internal/gateway/gateway.go.
use zzzproject.Base.{
  ℕ, ◌+◌, ◌*◌, String, Bool, true, false, not, ◌&&◌, ◌||◌, Option, none, some, List, [], ◌∷◌, ltb,
  ◌==◌, if◌then◌else◌, ok, err, is_some,
}
use zzzproject.Protocol.{Json, text, number, Fields, get, get_string}
use zzzproject.Store.Types.{Group}
use zzzproject.Store.State.{MemoryStore}
use zzzproject.Store.Groups.{
  get_group, get_group_members, update_group, set_group_member_role, set_group_member_mute,
  transfer_group_ownership, delete_group, Changed,
}
use zzzproject.Gateway.Requests.{
  Host, no_data, member_banned, group_updated, accepted, broadcast, to_user, Handled, reject,
  with_params, as_bool, plain_notice,
}
use zzzproject.Gateway.Roles.{
  members_or_none, group_member_role, is_group_admin, can_manage_group_member,
  max_group_ban_seconds, sync_group_conversation_participants, user_ids,
}
use zzzproject.Gateway.Membership.{tell_each}

-- The duration, if it is a number that a float64 holds exactly, not negative, and within the limit.
unfoldable pub ban_duration : Host → Option Json → Option ℕ
ban_duration host (some (number literal)) = elim (host.exact_natural literal) [
  | none ↦ none
  | some n ↦ if ltb max_group_ban_seconds n then none else some n
]
ban_duration host _ = none

-- `map[bool]string{...}[b]`
abbrev pick : String → String → Bool → String
pick yes' no' b = if b then yes' else no'

abbrev pub answer_ban : String → String → String → ℕ → ℕ → Changed → Handled
answer_ban user id target duration until (s, err e) = reject s "failed to update member mute"
answer_ban user id target duration until (s, ok u) = (
  s,
  accepted (member_banned id target until)
      ∷ broadcast id
          (record (plain_notice "group_ban" id target user) {
            sub_type = pick "ban" "lift_ban" (ltb 0 duration);
            duration = duration;
          })
          ""
      ∷ [],
)

-- The end of the ban in nanoseconds, as `now` is.
abbrev pub ban_end : ℕ → ℕ → ℕ
ban_end now duration = if ltb 0 duration then now + duration * 1000000000 else 0

unfoldable pub ban_for : ℕ → MemoryStore → String → String → String → Option ℕ → Handled
ban_for now s user id target none = reject s "duration must be 0-2592000 seconds"
ban_for now s user id target (some duration) =
    if id == "" || target == ""
    then reject s "duration must be 0-2592000 seconds"
    else if not (is_some (get_group s id))
    then reject s "group not found"
    else if target == user
        || not
            (can_manage_group_member (group_member_role s id user) (group_member_role s id target))
    then reject s "group permission denied"
    else answer_ban user id target duration (ban_end now duration)
        (set_group_member_mute s id target (ban_end now duration))

unfoldable pub handle_group_ban : Host → ℕ → MemoryStore → String → Option Fields → Handled
unfolding ban_for ban_duration
handle_group_ban host now s user params =
    with_params s user "invalid group_ban params" params (λ fields.
      ban_for now s user (get_string "group_id" fields) (get_string "user_id" fields)
        (ban_duration host (get "duration" fields)))

-- One of the optional fields of update_group: what it was, what the request has, and whether the new
-- text, trimmed or not, passes. An error is none.
abbrev new_text :
    (String → String) → (String → Bool) → String → Option Json → Option (String × Bool)
new_text trim passes old none = some (old, false)
new_text trim passes old (some (text value)) =
    if passes (trim value) then some (trim value, true) else none
new_text trim passes old (some _) = none

abbrev pub new_name : Host → Group → Fields → Option (String × Bool)
new_name host g fields =
    new_text host.trim_space (λ t. not (t == "") && not (ltb 80 (host.byte_len t))) g.name
      (get "name" fields)

abbrev pub new_avatar : Host → Group → Fields → Option (String × Bool)
new_avatar host g fields =
    new_text (λ t. t) (λ t. not (ltb 2048 (host.byte_len t))) g.avatar (get "avatar_url" fields)

abbrev pub new_announcement : Host → Group → Fields → Option (String × Bool)
new_announcement host g fields =
    new_text host.trim_space (λ t. not (ltb 2000 (host.byte_len t))) g.announcement
      (get "announcement" fields)

abbrev pub answer_update :
    Host → String → String → String → String → String → Group → Changed → Handled
answer_update host user id name avatar announcement g (s, err e) = reject s "failed to update group"
answer_update host user id name avatar announcement g (s, ok u) =
    elim (sync_group_conversation_participants host s id) [
      | none ↦
          reject (update_group s id g.name g.avatar g.announcement g.mute_all).0
            "failed to update group conversation"
      | some (s', participants) ↦ (
        s',
        accepted (group_updated id name avatar announcement)
            ∷ broadcast id (plain_notice "group_update" id "" user) ""
            ∷ [],
      )
    ]

unfoldable pub update_with :
    Host
    → MemoryStore
    → String
    → String
    → Group
    → Option (String × Bool)
    → Option (String × Bool)
    → Option (String × Bool)
    → Handled
update_with host s user id g none avatar announcement =
    reject s "group name must be 1-80 characters"
update_with host s user id g (some (name, c1)) none announcement =
    reject s "group avatar is invalid"
update_with host s user id g (some (name, c1)) (some (avatar, c2)) none =
    reject s "group announcement is too long"
update_with host s user id g (some (name, c1)) (some (avatar, c2)) (some (announcement, c3)) =
    if not (c1 || (c2 || c3))
    then reject s "at least one group field is required"
    else answer_update host user id name avatar announcement g
        (update_group s id name avatar announcement g.mute_all)

unfoldable pub handle_update_group : Host → MemoryStore → String → Option Fields → Handled
unfolding update_with
handle_update_group host s user params =
    with_params s user "invalid update_group params" params (λ fields.
      let id = get_string "group_id" fields in
      elim (get_group s id) [
        | none ↦ reject s "group not found"
        | some g ↦
            if not (is_group_admin s id user)
            then reject s "group permission denied"
            else update_with host s user id g (new_name host g fields) (new_avatar host g fields)
                (new_announcement host g fields)
      ])

abbrev pub answer_admin : String → String → String → Bool → Changed → Handled
answer_admin user id target enabled (s, err e) = reject s "failed to update administrator"
answer_admin user id target enabled (s, ok u) = (
  s,
  accepted no_data
      ∷ broadcast id
          (record (plain_notice "group_admin" id target user) {
            sub_type = pick "set" "unset" enabled;
            enabled = enabled;
          })
          ""
      ∷ [],
)

-- `targetRole == "" || targetRole == "owner" || enabled && targetRole != "member" || ...`
abbrev pub invalid_change : Bool → String → Bool
invalid_change enabled role =
    role == ""
    || (role == "owner"
        || ((enabled && not (role == "member")) || (not enabled && not (role == "admin"))))

unfoldable pub set_admin_to : MemoryStore → String → String → String → Option Bool → Handled
set_admin_to s user id target none = reject s "invalid administrator change"
set_admin_to s user id target (some enabled) =
    if invalid_change enabled (group_member_role s id target)
    then reject s "invalid administrator change"
    else answer_admin user id target enabled
        (set_group_member_role s id target (if enabled then "admin" else "member"))

unfoldable pub handle_set_group_admin : MemoryStore → String → Option Fields → Handled
unfolding set_admin_to
handle_set_group_admin s user params =
    with_params s user "invalid set_group_admin params" params (λ fields.
      let id = get_string "group_id" fields in
      let target = get_string "user_id" fields in
      elim (get_group s id) [
        | none ↦ reject s "group not found"
        | some g ↦
            if not (g.owner_id == user) || target == user
            then reject s "only the group owner can manage administrators"
            else set_admin_to s user id target (as_bool (get "enabled" fields))
      ])

abbrev pub answer_transfer : Host → String → String → String → Changed → Handled
answer_transfer host user id target (s, err e) = reject s "failed to transfer group ownership"
answer_transfer host user id target (s, ok u) =
    elim (sync_group_conversation_participants host s id) [
      | none ↦
          reject (transfer_group_ownership s id target user).0 "failed to update group conversation"
      | some (s', participants) ↦ (
        s',
        accepted no_data ∷ broadcast id (plain_notice "group_transfer" id target user) "" ∷ [],
      )
    ]

unfoldable pub handle_transfer_group : Host → MemoryStore → String → Option Fields → Handled
handle_transfer_group host s user params =
    with_params s user "invalid transfer_group params" params (λ fields.
      let id = get_string "group_id" fields in
      let target = get_string "user_id" fields in
      elim (get_group s id) [
        | none ↦ reject s "group not found"
        | some g ↦
            if not (g.owner_id == user) || (target == user || (group_member_role s id target == ""))
            then reject s "group ownership transfer denied"
            else answer_transfer host user id target (transfer_group_ownership s id user target)
      ])

abbrev pub answer_dismiss : String → String → List String → Changed → Handled
answer_dismiss user id users (s, err e) = reject s "failed to dismiss group"
answer_dismiss user id users (s, ok u) = (
  s,
  accepted no_data ∷ tell_each (λ m. to_user m (plain_notice "group_dismiss" id "" user)) users,
)

unfoldable pub handle_dismiss_group : MemoryStore → String → Option Fields → Handled
unfolding tell_each user_ids
handle_dismiss_group s user params =
    with_params s user "invalid dismiss_group params" params (λ fields.
      let id = get_string "group_id" fields in
      elim (get_group s id) [
        | none ↦ reject s "group not found"
        | some g ↦
            if not (g.owner_id == user)
            then reject s "only the group owner can dismiss the group"
            else answer_dismiss user id (user_ids (members_or_none (get_group_members s id)))
                (delete_group s id)
      ])

abbrev pub answer_mute_all : String → String → Bool → Changed → Handled
answer_mute_all user id enabled (s, err e) = reject s "failed to update group mute"
answer_mute_all user id enabled (s, ok u) = (
  s,
  accepted no_data
      ∷ broadcast id
          (record (plain_notice "group_mute_all" id "" user) {
            sub_type = pick "enable" "disable" enabled;
            enabled = enabled;
          })
          ""
      ∷ [],
)

unfoldable pub mute_all_to : MemoryStore → String → String → Group → Option Bool → Handled
mute_all_to s user id g none = reject s "group permission denied"
mute_all_to s user id g (some enabled) =
    if not (is_group_admin s id user)
    then reject s "group permission denied"
    else answer_mute_all user id enabled (update_group s id g.name g.avatar g.announcement enabled)

unfoldable pub handle_group_mute_all : MemoryStore → String → Option Fields → Handled
unfolding mute_all_to
handle_group_mute_all s user params =
    with_params s user "invalid group_mute_all params" params (λ fields.
      let id = get_string "group_id" fields in
      elim (get_group s id) [
        | none ↦ reject s "group not found"
        | some g ↦ mute_all_to s user id g (as_bool (get "enabled" fields))
      ])

-- ===== src/Gateway/Membership.antt =====
-- Who is in a group: handleCreateGroup, handleGroupInvite, handleJoinGroup, handleLeaveGroup and
-- handleGroupKick of server/internal/gateway/gateway.go.
use zzzproject.Base.{
  ℕ, ◌+◌, String, Bool, true, false, not, ◌||◌, Option, none, some, List, [], ◌∷◌, ◌++◌, ltb,
  length, ◌==◌, if◌then◌else◌, Result, ok, err,
}
use zzzproject.Protocol.{Fields, get, get_string}
use zzzproject.Store.Types.{Group, GroupMember}
use zzzproject.Store.State.{MemoryStore}
use zzzproject.Store.Groups.{
  has_member, create_group, get_group, get_group_members, add_group_member, remove_group_member,
}
use zzzproject.Gateway.Requests.{
  Host, Notice, no_data, group_created, members_invited, group_joined, Output, accepted, broadcast,
  to_user, Handled, reject, with_params, plain_notice,
}
use zzzproject.Gateway.Roles.{
  members_or_none, group_member_role, is_group_admin, can_manage_group_member, max_group_members,
  sync_group_conversation_participants, resync, validate_group_invite_targets,
}

-- The loops that take added members back.
unfoldable pub roll_back : String → List String → MemoryStore → MemoryStore
roll_back id [] s = s
roll_back id (user ∷ added) s = roll_back id added (remove_group_member s id user).0

-- The loops that add members; none if one of them is not added, with the earlier ones taken back.
unfoldable pub add_members :
    ℕ → String → List String → List String → MemoryStore → MemoryStore × Bool
unfolding roll_back
add_members now id added [] s = (s, true)
add_members now id added (user ∷ users) s =
    let next = add_group_member s now id user in
    let rest = add_members now id (added ++ user ∷ []) users next.0 in
    if next.1 then rest else (roll_back id added next.0, false)

abbrev increase : String → String → String → Notice
increase id user operator = plain_notice "group_increase" id user operator

abbrev decrease : String → String → String → Notice
decrease id user operator = plain_notice "group_decrease" id user operator

unfoldable pub tell_each : (String → Output) → List String → List Output
tell_each f [] = []
tell_each f (user ∷ users) = f user ∷ tell_each f users

abbrev created_reply : Group → String → List String → List Output
created_reply g user members =
    accepted (group_created g.id g.name g.avatar g.owner_id (user ∷ members))
    ∷ tell_each (λ m. to_user m (increase g.id m user)) members

-- After the members have been added, or some could not be.
unfoldable pub finish_create : Host → String → Group → List String → MemoryStore × Bool → Handled
unfolding tell_each
finish_create host user g members (s, false) = reject s "failed to add group members"
finish_create host user g members (s, true) =
    elim (sync_group_conversation_participants host s g.id) [
      | none ↦ reject s "failed to create group conversation"
      | some (s', participants) ↦ (s', created_reply g user members)
    ]

unfoldable pub create_with :
    Host → ℕ → MemoryStore → String → String → String → Result String (List String) → Handled
unfolding add_members finish_create
create_with host now s user name avatar (err message) = reject s message
create_with host now s user name avatar (ok members) =
    let id = host.group_id now in
    let created = create_group s now id name avatar user in
    finish_create host user created.1 members (add_members now id [] members created.0)

unfoldable pub handle_create_group : Host → ℕ → MemoryStore → String → Option Fields → Handled
unfolding create_with
handle_create_group host now s user params = with_params s user "invalid params" params (λ fields.
    let name = host.trim_space (get_string "name" fields) in
    let avatar = get_string "avatar" fields in
    if name == "" || ltb 80 (host.byte_len name)
    then reject s "group name must be 1-80 characters"
    else if ltb 2048 (host.byte_len avatar)
    then reject s "group avatar is invalid"
    else create_with host now s user name avatar
        (validate_group_invite_targets host s user (get "members" fields)))

-- `targets[:0]` and the loop that fills it.
unfoldable pub not_members : List GroupMember → List String → List String
unfolding has_member
not_members ms [] = []
not_members ms (user ∷ users) =
    let rest = not_members ms users in if has_member user ms then rest else user ∷ rest

unfoldable pub finish_invite : Host → String → String → List String → MemoryStore × Bool → Handled
unfolding tell_each
finish_invite host user id targets (s, false) = reject s "failed to invite group members"
finish_invite host user id targets (s, true) =
    elim (sync_group_conversation_participants host s id) [
      | none ↦
          reject (resync host (roll_back id targets s) id) "failed to update group conversation"
      | some (s', participants) ↦ (
        s',
        accepted (members_invited targets participants)
            ∷ tell_each (λ m. broadcast id (increase id m user) "") targets,
      )
    ]

unfoldable pub invite_with :
    Host → ℕ → MemoryStore → String → String → Result String (List String) → Handled
unfolding not_members finish_invite
invite_with host now s user id (err message) = reject s message
invite_with host now s user id (ok wanted) =
    let ms = members_or_none (get_group_members s id) in
    let targets = not_members ms wanted in
    if ltb max_group_members (length ms + length targets)
    then reject s "group member limit is 500"
    else finish_invite host user id targets (add_members now id [] targets s)

unfoldable pub handle_group_invite : Host → ℕ → MemoryStore → String → Option Fields → Handled
unfolding invite_with
handle_group_invite host now s user params =
    with_params s user "invalid group_invite params" params (λ fields.
      let id = get_string "group_id" fields in
      elim (get_group s id) [
        | none ↦ reject s "group not found"
        | some g ↦
            if not (is_group_admin s id user)
            then reject s "group permission denied"
            else invite_with host now s user id
                (validate_group_invite_targets host s user (get "members" fields))
      ])

unfoldable pub finish_join : Host → String → String → MemoryStore × Bool → Handled
finish_join host user id (s, false) = reject s "failed to join group"
finish_join host user id (s, true) = elim (sync_group_conversation_participants host s id) [
  | none ↦ reject (remove_group_member s id user).0 "failed to update group conversation"
  | some (s', participants) ↦
      (s', accepted (group_joined participants) ∷ broadcast id (increase id user "") "" ∷ [])
]

unfoldable pub handle_join_group : Host → ℕ → MemoryStore → String → Option Fields → Handled
unfolding finish_join
handle_join_group host now s user params = with_params s user "invalid params" params (λ fields.
    let id = get_string "group_id" fields in
    elim (get_group s id) [
      | none ↦ reject s "group not found"
      | some g ↦ finish_join host user id (add_group_member s now id user)
    ])

-- After a member has left or has been removed.
unfoldable pub finish_removal :
    Host → ℕ → String → String → String → String → MemoryStore × Bool → Handled
finish_removal host now operator id user failure (s, false) = reject s failure
finish_removal host now operator id user failure (s, true) =
    elim (sync_group_conversation_participants host s id) [
      | none ↦
          reject (resync host (add_group_member s now id user).0 id)
            "failed to update group conversation"
      | some (s', participants) ↦ (
        s',
        accepted no_data
            ∷ to_user user (decrease id user operator)
            ∷ broadcast id (decrease id user operator) user
            ∷ [],
      )
    ]

unfoldable pub handle_leave_group : Host → ℕ → MemoryStore → String → Option Fields → Handled
unfolding finish_removal
handle_leave_group host now s user params = with_params s user "invalid params" params (λ fields.
    let id = get_string "group_id" fields in
    elim (get_group s id) [
      | none ↦ reject s "group not found"
      | some g ↦
          if g.owner_id == user
          then reject s "group owner cannot leave"
          else finish_removal host now user id user "failed to leave group"
              (remove_group_member s id user)
    ])

unfoldable pub handle_group_kick : Host → ℕ → MemoryStore → String → Option Fields → Handled
unfolding finish_removal
handle_group_kick host now s user params = with_params s user "invalid params" params (λ fields.
    let id = get_string "group_id" fields in
    let target = get_string "user_id" fields in
    elim (get_group s id) [
      | none ↦ reject s "group not found"
      | some g ↦
          if not (
              can_manage_group_member (group_member_role s id user) (group_member_role s id target))
            || (target == user || target == g.owner_id)
          then reject s "group permission denied"
          else finish_removal host now user id target "failed to kick user"
              (remove_group_member s id target)
    ])

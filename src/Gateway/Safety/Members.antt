-- ===== src/Gateway/Safety/Members.antt =====
-- Every group has its owner after the handlers of Gateway.Membership.
use zzzproject.Base.{
  ℕ, ◌+◌, String, Bool, true, false, not, ◌||◌, Option, List, [], arith, ◌==◌, eq_iff, if-cases,
  Result, ok, err, ltb, length,
}
use zzzproject.Protocol.{Fields, get, get_string}
use zzzproject.Store.Types.{Group}
use zzzproject.Store.State.{MemoryStore}
use zzzproject.Store.Groups.{create_group, get_group_members, add_group_member, remove_group_member}
use zzzproject.Gateway.Requests.{Host, with_params-keeps}
use zzzproject.Gateway.Roles.{
  members_or_none, is_group_admin, can_manage_group_member, group_member_role,
  validate_group_invite_targets, max_group_members,
}
use zzzproject.Gateway.Membership.{
  roll_back, add_members, finish_create, create_with, handle_create_group, finish_invite,
  invite_with, not_members, handle_group_invite, finish_join, handle_join_group, finish_removal,
  handle_leave_group, handle_group_kick,
}
use zzzproject.Gateway.Owners.{
  AllOwned, IsOwned, is_owner, create_group-IsOwned, add_group_member-IsOwned,
  remove_group_member-IsOwned,
}
use zzzproject.Gateway.Safety.{
  no_group-is_owner, NoneOf-nothing, roll_back-IsOwned, add_members-IsOwned,
}
use zzzproject.Gateway.Safety.Kept.{
  Owned, to_kept, resync-keeps, synced-keeps, for_group-keeps, other-is_owner,
}

finish_create-IsOwned :
    (host : Host) (user : String) (g : Group) (members : List String) (c : MemoryStore × Bool)
    → IsOwned c.0
    → Owned (finish_create host user g members c)
unfolding finish_create
finish_create-IsOwned host user g members (s, false) h = to_kept AllOwned s _ h
finish_create-IsOwned host user g members (s, true) h =
    synced-keeps AllOwned host s g.id _ _ h (λ _. to_kept AllOwned s _ h)

create_with-IsOwned :
    (host : Host) (now : ℕ) (s : MemoryStore) (user name avatar : String)
    (r : Result String (List String))
    → IsOwned s
    → Owned (create_with host now s user name avatar r)
unfolding create_with
create_with-IsOwned host now s user name avatar (err message) h = to_kept AllOwned s _ h
create_with-IsOwned host now s user name avatar (ok members) h =
    let id = host.group_id now in
    let created = create_group s now id name avatar user in
    finish_create-IsOwned host user created.1 members (add_members now id [] members created.0) (
      add_members-IsOwned now id [] members created.0
        (create_group-IsOwned s now id name avatar user h) tt)

pub handle_create_group-IsOwned :
    (host : Host) (now : ℕ) (s : MemoryStore) (user : String) (params : Option Fields)
    → IsOwned s
    → Owned (handle_create_group host now s user params)
unfolding handle_create_group
handle_create_group-IsOwned host now s user params h =
    with_params-keeps Owned s user _ params _ (λ _. to_kept AllOwned s _ h)
      (λ _ fields.
        let name = host.trim_space (get_string "name" fields) in
        let avatar = get_string "avatar" fields in
        if-cases Owned (name == "" || ltb 80 (host.byte_len name)) (λ _. to_kept AllOwned s _ h)
          (λ _.
            if-cases Owned (ltb 2048 (host.byte_len avatar)) (λ _. to_kept AllOwned s _ h)
              (λ _.
                create_with-IsOwned host now s user name avatar
                  (validate_group_invite_targets host s user (get "members" fields)) h)))

finish_invite-IsOwned :
    (host : Host) (user id : String) (targets : List String) (c : MemoryStore × Bool)
    → IsOwned c.0
    → Owned (finish_invite host user id targets c)
unfolding finish_invite
finish_invite-IsOwned host user id targets (s, false) h = to_kept AllOwned s _ h
finish_invite-IsOwned host user id targets (s, true) h =
    synced-keeps AllOwned host s id _ _ h (λ absent. to_kept AllOwned _ _ (
      resync-keeps AllOwned host (roll_back id targets s) id (
        roll_back-IsOwned id targets s h
          (NoneOf-nothing (is_owner s id) targets (λ u. no_group-is_owner s id u absent)))))

invite_with-IsOwned :
    (host : Host) (now : ℕ) (s : MemoryStore) (user id : String) (r : Result String (List String))
    → IsOwned s
    → Owned (invite_with host now s user id r)
unfolding invite_with
invite_with-IsOwned host now s user id (err message) h = to_kept AllOwned s _ h
invite_with-IsOwned host now s user id (ok wanted) h =
    let ms = members_or_none (get_group_members s id) in
    let targets = not_members ms wanted in
    if-cases Owned (ltb max_group_members (length ms + length targets))
      (λ _. to_kept AllOwned s _ h)
      (λ _.
        finish_invite-IsOwned host user id targets (add_members now id [] targets s)
          (add_members-IsOwned now id [] targets s h tt))

pub handle_group_invite-IsOwned :
    (host : Host) (now : ℕ) (s : MemoryStore) (user : String) (params : Option Fields)
    → IsOwned s
    → Owned (handle_group_invite host now s user params)
unfolding handle_group_invite
handle_group_invite-IsOwned host now s user params h =
    for_group-keeps AllOwned s user _ params _ h (λ fields g found.
      let id = get_string "group_id" fields in
      if-cases Owned (not (is_group_admin s id user)) (λ _. to_kept AllOwned s _ h)
        (λ _.
          invite_with-IsOwned host now s user id
            (validate_group_invite_targets host s user (get "members" fields)) h))

finish_join-IsOwned :
    (host : Host) (user id : String) (c : MemoryStore × Bool)
    → IsOwned c.0
    → Owned (finish_join host user id c)
unfolding finish_join
finish_join-IsOwned host user id (s, false) h = to_kept AllOwned s _ h
finish_join-IsOwned host user id (s, true) h = synced-keeps AllOwned host s id _ _ h (λ absent.
    to_kept AllOwned _ _
      (remove_group_member-IsOwned s id user h (no_group-is_owner s id user absent)))

pub handle_join_group-IsOwned :
    (host : Host) (now : ℕ) (s : MemoryStore) (user : String) (params : Option Fields)
    → IsOwned s
    → Owned (handle_join_group host now s user params)
unfolding handle_join_group
handle_join_group-IsOwned host now s user params h =
    for_group-keeps AllOwned s user _ params _ h (λ fields g found.
      let id = get_string "group_id" fields in
      finish_join-IsOwned host user id (add_group_member s now id user)
        (add_group_member-IsOwned s now id user h))

finish_removal-IsOwned :
    (host : Host) (now : ℕ) (operator id user failure : String) (c : MemoryStore × Bool)
    → IsOwned c.0
    → Owned (finish_removal host now operator id user failure c)
unfolding finish_removal
finish_removal-IsOwned host now operator id user failure (s, false) h = to_kept AllOwned s _ h
finish_removal-IsOwned host now operator id user failure (s, true) h =
    synced-keeps AllOwned host s id _ _ h (λ _. to_kept AllOwned _ _ (
      resync-keeps AllOwned host (add_group_member s now id user).0 id
        (add_group_member-IsOwned s now id user h)))

pub handle_leave_group-IsOwned :
    (host : Host) (now : ℕ) (s : MemoryStore) (user : String) (params : Option Fields)
    → IsOwned s
    → Owned (handle_leave_group host now s user params)
unfolding handle_leave_group
handle_leave_group-IsOwned host now s user params h =
    for_group-keeps AllOwned s user _ params _ h (λ fields g found.
      let id = get_string "group_id" fields in
      if-cases Owned (g.owner_id == user) (λ _. to_kept AllOwned s _ h)
        (λ other. finish_removal-IsOwned host now user id user _ (remove_group_member s id user) (
          remove_group_member-IsOwned s id user h (
            other-is_owner s id user g found
              (ground (arith, other, eq_iff user g.owner_id, eq_iff g.owner_id user))))))

pub handle_group_kick-IsOwned :
    (host : Host) (now : ℕ) (s : MemoryStore) (user : String) (params : Option Fields)
    → IsOwned s
    → Owned (handle_group_kick host now s user params)
unfolding handle_group_kick
handle_group_kick-IsOwned host now s user params h =
    for_group-keeps AllOwned s user _ params _ h (λ fields g found.
      let id = get_string "group_id" fields in
      let target = get_string "user_id" fields in
      if-cases Owned
        (not (can_manage_group_member (group_member_role s id user) (group_member_role s id target))
          || (target == user || target == g.owner_id))
        (λ _. to_kept AllOwned s _ h)
        (λ other.
          finish_removal-IsOwned host now user id target _ (remove_group_member s id target) (
            remove_group_member-IsOwned s id target h
              (other-is_owner s id target g found (ground (arith, other))))))

-- ===== src/Gateway/Safety/Management.antt =====
-- Every group has its owner after the handlers of Gateway.Management.
use zzzproject.Base.{
  ℕ, String, ◌≡◌, Bool, false, not, ◌||◌, Option, none, some, List, arith, ◌==◌, eq_iff,
  if◌then◌else◌, if-cases, ok, err, is_some,
}
use zzzproject.Protocol.{Fields, get, get_string}
use zzzproject.Store.Types.{Group}
use zzzproject.Store.State.{MemoryStore}
use zzzproject.Store.Groups.{
  get_group, update_group, set_group_member_role, set_group_member_mute, transfer_group_ownership,
  delete_group, Changed,
}
use zzzproject.Gateway.Requests.{Host, with_params-keeps, as_bool}
use zzzproject.Gateway.Roles.{is_group_admin, can_manage_group_member, group_member_role}
use zzzproject.Gateway.Management.{
  ban_for, ban_duration, handle_group_ban, update_with, handle_update_group, set_admin_to,
  handle_set_group_admin, handle_transfer_group, handle_dismiss_group, mute_all_to,
  handle_group_mute_all, answer_ban, ban_end, answer_update, new_name, new_avatar, new_announcement,
  answer_admin, invalid_change, answer_transfer, answer_dismiss, answer_mute_all,
}
use zzzproject.Gateway.Ownership.{test_if}
use zzzproject.Gateway.Owners.{
  AllOwned, IsOwned, is_owner, set_group_member_role-IsOwned, set_group_member_mute-IsOwned,
  update_group-IsOwned, delete_group-IsOwned, transfer_group_ownership-IsOwned,
}
use zzzproject.Gateway.Safety.Kept.{Owned, to_kept, synced-keeps, for_group-keeps, other-is_owner}

answer_ban-IsOwned :
    (user id target : String) (duration until : ℕ) (c : Changed)
    → IsOwned c.0
    → Owned (answer_ban user id target duration until c)
answer_ban-IsOwned user id target duration until (s, err e) h = to_kept AllOwned s _ h
answer_ban-IsOwned user id target duration until (s, ok u) h = to_kept AllOwned s _ h

ban_for-IsOwned :
    (now : ℕ) (s : MemoryStore) (user id target : String) (duration : Option ℕ)
    → IsOwned s
    → Owned (ban_for now s user id target duration)
unfolding ban_for
ban_for-IsOwned now s user id target none h = to_kept AllOwned s _ h
ban_for-IsOwned now s user id target (some duration) h =
    if-cases Owned (id == "" || target == "") (λ _. to_kept AllOwned s _ h)
      (λ _.
        if-cases Owned (not (is_some (get_group s id))) (λ _. to_kept AllOwned s _ h)
          (λ _.
            if-cases Owned
              (target == user
                || not (
                    can_manage_group_member (group_member_role s id user)
                      (group_member_role s id target)))
              (λ _. to_kept AllOwned s _ h)
              (λ _.
                answer_ban-IsOwned user id target duration _
                  (set_group_member_mute s id target (ban_end now duration))
                  (set_group_member_mute-IsOwned s id target (ban_end now duration) h))))

pub handle_group_ban-IsOwned :
    (host : Host) (now : ℕ) (s : MemoryStore) (user : String) (params : Option Fields)
    → IsOwned s
    → Owned (handle_group_ban host now s user params)
unfolding handle_group_ban
handle_group_ban-IsOwned host now s user params h =
    with_params-keeps Owned s user _ params _ (λ _. to_kept AllOwned s _ h)
      (λ _ fields.
        ban_for-IsOwned now s user (get_string "group_id" fields) (get_string "user_id" fields)
          (ban_duration host (get "duration" fields)) h)

answer_update-IsOwned :
    (host : Host) (user id name avatar announcement : String) (g : Group) (c : Changed)
    → IsOwned c.0
    → Owned (answer_update host user id name avatar announcement g c)
answer_update-IsOwned host user id name avatar announcement g (s, err e) h = to_kept AllOwned s _ h
answer_update-IsOwned host user id name avatar announcement g (s, ok u) h =
    synced-keeps AllOwned host s id _ _ h (λ _.
      to_kept AllOwned _ _ (update_group-IsOwned s id g.name g.avatar g.announcement g.mute_all h))

update_with-IsOwned :
    (host : Host) (s : MemoryStore) (user id : String) (g : Group)
    (name avatar announcement : Option (String × Bool))
    → IsOwned s
    → Owned (update_with host s user id g name avatar announcement)
unfolding update_with
update_with-IsOwned host s user id g none avatar announcement h = to_kept AllOwned s _ h
update_with-IsOwned host s user id g (some (n, c1)) none announcement h = to_kept AllOwned s _ h
update_with-IsOwned host s user id g (some (n, c1)) (some (a, c2)) none h = to_kept AllOwned s _ h
update_with-IsOwned host s user id g (some (n, c1)) (some (a, c2)) (some (t, c3)) h =
    if-cases Owned (not (c1 || (c2 || c3))) (λ _. to_kept AllOwned s _ h)
      (λ _.
        answer_update-IsOwned host user id n a t g (update_group s id n a t g.mute_all)
          (update_group-IsOwned s id n a t g.mute_all h))

pub handle_update_group-IsOwned :
    (host : Host) (s : MemoryStore) (user : String) (params : Option Fields)
    → IsOwned s
    → Owned (handle_update_group host s user params)
unfolding handle_update_group
handle_update_group-IsOwned host s user params h =
    for_group-keeps AllOwned s user _ params _ h (λ fields g found.
      let id = get_string "group_id" fields in
      if-cases Owned (not (is_group_admin s id user)) (λ _. to_kept AllOwned s _ h)
        (λ _.
          update_with-IsOwned host s user id g (new_name host g fields) (new_avatar host g fields)
            (new_announcement host g fields) h))

answer_admin-IsOwned :
    (user id target : String) (enabled : Bool) (c : Changed)
    → IsOwned c.0
    → Owned (answer_admin user id target enabled c)
answer_admin-IsOwned user id target enabled (s, err e) h = to_kept AllOwned s _ h
answer_admin-IsOwned user id target enabled (s, ok u) h = to_kept AllOwned s _ h

set_admin_to-IsOwned :
    (s : MemoryStore) (user id target : String) (enabled : Option Bool)
    → IsOwned s
    → is_owner s id target ≡ false
    → Owned (set_admin_to s user id target enabled)
unfolding set_admin_to
set_admin_to-IsOwned s user id target none h other = to_kept AllOwned s _ h
set_admin_to-IsOwned s user id target (some enabled) h other =
    if-cases Owned (invalid_change enabled (group_member_role s id target))
      (λ _. to_kept AllOwned s _ h)
      (λ _.
        answer_admin-IsOwned user id target enabled
          (set_group_member_role s id target (if enabled then "admin" else "member"))
          (set_group_member_role-IsOwned s id target (if enabled then "admin" else "member") h other
            (ground (arith, test_if enabled "admin" "member" "owner"))))

pub handle_set_group_admin-IsOwned :
    (s : MemoryStore) (user : String) (params : Option Fields)
    → IsOwned s
    → Owned (handle_set_group_admin s user params)
unfolding handle_set_group_admin
handle_set_group_admin-IsOwned s user params h =
    for_group-keeps AllOwned s user _ params _ h (λ fields g found.
      let id = get_string "group_id" fields in
      let target = get_string "user_id" fields in
      if-cases Owned (not (g.owner_id == user) || target == user) (λ _. to_kept AllOwned s _ h)
        (λ other. set_admin_to-IsOwned s user id target (as_bool (get "enabled" fields)) h (
          other-is_owner s id target g found (
            ground (
              arith,
              other,
              eq_iff g.owner_id user,
              eq_iff target user,
              eq_iff target g.owner_id,
            )))))

answer_transfer-IsOwned :
    (host : Host) (user id target : String) (c : Changed)
    → IsOwned c.0
    → Owned (answer_transfer host user id target c)
answer_transfer-IsOwned host user id target (s, err e) h = to_kept AllOwned s _ h
answer_transfer-IsOwned host user id target (s, ok u) h =
    synced-keeps AllOwned host s id _ _ h
      (λ _. to_kept AllOwned _ _ (transfer_group_ownership-IsOwned s id target user h))

pub handle_transfer_group-IsOwned :
    (host : Host) (s : MemoryStore) (user : String) (params : Option Fields)
    → IsOwned s
    → Owned (handle_transfer_group host s user params)
unfolding handle_transfer_group
handle_transfer_group-IsOwned host s user params h =
    for_group-keeps AllOwned s user _ params _ h (λ fields g found.
      let id = get_string "group_id" fields in
      let target = get_string "user_id" fields in
      if-cases Owned
        (not (g.owner_id == user) || (target == user || (group_member_role s id target == "")))
        (λ _. to_kept AllOwned s _ h)
        (λ _.
          answer_transfer-IsOwned host user id target (transfer_group_ownership s id user target)
            (transfer_group_ownership-IsOwned s id user target h)))

answer_dismiss-IsOwned :
    (user id : String) (users : List String) (c : Changed)
    → IsOwned c.0
    → Owned (answer_dismiss user id users c)
answer_dismiss-IsOwned user id users (s, err e) h = to_kept AllOwned s _ h
answer_dismiss-IsOwned user id users (s, ok u) h = to_kept AllOwned s _ h

pub handle_dismiss_group-IsOwned :
    (s : MemoryStore) (user : String) (params : Option Fields)
    → IsOwned s
    → Owned (handle_dismiss_group s user params)
unfolding handle_dismiss_group
handle_dismiss_group-IsOwned s user params h =
    for_group-keeps AllOwned s user _ params _ h (λ fields g found.
      let id = get_string "group_id" fields in
      if-cases Owned (not (g.owner_id == user)) (λ _. to_kept AllOwned s _ h)
        (λ _. answer_dismiss-IsOwned user id _ (delete_group s id) (delete_group-IsOwned s id h)))

answer_mute_all-IsOwned :
    (user id : String) (enabled : Bool) (c : Changed)
    → IsOwned c.0
    → Owned (answer_mute_all user id enabled c)
answer_mute_all-IsOwned user id enabled (s, err e) h = to_kept AllOwned s _ h
answer_mute_all-IsOwned user id enabled (s, ok u) h = to_kept AllOwned s _ h

mute_all_to-IsOwned :
    (s : MemoryStore) (user id : String) (g : Group) (enabled : Option Bool)
    → IsOwned s
    → Owned (mute_all_to s user id g enabled)
unfolding mute_all_to
mute_all_to-IsOwned s user id g none h = to_kept AllOwned s _ h
mute_all_to-IsOwned s user id g (some enabled) h =
    if-cases Owned (not (is_group_admin s id user)) (λ _. to_kept AllOwned s _ h)
      (λ _.
        answer_mute_all-IsOwned user id enabled
          (update_group s id g.name g.avatar g.announcement enabled)
          (update_group-IsOwned s id g.name g.avatar g.announcement enabled h))

pub handle_group_mute_all-IsOwned :
    (s : MemoryStore) (user : String) (params : Option Fields)
    → IsOwned s
    → Owned (handle_group_mute_all s user params)
unfolding handle_group_mute_all
handle_group_mute_all-IsOwned s user params h =
    for_group-keeps AllOwned s user _ params _ h (λ fields g found.
      mute_all_to-IsOwned s user (get_string "group_id" fields) g (as_bool (get "enabled" fields))
        h)

-- ===== src/Gateway/Access.antt =====
-- Who may change whose role, over all requests of Gateway.Dispatch.
use zzzproject.Base.{ℕ, String, ◌≡◌, sym, ◌∙◌, false, Option, ◌==◌}
use zzzproject.Protocol.{Fields}
use zzzproject.Store.State.{MemoryStore}
use zzzproject.Gateway.Requests.{Host}
use zzzproject.Gateway.Roles.{group_member_role}
use zzzproject.Gateway.Owners.{IsOwned}
use zzzproject.Gateway.Safety.Kept.{Kept, from_kept}
use zzzproject.Gateway.Dispatch.{
  GroupAction, create_group, group_invite, join_group, leave_group, group_kick, group_ban,
  update_group, set_group_admin, transfer_group, dismiss_group, group_mute_all,
  handle_group_request, Reachable, Reachable-IsOwned,
}
use zzzproject.Gateway.Permissions.{may_change, group_member_role_lem, SameRole}
use zzzproject.Gateway.Permissions.Members.{
  handle_create_group-SameRole, handle_group_invite-SameRole, handle_join_group-SameRole,
  handle_leave_group-SameRole, handle_group_kick-SameRole,
}
use zzzproject.Gateway.Permissions.Management.{
  handle_group_ban-SameRole, handle_update_group-SameRole, handle_set_group_admin-SameRole,
  handle_transfer_group-SameRole, handle_dismiss_group-SameRole, handle_group_mute_all-SameRole,
}

handle_group_request-SameRole :
    (id target : String) (host : Host) (now : ℕ) (s : MemoryStore) (user : String)
    (action : GroupAction) (params : Option Fields)
    → IsOwned s
    → (user == target) ≡ false
    → (host.group_id now == id) ≡ false
    → may_change (group_member_role s id user) (group_member_role s id target) ≡ false
    → Kept (SameRole id target s.groups) (handle_group_request host now s user action params)
unfolding handle_group_request
handle_group_request-SameRole id target host now s user create_group params h apart new locked =
    handle_create_group-SameRole id target host now s user params new
handle_group_request-SameRole id target host now s user group_invite params h apart new locked =
    handle_group_invite-SameRole id target host now s user params locked
handle_group_request-SameRole id target host now s user join_group params h apart new locked =
    handle_join_group-SameRole id target host now s user params apart
handle_group_request-SameRole id target host now s user leave_group params h apart new locked =
    handle_leave_group-SameRole id target host now s user params apart
handle_group_request-SameRole id target host now s user group_kick params h apart new locked =
    handle_group_kick-SameRole id target host now s user params locked
handle_group_request-SameRole id target host now s user group_ban params h apart new locked =
    handle_group_ban-SameRole id target host now s user params
handle_group_request-SameRole id target host now s user update_group params h apart new locked =
    handle_update_group-SameRole id target host s user params
handle_group_request-SameRole id target host now s user set_group_admin params h apart new locked =
    handle_set_group_admin-SameRole id target s user params h locked
handle_group_request-SameRole id target host now s user transfer_group params h apart new locked =
    handle_transfer_group-SameRole id target host s user params h locked
handle_group_request-SameRole id target host now s user dismiss_group params h apart new locked =
    handle_dismiss_group-SameRole id target s user params h locked
handle_group_request-SameRole id target host now s user group_mute_all params h apart new locked =
    handle_group_mute_all-SameRole id target s user params

-- In a store that requests lead to, no group request of a user changes the role of another user in a
-- group, membership included, unless the caller is the group's owner, or an administrator and the
-- other one a plain member or no member. The group is not one that is just being created: the
-- identifier that a new group would get is another one.
pub role_change_needs_rank :
    (host : Host) (now : ℕ) (s : MemoryStore) (user : String) (action : GroupAction)
    (params : Option Fields) (id target : String)
    → Reachable host s
    → (user == target) ≡ false
    → (host.group_id now == id) ≡ false
    → may_change (group_member_role s id user) (group_member_role s id target) ≡ false
    → group_member_role (handle_group_request host now s user action params).0 id target
      ≡ group_member_role s id target
role_change_needs_rank host now s user action params id target r apart new locked =
    let after = handle_group_request host now s user action params in
    group_member_role_lem after.0 id target
    ∙ from_kept (SameRole id target s.groups) after (
        handle_group_request-SameRole id target host now s user action params
          (Reachable-IsOwned host s r) apart new locked)
    ∙ sym (group_member_role_lem s id target)

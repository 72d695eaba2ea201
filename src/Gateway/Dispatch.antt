-- ===== src/Gateway/Dispatch.antt =====
-- The requests that change groups, as handleRequest of server/internal/gateway/gateway.go hands them
-- to their handlers, and the stores that they lead to.
use zzzproject.Base.{ℕ, String, ◌≡◌, Option, some, lookup}
use zzzproject.Protocol.{Fields}
use zzzproject.Store.Types.{Group}
use zzzproject.Store.State.{MemoryStore, new_memory_store}
use zzzproject.Gateway.Requests.{Host, Handled}
use zzzproject.Gateway.Membership.{
  handle_create_group, handle_group_invite, handle_join_group, handle_leave_group,
  handle_group_kick,
}
use zzzproject.Gateway.Management.{
  handle_group_ban, handle_update_group, handle_set_group_admin, handle_transfer_group,
  handle_dismiss_group, handle_group_mute_all,
}
use zzzproject.Gateway.Owners.{AllOwned, HasOwner, IsOwned}
use zzzproject.Gateway.Safety.Kept.{Owned, from_kept}
use zzzproject.Gateway.Safety.Members.{
  handle_create_group-IsOwned, handle_group_invite-IsOwned, handle_join_group-IsOwned,
  handle_leave_group-IsOwned, handle_group_kick-IsOwned,
}
use zzzproject.Gateway.Safety.Management.{
  handle_group_ban-IsOwned, handle_update_group-IsOwned, handle_set_group_admin-IsOwned,
  handle_transfer_group-IsOwned, handle_dismiss_group-IsOwned, handle_group_mute_all-IsOwned,
}

-- The actions whose handlers change groups.
pub data GroupAction : Type 0 where
  create_group : GroupAction
  group_invite : GroupAction
  join_group : GroupAction
  leave_group : GroupAction
  group_kick : GroupAction
  group_ban : GroupAction
  update_group : GroupAction
  set_group_admin : GroupAction
  transfer_group : GroupAction
  dismiss_group : GroupAction
  group_mute_all : GroupAction

unfoldable pub handle_group_request :
    Host → ℕ → MemoryStore → String → GroupAction → Option Fields → Handled
handle_group_request host now s user create_group params =
    handle_create_group host now s user params
handle_group_request host now s user group_invite params =
    handle_group_invite host now s user params
handle_group_request host now s user join_group params = handle_join_group host now s user params
handle_group_request host now s user leave_group params = handle_leave_group host now s user params
handle_group_request host now s user group_kick params = handle_group_kick host now s user params
handle_group_request host now s user group_ban params = handle_group_ban host now s user params
handle_group_request host now s user update_group params = handle_update_group host s user params
handle_group_request host now s user set_group_admin params = handle_set_group_admin s user params
handle_group_request host now s user transfer_group params =
    handle_transfer_group host s user params
handle_group_request host now s user dismiss_group params = handle_dismiss_group s user params
handle_group_request host now s user group_mute_all params = handle_group_mute_all s user params

-- The groups that are there afterwards were there before, with the same owner and the same members.
abbrev pub SameMembers : MemoryStore → MemoryStore → Type 0
SameMembers s s' =
    (id : String) (g' : Group)
    → lookup id s'.groups ≡ some g'
    → (g : Group) × ((lookup id s.groups ≡ some g)
        × ((g'.owner_id ≡ g.owner_id) × (g'.members ≡ g.members)))

SameMembers-IsOwned : (s s' : MemoryStore) → SameMembers s s' → IsOwned s → IsOwned s'
SameMembers-IsOwned s s' same h id g' found =
    let (g, (before, (owner, members))) = same id g' found in rw (owner, members) (h id g before)

-- The stores that requests lead to from an empty one. A request of another kind leaves the
-- owners and the members of groups.
pub data Reachable (host : Host) : MemoryStore → Type 0 where
  start : Reachable host new_memory_store
  request :
      (now : ℕ) (s : MemoryStore) (user : String) (action : GroupAction) (params : Option Fields)
      → Reachable host s
      → Reachable host (handle_group_request host now s user action params).0
  elsewhere : (s s' : MemoryStore) → SameMembers s s' → Reachable host s → Reachable host s'

handle_group_request-IsOwned :
    (host : Host) (now : ℕ) (s : MemoryStore) (user : String) (action : GroupAction)
    (params : Option Fields)
    → IsOwned s
    → Owned (handle_group_request host now s user action params)
unfolding handle_group_request
handle_group_request-IsOwned host now s user create_group params h =
    handle_create_group-IsOwned host now s user params h
handle_group_request-IsOwned host now s user group_invite params h =
    handle_group_invite-IsOwned host now s user params h
handle_group_request-IsOwned host now s user join_group params h =
    handle_join_group-IsOwned host now s user params h
handle_group_request-IsOwned host now s user leave_group params h =
    handle_leave_group-IsOwned host now s user params h
handle_group_request-IsOwned host now s user group_kick params h =
    handle_group_kick-IsOwned host now s user params h
handle_group_request-IsOwned host now s user group_ban params h =
    handle_group_ban-IsOwned host now s user params h
handle_group_request-IsOwned host now s user update_group params h =
    handle_update_group-IsOwned host s user params h
handle_group_request-IsOwned host now s user set_group_admin params h =
    handle_set_group_admin-IsOwned s user params h
handle_group_request-IsOwned host now s user transfer_group params h =
    handle_transfer_group-IsOwned host s user params h
handle_group_request-IsOwned host now s user dismiss_group params h =
    handle_dismiss_group-IsOwned s user params h
handle_group_request-IsOwned host now s user group_mute_all params h =
    handle_group_mute_all-IsOwned s user params h

pub Reachable-IsOwned : (host : Host) (s : MemoryStore) → Reachable host s → IsOwned s
unfolding new_memory_store lookup
Reachable-IsOwned host s start = λ id g found. absurd (cc found)
Reachable-IsOwned host s (request now s0 user action params r) =
    from_kept AllOwned (handle_group_request host now s0 user action params)
      (handle_group_request-IsOwned host now s0 user action params (Reachable-IsOwned host s0 r))
Reachable-IsOwned host s (elsewhere s0 s' same r) =
    SameMembers-IsOwned s0 s' same (Reachable-IsOwned host s0 r)

-- In every store that requests lead to from an empty one, whatever users, actions, parameters and
-- times they have, no user stands twice in a group, and the user with the role "owner" is the group's
-- owner, who is there, and no one else. Requests other than those of GroupAction may come in between,
-- if they leave the owners and the members of groups
-- as they are.
pub Reachable-HasOwner :
    (host : Host) (s : MemoryStore) (id : String) (g : Group)
    → Reachable host s
    → lookup id s.groups ≡ some g
    → HasOwner g
Reachable-HasOwner host s id g r found = Reachable-IsOwned host s r id g found

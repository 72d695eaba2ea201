-- ===== src/Gateway/Tests.antt =====
-- The handlers of Gateway on concrete requests.
use zzzproject.Base.{
  String, ◌≡◌, refl, false, some, [], ◌∷◌, ◌==◌, eqb, if◌then◌else◌, lookup, insert,
}
use zzzproject.Protocol.{text, Fields, end, field, get, get_string}
use zzzproject.Store.Types.{Group}
use zzzproject.Store.State.{MemoryStore, new_memory_store}
use zzzproject.Gateway.Requests.{Host, Output, rejected, accepted, no_data}
use zzzproject.Gateway.Owners.{HasOwner}
use zzzproject.Gateway.Roles.{group_member_role}
use zzzproject.Gateway.Permissions.{may_change}
use zzzproject.Gateway.Access.{role_change_needs_rank}
use zzzproject.Gateway.Dispatch.{
  create_group, join_group, transfer_group, handle_group_request, Reachable, start, request,
  group_kick, Reachable-HasOwner,
}

abbrev host : Host
host = record {
  trim_space = λ t. t;
  byte_len = λ t. if t == "" then 0 else 1;
  has_control = λ t. false;
  exact_natural = λ literal. some 60;
  group_id = λ now. if eqb now 1 then "g" else "h";
  sort_stable = λ less ms. ms;
}

abbrev in_group : Fields
in_group = field "group_id" (text "g") end

abbrev about : String → Fields
about user = field "group_id" (text "g") (field "user_id" (text user) end)

abbrev created : MemoryStore
created =
    (handle_group_request host 1 new_memory_store "ann" create_group
      (some (field "name" (text "club") end))).0

abbrev joined : MemoryStore
joined = (handle_group_request host 2 created "bob" join_group (some in_group)).0

abbrev handed : MemoryStore
handed = (handle_group_request host 3 joined "ann" transfer_group (some (about "bob"))).0

abbrev handed_group : Group
handed_group = record {
  id = "g";
  name = "club";
  avatar = "";
  announcement = "";
  owner_id = "bob";
  mute_all = false;
  members =
      record { user_id = "ann"; role = "member"; joined_at = 1; muted_until = 0 }
      ∷ record { user_id = "bob"; role = "owner"; joined_at = 2; muted_until = 0 }
      ∷ [];
  created_at = 1;
}

handed_lem : lookup "g" handed.groups ≡ some handed_group
unfolding lookup insert get get_string handle_group_request new_memory_store
    zzzproject.Gateway.Requests.with_params zzzproject.Gateway.Membership.handle_create_group
    zzzproject.Gateway.Membership.create_with zzzproject.Gateway.Roles.validate_group_invite_targets
    zzzproject.Gateway.Membership.add_members zzzproject.Gateway.Membership.finish_create
    zzzproject.Gateway.Roles.sync_group_conversation_participants
    zzzproject.Gateway.Roles.synchronized zzzproject.Gateway.Roles.user_ids
    zzzproject.Gateway.Membership.tell_each zzzproject.Gateway.Membership.handle_join_group
    zzzproject.Gateway.Membership.finish_join zzzproject.Gateway.Management.handle_transfer_group
    zzzproject.Gateway.Roles.group_member_role zzzproject.Gateway.Roles.role_of
    zzzproject.Store.Groups.create_group zzzproject.Store.Groups.get_group
    zzzproject.Store.Groups.get_group_members zzzproject.Store.Groups.add_group_member
    zzzproject.Store.Groups.has_member zzzproject.Store.Groups.any_member
    zzzproject.Store.Groups.transfer_group_ownership zzzproject.Store.Groups.last_member
    zzzproject.Store.Groups.set_last zzzproject.Store.Conversations.save_conversation
    zzzproject.Store.Conversations.get_conversation
handed_lem = refl

-- The owner who has handed the group over may leave.
Reachable-HasOwner_example : HasOwner handed_group
Reachable-HasOwner_example =
    Reachable-HasOwner host handed "g" handed_group
      (request 3 joined "ann" transfer_group (some (about "bob")) (
        request 2 created "bob" join_group (some in_group) (
          request 1 new_memory_store "ann" create_group (some (field "name" (text "club") end))
            start)))
      handed_lem

joined-Reachable : Reachable host joined
joined-Reachable =
    request 2 created "bob" join_group (some in_group)
      (request 1 new_memory_store "ann" create_group (some (field "name" (text "club") end)) start)

bob_below :
    may_change (group_member_role joined "g" "bob") (group_member_role joined "g" "ann") ≡ false
unfolding lookup insert get get_string handle_group_request new_memory_store
    zzzproject.Gateway.Requests.with_params zzzproject.Gateway.Membership.handle_create_group
    zzzproject.Gateway.Membership.create_with zzzproject.Gateway.Roles.validate_group_invite_targets
    zzzproject.Gateway.Membership.add_members zzzproject.Gateway.Membership.finish_create
    zzzproject.Gateway.Roles.sync_group_conversation_participants
    zzzproject.Gateway.Roles.synchronized zzzproject.Gateway.Roles.user_ids
    zzzproject.Gateway.Membership.tell_each zzzproject.Gateway.Membership.handle_join_group
    zzzproject.Gateway.Membership.finish_join zzzproject.Gateway.Management.handle_transfer_group
    zzzproject.Gateway.Roles.group_member_role zzzproject.Gateway.Roles.role_of
    zzzproject.Store.Groups.create_group zzzproject.Store.Groups.get_group
    zzzproject.Store.Groups.get_group_members zzzproject.Store.Groups.add_group_member
    zzzproject.Store.Groups.has_member zzzproject.Store.Groups.any_member
    zzzproject.Store.Groups.transfer_group_ownership zzzproject.Store.Groups.last_member
    zzzproject.Store.Groups.set_last zzzproject.Store.Conversations.save_conversation
    zzzproject.Store.Conversations.get_conversation
bob_below = refl

-- A member tries to remove the owner.
role_change_needs_rank_example :
    group_member_role
      (handle_group_request host 3 joined "bob" group_kick (some (about "ann"))).0
      "g"
      "ann"
    ≡ group_member_role joined "g" "ann"
role_change_needs_rank_example =
    role_change_needs_rank host 3 joined "bob" group_kick (some (about "ann")) "g" "ann"
      joined-Reachable refl refl bob_below

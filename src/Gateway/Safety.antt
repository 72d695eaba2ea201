-- ===== src/Gateway/Safety.antt =====
-- Every group has its owner, while members are added and taken back.
pub mod Kept
pub mod Members
pub mod Management
use zzzproject.Base.{
  ℕ, String, ◌≡◌, refl, sym, subst, ◌∙◌, inl, inr, Bool, true, false, not, ◌||◌, Option, none, some,
  List, [], ◌∷◌, ◌++◌, arith, ◌==◌, eq_iff, if◌then◌else◌, if-cases, Bool-cases, Option-cases, Map,
  lookup, insert, remove, lookup-insert, Result, ok, err,
}
use zzzproject.Protocol.{Fields, get, get_string}
use zzzproject.Store.Types.{Group, GroupMember}
use zzzproject.Store.State.{MemoryStore}
use zzzproject.Store.Conversations.{save_conversation}
use zzzproject.Store.Groups.{
  has_member, create_group, get_group, get_group_members, add_group_member, remove_group_member,
}
use zzzproject.Gateway.Requests.{Host, Handled, reject, with_params, with_params-keeps}
use zzzproject.Gateway.Roles.{
  members_or_none, sync_group_conversation_participants, resync, is_group_admin,
  can_manage_group_member, group_member_role, validate_group_invite_targets,
}
use zzzproject.Gateway.Membership.{
  roll_back, add_members, finish_create, create_with, handle_create_group, finish_invite,
  invite_with, not_members, handle_group_invite, finish_join, handle_join_group, finish_removal,
  handle_leave_group, handle_group_kick,
}
use zzzproject.Gateway.Ownership.{owner_is_member}
use zzzproject.Gateway.Owners.{
  IsOwned, HasOwner, same_groups-IsOwned, is_owner, create_group-IsOwned, add_group_member-IsOwned,
  remove_group_member-IsOwned,
}

-- No group, no owner.
pub no_group-is_owner :
    (s : MemoryStore) (id user : String) → lookup id s.groups ≡ none → is_owner s id user ≡ false
no_group-is_owner s id user absent = rw (is_owner, absent) refl

inserted-is_owner :
    (s : MemoryStore) (id user : String) (g : Group) (ms : List GroupMember)
    → lookup id s.groups ≡ some g
    → is_owner (record s { groups = insert id (record g { members = ms }) s.groups }) id user
      ≡ is_owner s id user
inserted-is_owner s id user g ms found =
    ground (arith, lookup-insert id id (record g { members = ms }) s.groups, found, eq_iff id id)

-- The owner stays the owner when a member comes or goes.
add_group_member-is_owner :
    (s : MemoryStore) (now : ℕ) (id user other : String)
    → is_owner (add_group_member s now id user).0 id other ≡ is_owner s id other
unfolding add_group_member
add_group_member-is_owner s now id user other = elim (Option-cases (lookup id s.groups)) [
  | inl absent ↦ rw (add_group_member, absent) refl
  | inr (g, found) ↦
      rw (add_group_member, found)
        (if-cases (λ (c : MemoryStore × Bool). is_owner c.0 id other ≡ is_owner s id other)
          (has_member user g.members) (λ _. refl) (λ _. inserted-is_owner s id other g _ found))
]

remove_group_member-is_owner :
    (s : MemoryStore) (id user other : String)
    → is_owner (remove_group_member s id user).0 id other ≡ is_owner s id other
unfolding remove_group_member
remove_group_member-is_owner s id user other = elim (Option-cases (lookup id s.groups)) [
  | inl absent ↦ rw (remove_group_member, absent) refl
  | inr (g, found) ↦
      rw (remove_group_member, found)
        (if-cases (λ (c : MemoryStore × Bool). is_owner c.0 id other ≡ is_owner s id other)
          (has_member user g.members) (λ _. inserted-is_owner s id other g _ found) (λ _. refl))
]

-- A user who is added was not a member, and the owner is one.
added-is_owner :
    (s : MemoryStore) (now : ℕ) (id user : String)
    → IsOwned s
    → (add_group_member s now id user).1 ≡ true
    → is_owner s id user ≡ false
unfolding add_group_member
added-is_owner s now id user h added = elim (Option-cases (lookup id s.groups)) [
  | inl absent ↦ no_group-is_owner s id user absent
  | inr (g, found) ↦
      let here = owner_is_member g.owner_id g.members (h id g found).1 in
      ground (arith, added, found, here, eq_iff user g.owner_id)
]

-- None of the users passes a test.
abbrev pub NoneOf : (String → Bool) → List String → Type 0
NoneOf f [] = Unit
NoneOf f (user ∷ users) = (f user ≡ false) × NoneOf f users

pub NoneOf-append :
    (f : String → Bool) (users : List String) (user : String)
    → NoneOf f users
    → f user ≡ false
    → NoneOf f (users ++ user ∷ [])
NoneOf-append f [] user none_of last = (last, tt)
NoneOf-append f (u ∷ users) user none_of last =
    (none_of.0, NoneOf-append f users user none_of.1 last)

pub NoneOf-nothing :
    (f : String → Bool) (users : List String) → ((u : String) → f u ≡ false) → NoneOf f users
NoneOf-nothing f [] h = tt
NoneOf-nothing f (u ∷ users) h = (h u, NoneOf-nothing f users h)

pub roll_back-IsOwned :
    (id : String) (users : List String) (s : MemoryStore)
    → IsOwned s
    → NoneOf (is_owner s id) users
    → IsOwned (roll_back id users s)
unfolding roll_back
roll_back-IsOwned id [] s h none_of = h
roll_back-IsOwned id (u ∷ users) s h none_of =
    let same : is_owner s id ≡ is_owner (remove_group_member s id u).0 id =
      λ i other. sym (remove_group_member-is_owner s id u other) i in
    roll_back-IsOwned id users (remove_group_member s id u).0
      (remove_group_member-IsOwned s id u h none_of.0) (subst (λ f. NoneOf f users) same none_of.1)

pub add_members-IsOwned :
    (now : ℕ) (id : String) (added users : List String) (s : MemoryStore)
    → IsOwned s
    → NoneOf (is_owner s id) added
    → IsOwned (add_members now id added users s).0
unfolding add_members
add_members-IsOwned now id added [] s h none_of = h
add_members-IsOwned now id added (u ∷ users) s h none_of =
    let next = add_group_member s now id u in
    let h' = add_group_member-IsOwned s now id u h in
    let same : is_owner s id ≡ is_owner next.0 id =
      λ i other. sym (add_group_member-is_owner s now id u other) i in
    if-cases (λ (c : MemoryStore × Bool). IsOwned c.0) next.1
      (λ new. add_members-IsOwned now id (added ++ u ∷ []) users next.0 h' (
        subst (λ f. NoneOf f (added ++ u ∷ [])) same
          (NoneOf-append (is_owner s id) added u none_of (added-is_owner s now id u h new))))
      (λ _. roll_back-IsOwned id added next.0 h' (subst (λ f. NoneOf f added) same none_of))

-- ===== src/Gateway/Owners.antt =====
-- Every group has its owner, as the store's methods change it.
use zzzproject.Base.{
  ℕ, String, ◌≡◌, refl, subst, ◌∙◌, ◌≢◌, inl, inr, Bool, true, false, not, ◌&&◌, ◌||◌, none, some,
  List, [], ◌∷◌, ◌++◌, arith, ◌==◌, eq_iff, if◌then◌else◌, if-cases, Bool-cases, Option-cases, Map,
  lookup, insert, remove, lookup-insert, lookup-remove,
}
use zzzproject.Store.Types.{Group, GroupMember}
use zzzproject.Store.State.{MemoryStore}
use zzzproject.Store.Groups.{
  any_member, is_user, is_heir, heir_is_owner, last_member, set_last, demoted, promoted, has_member,
  remove_member, set_first, create_group, add_group_member, remove_group_member, update_group,
  change_member, set_group_member_role, set_group_member_mute, transfer_group_ownership,
  transferred, delete_group, Changed,
}
use zzzproject.Store.Groups.Members.{
  Distinct, Distinct-append, Distinct-remove, Distinct-set_first, Distinct-set_last,
}
use zzzproject.Store.Groups.Ownership.{last_member_lem, heir_by_id, no_heir}
use zzzproject.Gateway.Roles.{role_of}
use zzzproject.Gateway.Ownership.{
  OwnedBy, test_if, owner_is_member, role_of-append, role_of-remove, role_of-set_role,
  role_of-set_muted, with_role, role_of-transferred, last_absent,
}

-- No user stands twice in the group, and exactly the owner has the role "owner".
abbrev pub HasOwner : Group → Type 0
HasOwner g = Distinct g.members × OwnedBy g.owner_id g.members

abbrev pub AllOwned : Map Group → Type 0
AllOwned groups = (id : String) (g : Group) → lookup id groups ≡ some g → HasOwner g

abbrev pub IsOwned : MemoryStore → Type 0
IsOwned s = AllOwned s.groups

pub same_groups-IsOwned : (s s' : MemoryStore) → s'.groups ≡ s.groups → IsOwned s → IsOwned s'
same_groups-IsOwned s s' e h id g found = h id g (rw e at found)

inserted-IsOwned :
    (s : MemoryStore) (key : String) (g : Group)
    → IsOwned s
    → HasOwner g
    → IsOwned (record s { groups = insert key g s.groups })
inserted-IsOwned s key g h o id g' found = elim (Bool-cases (key == id)) [
  | inl here ↦
      let equal : g ≡ g' = ground (arith, lookup-insert key id g s.groups, here, found) in
      subst HasOwner equal o
  | inr there ↦ h id g' (ground (arith, lookup-insert key id g s.groups, there, found))
]

removed-IsOwned :
    (s : MemoryStore) (key : String)
    → IsOwned s
    → IsOwned (record s { groups = remove key s.groups })
removed-IsOwned s key h id g found = h id g (ground (arith, lookup-remove key id s.groups, found))

-- A new group: its creator alone.
pub create_group-IsOwned :
    (s : MemoryStore) (now : ℕ) (id name avatar owner : String)
    → IsOwned s
    → IsOwned (create_group s now id name avatar owner).0
unfolding create_group
create_group-IsOwned s now id name avatar owner h = inserted-IsOwned s id _ h (
  unfold has_member in (refl, tt),
  λ user.
      unfold role_of in
      ground
        (arith, test_if (owner == user) "owner" "" "owner", eq_iff owner user, eq_iff user owner),
)

-- Whether a user owns the group.
abbrev pub is_owner : MemoryStore → String → String → Bool
is_owner s id user = elim (lookup id s.groups) [ none ↦ false | some g ↦ user == g.owner_id ]

pub add_group_member-IsOwned :
    (s : MemoryStore) (now : ℕ) (id user : String)
    → IsOwned s
    → IsOwned (add_group_member s now id user).0
unfolding add_group_member
add_group_member-IsOwned s now id user h = elim (Option-cases (lookup id s.groups)) [
  | inl absent ↦ rw (add_group_member, absent) h
  | inr (g, found) ↦
      let m : GroupMember = record {
        user_id = user;
        role = "member";
        joined_at = now;
        muted_until = 0;
      } in
      rw (add_group_member, found)
        (if-cases (λ (c : MemoryStore × Bool). IsOwned c.0) (has_member user g.members) (λ _. h)
          (λ new.
            inserted-IsOwned s id (record g { members = g.members ++ m ∷ [] }) h
              (
                Distinct-append m g.members new (h id g found).0,
                λ other.
                    rw
                      (
                        role_of-append other m g.members,
                        test_if (has_member other g.members) (role_of other g.members)
                            (if user == other then "member" else "") "owner",
                        test_if (user == other) "member" "" "owner",
                      )
                      (ground (
                        arith,
                        (h id g found).1 other,
                        eq_iff other g.owner_id,
                        owner_is_member g.owner_id g.members (h id g found).1,
                      )),
              )))
]

pub remove_group_member-IsOwned :
    (s : MemoryStore) (id user : String)
    → IsOwned s
    → is_owner s id user ≡ false
    → IsOwned (remove_group_member s id user).0
unfolding remove_group_member
remove_group_member-IsOwned s id user h other = elim (Option-cases (lookup id s.groups)) [
  | inl absent ↦ rw (remove_group_member, absent) h
  | inr (g, found) ↦
      let not_owner : (user == g.owner_id) ≡ false = rw (found, is_owner) at other in
      rw (remove_group_member, found)
        (if-cases (λ (c : MemoryStore × Bool). IsOwned c.0) (has_member user g.members)
          (λ _.
            inserted-IsOwned s id (record g { members = remove_member user g.members }) h
              (
                Distinct-remove user g.members (h id g found).0,
                λ u.
                    rw
                      (
                        role_of-remove user u g.members (h id g found).0,
                        test_if (user == u) "" (role_of u g.members) "owner",
                      )
                      (ground (arith, (h id g found).1 u, eq_iff user u, not_owner)),
              ))
          (λ _. h))
]

pub heir_differs :
    (current heir : String) (ms : List GroupMember)
    → heir_is_owner (last_member (is_heir current heir) ms) ≡ false
    → current ≢ heir
heir_differs current heir ms plain same =
    let none_left = no_heir current heir ms same in
    let e : heir_is_owner none ≡ false = rw none_left at plain in cc e

pub heir_present :
    (current heir : String) (ms : List GroupMember)
    → current ≢ heir
    → heir_is_owner (last_member (is_heir current heir) ms) ≡ false
    → has_member heir ms ≡ true
heir_present current heir ms differ plain = elim (Bool-cases (has_member heir ms)) [
  | inl here ↦ here
  | inr gone ↦
      let none_left =
        last_member_lem (is_heir current heir) heir ms (heir_by_id current heir differ)
        ∙ last_absent heir ms gone in
      let e : heir_is_owner none ≡ false = rw none_left at plain in cc e
]

set_role-HasOwner :
    (g : Group) (user role : String)
    → HasOwner g
    → (user == g.owner_id) ≡ false
    → (role == "owner") ≡ false
    → HasOwner (record g { members = set_first user (with_role role) g.members })
set_role-HasOwner g user role o other plain = (
  Distinct-set_first user (with_role role) g.members (λ m. refl) o.0,
  λ u.
      rw
        (
          role_of-set_role user role u g.members,
          test_if ((user == u) && has_member u g.members) role (role_of u g.members) "owner",
        )
        (ground (arith, o.1 u, plain, other, eq_iff user u)),
)

pub set_group_member_role-IsOwned :
    (s : MemoryStore) (id user role : String)
    → IsOwned s
    → is_owner s id user ≡ false
    → (role == "owner") ≡ false
    → IsOwned (set_group_member_role s id user role).0
unfolding set_group_member_role change_member
set_group_member_role-IsOwned s id user role h other plain =
    elim (Option-cases (lookup id s.groups)) [
      | inl absent ↦ rw (set_group_member_role, change_member, absent) h
      | inr (g, found) ↦
          let not_owner : (user == g.owner_id) ≡ false = rw (found, is_owner) at other in
          rw (set_group_member_role, change_member, found)
            (if-cases (λ (c : Changed). IsOwned c.0) (has_member user g.members)
              (λ _.
                inserted-IsOwned s id
                  (record g { members = set_first user (with_role role) g.members }) h
                  (set_role-HasOwner g user role (h id g found) not_owner plain))
              (λ _. h))
    ]

pub set_group_member_mute-IsOwned :
    (s : MemoryStore) (id user : String) (until : ℕ)
    → IsOwned s
    → IsOwned (set_group_member_mute s id user until).0
unfolding set_group_member_mute change_member
set_group_member_mute-IsOwned s id user until h = elim (Option-cases (lookup id s.groups)) [
  | inl absent ↦ rw (set_group_member_mute, change_member, absent) h
  | inr (g, found) ↦
      let muted = λ (m : GroupMember). record m { muted_until = until } in
      let o = h id g found in
      rw (set_group_member_mute, change_member, found)
        (if-cases (λ (c : Changed). IsOwned c.0) (has_member user g.members)
          (λ _.
            inserted-IsOwned s id (record g { members = set_first user muted g.members }) h
              (
                Distinct-set_first user muted g.members (λ m. refl) o.0,
                λ u. rw (role_of-set_muted user u until g.members) (o.1 u),
              ))
          (λ _. h))
]

pub update_group-IsOwned :
    (s : MemoryStore) (id name avatar announcement : String) (mute_all : Bool)
    → IsOwned s
    → IsOwned (update_group s id name avatar announcement mute_all).0
unfolding update_group
update_group-IsOwned s id name avatar announcement mute_all h =
    elim (Option-cases (lookup id s.groups)) [
      | inl absent ↦ rw (update_group, absent) h
      | inr (g, found) ↦ rw (update_group, found) (inserted-IsOwned s id _ h (h id g found))
    ]

pub delete_group-IsOwned :
    (s : MemoryStore) (id : String) → IsOwned s → IsOwned (delete_group s id).0
unfolding delete_group
delete_group-IsOwned s id h = elim (Option-cases (lookup id s.groups)) [
  | inl absent ↦ rw (delete_group, absent) h
  | inr (g, found) ↦ rw (delete_group, found) (λ id' g' e. removed-IsOwned s id h id' g' e)
]

-- What the guards of TransferGroupOwnership leave.
transferred-HasOwner :
    (g : Group) (current heir : String)
    → HasOwner g
    → g.owner_id ≡ current
    → (not (any_member (is_user current) g.members)
        || heir_is_owner (last_member (is_heir current heir) g.members))
      ≡ false
    → HasOwner (transferred current heir g)
transferred-HasOwner g current heir o owns fits =
    let here : has_member current g.members ≡ true = unfold has_member in ground (arith, fits) in
    let differ = heir_differs current heir g.members (ground (arith, fits)) in
    let there = heir_present current heir g.members differ (ground (arith, fits)) in
    (
      Distinct-set_last (is_heir current heir) promoted
          (set_last (is_user current) demoted g.members) (λ m. refl)
          (Distinct-set_last (is_user current) demoted g.members (λ m. refl) o.0),
      λ u.
          rw
            (
              role_of-transferred current heir u g differ o.0 here there,
              test_if (u == heir) "owner" (if u == current then "member" else role_of u g.members)
                  "owner",
              test_if (u == current) "member" (role_of u g.members) "owner",
            )
            (ground (arith, o.1 u, owns)),
    )

-- A transfer that succeeds, and one that does not.
pub transfer_group_ownership-IsOwned :
    (s : MemoryStore) (id current heir : String)
    → IsOwned s
    → IsOwned (transfer_group_ownership s id current heir).0
unfolding transfer_group_ownership
transfer_group_ownership-IsOwned s id current heir h = elim (Option-cases (lookup id s.groups)) [
  | inl absent ↦ rw (transfer_group_ownership, absent) h
  | inr (g, found) ↦
      rw (transfer_group_ownership, found)
        (if-cases (λ (c : Changed). IsOwned c.0) (not (g.owner_id == current)) (λ _. h)
          (λ owns.
            if-cases (λ (c : Changed). IsOwned c.0) _ (λ _. h)
              (λ fits. inserted-IsOwned s id (transferred current heir g) h (
                transferred-HasOwner g current heir (h id g found)
                  (ground (arith, eq_iff g.owner_id current, owns)) fits))))
]

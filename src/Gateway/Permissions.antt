-- ===== src/Gateway/Permissions.antt =====
-- Whose role the store's group methods leave alone.
pub mod Members
pub mod Management
use zzzproject.Base.{
  ℕ, String, ◌≡◌, ◌≢◌, refl, sym, ◌∙◌, inl, inr, Bool, true, false, not, ◌&&◌, ◌||◌, Option, none,
  some, List, [], ◌∷◌, ◌++◌, arith, ◌==◌, eq_iff, if◌then◌else◌, if-cases, Bool-cases, Option-cases,
  Map, lookup, insert, remove, lookup-insert, lookup-remove, Result, ok, err,
}
use zzzproject.Store.Types.{Group, GroupMember}
use zzzproject.Store.State.{MemoryStore}
use zzzproject.Store.Groups.{
  has_member, create_group, get_group_members, add_group_member, remove_group_member, update_group,
  change_member, set_group_member_role, set_group_member_mute, transfer_group_ownership,
  transferred, delete_group, Changed, any_member, is_user, heir_is_owner, last_member, is_heir,
  set_first, remove_member,
}
use zzzproject.Store.Groups.Members.{Distinct}
use zzzproject.Gateway.Roles.{role_of, group_member_role, members_or_none}
use zzzproject.Gateway.Ownership.{
  role_of_absent, role_of-append, role_of-remove, role_of-set_role, role_of-set_muted, with_role,
  role_of-transferred,
}
use zzzproject.Gateway.Owners.{IsOwned, AllOwned, heir_differs, heir_present}

-- The role of a user in a group, "" if there is none.
abbrev pub role_at : Map Group → String → String → String
role_at groups id user = elim (lookup id groups) [ none ↦ "" | some g ↦ role_of user g.members ]

pub group_member_role_lem :
    (s : MemoryStore) (id user : String) → group_member_role s id user ≡ role_at s.groups id user
unfolding group_member_role get_group_members role_of
group_member_role_lem s id user = elim (Option-cases (lookup id s.groups)) [
  | inl absent ↦ rw (group_member_role, role_at, get_group_members, absent) refl
  | inr (g, found) ↦ rw (group_member_role, role_at, get_group_members, found) refl
]

-- A user has in a group the role that they had before.
abbrev pub SameRole : String → String → Map Group → Map Group → Type 0
SameRole id target before groups = role_at groups id target ≡ role_at before id target

-- Whether a user with one role may change the role of another user.
abbrev pub may_change : String → String → Bool
may_change actor target =
    actor == "owner" || ((actor == "admin") && (target == "member" || target == ""))

-- Whether a change to a user in a group may be one to the target.
abbrev pub touches : String → String → String → String → Bool
touches id target key user = (key == id) && (user == target)

-- A group is replaced: the same one with other members, or another one.
replaced-SameRole :
    (id target key : String) (groups : Map Group) (g g' : Group)
    → lookup key groups ≡ some g
    → ((key == id) ≡ true → role_of target g'.members ≡ role_of target g.members)
    → SameRole id target groups (insert key g' groups)
replaced-SameRole id target key groups g g' found same = elim (Bool-cases (key == id)) [
  | inl here ↦ ground (arith, lookup-insert key id g' groups, here, found, eq_iff key id, same here)
  | inr other ↦ ground (arith, lookup-insert key id g' groups, other)
]

pub create_group-SameRole :
    (id target : String) (s : MemoryStore) (now : ℕ) (key name avatar owner : String)
    → (key == id) ≡ false
    → SameRole id target s.groups (create_group s now key name avatar owner).0.groups
unfolding create_group
create_group-SameRole id target s now key name avatar owner other =
    ground
      (arith, lookup-insert key id (create_group s now key name avatar owner).1 s.groups, other)

pub add_group_member-SameRole :
    (id target : String) (s : MemoryStore) (now : ℕ) (key user : String)
    → touches id target key user ≡ false
    → SameRole id target s.groups (add_group_member s now key user).0.groups
unfolding add_group_member
add_group_member-SameRole id target s now key user apart =
    elim (Option-cases (lookup key s.groups)) [
      | inl absent ↦ rw (add_group_member, absent) refl
      | inr (g, found) ↦
          let m : GroupMember = record {
            user_id = user;
            role = "member";
            joined_at = now;
            muted_until = 0;
          } in
          rw (add_group_member, found)
            (if-cases (λ (c : MemoryStore × Bool). SameRole id target s.groups c.0.groups)
              (has_member user g.members) (λ _. refl)
              (λ new. replaced-SameRole id target key s.groups g _ found (λ here.
                rw (role_of-append target m g.members)
                  (ground (arith, apart, here, new, role_of_absent target g.members)))))
    ]

role_of-remove_other :
    (id user : String) (ms : List GroupMember)
    → (id == user) ≡ false
    → role_of user (remove_member id ms) ≡ role_of user ms
unfolding role_of remove_member
role_of-remove_other id user [] other = refl
role_of-remove_other id user (m ∷ ms) other = ground (
  arith,
  role_of-remove_other id user ms other,
  other,
  eq_iff m.user_id id,
  eq_iff m.user_id user,
  eq_iff id user,
)

pub remove_group_member-SameRole :
    (id target : String) (s : MemoryStore) (key user : String)
    → touches id target key user ≡ false
    → SameRole id target s.groups (remove_group_member s key user).0.groups
unfolding remove_group_member
remove_group_member-SameRole id target s key user apart =
    elim (Option-cases (lookup key s.groups)) [
      | inl absent ↦ rw (remove_group_member, absent) refl
      | inr (g, found) ↦
          rw (remove_group_member, found)
            (if-cases (λ (c : MemoryStore × Bool). SameRole id target s.groups c.0.groups)
              (has_member user g.members)
              (λ _.
                replaced-SameRole id target key s.groups g _ found (λ here.
                  role_of-remove_other user target g.members (ground (arith, apart, here))))
              (λ _. refl))
    ]

changed_member-SameRole :
    (id target : String) (s : MemoryStore) (key user : String) (f : GroupMember → GroupMember)
    → ((g : Group)
        → (key == id) ≡ true
        → role_of target (set_first user f g.members) ≡ role_of target g.members)
    → SameRole id target s.groups (change_member s key user f).0.groups
unfolding change_member
changed_member-SameRole id target s key user f same = elim (Option-cases (lookup key s.groups)) [
  | inl absent ↦ rw (change_member, absent) refl
  | inr (g, found) ↦
      rw (change_member, found)
        (if-cases (λ (c : Changed). SameRole id target s.groups c.0.groups)
          (has_member user g.members)
          (λ _. replaced-SameRole id target key s.groups g _ found (same g)) (λ _. refl))
]

pub set_group_member_role-SameRole :
    (id target : String) (s : MemoryStore) (key user role : String)
    → touches id target key user ≡ false
    → SameRole id target s.groups (set_group_member_role s key user role).0.groups
unfolding set_group_member_role
set_group_member_role-SameRole id target s key user role apart =
    changed_member-SameRole id target s key user (with_role role)
      (λ g here. rw (role_of-set_role user role target g.members) (ground (arith, apart, here)))

pub set_group_member_mute-SameRole :
    (id target : String) (s : MemoryStore) (key user : String) (until : ℕ)
    → SameRole id target s.groups (set_group_member_mute s key user until).0.groups
unfolding set_group_member_mute
set_group_member_mute-SameRole id target s key user until =
    changed_member-SameRole id target s key user (λ m. record m { muted_until = until })
      (λ g here. role_of-set_muted user target until g.members)

pub update_group-SameRole :
    (id target : String) (s : MemoryStore) (key name avatar announcement : String) (mute_all : Bool)
    → SameRole id target s.groups (update_group s key name avatar announcement mute_all).0.groups
unfolding update_group
update_group-SameRole id target s key name avatar announcement mute_all =
    elim (Option-cases (lookup key s.groups)) [
      | inl absent ↦ rw (update_group, absent) refl
      | inr (g, found) ↦
          rw (update_group, found) (replaced-SameRole id target key s.groups g _ found (λ _. refl))
    ]

pub delete_group-SameRole :
    (id target : String) (s : MemoryStore) (key : String)
    → (key == id) ≡ false
    → SameRole id target s.groups (delete_group s key).0.groups
unfolding delete_group
delete_group-SameRole id target s key other = elim (Option-cases (lookup key s.groups)) [
  | inl absent ↦ rw (delete_group, absent) refl
  | inr (g, found) ↦ rw (delete_group, found) (ground (arith, lookup-remove key id s.groups, other))
]

transferred-SameRole :
    (current heir target : String) (g : Group)
    → Distinct g.members
    → (not (any_member (is_user current) g.members)
        || heir_is_owner (last_member (is_heir current heir) g.members))
      ≡ false
    → (current == target) ≡ false
    → (heir == target) ≡ false
    → role_of target (transferred current heir g).members ≡ role_of target g.members
transferred-SameRole current heir target g d fits apart apart' =
    let here : has_member current g.members ≡ true = unfold has_member in ground (arith, fits) in
    let differ = heir_differs current heir g.members (ground (arith, fits)) in
    let there = heir_present current heir g.members differ (ground (arith, fits)) in
    rw (role_of-transferred current heir target g differ d here there) (
      ground (
        arith,
        apart,
        apart',
        eq_iff target heir,
        eq_iff heir target,
        eq_iff target current,
        eq_iff current target,
      ))

pub transfer_group_ownership-SameRole :
    (id target : String) (s : MemoryStore) (key current heir : String)
    → IsOwned s
    → touches id target key current ≡ false
    → touches id target key heir ≡ false
    → SameRole id target s.groups (transfer_group_ownership s key current heir).0.groups
unfolding transfer_group_ownership
transfer_group_ownership-SameRole id target s key current heir h apart apart' =
    elim (Option-cases (lookup key s.groups)) [
      | inl absent ↦ rw (transfer_group_ownership, absent) refl
      | inr (g, found) ↦
          let misfit =
            not (any_member (is_user current) g.members)
            || heir_is_owner (last_member (is_heir current heir) g.members) in
          rw (transfer_group_ownership, found)
            (if-cases (λ (c : Changed). SameRole id target s.groups c.0.groups)
              (not (g.owner_id == current)) (λ _. refl)
              (λ _.
                if-cases (λ (c : Changed). SameRole id target s.groups c.0.groups) misfit
                  (λ _. refl)
                  (λ fits. replaced-SameRole id target key s.groups g _ found (λ here.
                    transferred-SameRole current heir target g (h key g found).0 fits
                      (ground (arith, apart, here)) (ground (arith, apart', here))))))
    ]

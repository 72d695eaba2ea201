-- ===== src/Store/Groups.antt =====
-- The group methods of server/internal/store/memory.go.
--
-- A group's members are changed in place, through the pointers that its list holds; no two lists share
-- a member, so a change is made where the member stands in the list.
pub mod Members
pub mod Ownership
use zzzproject.Base.{
  ℕ, String, Bool, true, false, not, ◌&&◌, ◌||◌, Option, none, some, List, [], ◌∷◌, ◌++◌, ◌==◌,
  if◌then◌else◌, Map, lookup, insert, remove, Result, ok, err,
}
use zzzproject.Store.Types.{Group, GroupMember, GroupAnnouncement}
use zzzproject.Store.State.{
  MemoryStore, StoreError, group_not_found, group_member_not_found, owner_mismatch,
  invalid_transfer,
}

-- Whether a member in the list passes a test.
unfoldable pub any_member : (GroupMember → Bool) → List GroupMember → Bool
any_member p [] = false
any_member p (m ∷ ms) = p m || any_member p ms

abbrev pub is_user : String → GroupMember → Bool
is_user id m = m.user_id == id

unfoldable pub has_member : String → List GroupMember → Bool
unfolding any_member
has_member id ms = any_member (is_user id) ms

-- CreateGroup.
unfoldable pub create_group :
    MemoryStore → ℕ → String → String → String → String → MemoryStore × Group
create_group s now id name avatar owner =
    let first : GroupMember = record {
      user_id = owner;
      role = "owner";
      joined_at = now;
      muted_until = 0;
    } in
    let group : Group = record {
      id = id;
      name = name;
      avatar = avatar;
      announcement = "";
      owner_id = owner;
      mute_all = false;
      members = first ∷ [];
      created_at = now;
    } in
    (record s { groups = insert id group s.groups }, group)

unfoldable pub get_group : MemoryStore → String → Option Group
get_group s id = lookup id s.groups

abbrev pub values_of : {V : Type 0} → Map V → List V
values_of [] = []
values_of ((k, v) ∷ m) = v ∷ values_of m

-- GetGroups, in some order.
unfoldable get_groups : MemoryStore → List Group
get_groups s = values_of s.groups

unfoldable with_member : String → List Group → List Group
with_member id [] = []
with_member id (g ∷ gs) =
    let rest = with_member id gs in if has_member id g.members then g ∷ rest else rest

-- GetUserGroups.
unfoldable get_user_groups : MemoryStore → String → List Group
get_user_groups s id = with_member id (values_of s.groups)

abbrev pub Changed : Type 0
Changed = MemoryStore × Result StoreError (Unit {0})

-- UpdateGroup.
unfoldable pub update_group : MemoryStore → String → String → String → String → Bool → Changed
update_group s id name avatar announcement mute_all = elim (lookup id s.groups) [
  | none ↦ (s, err group_not_found)
  | some g ↦
      let g' : Group = record g {
        name = name;
        avatar = avatar;
        announcement = announcement;
        mute_all = mute_all;
      } in
      (record s { groups = insert id g' s.groups }, ok tt)
]

-- A change to the first member with an identifier.
unfoldable pub set_first :
    String → (GroupMember → GroupMember) → List GroupMember → List GroupMember
set_first id f [] = []
set_first id f (m ∷ ms) =
    let rest = set_first id f ms in if m.user_id == id then f m ∷ ms else m ∷ rest

unfoldable pub change_member : MemoryStore → String → String → (GroupMember → GroupMember) → Changed
unfolding set_first has_member
change_member s id user f = elim (lookup id s.groups) [
  | none ↦ (s, err group_not_found)
  | some g ↦
      if has_member user g.members
      then (
        record s {
          groups = insert id (record g { members = set_first user f g.members }) s.groups;
        },
        ok tt,
      )
      else (s, err group_member_not_found)
]

-- SetGroupMemberRole.
unfoldable pub set_group_member_role : MemoryStore → String → String → String → Changed
unfolding change_member
set_group_member_role s id user role = change_member s id user (λ m. record m { role = role })

-- SetGroupMemberMute.
unfoldable pub set_group_member_mute : MemoryStore → String → String → ℕ → Changed
unfolding change_member
set_group_member_mute s id user until =
    change_member s id user (λ m. record m { muted_until = until })

-- The scan of TransferGroupOwnership keeps the last member that passes a test.
unfoldable pub last_member : (GroupMember → Bool) → List GroupMember → Option GroupMember
last_member p [] = none
last_member p (m ∷ ms) = elim (last_member p ms) [
  | none ↦ if p m then some m else none
  | some m' ↦ some m'
]

unfoldable pub set_last :
    (GroupMember → Bool) → (GroupMember → GroupMember) → List GroupMember → List GroupMember
unfolding any_member
set_last p f [] = []
set_last p f (m ∷ ms) =
    let rest = set_last p f ms in
    if any_member p ms then m ∷ rest else if p m then f m ∷ ms else m ∷ ms

-- The `switch` tries the current owner first.
abbrev pub is_heir : String → String → GroupMember → Bool
is_heir current heir m = not (m.user_id == current) && (m.user_id == heir)

abbrev pub demoted : GroupMember → GroupMember
demoted m = record m { role = "member" }

abbrev pub promoted : GroupMember → GroupMember
promoted m = record m { role = "owner"; muted_until = 0 }

abbrev pub transferred : String → String → Group → Group
transferred current heir g = record g {
  members = set_last (is_heir current heir) promoted (set_last (is_user current) demoted g.members);
  owner_id = heir;
}

abbrev pub heir_is_owner : Option GroupMember → Bool
heir_is_owner none = true
heir_is_owner (some m) = m.role == "owner"

-- TransferGroupOwnership.
unfoldable pub transfer_group_ownership : MemoryStore → String → String → String → Changed
unfolding last_member any_member set_last
transfer_group_ownership s id current heir = elim (lookup id s.groups) [
  | none ↦ (s, err owner_mismatch)
  | some g ↦
      if not (g.owner_id == current)
      then (s, err owner_mismatch)
      else if not (any_member (is_user current) g.members)
          || heir_is_owner (last_member (is_heir current heir) g.members)
      then (s, err invalid_transfer)
      else (record s { groups = insert id (transferred current heir g) s.groups }, ok tt)
]

remove_reads : List GroupAnnouncement → Map (Map Bool) → Map (Map Bool)
remove_reads [] m = m
remove_reads (a ∷ rest) m = remove_reads rest (remove a.id m)

abbrev pub announcements_of : Option (List GroupAnnouncement) → List GroupAnnouncement
announcements_of none = []
announcements_of (some list) = list

-- DeleteGroup.
unfoldable pub delete_group : MemoryStore → String → Changed
unfolding remove_reads
delete_group s id = elim (lookup id s.groups) [
  | none ↦ (s, err group_not_found)
  | some g ↦ (
    record s {
      groups = remove id s.groups;
      conversations = remove id s.conversations;
      messages = remove id s.messages;
      read_states = remove id s.read_states;
      announcement_reads =
          remove_reads (announcements_of (lookup id s.group_announcements)) s.announcement_reads;
      group_announcements = remove id s.group_announcements;
    },
    ok tt,
  )
]

-- AddGroupMember.
unfoldable pub add_group_member : MemoryStore → ℕ → String → String → MemoryStore × Bool
unfolding has_member
add_group_member s now id user = elim (lookup id s.groups) [
  | none ↦ (s, false)
  | some g ↦
      let m : GroupMember = record {
        user_id = user;
        role = "member";
        joined_at = now;
        muted_until = 0;
      } in
      if has_member user g.members then (s, false) else (
        record s { groups = insert id (record g { members = g.members ++ m ∷ [] }) s.groups },
        true,
      )
]

-- `append(group.Members[:i], group.Members[i+1:]...)` at the first member with the identifier.
unfoldable pub remove_member : String → List GroupMember → List GroupMember
remove_member id [] = []
remove_member id (m ∷ ms) =
    let rest = remove_member id ms in if m.user_id == id then ms else m ∷ rest

-- RemoveGroupMember.
unfoldable pub remove_group_member : MemoryStore → String → String → MemoryStore × Bool
unfolding has_member remove_member
remove_group_member s id user = elim (lookup id s.groups) [
  | none ↦ (s, false)
  | some g ↦
      if has_member user g.members
      then (
        record s {
          groups = insert id (record g { members = remove_member user g.members }) s.groups;
        },
        true,
      )
      else (s, false)
]

-- isGroupMember, which IsGroupMember calls under the mutex.
unfoldable pub is_group_member : MemoryStore → String → String → Bool
unfolding has_member
is_group_member s id user = elim (lookup id s.groups) [
  | none ↦ false
  | some g ↦ has_member user g.members
]

-- GetGroupMembers.
unfoldable pub get_group_members : MemoryStore → String → Option (List GroupMember)
get_group_members s id = elim (lookup id s.groups) [ none ↦ none | some g ↦ some g.members ]

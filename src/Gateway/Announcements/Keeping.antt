-- ===== src/Gateway/Announcements/Keeping.antt =====
-- Announcements leave the owners and the members of groups.
use zzzproject.Base.{
  String, ◌≡◌, refl, sym, ap, ◌∙◌, inl, inr, Bool, true, false, not, some, arith, ◌==◌, if-cases,
  Bool-cases, Option-cases, lookup, insert, lookup-insert, eq_iff,
}
use zzzproject.Store.Types.{Group}
use zzzproject.Store.State.{MemoryStore}
use zzzproject.Store.Groups.{get_group, update_group, is_group_member}
use zzzproject.Gateway.Requests.{Handled}
use zzzproject.Gateway.Roles.{is_group_admin}
use zzzproject.Gateway.Dispatch.{SameMembers}
use zzzproject.Gateway.Announcements.{
  SortAnnouncements, sync_legacy_group_announcement, with_access,
}

-- A group is replaced by one with the same owner and members.
replaced-SameMembers :
    (s : MemoryStore) (key : String) (g g2 : Group)
    → lookup key s.groups ≡ some g
    → g2.owner_id ≡ g.owner_id
    → g2.members ≡ g.members
    → SameMembers s (record s { groups = insert key g2 s.groups })
replaced-SameMembers s key g g2 there owner members id g' found = elim (Bool-cases (key == id)) [
  | inl here ↦
      let same : g2 ≡ g' = ground (arith, lookup-insert key id g2 s.groups, here, found) in
      (
        g,
        (
          ground (arith, there, here, eq_iff key id),
          (
            ap (λ (x : Group). x.owner_id) (sym same) ∙ owner,
            ap (λ (x : Group). x.members) (sym same) ∙ members,
          ),
        ),
      )
  | inr other ↦ (g', (ground (arith, lookup-insert key id g2 s.groups, other, found), (refl, refl)))
]

update_group-SameMembers :
    (s : MemoryStore) (key name avatar announcement : String) (mute_all : Bool)
    → SameMembers s (update_group s key name avatar announcement mute_all).0
unfolding update_group
update_group-SameMembers s key name avatar announcement mute_all =
    elim (Option-cases (lookup key s.groups)) [
      | inl absent ↦ rw (update_group, absent) (λ id g' found. (g', (found, (refl, refl))))
      | inr (g, there) ↦
          let g2 : Group = record g {
            name = name;
            avatar = avatar;
            announcement = announcement;
            mute_all = mute_all;
          } in
          rw (update_group, there) (replaced-SameMembers s key g g2 there refl refl)
    ]

-- The change of a group's announcement text, with which every change of an announcement ends.
sync_legacy_group_announcement-SameMembers :
    (sort : SortAnnouncements) (s : MemoryStore) (group : String)
    → SameMembers s (sync_legacy_group_announcement sort s group)
unfolding sync_legacy_group_announcement get_group
sync_legacy_group_announcement-SameMembers sort s group =
    elim (Option-cases (lookup group s.groups)) [
      | inl absent ↦
          rw (sync_legacy_group_announcement, absent) (λ id g' found. (g', (found, (refl, refl))))
      | inr (g, there) ↦
          rw (sync_legacy_group_announcement, there)
            (update_group-SameMembers s group g.name g.avatar _ g.mute_all)
    ]

-- What needs a manager of the group does nothing for anyone else.
with_access_refused :
    (s : MemoryStore) (user group : String) (body : Handled)
    → is_group_admin s group user ≡ false
    → (with_access s user group true body).0 ≡ s
unfolding with_access
with_access_refused s user group body plain =
    if-cases (λ (h : Handled). h.0 ≡ s) (not (is_group_member s group user)) (λ _. refl)
      (λ _. rw plain refl)

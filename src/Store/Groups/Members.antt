-- ===== src/Store/Groups/Members.antt =====
-- The members of a group: each user is in the list at most once.
use zzzproject.Base.{
  ℕ, String, ◌≡◌, refl, subst, inl, inr, Bool, false, not, ◌&&◌, ◌||◌, some, List, [], ◌∷◌, ◌++◌,
  arith, ◌==◌, eq_iff, if-cases, Bool-cases, Option-cases, lookup, insert, lookup-insert,
}
use zzzproject.Store.Types.{Group, GroupMember}
use zzzproject.Store.State.{MemoryStore}
use zzzproject.Store.Groups.{
  demoted, promoted, transferred, is_heir, any_member, create_group, Changed, change_member,
  transfer_group_ownership, is_user, has_member, set_first, set_last, remove_member,
  add_group_member, remove_group_member, set_group_member_role, set_group_member_mute,
}

abbrev pub Distinct : List GroupMember → Type 0
Distinct [] = Unit {0}
Distinct (m ∷ ms) = (has_member m.user_id ms ≡ false) × Distinct ms

has_member-append :
    (id : String) (m : GroupMember) (ms : List GroupMember)
    → has_member id (ms ++ m ∷ []) ≡ (has_member id ms || (m.user_id == id))
unfolding has_member any_member
has_member-append id m [] = ground arith
has_member-append id m (m' ∷ ms) = ground (arith, has_member-append id m ms)

pub Distinct-append :
    (m : GroupMember) (ms : List GroupMember)
    → has_member m.user_id ms ≡ false
    → Distinct ms
    → Distinct (ms ++ m ∷ [])
unfolding has_member any_member
Distinct-append m [] new d = (refl, tt)
Distinct-append m (m' ∷ ms) new d = (
  ground (
    arith,
    has_member-append m'.user_id m ms,
    d.0,
    eq_iff m.user_id m'.user_id,
    eq_iff m'.user_id m.user_id,
    new,
  ),
  Distinct-append m ms (ground (arith, new)) d.1,
)

-- Without the first of a user's places, a user without a second one is gone.
has_member-remove :
    (id other : String) (ms : List GroupMember)
    → Distinct ms
    → has_member other (remove_member id ms) ≡ (not (id == other) && has_member other ms)
unfolding has_member any_member remove_member
has_member-remove id other [] d = ground arith
has_member-remove id other (m ∷ ms) d = ground (
  arith,
  has_member-remove id other ms d.1,
  d.0,
  eq_iff id other,
  eq_iff m.user_id id,
  eq_iff m.user_id other,
)

pub Distinct-remove :
    (id : String) (ms : List GroupMember) → Distinct ms → Distinct (remove_member id ms)
unfolding remove_member
Distinct-remove id [] d = tt
Distinct-remove id (m ∷ ms) d =
    if-cases Distinct (m.user_id == id) (λ _. d.1)
      (λ _. (ground (arith, has_member-remove id m.user_id ms d.1, d.0), Distinct-remove id ms d.1))

-- A change that keeps the identifier.
has_member-set_first :
    (id other : String) (f : GroupMember → GroupMember) (ms : List GroupMember)
    → ((m : GroupMember) → (f m).user_id ≡ m.user_id)
    → has_member other (set_first id f ms) ≡ has_member other ms
unfolding has_member any_member set_first
has_member-set_first id other f [] same_id = refl
has_member-set_first id other f (m ∷ ms) same_id =
    ground (arith, has_member-set_first id other f ms same_id, same_id m)

pub Distinct-set_first :
    (id : String) (f : GroupMember → GroupMember) (ms : List GroupMember)
    → ((m : GroupMember) → (f m).user_id ≡ m.user_id)
    → Distinct ms
    → Distinct (set_first id f ms)
unfolding set_first
Distinct-set_first id f [] same_id d = tt
Distinct-set_first id f (m ∷ ms) same_id d =
    if-cases Distinct (m.user_id == id) (λ _. (rw (same_id m) d.0, d.1))
      (λ _. (
        ground (arith, has_member-set_first id m.user_id f ms same_id, d.0),
        Distinct-set_first id f ms same_id d.1,
      ))

has_member-set_last :
    (other : String) (p : GroupMember → Bool) (f : GroupMember → GroupMember)
    (ms : List GroupMember)
    → ((m : GroupMember) → (f m).user_id ≡ m.user_id)
    → has_member other (set_last p f ms) ≡ has_member other ms
unfolding has_member any_member set_last
has_member-set_last other p f [] same_id = refl
has_member-set_last other p f (m ∷ ms) same_id =
    ground (arith, has_member-set_last other p f ms same_id, same_id m)

pub Distinct-set_last :
    (p : GroupMember → Bool) (f : GroupMember → GroupMember) (ms : List GroupMember)
    → ((m : GroupMember) → (f m).user_id ≡ m.user_id)
    → Distinct ms
    → Distinct (set_last p f ms)
unfolding set_last
Distinct-set_last p f [] same_id d = tt
Distinct-set_last p f (m ∷ ms) same_id d =
    if-cases Distinct (any_member p ms)
      (λ _. (
        ground (arith, has_member-set_last m.user_id p f ms same_id, d.0),
        Distinct-set_last p f ms same_id d.1,
      ))
      (λ _. if-cases Distinct (p m) (λ _. (rw (same_id m) d.0, d.1)) (λ _. d))

-- No user stands twice among a group's members.
abbrev pub IsDistinct : MemoryStore → Type 0
IsDistinct s = (id : String) (g : Group) → lookup id s.groups ≡ some g → Distinct g.members

inserted-IsDistinct :
    (s : MemoryStore) (key : String) (g : Group)
    → IsDistinct s
    → Distinct g.members
    → IsDistinct (record s { groups = insert key g s.groups })
inserted-IsDistinct s key g h d id g' found = elim (Bool-cases (key == id)) [
  | inl here ↦
      let equal : g ≡ g' = ground (arith, lookup-insert key id g s.groups, here, found) in
      subst (λ (x : Group). Distinct x.members) equal d
  | inr there ↦ h id g' (ground (arith, lookup-insert key id g s.groups, there, found))
]

change_member-IsDistinct :
    (s : MemoryStore) (id user : String) (f : GroupMember → GroupMember)
    → ((m : GroupMember) → (f m).user_id ≡ m.user_id)
    → IsDistinct s
    → IsDistinct (change_member s id user f).0
unfolding change_member
change_member-IsDistinct s id user f same_id h = elim (Option-cases (lookup id s.groups)) [
  | inl absent ↦ rw (change_member, absent) h
  | inr (g, found) ↦
      rw (change_member, found)
        (if-cases (λ (c : Changed). IsDistinct c.0) (has_member user g.members)
          (λ _.
            inserted-IsDistinct s id (record g { members = set_first user f g.members }) h
              (Distinct-set_first user f g.members same_id (h id g found)))
          (λ _. h))
]

add_group_member-IsDistinct :
    (s : MemoryStore) (now : ℕ) (id user : String)
    → IsDistinct s
    → IsDistinct (add_group_member s now id user).0
unfolding add_group_member
add_group_member-IsDistinct s now id user h = elim (Option-cases (lookup id s.groups)) [
  | inl absent ↦ rw (add_group_member, absent) h
  | inr (g, found) ↦
      let m : GroupMember = record {
        user_id = user;
        role = "member";
        joined_at = now;
        muted_until = 0;
      } in
      rw (add_group_member, found)
        (if-cases (λ (c : MemoryStore × Bool). IsDistinct c.0) (has_member user g.members) (λ _. h)
          (λ new.
            inserted-IsDistinct s id (record g { members = g.members ++ m ∷ [] }) h
              (Distinct-append m g.members new (h id g found))))
]

remove_group_member-IsDistinct :
    (s : MemoryStore) (id user : String)
    → IsDistinct s
    → IsDistinct (remove_group_member s id user).0
unfolding remove_group_member
remove_group_member-IsDistinct s id user h = elim (Option-cases (lookup id s.groups)) [
  | inl absent ↦ rw (remove_group_member, absent) h
  | inr (g, found) ↦
      rw (remove_group_member, found)
        (if-cases (λ (c : MemoryStore × Bool). IsDistinct c.0) (has_member user g.members)
          (λ _.
            inserted-IsDistinct s id (record g { members = remove_member user g.members }) h
              (Distinct-remove user g.members (h id g found)))
          (λ _. h))
]

pub transfer_group_ownership-IsDistinct :
    (s : MemoryStore) (id current heir : String)
    → IsDistinct s
    → IsDistinct (transfer_group_ownership s id current heir).0
unfolding transfer_group_ownership
transfer_group_ownership-IsDistinct s id current heir h = elim (Option-cases (lookup id s.groups)) [
  | inl absent ↦ rw (transfer_group_ownership, absent) h
  | inr (g, found) ↦
      let ms = set_last (is_user current) demoted g.members in
      let d : Distinct ms =
        Distinct-set_last (is_user current) demoted g.members (λ m. refl) (h id g found) in
      rw (transfer_group_ownership, found)
        (if-cases (λ (c : Changed). IsDistinct c.0) (not (g.owner_id == current)) (λ _. h)
          (λ _.
            if-cases (λ (c : Changed). IsDistinct c.0) _ (λ _. h)
              (λ _.
                inserted-IsDistinct s id (transferred current heir g) h
                  (Distinct-set_last (is_heir current heir) promoted ms (λ m. refl) d))))
]

-- No user comes to stand twice among a group's members by creating a group or by changing, muting,
-- promoting, adding or removing members or transferring the ownership, whatever the arguments.
pub groups-IsDistinct :
    (s : MemoryStore) (now : ℕ) (id name avatar user heir role : String) (until : ℕ)
    → IsDistinct s
    → IsDistinct (create_group s now id name avatar user).0
      × (IsDistinct (set_group_member_role s id user role).0
          × (IsDistinct (set_group_member_mute s id user until).0
              × (IsDistinct (add_group_member s now id user).0
                  × (IsDistinct (remove_group_member s id user).0
                      × IsDistinct (transfer_group_ownership s id user heir).0))))
unfolding create_group set_group_member_role set_group_member_mute
groups-IsDistinct s now id name avatar user heir role until h = (
  inserted-IsDistinct s id _ h (refl, tt),
  (
    change_member-IsDistinct s id user (λ m. record m { role = role }) (λ m. refl) h,
    (
      change_member-IsDistinct s id user (λ m. record m { muted_until = until }) (λ m. refl) h,
      (
        add_group_member-IsDistinct s now id user h,
        (
          remove_group_member-IsDistinct s id user h,
          transfer_group_ownership-IsDistinct s id user heir h,
        ),
      ),
    ),
  ),
)

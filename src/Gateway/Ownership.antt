-- ===== src/Gateway/Ownership.antt =====
-- The roles of a group's members after each change of its list.
use zzzproject.Base.{
  ℕ, String, ◌≡◌, refl, ◌∙◌, ◌≢◌, inl, inr, Bool, true, false, ◌&&◌, Option, none, some, List, [],
  ◌∷◌, ◌++◌, arith, ◌==◌, eq_iff, if◌then◌else◌, Bool-cases, Option-cases,
}
use zzzproject.Store.Types.{Group, GroupMember}
use zzzproject.Store.Groups.{
  any_member, is_user, has_member, set_first, set_last, last_member, remove_member, demoted,
  promoted, transferred, is_heir,
}
use zzzproject.Store.Groups.Members.{Distinct, Distinct-set_last}
use zzzproject.Store.Groups.Ownership.{member_of, member_of-set_last, heir_by_id}
use zzzproject.Gateway.Roles.{role_of}

-- Exactly the owner has the role "owner".
abbrev pub OwnedBy : String → List GroupMember → Type 0
OwnedBy owner ms = (user : String) → (role_of user ms == "owner") ≡ (user == owner)

-- A test of an `if` is one of its branches.
pub test_if :
    (b : Bool) (x y z : String) → ((if b then x else y) == z) ≡ (if b then x == z else y == z)
test_if true x y z = refl
test_if false x y z = refl

pub role_of_absent :
    (user : String) (ms : List GroupMember) → has_member user ms ≡ false → role_of user ms ≡ ""
unfolding role_of has_member any_member
role_of_absent user [] h = refl
role_of_absent user (m ∷ ms) h = ground (arith, role_of_absent user ms)

-- The owner is a member.
pub owner_is_member :
    (owner : String) (ms : List GroupMember) → OwnedBy owner ms → has_member owner ms ≡ true
owner_is_member owner ms o = elim (Bool-cases (has_member owner ms)) [
  | inl here ↦ here
  | inr gone ↦
      let e : (role_of owner ms == "owner") ≡ true = o owner ∙ (eq_iff owner owner).1 refl in
      let p : ("" == "owner") ≡ true = rw (role_of_absent owner ms gone) at e in cc p
]

pub role_of-append :
    (user : String) (m : GroupMember) (ms : List GroupMember)
    → role_of user (ms ++ m ∷ [])
      ≡ (if has_member user ms then role_of user ms else if m.user_id == user then m.role else "")
unfolding role_of has_member any_member
role_of-append user m [] = ground arith
role_of-append user m (m' ∷ ms) = ground (arith, role_of-append user m ms)

pub role_of-remove :
    (id user : String) (ms : List GroupMember)
    → Distinct ms
    → role_of user (remove_member id ms) ≡ (if id == user then "" else role_of user ms)
unfolding role_of remove_member
role_of-remove id user [] d = ground arith
role_of-remove id user (m ∷ ms) d = ground (
  arith,
  role_of-remove id user ms d.1,
  role_of_absent user ms,
  d.0,
  eq_iff m.user_id id,
  eq_iff m.user_id user,
  eq_iff id user,
)

-- A change to the role of one member.
abbrev pub with_role : String → GroupMember → GroupMember
with_role role m = record m { role = role }

pub role_of-set_role :
    (id role user : String) (ms : List GroupMember)
    → role_of user (set_first id (with_role role) ms)
      ≡ (if (id == user) && has_member user ms then role else role_of user ms)
unfolding role_of set_first has_member any_member
role_of-set_role id role user [] = ground arith
role_of-set_role id role user (m ∷ ms) = ground (
  arith,
  role_of-set_role id role user ms,
  eq_iff m.user_id id,
  eq_iff m.user_id user,
  eq_iff id user,
)

pub role_of-set_muted :
    (id user : String) (until : ℕ) (ms : List GroupMember)
    → role_of user (set_first id (λ m. record m { muted_until = until }) ms) ≡ role_of user ms
unfolding role_of set_first
role_of-set_muted id user until [] = refl
role_of-set_muted id user until (m ∷ ms) = ground (arith, role_of-set_muted id user until ms)

abbrev role_or_empty : Option GroupMember → String
role_or_empty none = ""
role_or_empty (some m) = m.role

pub last_absent :
    (user : String) (ms : List GroupMember) → has_member user ms ≡ false → member_of user ms ≡ none
unfolding last_member has_member any_member
last_absent user [] h = refl
last_absent user (m ∷ ms) h = ground (arith, last_absent user ms)

-- The first member with an identifier is the last one, where no two have the same.
role_of_lem :
    (user : String) (ms : List GroupMember)
    → Distinct ms
    → role_of user ms ≡ role_or_empty (member_of user ms)
unfolding last_member role_of
role_of_lem user [] d = refl
role_of_lem user (m ∷ ms) d =
    ground (arith, role_of_lem user ms d.1, last_absent user ms, d.0, eq_iff m.user_id user)

member_there :
    (user : String) (ms : List GroupMember)
    → has_member user ms ≡ true
    → (m : GroupMember) × (member_of user ms ≡ some m)
unfolding last_member has_member any_member
member_there user [] h = absurd (cc h)
member_there user (m ∷ ms) h = elim (Option-cases (last_member (is_user user) ms)) [
  | inl absent ↦ elim (Bool-cases (m.user_id == user)) [
    | inl here ↦ (m, rw (absent, here) refl)
    | inr other ↦
        let there = member_there user ms (ground (arith, other, h)) in
        absurd (ground (arith, there.1, absent))
  ]
  | inr (m', found) ↦ (m', rw found refl)
]

pub role_of-transferred :
    (current heir user : String) (g : Group)
    → current ≢ heir
    → Distinct g.members
    → has_member current g.members ≡ true
    → has_member heir g.members ≡ true
    → role_of user (transferred current heir g).members ≡ (
        if user == heir
        then "owner"
        else if user == current
        then "member"
        else role_of user g.members)
role_of-transferred current heir user g differ d here heir_here =
    let by_id = heir_by_id current heir differ in
    let ms = set_last (is_user current) demoted g.members in
    let d1 = Distinct-set_last (is_user current) demoted g.members (λ m. refl) d in
    let d2 = Distinct-set_last (is_heir current heir) promoted ms (λ m. refl) d1 in
    ground (
      arith,
      role_of_lem user (transferred current heir g).members d2,
      role_of_lem user g.members d,
      eq_iff heir user,
      eq_iff user heir,
      eq_iff user current,
      eq_iff current user,
      eq_iff current heir,
      member_there heir g.members heir_here,
      member_there current g.members here,
      member_of-set_last (is_heir current heir) promoted heir user ms by_id (λ m. refl),
      member_of-set_last (is_user current) demoted current user g.members (λ m. refl) (λ m. refl),
    )

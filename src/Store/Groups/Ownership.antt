-- ===== src/Store/Groups/Ownership.antt =====
-- TransferGroupOwnership.
use zzzproject.Base.{
  String, ◌≡◌, refl, ◌∙◌, ◌⊎◌, ◌≢◌, inl, inr, Bool, true, false, Option, none, some, List, [], ◌∷◌,
  arith, ◌==◌, eq_iff, is_some, if◌then◌else◌, Bool-cases, lookup, insert, apply_to, ok, err,
}
use zzzproject.Store.Types.{Group, GroupMember}
use zzzproject.Store.State.{MemoryStore, owner_mismatch, invalid_transfer}
use zzzproject.Store.Groups.{
  demoted, promoted, transferred, is_heir, any_member, last_member, set_last, is_user,
  transfer_group_ownership,
}

-- A user's member in a list, the last one if there were several.
abbrev pub member_of : String → List GroupMember → Option GroupMember
member_of user ms = last_member (is_user user) ms

any_member_lem :
    (p : GroupMember → Bool) (user : String) (ms : List GroupMember)
    → ((m : GroupMember) → p m ≡ (m.user_id == user))
    → any_member p ms ≡ is_some (member_of user ms)
unfolding any_member last_member
any_member_lem p user [] by_id = refl
any_member_lem p user (m ∷ ms) by_id = ground (arith, any_member_lem p user ms by_id, by_id m)

pub last_member_lem :
    (p : GroupMember → Bool) (user : String) (ms : List GroupMember)
    → ((m : GroupMember) → p m ≡ (m.user_id == user))
    → last_member p ms ≡ member_of user ms
unfolding last_member
last_member_lem p user [] by_id = refl
last_member_lem p user (m ∷ ms) by_id = ground (arith, last_member_lem p user ms by_id, by_id m)

pub member_of-set_last :
    (p : GroupMember → Bool) (f : GroupMember → GroupMember) (user other : String)
    (ms : List GroupMember)
    → ((m : GroupMember) → p m ≡ (m.user_id == user))
    → ((m : GroupMember) → (f m).user_id ≡ m.user_id)
    → member_of other (set_last p f ms)
      ≡ (if user == other then apply_to f (member_of other ms) else member_of other ms)
unfolding set_last last_member
member_of-set_last p f user other [] by_id same_id = ground arith
member_of-set_last p f user other (m ∷ ms) by_id same_id = ground (
  arith,
  member_of-set_last p f user other ms by_id same_id,
  by_id m,
  same_id m,
  any_member_lem p user ms by_id,
  eq_iff user other,
  eq_iff m.user_id user,
  eq_iff m.user_id other,
)

pub heir_by_id :
    (current heir : String)
    → current ≢ heir
    → (m : GroupMember) → is_heir current heir m ≡ (m.user_id == heir)
heir_by_id current heir d m =
    ground (arith, eq_iff m.user_id current, eq_iff m.user_id heir, eq_iff current heir)

-- The ownership passes from the current owner to another member whose role is not yet "owner": the
-- group names the new owner, who takes the role "owner" and is no longer muted, the old one becomes a
-- plain member, and every other user's member of the group is as before.
pub transfer_group_ownership_effect :
    (s : MemoryStore) (id current heir : String) (g : Group) (n : GroupMember)
    → lookup id s.groups ≡ some g
    → g.owner_id ≡ current
    → is_some (member_of current g.members) ≡ true
    → member_of heir g.members ≡ some n
    → n.role ≢ "owner"
    → current ≢ heir
    → (g' : Group) × ((transfer_group_ownership s id current heir
          ≡ (record s { groups = insert id g' s.groups }, ok tt))
        × ((g'.owner_id ≡ heir)
            × ((user : String)
                → member_of user g'.members ≡ (
                    if user == heir
                    then some (promoted n)
                    else if user == current
                    then apply_to demoted (member_of user g.members)
                    else member_of user g.members))))
unfolding transfer_group_ownership
transfer_group_ownership_effect s id current heir g n found owns present heir_in plain d =
    let by_id = heir_by_id current heir d in
    let ms = set_last (is_user current) demoted g.members in
    let is_current : any_member (is_user current) g.members ≡ true =
      any_member_lem (is_user current) current g.members (λ m. refl) ∙ present in
    let last_heir : last_member (is_heir current heir) g.members ≡ some n =
      last_member_lem (is_heir current heir) heir g.members by_id ∙ heir_in in
    let not_owner : (n.role == "owner") ≡ false = ground (arith, eq_iff n.role "owner") in
    (
      transferred current heir g,
      (
        rw
            (
              transfer_group_ownership,
              found,
              (eq_iff g.owner_id current).1 owns,
              is_current,
              last_heir,
              not_owner,
            )
            refl,
        (
          refl,
          λ user. ground (
            arith,
            heir_in,
            eq_iff heir user,
            eq_iff user heir,
            eq_iff user current,
            eq_iff current user,
            eq_iff current heir,
            member_of-set_last (is_heir current heir) promoted heir user ms by_id (λ m. refl),
            member_of-set_last (is_user current) demoted current user g.members (λ m. refl)
                (λ m. refl),
          ),
        ),
      ),
    )

pub no_heir :
    (current heir : String) (ms : List GroupMember)
    → current ≡ heir
    → last_member (is_heir current heir) ms ≡ none
unfolding last_member
no_heir current heir [] both = refl
no_heir current heir (m ∷ ms) both =
    ground (arith, no_heir current heir ms both, eq_iff m.user_id current, eq_iff m.user_id heir)

-- Nobody but the owner transfers a group: a call with another current owner, and one that names the
-- owner as the heir as well, fails and changes nothing.
pub transfer_group_ownership-refused :
    (s : MemoryStore) (id current heir : String) (g : Group)
    → lookup id s.groups ≡ some g
    → (g.owner_id ≢ current) ⊎ (current ≡ heir)
    → (transfer_group_ownership s id current heir ≡ (s, err owner_mismatch))
      ⊎ (transfer_group_ownership s id current heir ≡ (s, err invalid_transfer))
unfolding transfer_group_ownership
transfer_group_ownership-refused s id current heir g found (inl other) =
    let differs : (g.owner_id == current) ≡ false = ground (arith, eq_iff g.owner_id current) in
    inl (rw (transfer_group_ownership, found, differs) refl)
transfer_group_ownership-refused s id current heir g found (inr both) =
    let nobody = no_heir current heir g.members both in
    let present = any_member (is_user current) g.members in
    elim (Bool-cases (g.owner_id == current)) [
      | inr differs ↦ inl (rw (transfer_group_ownership, found, differs) refl)
      | inl owns ↦ inr (elim (Bool-cases present) [
        | inl here ↦ rw (transfer_group_ownership, found, owns, nobody, here) refl
        | inr gone ↦ rw (transfer_group_ownership, found, owns, nobody, gone) refl
      ])
    ]

-- ===== src/Gateway/Permissions/Members.antt =====
-- The handlers of Gateway.Membership change no role that the user who calls them may not change.
use zzzproject.Base.{
  ℕ, ◌+◌, String, ◌≡◌, refl, sym, ◌∙◌, subst, inl, inr, Bool, true, false, not, ◌||◌, Option, List,
  [], ◌∷◌, ◌++◌, arith, ◌==◌, eq_iff, if-cases, Bool-cases, Map, Result, ok, err, ltb, length,
}
use zzzproject.Protocol.{Fields, get, get_string}
use zzzproject.Store.Types.{Group, GroupMember}
use zzzproject.Store.State.{MemoryStore}
use zzzproject.Store.Groups.{
  has_member, create_group, get_group_members, add_group_member, remove_group_member,
}
use zzzproject.Gateway.Requests.{Host, with_params-keeps}
use zzzproject.Gateway.Roles.{
  members_or_none, group_member_role, is_group_admin, is_admin_role, can_manage_group_member,
  validate_group_invite_targets, max_group_members,
}
use zzzproject.Gateway.Membership.{
  roll_back, add_members, finish_create, create_with, handle_create_group, finish_invite,
  invite_with, not_members, handle_group_invite, finish_join, handle_join_group, finish_removal,
  handle_leave_group, handle_group_kick,
}
use zzzproject.Gateway.Ownership.{role_of_absent}
use zzzproject.Gateway.Safety.{NoneOf, NoneOf-append, NoneOf-nothing}
use zzzproject.Gateway.Safety.Kept.{Kept, to_kept, resync-keeps, synced-keeps, for_group-keeps}
use zzzproject.Gateway.Permissions.{
  may_change, SameRole, touches, create_group-SameRole, add_group_member-SameRole,
  remove_group_member-SameRole,
}

roll_back-SameRole :
    (id target key : String) (users : List String) (s : MemoryStore)
    → NoneOf (touches id target key) users
    → SameRole id target s.groups (roll_back key users s).groups
unfolding roll_back
roll_back-SameRole id target key [] s apart = refl
roll_back-SameRole id target key (u ∷ users) s apart =
    roll_back-SameRole id target key users (remove_group_member s key u).0 apart.1
    ∙ remove_group_member-SameRole id target s key u apart.0

add_members-SameRole :
    (id target : String) (now : ℕ) (key : String) (added users : List String) (s : MemoryStore)
    → NoneOf (touches id target key) added
    → NoneOf (touches id target key) users
    → SameRole id target s.groups (add_members now key added users s).0.groups
unfolding add_members
add_members-SameRole id target now key added [] s apart apart' = refl
add_members-SameRole id target now key added (u ∷ users) s apart apart' =
    let next = add_group_member s now key u in
    if-cases (λ (c : MemoryStore × Bool). SameRole id target s.groups c.0.groups) next.1
      (λ _.
        add_members-SameRole id target now key (added ++ u ∷ []) users next.0
          (NoneOf-append (touches id target key) added u apart apart'.0) apart'.1
        ∙ add_group_member-SameRole id target s now key u apart'.0)
      (λ _.
        roll_back-SameRole id target key added next.0 apart
        ∙ add_group_member-SameRole id target s now key u apart'.0)

finish_create-SameRole :
    (id target : String) (before : Map Group) (host : Host) (user : String) (g : Group)
    (members : List String) (c : MemoryStore × Bool)
    → SameRole id target before c.0.groups
    → Kept (SameRole id target before) (finish_create host user g members c)
unfolding finish_create
finish_create-SameRole id target before host user g members (s, false) h = to_kept _ s _ h
finish_create-SameRole id target before host user g members (s, true) h =
    synced-keeps _ host s g.id _ _ h (λ _. to_kept _ s _ h)

create_with-SameRole :
    (id target : String) (host : Host) (now : ℕ) (s : MemoryStore) (user name avatar : String)
    (r : Result String (List String))
    → (host.group_id now == id) ≡ false
    → Kept (SameRole id target s.groups) (create_with host now s user name avatar r)
unfolding create_with
create_with-SameRole id target host now s user name avatar (err message) other = to_kept _ s _ refl
create_with-SameRole id target host now s user name avatar (ok members) other =
    let key = host.group_id now in
    let created = create_group s now key name avatar user in
    finish_create-SameRole id target s.groups host user created.1 members
      (add_members now key [] members created.0)
      (add_members-SameRole id target now key [] members created.0 tt
          (NoneOf-nothing (touches id target key) members (λ u. ground (arith, other)))
        ∙ create_group-SameRole id target s now key name avatar user other)

pub handle_create_group-SameRole :
    (id target : String) (host : Host) (now : ℕ) (s : MemoryStore) (user : String)
    (params : Option Fields)
    → (host.group_id now == id) ≡ false
    → Kept (SameRole id target s.groups) (handle_create_group host now s user params)
unfolding handle_create_group
handle_create_group-SameRole id target host now s user params other =
    let P = SameRole id target s.groups in
    with_params-keeps (Kept P) s user _ params _ (λ _. to_kept P s _ refl)
      (λ _ fields.
        let name = host.trim_space (get_string "name" fields) in
        let avatar = get_string "avatar" fields in
        if-cases (Kept P) (name == "" || ltb 80 (host.byte_len name)) (λ _. to_kept P s _ refl)
          (λ _.
            if-cases (Kept P) (ltb 2048 (host.byte_len avatar)) (λ _. to_kept P s _ refl)
              (λ _.
                create_with-SameRole id target host now s user name avatar
                  (validate_group_invite_targets host s user (get "members" fields)) other)))

-- Whoever is invited is not a member yet.
not_members-NoneOf :
    (id target key : String) (ms : List GroupMember) (users : List String)
    → ((key == id) ≡ true → has_member target ms ≡ true)
    → NoneOf (touches id target key) (not_members ms users)
unfolding not_members
not_members-NoneOf id target key ms [] here = tt
not_members-NoneOf id target key ms (u ∷ users) here =
    let rest = not_members-NoneOf id target key ms users here in
    if-cases (NoneOf (touches id target key)) (has_member u ms) (λ _. rest)
      (λ new. (ground (arith, here, new, eq_iff u target), rest))

finish_invite-SameRole :
    (id target : String) (before : Map Group) (host : Host) (user key : String)
    (targets : List String) (c : MemoryStore × Bool)
    → SameRole id target before c.0.groups
    → NoneOf (touches id target key) targets
    → Kept (SameRole id target before) (finish_invite host user key targets c)
unfolding finish_invite
finish_invite-SameRole id target before host user key targets (s, false) h apart = to_kept _ s _ h
finish_invite-SameRole id target before host user key targets (s, true) h apart =
    synced-keeps _ host s key _ _ h (λ _. to_kept _ _ _ (
      resync-keeps (SameRole id target before) host (roll_back key targets s) key
        (roll_back-SameRole id target key targets s apart ∙ h)))

invite_with-SameRole :
    (id target : String) (host : Host) (now : ℕ) (s : MemoryStore) (user key : String)
    (r : Result String (List String))
    → ((key == id) ≡ true → has_member target (members_or_none (get_group_members s key)) ≡ true)
    → Kept (SameRole id target s.groups) (invite_with host now s user key r)
unfolding invite_with
invite_with-SameRole id target host now s user key (err message) here = to_kept _ s _ refl
invite_with-SameRole id target host now s user key (ok wanted) here =
    let ms = members_or_none (get_group_members s key) in
    let targets = not_members ms wanted in
    let apart = not_members-NoneOf id target key ms wanted here in
    if-cases (Kept (SameRole id target s.groups))
      (ltb max_group_members (length ms + length targets)) (λ _. to_kept _ s _ refl)
      (λ _.
        finish_invite-SameRole id target s.groups host user key targets
          (add_members now key [] targets s)
          (add_members-SameRole id target now key [] targets s tt apart) apart)

admin_may_add :
    (actor target : String)
    → target ≡ ""
    → is_admin_role actor ≡ true
    → may_change actor target ≡ true
admin_may_add actor target e admin = rw e (ground (arith, admin, eq_iff "" ""))

-- A target whom an administrator may not change is a member.
locked_member :
    (s : MemoryStore) (id user target : String)
    → may_change (group_member_role s id user) (group_member_role s id target) ≡ false
    → is_group_admin s id user ≡ true
    → has_member target (members_or_none (get_group_members s id)) ≡ true
unfolding is_group_admin group_member_role
locked_member s id user target locked admin =
    let ms = members_or_none (get_group_members s id) in
    elim (Bool-cases (has_member target ms)) [
      | inl here ↦ here
      | inr gone ↦
          let none_yet : group_member_role s id target ≡ "" = role_of_absent target ms gone in
          let may =
            admin_may_add (group_member_role s id user) (group_member_role s id target) none_yet
              admin in
          absurd (cc (may, locked))
    ]

pub handle_group_invite-SameRole :
    (id target : String) (host : Host) (now : ℕ) (s : MemoryStore) (user : String)
    (params : Option Fields)
    → may_change (group_member_role s id user) (group_member_role s id target) ≡ false
    → Kept (SameRole id target s.groups) (handle_group_invite host now s user params)
unfolding handle_group_invite
handle_group_invite-SameRole id target host now s user params locked =
    let P = SameRole id target s.groups in
    for_group-keeps P s user _ params _ refl (λ fields g found.
      let key = get_string "group_id" fields in
      if-cases (Kept P) (not (is_group_admin s key user)) (λ _. to_kept P s _ refl)
        (λ admin.
          invite_with-SameRole id target host now s user key
            (validate_group_invite_targets host s user (get "members" fields))
            (λ here.
              let same : id ≡ key = sym ((eq_iff key id).0 here) in
              locked_member s key user target
                (subst
                  (λ k.
                    may_change (group_member_role s k user) (group_member_role s k target) ≡ false)
                  same locked)
                (ground (arith, admin)))))

finish_join-SameRole :
    (id target : String) (before : Map Group) (host : Host) (user key : String)
    (c : MemoryStore × Bool)
    → SameRole id target before c.0.groups
    → (user == target) ≡ false
    → Kept (SameRole id target before) (finish_join host user key c)
unfolding finish_join
finish_join-SameRole id target before host user key (s, false) h apart = to_kept _ s _ h
finish_join-SameRole id target before host user key (s, true) h apart =
    synced-keeps _ host s key _ _ h (λ _.
      to_kept _ _ _ (remove_group_member-SameRole id target s key user (ground (arith, apart)) ∙ h))

pub handle_join_group-SameRole :
    (id target : String) (host : Host) (now : ℕ) (s : MemoryStore) (user : String)
    (params : Option Fields)
    → (user == target) ≡ false
    → Kept (SameRole id target s.groups) (handle_join_group host now s user params)
unfolding handle_join_group
handle_join_group-SameRole id target host now s user params apart =
    for_group-keeps (SameRole id target s.groups) s user _ params _ refl (λ fields g found.
      let key = get_string "group_id" fields in
      finish_join-SameRole id target s.groups host user key (add_group_member s now key user)
        (add_group_member-SameRole id target s now key user (ground (arith, apart))) apart)

finish_removal-SameRole :
    (id target : String) (before : Map Group) (host : Host) (now : ℕ)
    (operator key user failure : String) (c : MemoryStore × Bool)
    → SameRole id target before c.0.groups
    → touches id target key user ≡ false
    → Kept (SameRole id target before) (finish_removal host now operator key user failure c)
unfolding finish_removal
finish_removal-SameRole id target before host now operator key user failure (s, false) h apart =
    to_kept _ s _ h
finish_removal-SameRole id target before host now operator key user failure (s, true) h apart =
    synced-keeps _ host s key _ _ h (λ _. to_kept _ _ _ (
      resync-keeps (SameRole id target before) host (add_group_member s now key user).0 key
        (add_group_member-SameRole id target s now key user apart ∙ h)))

pub handle_leave_group-SameRole :
    (id target : String) (host : Host) (now : ℕ) (s : MemoryStore) (user : String)
    (params : Option Fields)
    → (user == target) ≡ false
    → Kept (SameRole id target s.groups) (handle_leave_group host now s user params)
unfolding handle_leave_group
handle_leave_group-SameRole id target host now s user params apart =
    let P = SameRole id target s.groups in
    for_group-keeps P s user _ params _ refl (λ fields g found.
      let key = get_string "group_id" fields in
      let other : touches id target key user ≡ false = ground (arith, apart) in
      if-cases (Kept P) (g.owner_id == user) (λ _. to_kept P s _ refl)
        (λ _.
          finish_removal-SameRole id target s.groups host now user key user _
            (remove_group_member s key user)
            (remove_group_member-SameRole id target s key user other) other))

pub handle_group_kick-SameRole :
    (id target : String) (host : Host) (now : ℕ) (s : MemoryStore) (user : String)
    (params : Option Fields)
    → may_change (group_member_role s id user) (group_member_role s id target) ≡ false
    → Kept (SameRole id target s.groups) (handle_group_kick host now s user params)
unfolding handle_group_kick can_manage_group_member
handle_group_kick-SameRole id target host now s user params locked =
    let P = SameRole id target s.groups in
    for_group-keeps P s user _ params _ refl (λ fields g found.
      let key = get_string "group_id" fields in
      let who = get_string "user_id" fields in
      if-cases (Kept P)
        (not (can_manage_group_member (group_member_role s key user) (group_member_role s key who))
          || (who == user || who == g.owner_id))
        (λ _. to_kept P s _ refl)
        (λ passed.
          let other : touches id target key who ≡ false =
            ground (arith, locked, passed, eq_iff key id, eq_iff who target) in
          finish_removal-SameRole id target s.groups host now user key who _
            (remove_group_member s key who) (remove_group_member-SameRole id target s key who other)
            other))

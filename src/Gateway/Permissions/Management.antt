-- ===== src/Gateway/Permissions/Management.antt =====
-- The handlers of Gateway.Management change no role that the user who calls them may not change.
use zzzproject.Base.{
  ℕ, String, ◌≡◌, refl, sym, subst, ◌∙◌, inl, inr, Bool, true, false, not, ◌||◌, Option, none, some,
  List, arith, ◌==◌, eq_iff, if◌then◌else◌, if-cases, Bool-cases, Map, lookup, ok, err, is_some,
}
use zzzproject.Protocol.{Fields, get, get_string}
use zzzproject.Store.Types.{Group}
use zzzproject.Store.State.{MemoryStore}
use zzzproject.Store.Groups.{
  get_group, update_group, set_group_member_role, set_group_member_mute, transfer_group_ownership,
  delete_group, Changed,
}
use zzzproject.Gateway.Requests.{Host, with_params-keeps, as_bool}
use zzzproject.Gateway.Roles.{role_of, is_group_admin, can_manage_group_member, group_member_role}
use zzzproject.Gateway.Management.{
  ban_for, ban_duration, handle_group_ban, update_with, handle_update_group, set_admin_to,
  handle_set_group_admin, handle_transfer_group, handle_dismiss_group, mute_all_to,
  handle_group_mute_all, answer_ban, ban_end, answer_update, new_name, new_avatar, new_announcement,
  answer_admin, invalid_change, answer_transfer, answer_dismiss, answer_mute_all,
}
use zzzproject.Gateway.Owners.{IsOwned, transfer_group_ownership-IsOwned}
use zzzproject.Gateway.Safety.Kept.{Kept, to_kept, synced-keeps, for_group-keeps}
use zzzproject.Gateway.Permissions.{
  role_at, may_change, group_member_role_lem, SameRole, set_group_member_role-SameRole,
  set_group_member_mute-SameRole, update_group-SameRole, delete_group-SameRole,
  transfer_group_ownership-SameRole,
}

-- The owner may change every role.
owner_may_change :
    (s : MemoryStore) (key user target : String) (g : Group)
    → IsOwned s
    → lookup key s.groups ≡ some g
    → (g.owner_id == user) ≡ true
    → may_change (group_member_role s key user) (group_member_role s key target) ≡ true
owner_may_change s key user target g h found owns =
    let role : group_member_role s key user ≡ role_of user g.members =
      group_member_role_lem s key user ∙ rw (role_at, found) refl in
    let owner : (role_of user g.members == "owner") ≡ true =
      (h key g found).1 user ∙ (eq_iff user g.owner_id).1 (sym ((eq_iff g.owner_id user).0 owns)) in
    ground (arith, role, owner)

-- So where the owner acts, it is in another group.
owner_elsewhere :
    (id target : String) (s : MemoryStore) (key user : String) (g : Group)
    → IsOwned s
    → lookup key s.groups ≡ some g
    → (g.owner_id == user) ≡ true
    → may_change (group_member_role s id user) (group_member_role s id target) ≡ false
    → (key == id) ≡ false
owner_elsewhere id target s key user g h found owns locked = elim (Bool-cases (key == id)) [
  | inl here ↦
      let may = owner_may_change s key user target g h found owns in
      let same : may_change (group_member_role s id user) (group_member_role s id target) ≡ true =
        subst (λ k. may_change (group_member_role s k user) (group_member_role s k target) ≡ true)
          ((eq_iff key id).0 here) may in
      absurd (cc (same, locked))
  | inr other ↦ other
]

answer_ban-SameRole :
    (id target : String) (before : Map Group) (user key who : String) (duration until : ℕ)
    (c : Changed)
    → SameRole id target before c.0.groups
    → Kept (SameRole id target before) (answer_ban user key who duration until c)
answer_ban-SameRole id target before user key who duration until (s, err e) h = to_kept _ s _ h
answer_ban-SameRole id target before user key who duration until (s, ok u) h = to_kept _ s _ h

ban_for-SameRole :
    (id target : String) (now : ℕ) (s : MemoryStore) (user key who : String) (duration : Option ℕ)
    → Kept (SameRole id target s.groups) (ban_for now s user key who duration)
unfolding ban_for
ban_for-SameRole id target now s user key who none = to_kept _ s _ refl
ban_for-SameRole id target now s user key who (some duration) =
    let P = SameRole id target s.groups in
    if-cases (Kept P) (key == "" || who == "") (λ _. to_kept P s _ refl)
      (λ _.
        if-cases (Kept P) (not (is_some (get_group s key))) (λ _. to_kept P s _ refl)
          (λ _.
            if-cases (Kept P)
              (who == user
                || not (
                    can_manage_group_member (group_member_role s key user)
                      (group_member_role s key who)))
              (λ _. to_kept P s _ refl)
              (λ _.
                answer_ban-SameRole id target s.groups user key who duration _
                  (set_group_member_mute s key who (ban_end now duration))
                  (set_group_member_mute-SameRole id target s key who (ban_end now duration)))))

pub handle_group_ban-SameRole :
    (id target : String) (host : Host) (now : ℕ) (s : MemoryStore) (user : String)
    (params : Option Fields)
    → Kept (SameRole id target s.groups) (handle_group_ban host now s user params)
unfolding handle_group_ban
handle_group_ban-SameRole id target host now s user params =
    let P = SameRole id target s.groups in
    with_params-keeps (Kept P) s user _ params _ (λ _. to_kept P s _ refl)
      (λ _ fields.
        ban_for-SameRole id target now s user (get_string "group_id" fields)
          (get_string "user_id" fields) (ban_duration host (get "duration" fields)))

answer_update-SameRole :
    (id target : String) (before : Map Group) (host : Host)
    (user key name avatar announcement : String) (g : Group) (c : Changed)
    → SameRole id target before c.0.groups
    → Kept (SameRole id target before) (answer_update host user key name avatar announcement g c)
answer_update-SameRole id target before host user key name avatar announcement g (s, err e) h =
    to_kept _ s _ h
answer_update-SameRole id target before host user key name avatar announcement g (s, ok u) h =
    synced-keeps _ host s key _ _ h (λ _.
      to_kept _ _ _
        (update_group-SameRole id target s key g.name g.avatar g.announcement g.mute_all ∙ h))

update_with-SameRole :
    (id target : String) (host : Host) (s : MemoryStore) (user key : String) (g : Group)
    (name avatar announcement : Option (String × Bool))
    → Kept (SameRole id target s.groups) (update_with host s user key g name avatar announcement)
unfolding update_with
update_with-SameRole id target host s user key g none avatar announcement = to_kept _ s _ refl
update_with-SameRole id target host s user key g (some (n, c1)) none announcement =
    to_kept _ s _ refl
update_with-SameRole id target host s user key g (some (n, c1)) (some (a, c2)) none =
    to_kept _ s _ refl
update_with-SameRole id target host s user key g (some (n, c1)) (some (a, c2)) (some (t, c3)) =
    let P = SameRole id target s.groups in
    if-cases (Kept P) (not (c1 || (c2 || c3))) (λ _. to_kept P s _ refl)
      (λ _.
        answer_update-SameRole id target s.groups host user key n a t g
          (update_group s key n a t g.mute_all)
          (update_group-SameRole id target s key n a t g.mute_all))

pub handle_update_group-SameRole :
    (id target : String) (host : Host) (s : MemoryStore) (user : String) (params : Option Fields)
    → Kept (SameRole id target s.groups) (handle_update_group host s user params)
unfolding handle_update_group
handle_update_group-SameRole id target host s user params =
    let P = SameRole id target s.groups in
    for_group-keeps P s user _ params _ refl (λ fields g found.
      let key = get_string "group_id" fields in
      if-cases (Kept P) (not (is_group_admin s key user)) (λ _. to_kept P s _ refl)
        (λ _.
          update_with-SameRole id target host s user key g (new_name host g fields)
            (new_avatar host g fields) (new_announcement host g fields)))

answer_admin-SameRole :
    (id target : String) (before : Map Group) (user key who : String) (enabled : Bool) (c : Changed)
    → SameRole id target before c.0.groups
    → Kept (SameRole id target before) (answer_admin user key who enabled c)
answer_admin-SameRole id target before user key who enabled (s, err e) h = to_kept _ s _ h
answer_admin-SameRole id target before user key who enabled (s, ok u) h = to_kept _ s _ h

set_admin_to-SameRole :
    (id target : String) (s : MemoryStore) (user key who : String) (enabled : Option Bool)
    → (key == id) ≡ false
    → Kept (SameRole id target s.groups) (set_admin_to s user key who enabled)
unfolding set_admin_to
set_admin_to-SameRole id target s user key who none other = to_kept _ s _ refl
set_admin_to-SameRole id target s user key who (some enabled) other =
    let P = SameRole id target s.groups in
    let role : String = if enabled then "admin" else "member" in
    if-cases (Kept P) (invalid_change enabled (group_member_role s key who))
      (λ _. to_kept P s _ refl)
      (λ _.
        answer_admin-SameRole id target s.groups user key who enabled
          (set_group_member_role s key who role)
          (set_group_member_role-SameRole id target s key who role (ground (arith, other))))

pub handle_set_group_admin-SameRole :
    (id target : String) (s : MemoryStore) (user : String) (params : Option Fields)
    → IsOwned s
    → may_change (group_member_role s id user) (group_member_role s id target) ≡ false
    → Kept (SameRole id target s.groups) (handle_set_group_admin s user params)
unfolding handle_set_group_admin
handle_set_group_admin-SameRole id target s user params h locked =
    let P = SameRole id target s.groups in
    for_group-keeps P s user _ params _ refl (λ fields g found.
      let key = get_string "group_id" fields in
      let who = get_string "user_id" fields in
      if-cases (Kept P) (not (g.owner_id == user) || who == user) (λ _. to_kept P s _ refl)
        (λ passed.
          set_admin_to-SameRole id target s user key who (as_bool (get "enabled" fields))
            (owner_elsewhere id target s key user g h found (ground (arith, passed)) locked)))

answer_transfer-SameRole :
    (id target : String) (before : Map Group) (host : Host) (user key who : String) (c : Changed)
    → SameRole id target before c.0.groups
    → (key == id) ≡ false
    → IsOwned c.0
    → Kept (SameRole id target before) (answer_transfer host user key who c)
answer_transfer-SameRole id target before host user key who (s, err e) h other owned =
    to_kept _ s _ h
answer_transfer-SameRole id target before host user key who (s, ok u) h other owned =
    synced-keeps _ host s key _ _ h (λ _. to_kept _ _ _ (
      transfer_group_ownership-SameRole id target s key who user owned (ground (arith, other))
        (ground (arith, other))
      ∙ h))

pub handle_transfer_group-SameRole :
    (id target : String) (host : Host) (s : MemoryStore) (user : String) (params : Option Fields)
    → IsOwned s
    → may_change (group_member_role s id user) (group_member_role s id target) ≡ false
    → Kept (SameRole id target s.groups) (handle_transfer_group host s user params)
unfolding handle_transfer_group
handle_transfer_group-SameRole id target host s user params h locked =
    let P = SameRole id target s.groups in
    for_group-keeps P s user _ params _ refl (λ fields g found.
      let key = get_string "group_id" fields in
      let who = get_string "user_id" fields in
      if-cases (Kept P)
        (not (g.owner_id == user) || (who == user || (group_member_role s key who == "")))
        (λ _. to_kept P s _ refl)
        (λ passed.
          let other =
            owner_elsewhere id target s key user g h found (ground (arith, passed)) locked in
          answer_transfer-SameRole id target s.groups host user key who
            (transfer_group_ownership s key user who)
            (transfer_group_ownership-SameRole id target s key user who h (ground (arith, other))
              (ground (arith, other)))
            other (transfer_group_ownership-IsOwned s key user who h)))

answer_dismiss-SameRole :
    (id target : String) (before : Map Group) (user key : String) (users : List String)
    (c : Changed)
    → SameRole id target before c.0.groups
    → Kept (SameRole id target before) (answer_dismiss user key users c)
answer_dismiss-SameRole id target before user key users (s, err e) h = to_kept _ s _ h
answer_dismiss-SameRole id target before user key users (s, ok u) h = to_kept _ s _ h

pub handle_dismiss_group-SameRole :
    (id target : String) (s : MemoryStore) (user : String) (params : Option Fields)
    → IsOwned s
    → may_change (group_member_role s id user) (group_member_role s id target) ≡ false
    → Kept (SameRole id target s.groups) (handle_dismiss_group s user params)
unfolding handle_dismiss_group
handle_dismiss_group-SameRole id target s user params h locked =
    let P = SameRole id target s.groups in
    for_group-keeps P s user _ params _ refl (λ fields g found.
      let key = get_string "group_id" fields in
      if-cases (Kept P) (not (g.owner_id == user)) (λ _. to_kept P s _ refl)
        (λ passed. answer_dismiss-SameRole id target s.groups user key _ (delete_group s key) (
          delete_group-SameRole id target s key
            (owner_elsewhere id target s key user g h found (ground (arith, passed)) locked))))

answer_mute_all-SameRole :
    (id target : String) (before : Map Group) (user key : String) (enabled : Bool) (c : Changed)
    → SameRole id target before c.0.groups
    → Kept (SameRole id target before) (answer_mute_all user key enabled c)
answer_mute_all-SameRole id target before user key enabled (s, err e) h = to_kept _ s _ h
answer_mute_all-SameRole id target before user key enabled (s, ok u) h = to_kept _ s _ h

mute_all_to-SameRole :
    (id target : String) (s : MemoryStore) (user key : String) (g : Group) (enabled : Option Bool)
    → Kept (SameRole id target s.groups) (mute_all_to s user key g enabled)
unfolding mute_all_to
mute_all_to-SameRole id target s user key g none = to_kept _ s _ refl
mute_all_to-SameRole id target s user key g (some enabled) =
    let P = SameRole id target s.groups in
    if-cases (Kept P) (not (is_group_admin s key user)) (λ _. to_kept P s _ refl)
      (λ _.
        answer_mute_all-SameRole id target s.groups user key enabled
          (update_group s key g.name g.avatar g.announcement enabled)
          (update_group-SameRole id target s key g.name g.avatar g.announcement enabled))

pub handle_group_mute_all-SameRole :
    (id target : String) (s : MemoryStore) (user : String) (params : Option Fields)
    → Kept (SameRole id target s.groups) (handle_group_mute_all s user params)
unfolding handle_group_mute_all
handle_group_mute_all-SameRole id target s user params =
    for_group-keeps (SameRole id target s.groups) s user _ params _ refl (λ fields g found.
      mute_all_to-SameRole id target s user (get_string "group_id" fields) g
        (as_bool (get "enabled" fields)))

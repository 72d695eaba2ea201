-- ===== src/Gateway/Safety/Kept.antt =====
-- What a handler keeps, and the steps that the handlers share.
use zzzproject.Base.{
  String, ◌≡◌, ◌⊎◌, refl, sym, subst, Map, inl, inr, false, Option, none, some, List, ◌==◌,
  Option-cases, lookup,
}
use zzzproject.Protocol.{Fields, get_string}
use zzzproject.Store.Types.{Group}
use zzzproject.Store.State.{MemoryStore}
use zzzproject.Store.Conversations.{save_conversation}
use zzzproject.Store.Groups.{get_group}
use zzzproject.Gateway.Requests.{Host, Output, Handled, reject, with_params, with_params-keeps}
use zzzproject.Gateway.Roles.{sync_group_conversation_participants, synchronized, resync}
use zzzproject.Gateway.Owners.{AllOwned, is_owner}

-- What holds of the groups after a handler.
pub Kept : (Map Group → Type 0) → Handled → Type 0
Kept P h = P h.0.groups

pub to_kept :
    (P : Map Group → Type 0) (s : MemoryStore) (sent : List Output) → P s.groups → Kept P (s, sent)
unfolding Kept
to_kept P s sent h = h

pub from_kept : (P : Map Group → Type 0) (h : Handled) → Kept P h → P h.0.groups
unfolding Kept
from_kept P h kept = kept

-- The conversation of a group is synchronised, unless the group is missing.
pub sync-cases :
    (host : Host) (s : MemoryStore) (id : String)
    → (lookup id s.groups ≡ none)
      ⊎ ((next : MemoryStore × List String) × ((sync_group_conversation_participants host s id
              ≡ some next)
            × (next.0.groups ≡ s.groups)))
unfolding sync_group_conversation_participants synchronized get_group save_conversation
sync-cases host s id = elim (Option-cases (lookup id s.groups)) [
  | inl absent ↦ inl absent
  | inr (g, found) ↦
      inr (synchronized host s id g, (rw (sync_group_conversation_participants, found) refl, refl))
]

sync_missing :
    (host : Host) (s : MemoryStore) (id : String)
    → lookup id s.groups ≡ none
    → sync_group_conversation_participants host s id ≡ none
unfolding sync_group_conversation_participants get_group
sync_missing host s id absent = rw (sync_group_conversation_participants, absent) refl

pub resync-keeps :
    (P : Map Group → Type 0) (host : Host) (s : MemoryStore) (id : String)
    → P s.groups
    → P (resync host s id).groups
unfolding resync
resync-keeps P host s id h = elim (sync-cases host s id) [
  | inl absent ↦ rw (resync, sync_missing host s id absent) h
  | inr (next, (e, same)) ↦ rw (resync, e) (subst P (sym same) h)
]

-- A change, and then the synchronisation: both outcomes keep what the changes keep.
pub synced-keeps :
    (P : Map Group → Type 0) (host : Host) (s : MemoryStore) (id : String) (failed : Handled)
    (sent : List String → List Output)
    → P s.groups
    → (lookup id s.groups ≡ none → Kept P failed)
    → Kept P (elim (sync_group_conversation_participants host s id) [
      | none ↦ failed
      | some (s', participants) ↦ (s', sent participants)
    ])
synced-keeps P host s id failed sent h kept = elim (sync-cases host s id) [
  | inl absent ↦ rw (sync_missing host s id absent) (kept absent)
  | inr ((s', participants), (e, groups)) ↦
      rw e (to_kept P s' (sent participants) (subst P (sym groups) h))
]

-- What most handlers have in common: the user, the parameters, and the group that they name.
pub for_group-keeps :
    (P : Map Group → Type 0) (s : MemoryStore) (user invalid : String) (params : Option Fields)
    (body : Fields → Group → Handled)
    → P s.groups
    → ((fields : Fields) (g : Group)
        → lookup (get_string "group_id" fields) s.groups ≡ some g
        → Kept P (body fields g))
    → Kept P (
        with_params s user invalid params (λ fields.
          elim (get_group s (get_string "group_id" fields)) [
            | none ↦ reject s "group not found"
            | some g ↦ body fields g
          ]))
unfolding get_group
for_group-keeps P s user invalid params body h kept =
    with_params-keeps (Kept P) s user invalid params _ (λ _. to_kept P s _ h)
      (λ _ fields. elim (Option-cases (lookup (get_string "group_id" fields) s.groups)) [
        | inl absent ↦ rw absent (to_kept P s _ h)
        | inr (g, found) ↦ rw found (kept fields g found)
      ])

-- After a handler, every group has its owner.
abbrev pub Owned : Handled → Type 0
Owned h = Kept AllOwned h

-- A user whom the test of the handler tells from the owner.
pub other-is_owner :
    (s : MemoryStore) (id user : String) (g : Group)
    → lookup id s.groups ≡ some g
    → (user == g.owner_id) ≡ false
    → is_owner s id user ≡ false
other-is_owner s id user g found other = rw (is_owner, found) other

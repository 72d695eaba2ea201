-- ===== src/Store/Reactions.antt =====
-- ReactToMessage and GetMessageReactionIDs of server/internal/store/memory.go.
pub mod Effect
use zzzproject.Base.{
  ℕ, String, Bool, true, false, Option, none, some, List, [], ◌∷◌, length, eqb, is_some,
  if◌then◌else◌, Map, lookup, insert, remove, Result, ok, err,
}
use zzzproject.Store.Types.{Message}
use zzzproject.Store.State.{Runtime, MessageRef, MemoryStore, StoreError, already_recalled}
use zzzproject.Store.Messages.{emojis_of, users_of, find_message, snapshot}

-- The users who gave one emoji, after one of them gives it or takes it back.
abbrev pub changed_users : Bool → String → Map (Unit {0}) → Map (Unit {0})
changed_users removal user users = if removal then remove user users else insert user tt users

-- An emoji that nobody gives any more is deleted.
abbrev pub changed_emojis : Bool → String → String → Map (Map (Unit {0})) → Map (Map (Unit {0}))
changed_emojis removal user emoji by_emoji =
    let users = changed_users removal user (users_of (lookup emoji by_emoji)) in
    let by_emoji' = insert emoji users by_emoji in
    if eqb (length users) 0 then remove emoji by_emoji' else by_emoji'

abbrev pub with_reaction : MemoryStore → String → String → String → Bool → MemoryStore
with_reaction s id user emoji removal =
    let by_emoji = emojis_of (lookup id s.message_reactions) in
    record s {
      message_reactions =
          insert id (changed_emojis removal user emoji by_emoji) s.message_reactions;
    }

unfoldable pub react_to_message :
    Runtime
    → MemoryStore
    → String
    → String
    → String
    → Bool
    → MemoryStore × Result StoreError (Option Message)
react_to_message rt s id user emoji removal = elim (find_message s id) [
  | none ↦ (s, ok none)
  | some r ↦ if (s.heap r).recalled then (s, err already_recalled) else (
    with_reaction s id user emoji removal,
    ok (some (snapshot rt (with_reaction s id user emoji removal) r)),
  )
]

emojis_with : String → Map (Map (Unit {0})) → List String
emojis_with user [] = []
emojis_with user ((emoji, users) ∷ m) =
    let rest = emojis_with user m in if is_some (lookup user users) then emoji ∷ rest else rest

unfoldable pub get_message_reaction_ids : Runtime → MemoryStore → String → String → List String
unfolding emojis_with
get_message_reaction_ids rt s id user =
    rt.sort_strings (emojis_with user (emojis_of (lookup id s.message_reactions)))

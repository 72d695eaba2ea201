-- ===== src/Store/Reactions/Effect.antt =====
-- What a reaction changes.
use zzzproject.Base.{
  String, ◌≡◌, refl, Bool, true, false, not, ◌&&◌, none, some, [], ◌∷◌, arith, ◌==◌, eq_iff, eqb,
  length, is_some, if◌then◌else◌, Map, lookup, insert, lookup-insert, lookup-remove,
}
use zzzproject.Store.State.{Runtime, MessageRef, MemoryStore}
use zzzproject.Store.Messages.{emojis_of, users_of, find_message}
use zzzproject.Store.Reactions.{changed_users, changed_emojis, react_to_message}

-- Whether a user is among those who gave a message an emoji.
abbrev pub gave_in : Map (Map (Unit {0})) → String → String → Bool
gave_in by_emoji emoji user = is_some (lookup user (users_of (lookup emoji by_emoji)))

abbrev pub gave : MemoryStore → String → String → String → Bool
gave s id emoji user = gave_in (emojis_of (lookup id s.message_reactions)) emoji user

nobody :
    (users : Map (Unit {0})) (user : String)
    → eqb (length users) 0 ≡ true
    → lookup user users ≡ none
unfolding lookup
nobody [] user e = refl
nobody ((k, u) ∷ users) user e = ground (arith, e)

no_user : (user : String) → lookup {V = Unit {0}} user [] ≡ none
unfolding lookup
no_user user = refl

gave_in-changed_users :
    (removal : Bool) (user : String) (users : Map (Unit {0})) (other : String)
    → is_some (lookup other (changed_users removal user users))
      ≡ (if user == other then not removal else is_some (lookup other users))
gave_in-changed_users true user users other = ground (arith, lookup-remove user other users)
gave_in-changed_users false user users other = ground (arith, lookup-insert user other tt users)

gave_in-changed :
    (removal : Bool) (user emoji : String) (m : Map (Map (Unit {0}))) (emoji' user' : String)
    → gave_in (changed_emojis removal user emoji m) emoji' user'
      ≡ (if (emoji == emoji') && (user == user') then not removal else gave_in m emoji' user')
gave_in-changed removal user emoji m emoji' user' =
    let users = users_of (lookup emoji m) in
    let users' = changed_users removal user users in
    ground (
      arith,
      gave_in-changed_users removal user users user',
      nobody users' user',
      no_user user',
      lookup-insert emoji emoji' users' m,
      lookup-remove emoji emoji' (insert emoji users' m),
      eq_iff emoji emoji',
    )

-- On a message that is there and not recalled, a reaction changes whether its user gave its emoji to
-- that message, nothing else about who gave which emoji to which message, and nothing in the store
-- but the table of the reactions.
pub react_to_message_effect :
    (rt : Runtime) (s : MemoryStore) (id user emoji : String) (removal : Bool) (r : MessageRef)
    (id' emoji' user' : String)
    → find_message s id ≡ some r
    → (s.heap r).recalled ≡ false
    → let s' = (react_to_message rt s id user emoji removal).0 in
      (gave s' id' emoji' user' ≡ (
        if (id == id') && ((emoji == emoji') && (user == user'))
        then not removal
        else gave s id' emoji' user'))
      × (s' ≡ record s { message_reactions = s'.message_reactions })
unfolding react_to_message
react_to_message_effect rt s id user emoji removal r id' emoji' user' found active =
    let by_emoji = emojis_of (lookup id s.message_reactions) in
    rw (react_to_message, found, active)
      (
        ground (
          arith,
          gave_in-changed removal user emoji by_emoji emoji' user',
          eq_iff id id',
          lookup-insert id id' (changed_emojis removal user emoji by_emoji) s.message_reactions,
        ),
        refl,
      )

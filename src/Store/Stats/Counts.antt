-- ===== src/Store/Stats/Counts.antt =====
-- The number of messages in the statistics.
use zzzproject.Base.{
  ℕ, suc, ◌+◌, String, ◌≡◌, refl, Bool, Option, none, some, List, [], ◌∷◌, ◌++◌, map, length,
  length-append, length-map, ◌∙◌, arith, Map, lookup, insert,
}
use zzzproject.Protocol.{MessageSegment}
use zzzproject.Store.Types.{Message}
use zzzproject.Store.State.{Runtime, MessageRef, MemoryStore}
use zzzproject.Store.Messages.{refs_of, snapshot, append_message}
use zzzproject.Store.Stats.{total, get_server_stats, snapshots, get_recent_messages}

abbrev counted : {V : Type 0} → (V → ℕ) → Option V → ℕ
counted f none = 0
counted f (some v) = f v

total-insert :
    {V : Type 0} (f : V → ℕ) (key : String) (v : V) (m : Map V)
    → total f (insert key v m) + counted f (lookup key m) ≡ total f m + f v
unfolding total insert lookup
total-insert f key v [] = ground arith
total-insert f key v ((k, w) ∷ m) = ground (arith, total-insert f key v m)

-- A message that is stored counts once, in whatever conversation.
append_message-counted :
    (rt : Runtime) (s : MemoryStore) (now later : ℕ) (conversation sender nickname : String)
    (segments : List MessageSegment)
    → (get_server_stats
        (append_message rt s now conversation sender nickname segments)
        later).messages
      ≡ suc (get_server_stats s later).messages
unfolding get_server_stats append_message
append_message-counted rt s now later conversation sender nickname segments =
    let r = suc s.msg_counter in
    let refs = refs_of (lookup conversation s.messages) in
    ground (
      arith,
      total-insert (λ (l : List MessageRef). length l) conversation (refs ++ r ∷ []) s.messages,
      length-append refs (r ∷ []),
    )

listed :
    (rt : Runtime) (s : MemoryStore) (m : Map (List MessageRef))
    → length (snapshots rt s m) ≡ total (λ (l : List MessageRef). length l) m
unfolding snapshots total
listed rt s [] = refl
listed rt s ((conversation, refs) ∷ m) = ground (
  arith,
  listed rt s m,
  length-append (map (snapshot rt s) refs) (snapshots rt s m),
  length-map (snapshot rt s) refs,
)

-- The number of messages in GetServerStats is the number of those that GetRecentMessages lists without
-- a limit, if sorting keeps the length of a list.
recent-counted :
    (rt : Runtime) (sort_slice : (Message → Message → Bool) → List Message → List Message)
    (s : MemoryStore) (now : ℕ)
    → ((less : Message → Message → Bool) (l : List Message) → length (sort_slice less l) ≡ length l)
    → length (get_recent_messages rt sort_slice s 0) ≡ (get_server_stats s now).messages
unfolding get_recent_messages get_server_stats
recent-counted rt sort_slice s now keeps = keeps _ _ ∙ listed rt s s.messages

-- ===== src/Store/Stats.antt =====
-- GetServerStats of server/internal/store/stats.go, and GetRecentMessages of memory.go, which read the
-- whole store.
pub mod Counts
use zzzproject.Base.{
  ℕ, suc, ◌+◌, String, ◌≡◌, refl, inl, inr, Bool, true, false, Option, none, some, List, [], ◌∷◌,
  ◌++◌, map, length, ltb, arith, ◌==◌, eq_iff, if◌then◌else◌, Bool-cases, Option-cases, Map, lookup,
  insert,
}
use zzzproject.Protocol.{MessageSegment}
use zzzproject.Store.Types.{Message, User, Session, MediaFile, PushSubscription}
use zzzproject.Store.State.{Runtime, MessageRef, MemoryStore}
use zzzproject.Store.Messages.{refs_of, snapshot, append_message}
use zzzproject.Store.Media.{newer, first_of}

pub record ServerStats : Type 0 where
  pub users : ℕ
  pub online_users : ℕ
  pub groups : ℕ
  pub conversations : ℕ
  pub messages : ℕ
  pub active_sessions : ℕ
  pub media_files : ℕ
  pub media_bytes : ℕ
  pub push_subscriptions : ℕ

-- The sum of a number over a map's entries.
unfoldable pub total : {V : Type 0} → (V → ℕ) → Map V → ℕ
total f [] = 0
total f ((key, v) ∷ m) = f v + total f m

abbrev one_if : Bool → ℕ
one_if b = if b then 1 else 0

-- The sum of the sizes stays below the bound of int64.
unfoldable pub get_server_stats : MemoryStore → ℕ → ServerStats
unfolding total
get_server_stats s now = record {
  users = length s.users;
  online_users = total (λ (u : User). one_if u.online) s.users;
  groups = length s.groups;
  conversations = length s.conversations;
  messages = total (λ (refs : List MessageRef). length refs) s.messages;
  active_sessions = total (λ (e : Session). one_if (ltb now e.expires_at)) s.sessions;
  media_files = length s.media_files;
  media_bytes = total (λ (f : MediaFile). f.size) s.media_files;
  push_subscriptions = total (λ (m : Map PushSubscription). length m) s.push_subscriptions;
}

unfoldable pub snapshots : Runtime → MemoryStore → Map (List MessageRef) → List Message
snapshots rt s [] = []
snapshots rt s ((conversation, refs) ∷ m) = map (snapshot rt s) refs ++ snapshots rt s m

-- sort.Slice is an argument.
unfoldable pub get_recent_messages :
    Runtime
    → ((Message → Message → Bool) → List Message → List Message)
    → MemoryStore
    → ℕ
    → List Message
unfolding snapshots
get_recent_messages rt sort_slice s limit = first_of limit (
    sort_slice (λ (a b : Message). newer a.timestamp a.id b.timestamp b.id)
      (snapshots rt s s.messages))

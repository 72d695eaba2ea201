-- ===== src/Store/Messages/Later.antt =====
-- The methods of server/internal/store/memory.go that delete no message, as the calls that may stand
-- between two others, and the entries of client identifiers.
use zzzproject.Base.{
  ℕ, ◌≤◌, String, ◌≡◌, refl, inl, inr, Bool, false, some, List, arith, ◌==◌, eq_iff, Bool-cases,
  Option-cases, lookup, insert, lookup-insert,
}
use zzzproject.Protocol.{MessageSegment}
use zzzproject.Store.Types.{Message}
use zzzproject.Store.State.{Runtime, MessageRef, MessageIdempotency, MemoryStore, pair_key}
use zzzproject.Store.Messages.{
  write, find_message, append_message, store_message_idempotent, store_checked, store_new,
  update_message_segments, recall_message,
}
use zzzproject.Store.Reactions.{react_to_message}
use zzzproject.Store.ReadState.{mark_conversation_read}

-- `t` comes after `s` by calls that delete no message: the other message methods, reactions and read
-- marks, and methods that touch neither the messages, nor their counter, nor the entries of client
-- identifiers.
pub data Later (rt : Runtime) (s : MemoryStore) : MemoryStore → Type 0 where
  same : Later rt s s
  stored :
      (t : MemoryStore) (now : ℕ) (conv sender nick client : String)
      (segments : List MessageSegment)
      → Later rt s t
      → Later rt s (store_message_idempotent rt t now conv sender nick client segments).0
  edited :
      (t : MemoryStore) (id : String) (segments : List MessageSegment)
      → Later rt s t
      → Later rt s (update_message_segments rt t id segments).0
  recalled : (t : MemoryStore) (id : String) → Later rt s t → Later rt s (recall_message t id).0
  reacted :
      (t : MemoryStore) (id user emoji : String) (removal : Bool)
      → Later rt s t
      → Later rt s (react_to_message rt t id user emoji removal).0
  marked :
      (t : MemoryStore) (now : ℕ) (conv user : String)
      → Later rt s t
      → Later rt s (mark_conversation_read t now conv user).0
  elsewhere :
      (t t' : MemoryStore)
      → t'.message_idempotency ≡ t.message_idempotency
      → t'.heap ≡ t.heap
      → t'.msg_counter ≡ t.msg_counter
      → Later rt s t
      → Later rt s t'

-- Under the key there is this entry, of a message that has this identifier.
pub record Holds (key : String) (entry : MessageIdempotency) (id : String) (s : MemoryStore)
    : Type 0 where
  pub entered : lookup key s.message_idempotency ≡ some entry
  pub named : (s.heap entry.message).id ≡ id
  pub below : entry.message ≤ s.msg_counter

module _ (key : String) (entry : MessageIdempotency) (id : String) where
  appended-Holds :
      (rt : Runtime) (s : MemoryStore) (now : ℕ) (conv sender nick : String)
      (segments : List MessageSegment)
      → Holds key entry id s
      → Holds key entry id (append_message rt s now conv sender nick segments)
  unfolding append_message
  appended-Holds rt s now conv sender nick segments h = record {
    entered = h.entered;
    named = ground (arith, h.named, h.below);
    below = omega (arith, h.below);
  }

  -- An entry under another key.
  inserted-Holds :
      (s : MemoryStore) (key' : String) (entry' : MessageIdempotency)
      → (key' == key) ≡ false
      → Holds key entry id s
      → Holds key entry id
          (record s { message_idempotency = insert key' entry' s.message_idempotency })
  inserted-Holds s key' entry' other h = record {
    entered = rw (lookup-insert key' key entry' s.message_idempotency, other) h.entered;
    named = h.named;
    below = h.below;
  }

  written-Holds :
      (s : MemoryStore) (r : MessageRef) (m : Message)
      → m.id ≡ (s.heap r).id
      → Holds key entry id s
      → Holds key entry id (record s { heap = write s.heap r m })
  written-Holds s r m e h = record {
    entered = h.entered;
    named = ground (arith, h.named);
    below = h.below;
  }

  stored-Holds :
      (rt : Runtime) (s : MemoryStore) (now : ℕ) (conv sender nick client : String)
      (segments : List MessageSegment)
      → Holds key entry id s
      → Holds key entry id (store_message_idempotent rt s now conv sender nick client segments).0
  unfolding store_message_idempotent append_message
  stored-Holds rt s now conv sender nick client segments h =
      let made = append_message rt s now conv sender nick segments in
      let kept = appended-Holds rt s now conv sender nick segments h in
      let key' = pair_key sender client in
      elim (Option-cases (rt.message_fingerprint conv segments)) [
        | inl failed ↦ rw (failed, store_message_idempotent) h
        | inr (print, encoded) ↦ elim (Bool-cases (client == "")) [
          | inl unnamed ↦
              rw (encoded, store_message_idempotent, unnamed)
                (rw (store_checked, store_new, unnamed) kept)
          | inr given ↦ elim (Option-cases (lookup key' s.message_idempotency)) [
            | inl absent ↦
                rw (encoded, store_message_idempotent, given, absent)
                  (rw (store_checked, store_new, given)
                    (inserted-Holds made key' _ (ground (arith, eq_iff key' key, h.entered, absent))
                      kept))
            | inr (old, present) ↦
                rw (encoded, store_message_idempotent, given, present)
                  (unfold store_checked in ground (arith, h))
          ]
        ]
      ]

  edited-Holds :
      (rt : Runtime) (s : MemoryStore) (id' : String) (segments : List MessageSegment)
      → Holds key entry id s
      → Holds key entry id (update_message_segments rt s id' segments).0
  unfolding update_message_segments
  edited-Holds rt s id' segments h = elim (Option-cases (find_message s id')) [
    | inl missing ↦ rw (missing, update_message_segments) h
    | inr (r, found) ↦ rw (found, update_message_segments) (written-Holds s r _ refl h)
  ]

  recalled-Holds :
      (s : MemoryStore) (id' : String)
      → Holds key entry id s
      → Holds key entry id (recall_message s id').0
  unfolding recall_message
  recalled-Holds s id' h = elim (Option-cases (find_message s id')) [
    | inl missing ↦ rw (missing, recall_message) h
    | inr (r, found) ↦ rw (found, recall_message) (written-Holds s r _ refl h)
  ]

  unchanged-Holds :
      (s s' : MemoryStore)
      → s'.message_idempotency ≡ s.message_idempotency
      → s'.heap ≡ s.heap
      → s'.msg_counter ≡ s.msg_counter
      → Holds key entry id s
      → Holds key entry id s'
  unchanged-Holds s s' entries heap counter h = record {
    entered = rw entries h.entered;
    named = rw heap h.named;
    below = omega (arith, h.below, counter);
  }

  reacted-Holds :
      (rt : Runtime) (s : MemoryStore) (id' user emoji : String) (removal : Bool)
      → Holds key entry id s
      → Holds key entry id (react_to_message rt s id' user emoji removal).0
  unfolding react_to_message
  reacted-Holds rt s id' user emoji removal h =
      unchanged-Holds s _ (ground arith) (ground arith) (ground arith) h

  marked-Holds :
      (s : MemoryStore) (now : ℕ) (conv user : String)
      → Holds key entry id s
      → Holds key entry id (mark_conversation_read s now conv user).0
  unfolding mark_conversation_read
  marked-Holds s now conv user h =
      unchanged-Holds s _ (ground arith) (ground arith) (ground arith) h

  pub Later-Holds :
      (rt : Runtime) (s t : MemoryStore)
      → Later rt s t
      → Holds key entry id s
      → Holds key entry id t
  Later-Holds rt s t same h = h
  Later-Holds rt s t (stored u now conv sender nick client segments l) h =
      stored-Holds rt u now conv sender nick client segments (Later-Holds rt s u l h)
  Later-Holds rt s t (edited u id' segments l) h =
      edited-Holds rt u id' segments (Later-Holds rt s u l h)
  Later-Holds rt s t (recalled u id' l) h = recalled-Holds u id' (Later-Holds rt s u l h)
  Later-Holds rt s t (reacted u id' user emoji removal l) h =
      reacted-Holds rt u id' user emoji removal (Later-Holds rt s u l h)
  Later-Holds rt s t (marked u now conv user l) h =
      marked-Holds u now conv user (Later-Holds rt s u l h)
  Later-Holds rt s t (elsewhere u u' entries heap counter l) h =
      unchanged-Holds u u' entries heap counter (Later-Holds rt s u l h)

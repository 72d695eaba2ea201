-- ===== src/Store/Messages/Numbering.antt =====
-- Message identifiers: a conversation's messages are numbered in the order in which they were stored.
use zzzproject.Base.{
  ℕ, ◌+◌, ◌≤◌, ◌<◌, String, ◌≡◌, refl, ◌⊎◌, inl, inr, true, Option, none, some, List, [], ◌∷◌, ◌++◌,
  arith, ◌==◌, if-cases, Bool-cases, Option-cases, Map, lookup, lookup-insert,
}
use zzzproject.Protocol.{MessageSegment}
use zzzproject.Store.Types.{Message}
use zzzproject.Store.State.{Runtime, MessageRef, MessageIdempotency, MemoryStore}
use zzzproject.Store.Messages.{
  refs_of, write, find_message, find_in, append_message, update_message_segments, recall_message,
  delete_message, delete_message_idempotency, delete_dynamic_interaction_events, Stored,
  store_message_idempotent, store_checked, store_new, remove_first, remove_message, new_message,
  is_in,
}

-- References that rise above `lo` and stay at or below `hi`, each to a message with its own number's
-- identifier.
abbrev pub Numbered : (ℕ → String) → (MessageRef → Message) → ℕ → ℕ → List MessageRef → Type 0
Numbered name heap lo hi [] = lo ≤ hi
Numbered name heap lo hi (r ∷ refs) =
    (lo < r) × ((heap r).id ≡ name r) × Numbered name heap r hi refs

-- Every conversation's messages are numbered below the counter.
pub record IsNumbered (name : ℕ → String) (s : MemoryStore) : Type 0 where
  pub all : (c : String) → Numbered name s.heap 0 s.msg_counter (refs_of (lookup c s.messages))

module _ (name : ℕ → String) where
  Numbered-le :
      (heap : MessageRef → Message) (lo hi : ℕ) (refs : List MessageRef)
      → Numbered name heap lo hi refs
      → lo ≤ hi
  Numbered-le heap lo hi [] n = n
  Numbered-le heap lo hi (r ∷ refs) n = omega (arith, n.0, Numbered-le heap r hi refs n.2)

  -- A new message under the next number.
  Numbered-append :
      (heap : MessageRef → Message) (lo hi : ℕ) (refs : List MessageRef) (m : Message)
      → m.id ≡ name (hi + 1)
      → Numbered name heap lo hi refs
      → Numbered name (write heap (hi + 1) m) lo (hi + 1) (refs ++ (hi + 1) ∷ [])
  Numbered-append heap lo hi [] m e n = (omega arith, ground arith, omega arith)
  Numbered-append heap lo hi (r ∷ refs) m e n =
      let below = Numbered-le heap r hi refs n.2 in
      (n.0, ground (arith, n.1, below), Numbered-append heap r hi refs m e n.2)

  -- A write under another number, or one that keeps the identifier.
  Numbered-write :
      (heap : MessageRef → Message) (lo hi hi' r : ℕ) (refs : List MessageRef) (m : Message)
      → hi ≤ hi'
      → (hi < r) ⊎ (m.id ≡ (heap r).id)
      → Numbered name heap lo hi refs
      → Numbered name (write heap r m) lo hi' refs
  Numbered-write heap lo hi hi' r [] m h w n = omega arith
  Numbered-write heap lo hi hi' r (r' ∷ refs) m h w n =
      let below = Numbered-le heap r' hi refs n.2 in
      (n.0, ground (arith, n.1, below, w), Numbered-write heap r' hi hi' r refs m h w n.2)

  Numbered-lower :
      (heap : MessageRef → Message) (lo lo' hi : ℕ) (refs : List MessageRef)
      → lo' ≤ lo
      → Numbered name heap lo hi refs
      → Numbered name heap lo' hi refs
  Numbered-lower heap lo lo' hi [] h n = omega arith
  Numbered-lower heap lo lo' hi (r ∷ refs) h n = (omega (arith, n.0), n.1, n.2)

  Numbered-remove_first :
      (heap : MessageRef → Message) (id : String) (lo hi : ℕ) (refs : List MessageRef)
      → Numbered name heap lo hi refs
      → Numbered name heap lo hi (remove_first heap id refs)
  unfolding remove_first
  Numbered-remove_first heap id lo hi [] n = n
  Numbered-remove_first heap id lo hi (r ∷ refs) n =
      if-cases (Numbered name heap lo hi) ((heap r).id == id)
        (λ _. Numbered-lower heap r lo hi refs (omega (arith, n.0)) n.2)
        (λ _. (n.0, n.1, Numbered-remove_first heap id r hi refs n.2))

  -- A write to the heap that keeps every identifier.
  written-IsNumbered :
      (s : MemoryStore) (r : MessageRef) (m : Message)
      → m.id ≡ (s.heap r).id
      → IsNumbered name s
      → IsNumbered name (record s { heap = write s.heap r m })
  written-IsNumbered s r m same h = record {
    all = λ c.
        Numbered-write s.heap 0 s.msg_counter s.msg_counter r (refs_of (lookup c s.messages)) m
          (omega arith) (inr same) (h.all c);
  }

  remove_message-Numbered :
      (heap : MessageRef → Message) (id c : String) (lo hi : ℕ) (m : Map (List MessageRef))
      → Numbered name heap lo hi (refs_of (lookup c m))
      → Numbered name heap lo hi (refs_of (lookup c (remove_message heap id m)))
  unfolding remove_message lookup
  remove_message-Numbered heap id c lo hi [] n = n
  remove_message-Numbered heap id c lo hi ((k, refs) ∷ m) n =
      let inside = is_in (find_in heap id refs) in
      elim (Bool-cases (k == c)) [
        | inl here ↦ elim (Bool-cases inside) [
          | inl found ↦ rw (found, here) (Numbered-remove_first heap id lo hi refs (rw here at n))
          | inr absent ↦ rw (absent, here) (rw here at n)
        ]
        | inr other ↦ elim (Bool-cases inside) [
          | inl found ↦ rw (found, other) (rw other at n)
          | inr absent ↦
              rw (absent, other) (remove_message-Numbered heap id c lo hi m (rw other at n))
        ]
      ]

append_message-IsNumbered :
    (rt : Runtime) (s : MemoryStore) (now : ℕ) (conversation sender nickname : String)
    (segments : List MessageSegment)
    → IsNumbered rt.message_id s
    → IsNumbered rt.message_id (append_message rt s now conversation sender nickname segments)
unfolding append_message new_message
append_message-IsNumbered rt s now conversation sender nickname segments h = record {
  all = λ c.
      let refs = refs_of (lookup conversation s.messages) in
      let r = s.msg_counter + 1 in
      let m = new_message rt s now conversation sender nickname segments in
      let at_c = lookup-insert conversation c (refs ++ r ∷ []) s.messages in
      elim (Bool-cases (conversation == c)) [
        | inl here ↦
            rw (at_c, here)
              (Numbered-append rt.message_id s.heap 0 s.msg_counter refs m refl
                (h.all conversation))
        | inr other ↦
            rw (at_c, other)
              (Numbered-write rt.message_id s.heap 0 s.msg_counter r r
                (refs_of (lookup c s.messages)) m (omega arith) (inl (omega arith)) (h.all c))
      ];
}

update-IsNumbered :
    (name : ℕ → String) (rt : Runtime) (s : MemoryStore) (id : String)
    (segments : List MessageSegment)
    → IsNumbered name s
    → IsNumbered name (update_message_segments rt s id segments).0
unfolding update_message_segments
update-IsNumbered name rt s id segments h = elim (Option-cases (find_message s id)) [
  | inl absent ↦ rw (update_message_segments, absent) h
  | inr (r, found) ↦
      rw (update_message_segments, found)
        (written-IsNumbered name s r (record (s.heap r) { segments = segments }) refl h)
]

recall-IsNumbered :
    (name : ℕ → String) (s : MemoryStore) (id : String)
    → IsNumbered name s
    → IsNumbered name (recall_message s id).0
unfolding recall_message
recall-IsNumbered name s id h = elim (Option-cases (find_message s id)) [
  | inl absent ↦ rw (recall_message, absent) h
  | inr (r, found) ↦
      rw (recall_message, found)
        (written-IsNumbered name s r (record (s.heap r) { recalled = true }) refl h)
]

delete-IsNumbered :
    (name : ℕ → String) (s : MemoryStore) (id : String)
    → IsNumbered name s
    → IsNumbered name (delete_message s id).0
unfolding delete_message delete_message_idempotency delete_dynamic_interaction_events
delete-IsNumbered name s id h = elim (Option-cases (find_message s id)) [
  | inl absent ↦ rw (delete_message, absent) h
  | inr (r, found) ↦
      rw (delete_message, found)
        (record {
          all = λ c. remove_message-Numbered name s.heap id c 0 s.msg_counter s.messages (h.all c);
        })
]

store_checked-IsNumbered :
    (rt : Runtime) (s : MemoryStore) (now : ℕ) (conversation sender nickname client : String)
    (segments : List MessageSegment) (print : String) (entry : Option MessageIdempotency)
    → IsNumbered rt.message_id s
    → IsNumbered rt.message_id
        (store_checked rt s now conversation sender nickname client segments print entry).0
unfolding store_checked store_new
store_checked-IsNumbered rt s now conversation sender nickname client segments print none h =
    let h' = append_message-IsNumbered rt s now conversation sender nickname segments h in
    if-cases (IsNumbered rt.message_id) (client == "") (λ _. h') (λ _. record { all = h'.all })
store_checked-IsNumbered rt s now conversation sender nickname client segments print (some e) h =
    if-cases (λ (c : Stored). IsNumbered rt.message_id c.0) (e.fingerprint == print) (λ _. h)
      (λ _. h)

store-IsNumbered :
    (rt : Runtime) (s : MemoryStore) (now : ℕ) (conversation sender nickname client : String)
    (segments : List MessageSegment)
    → IsNumbered rt.message_id s
    → IsNumbered rt.message_id
        (store_message_idempotent rt s now conversation sender nickname client segments).0
unfolding store_message_idempotent
store-IsNumbered rt s now conversation sender nickname client segments h =
    elim (Option-cases (rt.message_fingerprint conversation segments)) [
      | inl absent ↦ rw (store_message_idempotent, absent) h
      | inr (print, found) ↦
          rw (store_message_idempotent, found)
            (store_checked-IsNumbered rt s now conversation sender nickname client segments print _
              h)
    ]

-- Storing, editing, recalling and deleting messages keep every conversation's messages in the order
-- of their numbers, with the identifiers of these numbers, whatever the arguments.
pub messages-IsNumbered :
    (rt : Runtime) (s : MemoryStore) (now : ℕ) (conversation sender nickname client id : String)
    (segments : List MessageSegment)
    → IsNumbered rt.message_id s
    → IsNumbered rt.message_id
        (store_message_idempotent rt s now conversation sender nickname client segments).0
      × (IsNumbered rt.message_id (update_message_segments rt s id segments).0
          × (IsNumbered rt.message_id (recall_message s id).0
              × IsNumbered rt.message_id (delete_message s id).0))
messages-IsNumbered rt s now conversation sender nickname client id segments h = (
  store-IsNumbered rt s now conversation sender nickname client segments h,
  (
    update-IsNumbered rt.message_id rt s id segments h,
    (recall-IsNumbered rt.message_id s id h, delete-IsNumbered rt.message_id s id h),
  ),
)

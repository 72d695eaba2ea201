-- ===== src/Store/ReadState/Unread.antt =====
-- Reading a conversation leaves nothing unread.
use zzzproject.Base.{
  ℕ, ◌<◌, String, ◌≡◌, refl, subst, ◌≢◌, inl, inr, false, none, some, List, [], ◌∷◌, arith, ◌==◌,
  eq_iff, Option-cases, lookup, insert, lookup-insert,
}
use zzzproject.Store.Types.{Message}
use zzzproject.Store.State.{MessageRef, MemoryStore}
use zzzproject.Store.Messages.{refs_of}
use zzzproject.Store.Messages.Numbering.{Numbered, IsNumbered}
use zzzproject.Store.ReadState.{
  states_of, last_of, cursor_at, mark_conversation_read, get_conversation_read, after_id,
  unread_from, count_others, count_unread_messages, later_than,
}

later_than-none : (heap : MessageRef → Message) (t : ℕ) → later_than heap t [] ≡ []
unfolding later_than
later_than-none heap t = refl

module _ (name : ℕ → String) (injective : (a b : ℕ) → name a ≡ name b → a ≡ b)
    (named : (a : ℕ) → name a ≢ "") where
  last_of-Numbered :
      (heap : MessageRef → Message) (lo hi l : ℕ) (refs : List MessageRef)
      → Numbered name heap lo hi refs
      → last_of refs ≡ some l
      → (lo < l) × ((heap l).id ≡ name l)
  unfolding last_of
  last_of-Numbered heap lo hi l [] n e = ground arith
  last_of-Numbered heap lo hi l (r ∷ []) n e =
      let same : r ≡ l = ground (arith, e) in
      subst (λ x. (lo < x) × ((heap x).id ≡ name x)) same (n.0, n.1)
  last_of-Numbered heap lo hi l (r ∷ r' ∷ refs) n e =
      let later = last_of-Numbered heap r hi l (r' ∷ refs) n.2 e in
      (omega (arith, n.0, later.0), later.1)

  after_id-last :
      (heap : MessageRef → Message) (lo hi l : ℕ) (refs : List MessageRef)
      → Numbered name heap lo hi refs
      → last_of refs ≡ some l
      → after_id heap (heap l).id refs ≡ []
  unfolding last_of after_id
  after_id-last heap lo hi l [] n e = refl
  after_id-last heap lo hi l (r ∷ []) n e = ground arith
  after_id-last heap lo hi l (r ∷ r' ∷ refs) n e =
      let later = last_of-Numbered heap r hi l (r' ∷ refs) n.2 e in
      ground (
        arith,
        after_id-last heap r hi l (r' ∷ refs) n.2 e,
        later,
        n.1,
        injective r l,
        eq_iff (heap r).id (heap l).id,
      )

  no_messages : (refs : List MessageRef) → last_of refs ≡ none → refs ≡ []
  unfolding last_of
  no_messages [] e = refl
  no_messages (r ∷ []) e = ground (arith, e)
  no_messages (r ∷ r' ∷ refs) e = ground (arith, no_messages (r' ∷ refs) e)

  marked :
      (s : MemoryStore) (now : ℕ) (conversation user : String)
      → get_conversation_read (mark_conversation_read s now conversation user).0 conversation user
        ≡ some
            (cursor_at s conversation user now (last_of (refs_of (lookup conversation s.messages))))
  unfolding mark_conversation_read get_conversation_read
  marked s now conversation user =
      let refs = refs_of (lookup conversation s.messages) in
      let state = cursor_at s conversation user now (last_of refs) in
      let states = states_of (lookup conversation s.read_states) in
      rw
        (
          lookup-insert conversation conversation (insert user state states) s.read_states,
          (eq_iff conversation conversation).1 refl,
          lookup-insert user user state states,
          (eq_iff user user).1 refl,
        )
        refl

  none_left :
      (s : MemoryStore) (now : ℕ) (conversation user : String) (refs : List MessageRef)
      → Numbered name s.heap 0 s.msg_counter refs
      → unread_from s refs (some (cursor_at s conversation user now (last_of refs))) ≡ []
  none_left s now conversation user refs n = elim (Option-cases (last_of refs)) [
    | inl absent ↦ rw (absent, no_messages refs absent) (later_than-none s.heap now)
    | inr (l, found) ↦
        let number = last_of-Numbered s.heap 0 s.msg_counter l refs n found in
        let with_id : ((s.heap l).id == "") ≡ false =
          ground (arith, number, named l, eq_iff (s.heap l).id "") in
        rw (found, with_id) (after_id-last s.heap 0 s.msg_counter l refs n found)
  ]

  -- Once a user has marked a conversation as read, none of its messages is unread to that user, where
  -- identifiers follow the numbering and are not empty.
  pub mark_conversation_read-unread :
      (s : MemoryStore) (now : ℕ) (conversation user : String)
      → IsNumbered name s
      → count_unread_messages (mark_conversation_read s now conversation user).0 conversation user
        ≡ 0
  unfolding count_unread_messages mark_conversation_read count_others
  mark_conversation_read-unread s now conversation user h =
      let refs = refs_of (lookup conversation s.messages) in
      rw
        (
          marked s now conversation user,
          none_left s now conversation user refs (h.all conversation),
        )
        refl

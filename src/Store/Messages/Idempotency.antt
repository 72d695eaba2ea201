-- ===== src/Store/Messages/Idempotency.antt =====
-- Sending a message again under the same client identifier.
use zzzproject.Base.{
  ℕ, String, ◌≡◌, refl, sym, ap, ◌∙◌, ◌≢◌, inl, inr, Bool, true, false, none, some, List, arith,
  ◌==◌, eq_iff, if◌then◌else◌, Bool-cases, Option-cases, lookup, insert, lookup-insert, Result, ok,
  err,
}
use zzzproject.Protocol.{MessageSegment}
use zzzproject.Store.Types.{Message}
use zzzproject.Store.State.{
  Runtime, MessageIdempotency, MemoryStore, StoreError, message_conflict, pair_key,
}
use zzzproject.Store.Messages.{
  Stored, snapshot, append_message, store_message_idempotent, store_checked, store_new,
}
use zzzproject.Store.Messages.Later.{Later, Holds, Later-Holds}

abbrev Answer : Type 0
Answer = Result StoreError (Message × Bool)

abbrev answer : Message → Bool → Answer
answer m duplicate = ok (m, duplicate)

same_message : (m m' : Message) → answer m false ≡ answer m' false → m ≡ m'
same_message m m' e = ground (arith, e)

abbrev known_answer : Bool → MemoryStore → Message → Stored
known_answer same s m = if same then (s, ok (m, true)) else (s, err message_conflict)

not_known :
    (same : Bool) (s : MemoryStore) (m m' : Message)
    → (known_answer same s m).1 ≡ answer m' false
    → ⊥
not_known true s m m' e = ground (arith, e)
not_known false s m m' e = ground (arith, e)

-- The same content is told from another.
known_cases :
    (print print' : String) (s : MemoryStore) (m : Message) (id : String)
    → m.id ≡ id
    → let again = known_answer (print == print') s m in
      (again.0 ≡ s)
      × ((print' ≡ print → (m' : Message) × (again.1 ≡ ok (m', true)) × (m'.id ≡ id))
          × (print' ≢ print → again.1 ≡ err message_conflict))
known_cases print print' s m id e = elim (Bool-cases (print == print')) [
  | inl same ↦
      let equal = (eq_iff print print').0 same in
      rw same (refl, ((λ _. (m, refl, e)), λ other. absurd (other (sym equal))))
  | inr differ ↦
      rw differ (refl, ((λ same. absurd (ground (arith, eq_iff print print'))), λ _. refl))
]

module _ (rt : Runtime) (s : MemoryStore) (now : ℕ) (conv sender nick client : String)
    (segments : List MessageSegment) (print : String) (named : (client == "") ≡ false)
    (encoded : rt.message_fingerprint conv segments ≡ some print) where
  abbrev key : String
  key = pair_key sender client

  -- With an entry under the key the store is not written.
  known :
      (entry : MessageIdempotency)
      → lookup key s.message_idempotency ≡ some entry
      → store_message_idempotent rt s now conv sender nick client segments ≡ (
          if entry.fingerprint == print
          then (s, ok (snapshot rt s entry.message, true))
          else (s, err message_conflict))
  unfolding store_message_idempotent
  known entry found = rw (encoded, store_message_idempotent, named, found) refl

  -- Without one the message is made, under the next number, and entered under the key.
  abbrev made : MemoryStore
  made = append_message rt s now conv sender nick segments

  abbrev fresh_entry : MessageIdempotency
  fresh_entry = record { fingerprint = print; message = made.msg_counter }

  new_entry :
      lookup key s.message_idempotency ≡ none
      → store_message_idempotent rt s now conv sender nick client segments ≡ (
        record made { message_idempotency = insert key fresh_entry made.message_idempotency },
        ok (made.heap made.msg_counter, false),
      )
  unfolding store_message_idempotent
  new_entry absent =
      rw (encoded, store_message_idempotent, named, absent)
        (rw (store_checked, store_new, named) refl)

  -- So a result that is no duplicate has left its entry, and is the message of the entry.
  entered :
      (m : Message)
      → (store_message_idempotent rt s now conv sender nick client segments).1 ≡ ok (m, false)
      → let s' = (store_message_idempotent rt s now conv sender nick client segments).0 in
        (lookup key s'.message_idempotency ≡ some fresh_entry) × (s'.heap fresh_entry.message ≡ m)
  entered m first = elim (Option-cases (lookup key s.message_idempotency)) [
    | inl absent ↦ rw (new_entry absent) (
      rw (lookup-insert key key fresh_entry made.message_idempotency, (eq_iff key key).1 refl) refl,
      same_message (made.heap made.msg_counter) m (rw (new_entry absent) at first),
    )
    | inr (entry, found) ↦ absurd (
        not_known (entry.fingerprint == print) s (snapshot rt s entry.message) m
          (rw (known entry found) at first))
  ]

id-snapshot : (rt : Runtime) (s : MemoryStore) (r : ℕ) → (snapshot rt s r).id ≡ (s.heap r).id
unfolding snapshot
id-snapshot rt s r = refl

-- The first call leaves the entry of its message.
first-Holds :
    (rt : Runtime) (s : MemoryStore) (now : ℕ) (conv sender nick client : String)
    (segments : List MessageSegment) (m : Message) (print : String) (named : (client == "") ≡ false)
    (encoded : rt.message_fingerprint conv segments ≡ some print)
    → (store_message_idempotent rt s now conv sender nick client segments).1 ≡ ok (m, false)
    → Holds
        (pair_key sender client)
        (fresh_entry rt s now conv sender nick client segments print named encoded)
        m.id
        (store_message_idempotent rt s now conv sender nick client segments).0
first-Holds rt s now conv sender nick client segments m print named encoded first =
    let kept = entered rt s now conv sender nick client segments print named encoded m first in
    record {
      entered = kept.0;
      named = ap (λ (x : Message). x.id) kept.1;
      below = elim (Option-cases (lookup (pair_key sender client) s.message_idempotency)) [
        | inl absent ↦
            rw (new_entry rt s now conv sender nick client segments print named encoded absent)
              (omega arith)
        | inr (entry, found) ↦ absurd (
            not_known (entry.fingerprint == print) s (snapshot rt s entry.message) m (
              rw (known rt s now conv sender nick client segments print named encoded entry found)
                at first))
      ];
    }

-- A request that has been stored under a non-empty client identifier is never stored again while no
-- message is deleted: after any messages that were stored, edited or recalled, any reactions and
-- read marks, and any other calls that leave the messages and their entries, a further request of
-- that sender under that identifier leaves the store as it is; one with the same fingerprint gets a
-- message with the same identifier, marked as a duplicate, and one with another fingerprint is a
-- conflict.
pub store_message_again :
    (rt : Runtime) (s t : MemoryStore) (now now' : ℕ) (conv conv' sender nick nick' client : String)
    (segments segments' : List MessageSegment) (m : Message) (print print' : String)
    → client ≢ ""
    → rt.message_fingerprint conv segments ≡ some print
    → rt.message_fingerprint conv' segments' ≡ some print'
    → (store_message_idempotent rt s now conv sender nick client segments).1 ≡ ok (m, false)
    → Later rt (store_message_idempotent rt s now conv sender nick client segments).0 t
    → let again = store_message_idempotent rt t now' conv' sender nick' client segments' in
      (again.0 ≡ t)
      × ((print' ≡ print → (m' : Message) × (again.1 ≡ ok (m', true)) × (m'.id ≡ m.id))
          × (print' ≢ print → again.1 ≡ err message_conflict))
store_message_again rt s t now now' conv conv' sender nick nick' client segments segments' m print
      print' named e e' first later =
    let unnamed : (client == "") ≡ false = ground (arith, eq_iff client "") in
    let entry = fresh_entry rt s now conv sender nick client segments print unnamed e in
    let kept =
      Later-Holds (pair_key sender client) entry m.id rt _ t later
        (first-Holds rt s now conv sender nick client segments m print unnamed e first) in
    let again =
      known rt t now' conv' sender nick' client segments' print' unnamed e' entry kept.entered in
    rw again (
      known_cases print print' t (snapshot rt t entry.message) m.id
        (id-snapshot rt t entry.message ∙ kept.named))

-- ===== src/Store/Tests.antt =====
-- Runs of the in-memory store on concrete inputs, and the theorems about it applied there.
use Prim.Native.Nat.{min}
use zzzproject.Base.{
  ℕ, zero, suc, String, ◌≡◌, refl, ap, ◌≢◌, true, false, none, some, List, [], ◌∷◌, ◌++◌, arith,
  lookup, text_ne, ok, err, map, length,
}
use zzzproject.Protocol.{MessageSegment, text, end, field}
use zzzproject.Store.Types.{Message}
use zzzproject.Store.State.{Runtime, MessageRef, MemoryStore, new_memory_store, message_conflict}
use zzzproject.Store.Messages.{
  refs_of, append_message, snapshot, store_message_idempotent, update_message_segments,
  recall_message, delete_message, get_messages_before,
}
use zzzproject.Store.Messages.Idempotency.{store_message_again}
use zzzproject.Store.Messages.Numbering.{IsNumbered, messages-IsNumbered}
use zzzproject.Store.Messages.Later.{Later, stored, reacted, same}
use zzzproject.Store.Reactions.{react_to_message}
use zzzproject.Store.Messages.Paging.{parted, get_messages_before_page}
use zzzproject.Store.ReadState.{mark_conversation_read, count_unread_messages}
use zzzproject.Store.ReadState.Unread.{mark_conversation_read-unread}

-- Identifiers of one letter more than the number says.
unfoldable letters : ℕ → String
letters zero = ""
letters (suc n) = String.◌∷◌ "m" (letters n)

abbrev name : ℕ → String
name n = String.◌∷◌ "m" (letters n)

letters-injective : (a b : ℕ) → letters a ≡ letters b → a ≡ b
unfolding letters
letters-injective zero zero e = refl
letters-injective zero (suc b) e = cc e
letters-injective (suc a) zero e = cc e
letters-injective (suc a) (suc b) e =
    let same : letters a ≡ letters b = cc e in ap suc (letters-injective a b same)

name-injective : (a b : ℕ) → name a ≡ name b → a ≡ b
name-injective a b e = letters-injective a b (cc e)

name_ne_empty : (a : ℕ) → name a ≢ ""
name_ne_empty a e = cc e

abbrev runtime : Runtime
runtime = record {
  message_id = name;
  request_id = letters;
  announcement_id = λ t n. letters n;
  forward_id = letters;
  message_fingerprint = λ conversation segments. some conversation;
  interaction_fingerprint = λ e. none;
  sort_strings = λ l. l;
}

abbrev hello : List MessageSegment
hello = record { type = "text"; fields = field "text" (text "hello") end } ∷ []

abbrev sent : MemoryStore
sent = (store_message_idempotent runtime new_memory_store 10 "c" "ann" "Ann" "k1" hello).0

abbrev first_message : Message
first_message = record {
  id = "mm";
  conversation_id = "c";
  sender_id = "ann";
  sender_nickname = "Ann";
  segments = hello;
  timestamp = 10;
  recalled = false;
  reactions = [];
}

new-IsNumbered : IsNumbered name new_memory_store
unfolding new_memory_store lookup
new-IsNumbered = record { all = λ c. omega arith }

sent-IsNumbered : IsNumbered name sent
sent-IsNumbered =
    (messages-IsNumbered runtime new_memory_store 10 "c" "ann" "Ann" "k1" "mm" hello
      new-IsNumbered).0

messages-IsNumbered_example :
    IsNumbered name (store_message_idempotent runtime sent 20 "c" "bob" "Bob" "k2" hello).0
    × (IsNumbered name (update_message_segments runtime sent "mm" hello).0
        × (IsNumbered name (recall_message sent "mm").0
            × IsNumbered name (delete_message sent "mm").0))
messages-IsNumbered_example =
    messages-IsNumbered runtime sent 20 "c" "bob" "Bob" "k2" "mm" hello sent-IsNumbered

-- A second message, and a reaction to the first one.
abbrev two_sent : MemoryStore
two_sent = (store_message_idempotent runtime sent 15 "c" "bob" "Bob" "k2" hello).0

abbrev liked : MemoryStore
liked = (react_to_message runtime two_sent "mm" "bob" "smile" false).0

liked-Later : Later runtime sent liked
liked-Later =
    reacted two_sent "mm" "bob" "smile" false (stored sent 15 "c" "bob" "Bob" "k2" hello same)

store_message_again_example :
    let again = store_message_idempotent runtime liked 20 "c" "ann" "Ann" "k1" hello in
    (again.0 ≡ liked)
    × ((◌≡◌ {A = String} "c" "c" → (m' : Message) × (again.1 ≡ ok (m', true)) × (m'.id ≡ "mm"))
        × (◌≢◌ {A = String} "c" "c" → again.1 ≡ err message_conflict))
unfolding store_message_idempotent lookup new_memory_store append_message letters
store_message_again_example =
    store_message_again runtime new_memory_store liked 10 20 "c" "c" "ann" "Ann" "Ann" "k1" hello
      hello first_message "c" "c" (text_ne "k1" "" refl) refl refl refl liked-Later

get_messages_before_page_example :
    (known : List MessageRef) × (rest : List MessageRef) × (earlier : List MessageRef)
    × (page : List MessageRef) × ((known ++ rest ≡ refs_of (lookup "c" two_sent.messages))
        × (parted two_sent.heap "mmm" known rest ≡ true)
        × (earlier ++ page ≡ known)
        × (get_messages_before runtime two_sent "c" "mmm" 5 ≡ map (snapshot runtime two_sent) page)
        × (length page ≡ min 5 (length known)))
get_messages_before_page_example = get_messages_before_page runtime two_sent "c" "mmm" 5

mark_conversation_read-unread_example :
    count_unread_messages (mark_conversation_read sent 20 "c" "bob").0 "c" "bob" ≡ 0
mark_conversation_read-unread_example =
    mark_conversation_read-unread name name-injective name_ne_empty sent 20 "c" "bob"
      sent-IsNumbered

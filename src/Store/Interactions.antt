-- ===== src/Store/Interactions.antt =====
-- The methods of server/internal/store/memory.go for interactions with dynamic messages: the log of
-- interaction events, and the updates of a message that are made once for each client identifier.
pub mod Once
use zzzproject.Base.{
  ℕ, ◌-◌, String, Bool, true, false, not, ◌||◌, Option, none, some, List, [], ◌∷◌, ◌++◌, length,
  drop, ltb, eqb, ◌==◌, if◌then◌else◌, Map, lookup, insert, Result, ok, err,
}
use zzzproject.Protocol.{MessageSegment}
use zzzproject.Store.Types.{Message, DynamicInteractionEvent}
use zzzproject.Store.State.{
  Runtime, MemoryStore, InteractionRecord, DynamicUpdateIdempotency, StoreError, encoding_failed,
  identity_required, target_not_found, interaction_conflict, dynamic_update_conflict, pair_key,
}
use zzzproject.Store.Messages.{events_of, find_message, snapshot, update_message_segments}

-- The new store, and whether the event had been logged before.
abbrev pub Logged : Type 0
Logged = MemoryStore × Result StoreError Bool

abbrev pub event_key : DynamicInteractionEvent → String
event_key event = pair_key event.actor_id event.event_id

-- The event with the time at which it is logged, if it has none.
abbrev pub stamped : ℕ → DynamicInteractionEvent → DynamicInteractionEvent
stamped now event = record event {
  created_at = if eqb event.created_at 0 then now else event.created_at;
}

-- The entries that both methods make at their end.
unfoldable pub with_event : MemoryStore → ℕ → String → DynamicInteractionEvent → MemoryStore
with_event s now fingerprint event =
    let copy = stamped now event in
    let entry : InteractionRecord = record { fingerprint = fingerprint; event = copy } in
    record s {
      dynamic_interaction_events =
          insert event.message_id
            (events_of (lookup event.message_id s.dynamic_interaction_events) ++ copy ∷ [])
            s.dynamic_interaction_events;
      dynamic_interaction_by_id = insert (event_key event) entry s.dynamic_interaction_by_id;
    }

-- What both methods check first; `body` runs for an event that is not logged yet.
unfoldable pub unless_logged :
    Runtime → MemoryStore → DynamicInteractionEvent → (String → Logged) → Logged
unless_logged rt s event body =
    if event.event_id == "" || event.actor_id == ""
    then (s, err identity_required)
    else elim (rt.interaction_fingerprint event) [
      | none ↦ (s, err encoding_failed)
      | some fingerprint ↦ elim (lookup (event_key event) s.dynamic_interaction_by_id) [
        | none ↦ body fingerprint
        | some existing ↦
            if not (existing.fingerprint == fingerprint)
            then (s, err interaction_conflict)
            else (s, ok true)
      ]
    ]

unfoldable pub append_dynamic_interaction_event :
    Runtime → MemoryStore → ℕ → DynamicInteractionEvent → Logged
unfolding unless_logged with_event
append_dynamic_interaction_event rt s now event =
    unless_logged rt s event (λ fingerprint. (with_event s now fingerprint event, ok false))

unfoldable pub commit_dynamic_interaction_event :
    Runtime → MemoryStore → ℕ → DynamicInteractionEvent → List MessageSegment → Logged
unfolding unless_logged with_event
commit_dynamic_interaction_event rt s now event segments = unless_logged rt s event (λ fingerprint.
    elim (find_message s event.message_id) [
      | none ↦ (s, err target_not_found)
      | some r ↦ (
        with_event (update_message_segments rt s event.message_id segments).0 now fingerprint event,
        ok false,
      )
    ])

-- The events of one piece of content in one conversation.
unfoldable pub events_about :
    String → String → List DynamicInteractionEvent → List DynamicInteractionEvent
events_about conversation content [] = []
events_about conversation content (e ∷ es) =
    let rest = events_about conversation content es in
    if not (e.conversation_id == conversation) || not (e.content_id == content)
    then rest
    else e ∷ rest

-- `result[len(result)-limit:]`; a negative limit acts as 0 does.
abbrev pub last_events : ℕ → List DynamicInteractionEvent → List DynamicInteractionEvent
last_events limit es =
    if eqb limit 0 || not (ltb limit (length es)) then es else drop (length es - limit) es

unfoldable pub get_dynamic_interaction_events :
    MemoryStore → String → String → String → ℕ → List DynamicInteractionEvent
unfolding events_about
get_dynamic_interaction_events s conversation message content limit =
    last_events limit
      (events_about conversation content (events_of (lookup message s.dynamic_interaction_events)))

abbrev pub Updated : Type 0
Updated = Result StoreError (Option Message × Bool)

-- What both methods answer about an update that was made before.
abbrev pub known_update : Runtime → MemoryStore → String → DynamicUpdateIdempotency → Updated
known_update rt s fingerprint entry =
    if not (entry.fingerprint == fingerprint)
    then err dynamic_update_conflict
    else elim (find_message s entry.message_id) [
      | none ↦ ok (none, true)
      | some r ↦ ok (some (snapshot rt s r), true)
    ]

-- LookupDynamicUpdateIdempotency.
unfoldable pub lookup_dynamic_update : Runtime → MemoryStore → String → String → String → Updated
lookup_dynamic_update rt s sender client fingerprint =
    if client == ""
    then ok (none, false)
    else elim (lookup (pair_key sender client) s.dynamic_update_idempotency) [
      | none ↦ ok (none, false)
      | some entry ↦ known_update rt s fingerprint entry
    ]

abbrev pub finish_update :
    String → String → String → String → MemoryStore × Option Message → MemoryStore × Updated
finish_update sender client fingerprint id (s, none) = (s, ok (none, false))
finish_update sender client fingerprint id (s, some m) =
    let entry : DynamicUpdateIdempotency = record { fingerprint = fingerprint; message_id = id } in
    (
      (if client == "" then s else record s {
        dynamic_update_idempotency =
            insert (pair_key sender client) entry s.dynamic_update_idempotency;
      }),
      ok (some m, false),
    )

unfoldable pub store_dynamic_update :
    Runtime
    → MemoryStore
    → String
    → String
    → String
    → String
    → List MessageSegment
    → MemoryStore × Updated
store_dynamic_update rt s sender client fingerprint id segments =
    elim (if client == ""
      then none
      else lookup (pair_key sender client) s.dynamic_update_idempotency) [
        | some entry ↦ (s, known_update rt s fingerprint entry)
        | none ↦
            finish_update sender client fingerprint id (update_message_segments rt s id segments)
      ]

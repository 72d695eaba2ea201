-- ===== src/Store/Interactions/Once.antt =====
-- An interaction event takes effect once.
use zzzproject.Base.{
  ℕ, String, ◌≡◌, Bool, true, ◌||◌, Option, none, some, List, [], ◌∷◌, ◌==◌, if◌then◌else◌, lookup,
  Result, ok, err,
}
use zzzproject.Protocol.{MessageSegment}
use zzzproject.Store.Types.{DynamicInteractionEvent}
use zzzproject.Store.State.{
  Runtime, MemoryStore, InteractionRecord, StoreError, interaction_conflict, encoding_failed,
}
use zzzproject.Store.Interactions.{
  Logged, append_dynamic_interaction_event, commit_dynamic_interaction_event,
}

-- A call that may log an event.
pub data LogCall : Type 0 where
  append_call : ℕ → DynamicInteractionEvent → LogCall
  commit_call : ℕ → DynamicInteractionEvent → List MessageSegment → LogCall

abbrev pub call : Runtime → MemoryStore → LogCall → Logged
call rt s (append_call now event) = append_dynamic_interaction_event rt s now event
call rt s (commit_call now event segments) =
    commit_dynamic_interaction_event rt s now event segments

pub calls : Runtime → List LogCall → MemoryStore → MemoryStore
calls rt [] s = s
calls rt (c ∷ cs) s = calls rt cs (call rt s c).0

abbrev pub event_of : LogCall → DynamicInteractionEvent
event_of (append_call now event) = event
event_of (commit_call now event segments) = event

-- An entry under a key.
abbrev pub Entered : String → String → MemoryStore → Type 0
Entered key print s =
    (entry : InteractionRecord) × ((lookup key s.dynamic_interaction_by_id ≡ some entry)
      × (entry.fingerprint ≡ print))

-- The answer to an event that was logged, by the fingerprints of both.
abbrev pub repeat_answer : Option String → Option String → Result StoreError Bool
repeat_answer first none = err encoding_failed
repeat_answer none (some print) = err interaction_conflict
repeat_answer (some print) (some print') =
    if print == print' then ok true else err interaction_conflict

abbrev nameless : DynamicInteractionEvent → Bool
nameless event = event.event_id == "" || event.actor_id == ""

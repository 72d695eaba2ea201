-- ===== src/Fairy/Scheduler.antt =====
-- server/internal/fairy/scheduler.go: one queue of turns for each conversation, an actor goroutine
-- that runs them one by one, and limits on what waits and on what runs at once.
--
-- Each method that takes the mutex is one function. `run` is a function of the caller: the model
-- keeps whether it is nil. The two random identifiers, and what the trace store says of an ingress
-- claim, are arguments. Appending to the trace is left out.
pub mod Actors
pub mod System
pub mod Admission
pub mod Counts
pub mod Invariant
pub mod Callers
pub mod Limits
pub mod Safety
pub mod Order
use zzzproject.Base.{
  ℕ, suc, ◌+◌, ◌-◌, String, Bool, true, false, not, ◌||◌, ◌&&◌, Option, none, some, List, [], ◌∷◌,
  ◌++◌, length, leb, ltb, ◌==◌, if◌then◌else◌, is_some, Map, lookup, insert, remove, Result, ok,
  err,
}

pub record ScheduledTurn : Type 0 where
  pub source : String
  pub event_id : String
  pub conversation_id : String
  pub priority : Bool
  pub retryable : Bool
  pub has_run : Bool
  pub trace_id : String
  pub turn_id : String

-- Why a context ended.
pub data Cause : Type 0 where
  stopped_by_user deadline_exceeded shutting_down cancelled : Cause

-- A turn that runs, with the cause that its context was cancelled with.
pub record Running : Type 0 where
  pub turn : ScheduledTurn
  pub cause : Option Cause

-- conversationQueue; `current` is the turn whose cancel function is `currentCancel`.
pub record ConversationQueue : Type 0 where
  pub items : List ScheduledTurn
  pub running : Bool
  pub control_queued : Bool
  pub current : Option Running

-- `active` is the number of tokens in the channel `slots`, `max_concurrent` its capacity.
pub record Scheduler : Type 0 where
  pub accepting : Bool
  pub queues : Map ConversationQueue
  pub pending : ℕ
  pub max_pending : ℕ
  pub max_conversation_pending : ℕ
  pub active : ℕ
  pub max_concurrent : ℕ
  pub lifecycle : Option Cause

pub record Config : Type 0 where
  pub max_pending : ℕ
  pub max_conversation_pending : ℕ
  pub max_concurrent : ℕ

unfoldable pub new_scheduler : Config → Scheduler
new_scheduler cfg = record {
  accepting = true;
  queues = [];
  pending = 0;
  max_pending = cfg.max_pending;
  max_conversation_pending = cfg.max_conversation_pending;
  active = 0;
  max_concurrent = cfg.max_concurrent;
  lifecycle = none;
}

pub data SubmitError : Type 0 where
  invalid_turn no_id scheduler_closed pending_limit conversation_pending claim_failed : SubmitError

-- What ClaimIngress answers: the event is new, was claimed before, or the store failed.
pub data Claim : Type 0 where
  claimed duplicate failed : Claim

-- A new queue, where Go has `&conversationQueue{}`.
abbrev pub empty_queue : ConversationQueue
empty_queue = record { items = []; running = false; control_queued = false; current = none }

abbrev pub queue_or_new : Option ConversationQueue → ConversationQueue
queue_or_new none = empty_queue
queue_or_new (some q) = q

abbrev non_empty : List ScheduledTurn → Bool
non_empty [] = false
non_empty (t ∷ ts) = true

-- A cancel function keeps the first cause that it is given.
abbrev cancel_with : Cause → Running → Running
cancel_with c r = elim r.cause [ none ↦ record r { cause = some c } | some d ↦ r ]

abbrev cancel_current : Cause → Option Running → Option Running
cancel_current c none = none
cancel_current c (some r) = some (cancel_with c r)

-- A turn that stops the current one may pass the limits, unless one such already waits.
abbrev may_bypass : ScheduledTurn → Option ConversationQueue → Bool
may_bypass turn none = false
may_bypass turn (some q) =
    turn.priority && ((is_some q.current || non_empty q.items) && not q.control_queued)

abbrev depth_of : Option ConversationQueue → ℕ
depth_of none = 0
depth_of (some q) = length q.items

-- The queue with the turn in it, and its actor started.
unfoldable pub enqueue : ScheduledTurn → ConversationQueue → ConversationQueue
enqueue turn q =
    if turn.priority
    then record {
      items = turn ∷ q.items;
      running = true;
      control_queued = true;
      current = cancel_current stopped_by_user q.current;
    }
    else record q { items = q.items ++ turn ∷ []; running = true }

unfoldable pub admit : Scheduler → ScheduledTurn → Scheduler
admit s turn = record s {
  queues =
      insert turn.conversation_id
        (enqueue turn (queue_or_new (lookup turn.conversation_id s.queues))) s.queues;
  pending = s.pending + 1;
}

-- Submit under the mutex, from the two identifiers on.
submit_locked : Claim → Scheduler → ScheduledTurn → Scheduler × Result SubmitError Bool
submit_locked claim s turn =
    let queue = lookup turn.conversation_id s.queues in
    let bypass = may_bypass turn queue in
    if not s.accepting
    then (s, err scheduler_closed)
    else if leb s.max_pending s.pending && not bypass
    then (s, err pending_limit)
    else if leb s.max_conversation_pending (depth_of queue) && not bypass
    then (s, err conversation_pending)
    else if turn.retryable
    then (admit s turn, ok true)
    else elim claim [
      | failed ↦ (s, err claim_failed)
      | duplicate ↦ (s, ok false)
      | claimed ↦ (admit s turn, ok true)
    ]

with_ids :
    Claim
    → Scheduler
    → ScheduledTurn
    → Option (String × String)
    → Scheduler × Result SubmitError Bool
unfolding submit_locked
with_ids claim s turn none = (s, err no_id)
with_ids claim s turn (some (trace, id)) =
    submit_locked claim s (record turn { trace_id = trace; turn_id = id })

-- Submit. `ids` are the trace's and the turn's identifier, if the random source gives them.
unfoldable pub submit :
    Option (String × String)
    → Claim
    → Scheduler
    → ScheduledTurn
    → Scheduler × Result SubmitError Bool
unfolding with_ids
submit ids claim s turn =
    if turn.source == ""
      || (turn.event_id == "" || (turn.conversation_id == "" || not turn.has_run))
    then (s, err invalid_turn)
    else with_ids claim s turn ids

abbrev is_running : Option ConversationQueue → Bool
is_running none = false
is_running (some q) = q.running

-- Whether an accepted turn starts an actor: `startActor`.
abbrev pub starts_actor : Scheduler → String → Bool
starts_actor s id = not (is_running (lookup id s.queues))

-- Cancel; a nil cause is `context.Canceled`.
unfoldable pub cancel : Scheduler → String → Option Cause → Scheduler × Bool
cancel s id cause =
    let c : Cause = elim cause [ none ↦ cancelled | some d ↦ d ] in
    elim (lookup id s.queues) [
      | none ↦ (s, false)
      | some q ↦
          if is_some q.current
          then (
            record s {
              queues = insert id (record q { current = cancel_current c q.current }) s.queues;
            },
            true,
          )
          else (s, false)
    ]

unfoldable pub close_admission : Scheduler → Scheduler
close_admission s = record s { accepting = false }

-- What discardQueue, and nextTurn where it ends the actor, do to the queue.
unfoldable pub drop_queue : Scheduler → String → ConversationQueue → Scheduler
drop_queue s id q = record s { queues = remove id s.queues; pending = s.pending - length q.items }

-- nextTurn by the queue's items: the turn that starts, or none if the actor ends.
start_turn :
    Scheduler → String → ConversationQueue → List ScheduledTurn → Scheduler × Option ScheduledTurn
unfolding drop_queue
start_turn s id q [] = (drop_queue s id q, none)
start_turn s id q (turn ∷ rest) = (
  record s {
    queues =
        insert id
          (record q {
            items = rest;
            control_queued = if turn.priority then false else q.control_queued;
            current = some (record { turn = turn; cause = none });
          })
          s.queues;
    pending = s.pending - 1;
  },
  some turn,
)

unfoldable pub next_turn : Scheduler → String → ConversationQueue → Scheduler × Option ScheduledTurn
unfolding start_turn
next_turn s id q =
    if is_some s.lifecycle then (drop_queue s id q, none) else start_turn s id q q.items

-- The function `finish` that nextTurn returns: the cause, and no current turn.
unfoldable pub finish : Scheduler → String → ConversationQueue → Scheduler × Option Cause
finish s id q = (
  record s { queues = insert id (record q { current = none }) s.queues },
  elim q.current [ none ↦ none | some r ↦ r.cause ],
)

pub record SchedulerStats : Type 0 where
  pub accepting : Bool
  pub pending : ℕ
  pub conversations : ℕ
  pub active : ℕ
  pub max_pending : ℕ
  pub max_concurrent : ℕ
  pub max_conversation : ℕ

unfoldable pub stats : Scheduler → SchedulerStats
stats s = record {
  accepting = s.accepting;
  pending = s.pending;
  conversations = length s.queues;
  active = s.active;
  max_pending = s.max_pending;
  max_concurrent = s.max_concurrent;
  max_conversation = s.max_conversation_pending;
}

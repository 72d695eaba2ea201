-- ===== src/Fairy/Scheduler/System.antt =====
-- The scheduler with its goroutines: runConversation of server/internal/fairy/scheduler.go as a
-- program counter for each goroutine, and the interleavings of all calls as lists of events. An event
-- whose guard fails where it stands changes nothing.
use zzzproject.Base.{
  ◌+◌, ◌-◌, String, Bool, true, false, Option, none, some, List, [], ◌∷◌, ◌++◌, ltb, if◌then◌else◌,
  is_some, Map, lookup, insert, map_values, Result, ok, err,
}
use zzzproject.Fairy.Scheduler.{
  ScheduledTurn, Cause, deadline_exceeded, shutting_down, ConversationQueue, Scheduler, Config,
  SubmitError, Claim, submit, starts_actor, cancel, cancel_current, close_admission, drop_queue,
  next_turn, finish, new_scheduler,
}
use zzzproject.Fairy.Scheduler.Actors.{Phase, waiting, ready, executing, at_phase, move, leave}

pub record System : Type 0 where
  pub scheduler : Scheduler
  pub actors : Map Phase

unfoldable pub start : Config → System
unfolding new_scheduler
start cfg = record { scheduler = new_scheduler cfg; actors = [] }

pub data Event : Type 0 where
  submits : Option (String × String) → Claim → ScheduledTurn → Event
  acquires discards takes finishes times_out : String → Event
  cancels : String → Option Cause → Event
  closes shuts_down : Event

-- `go s.runConversation(...)`: one more goroutine, whatever others there are.
abbrev pub spawn : System → String → Scheduler → System
spawn sys id s = record {
  scheduler = s;
  actors = if starts_actor sys.scheduler id then sys.actors ++ (id, waiting) ∷ [] else sys.actors;
}

abbrev pub after_submit : System → String → Scheduler × Result SubmitError Bool → System
after_submit sys id (s, ok true) = spawn sys id s
after_submit sys id (s, ok false) = record sys { scheduler = s }
after_submit sys id (s, err e) = record sys { scheduler = s }

-- `case s.slots <- struct{}{}` of runConversation.
unfoldable pub acquire : System → String → Option Phase → System
acquire sys id (some waiting) =
    if ltb sys.scheduler.active sys.scheduler.max_concurrent
    then record {
      scheduler = record sys.scheduler { active = sys.scheduler.active + 1 };
      actors = move id waiting ready sys.actors;
    }
    else sys
acquire sys id _ = sys

-- `case <-s.lifecycle.Done()`.
unfoldable pub discard : System → String → Option Phase → Option ConversationQueue → System
discard sys id (some waiting) (some q) =
    if is_some sys.scheduler.lifecycle
    then record { scheduler = drop_queue sys.scheduler id q; actors = leave id waiting sys.actors }
    else sys
discard sys id _ _ = sys

-- An actor that ends gives its slot back.
abbrev pub after_next : System → String → Scheduler × Option ScheduledTurn → System
after_next sys id (s, none) = record {
  scheduler = record s { active = s.active - 1 };
  actors = leave id ready sys.actors;
}
after_next sys id (s, some turn) = record {
  scheduler = s;
  actors = move id ready executing sys.actors;
}

unfoldable pub take_next : System → String → Option Phase → Option ConversationQueue → System
take_next sys id (some ready) (some q) = after_next sys id (next_turn sys.scheduler id q)
take_next sys id _ _ = sys

unfoldable pub finish_turn : System → String → Option Phase → Option ConversationQueue → System
finish_turn sys id (some executing) (some q) = record {
  scheduler = (finish sys.scheduler id q).0;
  actors = move id executing ready sys.actors;
}
finish_turn sys id _ _ = sys

abbrev pub end_current : Cause → ConversationQueue → ConversationQueue
end_current c q = record q { current = cancel_current c q.current }

-- The timeout of a turn's context, or the end of the lifecycle, which every turn's context is under.
unfoldable pub time_out : Scheduler → String → Option ConversationQueue → Scheduler
time_out s id none = s
time_out s id (some q) = record s { queues = insert id (end_current deadline_exceeded q) s.queues }

unfoldable pub end_lifecycle : Scheduler → Scheduler
end_lifecycle s = if is_some s.lifecycle then s else record s {
  lifecycle = some shutting_down;
  queues = map_values (end_current shutting_down) s.queues;
}

abbrev with_scheduler : System → Scheduler → System
with_scheduler sys s = record sys { scheduler = s }

-- An event of an actor is a step of one that stands at the phase which the step starts from.
unfoldable pub step : System → Event → System
step sys (submits ids claim turn) =
    after_submit sys turn.conversation_id (submit ids claim sys.scheduler turn)
step sys (acquires id) = acquire sys id (at_phase id waiting sys.actors)
step sys (discards id) =
    discard sys id (at_phase id waiting sys.actors) (lookup id sys.scheduler.queues)
step sys (takes id) =
    take_next sys id (at_phase id ready sys.actors) (lookup id sys.scheduler.queues)
step sys (finishes id) =
    finish_turn sys id (at_phase id executing sys.actors) (lookup id sys.scheduler.queues)
step sys (times_out id) =
    with_scheduler sys (time_out sys.scheduler id (lookup id sys.scheduler.queues))
step sys (cancels id cause) = with_scheduler sys (cancel sys.scheduler id cause).0
step sys closes = with_scheduler sys (close_admission sys.scheduler)
step sys shuts_down = with_scheduler sys (end_lifecycle (close_admission sys.scheduler))

unfoldable pub run : System → List Event → System
unfolding step
run sys [] = sys
run sys (e ∷ es) = run (step sys e) es

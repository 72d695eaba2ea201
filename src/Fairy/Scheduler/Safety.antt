-- ===== src/Fairy/Scheduler/Safety.antt =====
-- What holds of the scheduler after any interleaving of calls, timeouts and actors' steps.
use zzzproject.Base.{
  ℕ, ◌+◌, ◌≤◌, String, ◌≡◌, refl, true, none, some, List, [], ◌∷◌, ◌≢◌, arith, length, is_some, Map,
  lookup, Unique, total,
}
use zzzproject.Fairy.Scheduler.{ConversationQueue, Config, new_scheduler}
use zzzproject.Fairy.Scheduler.Counts.{depth, control}
use zzzproject.Fairy.Scheduler.Invariant.{
  Inv, holds_slot, acquire-Inv, discard-Inv, finish-Inv, take_next-Inv, start-Inv,
}
use zzzproject.Fairy.Scheduler.Callers.{
  submit-Inv, cancel-Inv, time_out-Inv, close-Inv, shut_down-Inv,
}
use zzzproject.Fairy.Scheduler.Limits.{run-After}
use zzzproject.Fairy.Scheduler.Actors.{Phase, executing}
use zzzproject.Fairy.Scheduler.System.{
  System, start, Event, submits, acquires, discards, takes, finishes, times_out, cancels, closes,
  shuts_down, step, run,
}

step-Inv : (sys : System) (e : Event) → Inv sys → Inv (step sys e)
step-Inv sys (submits ids claim turn) v = submit-Inv sys ids claim turn v
step-Inv sys (acquires id) v = unfold step in acquire-Inv sys id _ refl v
step-Inv sys (discards id) v = unfold step in discard-Inv sys id _ _ refl refl v
step-Inv sys (takes id) v = unfold step in take_next-Inv sys id _ _ refl refl v
step-Inv sys (finishes id) v = unfold step in finish-Inv sys id _ _ refl refl v
step-Inv sys (times_out id) v = unfold step in time_out-Inv sys id _ refl v
step-Inv sys (cancels id cause) v = cancel-Inv sys id cause _ refl v
step-Inv sys closes v = close-Inv sys v
step-Inv sys shuts_down v = shut_down-Inv sys v

pub run-Inv : (sys : System) (es : List Event) → Inv sys → Inv (run sys es)
unfolding run
run-Inv sys [] v = v
run-Inv sys (e ∷ es) v = run-Inv (step sys e) es (step-Inv sys e v)

reached : (cfg : Config) (es : List Event) → Inv (run (start cfg) es)
reached cfg es = run-Inv (start cfg) es (start-Inv cfg)

-- After any events the pending counter is the number of turns that wait in all queues; it exceeds the
-- global limit by at most the number of queues with a control turn marked, and no conversation's
-- queue is longer than its limit and one.
pub pending_bounds :
    (cfg : Config) (es : List Event)
    → let s = (run (start cfg) es).scheduler in
      (s.pending ≡ total depth s.queues)
      × (s.pending ≤ cfg.max_pending + total control s.queues)
      × ((id : String) (q : ConversationQueue)
          → lookup id s.queues ≡ some q
          → length q.items ≤ cfg.max_conversation_pending + 1)
unfolding start new_scheduler
pending_bounds cfg es =
    let c = (reached cfg es).counted in
    let a = run-After (start cfg) es in
    (
      c.pending,
      omega (arith, c.bounded, a.max_pending),
      λ id q e. ground (arith, c.within id, a.max_conversation_pending),
    )

abbrev runs_turn : Phase → ℕ
runs_turn executing = 1
runs_turn _ = 0

runs-le-holds : (m : Map Phase) → total runs_turn m ≤ total holds_slot m
runs-le-holds [] = omega arith
runs-le-holds ((k, p) ∷ m) = ground (arith, runs-le-holds m)

-- After any events no conversation has two actors, a turn is current in a conversation just while
-- its one actor runs it, every queue that waits has an actor to serve it, and the turns that run at
-- once number at most `max_concurrent`.
pub one_turn_each :
    (cfg : Config) (es : List Event)
    → let sys = run (start cfg) es in
      Unique sys.actors
      × ((id : String) (q : ConversationQueue)
          → lookup id sys.scheduler.queues ≡ some q
          → (lookup id sys.actors ≢ none)
            × (is_some q.current ≡ true → lookup id sys.actors ≡ some executing)
            × (lookup id sys.actors ≡ some executing → is_some q.current ≡ true))
      × (total runs_turn sys.actors ≤ cfg.max_concurrent)
unfolding start new_scheduler
one_turn_each cfg es =
    let v = (reached cfg es).staffed in
    let a = run-After (start cfg) es in
    let sys = run (start cfg) es in
    (
      v.unique,
      λ id q e. (
        λ n. ground (arith, v.paired id),
        λ c. ground (arith, v.paired id),
        λ r. ground (arith, v.paired id),
      ),
      omega (arith, runs-le-holds sys.actors, v.active, v.slots, a.max_concurrent),
    )

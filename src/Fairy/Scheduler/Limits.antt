-- ===== src/Fairy/Scheduler/Limits.antt =====
-- The limits never change, and a scheduler that is closed stays closed.
use zzzproject.Base.{
  ℕ, String, ◌≡◌, refl, sym, subst, ◌∙◌, ◌≢◌, inl, inr, true, false, Option, none, some, List, [],
  ◌∷◌, arith, Map, is_some, lookup, ok, Bool-cases,
}
use zzzproject.Fairy.Scheduler.{
  ScheduledTurn, Cause, ConversationQueue, Scheduler, Claim, submit, admit, cancel, close_admission,
  drop_queue, finish,
}
use zzzproject.Fairy.Scheduler.Admission.{submit_cases}
use zzzproject.Fairy.Scheduler.Counts.{NextTurn-cases}
use zzzproject.Fairy.Scheduler.Callers.{Refused-same}
use zzzproject.Fairy.Scheduler.Actors.{Phase, waiting, ready, executing}
use zzzproject.Fairy.Scheduler.System.{
  System, Event, submits, acquires, discards, takes, finishes, times_out, cancels, closes,
  shuts_down, acquire, discard, take_next, finish_turn, time_out, end_lifecycle, step, run,
}

-- `s'` may come after `s`.
pub record After (s s' : Scheduler) : Type 0 where
  pub max_pending : s'.max_pending ≡ s.max_pending
  pub max_conversation_pending : s'.max_conversation_pending ≡ s.max_conversation_pending
  pub max_concurrent : s'.max_concurrent ≡ s.max_concurrent
  pub closed : s.accepting ≡ false → s'.accepting ≡ false

After-refl : (s : Scheduler) → After s s
After-refl s = record {
  max_pending = refl;
  max_conversation_pending = refl;
  max_concurrent = refl;
  closed = λ h. h;
}

-- A change of the queues and the counters only.
After-fields :
    (s : Scheduler) (qs : Map ConversationQueue) (p a : ℕ)
    → After s (record s { queues = qs; pending = p; active = a })
After-fields s qs p a = record {
  max_pending = refl;
  max_conversation_pending = refl;
  max_concurrent = refl;
  closed = λ h. h;
}

After-trans : {s t u : Scheduler} → After s t → After t u → After s u
After-trans a b = record {
  max_pending = b.max_pending ∙ a.max_pending;
  max_conversation_pending = b.max_conversation_pending ∙ a.max_conversation_pending;
  max_concurrent = b.max_concurrent ∙ a.max_concurrent;
  closed = λ h. b.closed (a.closed h);
}

submit-After :
    (sys : System) (ids : Option (String × String)) (claim : Claim) (turn : ScheduledTurn)
    → After sys.scheduler (step sys (submits ids claim turn)).scheduler
unfolding step
submit-After sys ids claim turn = elim (submit_cases ids claim sys.scheduler turn) [
  | inl (r, barred) ↦
      subst (λ (t : System). After sys.scheduler t.scheduler)
        (sym (Refused-same sys turn.conversation_id _ r)) (After-refl sys.scheduler)
  | inr (t, a) ↦ rw a.0 (unfold admit in After-fields sys.scheduler _ _ _)
]

acquire-After :
    (sys : System) (id : String) (p : Option Phase)
    → After sys.scheduler (acquire sys id p).scheduler
unfolding acquire
acquire-After sys id (some waiting) = record {
  max_pending = ground arith;
  max_conversation_pending = ground arith;
  max_concurrent = ground arith;
  closed = λ h. ground arith;
}
acquire-After sys id _ = After-refl sys.scheduler

discard-After :
    (sys : System) (id : String) (p : Option Phase) (o : Option ConversationQueue)
    → After sys.scheduler (discard sys id p o).scheduler
unfolding discard drop_queue
discard-After sys id (some waiting) (some q) = record {
  max_pending = ground arith;
  max_conversation_pending = ground arith;
  max_concurrent = ground arith;
  closed = λ h. ground arith;
}
discard-After sys id _ _ = After-refl sys.scheduler

take_next-After :
    (sys : System) (id : String) (p : Option Phase) (o : Option ConversationQueue)
    → After sys.scheduler (take_next sys id p o).scheduler
unfolding take_next
take_next-After sys id (some ready) (some q) = elim (NextTurn-cases sys.scheduler id q) [
  | inl d ↦ rw d.0 (unfold drop_queue in After-fields sys.scheduler _ _ _)
  | inr (t, ts, live, ei, r) ↦ rw r (After-fields sys.scheduler _ _ _)
]
take_next-After sys id _ _ = After-refl sys.scheduler

finish-After :
    (sys : System) (id : String) (p : Option Phase) (o : Option ConversationQueue)
    → After sys.scheduler (finish_turn sys id p o).scheduler
unfolding finish_turn finish
finish-After sys id (some executing) (some q) = After-fields sys.scheduler _ _ _
finish-After sys id _ _ = After-refl sys.scheduler

time_out-After :
    (s : Scheduler) (id : String) (o : Option ConversationQueue) → After s (time_out s id o)
unfolding time_out
time_out-After s id none = After-refl s
time_out-After s id (some q) = After-fields s _ _ _

cancel-After :
    (s : Scheduler) (id : String) (cause : Option Cause) (o : Option ConversationQueue)
    → lookup id s.queues ≡ o
    → After s (cancel s id cause).0
unfolding cancel
cancel-After s id cause none e = rw (e, cancel) (After-refl s)
cancel-After s id cause (some q) e = elim (Bool-cases (is_some q.current)) [
  | inl busy ↦ rw (e, cancel, busy) (After-fields s _ _ _)
  | inr idle ↦ rw (e, cancel, idle) (After-refl s)
]

closed-After : (s : Scheduler) → After s (close_admission s)
unfolding close_admission
closed-After s = record {
  max_pending = refl;
  max_conversation_pending = refl;
  max_concurrent = refl;
  closed = λ h. refl;
}

ended-After : (s : Scheduler) → After s (end_lifecycle s)
unfolding end_lifecycle
ended-After s = elim (Bool-cases (is_some s.lifecycle)) [
  | inl over ↦ rw over (After-refl s)
  | inr live ↦ rw live (record {
    max_pending = refl;
    max_conversation_pending = refl;
    max_concurrent = refl;
    closed = λ h. h;
  })
]

step-After : (sys : System) (e : Event) → After sys.scheduler (step sys e).scheduler
step-After sys (submits ids claim turn) = submit-After sys ids claim turn
step-After sys (acquires id) = unfold step in acquire-After sys id _
step-After sys (discards id) = unfold step in discard-After sys id _ _
step-After sys (takes id) = unfold step in take_next-After sys id _ _
step-After sys (finishes id) = unfold step in finish-After sys id _ _
step-After sys (times_out id) = unfold step in time_out-After sys.scheduler id _
step-After sys (cancels id cause) = unfold step in cancel-After sys.scheduler id cause _ refl
step-After sys closes = unfold step in closed-After sys.scheduler
step-After sys shuts_down =
    unfold step in
    After-trans (closed-After sys.scheduler) (ended-After (close_admission sys.scheduler))

pub run-After : (sys : System) (es : List Event) → After sys.scheduler (run sys es).scheduler
unfolding run
run-After sys [] = After-refl sys.scheduler
run-After sys (e ∷ es) = After-trans (step-After sys e) (run-After (step sys e) es)

shut_down_closes : (sys : System) → (step sys shuts_down).scheduler.accepting ≡ false
unfolding step close_admission
shut_down_closes sys = (ended-After (record sys.scheduler { accepting = false })).closed refl

closed_refuses :
    (s : Scheduler) (ids : Option (String × String)) (claim : Claim) (turn : ScheduledTurn)
    → s.accepting ≡ false
    → (submit ids claim s turn).1 ≢ ok true
closed_refuses s ids claim turn shut taken = elim (submit_cases ids claim s turn) [
  | inl (r, barred) ↦ r.1 taken
  | inr (t, a) ↦ cc (shut, a.2.open_for)
]

-- Once admission has been closed, by CloseAdmission or by Shutdown, no later Submit takes a turn,
-- whatever happened in between.
pub submit-closed :
    (sys : System) (es : List Event) (ids : Option (String × String)) (claim : Claim)
    (turn : ScheduledTurn)
    → ((submit ids claim (run (step sys closes) es).scheduler turn).1 ≢ ok true)
      × ((submit ids claim (run (step sys shuts_down) es).scheduler turn).1 ≢ ok true)
submit-closed sys es ids claim turn = (
  closed_refuses _ ids claim turn
      ((run-After (step sys closes) es).closed (unfold step close_admission in refl)),
  closed_refuses _ ids claim turn
      ((run-After (step sys shuts_down) es).closed (shut_down_closes sys)),
)

-- ===== src/Fairy/Scheduler/Admission.antt =====
-- What Submit may answer, and what it leaves behind.
use zzzproject.Base.{
  ◌<◌, String, ◌≡◌, ◌≢◌, refl, ap, ◌⊎◌, inl, inr, Bool, true, false, not, ◌||◌, Option, none, some,
  arith, lookup, Result, ok, ◌==◌, Bool-cases,
}
use zzzproject.Fairy.Scheduler.{
  ScheduledTurn, Scheduler, SubmitError, Claim, claimed, may_bypass, depth_of, admit, submit,
  submit_locked,
}

-- The conditions under which a turn enters its queue: the scheduler accepts turns, both limits leave
-- room or the turn may pass them, and its event was claimed now or may be taken more than once.
pub record Admissible (claim : Claim) (s : Scheduler) (t : ScheduledTurn) : Type 0 where
  pub open_for : s.accepting ≡ true
  pub room : (s.pending < s.max_pending) ⊎ (may_bypass t (lookup t.conversation_id s.queues) ≡ true)
  pub conversation_room :
      (depth_of (lookup t.conversation_id s.queues) < s.max_conversation_pending)
      ⊎ (may_bypass t (lookup t.conversation_id s.queues) ≡ true)
  pub ingress : (t.retryable ≡ true) ⊎ (claim ≡ claimed)

-- The turn with the identifiers that Submit gives it.
pub record SameTurn (turn t : ScheduledTurn) : Type 0 where
  pub conversation : t.conversation_id ≡ turn.conversation_id
  pub priority : t.priority ≡ turn.priority
  pub source : t.source ≡ turn.source
  pub event : t.event_id ≡ turn.event_id
  pub retryable : t.retryable ≡ turn.retryable
  pub run : t.has_run ≡ turn.has_run

abbrev pub Complete : ScheduledTurn → Type 0
Complete turn =
    ((turn.source == "") ≡ false)
    × ((turn.event_id == "") ≡ false)
    × ((turn.conversation_id == "") ≡ false)
    × (turn.has_run ≡ true)

abbrev pub Refused : Scheduler × Result SubmitError Bool → Scheduler → Type 0
Refused r s = (r.0 ≡ s) × (r.1 ≢ ok true)

-- A turn that lacks its source, its event, its conversation or something to run.
abbrev pub is_invalid : ScheduledTurn → Bool
is_invalid turn =
    turn.source == "" || (turn.event_id == "" || (turn.conversation_id == "" || not turn.has_run))

-- The turn with the identifiers that it would have got could not enter its queue.
abbrev pub Barred : Option (String × String) → Claim → Scheduler → ScheduledTurn → Type 0
Barred none claim s turn = Unit
Barred (some (trace, id)) claim s turn =
    (is_invalid turn ≡ true)
    ⊎ (Admissible claim s (record turn { trace_id = trace; turn_id = id }) → ⊥)

-- The turn is complete, it has got the two identifiers, and it is in its conversation's queue.
abbrev pub Admitted :
    Scheduler × Result SubmitError Bool
    → Option (String × String)
    → Claim
    → Scheduler
    → ScheduledTurn
    → ScheduledTurn
    → Type 0
Admitted r ids claim s turn t =
    (r ≡ (admit s t, ok true))
    × SameTurn turn t
    × Admissible claim s t
    × (ids ≡ some (t.trace_id, t.turn_id))
    × Complete turn

submit_locked_cases :
    (claim : Claim) (s : Scheduler) (t : ScheduledTurn)
    → Refused (submit_locked claim s t) s
      ⊎ ((submit_locked claim s t ≡ (admit s t, ok true)) × Admissible claim s t)
unfolding submit_locked
submit_locked_cases claim s t = ground arith

-- Nothing else keeps a turn out.
submit_locked_takes :
    (claim : Claim) (s : Scheduler) (t : ScheduledTurn)
    → Admissible claim s t
    → submit_locked claim s t ≡ (admit s t, ok true)
unfolding submit_locked
submit_locked_takes claim s t a = ground (arith, a.open_for, a.room, a.conversation_room, a.ingress)

is_invalid-Complete : (turn : ScheduledTurn) → is_invalid turn ≡ false → Complete turn
is_invalid-Complete turn h = (ground arith, ground arith, ground arith, ground arith)

-- Submit either leaves the scheduler as it was and does not say that it took the turn, and then the
-- turn is incomplete, could not get its identifiers or is not admissible, or it says so, and then the
-- turn names its source, event and conversation and has something to run, the scheduler was
-- accepting, there was room (or a control turn's right to pass the limits), the event was claimed now
-- (unless the turn is a retry), and exactly this turn, under the two identifiers, has been put in its
-- conversation's queue.
pub submit_cases :
    (ids : Option (String × String)) (claim : Claim) (s : Scheduler) (turn : ScheduledTurn)
    → (Refused (submit ids claim s turn) s × Barred ids claim s turn)
      ⊎ ((t : ScheduledTurn) × Admitted (submit ids claim s turn) ids claim s turn t)
unfolding submit
submit_cases none claim s turn = inl ((ground arith, ground arith), tt)
submit_cases (some (trace, id)) claim s turn =
    let t = record turn { trace_id = trace; turn_id = id } in
    let same' : SameTurn turn t = record {
      conversation = refl;
      priority = refl;
      source = refl;
      event = refl;
      retryable = refl;
      run = refl;
    } in
    elim (Bool-cases (is_invalid turn)) [
      | inl missing ↦ inl ((rw missing refl, rw missing (λ e. cc)), inl missing)
      | inr given ↦ elim (submit_locked_cases claim s t) [
        | inl r ↦ inl (
          rw given r,
          inr (λ a. r.1 (
              ap (λ (x : Scheduler × Result SubmitError Bool). x.1)
                (submit_locked_takes claim s t a))),
        )
        | inr a ↦ inr (t, (rw given a.0, same', a.1, refl, is_invalid-Complete turn given))
      ]
    ]

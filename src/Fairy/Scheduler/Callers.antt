-- ===== src/Fairy/Scheduler/Callers.antt =====
-- The steps that callers and contexts make.
use zzzproject.Base.{
  String, ◌≡◌, refl, sym, subst, ◌∙◌, inl, inr, Bool, true, false, Option, none, some, arith,
  Bool-cases, is_some, Map, lookup, insert, map_values, lookup-map_values, insert-Unique,
  total-insert, Result, ok, err,
}
use zzzproject.Fairy.Scheduler.{
  ScheduledTurn, Cause, shutting_down, Running, ConversationQueue, Scheduler, SubmitError, Claim,
  queue_or_new, enqueue, admit, cancel, cancel_current, close_admission,
}
use zzzproject.Fairy.Scheduler.Admission.{Refused, submit_cases}
use zzzproject.Fairy.Scheduler.Counts.{admit-Counted, put_queue-Counted, map_values-Counted}
use zzzproject.Fairy.Scheduler.Invariant.{
  Inv, Paired, Staffed, holds_slot, Counted-fields, Paired-both, Paired-queue,
}
use zzzproject.Fairy.Scheduler.Actors.{Phase, waiting, start-insert}
use zzzproject.Fairy.Scheduler.System.{
  System, submits, cancels, closes, shuts_down, after_submit, spawn, end_current, time_out,
  end_lifecycle, step,
}

-- A cancelled turn is still current until its actor finishes it.
is_some-cancel_current : (c : Cause) (o : Option Running) → is_some (cancel_current c o) ≡ is_some o
is_some-cancel_current c none = refl
is_some-cancel_current c (some r) = refl

pub Refused-same :
    (sys : System) (id : String) (r : Scheduler × Result SubmitError Bool)
    → Refused r sys.scheduler
    → after_submit sys id r ≡ sys
Refused-same sys id (s, ok true) h = absurd (h.1 refl)
Refused-same sys id (s, ok false) h = λ i. record sys { scheduler = h.0 i }
Refused-same sys id (s, err e) h = λ i. record sys { scheduler = h.0 i }

Paired-enqueue_new :
    (t : ScheduledTurn) → Paired (some waiting) (some (enqueue t (queue_or_new none)))
unfolding enqueue
Paired-enqueue_new t = (ground arith, ground arith)

running-enqueue : (t : ScheduledTurn) (q : ConversationQueue) → (enqueue t q).running ≡ true
unfolding enqueue
running-enqueue t q = ground arith

is_some-enqueue :
    (t : ScheduledTurn) (q : ConversationQueue) → is_some (enqueue t q).current ≡ is_some q.current
unfolding enqueue
is_some-enqueue t q = ground arith

spawned-Staffed :
    (sys : System) (t : ScheduledTurn) (p : Option Phase) (o : Option ConversationQueue)
    → lookup t.conversation_id sys.actors ≡ p
    → lookup t.conversation_id sys.scheduler.queues ≡ o
    → Staffed sys
    → Staffed (spawn sys t.conversation_id (admit sys.scheduler t))
unfolding admit
spawned-Staffed sys t none none ea eo v =
    let id = t.conversation_id in
    rw (eo, start-insert id waiting sys.actors ea)
      (record {
        unique = insert-Unique id waiting sys.actors v.unique;
        paired =
            Paired-both sys.actors sys.scheduler.queues id waiting _ v.paired
              (Paired-enqueue_new t);
        active = ground (arith, v.active, total-insert holds_slot id waiting sys.actors);
        slots = v.slots;
      })
spawned-Staffed sys t none (some q) ea eo v = absurd (ground (arith, v.paired t.conversation_id))
spawned-Staffed sys t (some p) none ea eo v = absurd (ground (arith, v.paired t.conversation_id))
spawned-Staffed sys t (some p) (some q) ea eo v =
    let id = t.conversation_id in
    let running : q.running ≡ true = ground (arith, v.paired id) in
    simp (eo, running)
      (record {
        unique = v.unique;
        paired =
            Paired-queue sys.actors sys.scheduler.queues id q (enqueue t q) v.paired eo
              (running-enqueue t q ∙ sym running) (is_some-enqueue t q);
        active = v.active;
        slots = v.slots;
      })

pub submit-Inv :
    (sys : System) (ids : Option (String × String)) (claim : Claim) (turn : ScheduledTurn)
    → Inv sys
    → Inv (step sys (submits ids claim turn))
unfolding step
submit-Inv sys ids claim turn v = elim (submit_cases ids claim sys.scheduler turn) [
  | inl (r, barred) ↦ subst Inv (sym (Refused-same sys turn.conversation_id _ r)) v
  | inr (t, a) ↦
      rw (a.0, ← a.1.conversation)
        (record {
          counted = admit-Counted sys.scheduler t claim v.counted a.2;
          staffed = spawned-Staffed sys t _ _ refl refl v.staffed;
        })
]

end_current-Inv :
    (sys : System) (id : String) (q : ConversationQueue) (c : Cause)
    → lookup id sys.scheduler.queues ≡ some q
    → Inv sys
    → Inv (record sys {
      scheduler = record sys.scheduler {
        queues = insert id (end_current c q) sys.scheduler.queues;
      };
    })
end_current-Inv sys id q c e v = record {
  counted = put_queue-Counted sys.scheduler id q (end_current c q) v.counted e refl refl;
  staffed = record {
    unique = v.staffed.unique;
    paired =
        Paired-queue sys.actors sys.scheduler.queues id q (end_current c q) v.staffed.paired e refl
          (is_some-cancel_current c q.current);
    active = v.staffed.active;
    slots = v.staffed.slots;
  };
}

pub cancel-Inv :
    (sys : System) (id : String) (cause : Option Cause) (o : Option ConversationQueue)
    → lookup id sys.scheduler.queues ≡ o
    → Inv sys
    → Inv (step sys (cancels id cause))
unfolding step cancel
cancel-Inv sys id cause none e v = rw (e, cancel) v
cancel-Inv sys id cause (some q) e v = elim (Bool-cases (is_some q.current)) [
  | inl busy ↦ rw (e, cancel, busy) (end_current-Inv sys id q _ e v)
  | inr idle ↦ rw (e, cancel, idle) v
]

pub time_out-Inv :
    (sys : System) (id : String) (o : Option ConversationQueue)
    → lookup id sys.scheduler.queues ≡ o
    → Inv sys
    → Inv (record sys { scheduler = time_out sys.scheduler id o })
unfolding time_out
time_out-Inv sys id none e v = v
time_out-Inv sys id (some q) e v = end_current-Inv sys id q _ e v

pub close-Inv : (sys : System) → Inv sys → Inv (step sys closes)
unfolding step close_admission
close-Inv sys v = record {
  counted =
      Counted-fields sys.scheduler false sys.scheduler.active sys.scheduler.lifecycle v.counted;
  staffed = record {
    unique = v.staffed.unique;
    paired = v.staffed.paired;
    active = v.staffed.active;
    slots = v.staffed.slots;
  };
}

Paired-map_values :
    (actors : Map Phase) (queues : Map ConversationQueue) (c : Cause) (id : String)
    (p : Option Phase) (o : Option ConversationQueue)
    → lookup id queues ≡ o
    → Paired p o
    → Paired p (lookup id (map_values (end_current c) queues))
Paired-map_values actors queues c id none none e h =
    rw (lookup-map_values (end_current c) id queues, e) tt
Paired-map_values actors queues c id none (some q) e h = absurd h
Paired-map_values actors queues c id (some p) none e h = absurd h
Paired-map_values actors queues c id (some p) (some q) e h =
    rw (lookup-map_values (end_current c) id queues, e)
      (h.0, is_some-cancel_current c q.current ∙ h.1)

ended-Inv : (sys : System) → Inv sys → Inv (record sys { scheduler = end_lifecycle sys.scheduler })
unfolding end_lifecycle
ended-Inv sys v = elim (Bool-cases (is_some sys.scheduler.lifecycle)) [
  | inl over ↦ rw over v
  | inr live ↦
      let s = sys.scheduler in
      let queues = map_values (end_current shutting_down) s.queues in
      let s' = record s { queues = queues } in
      rw live (record {
        counted =
            Counted-fields s' s.accepting s.active (some shutting_down)
              (map_values-Counted s (end_current shutting_down) (λ q. refl) (λ q. refl) v.counted);
        staffed = record {
          unique = v.staffed.unique;
          paired = λ j.
              Paired-map_values sys.actors s.queues shutting_down j (lookup j sys.actors) _ refl
                (v.staffed.paired j);
          active = v.staffed.active;
          slots = v.staffed.slots;
        };
      })
]

pub shut_down-Inv : (sys : System) → Inv sys → Inv (step sys shuts_down)
unfolding step
shut_down-Inv sys v =
    ended-Inv (record sys { scheduler = close_admission sys.scheduler })
      (unfold step in close-Inv sys v)

-- ===== src/Fairy/Scheduler/Invariant.antt =====
-- The invariant of the scheduler and its actors, after any events.
use zzzproject.Base.{
  ℕ, ◌+◌, ◌-◌, ◌≤◌, String, ◌≡◌, refl, inl, inr, Bool, true, false, Option, none, some, List, ◌∷◌,
  arith, Bool-cases, ltb, is_some, eq_iff, Map, lookup, insert, remove, lookup-insert,
  lookup-remove, Unique, total, insert-Unique, remove-Unique, total-insert, total-remove,
}
use zzzproject.Fairy.Scheduler.{
  ScheduledTurn, Cause, ConversationQueue, Scheduler, Config, drop_queue, finish,
}
use zzzproject.Fairy.Scheduler.Counts.{
  Counted, popped, NextTurn-cases, drop_queue-Counted, put_queue-Counted, popped-Counted,
}
use zzzproject.Fairy.Scheduler.Actors.{
  Phase, waiting, ready, executing, at_phase, at_phase-lookup, move-insert, leave-remove,
}
use zzzproject.Fairy.Scheduler.System.{
  System, start, acquire, discard, take_next, finish_turn, after_next,
}

abbrev pub holds_slot : Phase → ℕ
holds_slot waiting = 0
holds_slot ready = 1
holds_slot executing = 1

abbrev pub is_executing : Phase → Bool
is_executing executing = true
is_executing _ = false

-- An actor has a queue and a queue has an actor; a turn is current just while the actor runs it.
abbrev pub Paired : Option Phase → Option ConversationQueue → Type 0
Paired none none = Unit
Paired none (some q) = ⊥
Paired (some p) none = ⊥
Paired (some p) (some q) = (q.running ≡ true) × (is_some q.current ≡ is_executing p)

-- The part about the actors.
pub record Staffed (sys : System) : Type 0 where
  pub unique : Unique sys.actors
  pub paired : (id : String) → Paired (lookup id sys.actors) (lookup id sys.scheduler.queues)
  pub active : sys.scheduler.active ≡ total holds_slot sys.actors
  pub slots : sys.scheduler.active ≤ sys.scheduler.max_concurrent

pub record Inv (sys : System) : Type 0 where
  pub counted : Counted sys.scheduler
  pub staffed : Staffed sys

-- Changing a conversation's queue and its actor together keeps the pairing of all.
pub Paired-both :
    (actors : Map Phase) (queues : Map ConversationQueue) (id : String) (p : Phase)
    (q : ConversationQueue)
    → ((j : String) → Paired (lookup j actors) (lookup j queues))
    → Paired (some p) (some q)
    → (j : String) → Paired (lookup j (insert id p actors)) (lookup j (insert id q queues))
Paired-both actors queues id p q h hp j =
    rw (lookup-insert id j p actors, lookup-insert id j q queues) (ground (arith, h j))

Paired-none :
    (actors : Map Phase) (queues : Map ConversationQueue) (id : String)
    → ((j : String) → Paired (lookup j actors) (lookup j queues))
    → (j : String) → Paired (lookup j (remove id actors)) (lookup j (remove id queues))
Paired-none actors queues id h j =
    rw (lookup-remove id j actors, lookup-remove id j queues) (ground (arith, h j))

pub start-Inv : (cfg : Config) → Inv (start cfg)
unfolding start lookup
start-Inv cfg = record {
  counted = record { unique = tt; within = λ j. tt; pending = refl; bounded = omega arith };
  staffed = record { unique = tt; paired = λ j. tt; active = refl; slots = omega arith };
}

Paired-actor :
    (actors : Map Phase) (queues : Map ConversationQueue) (id : String) (p p' : Phase)
    → ((j : String) → Paired (lookup j actors) (lookup j queues))
    → lookup id actors ≡ some p
    → is_executing p' ≡ is_executing p
    → (j : String) → Paired (lookup j (insert id p' actors)) (lookup j queues)
Paired-actor actors queues id p p' h e same' j =
    rw (lookup-insert id j p' actors) (ground (arith, h j, eq_iff id j))

pub Paired-queue :
    (actors : Map Phase) (queues : Map ConversationQueue) (id : String) (q q' : ConversationQueue)
    → ((j : String) → Paired (lookup j actors) (lookup j queues))
    → lookup id queues ≡ some q
    → q'.running ≡ q.running
    → is_some q'.current ≡ is_some q.current
    → (j : String) → Paired (lookup j actors) (lookup j (insert id q' queues))
Paired-queue actors queues id q q' h e er ec j =
    rw (lookup-insert id j q' queues) (ground (arith, h j, eq_iff id j))

-- The counters do not read the other fields.
pub Counted-fields :
    (s : Scheduler) (b : Bool) (n : ℕ) (l : Option Cause)
    → Counted s
    → Counted (record s { accepting = b; active = n; lifecycle = l })
Counted-fields s b n l c = record {
  unique = c.unique;
  within = c.within;
  pending = c.pending;
  bounded = c.bounded;
}

pub acquire-Inv :
    (sys : System) (id : String) (p : Option Phase)
    → at_phase id waiting sys.actors ≡ p
    → Inv sys
    → Inv (acquire sys id p)
unfolding acquire
acquire-Inv sys id none e v = v
acquire-Inv sys id (some ready) e v = v
acquire-Inv sys id (some executing) e v = v
acquire-Inv sys id (some waiting) e v =
    elim (Bool-cases (ltb sys.scheduler.active sys.scheduler.max_concurrent)) [
      | inr full ↦ rw full v
      | inl room ↦
          rw (room, move-insert id waiting ready _ sys.actors v.staffed.unique e)
            (record {
              counted =
                  Counted-fields sys.scheduler sys.scheduler.accepting (sys.scheduler.active + 1)
                    sys.scheduler.lifecycle v.counted;
              staffed = record {
                unique = insert-Unique id ready sys.actors v.staffed.unique;
                paired =
                    Paired-actor sys.actors sys.scheduler.queues id waiting ready v.staffed.paired
                      (at_phase-lookup id waiting _ sys.actors v.staffed.unique e) refl;
                active = ground (
                  arith,
                  v.staffed.active,
                  total-insert holds_slot id ready sys.actors,
                  at_phase-lookup id waiting _ sys.actors v.staffed.unique e,
                );
                slots = ground arith;
              };
            })
    ]

pub discard-Inv :
    (sys : System) (id : String) (p : Option Phase) (o : Option ConversationQueue)
    → at_phase id waiting sys.actors ≡ p
    → lookup id sys.scheduler.queues ≡ o
    → Inv sys
    → Inv (discard sys id p o)
unfolding discard
discard-Inv sys id (some waiting) (some q) ea eq' v =
    elim (Bool-cases (is_some sys.scheduler.lifecycle)) [
      | inr live ↦ rw live v
      | inl over ↦
          rw (over, leave-remove id waiting _ sys.actors v.staffed.unique ea)
            (record {
              counted = drop_queue-Counted sys.scheduler id q v.counted eq';
              staffed = record {
                unique = remove-Unique id sys.actors v.staffed.unique;
                paired =
                    unfold drop_queue in
                    Paired-none sys.actors sys.scheduler.queues id v.staffed.paired;
                active =
                    unfold drop_queue in
                    ground (
                      arith,
                      v.staffed.active,
                      total-remove holds_slot id sys.actors v.staffed.unique,
                      at_phase-lookup id waiting _ sys.actors v.staffed.unique ea,
                    );
                slots = unfold drop_queue in v.staffed.slots;
              };
            })
    ]
discard-Inv sys id _ _ ea eq' v = v

pub finish-Inv :
    (sys : System) (id : String) (p : Option Phase) (o : Option ConversationQueue)
    → at_phase id executing sys.actors ≡ p
    → lookup id sys.scheduler.queues ≡ o
    → Inv sys
    → Inv (finish_turn sys id p o)
unfolding finish_turn finish
finish-Inv sys id (some executing) (some q) ea eq' v =
    let here = at_phase-lookup id executing _ sys.actors v.staffed.unique ea in
    rw (move-insert id executing ready _ sys.actors v.staffed.unique ea) (record {
      counted = put_queue-Counted sys.scheduler id q _ v.counted eq' refl refl;
      staffed = record {
        unique = insert-Unique id ready sys.actors v.staffed.unique;
        paired =
            Paired-both sys.actors sys.scheduler.queues id ready (record q { current = none })
              v.staffed.paired (ground (arith, v.staffed.paired id, here), refl);
        active =
            ground (arith, v.staffed.active, total-insert holds_slot id ready sys.actors, here);
        slots = v.staffed.slots;
      };
    })
finish-Inv sys id _ _ ea eq' v = v

-- The actor that ends gives back its slot and leaves with its queue.
ended :
    (sys : System) (id : String) (q : ConversationQueue)
    → at_phase id ready sys.actors ≡ some ready
    → lookup id sys.scheduler.queues ≡ some q
    → Inv sys
    → Inv (after_next sys id (drop_queue sys.scheduler id q, none))
ended sys id q ea eq' v =
    let s = drop_queue sys.scheduler id q in
    let here = at_phase-lookup id ready _ sys.actors v.staffed.unique ea in
    rw (leave-remove id ready _ sys.actors v.staffed.unique ea) (record {
      counted =
          Counted-fields s s.accepting (s.active - 1) s.lifecycle
            (drop_queue-Counted sys.scheduler id q v.counted eq');
      staffed = record {
        unique = remove-Unique id sys.actors v.staffed.unique;
        paired =
            unfold drop_queue in Paired-none sys.actors sys.scheduler.queues id v.staffed.paired;
        active =
            unfold drop_queue in
            ground (
              arith,
              v.staffed.active,
              total-remove holds_slot id sys.actors v.staffed.unique,
              here,
            );
        slots = unfold drop_queue in ground (arith, v.staffed.slots);
      };
    })

began :
    (sys : System) (id : String) (q : ConversationQueue) (t : ScheduledTurn)
    (ts : List ScheduledTurn)
    → at_phase id ready sys.actors ≡ some ready
    → lookup id sys.scheduler.queues ≡ some q
    → q.items ≡ t ∷ ts
    → Inv sys
    → Inv (after_next sys id (popped sys.scheduler id q t ts, some t))
began sys id q t ts ea eq' ei v =
    let here = at_phase-lookup id ready _ sys.actors v.staffed.unique ea in
    rw (move-insert id ready executing _ sys.actors v.staffed.unique ea) (record {
      counted = popped-Counted sys.scheduler id q t ts ei v.counted eq';
      staffed = record {
        unique = insert-Unique id executing sys.actors v.staffed.unique;
        paired =
            Paired-both sys.actors sys.scheduler.queues id executing _ v.staffed.paired
              (ground (arith, v.staffed.paired id, here), refl);
        active =
            ground (arith, v.staffed.active, total-insert holds_slot id executing sys.actors, here);
        slots = v.staffed.slots;
      };
    })

pub take_next-Inv :
    (sys : System) (id : String) (p : Option Phase) (o : Option ConversationQueue)
    → at_phase id ready sys.actors ≡ p
    → lookup id sys.scheduler.queues ≡ o
    → Inv sys
    → Inv (take_next sys id p o)
unfolding take_next
take_next-Inv sys id (some ready) (some q) ea eq' v = elim (NextTurn-cases sys.scheduler id q) [
  | inl d ↦ rw d.0 (ended sys id q ea eq' v)
  | inr (t, ts, live, ei, r) ↦ rw r (began sys id q t ts ea eq' ei v)
]
take_next-Inv sys id _ _ ea eq' v = v

-- ===== src/Fairy/Scheduler/Counts.antt =====
-- The counters and the queue limits, kept by each change of one conversation's queue.
use zzzproject.Base.{
  ℕ, ◌+◌, ◌-◌, ◌<◌, ◌≤◌, String, ◌≡◌, refl, ◌⊎◌, inl, inr, true, false, Option, none, some, List,
  [], ◌∷◌, ◌++◌, arith, length, length-append, if◌then◌else◌, Bool-cases, Option-cases, ap, is_some,
  eq_iff, lookup, insert, lookup-insert, lookup-remove, map_values, lookup-map_values, Unique,
  total, of_option, insert-Unique, remove-Unique, map_values-Unique, total-insert, total-remove,
  total-map_values,
}
use zzzproject.Fairy.Scheduler.{
  ScheduledTurn, ConversationQueue, Scheduler, Claim, queue_or_new, enqueue, admit, depth_of,
  may_bypass, drop_queue, next_turn,
}
use zzzproject.Fairy.Scheduler.Admission.{Admissible}

abbrev pub depth : ConversationQueue → ℕ
depth q = length q.items

abbrev pub control : ConversationQueue → ℕ
control q = if q.control_queued then 1 else 0

abbrev pub HeadIsControl : List ScheduledTurn → Type 0
HeadIsControl [] = ⊥
HeadIsControl (t ∷ ts) = t.priority ≡ true

-- A queue holds at most its limit, and one more only while a control turn is marked, which then is
-- its head.
abbrev pub WithinLimit : ℕ → Option ConversationQueue → Type 0
WithinLimit max none = Unit
WithinLimit max (some q) =
    (depth q ≤ max + control q) × (q.control_queued ≡ true → HeadIsControl q.items)

-- The part about the queues.
pub record Counted (s : Scheduler) : Type 0 where
  pub unique : Unique s.queues
  pub within : (id : String) → WithinLimit s.max_conversation_pending (lookup id s.queues)
  pub pending : s.pending ≡ total depth s.queues
  pub bounded : s.pending ≤ s.max_pending + total control s.queues

HeadIsControl-append : (ts us : List ScheduledTurn) → HeadIsControl ts → HeadIsControl (ts ++ us)
HeadIsControl-append [] us h = absurd h
HeadIsControl-append (t ∷ ts) us h = h

depth-enqueue : (t : ScheduledTurn) (q : ConversationQueue) → depth (enqueue t q) ≡ depth q + 1
unfolding enqueue
depth-enqueue t q = ground (arith, length-append q.items (t ∷ []))

-- A turn that passed a limit is a control turn, and its queue is marked from then on only.
control-enqueue_bypass :
    (t : ScheduledTurn) (o : Option ConversationQueue)
    → may_bypass t o ≡ true
    → (of_option control o ≡ 0) × (control (enqueue t (queue_or_new o)) ≡ 1)
unfolding enqueue
control-enqueue_bypass t none h = cc
control-enqueue_bypass t (some q) h = (ground arith, ground arith)

WithinLimit-enqueue :
    (max : ℕ) (t : ScheduledTurn) (o : Option ConversationQueue)
    → WithinLimit max o
    → (depth_of o < max) ⊎ (may_bypass t o ≡ true)
    → WithinLimit max (some (enqueue t (queue_or_new o)))
unfolding enqueue
WithinLimit-enqueue max t none w r = (ground arith, λ h. ground arith)
WithinLimit-enqueue max t (some q) w r = (
  ground (arith, length-append q.items (t ∷ [])),
  λ h. ground (arith, HeadIsControl-append q.items (t ∷ [])),
)

pub admit-Counted :
    (s : Scheduler) (t : ScheduledTurn) (claim : Claim)
    → Counted s
    → Admissible claim s t
    → Counted (admit s t)
unfolding admit
admit-Counted s t claim c a =
    let id = t.conversation_id in
    let old = lookup id s.queues in
    let q = enqueue t (queue_or_new old) in
    record {
      unique = insert-Unique id q s.queues c.unique;
      within = λ j. rw (lookup-insert id j q s.queues) (
          ground (
            arith,
            c.within j,
            WithinLimit-enqueue s.max_conversation_pending t old (c.within id) a.conversation_room,
          ));
      pending =
          ground (
            arith,
            c.pending,
            depth-enqueue t (queue_or_new old),
            total-insert depth id q s.queues,
          );
      bounded = ground (
        arith,
        c.bounded,
        a.room,
        control-enqueue_bypass t old,
        total-insert control id q s.queues,
      );
    }

-- What a step that only ends or shortens the entry of one conversation keeps.
pub drop_queue-Counted :
    (s : Scheduler) (id : String) (q : ConversationQueue)
    → Counted s
    → lookup id s.queues ≡ some q
    → Counted (drop_queue s id q)
unfolding drop_queue
drop_queue-Counted s id q c e = record {
  unique = remove-Unique id s.queues c.unique;
  within = λ j. rw (lookup-remove id j s.queues) (ground (arith, c.within j));
  pending = ground (arith, c.pending, total-remove depth id s.queues c.unique);
  bounded = ground (
    arith,
    c.bounded,
    c.within id,
    total-remove depth id s.queues c.unique,
    total-remove control id s.queues c.unique,
  );
}

-- A queue's running flag and current turn count for nothing.
pub put_queue-Counted :
    (s : Scheduler) (id : String) (q q' : ConversationQueue)
    → Counted s
    → lookup id s.queues ≡ some q
    → q'.items ≡ q.items
    → q'.control_queued ≡ q.control_queued
    → Counted (record s { queues = insert id q' s.queues })
put_queue-Counted s id q q' c e ei ec = record {
  unique = insert-Unique id q' s.queues c.unique;
  within = λ j.
      rw (lookup-insert id j q' s.queues)
        (ground (arith, c.within j, c.within id, eq_iff id j, ei, ec));
  pending = ground (arith, c.pending, ei, total-insert depth id q' s.queues);
  bounded = ground (arith, c.bounded, ec, total-insert control id q' s.queues);
}

-- The scheduler in which `turn`, the head of the queue, has started.
abbrev pub popped :
    Scheduler → String → ConversationQueue → ScheduledTurn → List ScheduledTurn → Scheduler
popped s id q turn rest = record s {
  queues =
      insert id
        (record q {
          items = rest;
          control_queued = if turn.priority then false else q.control_queued;
          current = some (record { turn = turn; cause = none });
        })
        s.queues;
  pending = s.pending - 1;
}

-- What nextTurn does: it ends the actor just when the lifecycle is over or the queue is empty, and
-- else starts the head of the queue.
abbrev pub NextTurn : Scheduler → String → ConversationQueue → Type 0
NextTurn s id q =
    ((next_turn s id q ≡ (drop_queue s id q, none))
      × ((is_some s.lifecycle ≡ true) ⊎ (q.items ≡ [])))
    ⊎ ((turn : ScheduledTurn) × (rest : List ScheduledTurn) × (is_some s.lifecycle ≡ false)
        × (q.items ≡ turn ∷ rest)
        × (next_turn s id q ≡ (popped s id q turn rest, some turn)))

NextTurn-live :
    (s : Scheduler) (id : String) (q : ConversationQueue) (items : List ScheduledTurn)
    → q.items ≡ items
    → is_some s.lifecycle ≡ false
    → NextTurn s id q
unfolding next_turn
NextTurn-live s id q [] e live = inl (ground arith, inr e)
NextTurn-live s id q (t ∷ ts) e live = inr (t, ts, live, e, ground arith)

pub NextTurn-cases : (s : Scheduler) (id : String) (q : ConversationQueue) → NextTurn s id q
unfolding next_turn
NextTurn-cases s id q = elim (Bool-cases (is_some s.lifecycle)) [
  | inl over ↦ inl (rw over refl, inl over)
  | inr live ↦ NextTurn-live s id q q.items refl live
]

pub popped-Counted :
    (s : Scheduler) (id : String) (q : ConversationQueue) (t : ScheduledTurn)
    (ts : List ScheduledTurn)
    → q.items ≡ t ∷ ts
    → Counted s
    → lookup id s.queues ≡ some q
    → Counted (popped s id q t ts)
popped-Counted s id q t ts ei c e =
    let q' = record q {
      items = ts;
      control_queued = if t.priority then false else q.control_queued;
      current = some (record { turn = t; cause = none });
    } in
    record {
      unique = insert-Unique id q' s.queues c.unique;
      within =
          λ j. rw (lookup-insert id j q' s.queues) (ground (arith, c.within j, c.within id, ei));
      pending = ground (arith, c.pending, ei, total-insert depth id q' s.queues);
      bounded = ground (
        arith,
        c.bounded,
        c.pending,
        c.within id,
        ei,
        total-insert control id q' s.queues,
        total-insert depth id q' s.queues,
      );
    }

pub map_values-Counted :
    (s : Scheduler) (f : ConversationQueue → ConversationQueue)
    → ((q : ConversationQueue) → (f q).items ≡ q.items)
    → ((q : ConversationQueue) → (f q).control_queued ≡ q.control_queued)
    → Counted s
    → Counted (record s { queues = map_values f s.queues })
map_values-Counted s f fi fc c = record {
  unique = map_values-Unique f s.queues c.unique;
  within = λ j. rw (lookup-map_values f j s.queues) (elim (Option-cases (lookup j s.queues)) [
    | inl e ↦ rw e tt
    | inr (q, e) ↦
        let w : WithinLimit s.max_conversation_pending (some q) = rw e at (c.within j) in
        rw e (ground (arith, fi q, fc q))
  ]);
  pending = omega (arith, c.pending, total-map_values depth f s.queues (λ q. ap length (fi q)));
  bounded = omega (
    arith,
    c.bounded,
    total-map_values control f s.queues (λ q. ap (λ b. if b then 1 else 0) (fc q)),
  );
}

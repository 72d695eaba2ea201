-- ===== src/Fairy/Scheduler/Order.antt =====
-- The order in which a conversation's turns start.
use zzzproject.Base.{
  ℕ, zero, suc, ◌<◌, String, ◌≡◌, refl, sym, ◌∙◌, ◌≢◌, ◌⊎◌, inl, inr, true, false, Option, none,
  some, List, [], ◌∷◌, ◌++◌, arith, length, is_some, lookup, lookup-insert, lookup-remove, eq_iff,
  if◌then◌else◌, ok,
}
use zzzproject.Fairy.Scheduler.{
  ScheduledTurn, stopped_by_user, Running, ConversationQueue, Scheduler, Claim, submit, admit,
  enqueue, queue_or_new, cancel_current, next_turn, finish, drop_queue,
}
use zzzproject.Fairy.Scheduler.Admission.{SameTurn, submit_cases}
use zzzproject.Fairy.Scheduler.Counts.{popped, NextTurn-cases}

abbrev pub items_of : Option ConversationQueue → List ScheduledTurn
items_of none = []
items_of (some q) = q.items

abbrev pub current_of : Option ConversationQueue → Option Running
current_of none = none
current_of (some q) = q.current

abbrev pub Enters : ScheduledTurn → Option ConversationQueue → Option ConversationQueue → Type 0
Enters t before after =
    ((t.priority ≡ false)
      × (items_of after ≡ items_of before ++ t ∷ [])
      × (current_of after ≡ current_of before))
    ⊎ ((t.priority ≡ true)
        × (items_of after ≡ t ∷ items_of before)
        × (current_of after ≡ cancel_current stopped_by_user (current_of before)))

Enters-enqueue :
    (t : ScheduledTurn) (o : Option ConversationQueue)
    → Enters t o (some (enqueue t (queue_or_new o)))
unfolding enqueue
Enters-enqueue t none = ground arith
Enters-enqueue t (some q) = ground arith

admit_order :
    (s : Scheduler) (t : ScheduledTurn)
    → Enters t (lookup t.conversation_id s.queues) (lookup t.conversation_id (admit s t).queues)
      × ((id : String) → t.conversation_id ≢ id → lookup id (admit s t).queues ≡ lookup id s.queues)
unfolding admit
admit_order s t =
    let c = t.conversation_id in
    let q = enqueue t (queue_or_new (lookup c s.queues)) in
    (
      rw (lookup-insert c c q s.queues, (eq_iff c c).1 refl) (Enters-enqueue t (lookup c s.queues)),
      λ id other. ground (arith, lookup-insert c id q s.queues, eq_iff c id),
    )

-- What an accepted Submit does to its conversation: an ordinary turn goes behind those that wait and
-- leaves the current turn alone; a control turn goes in front of all and tells the current turn's
-- context to stop. Every other conversation's queue is what it was.
pub submit_order :
    (ids : Option (String × String)) (claim : Claim) (s : Scheduler) (turn : ScheduledTurn)
    → (submit ids claim s turn).1 ≡ ok true
    → ((t : ScheduledTurn) × SameTurn turn t
        × Enters t
            (lookup turn.conversation_id s.queues)
            (lookup turn.conversation_id (submit ids claim s turn).0.queues))
      × ((id : String)
          → turn.conversation_id ≢ id
          → lookup id (submit ids claim s turn).0.queues ≡ lookup id s.queues)
submit_order ids claim s turn taken = elim (submit_cases ids claim s turn) [
  | inl (r, barred) ↦ absurd (r.1 taken)
  | inr (t, a) ↦
      let o = admit_order s t in
      (
        (t, a.1, rw (a.0, ← a.1.conversation) o.0),
        λ id other. rw a.0 (o.1 id (λ e. other (sym a.1.conversation ∙ e))),
      )
]

-- `cause := finish()` once the turn has run.
abbrev finish_in : Scheduler → String → Option ConversationQueue → Scheduler
finish_in s id none = s
finish_in s id (some q) = (finish s id q).0

abbrev finished : Scheduler → String → Scheduler
finished s id = finish_in s id (lookup id s.queues)

abbrev go_on :
    (Scheduler → Scheduler × List ScheduledTurn)
    → String
    → Scheduler × Option ScheduledTurn
    → Scheduler × List ScheduledTurn
go_on loop id (s, none) = (s, [])
go_on loop id (s, some t) = ((loop (finished s id)).0, t ∷ (loop (finished s id)).1)

-- The loop of runConversation with no other call in between: the turns in the order in which they
-- start, each finished before the next is taken, until nextTurn ends the actor.
pub drain : ℕ → Scheduler → String → Scheduler × List ScheduledTurn
drain zero s id = (s, [])
drain (suc fuel) s id = elim (lookup id s.queues) [
  | none ↦ (s, [])
  | some q ↦ go_on (λ s'. drain fuel s' id) id (next_turn s id q)
]

abbrev began : ConversationQueue → ScheduledTurn → List ScheduledTurn → ConversationQueue
began q t ts = record q {
  items = ts;
  control_queued = if t.priority then false else q.control_queued;
  current = some (record { turn = t; cause = none });
}

lookup-popped :
    (s : Scheduler) (id : String) (q : ConversationQueue) (t : ScheduledTurn)
    (ts : List ScheduledTurn)
    → lookup id (popped s id q t ts).queues ≡ some (began q t ts)
lookup-popped s id q t ts =
    ground (arith, lookup-insert id id (began q t ts) s.queues, eq_iff id id)

lookup-finished :
    (s : Scheduler) (id : String) (q : ConversationQueue)
    → lookup id s.queues ≡ some q
    → lookup id (finished s id).queues ≡ some (record q { current = none })
unfolding finish
lookup-finished s id q e =
    rw (e, lookup-insert id id (record q { current = none }) s.queues, (eq_iff id id).1 refl) refl

lifecycle-finished : (s : Scheduler) (id : String) → (finished s id).lifecycle ≡ s.lifecycle
unfolding finish
lifecycle-finished s id = ground arith

lookup-dropped :
    (s : Scheduler) (id : String) (q : ConversationQueue)
    → lookup id (drop_queue s id q).queues ≡ none
unfolding drop_queue
lookup-dropped s id q = rw (lookup-remove id id s.queues, (eq_iff id id).1 refl) refl

-- With no other call in between and the lifecycle not over, an actor that is given one round more than
-- its queue is long starts every turn that waits, in the queue's order, and then removes the queue.
pub drain_order :
    (items : List ScheduledTurn) (fuel : ℕ) (s : Scheduler) (id : String) (q : ConversationQueue)
    → lookup id s.queues ≡ some q
    → q.items ≡ items
    → is_some s.lifecycle ≡ false
    → length items < fuel
    → ((drain fuel s id).1 ≡ items) × (lookup id (drain fuel s id).0.queues ≡ none)
unfolding drain
drain_order items zero s id q e ei live h = absurd (omega arith)
drain_order [] (suc fuel) s id q e ei live h = elim (NextTurn-cases s id q) [
  | inl d ↦ rw (e, drain, d.0) (refl, lookup-dropped s id q)
  | inr (t, ts, l, ei', r) ↦ cc (ei, ei')
]
drain_order (t ∷ ts) (suc fuel) s id q e ei live h = elim (NextTurn-cases s id q) [
  | inl (_, inl over) ↦ cc (over, live)
  | inl (_, inr empty) ↦ cc (empty, ei)
  | inr (t', ts', l, ei', r) ↦
      let s' = finished (popped s id q t' ts') id in
      let next =
        drain_order ts fuel s' id (record (began q t' ts') { current = none })
          (lookup-finished _ id _ (lookup-popped s id q t' ts')) (ground arith)
          (rw (lifecycle-finished (popped s id q t' ts') id) live) (omega arith) in
      rw (e, drain, r) (ground (arith, next), ground (arith, next))
]

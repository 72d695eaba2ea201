-- ===== src/Fairy/TurnTests.antt =====
-- Runs of the message gate and of the turn scheduler on concrete inputs, and the theorems about them
-- applied there.
use zzzproject.Base.{
  String, ◌≡◌, refl, ◌≢◌, ◌⊎◌, Bool, true, false, none, some, List, [], ◌∷◌, lookup, Unique, total,
  ok, arith,
}
use zzzproject.Protocol.{Json, text, MessageSegment, Sender, end, field}
use zzzproject.Fairy.State.{GroupState, PersistedState, StateStore}
use zzzproject.Fairy.Text.{Strings}
use zzzproject.Fairy.Gate.{
  BehaviorConfig, ConversationFocus, MessageGate, MessageEvent, focus, evaluate, is_group,
  valid_gate_decision,
}
use zzzproject.Fairy.Gate.Decisions.{evaluate-valid, evaluate-commit}
use zzzproject.Fairy.Gate.Focus.{focus_effect, preflight-keeps_focus}
use zzzproject.Fairy.Gate.SoftTrigger.{Addressed, FocusAllows, soft_trigger_needs}
use zzzproject.Fairy.Scheduler.{ScheduledTurn, Scheduler, Config, claimed, submit}
use zzzproject.Fairy.Scheduler.System.{
  System, start, Event, submits, acquires, takes, times_out, closes, shuts_down, step, run,
}
use zzzproject.Fairy.Scheduler.Admission.{SameTurn, Refused, Barred, Admitted, submit_cases}
use zzzproject.Fairy.Scheduler.Counts.{depth}
use zzzproject.Fairy.Scheduler.Limits.{submit-closed}
use zzzproject.Fairy.Scheduler.Order.{Enters, submit_order, drain, drain_order}
use zzzproject.Fairy.Scheduler.Safety.{pending_bounds, one_turn_each}

-- The gate: a group in which one member holds the focus.
abbrev plain_strings : Strings
plain_strings = record {
  trim_space = λ s. s;
  to_lower = λ s. s;
  fields = λ s. s ∷ [];
  join = λ l sep. sep;
}

abbrev state : StateStore
state = record {
  path = "fairy.json";
  group_default = true;
  soft_default = "on";
  state = record {
    version = 1;
    groups = [];
    context_disabled = [];
    fact_memory_enabled = [];
    quota_date = "";
    quota_calls = 0;
    task_quota_dates = [];
    task_quota_calls = [];
  };
}

abbrev held : ConversationFocus
held = record { sender_id = "ann"; expires_at = 500; last_soft_at = 10 }

abbrev gate : MessageGate
gate = record { user_id = "fairy"; state = some state; focuses = ("group_1", held) ∷ [] }

abbrev behavior : BehaviorConfig
behavior = record {
  group_soft_default = "off";
  focus_ttl = 300;
  soft_cooldown = 50;
  expression_style = "";
}

abbrev said : MessageEvent
said = record {
  post_type = "message";
  message_type = "group";
  message_id = "m1";
  conversation_id = "group_1";
  sender = record { user_id = "ann"; nickname = "Ann"; avatar = "" };
  message = record { type = "text"; fields = field "text" (text "hello") end } ∷ [];
  timestamp = 100;
  local_agent = false;
  fairy_owned = false;
  dynamic_event_audit = false;
}

evaluate-valid_example :
    valid_gate_decision (evaluate plain_strings gate said behavior 100 true).1 ≡ true
evaluate-valid_example = evaluate-valid gate said behavior 100 plain_strings true

evaluate-commit_example :
    (evaluate plain_strings gate said behavior 100 true).1
    ≡ (evaluate plain_strings gate said behavior 100 false).1
evaluate-commit_example = evaluate-commit gate said behavior 100 plain_strings

focus_effect_example :
    ((f : ConversationFocus) × (lookup "group_1" (focus gate said behavior 100).focuses ≡ some f)
      × (f.sender_id ≡ "ann")
      × (f.expires_at ≡ 400))
focus_effect_example = (focus_effect gate said behavior 100 (omega arith)).0

preflight-keeps_focus_example :
    lookup "group_1" (evaluate plain_strings gate said behavior 100 false).0.focuses ≡ some held
unfolding lookup
preflight-keeps_focus_example =
    preflight-keeps_focus gate said behavior 100 plain_strings "group_1" held refl (omega arith)

soft_trigger_needs_example :
    (is_group said ≡ false)
    ⊎ (Addressed plain_strings gate said ⊎ FocusAllows gate said behavior 100)
unfolding evaluate zzzproject.Fairy.Text.message_text zzzproject.Protocol.get_string
    zzzproject.Fairy.Text.command_trigger zzzproject.Fairy.State.group_enabled lookup
    zzzproject.Fairy.State.group_soft_mode
soft_trigger_needs_example = soft_trigger_needs gate said behavior 100 plain_strings true refl

-- The scheduler: one slot, and two turns to a queue.
abbrev config : Config
config = record { max_pending = 3; max_conversation_pending = 2; max_concurrent = 1 }

abbrev turn : String → Bool → ScheduledTurn
turn event priority = record {
  source = "ws";
  event_id = event;
  conversation_id = "c";
  priority = priority;
  retryable = false;
  has_run = true;
  trace_id = "";
  turn_id = "";
}

abbrev submits_turn : String → Bool → Event
submits_turn event priority = submits (some ("trace", "turn")) claimed (turn event priority)

abbrev events : List Event
events =
    submits_turn "e1" false
    ∷ acquires "c"
    ∷ takes "c"
    ∷ submits_turn "e2" false
    ∷ submits_turn "stop" true
    ∷ times_out "c"
    ∷ []

abbrev busy : System
busy = run (start config) events

one_turn_each_example : Unique busy.actors
one_turn_each_example = (one_turn_each config events).0

pending_bounds_example : busy.scheduler.pending ≡ total depth busy.scheduler.queues
pending_bounds_example = (pending_bounds config events).0

submit_cases_example :
    (Refused (submit (some ("t", "u")) claimed busy.scheduler (turn "e3" false)) busy.scheduler
      × Barred (some ("t", "u")) claimed busy.scheduler (turn "e3" false))
    ⊎ ((t : ScheduledTurn) × Admitted
          (submit (some ("t", "u")) claimed busy.scheduler (turn "e3" false))
          (some ("t", "u"))
          claimed
          busy.scheduler
          (turn "e3" false)
          t)
submit_cases_example = submit_cases (some ("t", "u")) claimed busy.scheduler (turn "e3" false)

submit-closed_example :
    ((submit
        (some ("t", "u"))
        claimed
        (run (step busy closes) events).scheduler
        (turn "e3" false)).1
      ≢ ok true)
    × ((submit
          (some ("t", "u"))
          claimed
          (run (step busy shuts_down) events).scheduler
          (turn "e3" false)).1
        ≢ ok true)
submit-closed_example = submit-closed busy events (some ("t", "u")) claimed (turn "e3" false)

abbrev one_waits : Scheduler
one_waits = record {
  accepting = true;
  queues =
      (
        "c",
        record {
          items = turn "e1" false ∷ [];
          running = true;
          control_queued = false;
          current = none;
        },
      )
      ∷ [];
  pending = 1;
  max_pending = 3;
  max_conversation_pending = 2;
  active = 0;
  max_concurrent = 1;
  lifecycle = none;
}

submit_order_example :
    (t : ScheduledTurn) × SameTurn (turn "stop" true) t
    × Enters t
        (lookup "c" one_waits.queues)
        (lookup "c" (submit (some ("t", "u")) claimed one_waits (turn "stop" true)).0.queues)
unfolding submit lookup
submit_order_example = (submit_order (some ("t", "u")) claimed one_waits (turn "stop" true) refl).0

drain_order_example :
    ((drain 2 one_waits "c").1 ≡ turn "e1" false ∷ [])
    × (lookup "c" (drain 2 one_waits "c").0.queues ≡ none)
unfolding lookup
drain_order_example =
    drain_order (turn "e1" false ∷ []) 2 one_waits "c" _ refl refl refl (omega arith)

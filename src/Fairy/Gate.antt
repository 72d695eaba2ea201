-- ===== src/Fairy/Gate.antt =====
-- server/internal/fairy/gate.go: which incoming messages start a turn of the agent.
--
-- Times are nanoseconds from the zero time, so 0 is `time.Time{}`; durations are natural numbers,
-- and a negative one acts as 0 does. The mutex makes the part of Evaluate that reads and writes the
-- focus table one step. Evaluate reads two switches of the state store before, which the model reads
-- from one value of it.
pub mod Decisions
pub mod Focus
pub mod SoftTrigger
use zzzproject.Base.{
  ℕ, ◌+◌, ◌-◌, String, Bool, true, false, not, ◌||◌, ◌&&◌, Option, none, some, List, [], ltb, leb,
  eqb, ◌==◌, starts_with, if◌then◌else◌, Map, lookup, insert, remove, retain,
}
use zzzproject.Protocol.{MessageSegment, Sender}
use zzzproject.Fairy.State.{StateStore, group_enabled, group_soft_mode}
use zzzproject.Fairy.Text.{
  Strings, message_text, summarize_media_inputs, present, command_trigger, normalize_trigger,
  fairy_command,
}

pub record GateDecision : Type 0 where
  pub action : String
  pub reason : String
  pub hard : Bool
  pub shadow : Bool

pub record BehaviorConfig : Type 0 where
  pub group_soft_default : String
  pub focus_ttl : ℕ
  pub soft_cooldown : ℕ
  pub expression_style : String

pub record ConversationFocus : Type 0 where
  pub sender_id : String
  pub expires_at : ℕ
  pub last_soft_at : ℕ

pub record MessageGate : Type 0 where
  pub user_id : String
  pub state : Option StateStore
  pub focuses : Map ConversationFocus

pub record MessageEvent : Type 0 where
  pub post_type : String
  pub message_type : String
  pub message_id : String
  pub conversation_id : String
  pub sender : Sender
  pub message : List MessageSegment
  pub timestamp : ℕ
  pub local_agent : Bool
  pub fairy_owned : Bool
  pub dynamic_event_audit : Bool

unfoldable pub new_message_gate : String → Option StateStore → MessageGate
new_message_gate user_id state = record { user_id = user_id; state = state; focuses = [] }

abbrev pub decide : String → String → Bool → Bool → GateDecision
decide action reason hard shadow = record {
  action = action;
  reason = reason;
  hard = hard;
  shadow = shadow;
}

abbrev with_focuses : MessageGate → Map ConversationFocus → MessageGate
with_focuses g m = record g { focuses = m }

abbrev no_focus : ConversationFocus
no_focus = record { sender_id = ""; expires_at = 0; last_soft_at = 0 }

abbrev focus_or_zero : Option ConversationFocus → ConversationFocus
focus_or_zero none = no_focus
focus_or_zero (some f) = f

abbrev refocus : ConversationFocus → String → ℕ → ConversationFocus
refocus previous sender expires = record {
  sender_id = sender;
  expires_at = expires;
  last_soft_at = if previous.sender_id == sender then previous.last_soft_at else 0;
}

abbrev is_live : ℕ → String → ConversationFocus → Bool
is_live now id f = ltb now f.expires_at

-- The method `focus`: set the conversation's focus, then drop every focus that has run out.
unfoldable pub focus : MessageGate → MessageEvent → BehaviorConfig → ℕ → MessageGate
focus g event behavior now =
    let id = event.conversation_id in
    let next =
      refocus (focus_or_zero (lookup id g.focuses)) event.sender.user_id
        (now + behavior.focus_ttl) in
    if eqb behavior.focus_ttl 0
    then g
    else with_focuses g (retain (is_live now) (insert id next g.focuses))

abbrev commit_focus : MessageGate → MessageEvent → BehaviorConfig → ℕ → Bool → MessageGate
commit_focus g event behavior now commit = if commit then focus g event behavior now else g

-- Evaluate from the lookup of the conversation's focus on.
unfoldable pub evaluate_soft :
    MessageGate
    → MessageEvent
    → BehaviorConfig
    → String
    → ℕ
    → Bool
    → Option ConversationFocus
    → MessageGate × GateDecision
evaluate_soft g event behavior mode now commit none = (
  with_focuses g (remove event.conversation_id g.focuses),
  decide "ignore" "group_no_trigger" false false,
)
evaluate_soft g event behavior mode now commit (some f) =
    if not (ltb now f.expires_at)
    then (
      with_focuses g (remove event.conversation_id g.focuses),
      decide "ignore" "group_no_trigger" false false,
    )
    else if not (f.sender_id == event.sender.user_id)
    then (g, decide "wait" "focus_conflict" false false)
    else if mode == "shadow"
    then (g, decide "wait" "soft_shadow" false true)
    else if ltb 0 behavior.soft_cooldown
        && (not (eqb f.last_soft_at 0) && ltb (now - f.last_soft_at) behavior.soft_cooldown)
    then (g, decide "wait" "soft_cooldown" false false)
    else (
      (if commit
          then with_focuses g (
              insert event.conversation_id
                (record f { last_soft_at = now; expires_at = now + behavior.focus_ttl }) g.focuses)
          else g),
      decide "trigger" "soft_trigger" false false,
    )

abbrev pub state_enabled : Option StateStore → String → Bool
state_enabled none id = false
state_enabled (some s) id = group_enabled s id

abbrev pub soft_mode : Option StateStore → BehaviorConfig → String → String
soft_mode none behavior id = behavior.group_soft_default
soft_mode (some s) behavior id = group_soft_mode s id

abbrev pub is_group : MessageEvent → Bool
is_group event = event.message_type == "group" || starts_with event.conversation_id "group_"

-- Evaluate once the message is known to be a group's. `text` is trimmed.
unfoldable pub evaluate_group :
    Strings
    → MessageGate
    → MessageEvent
    → BehaviorConfig
    → ℕ
    → Bool
    → String
    → Bool
    → MessageGate × GateDecision
unfolding evaluate_soft
evaluate_group strings g event behavior now commit text mentioned =
    let id = event.conversation_id in
    let is_command = not (text == "") && command_trigger strings text in
    let is_management = is_command && (fairy_command strings (normalize_trigger strings text)).2 in
    let mode = soft_mode g.state behavior id in
    if not is_management && not (state_enabled g.state id)
    then (g, decide "ignore" "group_disabled" false false)
    else if is_command
    then (commit_focus g event behavior now commit, decide "trigger" "command" true false)
    else if mentioned
    then (commit_focus g event behavior now commit, decide "trigger" "explicit_mention" true false)
    else if mode == "off"
    then (g, decide "ignore" "soft_disabled" false false)
    else evaluate_soft g event behavior mode now commit (lookup id g.focuses)

unfoldable pub evaluate :
    Strings → MessageGate → MessageEvent → BehaviorConfig → ℕ → Bool → MessageGate × GateDecision
unfolding evaluate_group
evaluate strings g event behavior now commit =
    let found = message_text event.message g.user_id in
    let text = strings.trim_space found.text in
    if event.sender.user_id == "" || (event.conversation_id == "" || event.message_id == "")
    then (g, decide "reject" "invalid_event" false false)
    else if event.sender.user_id == g.user_id
    then (g, decide "ignore" "self_message" false false)
    else if text == "" && not (present (summarize_media_inputs strings event.message))
    then (g, decide "ignore" "empty_text" false false)
    else if is_group event
    then evaluate_group strings g event behavior now commit text found.mentioned
    else (g, decide "trigger" "private_message" true false)

unfoldable pub valid_gate_action : String → Bool
valid_gate_action value =
    value == "trigger" || (value == "wait" || (value == "ignore" || value == "reject"))

is_hard_reason : String → Bool
is_hard_reason r = r == "private_message" || (r == "explicit_mention" || r == "command")

is_ignore_reason : String → Bool
is_ignore_reason r =
    r == "self_message"
    || (r == "empty_text"
        || (r == "group_disabled" || (r == "group_no_trigger" || r == "soft_disabled")))

unfoldable pub valid_gate_reason : String → Bool
unfolding is_hard_reason is_ignore_reason
valid_gate_reason r =
    is_hard_reason r
    || (is_ignore_reason r
        || (r == "invalid_event"
            || (r == "soft_shadow"
                || (r == "soft_trigger" || (r == "soft_cooldown" || r == "focus_conflict")))))

unfoldable pub valid_gate_decision : GateDecision → Bool
unfolding valid_gate_action valid_gate_reason
valid_gate_decision d =
    if not (valid_gate_action d.action) || not (valid_gate_reason d.reason)
    then false
    else if is_hard_reason d.reason
    then d.action == "trigger" && (d.hard && not d.shadow)
    else if d.reason == "soft_trigger"
    then d.action == "trigger" && (not d.hard && not d.shadow)
    else if d.reason == "soft_shadow"
    then d.action == "wait" && (not d.hard && d.shadow)
    else if d.reason == "soft_cooldown" || d.reason == "focus_conflict"
    then d.action == "wait" && (not d.hard && not d.shadow)
    else if is_ignore_reason d.reason
    then d.action == "ignore" && (not d.hard && not d.shadow)
    else if d.reason == "invalid_event"
    then d.action == "reject" && (not d.hard && not d.shadow)
    else false

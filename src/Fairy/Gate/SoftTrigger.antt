-- ===== src/Fairy/Gate/SoftTrigger.antt =====
-- When a message starts a turn.
use zzzproject.Base.{
  ℕ, ◌-◌, ◌<◌, ◌≤◌, String, ◌≡◌, refl, ◌≢◌, ◌⊎◌, Bool, true, false, not, ◌&&◌, Option, none, some,
  arith, ◌==◌, eq_iff, lookup,
}
use zzzproject.Fairy.Text.{Strings, message_text, command_trigger, fairy_command, normalize_trigger}
use zzzproject.Fairy.Gate.{
  BehaviorConfig, ConversationFocus, MessageGate, MessageEvent, evaluate_soft, evaluate_group,
  evaluate, soft_mode, state_enabled, is_group,
}

-- The focus is running, is held by the event's sender, and its cool-down is over.
abbrev pub MayTrigger : MessageEvent → BehaviorConfig → ℕ → Option ConversationFocus → Type 0
MayTrigger event behavior now none = ⊥
MayTrigger event behavior now (some f) =
    (now < f.expires_at)
    × (f.sender_id ≡ event.sender.user_id)
    × ((behavior.soft_cooldown ≡ 0)
        ⊎ ((f.last_soft_at ≡ 0) ⊎ (behavior.soft_cooldown ≤ now - f.last_soft_at)))

abbrev pub text_of : Strings → MessageGate → MessageEvent → String
text_of strings g event = strings.trim_space (message_text event.message g.user_id).text

abbrev pub is_command : Strings → MessageGate → MessageEvent → Bool
is_command strings g event =
    let text = text_of strings g event in not (text == "") && command_trigger strings text

-- The command is one that manages the switches.
abbrev pub is_management : Strings → MessageGate → MessageEvent → Bool
is_management strings g event =
    is_command strings g event
    && (fairy_command strings (normalize_trigger strings (text_of strings g event))).2

-- The message is a command or mentions the user of the gate, and its group is enabled or the command
-- manages the switches.
abbrev pub Addressed : Strings → MessageGate → MessageEvent → Type 0
Addressed strings g event =
    ((is_command strings g event ≡ true)
      ⊎ ((message_text event.message g.user_id).mentioned ≡ true))
    × ((state_enabled g.state event.conversation_id ≡ true)
        ⊎ (is_management strings g event ≡ true))

-- The group is enabled, its mode is neither "off" nor "shadow", and the focus allows it.
abbrev pub FocusAllows : MessageGate → MessageEvent → BehaviorConfig → ℕ → Type 0
FocusAllows g event behavior now =
    (state_enabled g.state event.conversation_id ≡ true)
    × (soft_mode g.state behavior event.conversation_id ≢ "off")
    × (soft_mode g.state behavior event.conversation_id ≢ "shadow")
    × MayTrigger event behavior now (lookup event.conversation_id g.focuses)

abbrev NotTrigger : String → Type 0
NotTrigger action = action ≢ "trigger"

differ : (action : String) → (action == "trigger") ≡ false → NotTrigger action
differ action e p = let q = (eq_iff action "trigger").1 p in cc (e, q)

other_actions : NotTrigger "ignore" × NotTrigger "wait" × NotTrigger "reject"
other_actions = (differ _ refl, differ _ refl, differ _ refl)

module _ (g : MessageGate) (event : MessageEvent) (behavior : BehaviorConfig) (now : ℕ) where
  soft_needs :
      (mode : String) (commit : Bool) (o : Option ConversationFocus)
      → (evaluate_soft g event behavior mode now commit o).1.action ≡ "trigger"
      → (mode ≢ "shadow") × MayTrigger event behavior now o
  unfolding evaluate_soft
  soft_needs mode commit none h = absurd (other_actions.0 h)
  soft_needs mode commit (some f) h = (
    λ m. ground (arith, eq_iff mode "shadow", other_actions),
    (
      ground (arith, other_actions),
      ground (arith, eq_iff f.sender_id event.sender.user_id, other_actions),
      ground (arith, other_actions),
    ),
  )

  abbrev mode_here : String
  mode_here = soft_mode g.state behavior event.conversation_id

  group_needs :
      (strings : Strings) (commit : Bool)
      → (evaluate_group strings g event behavior now commit
          (text_of strings g event)
          (message_text event.message g.user_id).mentioned).1.action
        ≡ "trigger"
      → Addressed strings g event ⊎ FocusAllows g event behavior now
  unfolding evaluate_group
  group_needs strings commit h = ground (
    arith,
    soft_needs mode_here commit (lookup event.conversation_id g.focuses),
    eq_iff mode_here "off",
    other_actions,
  )

  -- Evaluate starts a turn only for a private message, for a group message that is a command or
  -- mentions the gate's user (in an enabled group, or a command that manages the switches), or else
  -- in a group that is enabled, whose mode is neither "off" nor "shadow", for a message by the sender
  -- who holds the conversation's running focus, with the cool-down over.
  pub soft_trigger_needs :
      (strings : Strings) (commit : Bool)
      → (evaluate strings g event behavior now commit).1.action ≡ "trigger"
      → (is_group event ≡ false) ⊎ (Addressed strings g event ⊎ FocusAllows g event behavior now)
  unfolding evaluate
  soft_trigger_needs strings commit h = ground (arith, group_needs strings commit, other_actions)

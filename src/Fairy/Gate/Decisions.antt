-- ===== src/Fairy/Gate/Decisions.antt =====
-- What Evaluate may decide.
use zzzproject.Base.{ℕ, String, ◌≡◌, refl, Bool, true, false, Option, none, some, arith, lookup}
use zzzproject.Fairy.Text.{Strings, message_text}
use zzzproject.Fairy.Gate.{
  BehaviorConfig, ConversationFocus, MessageGate, MessageEvent, decide, soft_mode, evaluate_soft,
  evaluate_group, evaluate, valid_gate_decision,
}

valid_rejected : valid_gate_decision (decide "reject" "invalid_event" false false) ≡ true
unfolding valid_gate_decision
valid_rejected = refl

valid_hard :
    (valid_gate_decision (decide "trigger" "private_message" true false) ≡ true)
    × (valid_gate_decision (decide "trigger" "command" true false) ≡ true)
    × (valid_gate_decision (decide "trigger" "explicit_mention" true false) ≡ true)
unfolding valid_gate_decision
valid_hard = (refl, refl, refl)

valid_ignored :
    (valid_gate_decision (decide "ignore" "self_message" false false) ≡ true)
    × (valid_gate_decision (decide "ignore" "empty_text" false false) ≡ true)
    × (valid_gate_decision (decide "ignore" "group_disabled" false false) ≡ true)
    × (valid_gate_decision (decide "ignore" "soft_disabled" false false) ≡ true)
    × (valid_gate_decision (decide "ignore" "group_no_trigger" false false) ≡ true)
unfolding valid_gate_decision
valid_ignored = (refl, refl, refl, refl, refl)

valid_soft :
    (valid_gate_decision (decide "wait" "focus_conflict" false false) ≡ true)
    × (valid_gate_decision (decide "wait" "soft_shadow" false true) ≡ true)
    × (valid_gate_decision (decide "wait" "soft_cooldown" false false) ≡ true)
    × (valid_gate_decision (decide "trigger" "soft_trigger" false false) ≡ true)
unfolding valid_gate_decision
valid_soft = (refl, refl, refl, refl)

module _ (g : MessageGate) (event : MessageEvent) (behavior : BehaviorConfig) (now : ℕ) where
  evaluate_soft-valid :
      (mode : String) (commit : Bool) (f : Option ConversationFocus)
      → valid_gate_decision (evaluate_soft g event behavior mode now commit f).1 ≡ true
  unfolding evaluate_soft
  evaluate_soft-valid mode commit none = valid_ignored.4
  evaluate_soft-valid mode commit (some f) =
      ground (arith, valid_ignored.4, valid_soft.0, valid_soft.1, valid_soft.2, valid_soft.3)

  evaluate_group-valid :
      (strings : Strings) (commit : Bool) (text : String) (mentioned : Bool)
      → valid_gate_decision (evaluate_group strings g event behavior now commit text mentioned).1
        ≡ true
  unfolding evaluate_group
  evaluate_group-valid strings commit text mentioned =
      let mode = soft_mode g.state behavior event.conversation_id in
      ground (
        arith,
        valid_ignored.2,
        valid_ignored.3,
        valid_hard.1,
        valid_hard.2,
        evaluate_soft-valid mode commit (lookup event.conversation_id g.focuses),
      )

  -- Whatever the message, the configuration and the gate's state, Evaluate's decision passes
  -- validGateDecision: its action and reason are known, and fit one another and the two flags.
  pub evaluate-valid :
      (strings : Strings) (commit : Bool)
      → valid_gate_decision (evaluate strings g event behavior now commit).1 ≡ true
  unfolding evaluate
  evaluate-valid strings commit =
      let found = message_text event.message g.user_id in
      ground (
        arith,
        valid_rejected,
        valid_ignored.0,
        valid_ignored.1,
        valid_hard.0,
        evaluate_group-valid strings commit (strings.trim_space found.text) found.mentioned,
      )

  evaluate_soft-commit :
      (mode : String) (f : Option ConversationFocus)
      → (evaluate_soft g event behavior mode now true f).1
        ≡ (evaluate_soft g event behavior mode now false f).1
  unfolding evaluate_soft
  evaluate_soft-commit mode none = refl
  evaluate_soft-commit mode (some f) = ground arith

  evaluate_group-commit :
      (strings : Strings) (text : String) (mentioned : Bool)
      → (evaluate_group strings g event behavior now true text mentioned).1
        ≡ (evaluate_group strings g event behavior now false text mentioned).1
  unfolding evaluate_group
  evaluate_group-commit strings text mentioned =
      let mode = soft_mode g.state behavior event.conversation_id in
      ground (arith, evaluate_soft-commit mode (lookup event.conversation_id g.focuses))

  -- The preflight, which does not commit, and the commit that follows decide alike on one state.
  pub evaluate-commit :
      (strings : Strings)
      → (evaluate strings g event behavior now true).1
        ≡ (evaluate strings g event behavior now false).1
  unfolding evaluate
  evaluate-commit strings =
      let found = message_text event.message g.user_id in
      ground (arith, evaluate_group-commit strings (strings.trim_space found.text) found.mentioned)

-- ===== src/Fairy/Gate/Focus.antt =====
-- What Evaluate does to the focus table, and how a focus decides what follows.
use zzzproject.Base.{
  ℕ, ◌+◌, ◌<◌, String, ◌≡◌, refl, Bool, false, Option, none, some, arith, eq_iff, lookup, insert,
  lookup-insert, lookup-remove, lookup-retain_kept, lookup-retain_test,
}
use zzzproject.Fairy.Text.{Strings, message_text}
use zzzproject.Fairy.Gate.{
  BehaviorConfig, ConversationFocus, MessageGate, MessageEvent, evaluate_soft, evaluate_group,
  evaluate, focus, soft_mode, refocus, focus_or_zero, is_live,
}

module _ (g : MessageGate) (event : MessageEvent) (behavior : BehaviorConfig) (now : ℕ) where
  -- With a positive time to live, after the method `focus` the message's sender holds the conversation
  -- until the time to live is over, and every focus left in the table is still running.
  pub focus_effect :
      0 < behavior.focus_ttl
      → ((f : ConversationFocus) × (lookup event.conversation_id
              (focus g event behavior now).focuses
            ≡ some f)
          × (f.sender_id ≡ event.sender.user_id)
          × (f.expires_at ≡ now + behavior.focus_ttl))
        × ((id : String) (f : ConversationFocus)
            → lookup id (focus g event behavior now).focuses ≡ some f
            → now < f.expires_at)
  unfolding focus
  focus_effect h =
      let id = event.conversation_id in
      let next =
        refocus (focus_or_zero (lookup id g.focuses)) event.sender.user_id
          (now + behavior.focus_ttl) in
      let table = insert id next g.focuses in
      (
        (
          next,
          ground (
            arith,
            lookup-retain_kept (is_live now) id table {v = next},
            lookup-insert id id next g.focuses,
            eq_iff id id,
          ),
          refl,
          refl,
        ),
        λ j f e. ground (arith, lookup-retain_test (is_live now) j table {v = f}),
      )

  keeps_soft :
      (mode : String) (id : String) (f : ConversationFocus) (o : Option ConversationFocus)
      → lookup event.conversation_id g.focuses ≡ o
      → lookup id g.focuses ≡ some f
      → now < f.expires_at
      → lookup id (evaluate_soft g event behavior mode now false o).0.focuses ≡ some f
  unfolding evaluate_soft
  keeps_soft mode id f none e h live =
      ground
        (arith, lookup-remove event.conversation_id id g.focuses, eq_iff event.conversation_id id)
  keeps_soft mode id f (some f') e h live =
      ground
        (arith, lookup-remove event.conversation_id id g.focuses, eq_iff event.conversation_id id)

  keeps_group :
      (strings : Strings) (text : String) (mentioned : Bool) (id : String) (f : ConversationFocus)
      → lookup id g.focuses ≡ some f
      → now < f.expires_at
      → lookup id (evaluate_group strings g event behavior now false text mentioned).0.focuses
        ≡ some f
  unfolding evaluate_group
  keeps_group strings text mentioned id f h live =
      let mode = soft_mode g.state behavior event.conversation_id in
      ground (arith, keeps_soft mode id f (lookup event.conversation_id g.focuses) refl h live)

  -- A preflight loses no running focus, of any conversation.
  pub preflight-keeps_focus :
      (strings : Strings) (id : String) (f : ConversationFocus)
      → lookup id g.focuses ≡ some f
      → now < f.expires_at
      → lookup id (evaluate strings g event behavior now false).0.focuses ≡ some f
  unfolding evaluate
  preflight-keeps_focus strings id f h live =
      let found = message_text event.message g.user_id in
      ground
        (arith, keeps_group strings (strings.trim_space found.text) found.mentioned id f h live)

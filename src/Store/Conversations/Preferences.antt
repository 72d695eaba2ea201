-- ===== src/Store/Conversations/Preferences.antt =====
-- SetConversationPreference and GetConversationPreference.
use zzzproject.Base.{
  ℕ, String, ◌≡◌, refl, subst, inl, inr, Bool, true, false, ◌&&◌, ◌||◌, some, arith, ◌==◌, eq_iff,
  if◌then◌else◌, if-cases, Bool-cases, lookup, insert, lookup-insert,
}
use zzzproject.Store.Types.{ConversationPreference, normalize_notification_level}
use zzzproject.Store.State.{MemoryStore}
use zzzproject.Store.Conversations.{
  preferences_of, get_conversation_preference, set_conversation_preference,
}

abbrev pub is_level : String → Bool
is_level level = level == "normal" || (level == "mentions_only" || level == "muted")

-- A known level, and the older flag in step with it.
abbrev pub Normal : ConversationPreference → Type 0
Normal p = (is_level p.notification_level ≡ true) × (p.is_muted ≡ (p.notification_level == "muted"))

abbrev pub IsNormal : MemoryStore → Type 0
IsNormal s =
    (c u : String) (p : ConversationPreference)
    → get_conversation_preference s c u ≡ some p
    → Normal p

abbrev pub normalized : ℕ → ConversationPreference → ConversationPreference
normalized now p =
    let level = normalize_notification_level p.notification_level p.is_muted in
    record p { notification_level = level; is_muted = level == "muted"; updated_at = now }

level_known :
    (level : String) (muted : Bool) → is_level (normalize_notification_level level muted) ≡ true
unfolding normalize_notification_level
level_known level muted =
    if-cases (λ l. is_level l ≡ true) (is_level level) (λ h. h)
      (λ _. if-cases (λ l. is_level l ≡ true) muted (λ _. refl) (λ _. refl))

read_back :
    (s : MemoryStore) (now : ℕ) (p : ConversationPreference) (c u : String)
    → get_conversation_preference (set_conversation_preference s now p) c u ≡ (
        if (p.conversation_id == c) && (p.user_id == u)
        then some (normalized now p)
        else get_conversation_preference s c u)
unfolding get_conversation_preference set_conversation_preference
read_back s now p c u =
    let by_user = preferences_of (lookup p.conversation_id s.preferences) in
    ground (
      arith,
      eq_iff p.conversation_id c,
      lookup-insert p.conversation_id c (insert p.user_id (normalized now p) by_user) s.preferences,
      lookup-insert p.user_id u (normalized now p) by_user,
    )

-- Setting a preference changes that of its user in its conversation and no other one; and where every
-- preference had one of the three levels, with the muted flag in step with it, so it has afterwards,
-- whatever level and flag the new one came with.
pub set_conversation_preference-IsNormal :
    (s : MemoryStore) (now : ℕ) (p : ConversationPreference)
    → IsNormal s
    → IsNormal (set_conversation_preference s now p)
      × ((c u : String)
          → ((p.conversation_id == c) && (p.user_id == u)) ≡ false
          → get_conversation_preference (set_conversation_preference s now p) c u
            ≡ get_conversation_preference s c u)
set_conversation_preference-IsNormal s now p h = (
  (λ c u q found. elim (Bool-cases ((p.conversation_id == c) && (p.user_id == u))) [
    | inl here ↦
        let same : normalized now p ≡ q = ground (arith, read_back s now p c u, here, found) in
        subst Normal same (level_known p.notification_level p.is_muted, refl)
    | inr other ↦ h c u q (ground (arith, read_back s now p c u, other, found))
  ]),
  λ c u other. ground (arith, read_back s now p c u, other),
)

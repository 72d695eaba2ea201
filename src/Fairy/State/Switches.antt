-- ===== src/Fairy/State/Switches.antt =====
-- The group and conversation switches: what a set reads back as, and what a failed save leaves.
use zzzproject.Base.{
  String, ◌≡◌, refl, subst, ◌≢◌, inl, inr, Bool, true, false, Option, none, some, arith, ◌==◌,
  eq_iff, if◌then◌else◌, Bool-cases, Option-cases, Map, lookup, remove, lookup-insert,
  lookup-remove,
}
use zzzproject.Fairy.State.{
  PersistedState, StateStore, valid_group_soft_mode, group_enabled, group_soft_mode,
  set_group_enabled, set_group_soft_mode, context_enabled, set_context_enabled, or_zero_group,
  next_soft_mode, restore,
}
use zzzproject.Fairy.State.QuotaBounds.{lookup-restore}

-- The empty mode, which stands for the default, is none of the three.
valid-ne-empty : (mode : String) → valid_group_soft_mode mode ≡ true → (mode == "") ≡ false
unfolding valid_group_soft_mode
valid-ne-empty mode h = elim (Bool-cases (mode == "")) [
  | inl e ↦
      let p : valid_group_soft_mode "" ≡ true =
        subst (λ m. valid_group_soft_mode m ≡ true) ((eq_iff mode "").0 e) h in
      cc p
  | inr e ↦ e
]

lookup-restore_removed {ℓ} :
    {V : Type ℓ} (k j : String) (m : Map V) (o : Option V)
    → lookup k m ≡ o
    → lookup j (restore k o (remove k m)) ≡ lookup j m
lookup-restore_removed k j m none h =
    ground (arith, lookup-remove k j (remove k m), lookup-remove k j m, eq_iff k j)
lookup-restore_removed k j m (some w) h =
    ground (arith, lookup-insert k j w (remove k m), lookup-remove k j m, eq_iff k j)

module _ (save : PersistedState → Bool) (s : StateStore) (g : String) where
  -- A saved switch is what the group reads back; no other group's switch changes, nor any group's
  -- soft-trigger mode (a group without an entry gets one, and keeps following the defaults).
  pub set_group_enabled_effect :
      (enabled : Bool) (j : String)
      → (set_group_enabled save s g enabled).1 ≡ none
      → (group_enabled (set_group_enabled save s g enabled).0 j
          ≡ (if g == j then enabled else group_enabled s j))
        × (group_soft_mode (set_group_enabled save s g enabled).0 j ≡ group_soft_mode s j)
  unfolding set_group_enabled group_enabled group_soft_mode
  set_group_enabled_effect enabled j h =
      let next = record (or_zero_group (lookup g s.state.groups)) { enabled = enabled } in
      (
        ground (arith, lookup-insert g j next s.state.groups, eq_iff g j),
        elim (Option-cases (lookup g s.state.groups)) [
          | inl e ↦
              rw (e, set_group_enabled)
                (ground (
                  arith,
                  lookup-insert g j (record { enabled = enabled; soft_trigger_mode = "" })
                      s.state.groups,
                  eq_iff g j,
                ))
          | inr (e, p) ↦
              rw (p, set_group_enabled)
                (ground (
                  arith,
                  lookup-insert g j (record e { enabled = enabled }) s.state.groups,
                  eq_iff g j,
                ))
        ],
      )

  -- A saved mode is valid and is what the group reads back; no other group's mode changes, nor any
  -- group's switch, nor anything else in the store but the groups' entries.
  pub set_group_soft_mode_effect :
      (mode j : String)
      → (set_group_soft_mode save s g mode).1 ≡ none
      → (valid_group_soft_mode mode ≡ true)
        × (group_soft_mode (set_group_soft_mode save s g mode).0 j
            ≡ (if g == j then mode else group_soft_mode s j))
        × (group_enabled (set_group_soft_mode save s g mode).0 j ≡ group_enabled s j)
        × ((set_group_soft_mode save s g mode).0 ≡ record s {
          state = record s.state { groups = (set_group_soft_mode save s g mode).0.state.groups };
        })
  unfolding set_group_soft_mode group_enabled group_soft_mode
  set_group_soft_mode_effect mode j h =
      let next = next_soft_mode s (lookup g s.state.groups) mode in
      (
        ground arith,
        ground (arith, lookup-insert g j next s.state.groups, eq_iff g j, valid-ne-empty mode),
        ground (arith, lookup-insert g j next s.state.groups, eq_iff g j),
        ground arith,
      )

  -- A saved context switch is what the conversation reads back, and no other one's changes.
  pub set_context_enabled_effect :
      (enabled : Bool) (j : String)
      → (set_context_enabled save s g enabled).1 ≡ none
      → context_enabled (set_context_enabled save s g enabled).0 j
        ≡ (if g == j then enabled else context_enabled s j)
  unfolding set_context_enabled context_enabled
  set_context_enabled_effect enabled j h = ground (
    arith,
    lookup-insert g j true s.state.context_disabled,
    lookup-remove g j s.state.context_disabled,
    eq_iff g j,
  )

  -- When one of the three setters reports an error, every entry of its map is as it was.
  pub failed_set-restores :
      (enabled : Bool) (mode j : String)
      → ((set_group_enabled save s g enabled).1 ≢ none
          → lookup j (set_group_enabled save s g enabled).0.state.groups ≡ lookup j s.state.groups)
        × ((set_group_soft_mode save s g mode).1 ≢ none
            → lookup j (set_group_soft_mode save s g mode).0.state.groups ≡ lookup j s.state.groups)
        × ((set_context_enabled save s g enabled).1 ≢ none
            → lookup j (set_context_enabled save s g enabled).0.state.context_disabled
              ≡ lookup j s.state.context_disabled)
  unfolding set_group_enabled set_group_soft_mode set_context_enabled
  failed_set-restores enabled mode j =
      let m = s.state.groups in
      let c = s.state.context_disabled in
      (
        λ h. ground (
          arith,
          lookup-restore g j (record (or_zero_group (lookup g m)) { enabled = enabled }) m _ refl,
        ),
        λ h. ground (arith, lookup-restore g j (next_soft_mode s (lookup g m) mode) m _ refl),
        λ h. ground (arith, lookup-restore g j true c _ refl, lookup-restore_removed g j c _ refl),
      )

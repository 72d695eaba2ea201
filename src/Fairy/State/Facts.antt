-- ===== src/Fairy/State/Facts.antt =====
-- The fact-memory switches of server/internal/fairy/state.go, with the scope checks of
-- server/internal/fairy/fact_memory.go. `encode` is the base64 of the JSON of a list of texts.
use Prim.Native.String.{len}
use zzzproject.Base.{
  ℕ, suc, String, Bool, true, ◌||◌, Option, none, some, List, [], ◌∷◌, ◌==◌, ltb, if◌then◌else◌,
  Map, lookup, insert, remove, ◌≡◌, refl, inl, inr, arith, Option-cases,
}
use zzzproject.Fairy.State.{PersistedState, StateStore, or_false, restore}

pub record FactScope : Type 0 where
  pub type : String
  pub id : String
  pub owner_user_id : String

pub data FactError : Type 0 where
  fact_memory_invalid fact_save_failed : FactError

unfoldable pub validate_fact_scope : FactScope → Option FactError
validate_fact_scope scope =
    if scope.id == "" || (ltb 1024 (len scope.id) || ltb 128 (len scope.owner_user_id))
    then some fact_memory_invalid
    else if scope.type == "private"
    then (if scope.owner_user_id == "" then some fact_memory_invalid else none)
    else if scope.type == "group"
    then (if scope.owner_user_id == "" then none else some fact_memory_invalid)
    else some fact_memory_invalid

abbrev with_facts : StateStore → Map Bool → StateStore
with_facts s m = record s { state = record s.state { fact_memory_enabled = m } }

module _ (encode : List String → String) where
  unfoldable pub fact_scope_state_key : FactScope → String
  fact_scope_state_key scope = encode (scope.type ∷ scope.id ∷ scope.owner_user_id ∷ [])

  unfoldable pub fact_memory_enabled : StateStore → FactScope → Bool
  unfolding fact_scope_state_key
  fact_memory_enabled s scope =
      or_false (lookup (fact_scope_state_key scope) s.state.fact_memory_enabled)

  store_fact_switch :
      (PersistedState → Bool) → StateStore → String → Bool → StateStore × Option FactError
  store_fact_switch save s key enabled =
      let switches = s.state.fact_memory_enabled in
      let next = if enabled then insert key true switches else remove key switches in
      let changed = with_facts s next in
      if save changed.state
      then (changed, none)
      else (with_facts s (restore key (lookup key switches) next), some fact_save_failed)

  unfoldable pub set_fact_memory_enabled :
      (PersistedState → Bool) → StateStore → FactScope → Bool → StateStore × Option FactError
  unfolding store_fact_switch fact_scope_state_key
  set_fact_memory_enabled save s scope enabled = elim (validate_fact_scope scope) [
    | some e ↦ (s, some e)
    | none ↦ store_fact_switch save s (fact_scope_state_key scope) enabled
  ]

  store_fact_switch-rest :
      (save : PersistedState → Bool) (s : StateStore) (key : String) (b : Bool)
      → ((store_fact_switch save s key b).0.soft_default ≡ s.soft_default)
        × ((store_fact_switch save s key b).0.state.groups ≡ s.state.groups)
  unfolding store_fact_switch
  store_fact_switch-rest save s key b = (ground arith, ground arith)

  -- The fact switches leave the groups and the default mode.
  pub set_fact_memory_enabled-rest :
      (save : PersistedState → Bool) (s : StateStore) (scope : FactScope) (b : Bool)
      → ((set_fact_memory_enabled save s scope b).0.soft_default ≡ s.soft_default)
        × ((set_fact_memory_enabled save s scope b).0.state.groups ≡ s.state.groups)
  unfolding set_fact_memory_enabled
  set_fact_memory_enabled-rest save s scope b = elim (Option-cases (validate_fact_scope scope)) [
    | inl valid ↦
        rw (valid, set_fact_memory_enabled)
          (store_fact_switch-rest save s (fact_scope_state_key scope) b)
    | inr (e, invalid) ↦ rw (invalid, set_fact_memory_enabled) (refl, refl)
  ]

count_enabled : Map Bool → ℕ
count_enabled [] = 0
count_enabled ((k, b) ∷ m) = let rest = count_enabled m in if b then suc rest else rest

unfoldable pub fact_memory_enabled_scope_count : StateStore → ℕ
unfolding count_enabled
fact_memory_enabled_scope_count s = count_enabled s.state.fact_memory_enabled

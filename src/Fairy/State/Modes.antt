-- ===== src/Fairy/State/Modes.antt =====
-- The soft-trigger modes of a Fairy state store are always among the three that the code knows.
use zzzproject.Base.{
  ℕ, String, ◌≡◌, refl, Bool, true, ◌||◌, Option, none, some, List, [], ◌∷◌, arith, ◌==◌, Map,
  lookup, lookup-insert, ok,
}
use zzzproject.Fairy.State.{
  GroupState, PersistedState, StateStore, FileRead, missing, unreadable, contents,
  valid_group_soft_mode, modes_valid, open_state_store_with_defaults, group_soft_mode,
  set_group_enabled, set_group_soft_mode, set_soft_default, set_context_enabled, or_zero_group,
  next_soft_mode,
}
use zzzproject.Fairy.State.Facts.{FactScope, set_fact_memory_enabled, set_fact_memory_enabled-rest}
use zzzproject.Fairy.State.Quota.{take_model_call, take_task_model_call}
use zzzproject.Fairy.State.QuotaBounds.{lookup-restore}

abbrev mode_ok : Option GroupState → Bool
mode_ok none = true
mode_ok (some g) = g.soft_trigger_mode == "" || valid_group_soft_mode g.soft_trigger_mode

-- Every mode that the store holds is one of the three, or empty where the default applies.
pub record IsValid (s : StateStore) : Type 0 where
  pub soft_default : valid_group_soft_mode s.soft_default ≡ true
  pub modes : (g : String) → mode_ok (lookup g s.state.groups) ≡ true

modes_valid-lookup :
    (m : Map GroupState) (g : String) → modes_valid m ≡ true → mode_ok (lookup g m) ≡ true
unfolding modes_valid lookup
modes_valid-lookup [] g h = refl
modes_valid-lookup ((i, e) ∷ m) g h = ground (arith, modes_valid-lookup m g)

open_store-IsValid :
    {Bytes : Type 0} (unmarshal : Bytes → PersistedState → Option PersistedState)
    (file : FileRead Bytes) (path : String) (enabled : Bool) (mode : String) (s : StateStore)
    → open_state_store_with_defaults unmarshal file path enabled mode ≡ ok s
    → IsValid s
unfolding open_state_store_with_defaults
open_store-IsValid unmarshal missing path enabled mode s h = record {
  soft_default = ground arith;
  modes = λ g. unfold lookup in ground arith;
}
open_store-IsValid unmarshal unreadable path enabled mode s h = ground arith
open_store-IsValid unmarshal (contents b) path enabled mode s h = record {
  soft_default = ground arith;
  modes = λ g. ground (arith, modes_valid-lookup s.state.groups g);
}

-- One call of a method that writes the store.
pub data Update : Type 0 where
  switch : (PersistedState → Bool) → String → Bool → Update
  mode_of : (PersistedState → Bool) → String → String → Update
  default_mode : String → Update
  context_of : (PersistedState → Bool) → String → Bool → Update
  fact_switch : (List String → String) → (PersistedState → Bool) → FactScope → Bool → Update
  model_call : (PersistedState → Bool) → String → ℕ → Update
  task_call : (PersistedState → Bool) → String → ℕ → String → ℕ → Update

abbrev pub update : StateStore → Update → StateStore
update s (switch save g b) = (set_group_enabled save s g b).0
update s (mode_of save g mode) = (set_group_soft_mode save s g mode).0
update s (default_mode mode) = set_soft_default s mode
update s (context_of save c b) = (set_context_enabled save s c b).0
update s (fact_switch encode save scope b) = (set_fact_memory_enabled encode save s scope b).0
update s (model_call save date limit) = (take_model_call save s date limit).0
update s (task_call save date limit task task_limit) =
    (take_task_model_call save s date limit task task_limit).0

pub run : StateStore → List Update → StateStore
run s [] = s
run s (u ∷ us) = run (update s u) us

mode_ok-next :
    (o : Option GroupState) (b : Bool)
    → mode_ok o ≡ true
    → mode_ok (some (record (or_zero_group o) { enabled = b })) ≡ true
mode_ok-next none b h = refl
mode_ok-next (some g) b h = h

set_group_enabled-mode_ok :
    (save : PersistedState → Bool) (s : StateStore) (g : String) (b : Bool) (j : String)
    → mode_ok (lookup j s.state.groups) ≡ true
    → mode_ok (lookup g s.state.groups) ≡ true
    → mode_ok (lookup j (set_group_enabled save s g b).0.state.groups) ≡ true
unfolding set_group_enabled
set_group_enabled-mode_ok save s g b j hj hg =
    let m = s.state.groups in
    let next = record (or_zero_group (lookup g m)) { enabled = b } in
    ground (
      arith,
      lookup-restore g j next m _ refl,
      lookup-insert g j next m,
      mode_ok-next (lookup g m) b hg,
    )

set_group_soft_mode-mode_ok :
    (save : PersistedState → Bool) (s : StateStore) (g mode j : String)
    → mode_ok (lookup j s.state.groups) ≡ true
    → mode_ok (lookup j (set_group_soft_mode save s g mode).0.state.groups) ≡ true
unfolding set_group_soft_mode
set_group_soft_mode-mode_ok save s g mode j hj =
    let m = s.state.groups in
    let next = next_soft_mode s (lookup g m) mode in
    ground (arith, lookup-restore g j next m _ refl, lookup-insert g j next m)

update-IsValid : (s : StateStore) (u : Update) → IsValid s → IsValid (update s u)
update-IsValid s (switch save g b) v = record {
  soft_default = unfold set_group_enabled in ground arith;
  modes = λ j. set_group_enabled-mode_ok save s g b j (v.modes j) (v.modes g);
}
update-IsValid s (mode_of save g mode) v = record {
  soft_default = unfold set_group_soft_mode in ground arith;
  modes = λ j. set_group_soft_mode-mode_ok save s g mode j (v.modes j);
}
update-IsValid s (default_mode mode) v = record {
  soft_default = unfold set_soft_default in ground arith;
  modes = λ j. unfold set_soft_default in ground (arith, v.modes j);
}
update-IsValid s (context_of save c b) v = record {
  soft_default = unfold set_context_enabled in ground arith;
  modes = λ j. unfold set_context_enabled in ground (arith, v.modes j);
}
update-IsValid s (fact_switch encode save scope b) v =
    let kept = set_fact_memory_enabled-rest encode save s scope b in
    record {
      soft_default = ground (arith, kept.0, v.soft_default);
      modes = λ j. rw kept.1 (v.modes j);
    }
update-IsValid s (model_call save date limit) v = record {
  soft_default = unfold take_model_call in ground arith;
  modes = λ j. unfold take_model_call in ground (arith, v.modes j);
}
update-IsValid s (task_call save date limit task task_limit) v = record {
  soft_default = unfold take_task_model_call in ground arith;
  modes = λ j. unfold take_task_model_call in ground (arith, v.modes j);
}

run-IsValid : (s : StateStore) (us : List Update) → IsValid s → IsValid (run s us)
unfolding run
run-IsValid s [] v = v
run-IsValid s (u ∷ us) v = run-IsValid (update s u) us (update-IsValid s u v)

group_soft_mode-valid :
    (s : StateStore) (g : String) → IsValid s → valid_group_soft_mode (group_soft_mode s g) ≡ true
unfolding group_soft_mode
group_soft_mode-valid s g v = ground (arith, v.modes g)

-- Whatever file a store was opened from and whatever was called on it since, the soft-trigger mode
-- that it gives any group is one of "off", "shadow" and "on".
pub group_soft_mode-run :
    {Bytes : Type 0} (unmarshal : Bytes → PersistedState → Option PersistedState)
    (file : FileRead Bytes) (path : String) (enabled : Bool) (mode : String) (s : StateStore)
    (us : List Update) (g : String)
    → open_state_store_with_defaults unmarshal file path enabled mode ≡ ok s
    → valid_group_soft_mode (group_soft_mode (run s us) g) ≡ true
group_soft_mode-run unmarshal file path enabled mode s us g h =
    group_soft_mode-valid (run s us) g
      (run-IsValid s us (open_store-IsValid unmarshal file path enabled mode s h))

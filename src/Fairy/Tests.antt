-- ===== src/Fairy/Tests.antt =====
-- Runs of the Fairy runtime's parts on concrete inputs, and the theorems about them applied there.
use zzzproject.Base.{
  ℕ, ◌≤◌, String, ◌≡◌, refl, ◌≢◌, Bool, true, false, Option, none, some, List, [], ◌∷◌, lookup,
}
use zzzproject.Fairy.State.{
  PersistedState, StateStore, contents, valid_group_soft_mode, open_state_store_with_defaults,
  group_enabled, group_soft_mode, set_group_enabled, set_group_soft_mode, set_context_enabled,
}
use zzzproject.Fairy.State.Quota.{used_on, task_used_on, take_task_model_call, valid_trace_label}
use zzzproject.Fairy.State.QuotaBounds.{
  SameCounters, Call, model, task, granted, granted_to, take_task_model_call-refused,
  take_task_model_call-allowed, granted-le-limit, granted_to-le-task_limit,
}
use zzzproject.Fairy.State.Facts.{FactScope}
use zzzproject.Fairy.State.Switches.{set_group_soft_mode_effect, failed_set-restores}
use zzzproject.Fairy.State.Modes.{
  Update, fact_switch, switch, mode_of, default_mode, run, group_soft_mode-run,
}

-- The state store.
abbrev saves : PersistedState → Bool
saves st = true

abbrev fails : PersistedState → Bool
fails st = false

abbrev used_once : PersistedState
used_once = record {
  version = 1;
  groups = ("g", record { enabled = true; soft_trigger_mode = "on" }) ∷ [];
  context_disabled = ("c", true) ∷ [];
  fact_memory_enabled = [];
  quota_date = "2026-01-02";
  quota_calls = 1;
  task_quota_dates = ("compact", "2026-01-02") ∷ [];
  task_quota_calls = ("compact", 1) ∷ [];
}

abbrev store : StateStore
store = record {
  path = "fairy.json";
  group_default = false;
  soft_default = "shadow";
  state = used_once;
}

abbrev today : String
today = "2026-01-02"

abbrev tomorrow : String
tomorrow = "2026-01-03"

abbrev calls : List Call
calls = model saves ∷ task saves "compact" ∷ model fails ∷ task saves "compact" ∷ model saves ∷ []

granted-le-limit_example : granted today 3 (λ t. 2) store calls ≤ 2
unfolding used_on
granted-le-limit_example = granted-le-limit today 3 (λ t. 2) store calls

granted_to-le-task_limit_example : granted_to today 3 (λ t. 2) "compact" store calls ≤ 1
unfolding task_used_on lookup
granted_to-le-task_limit_example = granted_to-le-task_limit today 3 (λ t. 2) "compact" store calls

take_task_model_call-allowed_example :
    task_used_on (take_task_model_call saves store today 3 "compact" 2).0.state "compact" today ≡ 2
unfolding take_task_model_call task_used_on valid_trace_label lookup
take_task_model_call-allowed_example =
    (take_task_model_call-allowed saves store today 3 "compact" 2 refl).3 "compact"

take_task_model_call-refused_example :
    SameCounters used_once (take_task_model_call fails store tomorrow 3 "compact" 2).0.state
unfolding take_task_model_call valid_trace_label lookup
take_task_model_call-refused_example =
    take_task_model_call-refused fails store tomorrow 3 "compact" 2 refl

set_group_soft_mode_effect_example :
    (valid_group_soft_mode "off" ≡ true)
    × (group_soft_mode (set_group_soft_mode saves store "g" "off").0 "g" ≡ "off")
    × (group_enabled (set_group_soft_mode saves store "g" "off").0 "g" ≡ true)
    × ((set_group_soft_mode saves store "g" "off").0 ≡ record store {
      state = record store.state {
        groups = (set_group_soft_mode saves store "g" "off").0.state.groups;
      };
    })
unfolding set_group_soft_mode group_enabled lookup
set_group_soft_mode_effect_example = set_group_soft_mode_effect saves store "g" "off" "g" refl

abbrev PutBack : StateStore → Type 0
PutBack s =
    ((set_group_enabled fails s "g" false).1 ≢ none
      → lookup "g" (set_group_enabled fails s "g" false).0.state.groups ≡ lookup "g" s.state.groups)
    × ((set_group_soft_mode fails s "g" "off").1 ≢ none
        → lookup "g" (set_group_soft_mode fails s "g" "off").0.state.groups
          ≡ lookup "g" s.state.groups)
    × ((set_context_enabled fails s "g" false).1 ≢ none
        → lookup "g" (set_context_enabled fails s "g" false).0.state.context_disabled
          ≡ lookup "g" s.state.context_disabled)

failed_set-restores_example : PutBack store
failed_set-restores_example = failed_set-restores fails store "g" false "off" "g"

abbrev no_json : ℕ → PersistedState → Option PersistedState
no_json n st = some (record st { quota_calls = n })

abbrev opened : StateStore
opened = record {
  path = "fairy.json";
  group_default = true;
  soft_default = "off";
  state = record used_once {
    groups = [];
    context_disabled = [];
    quota_date = "";
    quota_calls = 7;
    task_quota_dates = [];
    task_quota_calls = [];
  };
}

abbrev group_facts : FactScope
group_facts = record { type = "group"; id = "g"; owner_user_id = "" }

abbrev updates : List Update
updates =
    switch saves "g" false
    ∷ mode_of fails "g" "on"
    ∷ default_mode "bad"
    ∷ fact_switch (λ l. "key") saves group_facts true
    ∷ []

group_soft_mode-run_example :
    valid_group_soft_mode (group_soft_mode (run opened updates) "g") ≡ true
unfolding open_state_store_with_defaults
group_soft_mode-run_example =
    group_soft_mode-run no_json (contents 7) "fairy.json" true "off" opened updates "g" refl

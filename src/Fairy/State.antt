-- ===== src/Fairy/State.antt =====
-- server/internal/fairy/state.go: the management switches and the daily model-call counters.
--
-- The mutex makes each method one atomic step, so a method is a function from the store to the new
-- store and its results. `saveLocked` writes a file: its outcome is the argument `save`, which says
-- of a state whether writing it succeeds now. The UTC day that `now.UTC().Format` gives is the
-- argument `date`. Limits and counters are natural numbers; a negative limit acts as 0 does.
pub mod Facts
pub mod Quota
pub mod QuotaBounds
pub mod Switches
pub mod Modes
use Prim.Native.Nat.{◌-◌}
use zzzproject.Base.{
  ℕ, ◌+◌, String, Bool, true, false, not, ◌||◌, Option, none, some, List, [], ◌∷◌, ◌==◌, leb, eqb,
  if◌then◌else◌, is_some, Map, lookup, insert, remove, Result, ok, err,
}

pub record GroupState : Type 0 where
  pub enabled : Bool
  pub soft_trigger_mode : String

pub record PersistedState : Type 0 where
  pub version : ℕ
  pub groups : Map GroupState
  pub context_disabled : Map Bool
  pub fact_memory_enabled : Map Bool
  pub quota_date : String
  pub quota_calls : ℕ
  pub task_quota_dates : Map String
  pub task_quota_calls : Map ℕ

pub record StateStore : Type 0 where
  pub path : String
  pub group_default : Bool
  pub soft_default : String
  pub state : PersistedState

pub data Error : Type 0 where
  invalid_soft_mode invalid_task save_failed read_failed decode_failed bad_version : Error

-- The constants of GroupSoftMode.
abbrev pub soft_off : String
soft_off = "off"

abbrev pub soft_shadow : String
soft_shadow = "shadow"

abbrev pub soft_on : String
soft_on = "on"

unfoldable pub valid_group_soft_mode : String → Bool
valid_group_soft_mode value = value == "off" || (value == "shadow" || value == "on")

-- Go's zero value of a map entry that is not there.
abbrev or_zero : Option ℕ → ℕ
or_zero none = 0
or_zero (some n) = n

abbrev or_empty : Option String → String
or_empty none = ""
or_empty (some s) = s

abbrev or_false : Option Bool → Bool
or_false none = false
or_false (some b) = b

abbrev zero_group : GroupState
zero_group = record { enabled = false; soft_trigger_mode = "" }

abbrev or_zero_group : Option GroupState → GroupState
or_zero_group none = zero_group
or_zero_group (some g) = g

-- `if existed { m[k] = previous } else { delete(m, k) }`
abbrev restore {ℓ} : {V : Type ℓ} → String → Option V → Map V → Map V
restore k none m = remove k m
restore k (some v) m = insert k v m

-- What `os.ReadFile` gives: the file is not there, cannot be read, or holds these bytes.
pub data FileRead (Bytes : Type 0) : Type 0 where
  missing unreadable : FileRead Bytes
  contents : Bytes → FileRead Bytes

abbrev initial_state : PersistedState
initial_state = record {
  version = 1;
  groups = [];
  context_disabled = [];
  fact_memory_enabled = [];
  quota_date = "";
  quota_calls = 0;
  task_quota_dates = [];
  task_quota_calls = [];
}

unfoldable pub modes_valid : Map GroupState → Bool
unfolding valid_group_soft_mode
modes_valid [] = true
modes_valid ((id, g) ∷ m) =
    let rest = modes_valid m in
    if not (g.soft_trigger_mode == "")
    then (if valid_group_soft_mode g.soft_trigger_mode then rest else false)
    else rest

check_loaded : StateStore → Option PersistedState → Result Error StateStore
unfolding modes_valid
check_loaded store none = err decode_failed
check_loaded store (some loaded) =
    if not (eqb loaded.version 1)
    then err bad_version
    else if modes_valid loaded.groups
    then ok (record store { state = loaded })
    else err invalid_soft_mode

load :
    {Bytes : Type 0}
    → (Bytes → PersistedState → Option PersistedState)
    → StateStore
    → FileRead Bytes
    → Result Error StateStore
unfolding check_loaded
load unmarshal store missing = ok store
load unmarshal store unreadable = err read_failed
load unmarshal store (contents data') = check_loaded store (unmarshal data' store.state)

-- OpenStateStoreWithDefaults; `unmarshal` is `json.Unmarshal` into the state given.
unfoldable pub open_state_store_with_defaults :
    {Bytes : Type 0}
    → (Bytes → PersistedState → Option PersistedState)
    → FileRead Bytes
    → String
    → Bool
    → String
    → Result Error StateStore
unfolding load valid_group_soft_mode
open_state_store_with_defaults unmarshal file path group_default soft_default =
    if valid_group_soft_mode soft_default
    then load unmarshal
        (record {
          path = path;
          group_default = group_default;
          soft_default = soft_default;
          state = initial_state;
        })
        file
    else err invalid_soft_mode

unfoldable pub group_enabled : StateStore → String → Bool
group_enabled s group_id = elim (lookup group_id s.state.groups) [
  | none ↦ s.group_default
  | some g ↦ g.enabled
]

unfoldable pub group_soft_mode : StateStore → String → String
group_soft_mode s group_id = elim (lookup group_id s.state.groups) [
  | none ↦ s.soft_default
  | some g ↦ if g.soft_trigger_mode == "" then s.soft_default else g.soft_trigger_mode
]

abbrev with_groups : StateStore → Map GroupState → StateStore
with_groups s m = record s { state = record s.state { groups = m } }

abbrev with_context : StateStore → Map Bool → StateStore
with_context s m = record s { state = record s.state { context_disabled = m } }

-- Writes `next` for the group, saves, and puts `previous` back if that fails.
store_group : (PersistedState → Bool) → StateStore → String → GroupState → StateStore × Option Error
store_group save s group_id next =
    let changed = with_groups s (insert group_id next s.state.groups) in
    if save changed.state then (changed, none) else (
      with_groups s
          (restore group_id (lookup group_id s.state.groups) (insert group_id next s.state.groups)),
      some save_failed,
    )

unfoldable pub set_group_enabled :
    (PersistedState → Bool) → StateStore → String → Bool → StateStore × Option Error
unfolding store_group
set_group_enabled save s group_id enabled =
    store_group save s group_id
      (record (or_zero_group (lookup group_id s.state.groups)) { enabled = enabled })

next_soft_mode : StateStore → Option GroupState → String → GroupState
next_soft_mode s none mode = record { enabled = s.group_default; soft_trigger_mode = mode }
next_soft_mode s (some g) mode = record g { soft_trigger_mode = mode }

unfoldable pub set_group_soft_mode :
    (PersistedState → Bool) → StateStore → String → String → StateStore × Option Error
unfolding store_group valid_group_soft_mode next_soft_mode
set_group_soft_mode save s group_id mode =
    if valid_group_soft_mode mode
    then store_group save s group_id (next_soft_mode s (lookup group_id s.state.groups) mode)
    else (s, some invalid_soft_mode)

unfoldable pub set_soft_default : StateStore → String → StateStore
unfolding valid_group_soft_mode
set_soft_default s mode = if valid_group_soft_mode mode then record s { soft_default = mode } else s

unfoldable pub context_enabled : StateStore → String → Bool
context_enabled s conversation_id = not (or_false (lookup conversation_id s.state.context_disabled))

unfoldable pub set_context_enabled :
    (PersistedState → Bool) → StateStore → String → Bool → StateStore × Option Error
set_context_enabled save s conversation_id enabled =
    let disabled = s.state.context_disabled in
    let next =
      if enabled then remove conversation_id disabled else insert conversation_id true disabled in
    let changed = with_context s next in
    if save changed.state then (changed, none) else (
      with_context s (restore conversation_id (lookup conversation_id disabled) next),
      some save_failed,
    )

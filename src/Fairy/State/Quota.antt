-- ===== src/Fairy/State/Quota.antt =====
-- The daily model-call counters of server/internal/fairy/state.go.
use Prim.Native.Nat.{◌-◌}
use Prim.Native.Char.{Char, code}
use Prim.Native.String.{len}
use zzzproject.Base.{
  ℕ, ◌+◌, String, Bool, true, false, ◌&&◌, ◌||◌, Option, none, some, ◌==◌, ltb, leb, eqb,
  if◌then◌else◌, lookup, insert,
}
use zzzproject.Fairy.State.{
  PersistedState, StateStore, Error, save_failed, invalid_task, or_zero, or_empty, restore,
}

-- `(used, remaining)`
pub record Usage : Type 0 where
  pub used : ℕ
  pub remaining : ℕ

-- `(used, allowed, err)`
pub record CallGrant : Type 0 where
  pub used : ℕ
  pub allowed : Bool
  pub error : Option Error

-- `(globalUsed, taskUsed, allowed, err)`
pub record TaskGrant : Type 0 where
  pub global_used : ℕ
  pub task_used : ℕ
  pub allowed : Bool
  pub error : Option Error

-- The calls that count against the day `date`.
unfoldable pub used_on : PersistedState → String → ℕ
used_on st date = if st.quota_date == date then st.quota_calls else 0

unfoldable pub task_used_on : PersistedState → String → String → ℕ
task_used_on st task date =
    if or_empty (lookup task st.task_quota_dates) == date
    then or_zero (lookup task st.task_quota_calls)
    else 0

usage : ℕ → ℕ → Usage
usage used limit =
    let capped = if ltb limit used then limit else used in
    record { used = capped; remaining = limit - capped }

unfoldable pub model_quota_status : StateStore → String → ℕ → Usage
unfolding usage used_on
model_quota_status s date limit =
    if eqb limit 0 then record { used = 0; remaining = 0 } else usage (used_on s.state date) limit

unfoldable pub task_model_quota_status : StateStore → String → String → ℕ → Usage
unfolding usage task_used_on
task_model_quota_status s date task limit =
    if eqb limit 0
    then record { used = 0; remaining = 0 }
    else usage (task_used_on s.state task date) limit

-- The counter as the code resets it when the day has changed.
abbrev rolled : PersistedState → String → PersistedState
rolled st date =
    if st.quota_date == date then st else record st { quota_date = date; quota_calls = 0 }

reserve : (PersistedState → Bool) → StateStore → PersistedState → StateStore × CallGrant
reserve save s st =
    let next = record st { quota_calls = st.quota_calls + 1 } in
    if save next
    then (
      record s { state = next },
      record { used = next.quota_calls; allowed = true; error = none },
    )
    else (
      record s {
        state = record next { quota_date = s.state.quota_date; quota_calls = s.state.quota_calls };
      },
      record { used = s.state.quota_calls; allowed = false; error = some save_failed },
    )

unfoldable pub take_model_call :
    (PersistedState → Bool) → StateStore → String → ℕ → StateStore × CallGrant
unfolding reserve
take_model_call save s date limit =
    if eqb limit 0
    then (s, record { used = 0; allowed = false; error = none })
    else (let st = rolled s.state date in
        if leb limit st.quota_calls
        then (
          record s { state = st },
          record { used = st.quota_calls; allowed = false; error = none },
        )
        else reserve save s st)

-- `validTraceLabel` of trace_store.go.
label_char : Char → Bool
label_char c =
    let n = code c in
    leb b'a' n && leb n b'z'
    || (leb b'0' n && leb n b'9' || (eqb n b'-' || (eqb n b'_' || eqb n b'.')))

label_chars : String → Bool
unfolding label_char
label_chars String.[] = true
label_chars (String.◌∷◌ c s) = let rest = label_chars s in if label_char c then rest else false

unfoldable pub valid_trace_label : String → Bool
unfolding label_chars
valid_trace_label value = if value == "" || ltb 64 (len value) then false else label_chars value

abbrev with_task_call : PersistedState → String → String → ℕ → ℕ → PersistedState
with_task_call st task date global_used task_used = record st {
  quota_date = date;
  quota_calls = global_used + 1;
  task_quota_dates = insert task date st.task_quota_dates;
  task_quota_calls = insert task (task_used + 1) st.task_quota_calls;
}

abbrev undo_task_call : PersistedState → PersistedState → String → PersistedState
undo_task_call st next task = record next {
  quota_date = st.quota_date;
  quota_calls = st.quota_calls;
  task_quota_dates = restore task (lookup task st.task_quota_dates) next.task_quota_dates;
  task_quota_calls = restore task (lookup task st.task_quota_calls) next.task_quota_calls;
}

reserve_task :
    (PersistedState → Bool) → StateStore → String → String → ℕ → ℕ → StateStore × TaskGrant
reserve_task save s date task global_used task_used =
    let next = with_task_call s.state task date global_used task_used in
    if save next
    then (
      record s { state = next },
      record {
        global_used = global_used + 1;
        task_used = task_used + 1;
        allowed = true;
        error = none;
      },
    )
    else (
      record s { state = undo_task_call s.state next task },
      record {
        global_used = global_used;
        task_used = task_used;
        allowed = false;
        error = some save_failed;
      },
    )

unfoldable pub take_task_model_call :
    (PersistedState → Bool) → StateStore → String → ℕ → String → ℕ → StateStore × TaskGrant
unfolding reserve_task used_on task_used_on
take_task_model_call save s date global_limit task task_limit =
    let global_used = used_on s.state date in
    let task_used = task_used_on s.state task date in
    if eqb global_limit 0 || eqb task_limit 0
    then (s, record { global_used = 0; task_used = 0; allowed = false; error = none })
    else if valid_trace_label task
    then (if leb global_limit global_used || leb task_limit task_used
        then (
          s,
          record {
            global_used = global_used;
            task_used = task_used;
            allowed = false;
            error = none;
          },
        )
        else reserve_task save s date task global_used task_used)
    else (s, record { global_used = 0; task_used = 0; allowed = false; error = some invalid_task })

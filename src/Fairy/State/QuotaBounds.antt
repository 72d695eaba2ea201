-- ===== src/Fairy/State/QuotaBounds.antt =====
-- No run of calls takes more than its daily quota, and a refused call leaves the counters alone.
use zzzproject.Base.{
  ℕ, suc, ◌+◌, ◌-◌, ◌≤◌, ◌<◌, String, ◌≡◌, refl, ap, ◌⊎◌, inl, inr, Bool, true, false, ◌&&◌, Option,
  none, some, List, [], ◌∷◌, arith, ◌==◌, eq_iff, if◌then◌else◌, Bool-cases, lookup, insert,
  lookup-insert, lookup-remove,
}
use zzzproject.Fairy.State.{PersistedState, StateStore, restore}
use zzzproject.Fairy.State.Quota.{used_on, task_used_on, take_model_call, take_task_model_call}

-- A call that the day's counter does not allow, or whose save fails, leaves the store as it was.
pub take_model_call-refused :
    (save : PersistedState → Bool) (s : StateStore) (date : String) (limit : ℕ)
    → (take_model_call save s date limit).1.allowed ≡ false
    → (take_model_call save s date limit).0 ≡ s
unfolding take_model_call
take_model_call-refused save s date limit h = ground (arith, eq_iff s.state.quota_date date)

-- An allowed call had room under the limit, and it raises the day's counter by one.
pub take_model_call-allowed :
    (save : PersistedState → Bool) (s : StateStore) (date : String) (limit : ℕ)
    → (take_model_call save s date limit).1.allowed ≡ true
    → (used_on s.state date < limit)
      × (used_on (take_model_call save s date limit).0.state date ≡ used_on s.state date + 1)
unfolding take_model_call used_on
take_model_call-allowed save s date limit h =
    ground (arith, eq_iff s.state.quota_date date, eq_iff date date)

-- A plain model call counts for no task.
pub take_model_call-task_used_on :
    (save : PersistedState → Bool) (s : StateStore) (date : String) (limit : ℕ) (t : String)
    → task_used_on (take_model_call save s date limit).0.state t date ≡ task_used_on s.state t date
unfolding take_model_call task_used_on
take_model_call-task_used_on save s date limit t = ground arith

-- Two states that no reader of the counters can tell apart.
pub record SameCounters (st st' : PersistedState) : Type 0 where
  pub date : st'.quota_date ≡ st.quota_date
  pub calls : st'.quota_calls ≡ st.quota_calls
  pub task_date : (t : String) → lookup t st'.task_quota_dates ≡ lookup t st.task_quota_dates
  pub task_calls : (t : String) → lookup t st'.task_quota_calls ≡ lookup t st.task_quota_calls

-- Putting the former entry back undoes a write.
pub lookup-restore {ℓ} :
    {V : Type ℓ} (k j : String) (v : V) (m : List (String × V)) (o : Option V)
    → lookup k m ≡ o
    → lookup j (restore k o (insert k v m)) ≡ lookup j m
lookup-restore k j v m none h =
    ground (arith, lookup-remove k j (insert k v m), lookup-insert k j v m, eq_iff k j)
lookup-restore k j v m (some w) h =
    ground (arith, lookup-insert k j w (insert k v m), lookup-insert k j v m, eq_iff k j)

-- A task call that is refused for any reason (a limit of 0, a bad name, either quota, the save)
-- leaves every counter of every task as it was.
pub take_task_model_call-refused :
    (save : PersistedState → Bool) (s : StateStore) (date : String) (limit : ℕ) (task : String)
    (task_limit : ℕ)
    → (take_task_model_call save s date limit task task_limit).1.allowed ≡ false
    → SameCounters s.state (take_task_model_call save s date limit task task_limit).0.state
unfolding take_task_model_call
take_task_model_call-refused save s date limit task task_limit h = record {
  date = ground arith;
  calls = ground arith;
  task_date = λ t. ground (arith, lookup-restore task t date s.state.task_quota_dates _ refl);
  task_calls = λ t. ground (
    arith,
    lookup-restore task t (task_used_on s.state task date + 1) s.state.task_quota_calls _ refl,
  );
}

-- An allowed task call had room under the daily limit and under its task's, and it raises the day's
-- counter and this task's counter by one; no other task's changes.
pub take_task_model_call-allowed :
    (save : PersistedState → Bool) (s : StateStore) (date : String) (limit : ℕ) (task : String)
    (task_limit : ℕ)
    → (take_task_model_call save s date limit task task_limit).1.allowed ≡ true
    → (used_on s.state date < limit)
      × (task_used_on s.state task date < task_limit)
      × (used_on (take_task_model_call save s date limit task task_limit).0.state date
          ≡ used_on s.state date + 1)
      × ((t : String)
          → task_used_on (take_task_model_call save s date limit task task_limit).0.state t date
            ≡ (if task == t then task_used_on s.state t date + 1 else task_used_on s.state t date))
unfolding take_task_model_call
take_task_model_call-allowed save s date limit task task_limit h = (
  ground arith,
  ground arith,
  ground (arith, eq_iff date date),
  λ t. ground (
    arith,
    eq_iff date date,
    eq_iff task t,
    lookup-insert task t date s.state.task_quota_dates,
    lookup-insert task t (task_used_on s.state task date + 1) s.state.task_quota_calls,
  ),
)

-- One caller's turn: a plain model call, or a call for a task; each with the outcome of its save.
pub data Call : Type 0 where
  model : (PersistedState → Bool) → Call
  task : (PersistedState → Bool) → String → Call

module _ (date : String) (limit : ℕ) (task_limit : String → ℕ) where
  abbrev pub perform : StateStore → Call → StateStore × Bool
  perform s (model save) =
      ((take_model_call save s date limit).0, (take_model_call save s date limit).1.allowed)
  perform s (task save id) = (
    (take_task_model_call save s date limit id (task_limit id)).0,
    (take_task_model_call save s date limit id (task_limit id)).1.allowed,
  )

  -- How many calls of a run are allowed.
  pub granted : StateStore → List Call → ℕ
  granted s [] = 0
  granted s (c ∷ cs) =
      let rest = granted (perform s c).0 cs in if (perform s c).1 then suc rest else rest

  abbrev is_for : String → Call → Bool
  is_for t (model save) = false
  is_for t (task save id) = id == t

  -- How many of the allowed calls are for one task.
  pub granted_to : String → StateStore → List Call → ℕ
  granted_to t s [] = 0
  granted_to t s (c ∷ cs) =
      let rest = granted_to t (perform s c).0 cs in
      if (perform s c).1 && is_for t c then suc rest else rest

  used_on-perform :
      (s : StateStore) (c : Call)
      → (((perform s c).1 ≡ true)
          × (used_on s.state date < limit)
          × (used_on (perform s c).0.state date ≡ used_on s.state date + 1))
        ⊎ (((perform s c).1 ≡ false) × (used_on (perform s c).0.state date ≡ used_on s.state date))
  used_on-perform s (model save) = elim (Bool-cases (perform s (model save)).1) [
    | inl yes' ↦ let a = take_model_call-allowed save s date limit yes' in inl (yes', a.0, a.1)
    | inr no' ↦ inr (
      no',
      ap (λ (st : StateStore). used_on st.state date)
          (take_model_call-refused save s date limit no'),
    )
  ]
  used_on-perform s (task save id) = elim (Bool-cases (perform s (task save id)).1) [
    | inl yes' ↦
        let a = take_task_model_call-allowed save s date limit id (task_limit id) yes' in
        inl (yes', a.0, a.2)
    | inr no' ↦
        let r = take_task_model_call-refused save s date limit id (task_limit id) no' in
        inr (no', unfold used_on in rw (r.date, r.calls))
  ]

  -- However the calls of one day mix and whichever saves fail, those allowed number at most what the
  -- daily limit had left.
  pub granted-le-limit :
      (s : StateStore) (cs : List Call) → granted s cs ≤ limit - used_on s.state date
  unfolding granted
  granted-le-limit s [] = omega arith
  granted-le-limit s (c ∷ cs) = elim (used_on-perform s c) [
    | inl a ↦ rw a.0 (omega (arith, granted-le-limit (perform s c).0 cs, a.1, a.2))
    | inr a ↦ rw a.0 (omega (arith, granted-le-limit (perform s c).0 cs, a.1))
  ]

  task_used_on-perform :
      (t : String) (s : StateStore) (c : Call)
      → (((perform s c).1 && is_for t c ≡ true)
          × (task_used_on s.state t date < task_limit t)
          × (task_used_on (perform s c).0.state t date ≡ task_used_on s.state t date + 1))
        ⊎ (((perform s c).1 && is_for t c ≡ false)
            × (task_used_on (perform s c).0.state t date ≡ task_used_on s.state t date))
  task_used_on-perform t s (model save) =
      inr (ground arith, take_model_call-task_used_on save s date limit t)
  task_used_on-perform t s (task save id) = elim (Bool-cases (perform s (task save id)).1) [
    | inl yes' ↦
        let a = take_task_model_call-allowed save s date limit id (task_limit id) yes' in
        ground (arith, a.1, a.3 t, eq_iff id t)
    | inr no' ↦
        let r = take_task_model_call-refused save s date limit id (task_limit id) no' in
        inr (rw no', unfold task_used_on in rw (r.task_date t, r.task_calls t))
  ]

  -- However the calls of one day mix and whichever saves fail, those allowed for one task number at
  -- most what that task's limit had left.
  pub granted_to-le-task_limit :
      (t : String) (s : StateStore) (cs : List Call)
      → granted_to t s cs ≤ task_limit t - task_used_on s.state t date
  unfolding granted_to
  granted_to-le-task_limit t s [] = omega arith
  granted_to-le-task_limit t s (c ∷ cs) = elim (task_used_on-perform t s c) [
    | inl a ↦ rw a.0 (omega (arith, granted_to-le-task_limit t (perform s c).0 cs, a.1, a.2))
    | inr a ↦ rw a.0 (omega (arith, granted_to-le-task_limit t (perform s c).0 cs, a.1))
  ]

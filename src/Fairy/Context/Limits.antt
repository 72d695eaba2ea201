-- ===== src/Fairy/Context/Limits.antt =====
-- How many messages a context has, and how long it is kept.
use zzzproject.Base.{
  ℕ, suc, ◌+◌, ◌-◌, ◌≤◌, String, ◌≡◌, refl, sym, subst, inl, inr, Bool, true, false, not, ◌||◌,
  Option, none, some, List, [], ◌∷◌, ◌++◌, arith, length, length-drop, take, drop, leb, ltb, eqb,
  ◌==◌, eq_iff, if◌then◌else◌, if-cases, Bool-cases, Option-cases, Map, lookup, insert, remove,
  retain, lookup-insert, lookup-remove,
}
use zzzproject.Fairy.Text.{Strings}
use zzzproject.Fairy.Context.{
  ChatMessage, ContextEntry, ContextStore, new_context_store, kept_messages,
  compact_context_messages, is_stale, live_messages, append, snapshot, clear, prune,
}

-- Compaction leaves as many messages as the limit says, if it is at least two.
pub compact_bound :
    (str : Strings) (messages : List ChatMessage) (max : ℕ)
    → 2 ≤ max
    → length (compact_context_messages str messages max) ≤ max
unfolding compact_context_messages
compact_bound str messages max two = elim (Bool-cases (leb (length messages) max)) [
  | inl short ↦ rw (compact_context_messages, short) (ground (arith, short))
  | inr long ↦
      rw (compact_context_messages, long)
        (ground (arith, two, long, length-drop (length messages - kept_messages max) messages))
]

-- The calls of the store.
pub data ContextCall : Type 0 where
  append_call : String → ℕ → List ChatMessage → ContextCall
  snapshot_call : String → ℕ → ContextCall
  clear_call : String → ContextCall
  prune_call : ℕ → ContextCall

pub apply : Strings → ContextCall → ContextStore → ContextStore
apply str (append_call key now messages) s = (append str s key now messages).0
apply str (snapshot_call key now) s = (snapshot s key now).0
apply str (clear_call key) s = clear s key
apply str (prune_call now) s = prune s now

pub apply_all : Strings → List ContextCall → ContextStore → ContextStore
apply_all str [] s = s
apply_all str (c ∷ cs) s = apply_all str cs (apply str c s)

-- Every entry of a map.
Everywhere : (ContextEntry → Type 0) → Map ContextEntry → Type 0
Everywhere P [] = Unit
Everywhere P ((key, e) ∷ m) = P e × Everywhere P m

insert-Everywhere :
    (P : ContextEntry → Type 0) (key : String) (e : ContextEntry) (m : Map ContextEntry)
    → P e
    → Everywhere P m
    → Everywhere P (insert key e m)
unfolding Everywhere insert
insert-Everywhere P key e [] p all = (p, tt)
insert-Everywhere P key e ((k, w) ∷ m) p all =
    let rest = insert-Everywhere P key e m p all.1 in
    if-cases (Everywhere P) (k == key) (λ _. (p, all.1)) (λ _. (all.0, rest))

remove-Everywhere :
    (P : ContextEntry → Type 0) (key : String) (m : Map ContextEntry)
    → Everywhere P m
    → Everywhere P (remove key m)
unfolding Everywhere remove
remove-Everywhere P key [] all = tt
remove-Everywhere P key ((k, w) ∷ m) all =
    let rest = remove-Everywhere P key m all.1 in
    if-cases (Everywhere P) (k == key) (λ _. rest) (λ _. (all.0, rest))

retain-Everywhere :
    (P : ContextEntry → Type 0) (p : String → ContextEntry → Bool) (m : Map ContextEntry)
    → Everywhere P m
    → Everywhere P (retain p m)
unfolding Everywhere retain
retain-Everywhere P p [] all = tt
retain-Everywhere P p ((k, w) ∷ m) all =
    let rest = retain-Everywhere P p m all.1 in
    if-cases (Everywhere P) (p k w) (λ _. (all.0, rest)) (λ _. rest)

lookup-Everywhere :
    (P : ContextEntry → Type 0) (key : String) (m : Map ContextEntry) (e : ContextEntry)
    → Everywhere P m
    → lookup key m ≡ some e
    → P e
unfolding Everywhere lookup
lookup-Everywhere P key [] e all found = absurd (cc found)
lookup-Everywhere P key ((k, w) ∷ m) e all found = elim (Bool-cases (k == key)) [
  | inl here ↦ let same : w ≡ e = ground (arith, here, found) in subst P same all.0
  | inr other ↦ lookup-Everywhere P key m e all.1 (ground (arith, other, found))
]

-- Every entry keeps to the limit.
abbrev Fits : ℕ → ContextEntry → Type 0
Fits max e = length e.messages ≤ max

IsBounded : ℕ → ContextStore → Type 0
IsBounded max s = (s.max_messages ≡ max) × Everywhere (Fits max) s.entries

snapshot-IsBounded :
    (max : ℕ) (s : ContextStore) (key : String) (now : ℕ)
    → IsBounded max s
    → IsBounded max (snapshot s key now).0
unfolding IsBounded snapshot
snapshot-IsBounded max s key now h = elim (Option-cases (lookup key s.entries)) [
  | inl absent ↦ rw (snapshot, absent) h
  | inr (entry, found) ↦
      rw (snapshot, found)
        (if-cases (λ (c : ContextStore × List ChatMessage). IsBounded max c.0)
          (is_stale s.ttl now entry) (λ _. (h.0, remove-Everywhere (Fits max) key s.entries h.1))
          (λ _. h))
]

apply-IsBounded :
    (str : Strings) (max : ℕ) (c : ContextCall) (s : ContextStore)
    → 2 ≤ max
    → IsBounded max s
    → IsBounded max (apply str c s)
unfolding apply IsBounded append clear prune
apply-IsBounded str max (append_call key now messages) s two h =
    let all = zzzproject.Base.◌++◌ (live_messages s.ttl now (lookup key s.entries)) messages in
    let bound : length (compact_context_messages str all s.max_messages) ≤ max =
      rw h.0 (compact_bound str all max two) in
    (h.0, insert-Everywhere (Fits max) key _ s.entries bound h.1)
apply-IsBounded str max (snapshot_call key now) s two h = snapshot-IsBounded max s key now h
apply-IsBounded str max (clear_call key) s two h =
    (h.0, remove-Everywhere (Fits max) key s.entries h.1)
apply-IsBounded str max (prune_call now) s two h =
    (h.0, retain-Everywhere (Fits max) _ s.entries h.1)

apply_all-IsBounded :
    (str : Strings) (max : ℕ) (cs : List ContextCall) (s : ContextStore)
    → 2 ≤ max
    → IsBounded max s
    → IsBounded max (apply_all str cs s)
unfolding apply_all
apply_all-IsBounded str max [] s two h = h
apply_all-IsBounded str max (c ∷ cs) s two h =
    apply_all-IsBounded str max cs (apply str c s) two (apply-IsBounded str max c s two h)

snapshot_fits :
    (max : ℕ) (s : ContextStore) (key : String) (now : ℕ)
    → IsBounded max s
    → length (snapshot s key now).1 ≤ max
unfolding IsBounded snapshot
snapshot_fits max s key now h = elim (Option-cases (lookup key s.entries)) [
  | inl absent ↦ rw (snapshot, absent) (ground arith)
  | inr (entry, found) ↦
      rw (snapshot, found)
        (if-cases (λ (c : ContextStore × List ChatMessage). length c.1 ≤ max)
          (is_stale s.ttl now entry) (λ _. ground arith)
          (λ _. lookup-Everywhere (Fits max) key s.entries entry h.1 found))
]

-- After any calls on a new store whose limit is at least two messages, as the configuration demands,
-- no snapshot has more messages than the limit.
pub context_bounded :
    (str : Strings) (ttl max : ℕ) (cs : List ContextCall) (key : String) (now : ℕ)
    → 2 ≤ max
    → length (snapshot (apply_all str cs (new_context_store ttl max)) key now).1 ≤ max
unfolding new_context_store IsBounded Everywhere
context_bounded str ttl max cs key now two =
    snapshot_fits max (apply_all str cs (new_context_store ttl max)) key now
      (apply_all-IsBounded str max cs (new_context_store ttl max) two (refl, tt))

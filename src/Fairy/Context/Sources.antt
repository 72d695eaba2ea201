-- ===== src/Fairy/Context/Sources.antt =====
-- What compaction keeps of the messages, and what a snapshot gives back.
use zzzproject.Base.{
  ℕ, ◌+◌, ◌-◌, ◌≤◌, String, ◌≡◌, refl, sym, ap, ◌∙◌, inl, inr, ◌||◌, some, List, [], ◌∷◌, ◌++◌,
  arith, length, length-take, take, drop, take-drop, leb, ltb, eqb, ◌==◌, if◌then◌else◌, Bool-cases,
  Option-cases, lookup, lookup-insert,
}
use zzzproject.Fairy.Text.{Strings}
use zzzproject.Fairy.Context.{
  ChatMessage, ContextEntry, ContextStore, source_weight, collect, summarize_context_messages,
  kept_messages, compact_context_messages, is_stale, live_messages, append, snapshot,
}

-- How many source messages a list stands for.
unfoldable pub sources : List ChatMessage → ℕ
sources [] = 0
sources (m ∷ ms) = source_weight m + sources ms

sources-append : (ms ms' : List ChatMessage) → sources (ms ++ ms') ≡ sources ms + sources ms'
unfolding sources
sources-append [] ms' = ground arith
sources-append (m ∷ ms) ms' = ground (arith, sources-append ms ms')

collect-sources :
    (str : Strings) (ms : List ChatMessage) → (collect str ms).source_count ≡ sources ms
unfolding collect sources
collect-sources str [] = refl
collect-sources str (m ∷ ms) = ground (arith, collect-sources str ms)

sources_positive : (ms : List ChatMessage) → length ms ≤ sources ms
unfolding sources
sources_positive [] = ground arith
sources_positive (m ∷ ms) = ground (arith, sources_positive ms)

summary-sources :
    (str : Strings) (ms : List ChatMessage)
    → 1 ≤ length ms
    → source_weight (summarize_context_messages str ms) ≡ sources ms
unfolding summarize_context_messages
summary-sources str ms some_message =
    ground (arith, some_message, collect-sources str ms, sources_positive ms)

compact-sources :
    (str : Strings) (ms : List ChatMessage) (max : ℕ)
    → 1 ≤ max
    → sources (compact_context_messages str ms max) ≡ sources ms
unfolding compact_context_messages sources
compact-sources str ms max one = elim (Bool-cases (leb (length ms) max)) [
  | inl short ↦ rw (compact_context_messages, short) refl
  | inr long ↦
      let split = length ms - kept_messages max in
      let cut =
        summary-sources str (take split ms) (ground (arith, one, long, length-take split ms)) in
      let whole : sources (take split ms) + sources (drop split ms) ≡ sources ms =
        sym (sources-append (take split ms) (drop split ms)) ∙ ap sources (take-drop split ms) in
      rw (compact_context_messages, long) (ground (arith, cut, whole))
]

-- The messages that Append leaves stand for as many source messages as the ones that were there, if
-- they had not expired, and the new ones together: compaction loses none and counts none twice. The
-- limit is at least one.
pub append-sources :
    (str : Strings) (s : ContextStore) (key : String) (now : ℕ) (messages : List ChatMessage)
    → 1 ≤ s.max_messages
    → sources (append str s key now messages).1
      ≡ sources (live_messages s.ttl now (lookup key s.entries)) + sources messages
unfolding append
append-sources str s key now messages one =
    let kept = live_messages s.ttl now (lookup key s.entries) in
    compact-sources str (kept ++ messages) s.max_messages one ∙ sources-append kept messages

snapshot_lem :
    (s : ContextStore) (key : String) (now : ℕ)
    → (snapshot s key now).1 ≡ live_messages s.ttl now (lookup key s.entries)
unfolding snapshot
snapshot_lem s key now = elim (Option-cases (lookup key s.entries)) [
  | inl absent ↦ rw (snapshot, absent) refl
  | inr (entry, found) ↦
      rw (snapshot, found)
        (elim (Bool-cases (is_stale s.ttl now entry)) [
          | inl stale ↦ rw stale refl
          | inr live ↦ rw live refl
        ])
]

-- After Append, which happens at a time other than the zero time, Snapshot gives the messages that
-- Append returned until more than the time to live is over, and none from then on. For every other
-- conversation it gives what it gave before.
pub snapshot-append :
    (str : Strings) (s : ContextStore) (key other : String) (now later : ℕ)
    (messages : List ChatMessage)
    → (snapshot (append str s key now messages).0 other later).1 ≡ (
        if key == other
        then (if eqb now 0 || ltb s.ttl (later - now)
            then []
            else (append str s key now messages).1)
        else (snapshot s other later).1)
unfolding append
snapshot-append str s key other now later messages =
    let after = append str s key now messages in
    let entry : ContextEntry = record { messages = after.1; updated_at = now } in
    let read = lookup-insert key other entry s.entries in
    elim (Bool-cases (key == other)) [
      | inl here ↦
          let found : lookup other after.0.entries ≡ some entry = read ∙ rw here refl in
          rw here (snapshot_lem after.0 other later ∙ ap (live_messages s.ttl later) found)
      | inr there ↦
          let same : lookup other after.0.entries ≡ lookup other s.entries = read ∙ rw there refl in
          rw there (
            snapshot_lem after.0 other later
            ∙ ap (live_messages s.ttl later) same
            ∙ sym (snapshot_lem s other later))
    ]

-- ===== src/Fairy/ContextTests.antt =====
-- The memory of a conversation on concrete messages.
use Prim.Native.String.{◌++◌}
use zzzproject.Base.{
  ◌+◌, ◌-◌, ◌≤◌, String, ◌≡◌, refl, List, [], ◌∷◌, arith, length, lookup, insert, eqb, ltb, ◌||◌,
  if◌then◌else◌,
}
use zzzproject.Fairy.Text.{Strings}
use zzzproject.Fairy.Context.{
  ChatMessage, ContextStore, new_context_store, append, snapshot, live_messages,
  compact_context_messages, without_marker, memory_summary_prefix,
}
use zzzproject.Fairy.Context.Limits.{append_call, prune_call, apply_all, context_bounded}
use zzzproject.Fairy.Context.Sources.{sources, append-sources, snapshot-append}

abbrev strings : Strings
strings = record {
  trim_space = λ s. s;
  to_lower = λ s. s;
  fields = λ s. s ∷ [];
  join = λ l sep. elim l [ [] ↦ "" | x ∷ rest ↦ x ];
}

abbrev said : String → String → ChatMessage
said id content = record {
  role = "user";
  content = content;
  tool_call_id = "";
  tool_calls = [];
  source_id = id;
  source_end_id = "";
  source_count = 1;
  source_time_ms = 5;
}

abbrev three : List ChatMessage
three = said "m1" "one" ∷ said "m2" "two" ∷ said "m3" "three" ∷ []

abbrev empty : ContextStore
empty = new_context_store 100 2

context_bounded_example :
    length
      (snapshot (apply_all strings (append_call "c" 10 three ∷ prune_call 20 ∷ []) empty) "c" 30).1
    ≤ 2
context_bounded_example =
    context_bounded strings 100 2 (append_call "c" 10 three ∷ prune_call 20 ∷ []) "c" 30
      (ground arith)

abbrev talked : ContextStore
talked = (append strings empty "c" 10 three).0

append-sources_example :
    sources (append strings talked "c" 60 (said "m4" "four" ∷ [])).1
    ≡ sources (live_messages 100 60 (lookup "c" talked.entries)) + sources (said "m4" "four" ∷ [])
unfolding new_context_store append
append-sources_example = append-sources strings talked "c" 60 (said "m4" "four" ∷ []) (ground arith)

-- The two earliest messages have become one that stands for both.
talked_sources : sources (live_messages 100 60 (lookup "c" talked.entries)) ≡ 3
unfolding lookup insert sources zzzproject.Fairy.Context.append
    zzzproject.Fairy.Context.compact_context_messages
    zzzproject.Fairy.Context.summarize_context_messages zzzproject.Fairy.Context.collect
    zzzproject.Fairy.Context.new_context_store
talked_sources = refl

snapshot-append_example :
    (snapshot talked "c" 200).1
    ≡ (if eqb 10 0 || ltb 100 (200 - 10) then [] else (append strings empty "c" 10 three).1)
unfolding new_context_store
snapshot-append_example = snapshot-append strings empty "c" "c" 10 200 three

-- The marker of an earlier summary is not said again, and a text that is only the start of the marker
-- is kept.
marker_once : without_marker strings (memory_summary_prefix ++ "user: one") ≡ "user: one"
marker_once = refl

marker_start : without_marker strings "UNTRUSTED" ≡ "UNTRUSTED"
marker_start = refl

-- ===== src/Store/LogTests.antt =====
-- The interaction log and the announcements of the store on concrete calls.
use zzzproject.Base.{String, ◌≡◌, true, false, some, lookup, insert, ok}
use zzzproject.Protocol.{end}
use zzzproject.Store.Types.{DynamicInteractionEvent}
use zzzproject.Store.State.{Runtime, MemoryStore, new_memory_store}
use zzzproject.Store.Groups.{create_group}
use zzzproject.Store.Announcements.{
  create_group_announcement, get_group_announcement, mark_group_announcement_read,
  announcement_is_read,
}
use zzzproject.Store.Announcements.Reading.{mark_group_announcement_read_effect}

abbrev runtime : Runtime
runtime = record {
  message_id = λ n. "m";
  request_id = λ n. "r";
  announcement_id = λ t n. "a";
  forward_id = λ n. "f";
  message_fingerprint = λ conversation segments. some conversation;
  interaction_fingerprint = λ e. some e.action;
  sort_strings = λ l. l;
}

abbrev press : String → DynamicInteractionEvent
press action = record {
  event_id = "e1";
  conversation_id = "c";
  message_id = "m";
  content_id = "k";
  node_id = "button";
  event = "press";
  action = action;
  payload = end;
  actor_id = "ann";
  actor_nickname = "Ann";
  actor_kind = "user";
  created_at = 0;
}

abbrev with_group : MemoryStore
with_group = (create_group new_memory_store 1 "g" "club" "" "ann").0

abbrev announced : MemoryStore
announced = (create_group_announcement runtime with_group 2 "g" "hello" "ann" false).0

mark_group_announcement_read_effect_example :
    (announcement_is_read (mark_group_announcement_read announced "a" "bob").0 "a" "bob" ≡ true)
    × ((mark_group_announcement_read announced "a" "bob").1 ≡ ok tt)
    × (announced ≡ announced)
    × ((mark_group_announcement_read announced "a" "bob").0 ≡ record announced {
      announcement_reads = (mark_group_announcement_read announced "a" "bob").0.announcement_reads;
    })
unfolding get_group_announcement create_group_announcement lookup create_group insert
    new_memory_store
mark_group_announcement_read_effect_example =
    mark_group_announcement_read_effect announced "a" "bob" "a" "bob"

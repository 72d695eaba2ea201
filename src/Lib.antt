-- ===== src/Lib.antt =====
-- A model of the server of ZZZ IM: the Fairy bot's turn scheduling and message gate, its persisted
-- switches and quotas, the chat server's in-memory store, and the group and friend requests of its gateway.
--
-- The parts, and the files that model them:
--
-- - Base: texts, maps as association lists, lists and results, with their lemmas.
-- - Protocol: the message segments of server/internal/protocol/protocol.go.
-- - Fairy.Text: how the bot reads a message's text, its mentions, triggers and media inputs
--   (messageText, commandTrigger, normalizeTrigger, fairyCommand of server/internal/fairy/engine.go,
--   summarizeMediaInputs of server/internal/fairy/media_input.go).
-- - Fairy.State: StateStore of server/internal/fairy/state.go. The switches of groups and conversations
--   stand in Fairy.State, the fact-memory switches in Fairy.State.Facts, the daily model-call
--   counters in Fairy.State.Quota (take_model_call is TakeModelCall, and so on).
-- - Fairy.Gate: MessageGate of server/internal/fairy/gate.go; evaluate is Evaluate, which decides whether
--   a message starts a turn. It reads the state store's switches and the text functions.
-- - Fairy.Scheduler: ConversationScheduler of server/internal/fairy/scheduler.go, which queues the turns
--   of each conversation. Fairy.Scheduler.Actors has the goroutines of runConversation, a list with the
--   conversation and the program counter of each, and Fairy.Scheduler.System the interleavings of all
--   calls as lists of events.
-- - Fairy.Context: ContextStore of server/internal/fairy/context.go, the messages that the bot remembers,
--   with their compaction into a summary.
-- - Store.Types and Store.State: the records of server/internal/store/store.go and the state of
--   MemoryStore of server/internal/store/memory.go.
-- - Store.Users, Store.Conversations, Store.Messages, Store.Reactions, Store.Groups and Store.Friends:
--   the methods of MemoryStore in memory.go, under the sections' names there.
-- - Store.ReadState, Store.Sessions and Store.Profile: its methods in read_state.go, session.go,
--   terminal_sessions.go, terminal_vault.go, push.go and profile_cards.go beside it.
-- - Store.Interactions, Store.Media, Store.Announcements and Store.Stats: the interaction log, forwards and
--   media files of memory.go, and its methods in announcements.go and stats.go.
-- - Gateway: the requests of clients that change groups, the handlers handleCreateGroup to
--   handleGroupMuteAll of server/internal/gateway/gateway.go. Gateway.Requests has replies and notices,
--   Gateway.Roles the permissions and the conversation that follows a group, Gateway.Membership and
--   Gateway.Management the handlers, Gateway.Dispatch the part of handleRequest that calls them. They
--   call the methods of Store; Gateway.Ownership, Gateway.Owners, Gateway.Safety and
--   Gateway.Permissions hold lemmas.
-- - Gateway.Friendship: handleFriendRequest, handleFriendHandle and handleRemoveFriend of gateway.go, and
--   Gateway.Announcements: server/internal/gateway/group_announcements.go.
-- - Gateway.Tests, Gateway.FriendTests, Fairy.Tests, Fairy.TurnTests, Fairy.ContextTests, Store.Tests,
--   Store.RecordTests and Store.LogTests: runs on concrete inputs.
--
-- How the code is translated. A method that holds a mutex is one atomic step: a function from the state
-- to the new state and its results. A nil pointer or a missing map entry is `none`; an error is a value.
-- Times are natural numbers of nanoseconds, with 0 for Go's zero time, and the clock is an argument.
-- Counters and limits are natural numbers, and a negative limit acts as 0 does in the code that is
-- modelled; the counters grow by one with each call and stay far below the bounds of Go's int, so no
-- wrap-around is written out. Go's maps are association lists, whose order stands for Go's open order.
-- Messages that Go shares by pointer live in a heap under the number that they were made with.
--
-- Arguments stand for code that is not here or does I/O: package strings (the record Strings), the
-- patterns of identifiers, JSON with SHA-256 and sort.Strings (the record Runtime), sort.Slice, the
-- outcome of writing the state file (`save`), json.Unmarshal, random identifiers, and the answer of
-- the trace store to ClaimIngress. The record Host has what the gateway uses of packages strings,
-- unicode, fmt, json and sort.
--
-- The one function on fuel is `drain` of Fairy.Scheduler.Order, the loop of an actor left alone: one
-- round more than its queue is long is enough.
--
-- Not modelled: the SQL stores, the rest of the gateway, the console, the bot's configuration, model providers, tools
-- and plugins, and the clients.
pub mod Base
pub mod Protocol
pub mod Fairy
pub mod Store
pub mod Gateway

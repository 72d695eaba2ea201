-- ===== src/Store.antt =====
-- server/internal/store: the data of the chat server, and its in-memory implementation.
pub mod Types
pub mod Tests
pub mod RecordTests
pub mod LogTests
pub mod State
pub mod Users
pub mod Messages
pub mod ReadState
pub mod Reactions
pub mod Sessions
pub mod Profile
pub mod Groups
pub mod Friends
pub mod Conversations
pub mod Interactions
pub mod Announcements
pub mod Media
pub mod Stats

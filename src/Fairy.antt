-- ===== src/Fairy.antt =====
-- server/internal/fairy: the Fairy agent's runtime.
pub mod State
pub mod Text
pub mod Gate
pub mod Scheduler
pub mod Context
pub mod Tests
pub mod TurnTests
pub mod ContextTests

-- ===== src/Wsync.antt =====
-- The rsync algorithm (wsync/).
pub mod Types
pub mod Rolling
pub mod Library
pub mod Emitter
pub mod Diff
pub mod Apply
pub mod Signature
mod Tests

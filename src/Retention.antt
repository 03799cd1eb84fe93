-- ===== src/Retention.antt =====
-- src/mail/retention.ts, with threadR2ObjectKeys of src/mail/threads.ts: deleting a thread, and the
-- scheduled cleanup.
mod Defs
mod Examples
pub mod Batches
pub mod Deleting
pub mod Forgetting
pub mod Resumed
pub mod Interrupted
pub mod Cleanup
unfoldable pub use Defs.*

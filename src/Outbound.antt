-- ===== src/Outbound.antt =====
-- src/mail/outbound.ts: sending and retrying a message.
mod Defs
mod Handlers
mod Examples
pub mod Keyed
pub mod Sent
pub mod Replay
pub mod Pinning
pub mod Unsubmitted
pub mod Submitting
unfoldable pub use Defs.*
unfoldable pub use Handlers.*

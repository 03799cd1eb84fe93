-- ===== src/Routing.antt =====
-- src/routing-sync.ts: the synchronization of the mailboxes with the routing rules.
mod Plan
mod Pages
mod Names
mod Apply
pub mod Wanted
pub mod Unique
pub mod Synced
pub mod Manual
pub mod Untouched
mod Examples
unfoldable pub use Plan.*
unfoldable pub use Pages.*
unfoldable pub use Names.*
unfoldable pub use Apply.*

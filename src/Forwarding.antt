-- ===== src/Forwarding.antt =====
-- src/inbound-forwarding.ts: the claims and the forwarding of inbound copies.
mod Defs
mod Run
pub mod Claims
pub mod Accepted
pub mod Exclusive
mod Examples
unfoldable pub use Defs.*
unfoldable pub use Run.*

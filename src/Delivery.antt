-- ===== src/Delivery.antt =====
-- src/providers/events.ts with aggregateDeliveryStatus of src/lib.ts: delivery events of the
-- providers, merged by rank into a summary for each recipient and a status of the message.
mod Defs
mod Examples
pub mod Apply
pub mod Summary
pub mod Order
pub mod Values
pub mod Aggregate
pub mod Race
pub mod Replay
pub mod Again
unfoldable pub use Defs.*

-- ===== src/Webhooks.antt =====
-- The events that the providers report: webhooks and the queue.
mod Parts
mod Normalize
mod Handlers
pub mod Signed
pub mod Handled
mod Examples
unfoldable pub use Parts.*
unfoldable pub use Normalize.*
unfoldable pub use Handlers.*

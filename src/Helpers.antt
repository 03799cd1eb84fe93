-- ===== src/Helpers.antt =====
-- src/lib.ts: helpers on texts and bytes.
mod Bytes
mod Email
mod Numbers
mod Base64
mod Truncate
mod Html
pub mod Equality
pub mod RoundTrip
pub mod Bounded
pub mod Escaped
pub mod Range
mod Examples
unfoldable pub use Bytes.*
unfoldable pub use Email.*
unfoldable pub use Numbers.*
unfoldable pub use Base64.*
unfoldable pub use Truncate.*
unfoldable pub use Html.*

-- ===== src/Providers.antt =====
-- src/providers and src/resend-policy.ts: the outbound providers, which one is used, and what an
-- answer of a provider does to the message row.
mod Defs
mod Examples
mod Send
pub mod Outcomes
unfoldable pub use Defs.*
unfoldable pub use Send.*

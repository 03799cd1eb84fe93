-- ===== src/Auth.antt =====
-- src/auth.ts: sessions, setup, login, logout and the change of the password.
mod Tables
mod Sessions
mod Passwords
mod Handlers
pub mod Lookup
pub mod Revoking
pub mod Steps
pub mod Ending
pub mod Admission
pub mod Limit
pub mod Renewed
pub mod Settings
mod Samples
mod Examples
mod LoginExamples
mod SettingsExamples
unfoldable pub use Tables.*
unfoldable pub use Sessions.*
unfoldable pub use Passwords.*
unfoldable pub use Handlers.*

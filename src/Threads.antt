-- ===== src/Threads.antt =====
-- src/mail/threads.ts: finding messages, the denormalised columns of a thread, the repair of
-- threads when a provider's Message-ID becomes known, folders and read marks.
mod Defs
unfoldable pub use Defs.*

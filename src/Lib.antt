-- ===== src/Lib.antt =====
-- MailGable: a mailbox on Cloudflare Workers with a D1 database, an R2 archive and three outbound
-- e-mail providers (Resend, Brevo, Cloudflare Email).
--
-- The parts and their files:
--   Store        the D1 tables as lists of rows (migrations/*.sql, src/mail/constants.ts), and the
--                effects of a handler: what was written before a throw stays written.
--   Headers      Message-IDs and header values (src/mail/helpers.ts).
--   Threads      findMessage, ensureThread, refreshThread, reconcileProviderMessageId
--                (src/mail/threads.ts).
--   Delivery     updateRecipientSummary, applyDeliveryStatus, applyDeliveryEvent
--                (src/providers/events.ts) and aggregateDeliveryStatus (src/lib.ts).
--   Providers    the choice of a provider (src/providers/registry.ts), the classes of failures
--                (src/resend-policy.ts and the providers' files) and the three `send` methods.
--   Archive      putR2 (src/mail/archive.ts) and the outgoing attachments
--                (src/mail/attachments.ts), archiveOutgoing (src/mail/outbound.ts).
--   Outbound     sendMessage and retryMessage (src/mail/outbound.ts).
--   Retention    deleteThreadData and cleanupMail (src/mail/retention.ts).
--   Helpers      asInt, Base64, timingSafeEqual, truncateUtf8, escapeHtml, e-mail addresses
--                (src/lib.ts).
--   Auth         sessions, setup, login, logout and the change of the password (src/auth.ts, and
--                requireOrigin, requireAuthPepper and the hashes of a request in src/lib.ts). The
--                audit log is left out; a response is the token of the cookie, or the user.
--   Forwarding   inboundForwardAddresses, the claims and forwardInboundCopies
--                (src/inbound-forwarding.ts).
--   Routing      runtimeConfig, deriveRoutingMailboxPlan, fetchAllRoutingRules, applyRoutingPlan and
--                performRoutingSync (src/routing-sync.ts).
--   Webhooks     the normalizers of the providers' events (src/providers/events.ts), readTextLimited,
--                both webhooks and the queue (src/mail/delivery-events.ts), verifySvixSignature
--                (src/lib.ts). They end in applyDeliveryEvent of Delivery.
--   Base         tests, SQL statements on lists of rows, and functions on texts.
--
-- A send goes through all of them: Outbound creates the row and its thread, Archive stores the
-- objects, Providers submits, and later events of the providers reach the row through Delivery,
-- which repairs the threads. `Outbox` is the state of a send: the database, the keys of the R2
-- bucket, and the list of requests that went to providers.
--
-- What is outside the code is an input: the answers of the providers, the failures of the storage
-- (`Faults`, and `DeleteFaults` for R2 and each statement of deleteThreadData), the clock, fresh ids,
-- and what other requests write in between (`others`). The loop of applyDeliveryStatus has eight
-- attempts, which are the code's own. The loop over the chunks of keys in Retention runs on fuel, as
-- many calls as there are keys, each of which takes at least one key; so do the digits of an HTTP
-- status in Base/Text.antt.
--
-- The loop over the pages of routing rules recurses on the number of pages that the first page
-- names, which every later page has to repeat and which is at most 100. The binary search of
-- truncateUtf8 runs on fuel, the length of the text, and a search that has not ended within it has no
-- result (Helpers/Bounded.antt).
--
-- The INSERT of a delivery event names no payload_json, which migrations/0001_mailbox.sql declares NOT
-- NULL; the model of INSERT OR IGNORE skips such a row (`insert_event`).
--
-- Parameters for what is not in the repository: the digests of WebCrypto and the normalization of
-- Unicode (`Crypto`), localeCompare and the order of SQL (`SyncEnv`), the answers of the routing
-- API, of message.forward() and of D1, HMAC, JSON.parse and Date.parse of the webhooks.
--
-- Not modelled: the payloads for the providers, audit log and logging, JSON and HTML texts, UTF-16
-- lengths outside truncateUtf8 (a length counts characters), the handler of inbound
-- mail, the sharing of a routing synchronization in flight, and the router.
pub mod Base
pub mod Store
pub mod Headers
pub mod Threads
pub mod Delivery
pub mod Providers
pub mod Archive
pub mod Outbound
pub mod Helpers
pub mod Auth
pub mod Forwarding
pub mod Routing
pub mod Webhooks
pub mod Retention

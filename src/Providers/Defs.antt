-- ===== src/Providers/Defs.antt =====
-- registry.ts, the capabilities of the providers, and their classification of failures.
use mail_gable.Base.{
  ℕ, ◌*◌, String, Bool, Option, none, some, ◌==◌, not, ◌&&◌, ◌||◌, leb, eqb, or_else, if◌then◌else◌,
  lower_is, contains_lower,
}
use mail_gable.Store.Tables.{Message}
use mail_gable.Store.Effects.{
  Code, provider_rejected, provider_payload_too_large, provider_auth_failed, provider_rate_limited,
  provider_outcome_unknown, provider_retryable, provider_idempotency_mismatch, thrown, Result, ok,
  err,
}

pub data ProviderId : Type 0 where
  resend brevo cloudflare : ProviderId

abbrev pub id_text : ProviderId → String
id_text resend = "resend"
id_text brevo = "brevo"
id_text cloudflare = "cloudflare"

-- The settings that the providers read; an unset variable is "".
pub record Env : Type 0 where
  pub outbound_provider : String
  pub resend_api_key : String
  pub brevo_api_key : String
  pub has_email_binding : Bool

-- capabilities.safeRetryWindowMs
abbrev pub safe_retry_window_ms : ProviderId → Option ℕ
safe_retry_window_ms resend = some (23 * 60 * 60000)
safe_retry_window_ms brevo = some (25 * 60000)
safe_retry_window_ms cloudflare = none

unfoldable pub is_configured : Env → ProviderId → Bool
is_configured env resend = not (env.resend_api_key == "")
is_configured env brevo = not (env.brevo_api_key == "")
is_configured env cloudflare = env.has_email_binding

-- getProviderById
unfoldable pub provider_by_id : String → Option ProviderId
provider_by_id id =
    if id == "resend"
    then some resend
    else if id == "brevo"
    then some brevo
    else if id == "cloudflare"
    then some cloudflare
    else none

-- getProviderById((env.OUTBOUND_PROVIDER || "none").toLowerCase())
unfoldable pub named_provider : String → Option ProviderId
unfolding lower_is
named_provider setting =
    if lower_is setting "resend"
    then some resend
    else if lower_is setting "brevo"
    then some brevo
    else if lower_is setting "cloudflare"
    then some cloudflare
    else none

-- configuredProviderId, and getOutboundProvider, which looks the id up again
unfoldable pub outbound_provider : Env → Option ProviderId
unfolding named_provider is_configured
outbound_provider env = elim (named_provider env.outbound_provider) [
  | none ↦ none
  | some p ↦ if is_configured env p then some p else none
]

-- providerForMessage. It throws a plain Error where the pinned provider is not configured.
unfoldable pub provider_for_message : Env → Message → Result (Option ProviderId)
unfolding provider_by_id is_configured
provider_for_message env row =
    let pinned = or_else row.outbound_provider "" in
    if (pinned == "") || (pinned == "none") then ok none else elim (provider_by_id pinned) [
      | none ↦ ok none
      | some p ↦ if is_configured env p then ok (some p) else err (thrown "Error")
    ]

-- resend-policy.ts
unfoldable pub is_retryable_resend_response : ℕ → String → Bool
is_retryable_resend_response status code =
    eqb status 408
    || eqb status 425
    || eqb status 429
    || leb 500 status
    || (eqb status 409 && (code == "concurrent_idempotent_requests"))

unfoldable pub classify_resend_failure : ℕ → String → Code
unfolding is_retryable_resend_response
classify_resend_failure status code =
    if is_retryable_resend_response status code
    then provider_retryable
    else if eqb status 409 && (code == "invalid_idempotent_request")
    then provider_idempotency_mismatch
    else provider_rejected

-- brevo.ts
unfoldable pub classify_brevo_failure : ℕ → String → Code
unfolding contains_lower
classify_brevo_failure status code =
    if eqb status 401 || eqb status 403
    then provider_auth_failed
    else if eqb status 429
    then provider_retryable
    else if eqb status 400 && (contains_lower code "validation" || contains_lower code "payload")
    then provider_rejected
    else if leb 500 status
    then provider_retryable
    else provider_rejected

-- cloudflare-email.ts
unfoldable pub classify_cloudflare_email_failure : String → Code
classify_cloudflare_email_failure code =
    if (code == "E_RATE_LIMIT_EXCEEDED") || (code == "E_DAILY_LIMIT_EXCEEDED")
    then provider_rate_limited
    else if code == "E_CONTENT_TOO_LARGE"
    then provider_payload_too_large
    else if (code == "E_SENDER_NOT_VERIFIED") || (code == "E_SENDER_DOMAIN_NOT_AVAILABLE")
    then provider_auth_failed
    else if (code == "E_VALIDATION_ERROR")
        || (code == "E_FIELD_MISSING")
        || (code == "E_TOO_MANY_RECIPIENTS")
        || (code == "E_TOO_MANY_ATTACHMENTS")
        || (code == "E_RECIPIENT_NOT_ALLOWED")
        || (code == "E_RECIPIENT_SUPPRESSED")
    then provider_rejected
    else provider_outcome_unknown

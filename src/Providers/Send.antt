-- ===== src/Providers/Send.antt =====
-- The `send` methods of resend.ts, brevo.ts and cloudflare-email.ts. What a provider answers is an
-- input. `submissions` lists the requests that went out, with the provider, the message, and the
-- idempotency key that it was told: Resend the client's, Brevo the message's id, Cloudflare none.
use Prim.Native.String.{◌++◌ as joined}
use mail_gable.Base.{
  first_text, ℕ, ◌*◌, String, Bool, Option, none, some, List, [], ◌∷◌, ◌++◌, ◌==◌, ◌&&◌, ltb, leb,
  eqb, if◌then◌else◌, update, first_chars, http_text,
}
use mail_gable.Store.Status.{Status, sending, retryable_failed, failed, is_retryable}
use mail_gable.Store.Tables.{Message, Database}
use mail_gable.Store.Effects.{
  Code, provider_not_configured, provider_rejected, provider_payload_too_large,
  provider_auth_failed, provider_rate_limited, provider_outcome_unknown, provider_retryable,
  provider_idempotency_mismatch, Error, app_error, ok, err, Exec,
}
use mail_gable.Threads.{keep_or_set}
use mail_gable.Providers.Defs.{
  ProviderId, resend, brevo, cloudflare, Env, is_configured, classify_resend_failure,
  classify_brevo_failure, classify_cloudflare_email_failure,
}

pub record Submission : Type 0 where
  pub provider : ProviderId
  pub message_id : String
  pub key : Option String

-- The database, the requests to the providers, and the keys of the R2 bucket.
pub record Outbox : Type 0 where
  pub db : Database
  pub submissions : List Submission
  pub bucket : List String

-- The answer to a fetch: a failure of the transport, or a response with the fields of its JSON
-- body that are read ("" where one is missing).
pub data HttpAnswer : Type 0 where
  no_answer : (timed_out : Bool) → HttpAnswer
  response : (status : ℕ) (id name code message retry_after : String) → HttpAnswer

-- The answer of the send_email binding: a thrown error, or a messageId.
pub data EmailAnswer : Type 0 where
  send_error : (code message : String) → EmailAnswer
  sent_with : (id : String) → EmailAnswer

-- What each provider would answer, and the size that estimateProviderMessageBytes computes.
pub record Answers : Type 0 where
  pub resend_answer : HttpAnswer
  pub brevo_answer : HttpAnswer
  pub cloudflare_answer : EmailAnswer
  pub estimated_bytes : ℕ

pub record SendResult : Type 0 where
  pub provider : ProviderId
  pub provider_message_id : String

abbrev pub submit : ProviderId → Message → Option String → Outbox → Outbox
submit p row key o = record o {
  submissions =
      o.submissions ++ record { provider = p; message_id = row.message_id; key = key } ∷ [];
}

-- UPDATE … WHERE message_id=? AND status IN ('sending','retryable_failed')
unfoldable pub update_retryable_state : String → Status → String → ℕ → Database → Database
update_retryable_state id status error now db = record db {
  messages =
      update (λ m. (m.message_id == id) && is_retryable m.status)
        (λ m. record m { status = status; last_error = some error; updated_at = now }) db.messages;
}

unfoldable pub set_provider_message_id : String → String → ℕ → Database → Database
set_provider_message_id id provider_message_id now db = record db {
  messages =
      update (λ m. m.message_id == id)
        (λ m. record m {
          provider_message_id = keep_or_set m.provider_message_id (some provider_message_id);
          updated_at = now;
        })
        db.messages;
}

abbrev pub is_ok : ℕ → Bool
is_ok status = leb 200 status && ltb status 300

abbrev pub resend_error : String → String → ℕ → String → String
resend_error message name status retry_after =
    let text = first_text (first_chars 500 (first_text message name)) (http_text status) in
    if retry_after == "" then text else joined text (joined "; retry-after=" retry_after)

abbrev pub labelled : String → String → String → String
labelled code other message = joined (first_text code other) (joined ":" (first_chars 200 message))

module _ (row : Message) (now : ℕ) where
  -- a failure: the row's new state, and the exception
  abbrev pub fail_with : Status → String → Error → Exec Outbox SendResult
  fail_with status error e o =
      (err e, record o { db = update_retryable_state row.message_id status error now o.db })

  abbrev pub confirm : ProviderId → String → Exec Outbox SendResult
  confirm p id o = (
    ok (record { provider = p; provider_message_id = id }),
    record o { db = set_provider_message_id row.message_id id now o.db },
  )

  abbrev pub resend_failure : Code → ℕ → String → Exec Outbox SendResult
  resend_failure provider_retryable status error =
      fail_with retryable_failed error
        (app_error (if eqb status 429 then 429 else 503) provider_retryable)
  resend_failure provider_idempotency_mismatch status error =
      fail_with failed error (app_error 409 provider_idempotency_mismatch)
  resend_failure c status error = fail_with failed error (app_error 422 c)

  unfoldable pub resend_answered : HttpAnswer → Exec Outbox SendResult
  unfolding classify_resend_failure
  resend_answered (no_answer timed_out) =
      fail_with sending
        (if timed_out then "resend_timeout_outcome_unknown" else "resend_outcome_unknown")
        (app_error 503 provider_outcome_unknown)
  resend_answered (response status id name code message retry_after) =
      if is_ok status
      then (if id == ""
          then fail_with sending "resend_success_without_confirmed_id"
              (app_error 503 provider_outcome_unknown)
          else confirm resend (first_chars 200 id))
      else resend_failure (classify_resend_failure status (first_chars 100 (first_text name code)))
          status (resend_error message name status (first_chars 100 retry_after))

  abbrev pub brevo_failure : Code → ℕ → String → Exec Outbox SendResult
  brevo_failure provider_retryable status error =
      fail_with retryable_failed error
        (app_error (if eqb status 429 then 429 else 503) provider_retryable)
  brevo_failure c status error =
      fail_with failed error
        (app_error (if eqb status 401 then 503 else if eqb status 403 then 503 else 422) c)

  unfoldable pub brevo_answered : HttpAnswer → Exec Outbox SendResult
  unfolding classify_brevo_failure
  brevo_answered (no_answer timed_out) =
      fail_with sending
        (if timed_out then "brevo_timeout_outcome_unknown" else "brevo_outcome_unknown")
        (app_error 503 provider_outcome_unknown)
  brevo_answered (response status id name code message retry_after) =
      if is_ok status
      then (if id == ""
          then fail_with sending "brevo_success_without_confirmed_id"
              (app_error 503 provider_outcome_unknown)
          else confirm brevo (first_chars 200 id))
      else brevo_failure (classify_brevo_failure status (first_chars 100 code)) status
          (first_text (first_chars 500 message) (http_text status))

  abbrev pub cloudflare_failure : Code → String → String → Exec Outbox SendResult
  cloudflare_failure provider_rate_limited code message =
      fail_with retryable_failed (labelled code "rate_limited" message)
        (app_error 429 provider_rate_limited)
  cloudflare_failure provider_rejected code message =
      fail_with failed (labelled code "rejected" message) (app_error 422 provider_rejected)
  cloudflare_failure provider_payload_too_large code message =
      fail_with failed (labelled code "rejected" message) (app_error 422 provider_payload_too_large)
  cloudflare_failure provider_auth_failed code message =
      fail_with failed (labelled code "rejected" message) (app_error 503 provider_auth_failed)
  cloudflare_failure c code message =
      fail_with sending (joined "cloudflare_outcome_unknown:" (first_chars 200 message))
        (app_error 503 provider_outcome_unknown)

  unfoldable pub cloudflare_answered : EmailAnswer → Exec Outbox SendResult
  unfolding classify_cloudflare_email_failure
  cloudflare_answered (send_error code message) =
      cloudflare_failure (classify_cloudflare_email_failure (first_chars 200 code)) code message
  cloudflare_answered (sent_with id) =
      if id == ""
      then fail_with sending "cloudflare_success_without_confirmed_id"
          (app_error 503 provider_outcome_unknown)
      else confirm cloudflare (first_chars 200 id)

  -- provider.send(env, row, plan)
  unfoldable pub send : Env → Answers → ProviderId → Exec Outbox SendResult
  send env answers resend o =
      if is_configured env resend
      then resend_answered answers.resend_answer (submit resend row row.idempotency_key o)
      else (err (app_error 503 provider_not_configured), o)
  send env answers brevo o =
      if is_configured env brevo
      then brevo_answered answers.brevo_answer (submit brevo row (some row.message_id) o)
      else (err (app_error 503 provider_not_configured), o)
  send env answers cloudflare o =
      if is_configured env cloudflare
      then (if ltb (5 * 1024 * 1024) answers.estimated_bytes
          then (err (app_error 413 provider_payload_too_large), o)
          else cloudflare_answered answers.cloudflare_answer (submit cloudflare row none o))
      else (err (app_error 503 provider_not_configured), o)

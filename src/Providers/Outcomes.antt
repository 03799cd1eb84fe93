-- ===== src/Providers/Outcomes.antt =====
-- What a send leaves behind, on each branch: how often and to whom it submitted, and the state of
-- the row that belongs to the exception.
use mail_gable.Base.{
  first_text, some, none, first_chars, http_text, Option, ℕ, String, ◌≡◌, refl, ◌==◌, ◌⊎◌, inl, inr,
  ltb, arith, ◌*◌, Bool-cases,
}
use mail_gable.Store.Status.{Status, sending, retryable_failed, failed}
use mail_gable.Store.Tables.{Message}
use mail_gable.Store.Effects.{
  Code, provider_retryable, provider_rate_limited, provider_outcome_unknown,
  provider_idempotency_mismatch, provider_not_configured, provider_rejected, provider_auth_failed,
  provider_payload_too_large, app_error, thrown, Error, Result, ok, err,
}
use mail_gable.Providers.Defs.{
  ProviderId, resend, brevo, cloudflare, Env, is_configured, classify_resend_failure,
  classify_brevo_failure,
}
use mail_gable.Providers.Send.{
  Outbox, HttpAnswer, no_answer, response, EmailAnswer, send_error, sent_with, Answers, SendResult,
  submit, update_retryable_state, set_provider_message_id, resend_error, is_ok, resend_failure,
  resend_answered, brevo_failure, brevo_answered, cloudflare_failure, cloudflare_answered, send,
}

-- The status that belongs to an exception of a provider that was contacted.
abbrev pub status_after : Code → Status
status_after provider_retryable = retryable_failed
status_after provider_rate_limited = retryable_failed
status_after provider_outcome_unknown = sending
status_after _ = failed

-- The keys by which the providers tell repeated requests apart.
abbrev pub key_of : Message → ProviderId → Option String
key_of row resend = row.idempotency_key
key_of row brevo = some row.message_id
key_of row cloudflare = none

module _ (row : Message) (now : ℕ) where
  -- The rows after provider p was contacted agree with the result, and nothing more is submitted.
  abbrev pub Reports : ProviderId → Outbox → Result SendResult → Outbox → Type 0
  Reports p o (ok r) o' =
      (r.provider ≡ p)
      × (o'.db ≡ set_provider_message_id row.message_id r.provider_message_id now o.db)
      × (o'.submissions ≡ o.submissions)
  Reports p o (err (app_error s c)) o' =
      (text : String) × (o'.db
        ≡ update_retryable_state row.message_id (status_after c) text now o.db)
      × (o'.submissions ≡ o.submissions)
  Reports p o (err (thrown e)) o' = ⊥

  resend_classes :
      (s : ℕ) (c : String)
      → (classify_resend_failure s c ≡ provider_retryable)
        ⊎ (classify_resend_failure s c ≡ provider_idempotency_mismatch)
        ⊎ (classify_resend_failure s c ≡ provider_rejected)
  unfolding classify_resend_failure
  resend_classes s c = ground arith

  brevo_classes :
      (s : ℕ) (c : String)
      → (classify_brevo_failure s c ≡ provider_retryable)
        ⊎ (classify_brevo_failure s c ≡ provider_auth_failed)
        ⊎ (classify_brevo_failure s c ≡ provider_rejected)
  unfolding classify_brevo_failure
  brevo_classes s c = ground arith

  resend_failure-Reports :
      (c : Code) (s : ℕ) (e : String) (o : Outbox)
      → (c ≡ provider_retryable) ⊎ (c ≡ provider_idempotency_mismatch) ⊎ (c ≡ provider_rejected)
      → Reports resend o (resend_failure row now c s e o).0 (resend_failure row now c s e o).1
  resend_failure-Reports c s e o (inl p) = rw p (_, refl, refl)
  resend_failure-Reports c s e o (inr (inl p)) = rw p (_, refl, refl)
  resend_failure-Reports c s e o (inr (inr p)) = rw p (_, refl, refl)

  brevo_failure-Reports :
      (c : Code) (s : ℕ) (e : String) (o : Outbox)
      → (c ≡ provider_retryable) ⊎ (c ≡ provider_auth_failed) ⊎ (c ≡ provider_rejected)
      → Reports brevo o (brevo_failure row now c s e o).0 (brevo_failure row now c s e o).1
  brevo_failure-Reports c s e o (inl p) = rw p (_, refl, refl)
  brevo_failure-Reports c s e o (inr (inl p)) = rw p (_, refl, refl)
  brevo_failure-Reports c s e o (inr (inr p)) = rw p (_, refl, refl)

  cloudflare_failure-Reports :
      (c : Code) (code message : String) (o : Outbox)
      → Reports cloudflare o
          (cloudflare_failure row now c code message o).0
          (cloudflare_failure row now c code message o).1
  cloudflare_failure-Reports provider_rate_limited code message o = (_, refl, refl)
  cloudflare_failure-Reports _ code message o = (_, refl, refl)

  pub resend-Reports :
      (a : HttpAnswer) (o : Outbox)
      → Reports resend o (resend_answered row now a o).0 (resend_answered row now a o).1
  unfolding resend_answered
  resend-Reports (no_answer t) o = (_, refl, refl)
  resend-Reports (response s id n c m r) o = elim (Bool-cases (is_ok s)) [
    | inl good ↦ rw good (elim (Bool-cases (id == "")) [
      | inl empty ↦ rw empty (_, refl, refl)
      | inr named ↦ rw named (refl, refl, refl)
    ])
    | inr bad ↦ rw bad (
        resend_failure-Reports (classify_resend_failure s (first_chars 100 (first_text n c))) s
          (resend_error m n s (first_chars 100 r)) o
          (resend_classes s (first_chars 100 (first_text n c))))
  ]

  pub brevo-Reports :
      (a : HttpAnswer) (o : Outbox)
      → Reports brevo o (brevo_answered row now a o).0 (brevo_answered row now a o).1
  unfolding brevo_answered
  brevo-Reports (no_answer t) o = (_, refl, refl)
  brevo-Reports (response s id n c m r) o = elim (Bool-cases (is_ok s)) [
    | inl good ↦ rw good (elim (Bool-cases (id == "")) [
      | inl empty ↦ rw empty (_, refl, refl)
      | inr named ↦ rw named (refl, refl, refl)
    ])
    | inr bad ↦ rw bad (
        brevo_failure-Reports (classify_brevo_failure s (first_chars 100 c)) s
          (first_text (first_chars 500 m) (http_text s)) o (brevo_classes s (first_chars 100 c)))
  ]

  pub cloudflare-Reports :
      (a : EmailAnswer) (o : Outbox)
      → Reports cloudflare o (cloudflare_answered row now a o).0 (cloudflare_answered row now a o).1
  unfolding cloudflare_answered
  cloudflare-Reports (send_error code message) o = cloudflare_failure-Reports _ code message o
  cloudflare-Reports (sent_with id) o = elim (Bool-cases (id == "")) [
    | inl empty ↦ rw empty (_, refl, refl)
    | inr named ↦ rw named (refl, refl, refl)
  ]

  pub send_outcome :
      (env : Env) (answers : Answers) (p : ProviderId) (o : Outbox)
      → ((e : Error) × (send row now env answers p o ≡ (err e, o)))
        ⊎ Reports p
            (submit p row (key_of row p) o)
            (send row now env answers p o).0
            (send row now env answers p o).1
  unfolding send
  send_outcome env answers resend o = elim (Bool-cases (is_configured env resend)) [
    | inl set ↦ inr (rw set (resend-Reports answers.resend_answer _))
    | inr unset ↦ inl (app_error 503 provider_not_configured, rw unset refl)
  ]
  send_outcome env answers brevo o = elim (Bool-cases (is_configured env brevo)) [
    | inl set ↦ inr (rw set (brevo-Reports answers.brevo_answer _))
    | inr unset ↦ inl (app_error 503 provider_not_configured, rw unset refl)
  ]
  send_outcome env answers cloudflare o = elim (Bool-cases (is_configured env cloudflare)) [
    | inr unset ↦ inl (app_error 503 provider_not_configured, rw unset refl)
    | inl set ↦ rw set (elim (Bool-cases (ltb (5 * 1024 * 1024) answers.estimated_bytes)) [
      | inl large ↦ rw large (inl (app_error 413 provider_payload_too_large, refl))
      | inr fits ↦ rw fits (inr (cloudflare-Reports answers.cloudflare_answer _))
    ])
  ]

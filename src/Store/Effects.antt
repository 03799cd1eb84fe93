-- ===== src/Store/Effects.antt =====
-- A handler's effect on the database. What was written before a throw stays written, so the
-- database comes back beside the error too.
use mail_gable.Base.{ℕ, String}

-- The codes of the AppErrors that the modelled code throws.
pub data Code : Type 0 where
  webhook_concurrent_update deletion_incomplete : Code
  provider_not_configured provider_not_configured_for_retry provider_retry_window_expired : Code
  provider_rate_limited provider_rejected provider_payload_too_large provider_auth_failed : Code
  provider_outcome_unknown provider_retryable provider_idempotency_mismatch : Code
  idempotency_payload_mismatch send_not_retryable send_rate_limited send_in_progress : Code
  idempotency_conflict send_create_failed archive_incomplete not_found archive_unavailable : Code
  inbound_forward_loop inbound_forward_failed inbound_forward_invalid_config : Code
  unsupported_provider_event invalid_queue_event invalid_webhook_auth : Code
  unauthorized csrf_invalid origin_not_configured origin_denied auth_not_configured : Code
  already_initialized not_initialized bootstrap_denied invalid_admin_email : Code
  invalid_password password_too_long password_unchanged invalid_credentials rate_limited : Code
  invalid_attachment webhook_not_configured invalid_webhook_signature invalid_json : Code
  body_too_large : Code
  routing_sync_not_configured routing_sync_permission_denied routing_sync_upstream_failed : Code
  routing_sync_upstream_invalid routing_sync_timeout routing_sync_snapshot_changed : Code
  routing_sync_database_failed routing_sync_verify_failed : Code

-- An AppError with its HTTP status, or another exception with its name.
pub data Error : Type 0 where
  app_error : ℕ → Code → Error
  thrown : String → Error

pub data Result {ℓ} (A : Type ℓ) : Type ℓ where
  ok : A → Result A
  err : Error → Result A

abbrev pub Exec {ℓ κ} : Type ℓ → Type κ → Type (ℓ ⊔ κ)
Exec S A = S → Result A × S

module _ {ℓ κ} {S : Type ℓ} {A : Type κ} where
  abbrev pub pure : A → Exec S A
  pure a s = (ok a, s)

  abbrev pub raise : Error → Exec S A
  raise e s = (err e, s)

  abbrev pub gets : (S → A) → Exec S A
  gets f s = (ok (f s), s)

-- a step that neither reads nor writes the state
abbrev pub lift {ℓ κ} : {S : Type ℓ} {A : Type κ} → Result A → Exec S A
lift r s = (r, s)

abbrev pub modify {ℓ} : {S : Type ℓ} → (S → S) → Exec S (Unit {0})
modify f s = (ok tt, f s)

module _ {ℓ κ ι} {S : Type ℓ} {A : Type κ} {B : Type ι} where
  abbrev pub continue : Result A → (A → Exec S B) → Exec S B
  continue (ok a) f s = f a s
  continue (err e) f s = (err e, s)

  infixl 5 ◌>>=◌ ◌>>◌
  abbrev pub ◌>>=◌ : Exec S A → (A → Exec S B) → Exec S B
  ◌>>=◌ m f s = let (r, s') = m s in continue r f s'

  abbrev pub ◌>>◌ : Exec S A → Exec S B → Exec S B
  m >> n = m >>= λ _. n

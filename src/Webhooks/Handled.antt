-- ===== src/Webhooks/Handled.antt =====
-- What a webhook of Resend can change.
use mail_gable.Base.{
  ℕ, String, Bool, true, false, Option, none, some, List, ◌≡◌, refl, ◌∙◌, ap, ◌⊎◌, inl, inr,
}
use mail_gable.Store.Tables.{Database}
use mail_gable.Store.Effects.{Error, Result, ok, err}
use mail_gable.Store.Inversion.{lift-cases}
use mail_gable.Delivery.Apply.{apply_delivery_event}
use mail_gable.Webhooks.Normalize.{ResendPayload, normalize_resend_event}
use mail_gable.Webhooks.Handlers.{
  SvixHeaders, verify_svix_signature, Arrival, parsed, require_signature, require_secret,
  handle_resend_webhook,
}
use mail_gable.Webhooks.Signed.{IsSigned, verify_svix_signature-ok}

module _ (hmac : List ℕ → String → List ℕ) (parse : String → Option ResendPayload) where
  -- The request was signed and has been read, and its result is that of applyDeliveryEvent.
  abbrev pub IsApplied :
      Arrival → String → SvixHeaders → String → Database → Result Bool × Database → Type 0
  IsApplied a secret h raw db r =
      (bytes : List ℕ) × (entry : String) × (value : String) × (payload : ResendPayload) × IsSigned
        hmac raw h secret a.seconds bytes entry value
      × (parse raw ≡ some payload)
      × (r
          ≡ apply_delivery_event (normalize_resend_event payload h.svix_id) a.event_id a.now
              a.others db)

  -- A webhook of Resend is refused, and the database is as it was; or it has a valid signature over
  -- its id, its time and its body, the body has been read, and what it does is what
  -- applyDeliveryEvent does with the event of the body and the id.
  pub handle_resend_webhook-IsApplied :
      (a : Arrival) (secret : String) (h : SvixHeaders) (raw : String) (db : Database)
      → ((e : Error) × (handle_resend_webhook hmac parse a secret h raw db ≡ (err e, db)))
        ⊎ IsApplied a secret h raw db (handle_resend_webhook hmac parse a secret h raw db)
  unfolding handle_resend_webhook
  handle_resend_webhook-IsApplied a secret h raw db =
      lift-cases Ends (require_secret secret) _ db refused λ _ _.
        lift-cases Ends (verify_svix_signature hmac raw h secret a.seconds) _ db refused
          λ valid checked. lift-cases Ends (require_signature valid) _ db refused λ _ passed.
            lift-cases Ends (parsed (parse raw)) _ db refused λ payload readable.
              let (bytes, entry, value, shown) =
                verify_svix_signature-ok hmac raw h secret a.seconds
                  (checked ∙ ap ok (signed valid passed)) in
              inr (bytes, entry, value, payload, shown, found (parse raw) payload readable, refl)
    where
      Ends : Result Bool × Database → Type 0
      Ends r = ((e : Error) × (r ≡ (err e, db))) ⊎ IsApplied a secret h raw db r

      refused : (e : Error) → Ends (err e, db)
      refused e = inl (e, refl)

      signed : (valid : Bool) {u : Unit {0}} → require_signature valid ≡ ok u → valid ≡ true
      signed true e = refl
      signed false e = cc

      found :
          (o : Option ResendPayload) (payload : ResendPayload)
          → parsed o ≡ ok payload
          → o ≡ some payload
      found none payload e = cc
      found (some p) payload e = let same : p ≡ payload = cc in ap some same

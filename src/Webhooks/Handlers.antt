-- ===== src/Webhooks/Handlers.antt =====
-- The webhooks and the queue (src/mail/delivery-events.ts), and the signature of Svix
-- (verifySvixSignature of src/lib.ts).
use Prim.Native.Char.{code}
use Prim.Native.String.{◌++◌ as joined}
use mail_gable.Base.{
  ℕ, ◌+◌, ◌-◌, ◌*◌, String, Bool, true, false, Option, none, some, List, [], ◌∷◌, ◌++◌, ◌==◌, not,
  ◌&&◌, ◌||◌, ltb, eqb, if◌then◌else◌, or_else, any, length, is_space,
}
use mail_gable.Store.Tables.{Database}
use mail_gable.Store.Effects.{
  webhook_not_configured, invalid_webhook_signature, invalid_json, body_too_large, app_error,
  Result, ok, err, Exec, lift, ◌>>=◌, ◌>>◌,
}
use mail_gable.Helpers.{parse_int, base64_url_to_bytes, bytes_to_base64}
use mail_gable.Delivery.Apply.{NormalizedDeliveryEvent, apply_delivery_event}
use mail_gable.Webhooks.Parts.{Platform, after_prefix}
use mail_gable.Webhooks.Normalize.{
  ResendPayload, normalize_resend_event, BrevoPayload, normalize_brevo_event, CloudEvent,
  normalize_cloudflare_queue_event, sending_kind,
}

-- the loop of readTextLimited over the chunks of the body
unfoldable pub read_chunks : ℕ → List ℕ → List (List ℕ) → Result (List ℕ)
read_chunks max seen [] = ok seen
read_chunks max seen (c ∷ cs) =
    let rest = read_chunks max (seen ++ c) cs in
    if ltb max (length seen + length c) then err (app_error 413 body_too_large) else rest

-- readTextLimited; `declared` is the number in Content-Length, if there is one
unfoldable pub read_text_limited : ℕ → Option ℕ → List (List ℕ) → Result (List ℕ)
unfolding read_chunks
read_text_limited max declared chunks =
    if ltb max (or_else declared 0)
    then err (app_error 413 body_too_large)
    else read_chunks max [] chunks

-- the codes of a text's characters
unfoldable pub codes_of : String → List ℕ
codes_of String.[] = []
codes_of (String.◌∷◌ c s) = code c ∷ codes_of s

-- signature.split(/\s+/), whose empty parts have no version
unfoldable pub split_entries : String → String → List String
unfolding is_space
split_entries part String.[] = part ∷ []
split_entries part (String.◌∷◌ c s) =
    let rest = split_entries "" s in
    let longer = split_entries (joined part (String.◌∷◌ c "")) s in
    if is_space (code c) then part ∷ rest else longer

-- the text before the first comma
unfoldable pub before_comma : String → String
before_comma String.[] = ""
before_comma (String.◌∷◌ c s) =
    let rest = before_comma s in if eqb (code c) b',' then "" else String.◌∷◌ c rest

abbrev pub same_codes : List ℕ → List ℕ → Bool
same_codes [] [] = true
same_codes [] (y ∷ ys) = false
same_codes (x ∷ xs) [] = false
same_codes (x ∷ xs) (y ∷ ys) = eqb x y && same_codes xs ys

-- entry.split(",", 2) with the version "v1"
abbrev pub entry_value : String → Option String
entry_value entry = elim (after_prefix "v1," entry) [
  | none ↦ none
  | some rest ↦ some (before_comma rest)
]

abbrev pub is_signed : List ℕ → Option String → Bool
is_signed expected none = false
is_signed expected (some value) = not (value == "") && same_codes (codes_of value) expected

pub record SvixHeaders : Type 0 where
  pub svix_id : String
  pub svix_timestamp : String
  pub svix_signature : String

-- Math.abs(now - then) > 5 * 60
abbrev pub is_far : ℕ → Option ℕ → Bool
is_far now none = true
is_far now (some at) = ltb (5 * 60) ((now - at) + (at - now))

module _ (hmac : List ℕ → String → List ℕ) where
  abbrev pub signature_of : SvixHeaders → String → List ℕ → List ℕ
  signature_of h raw secret =
      bytes_to_base64
        (hmac secret (joined h.svix_id (joined "." (joined h.svix_timestamp (joined "." raw)))))

  abbrev pub check_entries : SvixHeaders → String → Result (List ℕ) → Result Bool
  check_entries h raw (err e) = err (app_error 503 webhook_not_configured)
  check_entries h raw (ok secret) = ok (
      any (λ entry. is_signed (signature_of h raw secret) (entry_value entry))
        (split_entries "" h.svix_signature))

  -- verifySvixSignature; the clock is in seconds
  unfoldable pub verify_svix_signature : String → SvixHeaders → String → ℕ → Result Bool
  unfolding parse_int after_prefix base64_url_to_bytes bytes_to_base64 codes_of split_entries
      before_comma any
  verify_svix_signature raw h secret now =
      if (h.svix_id == "") || is_far now (parse_int h.svix_timestamp) || (h.svix_signature == "")
      then ok false
      else check_entries h raw
          (base64_url_to_bytes (codes_of (or_else (after_prefix "whsec_" secret) secret)))

-- the clock in seconds and in milliseconds, a fresh id, and what other requests write
pub record Arrival : Type 0 where
  pub seconds : ℕ
  pub now : ℕ
  pub event_id : String
  pub others : ℕ → Database → Database

abbrev pub parsed {ℓ} : {A : Type ℓ} → Option A → Result A
parsed none = err (app_error 400 invalid_json)
parsed (some a) = ok a

abbrev pub require_signature : Bool → Result (Unit {0})
require_signature true = ok tt
require_signature false = err (app_error 400 invalid_webhook_signature)

abbrev pub require_secret : String → Result (Unit {0})
require_secret secret = if secret == "" then err (app_error 503 webhook_not_configured) else ok tt

-- handleResendWebhook, whose body has been read; the result is `duplicate`
unfoldable pub handle_resend_webhook :
    (List ℕ → String → List ℕ)
    → (String → Option ResendPayload)
    → Arrival
    → String
    → SvixHeaders
    → String
    → Exec Database Bool
unfolding verify_svix_signature normalize_resend_event apply_delivery_event
handle_resend_webhook hmac parse a secret h raw =
    lift (require_secret secret)
    >> (lift (verify_svix_signature hmac raw h secret a.seconds) >>= λ valid.
        lift (require_signature valid)
        >> (lift (parsed (parse raw)) >>= λ payload.
            apply_delivery_event (normalize_resend_event payload h.svix_id) a.event_id a.now
              a.others))

-- handleBrevoWebhook, whose body has been read
unfoldable pub handle_brevo_webhook :
    Platform
    → (String → Option BrevoPayload)
    → Arrival
    → String
    → String
    → String
    → Exec Database Bool
unfolding after_prefix normalize_brevo_event apply_delivery_event
handle_brevo_webhook w parse a token authorization raw =
    lift (require_secret token)
    >> (lift (parsed (parse raw)) >>= λ payload.
        lift (
          normalize_brevo_event w payload (or_else (after_prefix "Bearer " authorization) "") token)
        >>= λ event. apply_delivery_event event a.event_id a.now a.others)

abbrev pub take_event : Arrival → Result NormalizedDeliveryEvent → Exec Database (Unit {0})
take_event a (err e) db = (err e, db)
take_event a (ok event) db =
    (apply_delivery_event event a.event_id a.now a.others >>= λ duplicate db. (ok tt, db)) db

abbrev pub take_message : Platform → Arrival → CloudEvent → Exec Database (Unit {0})
take_message w a e db = elim (sending_kind e) [
  | none ↦ (ok tt, db)
  | some _ ↦ take_event a (normalize_cloudflare_queue_event w e) db
]

-- handleCloudflareQueueEvent
unfoldable pub handle_cloudflare_queue_event :
    Platform → List (Arrival × CloudEvent) → Exec Database (Unit {0})
unfolding normalize_cloudflare_queue_event apply_delivery_event
handle_cloudflare_queue_event w [] db = (ok tt, db)
handle_cloudflare_queue_event w ((a, e) ∷ rest) db =
    (take_message w a e >> handle_cloudflare_queue_event w rest) db

-- ===== src/Webhooks/Normalize.antt =====
-- The events of the three providers (src/providers/events.ts). A field that is missing or no text
-- is "". Dates and SHA-256 are parameters. The maps of the statuses have no entry for the names
-- that every object inherits, such as "constructor", which the code does find there.
use mail_gable.Base.{
  ℕ, ◌*◌, String, Bool, Option, none, some, List, [], ◌∷◌, ◌==◌, not, ◌&&◌, ◌||◌, eqb,
  if◌then◌else◌, first_chars, first_text, or_null, or_else, trim, map, is_some,
}
use mail_gable.Store.Status.{
  Status, sent, delivery_delayed, delivered, opened, clicked, failed, suppressed, bounced,
  complained,
}
use mail_gable.Store.Effects.{
  invalid_webhook_auth, unsupported_provider_event, invalid_queue_event, app_error, Result, ok, err,
}
use mail_gable.Helpers.{email_list, code_points, read_digits, is_digit}
use mail_gable.Delivery.Apply.{NormalizedDeliveryEvent}
use mail_gable.Routing.{all_chars}
use mail_gable.Webhooks.Parts.{
  Platform, after_prefix, status_of, deterministic_event_key, email_list_of,
}

pub record ResendPayload : Type 0 where
  pub kind : String
  pub email_id : String
  pub id : String
  pub tag_message_id : String
  pub tag_mailbox_id : String
  pub to : List String
  pub created_at : String
  pub data_created_at : String

unfoldable pub normalize_resend_event : ResendPayload → String → NormalizedDeliveryEvent
unfolding first_chars after_prefix email_list_of
normalize_resend_event p svix_id = record {
  provider = "resend";
  provider_event_id = svix_id;
  provider_message_id = first_chars 200 (first_text p.email_id p.id);
  tagged_message_id = first_chars 200 (first_text p.tag_message_id p.tag_mailbox_id);
  recipients = email_list_of p.to 100;
  raw_type = first_text (first_chars 100 p.kind) "unknown";
  status = status_of (or_else (after_prefix "email." p.kind) p.kind);
  occurred_at = or_null (first_chars 100 (first_text p.created_at p.data_created_at));
}

-- BREVO_STATUS_MAP
abbrev pub brevo_status : String → Option Status
brevo_status e =
    if (e == "sent") || (e == "request")
    then some sent
    else if e == "delivered"
    then some delivered
    else if (e == "deferred") || (e == "soft_bounce") || (e == "softBounce")
    then some delivery_delayed
    else if (e == "hard_bounce") || (e == "hardBounce")
    then some bounced
    else if (e == "blocked") || (e == "unsubscribed")
    then some suppressed
    else if (e == "invalid_email") || (e == "invalidEmail")
    then some failed
    else if e == "spam"
    then some complained
    else if e == "opened"
    then some opened
    else if (e == "click") || (e == "clicks")
    then some clicked
    else none

-- normalizeEventTimestamp
unfoldable pub normalize_event_timestamp : Platform → String → String
unfolding trim all_chars code_points read_digits
normalize_event_timestamp w value =
    let trimmed = trim value in
    if eqb (code_points trimmed) 10 && all_chars is_digit trimmed
    then w.iso_of_ms (or_else (read_digits none trimmed) 0 * 1000)
    else if eqb (code_points trimmed) 13 && all_chars is_digit trimmed
    then w.iso_of_ms (or_else (read_digits none trimmed) 0)
    else or_else (w.parse_date trimmed) trimmed

abbrev is_no_line_end : ℕ → Bool
is_no_line_end c = not (eqb c 10 || eqb c 13 || eqb c 0x2028 || eqb c 0x2029)

-- tag.match(/^mailbox:(.+)$/), "" without a match
abbrev pub mailbox_tag : String → String
mailbox_tag tag =
    let rest = or_else (after_prefix "mailbox:" tag) "" in
    if all_chars is_no_line_end rest then rest else ""

-- the first text that is not empty
unfoldable pub first_named : List String → String
first_named [] = ""
first_named (s ∷ ss) = let rest = first_named ss in if s == "" then rest else s

pub record BrevoPayload : Type 0 where
  pub event : String
  pub dashed_message_id : String
  pub message_id : String
  pub email : String
  pub tags : List String
  pub ts_event : String
  pub ts_epoch : String
  pub date : String

abbrev pub first_recipient : List String → String
first_recipient [] = "*"
first_recipient (r ∷ rs) = r

abbrev pub brevo_event : Platform → BrevoPayload → Option Status → Result NormalizedDeliveryEvent
brevo_event w p none = err (app_error 422 unsupported_provider_event)
brevo_event w p (some status) =
    let message = first_text (first_chars 200 p.dashed_message_id) (first_chars 200 p.message_id) in
    let recipients = email_list p.email 10 in
    let raw =
      first_text (first_text (first_chars 40 p.ts_event) (first_chars 40 p.ts_epoch))
        (first_chars 100 p.date) in
    let at = if raw == "" then "" else normalize_event_timestamp w raw in
    let event = first_chars 100 p.event in
    ok (record {
      provider = "brevo";
      provider_event_id =
          deterministic_event_key w "brevo"
            (message ∷ first_recipient recipients ∷ event ∷ first_text at raw ∷ []);
      provider_message_id = message;
      tagged_message_id = first_named (map mailbox_tag p.tags);
      recipients = recipients;
      raw_type = event;
      status = status;
      occurred_at = if raw == "" then none else some at;
    })

unfoldable pub normalize_brevo_event :
    Platform → BrevoPayload → String → String → Result NormalizedDeliveryEvent
unfolding first_chars after_prefix first_named email_list normalize_event_timestamp
    deterministic_event_key all_chars
normalize_brevo_event w p bearer expected =
    if (expected == "") || not (bearer == expected)
    then err (app_error 401 invalid_webhook_auth)
    else brevo_event w p (brevo_status (first_chars 100 p.event))

pub record CloudEvent : Type 0 where
  pub kind : String
  pub source_type : String
  pub message_id : String
  pub recipient : String
  pub event_id : String
  pub event_timestamp : String

-- CLOUDFLARE_STATUS_MAP
abbrev pub cloudflare_status : String → Option Status
cloudflare_status e =
    if e == "message.delivered"
    then some delivered
    else if e == "message.deferred"
    then some delivery_delayed
    else if e == "message.bounced"
    then some bounced
    else if e == "message.failed"
    then some failed
    else if e == "message.rejected"
    then some suppressed
    else if e == "message.complained"
    then some complained
    else none

abbrev pub cloud_event : Platform → CloudEvent → Option Status → Result NormalizedDeliveryEvent
cloud_event w e none = err (app_error 422 unsupported_provider_event)
cloud_event w e (some status) =
    let kind = first_chars 200 e.kind in
    let message = first_chars 200 e.message_id in
    let recipient = first_chars 320 e.recipient in
    let at = normalize_event_timestamp w (first_chars 40 e.event_timestamp) in
    ok (record {
      provider = "cloudflare";
      provider_event_id =
          first_text (first_chars 200 e.event_id)
            (deterministic_event_key w "cloudflare" (kind ∷ message ∷ recipient ∷ at ∷ []));
      provider_message_id = message;
      tagged_message_id = "";
      recipients = if recipient == "" then [] else recipient ∷ [];
      raw_type = kind;
      status = status;
      occurred_at = or_null at;
    })

abbrev pub sending_kind : CloudEvent → Option String
sending_kind e = after_prefix "cf.email.sending." (first_chars 200 e.kind)

unfoldable pub normalize_cloudflare_queue_event :
    Platform → CloudEvent → Result NormalizedDeliveryEvent
unfolding first_chars after_prefix normalize_event_timestamp deterministic_event_key
normalize_cloudflare_queue_event w e =
    if not (first_chars 100 e.source_type == "email.sending") || not (is_some (sending_kind e))
    then err (app_error 400 invalid_queue_event)
    else cloud_event w e (cloudflare_status (or_else (sending_kind e) ""))

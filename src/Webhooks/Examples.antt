-- ===== src/Webhooks/Examples.antt =====
-- A webhook of Resend for a message that is not known.
use mail_gable.Base.{ℕ, String, true, Option, some, List, [], ◌∷◌, ◌≡◌, ◌≤◌, refl, length, ◌⊎◌}
use mail_gable.Store.Samples.{no_rows}
use mail_gable.Store.Effects.{Error, ok, err}
use mail_gable.Webhooks.Handled.{IsApplied, handle_resend_webhook-IsApplied}
use mail_gable.Webhooks.Normalize.{ResendPayload}
use mail_gable.Webhooks.Handlers.{
  SvixHeaders, Arrival, verify_svix_signature, handle_resend_webhook, read_text_limited,
}
use mail_gable.Webhooks.Signed.{
  IsSigned, verify_svix_signature-ok, join_chunks, read_text_limited-ok,
}

abbrev mac : List ℕ → String → List ℕ
mac secret text = 1 ∷ 2 ∷ 3 ∷ []

abbrev headers : SvixHeaders
headers = record {
  svix_id = "evt_1";
  svix_timestamp = "1700000000";
  svix_signature = "v1,BBBB v1,AQID";
}

abbrev payload : ResendPayload
payload = record {
  kind = "email.delivered";
  email_id = "re_1";
  id = "";
  tag_message_id = "";
  tag_mailbox_id = "";
  to = "b@x.org" ∷ [];
  created_at = "";
  data_created_at = "";
}

abbrev parse : String → Option ResendPayload
parse raw = some payload

abbrev arrival : String → Arrival
arrival id = record {
  seconds = 1700000100;
  now = 1700000100000;
  event_id = id;
  others = λ n db. db;
}

valid : verify_svix_signature mac "{}" headers "whsec_AQID" 1700000100 ≡ ok true
unfolding verify_svix_signature
valid = refl

verify_svix_signature-ok_example :
    (bytes : List ℕ) × (entry : String) × (value : String) × IsSigned mac "{}" headers "whsec_AQID"
      1700000100 bytes entry value
verify_svix_signature-ok_example =
    verify_svix_signature-ok mac "{}" headers "whsec_AQID" 1700000100 valid

handle_resend_webhook-IsApplied_example :
    ((e : Error) × (handle_resend_webhook mac parse (arrival "e1") "whsec_AQID" headers "{}" no_rows
        ≡ (err e, no_rows)))
    ⊎ IsApplied mac parse
        (arrival "e1")
        "whsec_AQID"
        headers
        "{}"
        no_rows
        (handle_resend_webhook mac parse (arrival "e1") "whsec_AQID" headers "{}" no_rows)
handle_resend_webhook-IsApplied_example =
    handle_resend_webhook-IsApplied mac parse (arrival "e1") "whsec_AQID" headers "{}" no_rows

-- it is processed, and answered as a duplicate
taken :
    handle_resend_webhook mac parse (arrival "e1") "whsec_AQID" headers "{}" no_rows
    ≡ (ok true, no_rows)
unfolding handle_resend_webhook mail_gable.Delivery.Apply.process_event
    mail_gable.Delivery.Apply.update_message mail_gable.Delivery.Apply.event_message
    mail_gable.Base.find mail_gable.Delivery.Apply.insert_event
taken = refl

body : read_text_limited 4 (some 3) ((1 ∷ 2 ∷ []) ∷ (3 ∷ []) ∷ []) ≡ ok (1 ∷ 2 ∷ 3 ∷ [])
unfolding read_text_limited
body = refl

read_text_limited-ok_example :
    (Path (List ℕ) (1 ∷ 2 ∷ 3 ∷ []) (join_chunks ((1 ∷ 2 ∷ []) ∷ (3 ∷ []) ∷ [])))
    × (length {A = ℕ} (1 ∷ 2 ∷ 3 ∷ []) ≤ 4)
read_text_limited-ok_example =
    read_text_limited-ok 4 (some 3) ((1 ∷ 2 ∷ []) ∷ (3 ∷ []) ∷ []) (1 ∷ 2 ∷ 3 ∷ []) body

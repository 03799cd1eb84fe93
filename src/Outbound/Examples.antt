-- ===== src/Outbound/Examples.antt =====
-- Concrete sends: a store without messages, and one whose message has failed for a retry.
use mail_gable.Base.{ℕ, String, true, false, none, some, [], ◌∷◌, ◌≡◌, refl, ◌++◌, ◌⊎◌, find}
use mail_gable.Store.Status.{sent}
use mail_gable.Store.Tables.{Message}
use mail_gable.Store.Samples.{no_rows, waiting_row}
use mail_gable.Store.Effects.{ok}
use mail_gable.Threads.{find_message}
use mail_gable.Providers.{
  Env, outbound_provider, ProviderId, brevo, Outbox, Answers, response, sent_with,
}
use mail_gable.Archive.{Faults}
use mail_gable.Outbound.Defs.{Call, SendPlan, Reply}
use mail_gable.Outbound.Handlers.{send_message, retry_message}
use mail_gable.Outbound.Pinning.{retry_message-submissions, IsPinnedTo, submission}
use mail_gable.Outbound.Submitting.{Sends, send_message-submissions}
use mail_gable.Outbound.Replay.{send_message-replay}

abbrev no_faults : Faults
no_faults = record {
  put_fails = λ _. false;
  delete_fails = λ _. false;
  insert_fails = λ _. false;
  update_fails = false;
}

abbrev answers : Answers
answers = record {
  resend_answer = response 200 "re_1" "" "" "" "";
  brevo_answer = response 201 "<b1@brevo>" "" "" "" "";
  cloudflare_answer = sent_with "c1";
  estimated_bytes = 900;
}

-- both Resend and Brevo are configured, and `active` is the one for new messages
abbrev env : String → Env
env active = record {
  outbound_provider = active;
  resend_api_key = "key";
  brevo_api_key = "key";
  has_email_binding = false;
}

abbrev call : String → ℕ → Call
call active now = record {
  env = env active;
  admin_id = "admin";
  now = now;
  message_id = "m1";
  internet_id = "<m1@example.com>";
  raw_key = "outgoing/raw.eml";
  faults = no_faults;
  answers = answers;
}

abbrev plan : SendPlan
plan = record {
  mailbox_id = "box";
  mailbox_address = "box@example.com";
  from_json = "[]";
  to = "you@example.org" ∷ [];
  cc = [];
  subject = "Hello";
  text_preview = some "Hi";
  uploads = [];
  parent = none;
  thread_id = "t1";
  request_hash = "h1";
}

abbrev empty : Outbox
empty = record { db = no_rows; submissions = []; bucket = [] }

abbrev waiting : Outbox
waiting = record empty { db = record no_rows { messages = waiting_row ∷ [] } }

abbrev reply : Reply
reply = record {
  message_id = "m1";
  thread_id = "t1";
  provider = "resend";
  provider_message_id = "re_1";
  status = sent;
  idempotent = false;
}

abbrev after : Outbox
after = (send_message (call "resend" 1000) plan "key-0001" (λ db. db) empty).1

first_send : send_message (call "resend" 1000) plan "key-0001" (λ db. db) empty ≡ (ok reply, after)
unfolding send_message mail_gable.Providers.outbound_provider find
    mail_gable.Outbound.Defs.create_message mail_gable.Outbound.Defs.sends_in_hour
    mail_gable.Base.count mail_gable.Outbound.Defs.insert_message mail_gable.Base.any
    mail_gable.Threads.ensure_thread find_message mail_gable.Outbound.Handlers.deliver
    mail_gable.Outbound.Handlers.archive_first mail_gable.Archive.archive_outgoing
    mail_gable.Archive.delete_outgoing_attachments mail_gable.Archive.archive_outgoing_attachments
    mail_gable.Archive.put_all mail_gable.Archive.insert_chunks mail_gable.Archive.put_r2
    mail_gable.Archive.delete_objects mail_gable.Archive.mark_archived mail_gable.Base.delete
    mail_gable.Base.update mail_gable.Base.where_rows mail_gable.Base.first_chars
    mail_gable.Base.is_space mail_gable.Base.lower_is mail_gable.Outbound.Defs.set_message
    mail_gable.Outbound.Defs.parent_internet_id mail_gable.Outbound.Defs.parent_references
    mail_gable.Outbound.Handlers.deliver_with_provider mail_gable.Outbound.Handlers.finish
    mail_gable.Outbound.Handlers.record_sent mail_gable.Providers.is_configured
    mail_gable.Providers.named_provider mail_gable.Providers.resend_answered
    mail_gable.Providers.send mail_gable.Providers.set_provider_message_id
    mail_gable.Threads.distinct mail_gable.Threads.insert_thread mail_gable.Threads.is_address
    mail_gable.Threads.is_domain
first_send = refl

active_brevo : outbound_provider (env "brevo") ≡ some brevo
unfolding outbound_provider
active_brevo = refl

send_message-replay_example :
    (again : Reply) × (send_message (call "brevo" 2000) plan "key-0001" (λ db. db) after
      ≡ (ok again, after))
    × (again.message_id ≡ "m1")
    × (again.idempotent ≡ true)
send_message-replay_example =
    send_message-replay (call "resend" 1000) (call "brevo" 2000) plan plan "key-0001" (λ db. db)
      (λ db. db) reply empty after brevo first_send active_brevo refl

-- the retry goes to Resend, although Brevo is active
retry_message-submissions_example :
    ((retry_message (call "brevo" 2000) (ok tt) "m1" waiting).1.submissions ≡ waiting.submissions)
    ⊎ ((row : Message) × (p : ProviderId) × (find_message "m1" waiting.db ≡ some row)
        × IsPinnedTo (call "brevo" 2000) row p
        × ((retry_message (call "brevo" 2000) (ok tt) "m1" waiting).1.submissions
            ≡ waiting.submissions ++ submission p row ∷ []))
retry_message-submissions_example =
    retry_message-submissions (call "brevo" 2000) (ok tt) "m1" waiting

-- the repeated send goes to Brevo, although the row is pinned to Resend
send_message-submissions_example :
    Sends
      (call "brevo" 2000)
      plan
      "key-0001"
      (λ db. db)
      waiting
      (send_message (call "brevo" 2000) plan "key-0001" (λ db. db) waiting).1.submissions
send_message-submissions_example =
    send_message-submissions (call "brevo" 2000) plan "key-0001" (λ db. db) waiting

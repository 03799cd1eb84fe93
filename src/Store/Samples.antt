-- ===== src/Store/Samples.antt =====
-- Rows for the tests.
use mail_gable.Base.{true, false, none, some, []}
use mail_gable.Store.Status.{retryable_failed}
use mail_gable.Store.Tables.{Thread, open_thread, Message, Database, outgoing, archived}

abbrev pub no_rows : Database
no_rows = record {
  messages = [];
  threads = [];
  attachments = [];
  events = [];
  forward_attempts = [];
}

-- a message that is pinned to Resend, archived, and failed for a retry
abbrev pub waiting_row : Message
waiting_row = record {
  message_id = "m1";
  thread_id = "t1";
  mailbox_id = some "box";
  direction = outgoing;
  envelope_from = some "box@example.com";
  envelope_to = "you@example.org";
  from_json = "[]";
  text_body = some "Hi";
  internet_message_id = some "<m1@example.com>";
  provider_internet_message_id = none;
  in_reply_to = none;
  references_header = none;
  parent_message_id = none;
  outbound_provider = some "resend";
  provider_message_id = none;
  resend_email_id = none;
  idempotency_key = some "key-0001";
  request_hash = "h1";
  status = retryable_failed;
  is_read = true;
  is_replied = false;
  received_at = none;
  sent_at = some 1000;
  raw_r2_key = some "outgoing/raw.eml";
  archive_status = archived;
  last_error = some "HTTP 500";
  recipient_status = [];
  created_by_admin_id = some "admin";
  created_at = 1000;
  updated_at = 1000;
}

abbrev pub old_thread : Thread
old_thread = record {
  thread_id = "t1";
  mailbox_id = some "box";
  subject = "Hello";
  participants = [];
  last_message_at = 1000;
  unread_count = 0;
  is_replied = false;
  status = open_thread;
  latest_message_id = some "m1";
  latest_direction = some outgoing;
  latest_sender_json = "[]";
  latest_envelope_from = none;
  latest_recipient = "";
  latest_preview = "";
  latest_message_status = none;
  has_incoming = false;
  has_outgoing = true;
  has_attachment = false;
  created_at = 1000;
  updated_at = 1000;
}

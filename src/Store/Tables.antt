-- ===== src/Store/Tables.antt =====
-- The rows of the D1 tables (migrations/*.sql) with the columns that the modelled code uses.
-- A time is its number of milliseconds: the ISO texts that the program writes have a fixed width,
-- so their order is that of the numbers. A column that holds JSON is the value that it encodes.
use mail_gable.Base.{ℕ, String, Bool, Option, List}
use mail_gable.Store.Status.{Status}

pub data Direction : Type 0 where
  incoming outgoing outgoing_backup_copy unknown : Direction

pub data ArchiveStatus : Type 0 where
  pending archived partial archive_failed not_applicable : ArchiveStatus

-- mail_messages.recipient_status_json: the recipients in the order in which they were added
abbrev pub Summary : Type 0
Summary = List (String × Status)

pub record Message : Type 0 where
  pub message_id : String
  pub thread_id : String
  pub mailbox_id : Option String
  pub direction : Direction
  pub envelope_from : Option String
  pub envelope_to : String
  pub from_json : String
  pub text_body : Option String
  pub internet_message_id : Option String
  pub provider_internet_message_id : Option String
  pub in_reply_to : Option String
  pub references_header : Option String
  pub parent_message_id : Option String
  pub outbound_provider : Option String
  pub provider_message_id : Option String
  pub resend_email_id : Option String
  pub idempotency_key : Option String
  pub request_hash : String
  pub status : Status
  pub is_read : Bool
  pub is_replied : Bool
  pub received_at : Option ℕ
  pub sent_at : Option ℕ
  pub raw_r2_key : Option String
  pub archive_status : ArchiveStatus
  pub last_error : Option String
  pub recipient_status : Summary
  pub created_by_admin_id : Option String
  pub created_at : ℕ
  pub updated_at : ℕ

pub data ThreadStatus : Type 0 where
  open_thread archived_thread spam trash : ThreadStatus

pub record Thread : Type 0 where
  pub thread_id : String
  pub mailbox_id : Option String
  pub subject : String
  pub participants : List String
  pub last_message_at : ℕ
  pub unread_count : ℕ
  pub is_replied : Bool
  pub status : ThreadStatus
  pub latest_message_id : Option String
  pub latest_direction : Option Direction
  pub latest_sender_json : String
  pub latest_envelope_from : Option String
  pub latest_recipient : String
  pub latest_preview : String
  pub latest_message_status : Option Status
  pub has_incoming : Bool
  pub has_outgoing : Bool
  pub has_attachment : Bool
  pub created_at : ℕ
  pub updated_at : ℕ

pub record AttachmentRow : Type 0 where
  pub attachment_id : String
  pub message_id : String
  pub r2_object_key : String
  pub size : ℕ

pub record DeliveryEvent : Type 0 where
  pub event_id : String
  pub provider : String
  pub provider_event_id : String
  pub provider_message_id : Option String
  pub message_id : Option String
  pub event_type : String
  pub status : Status
  pub recipients : List String
  pub occurred_at : Option String
  pub received_at : ℕ
  pub payload_json : String

pub data ForwardStatus : Type 0 where
  waiting in_flight accepted forward_failed : ForwardStatus

pub record ForwardAttempt : Type 0 where
  pub message_id : String
  pub target : String
  pub status : ForwardStatus
  pub attempts : ℕ
  pub last_error : Option String
  pub last_attempt_at : Option ℕ
  pub accepted_at : Option ℕ
  pub created_at : ℕ
  pub updated_at : ℕ

pub record Database : Type 0 where
  pub messages : List Message
  pub threads : List Thread
  pub attachments : List AttachmentRow
  pub events : List DeliveryEvent
  pub forward_attempts : List ForwardAttempt

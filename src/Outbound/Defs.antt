-- ===== src/Outbound/Defs.antt =====
-- The parts of sendMessage and retryMessage. A plan is what buildSendPlan returns, and timingSafeEqual
-- of two texts is their equality. The created_at of a row is a time that Date.parse reads. The
-- audit log is not modelled.
use Prim.Native.String.{◌++◌ as joined}
use mail_gable.Headers.{normalize_internet_message_id, references, last_n}
use mail_gable.Base.{
  or_null, first_text, trim, trim_start, first_chars, starts_lower, where_rows, not, ℕ, ◌-◌, ◌*◌,
  String, Bool, true, false, Option, none, some, List, [], ◌∷◌, ◌++◌, ◌==◌, ◌&&◌, ◌||◌, ltb, leb,
  if◌then◌else◌, or_else, is_some, find, update, count, any,
}
use mail_gable.Store.Status.{Status, sending, failed}
use mail_gable.Store.Tables.{Message, outgoing, pending, Database}
use mail_gable.Store.Effects.{
  provider_not_configured_for_retry, provider_retry_window_expired, send_rate_limited,
  send_in_progress, idempotency_conflict, send_create_failed, Error, app_error, Result, ok, err,
  Exec, modify, ◌>>◌,
}
use mail_gable.Threads.{is_outgoing, find_message, ensure_thread}
use mail_gable.Providers.{
  ProviderId, id_text, Env, safe_retry_window_ms, provider_for_message, Answers, Outbox,
}
use mail_gable.Archive.{Faults, Upload}

pub record SendPlan : Type 0 where
  pub mailbox_id : String
  pub mailbox_address : String
  pub from_json : String
  pub to : List String
  pub cc : List String
  pub subject : String
  pub text_preview : Option String
  pub uploads : List Upload
  pub parent : Option Message
  pub thread_id : String
  pub request_hash : String

-- What a request brings along: the clock, the fresh ids, and how the outside world behaves.
pub record Call : Type 0 where
  pub env : Env
  pub admin_id : String
  pub now : ℕ
  pub message_id : String
  pub internet_id : String
  pub raw_key : String
  pub faults : Faults
  pub answers : Answers

pub record Reply : Type 0 where
  pub message_id : String
  pub thread_id : String
  pub provider : String
  pub provider_message_id : String
  pub status : Status
  pub idempotent : Bool

-- the answer about a message that was sent before
abbrev pub earlier_reply : Message → Reply
earlier_reply row = record {
  message_id = row.message_id;
  thread_id = row.thread_id;
  provider = or_else row.outbound_provider "";
  provider_message_id =
      first_text (or_else row.provider_message_id "") (or_else row.resend_email_id "");
  status = row.status;
  idempotent = true;
}

unfoldable pub set_message : String → (Message → Message) → Database → Database
set_message id f db = record db { messages = update (λ m. m.message_id == id) f db.messages }

abbrev pub on_db : (Database → Database) → Outbox → Outbox
on_db f o = record o { db = f o.db }

abbrev pub expire : ℕ → Message → Message
expire now m = record m {
  status = failed;
  last_error = some "provider_retry_window_expired";
  updated_at = now;
}

-- window === null || Date.now() - createdAt > window
unfoldable pub is_expired : ProviderId → ℕ → Message → Bool
is_expired p now row = elim (safe_retry_window_ms p) [
  | none ↦ true
  | some window ↦ ltb window (now - row.created_at)
]

-- the pinned provider and its retry window, in both handlers
unfoldable pub check_window : Call → Message → Exec Outbox ProviderId
check_window c row o = elim (provider_for_message c.env row) [
  | err e ↦ (err e, o)
  | ok none ↦ (err (app_error 503 provider_not_configured_for_retry), o)
  | ok (some p) ↦
      if is_expired p c.now row
      then (
        err (app_error 409 provider_retry_window_expired),
        on_db (set_message row.message_id (expire c.now)) o,
      )
      else (ok p, o)
]

abbrev pub resume : ℕ → Message → Message
resume now m = record m { status = sending; last_error = none; updated_at = now }

-- the branch of sendMessage for a key that is known
unfoldable pub resume_existing : Call → Message → Exec Outbox Message
resume_existing c row =
    check_window c row >> λ o. (ok row, on_db (set_message row.message_id (resume c.now)) o)

-- enforceSendRate: the messages of the last hour
unfoldable pub sends_in_hour : String → ℕ → Database → ℕ
sends_in_hour admin now db =
    count
      (λ m.
        (is_some m.created_by_admin_id && (or_else m.created_by_admin_id "" == admin))
        && is_outgoing m.direction
        && leb (now - 60 * 60000) m.created_at)
      db.messages

abbrev pub first_or_empty : List String → String
first_or_empty [] = ""
first_or_empty (x ∷ xs) = x

-- replySubject
unfoldable pub reply_subject : String → String
reply_subject subject =
    if starts_lower (trim_start subject) "re:"
    then trim subject
    else joined "Re: " (first_text subject "(No subject)")

abbrev pub final_subject : SendPlan → String
final_subject plan = elim plan.parent [ none ↦ plan.subject | some _ ↦ reply_subject plan.subject ]

-- the Message-ID of the message that is answered
unfoldable pub parent_internet_id : Option Message → String
parent_internet_id none = ""
parent_internet_id (some p) =
    normalize_internet_message_id
      (first_text (or_else p.provider_internet_message_id "") (or_else p.internet_message_id ""))

-- .join(" ")
unfoldable pub spaced : List String → String
spaced [] = ""
spaced (x ∷ []) = x
spaced (x ∷ y ∷ ys) = joined x (joined " " (spaced (y ∷ ys)))

-- the References header of an answer
unfoldable pub parent_references : Option Message → String
unfolding spaced
parent_references none = ""
parent_references (some p) = spaced (
    last_n 30 (
      where_rows (λ id. not (id == ""))
        (references (first_chars 8000 (or_else p.references_header ""))
          ++ parent_internet_id (some p) ∷ [])))

abbrev pub parent_id : Option Message → Option String
parent_id none = none
parent_id (some p) = some p.message_id

-- the INSERT of a new message
abbrev pub new_message : Call → SendPlan → String → ProviderId → Message
new_message c plan key p = record {
  message_id = c.message_id;
  thread_id = plan.thread_id;
  mailbox_id = some plan.mailbox_id;
  direction = outgoing;
  envelope_from = some plan.mailbox_address;
  envelope_to = first_or_empty plan.to;
  from_json = plan.from_json;
  text_body = plan.text_preview;
  internet_message_id = some c.internet_id;
  provider_internet_message_id = none;
  in_reply_to = or_null (parent_internet_id plan.parent);
  references_header = or_null (parent_references plan.parent);
  parent_message_id = parent_id plan.parent;
  outbound_provider = some (id_text p);
  provider_message_id = none;
  resend_email_id = none;
  idempotency_key = some key;
  request_hash = plan.request_hash;
  status = sending;
  is_read = true;
  is_replied = false;
  received_at = none;
  sent_at = some c.now;
  raw_r2_key = none;
  archive_status = pending;
  last_error = none;
  recipient_status = [];
  created_by_admin_id = some c.admin_id;
  created_at = c.now;
  updated_at = c.now;
}

abbrev pub has_key : String → Message → Bool
has_key key m = is_some m.idempotency_key && (or_else m.idempotency_key "" == key)

-- the answer when a concurrent request has taken the key
abbrev pub conflict : Message → Option Message → Error
conflict m none = app_error 409 idempotency_conflict
conflict m (some other) =
    if other.request_hash == m.request_hash
    then app_error 409 send_in_progress
    else app_error 409 idempotency_conflict

abbrev pub is_taken : String → Message → Message → Bool
is_taken key m r = has_key key r || (r.message_id == m.message_id)

-- the INSERT
unfoldable pub insert_message : Message → String → Exec Outbox (Unit {0})
insert_message m key o =
    if any (is_taken key m) o.db.messages
    then (err (conflict m (find (has_key key) o.db.messages)), o)
    else (ok tt, on_db (λ db. record db { messages = db.messages ++ m ∷ [] }) o)

abbrev pub created_row : Option Message → Result Message
created_row none = err (app_error 500 send_create_failed)
created_row (some row) = ok row

-- the branch of sendMessage for a new key; `others` is what other requests write between the
-- SELECT of the key and the INSERT
unfoldable pub create_message :
    Call → SendPlan → String → ProviderId → (Database → Database) → Exec Outbox Message
create_message c plan key p others o =
    if leb 20 (sends_in_hour c.admin_id c.now o.db)
    then (err (app_error 429 send_rate_limited), o)
    else (modify (
            on_db (λ db. others (
              ensure_thread plan.thread_id (some plan.mailbox_id) (final_subject plan)
                (plan.to ++ plan.cc ++ plan.mailbox_address ∷ []) c.now db)))
          >> insert_message (new_message c plan key p) key
          >> λ o. (created_row (find_message c.message_id o.db), o))
        o

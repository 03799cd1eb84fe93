-- ===== src/Outbound/Handlers.antt =====
-- sendMessage and retryMessage.
use mail_gable.Base.{
  ℕ, String, Bool, true, false, Option, none, some, List, ◌==◌, not, ◌||◌, if◌then◌else◌, or_else,
  find,
}
use mail_gable.Store.Status.{Status, sent, sending, retryable_failed, is_success, is_retryable}
use mail_gable.Store.Tables.{Message, ArchiveStatus, archived, archive_failed, Database}
use mail_gable.Store.Effects.{
  provider_not_configured, idempotency_payload_mismatch, send_not_retryable, archive_incomplete,
  not_found, Error, app_error, thrown, Result, ok, err, Exec, modify, ◌>>=◌, ◌>>◌,
}
use mail_gable.Threads.{is_outgoing, keep_or_set, find_message, refresh_thread}
use mail_gable.Providers.{ProviderId, resend, id_text, outbound_provider, Outbox, SendResult, send}
use mail_gable.Archive.{Upload, archive_outgoing}
use mail_gable.Outbound.Defs.{
  SendPlan, Call, Reply, earlier_reply, set_message, on_db, check_window, resume_existing, has_key,
  create_message,
}

abbrev pub is_archived : ArchiveStatus → Bool
is_archived archived = true
is_archived _ = false

-- the code of the exception, in last_error; the one AppError of the archive step is that of putR2
abbrev pub error_text : Error → String
error_text (app_error s c) = "archive_unavailable"
error_text (thrown e) = "archive_failed"

abbrev pub archive_failure : Error → ℕ → Message → Message
archive_failure e now m = record m {
  status = retryable_failed;
  archive_status = archive_failed;
  last_error = some (error_text e);
  updated_at = now;
}

-- the row as it is read back, or the failure of the archive written to the row
abbrev pub after_archive : Call → Message → Result (Unit {0}) × Outbox → Result Message × Outbox
after_archive c row (ok _, o) = (ok (or_else (find_message row.message_id o.db) row), o)
after_archive c row (err e, o) =
    (err e, on_db (set_message row.message_id (archive_failure e c.now)) o)

-- the archive step of sendMessage
unfoldable pub archive_first : Call → List Upload → Message → Exec Outbox Message
archive_first c uploads row o =
    if is_archived row.archive_status
    then (ok row, o)
    else after_archive c row (archive_outgoing c.faults row.message_id uploads c.raw_key c.now o)

abbrev resend_id : SendResult → Option String
resend_id r = elim r.provider [ resend ↦ some r.provider_message_id | _ ↦ none ]

abbrev pub sent_status : Status → Status
sent_status s = if is_retryable s then sent else s

-- the batch behind a successful send: the row itself
abbrev pub marked_sent : Call → Message → SendResult → Database → Database
marked_sent c row r = set_message row.message_id (λ m. record m {
  status = sent_status m.status;
  provider_message_id = keep_or_set m.provider_message_id (some r.provider_message_id);
  resend_email_id = keep_or_set m.resend_email_id (resend_id r);
  last_error = none;
  updated_at = c.now;
})

-- and the message that it replies to
abbrev pub mark_parent : Option String → ℕ → Database → Database
mark_parent none now db = db
mark_parent (some parent) now db =
    set_message parent (λ m. record m { is_replied = true; updated_at = now }) db

unfoldable pub record_sent : Call → Message → SendResult → Database → Database
record_sent c row r db = mark_parent row.parent_message_id c.now (marked_sent c row r db)

unfoldable pub finish : Call → Message → SendResult → Outbox → Outbox
finish c row r o = on_db (λ db. refresh_thread row.thread_id c.now (record_sent c row r db)) o

-- deliverWithProvider: the provider that is active now
abbrev pub provide : Call → Message → Option ProviderId → Exec Outbox SendResult
provide c row none o = (err (app_error 503 provider_not_configured), o)
provide c row (some p) o = send row c.now c.env c.answers p o

unfoldable pub deliver_with_provider : Call → Message → Exec Outbox SendResult
deliver_with_provider c row o = provide c row (outbound_provider c.env) o

-- the answer about a message that this request has sent
abbrev pub sent_reply : Message → SendResult → Status → Reply
sent_reply row r status = record {
  message_id = row.message_id;
  thread_id = row.thread_id;
  provider = id_text r.provider;
  provider_message_id = r.provider_message_id;
  status = status;
  idempotent = false;
}

-- sendMessage from the archive step on
unfoldable pub deliver : Call → List Upload → Message → Exec Outbox Reply
deliver c uploads row = archive_first c uploads row >>= λ row.
    deliver_with_provider c row >>= λ r o. (ok (sent_reply row r sent), finish c row r o)

-- sendMessage with a key that is known
abbrev pub known_key : Call → SendPlan → Message → Exec Outbox Reply
known_key c plan row o =
    if not (row.request_hash == plan.request_hash)
    then (err (app_error 409 idempotency_payload_mismatch), o)
    else if is_success row.status
    then (ok (earlier_reply row), o)
    else if not (is_retryable row.status)
    then (err (app_error 409 send_not_retryable), o)
    else (resume_existing c row >>= deliver c plan.uploads) o

-- sendMessage behind the checks of the header and buildSendPlan
unfoldable pub send_message : Call → SendPlan → String → (Database → Database) → Exec Outbox Reply
send_message c plan key others o = elim (outbound_provider c.env) [
  | none ↦ (err (app_error 503 provider_not_configured), o)
  | some p ↦ elim (find (has_key key) o.db.messages) [
    | none ↦ (create_message c plan key p others >>= deliver c plan.uploads) o
    | some row ↦ known_key c plan row o
  ]
]

-- UPDATE … WHERE message_id=? AND status IN ('sending','retryable_failed')
unfoldable pub mark_sending : String → ℕ → Outbox → Outbox
mark_sending id now o =
    on_db
      (set_message id (λ m.
        if is_retryable m.status
        then record m { status = sending; last_error = none; updated_at = now }
        else m))
      o

-- current?.status || "sent"
abbrev pub current_status : Option Message → Status
current_status none = sent
current_status (some m) = m.status

-- retryMessage; `stored` is the outcome of storedSendPlan, which writes nothing
unfoldable pub retry_message : Call → Result (Unit {0}) → String → Exec Outbox Reply
retry_message c stored id o = elim (find_message id o.db) [
  | none ↦ (err (app_error 404 not_found), o)
  | some row ↦
      if not (is_outgoing row.direction)
      then (err (app_error 404 not_found), o)
      else if is_success row.status
      then (ok (earlier_reply row), o)
      else if not (is_retryable row.status)
      then (err (app_error 409 send_not_retryable), o)
      else if not (is_archived row.archive_status) || (or_else row.raw_r2_key "" == "")
      then (err (app_error 409 archive_incomplete), o)
      else (check_window c row >>= λ p.
            (λ o. (stored, o))
            >> modify (mark_sending row.message_id c.now)
            >> (send row c.now c.env c.answers p >>= λ r o. (
              ok (
                  sent_reply row r
                    (current_status (find_message row.message_id (finish c row r o).db))),
              finish c row r o,
            )))
          o
]

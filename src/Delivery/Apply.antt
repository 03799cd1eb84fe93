-- ===== src/Delivery/Apply.antt =====
-- applyDeliveryStatus and applyDeliveryEvent of src/providers/events.ts. Between the SELECT and
-- the UPDATE of an attempt other requests may write: `others n` is what they do in the attempt
-- after which n attempts are left. The clock is read once; an inherited property of Object is
-- never taken for a status. `insert_event` tests NOT NULL of payload_json and the UNIQUE index on
-- (provider, provider_event_id); the index on (outbound_provider, provider_message_id) is not modelled.
use Prim.Native.Char.{code}
use mail_gable.Base.{
  or_null, ℕ, zero, suc, String, Bool, true, false, Option, none, some, List, [], ◌∷◌, ◌++◌, ◌==◌,
  not, ◌&&◌, ◌||◌, leb, if◌then◌else◌, or_else, is_some, find, update, any,
}
use mathlib.Core.Bool.{decide}
use mail_gable.Store.Status.{Status, Status-discrete, delivery_rank}
use mail_gable.Store.Tables.{Summary, Message, DeliveryEvent, Database}
use mail_gable.Store.Effects.{app_error, webhook_concurrent_update, ok, err, Exec, ◌>>◌}
use mail_gable.Headers.{normalize_internet_message_id}
use mail_gable.Threads.{is_outgoing, keep_or_set, reconcile_provider_message_id}
use mail_gable.Delivery.Defs.{update_recipient_summary, aggregate_delivery_status}

-- NormalizedDeliveryEvent
pub record NormalizedDeliveryEvent : Type 0 where
  pub provider : String
  pub provider_event_id : String
  pub provider_message_id : String
  pub tagged_message_id : String
  pub recipients : List String
  pub raw_type : String
  pub status : Status
  pub occurred_at : Option String

-- the equality of two JSON texts in the UPDATE's WHERE
unfoldable pub same_summary : Summary → Summary → Bool
unfolding Status-discrete decide
same_summary [] [] = true
same_summary ((j, v) ∷ s) ((k, w) ∷ t) =
    (j == k) && decide (Status-discrete v w) && same_summary s t
same_summary _ _ = false

-- WHERE message_id=? AND COALESCE(recipient_status_json,'{}')=?
abbrev pub is_unchanged : String → Summary → Message → Bool
is_unchanged id previous m = (m.message_id == id) && same_summary m.recipient_status previous

-- the SET list of the UPDATE
abbrev pub with_status : Summary → String → ℕ → Message → Message
with_status summary provider_message_id now m = record m {
  status = aggregate_delivery_status summary;
  recipient_status = summary;
  provider_message_id = keep_or_set m.provider_message_id (or_null provider_message_id);
  updated_at = now;
}

module _ (id provider_message_id : String) (recipients : List String) (status : Status) (now : ℕ)
    (others : ℕ → Database → Database) where
  unfoldable pub write_status : Summary → Database → Database
  write_status previous db = record db {
    messages =
        update (is_unchanged id previous)
          (with_status (update_recipient_summary previous recipients status) provider_message_id
            now)
          db.messages;
  }

  -- the loop over the attempts
  unfoldable pub attempt : ℕ → Exec Database (Unit {0})
  attempt zero db = (err (app_error 503 webhook_concurrent_update), db)
  attempt (suc n) db = elim (find (λ m. m.message_id == id) db.messages) [
    | none ↦ (ok tt, db)
    | some current ↦
        let seen = others n db in
        elim (any (is_unchanged id current.recipient_status) seen.messages) [
          | true ↦ (ok tt, write_status current.recipient_status seen)
          | false ↦ attempt n seen
        ]
  ]

  unfoldable pub apply_delivery_status : Exec Database (Unit {0})
  unfolding attempt write_status
  apply_delivery_status db = if is_some (delivery_rank status) then attempt 8 db else (ok tt, db)

-- [A-Za-z0-9_-]
abbrev is_tag_char : ℕ → Bool
is_tag_char c =
    (leb b'A' c && leb c b'Z')
    || (leb b'a' c && leb c b'z')
    || (leb b'0' c && leb c b'9')
    || (leb b'_' c && leb c b'_')
    || (leb b'-' c && leb c b'-')

-- /^[A-Za-z0-9_-]{least,most}$/
unfoldable pub is_tag : ℕ → ℕ → String → Bool
is_tag zero most String.[] = true
is_tag (suc least) most String.[] = false
is_tag least zero (String.◌∷◌ c s) = false
is_tag zero (suc most) (String.◌∷◌ c s) = is_tag_char (code c) && is_tag zero most s
is_tag (suc least) (suc most) (String.◌∷◌ c s) = is_tag_char (code c) && is_tag least most s

-- SELECT … WHERE provider=? AND provider_event_id=?
abbrev pub is_event : NormalizedDeliveryEvent → DeliveryEvent → Bool
is_event event row =
    (row.provider == event.provider) && (row.provider_event_id == event.provider_event_id)

abbrev pub by_provider : NormalizedDeliveryEvent → Message → Bool
by_provider event m =
    (is_some m.outbound_provider && (or_else m.outbound_provider "" == event.provider))
    && (is_some m.provider_message_id
        && (or_else m.provider_message_id "" == event.provider_message_id))

abbrev by_tag : NormalizedDeliveryEvent → Message → Bool
by_tag event m = (m.message_id == event.tagged_message_id) && is_outgoing m.direction

-- the two SELECTs that find the event's message
unfoldable pub event_message : NormalizedDeliveryEvent → Database → Option Message
unfolding is_tag
event_message event db =
    let tagged =
      if not (event.tagged_message_id == "") && is_tag 8 200 event.tagged_message_id
      then find (by_tag event) db.messages
      else none in
    elim (if event.provider_message_id == "" then none else find (by_provider event) db.messages) [
      | some m ↦ some m
      | none ↦ tagged
    ]

-- payload_json in INSERT OR IGNORE INTO mail_delivery_events, which does not name the column; it has
-- no default, so its value is NULL
abbrev pub inserted_payload : Option String
inserted_payload = none

-- the row of the INSERT, with a payload
abbrev pub event_row : NormalizedDeliveryEvent → Option String → String → ℕ → String → DeliveryEvent
event_row event message event_id now payload = record {
  event_id = event_id;
  provider = event.provider;
  provider_event_id = event.provider_event_id;
  provider_message_id = or_null event.provider_message_id;
  message_id = message;
  event_type = event.raw_type;
  status = event.status;
  recipients = event.recipients;
  occurred_at = event.occurred_at;
  received_at = now;
  payload_json = payload;
}

-- a row of the event is there, and the index applies to it
abbrev pub is_recorded : NormalizedDeliveryEvent → Database → Bool
is_recorded event db = not (event.provider_event_id == "") && any (is_event event) db.events

-- the INSERT OR IGNORE, and `changes === 0`: a row whose payload_json is NULL violates NOT NULL and
-- is skipped
unfoldable pub insert_event :
    NormalizedDeliveryEvent → Option String → String → ℕ → Exec Database Bool
insert_event event message event_id now db = elim inserted_payload [
  | none ↦ (ok true, db)
  | some payload ↦
      if is_recorded event db || any (λ row. row.event_id == event_id) db.events
      then (ok true, db)
      else (
        ok false,
        record db { events = db.events ++ event_row event message event_id now payload ∷ [] },
      )
]

-- message?.message_id || null
abbrev pub id_of : Option Message → Option String
id_of none = none
id_of (some m) = some m.message_id

module _ (event : NormalizedDeliveryEvent) (event_id : String) (now : ℕ)
    (others : ℕ → Database → Database) where
  -- the repair of threads behind applyDeliveryStatus
  unfoldable pub reconcile_after : Message → Exec Database (Unit {0})
  unfolding normalize_internet_message_id reconcile_provider_message_id
  reconcile_after m db = (
    ok tt,
    (if (event.provider == "resend")
          && not (normalize_internet_message_id (or_else m.provider_internet_message_id "") == "")
        then reconcile_provider_message_id m (or_else m.provider_internet_message_id "") now db
        else db),
  )

  -- what is done for a message whose status has a rank
  unfoldable pub apply_to_message : Message → Exec Database (Unit {0})
  apply_to_message m =
      apply_delivery_status m.message_id event.provider_message_id event.recipients event.status now
        others
      >> reconcile_after m

  unfoldable pub update_message : Option Message → Exec Database (Unit {0})
  update_message none db = (ok tt, db)
  update_message (some m) db =
      if is_some (delivery_rank event.status) then apply_to_message m db else (ok tt, db)

  -- the pipeline behind the fast path
  unfoldable pub process_event : Exec Database Bool
  process_event db =
      (update_message (event_message event db)
          >> insert_event event (id_of (event_message event db)) event_id now)
        db

  -- applyDeliveryEvent; the result is `duplicate`
  unfoldable pub apply_delivery_event : Exec Database Bool
  apply_delivery_event db = if is_recorded event db then (ok true, db) else process_event db

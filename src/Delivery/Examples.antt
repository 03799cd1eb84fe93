-- ===== src/Delivery/Examples.antt =====
-- A message to two people, of which one has got it, and the events that follow.
use mail_gable.Base.{
  update, ◌↔◌, ℕ, ◌≤◌, String, true, none, some, List, [], ◌∷◌, ◌≡◌, refl, not, any, or_else, Bool,
}
use mail_gable.Store.Status.{sending, delivered, bounced, opened, partially_failed}
use mail_gable.Store.Tables.{Database, Summary}
use mail_gable.Store.Samples.{no_rows, waiting_row}
use mail_gable.Store.Effects.{ok, err, app_error, webhook_concurrent_update}
use mail_gable.Delivery.Defs.{
  lookup, rank, update_recipient_summary, aggregate_delivery_status, is_negative,
}
use mail_gable.Delivery.Apply.{
  NormalizedDeliveryEvent, attempt, apply_delivery_status, apply_delivery_event,
}
use mail_gable.Delivery.Summary.{
  lookup-update_recipient_summary, update_recipient_summary_monotone,
  update_recipient_summary_idempotent,
}
use mail_gable.Delivery.Order.{update_recipient_summary_comm}
use mail_gable.Delivery.Values.{IsObject, values}
use mail_gable.Delivery.Aggregate.{aggregate-partially_failed, aggregate_comm}
use mail_gable.Delivery.Race.{Outcome, apply_delivery_status-Outcome}
use mail_gable.Delivery.Replay.{apply_delivery_event-unrecorded, KeepsEvents}

abbrev summary : Summary
summary = ("a@x.org", delivered) ∷ ("b@x.org", sending) ∷ []

summary-IsObject : IsObject summary
unfolding lookup
summary-IsObject = (refl, (refl, tt))

abbrev to_b : List String
to_b = "b@x.org" ∷ []

abbrev store : Database
store = record no_rows {
  messages = record waiting_row { message_id = "message-1"; recipient_status = summary } ∷ [];
}

abbrev event : NormalizedDeliveryEvent
event = record {
  provider = "resend";
  provider_event_id = "ev_1";
  provider_message_id = "";
  tagged_message_id = "message-1";
  recipients = to_b;
  raw_type = "email.bounced";
  status = bounced;
  occurred_at = none;
}

abbrev quiet : ℕ → Database → Database
quiet n db = db

quiet-KeepsEvents : KeepsEvents quiet
quiet-KeepsEvents n db = refl

lookup-update_recipient_summary_example :
    lookup "b@x.org" (update_recipient_summary summary to_b bounced) ≡ some bounced
unfolding lookup any
lookup-update_recipient_summary_example =
    lookup-update_recipient_summary summary to_b bounced "b@x.org"

update_recipient_summary_monotone_example :
    8
    ≤ rank (
        or_else
          (lookup "b@x.org" (update_recipient_summary (("b@x.org", bounced) ∷ []) to_b opened))
          sending)
unfolding lookup
update_recipient_summary_monotone_example =
    update_recipient_summary_monotone (("b@x.org", bounced) ∷ []) to_b opened "b@x.org"

update_recipient_summary_idempotent_example :
    update_recipient_summary (update_recipient_summary summary to_b bounced) to_b bounced
    ≡ update_recipient_summary summary to_b bounced
update_recipient_summary_idempotent_example =
    update_recipient_summary_idempotent summary to_b bounced

update_recipient_summary_comm_example :
    lookup "b@x.org"
      (update_recipient_summary (update_recipient_summary summary to_b opened) to_b bounced)
    ≡ lookup "b@x.org"
        (update_recipient_summary (update_recipient_summary summary to_b bounced) to_b opened)
update_recipient_summary_comm_example =
    update_recipient_summary_comm summary to_b to_b opened bounced "b@x.org" refl refl

aggregate-partially_failed_example :
    (aggregate_delivery_status (update_recipient_summary summary to_b bounced) ≡ partially_failed)
    ↔ ((any is_negative (values (update_recipient_summary summary to_b bounced)) ≡ true)
        × (any (λ v. not (is_negative v)) (values (update_recipient_summary summary to_b bounced))
            ≡ true))
aggregate-partially_failed_example =
    aggregate-partially_failed (update_recipient_summary summary to_b bounced)

aggregate_comm_example :
    aggregate_delivery_status
      (update_recipient_summary (update_recipient_summary summary to_b opened) to_b bounced)
    ≡ aggregate_delivery_status
        (update_recipient_summary (update_recipient_summary summary to_b bounced) to_b opened)
aggregate_comm_example = aggregate_comm summary to_b to_b opened bounced summary-IsObject refl refl

apply_delivery_status-Outcome_example :
    Outcome quiet "message-1" "re_1" to_b bounced 2000 8 store
    × (apply_delivery_status "message-1" "re_1" to_b bounced 2000 quiet store
        ≡ attempt "message-1" "re_1" to_b bounced 2000 quiet 8 store)
apply_delivery_status-Outcome_example =
    apply_delivery_status-Outcome quiet "message-1" "re_1" to_b bounced 2000 store refl

-- the event is processed, and answered as a duplicate
first_delivery :
    apply_delivery_event event "e1" 2000 quiet store
    ≡ (ok true, (apply_delivery_event event "e1" 2000 quiet store).1)
unfolding apply_delivery_event any mail_gable.Delivery.Apply.process_event
    mail_gable.Delivery.Apply.update_message mail_gable.Delivery.Apply.event_message
    mail_gable.Base.find mail_gable.Delivery.Apply.apply_to_message apply_delivery_status
    mail_gable.Delivery.Apply.same_summary mail_gable.Delivery.Apply.reconcile_after
    mail_gable.Delivery.Apply.insert_event
first_delivery = refl

apply_delivery_event-unrecorded_example :
    ((apply_delivery_event event "e1" 2000 quiet store).1.events ≡ store.events)
    × ((b : Bool) → ok true ≡ ok b → b ≡ true)
apply_delivery_event-unrecorded_example =
    apply_delivery_event-unrecorded event "e1" 2000 quiet quiet-KeepsEvents store
      (apply_delivery_event event "e1" 2000 quiet store).1 (ok true) first_delivery

abbrev once : Database
once = (apply_delivery_status "message-1" "re_1" to_b bounced 2000 quiet store).1

-- another request changes the summary in each attempt
abbrev toggled : Summary → Summary
toggled [] = summary
toggled (x ∷ xs) = []

abbrev busy : ℕ → Database → Database
busy n db = record db {
  messages =
      update (λ m. true) (λ m. record m { recipient_status = toggled m.recipient_status })
        db.messages;
}

abbrev contended : Database
contended = (apply_delivery_event event "e1" 2000 busy store).1

failed_delivery :
    apply_delivery_event event "e1" 2000 busy store
    ≡ (err (app_error 503 webhook_concurrent_update), contended)
unfolding apply_delivery_event any mail_gable.Delivery.Apply.process_event
    mail_gable.Delivery.Apply.update_message mail_gable.Delivery.Apply.event_message
    mail_gable.Base.find mail_gable.Delivery.Apply.apply_to_message apply_delivery_status
    mail_gable.Delivery.Apply.same_summary mail_gable.Delivery.Apply.reconcile_after
    mail_gable.Delivery.Apply.insert_event update
failed_delivery = refl

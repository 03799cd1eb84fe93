-- ===== src/Delivery/Replay.antt =====
-- What a delivery event leaves in the table of events.
use mail_gable.Base.{
  zero, suc, ℕ, String, ◌≡◌, refl, ◌∙◌, sym, or_else, ap, true, Bool, trim, none, some, Option,
  where_rows, map, arith, inl, inr, Bool-cases, List, [], ◌∷◌,
}
use mail_gable.Store.Tables.{Message, Database}
use mail_gable.Store.Status.{Status}
use mail_gable.Store.Effects.{Result, ok}
use mail_gable.Store.Inversion.{bind-ok, keeps-bind, result_or}
use mail_gable.Threads.{
  distinct, is_orphan, delete_empty_thread, adopt, reconcile, reconcile_provider_message_id,
  refresh_old, refresh_thread,
}
use mail_gable.Delivery.Apply.{
  NormalizedDeliveryEvent, is_recorded, insert_event, attempt, write_status, apply_delivery_status,
  id_of, reconcile_after, apply_to_message, update_message, process_event, apply_delivery_event,
  event_message,
}

-- The other requests record and delete no delivery events while this one runs.
abbrev pub KeepsEvents : (ℕ → Database → Database) → Type 0
KeepsEvents others = (n : ℕ) (db : Database) → (others n db).events ≡ db.events

module _ (id provider_message_id : String) (recipients : List String) (status : Status) (now : ℕ)
    (others : ℕ → Database → Database) (keeps : KeepsEvents others) where
  events-attempt :
      (n : ℕ) (db : Database)
      → (attempt id provider_message_id recipients status now others n db).1.events ≡ db.events
  unfolding attempt write_status
  events-attempt zero db = refl
  events-attempt (suc n) db = ground (arith, keeps n db, events-attempt n (others n db))

  events-apply_delivery_status :
      (db : Database)
      → (apply_delivery_status id provider_message_id recipients status now others db).1.events
        ≡ db.events
  unfolding apply_delivery_status
  events-apply_delivery_status db = ground (arith, events-attempt 8 db)

events-refresh_old :
    (thread : String) (now : ℕ) (old : List String) (db : Database)
    → (refresh_old thread now old db).events ≡ db.events
unfolding refresh_old refresh_thread delete_empty_thread
events-refresh_old thread now [] db = refl
events-refresh_old thread now (t ∷ ts) db = ground (
  arith,
  events-refresh_old thread now ts db,
  events-refresh_old thread now ts (delete_empty_thread t (refresh_thread t now db)),
)

reconcile-events :
    (parent : Message) (mailbox id : String) (now : ℕ) (db : Database)
    → (reconcile parent mailbox id now db).events ≡ db.events
unfolding reconcile refresh_thread adopt
reconcile-events parent mailbox id now db =
    events-refresh_old parent.thread_id now
      (distinct
        (map (λ m. m.thread_id) (where_rows (is_orphan mailbox parent.thread_id id) db.messages)))
      (adopt parent mailbox id now db)

-- The repair of the threads records no event.
events-reconcile :
    (parent : Message) (id : String) (now : ℕ) (db : Database)
    → (reconcile_provider_message_id parent id now db).events ≡ db.events
unfolding reconcile_provider_message_id
events-reconcile parent id now db =
    ground (arith, reconcile-events parent (or_else parent.mailbox_id "") (trim id) now db)

module _ (event : NormalizedDeliveryEvent) (event_id : String) (now : ℕ)
    (others : ℕ → Database → Database) where
  insert_event-result :
      (message : Option String) (db : Database)
      → insert_event event message event_id now db ≡ (ok true, db)
  unfolding insert_event
  insert_event-result message db = refl

  process_event-true :
      (db db' : Database) (b : Bool)
      → process_event event event_id now others db ≡ (ok b, db')
      → b ≡ true
  unfolding process_event
  process_event-true db db' b h =
      let (_, mid, done, inserted) =
        bind-ok (update_message event event_id now others (event_message event db))
          (λ _. insert_event event (id_of (event_message event db)) event_id now) db db' b h in
      ap (λ r. result_or true r.0) (sym inserted ∙ insert_event-result _ mid)

  module _ (keeps : KeepsEvents others) where
    events-apply_to_message :
        (m : Message) (db : Database)
        → (apply_to_message event event_id now others m db).1.events ≡ db.events
    unfolding apply_to_message reconcile_after
    events-apply_to_message m db =
        keeps-bind
          (apply_delivery_status m.message_id event.provider_message_id event.recipients
            event.status now others)
          (λ _. reconcile_after event event_id now others m) (λ s. s.events ≡ db.events)
          (λ s e.
            events-apply_delivery_status m.message_id event.provider_message_id event.recipients
              event.status now others keeps s
            ∙ e)
          (λ _ s e.
            ground (arith, events-reconcile m (or_else m.provider_internet_message_id "") now s))
          db refl

    events-process_event :
        (db : Database) → (process_event event event_id now others db).1.events ≡ db.events
    unfolding process_event update_message
    events-process_event db =
        keeps-bind (update_message event event_id now others (event_message event db))
          (λ _. insert_event event (id_of (event_message event db)) event_id now)
          (λ s. s.events ≡ db.events) (λ s e. updated (event_message event db) s ∙ e)
          (λ _ s e.
            ap (λ r. r.1.events) (insert_event-result (id_of (event_message event db)) s) ∙ e)
          db refl
      where
        updated :
            (found : Option Message) (s : Database)
            → (update_message event event_id now others found s).1.events ≡ s.events
        updated none s = refl
        updated (some m) s = ground (arith, events-apply_to_message m s)

    -- No event is ever recorded: while the other requests leave the table of events alone,
    -- applyDeliveryEvent leaves it as it was, and it never answers that the event was new.
    pub apply_delivery_event-unrecorded :
        (db db' : Database) (r : Result Bool)
        → apply_delivery_event event event_id now others db ≡ (r, db')
        → (db'.events ≡ db.events) × ((b : Bool) → r ≡ ok b → b ≡ true)
    unfolding apply_delivery_event
    apply_delivery_event-unrecorded db db' r h = elim (Bool-cases (is_recorded event db)) [
      | inl old ↦ known (rw old at h)
      | inr new ↦ processed (rw new at h)
    ]
      where
        known :
            Path (Result Bool × Database) (ok true, db) (r, db')
            → (db'.events ≡ db.events) × ((b : Bool) → r ≡ ok b → b ≡ true)
        known e =
            (ap (λ x. x.1.events) (sym e), λ b q. ap (result_or true) (sym (ap (λ x. x.0) e ∙ q)))

        processed :
            process_event event event_id now others db ≡ (r, db')
            → (db'.events ≡ db.events) × ((b : Bool) → r ≡ ok b → b ≡ true)
        processed e = (
          ap (λ x. x.1.events) (sym e) ∙ events-process_event db,
          λ b q. process_event-true db db' b (e ∙ ap (λ x. (x, db')) q),
        )

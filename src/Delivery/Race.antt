-- ===== src/Delivery/Race.antt =====
-- The compare-and-swap loop of applyDeliveryStatus while other requests write.
use mail_gable.Base.{
  ℕ, zero, suc, String, ◌≡◌, refl, ◌∙◌, true, false, none, some, List, ◌==◌, inl, inr, is_some,
  find, any, update, ◌<◌, arith, Bool-cases, Option-cases,
}
use mail_gable.Store.Status.{Status, delivery_rank}
use mail_gable.Store.Tables.{Message, Database}
use mail_gable.Store.Effects.{app_error, webhook_concurrent_update, ok, err}
use mail_gable.Delivery.Defs.{update_recipient_summary}
use mail_gable.Delivery.Apply.{
  is_unchanged, with_status, write_status, attempt, apply_delivery_status,
}

module _ (others : ℕ → Database → Database) where
  -- What the other requests alone make of the database in n attempts.
  abbrev pub run_others : ℕ → Database → Database
  run_others zero db = db
  run_others (suc n) db = run_others n (others n db)

  -- What the other requests alone make of it in the first k of n attempts.
  abbrev pub after_others : ℕ → ℕ → Database → Database
  after_others n zero db = db
  after_others zero (suc k) db = db
  after_others (suc n) (suc k) db = after_others n k (others n db)

  module _ (id provider_message_id : String) (recipients : List String) (status : Status)
      (now : ℕ) where
    -- How the loop can end.
    pub data Outcome (n : ℕ) (db : Database) : Type 0 where
      missing :
          (k : ℕ)
          → k < n
          → find (λ m. m.message_id == id) (after_others n k db).messages ≡ none
          → attempt id provider_message_id recipients status now others n db
            ≡ (ok tt, after_others n k db)
          → Outcome n db
      written :
          (k : ℕ) (current : Message)
          → k < n
          → find (λ m. m.message_id == id) (after_others n k db).messages ≡ some current
          → any (is_unchanged id current.recipient_status) (after_others n (suc k) db).messages
            ≡ true
          → attempt id provider_message_id recipients status now others n db ≡ (
            ok tt,
            record (after_others n (suc k) db) {
              messages =
                  update
                    (is_unchanged id current.recipient_status)
                    (with_status
                      (update_recipient_summary current.recipient_status recipients status)
                      provider_message_id
                      now)
                    (after_others n (suc k) db).messages;
            },
          )
          → Outcome n db
      given_up :
          attempt id provider_message_id recipients status now others n db
            ≡ (err (app_error 503 webhook_concurrent_update), run_others n db)
          → Outcome n db

    step :
        (n : ℕ) (db : Database) (current : Message)
        → find (λ m. m.message_id == id) db.messages ≡ some current
        → any (is_unchanged id current.recipient_status) (others n db).messages ≡ false
        → attempt id provider_message_id recipients status now others (suc n) db
          ≡ attempt id provider_message_id recipients status now others n (others n db)
    unfolding attempt
    step n db current found changed = ground arith

    wrote :
        (n : ℕ) (db : Database) (current : Message)
        → find (λ m. m.message_id == id) db.messages ≡ some current
        → any (is_unchanged id current.recipient_status) (others n db).messages ≡ true
        → attempt id provider_message_id recipients status now others (suc n) db ≡ (
          ok tt,
          record (others n db) {
            messages =
                update
                  (is_unchanged id current.recipient_status)
                  (with_status
                    (update_recipient_summary current.recipient_status recipients status)
                    provider_message_id
                    now)
                  (others n db).messages;
          },
        )
    unfolding attempt write_status
    wrote n db current found same = ground arith

    absent :
        (n : ℕ) (db : Database)
        → find (λ m. m.message_id == id) db.messages ≡ none
        → attempt id provider_message_id recipients status now others (suc n) db ≡ (ok tt, db)
    unfolding attempt
    absent n db h = ground arith

    later :
        (n : ℕ) (db : Database) (current : Message)
        → find (λ m. m.message_id == id) db.messages ≡ some current
        → any (is_unchanged id current.recipient_status) (others n db).messages ≡ false
        → Outcome n (others n db)
        → Outcome (suc n) db
    later n db current found changed (missing k less h e) =
        missing (suc k) (omega arith) h (step n db current found changed ∙ e)
    later n db current found changed (written k row less seen h e) =
        written (suc k) row (omega arith) seen h (step n db current found changed ∙ e)
    later n db current found changed (given_up e) = given_up (step n db current found changed ∙ e)

    -- Every number of attempts ends in one of the three ways.
    pub attempt-Outcome : (n : ℕ) (db : Database) → Outcome n db
    attempt-Outcome zero db = given_up (unfold attempt in refl)
    attempt-Outcome (suc n) db = elim (Option-cases (find (λ m. m.message_id == id) db.messages)) [
      | inl none_found ↦ missing 0 (omega arith) none_found (absent n db none_found)
      | inr (current, found) ↦
          elim (Bool-cases
            (any (is_unchanged id current.recipient_status) (others n db).messages)) [
              | inl same ↦
                  written 0 current (omega arith) found same (wrote n db current found same)
              | inr changed ↦ later n db current found changed (attempt-Outcome n (others n db))
            ]
    ]

    -- For a status with a rank, applyDeliveryStatus makes at most eight attempts, whatever other
    -- requests write in between, and ends in one of three ways. Either the message is missing in what
    -- the other requests have made of the database up to some attempt, and this is left as it is; or
    -- in some attempt the row still holds, after the other requests, the summary that was read in
    -- this attempt, and all that is written to the database is the update of this summary, with its
    -- aggregate, in the row; or it answers 503, and the database is what the other requests alone
    -- have made of it.
    pub apply_delivery_status-Outcome :
        (db : Database)
        → is_some (delivery_rank status) ≡ true
        → Outcome 8 db
          × (apply_delivery_status id provider_message_id recipients status now others db
              ≡ attempt id provider_message_id recipients status now others 8 db)
    unfolding apply_delivery_status
    apply_delivery_status-Outcome db known = (attempt-Outcome 8 db, rw known)

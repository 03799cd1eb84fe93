-- ===== src/Delivery/Again.antt =====
-- An event that is delivered again, and processed again.
use mail_gable.Base.{ℕ, String, Bool, List, update}
use mail_gable.Store.Tables.{Summary, Message, Database}
use mail_gable.Store.Status.{Status}
use mail_gable.Store.Effects.{Result}
use mail_gable.Delivery.Defs.{update_recipient_summary}
use mail_gable.Delivery.Apply.{is_unchanged, with_status, apply_delivery_status}

-- A message but for the time of its last update.
abbrev pub untimed : Message → Message
untimed m = record m { updated_at = 0 }

module _ (id provider_message_id : String) (recipients : List String) (status : Status) where
  abbrev new_summary : Summary → Summary
  new_summary s = update_recipient_summary s recipients status

  abbrev put : Summary → ℕ → Message → Message
  put s = with_status (new_summary s) provider_message_id

  abbrev pub quiet : ℕ → Database → Database
  quiet n db = db

  abbrev pub apply_at : ℕ → Database → Result (Unit {0}) × Database
  apply_at now = apply_delivery_status id provider_message_id recipients status now quiet

  abbrev written : ℕ → Message → Database → Database
  written now m db = record db {
    messages = update (is_unchanged id m.recipient_status) (put m.recipient_status now) db.messages;
  }

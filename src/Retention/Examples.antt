-- ===== src/Retention/Examples.antt =====
-- Two threads with a message each, of which one is deleted.
use mail_gable.Base.{
  eqb, true, false, none, [], ◌∷◌, ◌==◌, ◌≡◌, refl, if◌then◌else◌, any, where_rows, update,
}
use mail_gable.Store.Tables.{Database}
use mail_gable.Store.Samples.{no_rows, waiting_row, old_thread}
use mail_gable.Store.Effects.{ok, err, app_error, deletion_incomplete}
use mail_gable.Threads.{in_thread}
use mail_gable.Retention.Defs.{
  Vault, DeleteFaults, is_among, forget_thread, delete_thread_data, refers_gone,
}
use mail_gable.Retention.Deleting.{keys_of, delete_thread_data-retry}
use mail_gable.Retention.Forgetting.{forget_thread-messages}

abbrev store : Database
store = record no_rows {
  messages =
      waiting_row
      ∷ record waiting_row { message_id = "m2"; thread_id = "t2"; raw_r2_key = none }
      ∷ [];
  threads = old_thread ∷ record old_thread { thread_id = "t2"; last_message_at = 9000000000 } ∷ [];
}

abbrev vault : Vault
vault = record { db = store; bucket = "outgoing/raw.eml" ∷ "outgoing/other.eml" ∷ [] }

abbrev down : DeleteFaults
down = record { fails = λ _. true; removes = λ _ _. false; db_fails = λ _. false }

abbrev up : DeleteFaults
up = record { fails = λ _. false; removes = λ _ _. false; db_fails = λ _. false }

abbrev emptied : Vault
emptied = record { db = forget_thread "t1" store; bucket = "outgoing/other.eml" ∷ [] }

failed : delete_thread_data down "t1" vault ≡ (err (app_error 503 deletion_incomplete), vault)
unfolding delete_thread_data mail_gable.Retention.Defs.thread_object_keys
    mail_gable.Retention.Defs.unique_keys mail_gable.Retention.Defs.delete_chunks
    mail_gable.Retention.Defs.delete_chunk where_rows any mail_gable.Base.first_chars
    mail_gable.Threads.distinct mail_gable.Base.delete
failed = refl

done : delete_thread_data up "t1" vault ≡ (ok 1, emptied)
unfolding delete_thread_data mail_gable.Retention.Defs.thread_object_keys
    mail_gable.Retention.Defs.unique_keys mail_gable.Retention.Defs.delete_chunks
    mail_gable.Retention.Defs.delete_chunk where_rows any mail_gable.Base.first_chars
    mail_gable.Threads.distinct mail_gable.Base.delete forget_thread
    mail_gable.Retention.Defs.delete_events
done = refl

delete_thread_data-retry_example :
    (emptied.db ≡ forget_thread "t1" store)
    × (is_among emptied.bucket "outgoing/raw.eml" ≡ (
        if is_among (keys_of "t1" store) "outgoing/raw.eml"
        then false
        else is_among vault.bucket "outgoing/raw.eml"))
delete_thread_data-retry_example =
    delete_thread_data-retry down up "t1" vault vault emptied (app_error 503 deletion_incomplete) 1
      "outgoing/raw.eml" failed done

-- the DELETE of the messages throws
abbrev stuck : DeleteFaults
stuck = record { fails = λ _. false; removes = λ _ _. false; db_fails = λ n. eqb n 1 }

abbrev half : Vault
half = (delete_thread_data stuck "t1" vault).1

forget_thread-messages_example :
    (any (in_thread "t1") (forget_thread "t1" store).messages ≡ false)
    × (any (λ t. t.thread_id == "t1") (forget_thread "t1" store).threads ≡ false)
    × (where_rows (in_thread "t2") (forget_thread "t1" store).messages
        ≡ update
            (λ m. refers_gone "t1" store m.parent_message_id)
            (λ m. record m { parent_message_id = none })
            (where_rows (in_thread "t2") store.messages))
forget_thread-messages_example = forget_thread-messages "t1" "t2" store refl

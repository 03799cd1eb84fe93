-- ===== src/Retention/Defs.antt =====
-- deleteThreadData and cleanupMail. A call of R2 with many keys can fail after it has removed some
-- of them; which ones is an input. The foreign keys of the tables act as they are declared
-- (ON DELETE CASCADE and SET NULL). The audit log and the probes are not in the database here.
use Prim.Native.String.{compare as compare_texts}
use Prim.Native.Nat.{Ordering}
use mail_gable.Base.{
  ℕ, zero, suc, ◌-◌, ◌*◌, String, Bool, true, false, Option, none, some, List, [], ◌∷◌, ◌++◌, map,
  ◌==◌, not, ◌&&◌, ◌||◌, ltb, eqb, length, take, if◌then◌else◌, or_else, is_some, where_rows,
  update, delete, any, first_chars,
}
use mail_gable.Store.Tables.{
  Message, Thread, trash, DeliveryEvent, ForwardStatus, accepted, forward_failed, Database,
}
use mail_gable.Store.Effects.{thrown, app_error, deletion_incomplete, ok, err, Exec, ◌>>◌}
use mail_gable.Threads.{in_thread, distinct}

-- The database and the keys of the R2 bucket.
pub record Vault : Type 0 where
  pub db : Database
  pub bucket : List String

-- Which delete calls of R2 fail, counted from 0, and what such a call has removed nevertheless; and
-- which statements on the database throw, counted from 0, which then change nothing.
pub record DeleteFaults : Type 0 where
  pub fails : ℕ → Bool
  pub removes : ℕ → String → Bool
  pub db_fails : ℕ → Bool

abbrev pub raw_keys : List Message → List String
raw_keys [] = []
raw_keys (m ∷ ms) = elim m.raw_r2_key [ none ↦ raw_keys ms | some k ↦ k ∷ raw_keys ms ]

-- threadR2ObjectKeys
unfoldable pub thread_object_keys : String → Database → List String
thread_object_keys id db =
    let inside = where_rows (in_thread id) db.messages in
    raw_keys inside
    ++ map (λ a. a.r2_object_key)
        (where_rows (λ a. any (λ m. m.message_id == a.message_id) inside) db.attachments)

-- uniqueKeys
unfoldable pub unique_keys : List String → List String
unique_keys keys = distinct (where_rows (λ k. not (k == "")) (map (first_chars 1000) keys))

abbrev pub drop {ℓ} : {A : Type ℓ} → ℕ → List A → List A
drop zero xs = xs
drop (suc n) [] = []
drop (suc n) (x ∷ xs) = drop n xs

abbrev pub is_among : List String → String → Bool
is_among keys k = any (λ j. j == k) keys

-- MAIL_R2.delete(chunk)
unfoldable pub delete_chunk : DeleteFaults → ℕ → List String → Exec Vault (Unit {0})
delete_chunk f n chunk v =
    if f.fails n
    then (
      err (app_error 503 deletion_incomplete),
      record v { bucket = delete (λ k. is_among chunk k && f.removes n k) v.bucket },
    )
    else (ok tt, record v { bucket = delete (is_among chunk) v.bucket })

-- the loop over the chunks; the first argument bounds the number of calls
unfoldable pub delete_chunks : ℕ → DeleteFaults → ℕ → List String → Exec Vault (Unit {0})
delete_chunks bound f n [] v = (ok tt, v)
delete_chunks zero f n (k ∷ ks) v = (ok tt, v)
delete_chunks (suc bound) f n (k ∷ ks) v =
    (delete_chunk f n (take 1000 (k ∷ ks)) >> delete_chunks bound f (suc n) (drop 1000 (k ∷ ks))) v

-- DELETE FROM mail_delivery_events WHERE message_id=?, for each of the messages
abbrev pub is_event_of : String → DeliveryEvent → Bool
is_event_of id e = is_some e.message_id && (or_else e.message_id "" == id)

unfoldable pub delete_events : List Message → List DeliveryEvent → List DeliveryEvent
delete_events [] events = events
delete_events (m ∷ ms) events = delete_events ms (delete (is_event_of m.message_id) events)

-- the messages that DELETE FROM mail_messages WHERE thread_id=? removes
abbrev pub is_gone : String → Database → String → Bool
is_gone id db message = any (λ m. (m.message_id == message) && in_thread id m) db.messages

abbrev pub refers_gone : String → Database → Option String → Bool
refers_gone id db none = false
refers_gone id db (some message) = is_gone id db message

-- DELETE FROM mail_messages WHERE thread_id=?, with the foreign keys
unfoldable pub delete_messages : String → Database → Database
delete_messages id db = record db {
  messages =
      update (λ m. refers_gone id db m.parent_message_id)
        (λ m. record m { parent_message_id = none }) (delete (in_thread id) db.messages);
  attachments = delete (λ a. is_gone id db a.message_id) db.attachments;
  events =
      update (λ e. refers_gone id db e.message_id) (λ e. record e { message_id = none }) db.events;
  forward_attempts = delete (λ a. is_gone id db a.message_id) db.forward_attempts;
}

-- DELETE FROM mail_threads WHERE thread_id=?
abbrev pub delete_thread_row : String → Database → Database
delete_thread_row id db = record db { threads = delete (λ t. t.thread_id == id) db.threads }

-- what all the statements on the database amount to
unfoldable pub forget_thread : String → Database → Database
forget_thread id db = delete_thread_row id (
    delete_messages id
      (record db { events = delete_events (where_rows (in_thread id) db.messages) db.events }))

-- a statement on the database, which throws or takes effect
unfoldable pub run_statement : DeleteFaults → ℕ → (Database → Database) → Exec Vault (Unit {0})
run_statement f n change v =
    if f.db_fails n then (err (thrown "D1_ERROR"), v) else (ok tt, record v { db = change v.db })

-- the loop over the messages
unfoldable pub delete_each : DeleteFaults → ℕ → List Message → Exec Vault (Unit {0})
delete_each f n [] v = (ok tt, v)
delete_each f n (m ∷ ms) v =
    (run_statement f n (λ db. record db { events = delete (is_event_of m.message_id) db.events })
        >> delete_each f (suc n) ms)
      v

-- the D1 half of deleteThreadData
unfoldable pub forget_rows : DeleteFaults → String → Exec Vault (Unit {0})
unfolding run_statement delete_each delete_messages
forget_rows f id v =
    let inside = where_rows (in_thread id) v.db.messages in
    (delete_each f 0 inside
        >> (run_statement f (length inside) (delete_messages id)
            >> run_statement f (suc (length inside)) (delete_thread_row id)))
      v

unfoldable pub delete_thread_data : DeleteFaults → String → Exec Vault ℕ
unfolding forget_rows
delete_thread_data f id v =
    let keys = unique_keys (thread_object_keys id v.db) in
    (delete_chunks (length keys) f 0 keys >> (forget_rows f id >> λ v. (ok (length keys), v))) v

-- ORDER BY time ASC, thread_id ASC
abbrev pub precedes : (Thread → ℕ) → Thread → Thread → Bool
precedes time t u =
    ltb (time t) (time u)
    || (eqb (time t) (time u)
        && elim (compare_texts t.thread_id u.thread_id) [ Ordering.gt ↦ false | _ ↦ true ])

unfoldable pub insert_by : (Thread → ℕ) → Thread → List Thread → List Thread
insert_by time t [] = t ∷ []
insert_by time t (u ∷ us) =
    let rest = insert_by time t us in if precedes time t u then t ∷ u ∷ us else u ∷ rest

unfoldable pub order_by : (Thread → ℕ) → List Thread → List Thread
order_by time [] = []
order_by time (t ∷ ts) = insert_by time t (order_by time ts)

abbrev pub is_trash : Thread → Bool
is_trash t = elim t.status [ trash ↦ true | _ ↦ false ]

abbrev pub is_expired_thread : ℕ → Thread → Bool
is_expired_thread cutoff t = not (is_trash t) && ltb t.last_message_at cutoff

abbrev pub is_expired_trash : ℕ → Thread → Bool
is_expired_trash cutoff t = is_trash t && ltb t.updated_at cutoff

-- the body of both loops; a failure is logged and the thread deferred
abbrev pub purge_one : (String → DeleteFaults) → Thread → Vault → Vault
purge_one f t v =
    if t.thread_id == "" then v else (delete_thread_data (f t.thread_id) t.thread_id v).1

-- a loop over the selected threads
unfoldable pub purge : (String → DeleteFaults) → List Thread → Vault → Vault
purge f [] v = v
purge f (t ∷ ts) v = purge f ts (purge_one f t v)

abbrev pub days : ℕ → ℕ
days n = n * 24 * 60 * 60000

abbrev pub is_settled : ForwardStatus → Bool
is_settled accepted = true
is_settled forward_failed = true
is_settled _ = false

-- the last batch
unfoldable pub delete_old_rows : ℕ → Database → Database
delete_old_rows now db = record db {
  events = delete (λ e. ltb e.received_at (now - days 180)) db.events;
  forward_attempts =
      delete (λ a. ltb a.updated_at (now - days 180) && is_settled a.status) db.forward_attempts;
}

-- the threads past the retention of messages, which 0 switches off
abbrev pub purge_expired : ℕ → ℕ → (String → DeleteFaults) → Vault → Vault
purge_expired retention now f v =
    if ltb 0 retention
    then purge f
        (take 50 (
          order_by (λ t. t.last_message_at)
            (where_rows (is_expired_thread (now - days retention)) v.db.threads)))
        v
    else v

abbrev pub purge_trash : ℕ → ℕ → (String → DeleteFaults) → Vault → Vault
purge_trash trash_retention now f v =
    purge f
      (take 50 (
        order_by (λ t. t.updated_at)
          (where_rows (is_expired_trash (now - days trash_retention)) v.db.threads)))
      v

-- cleanupMail, for the retention in days of messages and of the trash; the faults of the two loops
unfoldable pub cleanup_mail :
    ℕ → ℕ → ℕ → (String → DeleteFaults) → (String → DeleteFaults) → Vault → Vault
cleanup_mail retention trash_retention now f g v =
    let emptied = purge_trash trash_retention now g (purge_expired retention now f v) in
    record emptied { db = delete_old_rows now emptied.db }

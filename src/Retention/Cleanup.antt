-- ===== src/Retention/Cleanup.antt =====
-- The scheduled cleanup: which threads it can touch.
use mail_gable.Base.{
  ℕ, zero, suc, ◌-◌, String, Bool, false, List, [], ◌∷◌, ◌==◌, ◌≡◌, refl, ◌∙◌, ◌&&◌, ◌||◌, ap,
  arith, inl, inr, ltb, take, map, where_rows, update, delete, any, Bool-cases,
}
use mail_gable.Store.Tables.{Message, Thread, Database}
use mail_gable.Threads.{in_thread}
use mail_gable.Retention.Defs.{
  Vault, DeleteFaults, delete_thread_data, forget_thread, delete_messages, insert_by, order_by,
  is_expired_thread, is_expired_trash, purge_one, purge, days, delete_old_rows, purge_expired,
  cleanup_mail,
}
use mail_gable.Retention.Forgetting.{forget_thread-messages}
use mail_gable.Store.Effects.{Result, ok, err}
use mail_gable.Retention.Resumed.{Interrupted}
use mail_gable.Retention.Deleting.{delete_thread_data-err, delete_thread_data-ok}

-- the ids of the messages of a thread
abbrev pub message_ids : String → Database → List String
message_ids id db = map (λ m. m.message_id) (where_rows (in_thread id) db.messages)

module _ (p : Thread → Bool) where
  any-insert_by :
      (time : Thread → ℕ) (t : Thread) (ts : List Thread)
      → any p (insert_by time t ts) ≡ (p t || any p ts)
  unfolding any insert_by
  any-insert_by time t [] = refl
  any-insert_by time t (u ∷ us) = ground (arith, any-insert_by time t us)

  any-order_by : (time : Thread → ℕ) (ts : List Thread) → any p (order_by time ts) ≡ any p ts
  unfolding any order_by
  any-order_by time [] = refl
  any-order_by time (t ∷ ts) =
      any-insert_by time t (order_by time ts) ∙ ap (λ b. p t || b) (any-order_by time ts)

  any-take : (n : ℕ) (ts : List Thread) → any p ts ≡ false → any p (take n ts) ≡ false
  unfolding any
  any-take zero [] h = refl
  any-take (suc n) [] h = refl
  any-take zero (t ∷ ts) h = refl
  any-take (suc n) (t ∷ ts) h = ground (arith, any-take n ts)

  any-where_rows :
      (q : Thread → Bool) (ts : List Thread)
      → any (λ t. p t && q t) ts ≡ false
      → any p (where_rows q ts) ≡ false
  unfolding any where_rows
  any-where_rows q [] h = refl
  any-where_rows q (t ∷ ts) h = ground (arith, any-where_rows q ts)

  any-delete_threads :
      (q : Thread → Bool) (ts : List Thread) → any p ts ≡ false → any p (delete q ts) ≡ false
  unfolding any delete
  any-delete_threads q [] h = refl
  any-delete_threads q (t ∷ ts) h = ground (arith, any-delete_threads q ts)

map-update :
    (q : Message → Bool) (f : Message → Message) (ms : List Message)
    → ((m : Message) → (f m).message_id ≡ m.message_id)
    → map (λ m. m.message_id) (update q f ms) ≡ map (λ m. m.message_id) ms
unfolding update
map-update q f [] h = refl
map-update q f (m ∷ ms) h = elim (Bool-cases (q m)) [
  | inl yes' ↦ rw (yes', h m) (ap (λ r. m.message_id ∷ r) (map-update q f ms h))
  | inr no' ↦ rw no' (ap (λ r. m.message_id ∷ r) (map-update q f ms h))
]

-- What a step may do to a database that has a thread to keep: no message of the thread goes, and
-- no thread comes.
abbrev Spares : String → Database → Database → Type 0
Spares id before after =
    (message_ids id after ≡ message_ids id before)
    × ((p : Thread → Bool) → any p before.threads ≡ false → any p after.threads ≡ false)

Spares-refl : (id : String) (db : Database) → Spares id db db
Spares-refl id db = (refl, λ p h. h)

Spares-trans : (id : String) (a b c : Database) → Spares id a b → Spares id b c → Spares id a c
Spares-trans id a b c (e, h) (e', h') = (e' ∙ e, λ p q. h' p (h p q))

delete_messages-Spares :
    (id other : String) (db : Database)
    → (id == other) ≡ false
    → message_ids other (delete_messages id db) ≡ message_ids other db
unfolding delete_messages forget_thread
delete_messages-Spares id other db apart =
    ap (map (λ m. m.message_id)) (forget_thread-messages id other db apart).2
    ∙ map-update _ _ (where_rows (in_thread other) db.messages) (λ m. refl)

forget_thread-Spares :
    (id other : String) (db : Database)
    → (id == other) ≡ false
    → Spares other db (forget_thread id db)
unfolding forget_thread delete_messages
forget_thread-Spares id other db apart = (
  delete_messages-Spares id other db apart,
  λ p h. any-delete_threads p (λ t. t.thread_id == id) db.threads h,
)

Interrupted-Spares :
    (id other : String) (db after : Database)
    → (id == other) ≡ false
    → Interrupted id db after
    → Spares other db after
Interrupted-Spares id other db after apart (same, threads, inl (messages, attachments)) = (
  ap (λ ms. map (λ m. m.message_id) (where_rows (in_thread other) ms)) messages,
  λ p h. ap (any p) threads ∙ h,
)
Interrupted-Spares id other db after apart (same, threads, inr rows) = (
  ap (λ ms. map (λ m. m.message_id) (where_rows (in_thread other) ms)) rows
      ∙ delete_messages-Spares id other db apart,
  λ p h. ap (any p) threads ∙ h,
)

delete_thread_data-Spares :
    (f : DeleteFaults) (id other : String) (v : Vault)
    → (id == other) ≡ false
    → Spares other v.db (delete_thread_data f id v).1.db
delete_thread_data-Spares f id other v apart = go (delete_thread_data f id v) refl
  where
    go : (r : Result ℕ × Vault) → delete_thread_data f id v ≡ r → Spares other v.db r.1.db
    go (ok n, w) h =
        rw (delete_thread_data-ok f id n v w h).0 (forget_thread-Spares id other v.db apart)
    go (err e, w) h = elim (delete_thread_data-err f id v w e h) [
      | inl (error, same) ↦ rw same (Spares-refl other v.db)
      | inr (error, stopped, gone) ↦ Interrupted-Spares id other v.db w.db apart stopped
    ]

module _ (f : String → DeleteFaults) (other : String) where
  purge_one-Spares :
      (t : Thread) (v : Vault)
      → (t.thread_id == other) ≡ false
      → Spares other v.db (purge_one f t v).db
  purge_one-Spares t v apart = elim (Bool-cases (t.thread_id == "")) [
    | inl empty ↦ rw empty (Spares-refl other v.db)
    | inr named ↦ rw named (delete_thread_data-Spares (f t.thread_id) t.thread_id other v apart)
  ]

  purge-Spares :
      (ts : List Thread) (v : Vault)
      → any (λ t. t.thread_id == other) ts ≡ false
      → Spares other v.db (purge f ts v).db
  unfolding purge any
  purge-Spares [] v h = Spares-refl other v.db
  purge-Spares (t ∷ ts) v h =
      Spares-trans other v.db (purge_one f t v).db (purge f ts (purge_one f t v)).db
        (purge_one-Spares t v (ground arith)) (purge-Spares ts (purge_one f t v) (ground arith))

  -- A batch of the threads of one condition spares a thread that does not meet it.
  batch-Spares :
      (time : Thread → ℕ) (q : Thread → Bool) (v : Vault)
      → any (λ t. (t.thread_id == other) && q t) v.db.threads ≡ false
      → Spares other v.db (purge f (take 50 (order_by time (where_rows q v.db.threads))) v).db
  batch-Spares time q v h = purge-Spares (take 50 (order_by time (where_rows q v.db.threads))) v (
      any-take (λ t. t.thread_id == other) 50 (order_by time (where_rows q v.db.threads))
        (any-order_by (λ t. t.thread_id == other) time (where_rows q v.db.threads)
          ∙ any-where_rows (λ t. t.thread_id == other) q v.db.threads h))

  purge_expired-Spares :
      (retention now : ℕ) (v : Vault)
      → any
          (λ t.
            (t.thread_id == other)
            && (ltb 0 retention && is_expired_thread (now - days retention) t))
          v.db.threads
        ≡ false
      → Spares other v.db (purge_expired retention now f v).db
  purge_expired-Spares retention now v fresh = elim (Bool-cases (ltb 0 retention)) [
    | inl on ↦ rw on (
        batch-Spares (λ t. t.last_message_at) (is_expired_thread (now - days retention)) v
          (rw on at fresh))
    | inr off ↦ rw off (Spares-refl other v.db)
  ]

-- The cleanup deletes no message of a thread that is neither older than the retention, where one
-- is set, nor in the trash for longer than the retention of the trash, whatever deletions fail.
pub cleanup_mail-keeps :
    (retention trash_retention now : ℕ) (f g : String → DeleteFaults) (v : Vault) (id : String)
    → any
        (λ t.
          (t.thread_id == id) && (ltb 0 retention && is_expired_thread (now - days retention) t))
        v.db.threads
      ≡ false
    → any (λ t. (t.thread_id == id) && is_expired_trash (now - days trash_retention) t) v.db.threads
      ≡ false
    → message_ids id (cleanup_mail retention trash_retention now f g v).db ≡ message_ids id v.db
unfolding cleanup_mail delete_old_rows
cleanup_mail-keeps retention trash_retention now f g v id fresh kept =
    let first = purge_expired-Spares f id retention now v fresh in
    let second =
      batch-Spares g id (λ t. t.updated_at) (is_expired_trash (now - days trash_retention))
        (purge_expired retention now f v)
        (first.1 (λ t. (t.thread_id == id) && is_expired_trash (now - days trash_retention) t)
          kept) in
    second.0 ∙ first.0

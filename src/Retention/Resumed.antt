-- ===== src/Retention/Resumed.antt =====
-- The statements of deleteThreadData on the database, each of which can fail.
use mail_gable.Base.{
  ℕ, suc, String, Bool, true, false, Option, none, some, List, [], ◌∷◌, ◌==◌, ◌&&◌, ◌≡◌, refl, ◌∙◌,
  sym, ap, arith, eq_iff, eq_refl, inl, inr, where_rows, update, delete, any, Bool-cases,
  any-delete, ◌⊎◌,
}
use mail_gable.Store.Tables.{Message, DeliveryEvent, Database}
use mail_gable.Store.Effects.{ok}
use mail_gable.Store.Inversion.{err-ne-ok}
use mail_gable.Threads.{in_thread}
use mail_gable.Retention.Defs.{
  Vault, DeleteFaults, forget_thread, delete_messages, delete_thread_row, refers_gone, is_gone,
  is_event_of, delete_events, run_statement, delete_each,
}
use mail_gable.Retention.Forgetting.{any-update}

module _ {ℓ} {A : Type ℓ} where
  delete-delete : (p q : A → Bool) (xs : List A) → delete p (delete q xs) ≡ delete q (delete p xs)
  unfolding delete
  delete-delete p q [] = refl
  delete-delete p q (x ∷ xs) = ground (arith, delete-delete p q xs)

  delete-none : (p : A → Bool) (xs : List A) → any p xs ≡ false → delete p xs ≡ xs
  unfolding delete any
  delete-none p [] h = refl
  delete-none p (x ∷ xs) h = ground (arith, delete-none p xs)

  delete-nowhere : (p : A → Bool) (xs : List A) → ((a : A) → p a ≡ false) → delete p xs ≡ xs
  unfolding delete
  delete-nowhere p [] h = refl
  delete-nowhere p (x ∷ xs) h = ground (arith, h x, delete-nowhere p xs h)

  update-nowhere :
      (p : A → Bool) (f : A → A) (xs : List A) → ((a : A) → p a ≡ false) → update p f xs ≡ xs
  unfolding update
  update-nowhere p f [] h = refl
  update-nowhere p f (x ∷ xs) h = ground (arith, h x, update-nowhere p f xs h)

  pub where_rows-none : (p : A → Bool) (xs : List A) → any p xs ≡ false → where_rows p xs ≡ []
  unfolding where_rows any
  where_rows-none p [] h = refl
  where_rows-none p (x ∷ xs) h = ground (arith, where_rows-none p xs)

-- What is deleted in the end may be deleted before.
delete_events-delete :
    (ms : List Message) (k : String) (es : List DeliveryEvent)
    → any (λ m. m.message_id == k) ms ≡ true
    → delete_events ms (delete (is_event_of k) es) ≡ delete_events ms es
unfolding delete_events any
delete_events-delete [] k es h = cc
delete_events-delete (m ∷ ms) k es h = elim (Bool-cases (m.message_id == k)) [
  | inl same ↦
      let eq : m.message_id ≡ k = (eq_iff m.message_id k).0 same in
      ap (delete_events ms) (
        ap (λ x. delete (is_event_of x) (delete (is_event_of k) es)) eq
        ∙ delete-none (is_event_of k) (delete (is_event_of k) es) (any-delete (is_event_of k) es)
        ∙ ap (λ x. delete (is_event_of x) es) (sym eq))
  | inr other ↦
      ap (delete_events ms) (delete-delete (is_event_of m.message_id) (is_event_of k) es)
      ∙ delete_events-delete ms k (delete (is_event_of m.message_id) es) (ground arith)
]

module _ (id : String) where
  pub none_inside : (db : Database) → any (in_thread id) (delete_messages id db).messages ≡ false
  unfolding delete_messages
  none_inside db =
      any-update (in_thread id) (λ m. refers_gone id db m.parent_message_id)
        (λ m. record m { parent_message_id = none }) (delete (in_thread id) db.messages) (λ m. refl)
      ∙ any-delete (in_thread id) db.messages

  any-both :
      (k : String) (ms : List Message)
      → any (in_thread id) ms ≡ false
      → any (λ m. (m.message_id == k) && in_thread id m) ms ≡ false
  unfolding any
  any-both k [] h = refl
  any-both k (m ∷ ms) h = ground (arith, any-both k ms)

  -- Where the thread has no message, the DELETE of its messages changes nothing.
  delete_messages-settled :
      (db : Database) → any (in_thread id) db.messages ≡ false → delete_messages id db ≡ db
  unfolding delete_messages
  delete_messages-settled db h = λ i. record db {
    messages =
        (ap
              (update (λ m. refers_gone id db m.parent_message_id)
                (λ m. record m { parent_message_id = none }))
              (delete-none (in_thread id) db.messages h)
            ∙ update-nowhere _ _ db.messages (λ m. refers m.parent_message_id))
          i;
    attachments = delete-nowhere _ db.attachments (λ a. gone a.message_id) i;
    events =
        update-nowhere _ (λ e. record e { message_id = none }) db.events (λ e. refers e.message_id)
          i;
    forward_attempts = delete-nowhere _ db.forward_attempts (λ a. gone a.message_id) i;
  }
    where
      gone : (k : String) → is_gone id db k ≡ false
      gone k = any-both k db.messages h

      refers : (k : Option String) → refers_gone id db k ≡ false
      refers none = refl
      refers (some k) = gone k

  -- Forgetting a thread from here on has the same effect.
  abbrev pub Resumes : Database → Database → Type 0
  Resumes before after = forget_thread id after ≡ forget_thread id before

  event-Resumes :
      (db : Database) (k : String)
      → any (λ m. m.message_id == k) (where_rows (in_thread id) db.messages) ≡ true
      → Resumes db (record db { events = delete (is_event_of k) db.events })
  unfolding forget_thread
  event-Resumes db k h =
      ap (λ es. delete_thread_row id (delete_messages id (record db { events = es })))
        (delete_events-delete (where_rows (in_thread id) db.messages) k db.events h)

  -- Where the thread has no message, only its row is left to delete.
  pub forget_thread-settled :
      (db : Database)
      → any (in_thread id) db.messages ≡ false
      → forget_thread id db ≡ delete_thread_row id db
  unfolding forget_thread delete_events
  forget_thread-settled db h =
      ap
        (λ ms.
          delete_thread_row id
            (delete_messages id (record db { events = delete_events ms db.events })))
        (where_rows-none (in_thread id) db.messages h)
      ∙ ap (delete_thread_row id) (delete_messages-settled db h)

  -- What the statements on the database leave where one of them throws: the row of the thread is
  -- there still, all messages and attachments are as they were or the messages are what the DELETE
  -- of those of the thread leaves, and a later run has the effect that this one would have had.
  abbrev pub Interrupted : Database → Database → Type 0
  Interrupted before after =
      Resumes before after
      × (after.threads ≡ before.threads)
      × (((after.messages ≡ before.messages) × (after.attachments ≡ before.attachments))
          ⊎ (after.messages ≡ (delete_messages id before).messages))

  module _ (f : DeleteFaults) where
    abbrev pub Looped : Database → Database → Type 0
    Looped before after =
        Resumes before after
        × (after.threads ≡ before.threads)
        × (after.messages ≡ before.messages)
        × (after.attachments ≡ before.attachments)

    pub delete_each-Looped :
        (n : ℕ) (ms : List Message) (v : Vault)
        → ((k : String)
            → any (λ m. m.message_id == k) ms ≡ true
            → any (λ m. m.message_id == k) (where_rows (in_thread id) v.db.messages) ≡ true)
        → Looped v.db (delete_each f n ms v).1.db
    unfolding delete_each run_statement any
    delete_each-Looped n [] v within = (refl, refl, refl, refl)
    delete_each-Looped n (m ∷ ms) v within = elim (Bool-cases (f.db_fails n)) [
      | inl fails ↦ rw fails (refl, refl, refl, refl)
      | inr works ↦
          let (same, threads, messages, attachments) =
            delete_each-Looped (suc n) ms
              (record v {
                db = record v.db { events = delete (is_event_of m.message_id) v.db.events };
              })
              (λ k among. within k (ground arith)) in
          rw works (
            same
                ∙ event-Resumes v.db m.message_id
                    (within m.message_id (rw (eq_refl m.message_id) refl)),
            threads,
            messages,
            attachments,
          )
    ]

    pub delete_each-ok :
        (n : ℕ) (ms : List Message) (v w : Vault) (u : Unit {0})
        → delete_each f n ms v ≡ (ok u, w)
        → w.db ≡ record v.db { events = delete_events ms v.db.events }
    unfolding delete_each run_statement delete_events
    delete_each-ok n [] v w u h = ap (λ r. r.1.db) (sym h)
    delete_each-ok n (m ∷ ms) v w u h = elim (Bool-cases (f.db_fails n)) [
      | inl fails ↦ absurd (err-ne-ok _ u _ w (rw fails at h))
      | inr works ↦
          delete_each-ok (suc n) ms
            (record v {
              db = record v.db { events = delete (is_event_of m.message_id) v.db.events };
            })
            w u (rw works at h)
    ]

    pub bucket-delete_each :
        (n : ℕ) (ms : List Message) (v : Vault) → (delete_each f n ms v).1.bucket ≡ v.bucket
    unfolding delete_each run_statement
    bucket-delete_each n [] v = refl
    bucket-delete_each n (m ∷ ms) v = elim (Bool-cases (f.db_fails n)) [
      | inl fails ↦ rw fails refl
      | inr works ↦ rw works (bucket-delete_each (suc n) ms _)
    ]

-- ===== src/Retention/Forgetting.antt =====
-- What the statements of deleteThreadData on the database leave.
use mail_gable.Base.{
  String, Bool, true, false, none, List, [], ◌∷◌, ◌==◌, ◌≡◌, refl, ◌∙◌, ap, arith, eq_iff, inl, inr,
  where_rows, update, delete, any, Bool-cases, any-delete,
}
use mail_gable.Store.Tables.{Database}
use mail_gable.Threads.{in_thread}
use mail_gable.Retention.Defs.{forget_thread, delete_messages, refers_gone}

module _ {ℓ} {A : Type ℓ} (p q : A → Bool) where
  where_rows-delete :
      (xs : List A)
      → ((a : A) → p a ≡ true → q a ≡ false)
      → where_rows p (delete q xs) ≡ where_rows p xs
  unfolding where_rows delete
  where_rows-delete [] h = refl
  where_rows-delete (x ∷ xs) h = elim (Bool-cases (p x)) [
    | inl inside ↦ rw (h x inside, inside) (ap (λ r. x ∷ r) (where_rows-delete xs h))
    | inr out ↦ ground (arith, where_rows-delete xs h)
  ]

  where_rows-update :
      (f : A → A) (xs : List A)
      → ((a : A) → p (f a) ≡ p a)
      → where_rows p (update q f xs) ≡ update q f (where_rows p xs)
  unfolding where_rows update
  where_rows-update f [] h = refl
  where_rows-update f (x ∷ xs) h = ground (arith, h x, where_rows-update f xs h)

  pub any-update :
      (f : A → A) (xs : List A) → ((a : A) → p (f a) ≡ p a) → any p (update q f xs) ≡ any p xs
  unfolding any update
  any-update f [] h = refl
  any-update f (x ∷ xs) h = ground (arith, h x, any-update f xs h)

-- No message and no row of the thread is left, and the messages of every other thread are, but
-- that an answer to a deleted message has no parent any more.
pub forget_thread-messages :
    (id other : String) (db : Database)
    → (id == other) ≡ false
    → (any (in_thread id) (forget_thread id db).messages ≡ false)
      × (any (λ t. t.thread_id == id) (forget_thread id db).threads ≡ false)
      × (where_rows (in_thread other) (forget_thread id db).messages
          ≡ update
              (λ m. refers_gone id db m.parent_message_id)
              (λ m. record m { parent_message_id = none })
              (where_rows (in_thread other) db.messages))
unfolding forget_thread delete_messages
forget_thread-messages id other db apart = (
  any-update (in_thread id) (λ m. refers_gone id db m.parent_message_id)
        (λ m. record m { parent_message_id = none }) (delete (in_thread id) db.messages) (λ m. refl)
      ∙ any-delete (in_thread id) db.messages,
  any-delete (λ t. t.thread_id == id) db.threads,
  where_rows-update (in_thread other) (λ m. refers_gone id db m.parent_message_id)
        (λ m. record m { parent_message_id = none }) (delete (in_thread id) db.messages) (λ m. refl)
      ∙ ap
          (update (λ m. refers_gone id db m.parent_message_id)
            (λ m. record m { parent_message_id = none }))
          (where_rows-delete (in_thread other) (in_thread id) db.messages (λ m inside.
            ground (arith, eq_iff m.thread_id other, eq_iff m.thread_id id, eq_iff id other))),
)

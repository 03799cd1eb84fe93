-- ===== src/Retention/Deleting.antt =====
-- Deleting a thread: what is kept when it fails, and what is gone when it succeeds.
use mail_gable.Base.{
  ◌⊎◌, ℕ, inl, inr, String, Bool, true, false, ◌≡◌, refl, ◌∙◌, sym, ap, length, arith, List, [],
  ◌∷◌, if◌then◌else◌, Bool-cases, subst, where_rows, any,
}
use mail_gable.Store.Tables.{Database}
use mail_gable.Store.Effects.{thrown, app_error, deletion_incomplete, Error, ok, err}
use mail_gable.Store.Inversion.{keeps-bind, bind-ok, bind-err, ok-injective, err-ne-ok}
use mail_gable.Threads.{in_thread, distinct}
use mail_gable.Retention.Defs.{
  Vault, DeleteFaults, is_among, thread_object_keys, unique_keys, delete_chunks, forget_thread,
  forget_rows, delete_thread_data,
}
use mail_gable.Retention.Batches.{
  delete_chunks-Fails, db-delete_chunks, absent-delete_chunks, delete_chunks-removes,
  delete_chunks-keeps,
}
use mail_gable.Retention.Resumed.{none_inside, Interrupted, where_rows-none}
use mail_gable.Retention.Interrupted.{
  forget_rows-Fails, forget_rows-err, forget_rows-ok, bucket-forget_rows,
}

abbrev pub keys_of : String → Database → List String
keys_of id db = unique_keys (thread_object_keys id db)

where_rows-nowhere {ℓ} :
    {A : Type ℓ} (p : A → Bool) (xs : List A) → ((a : A) → p a ≡ false) → where_rows p xs ≡ []
unfolding where_rows
where_rows-nowhere p [] h = refl
where_rows-nowhere p (x ∷ xs) h = ground (arith, h x, where_rows-nowhere p xs h)

keys_of-empty :
    (id : String) (db : Database) → any (in_thread id) db.messages ≡ false → keys_of id db ≡ []
unfolding thread_object_keys unique_keys any where_rows distinct
keys_of-empty id db h =
    rw (where_rows-none (in_thread id) db.messages h)
      (rw (where_rows-nowhere (λ a. false) db.attachments (λ a. refl)) refl)

keys_of-same :
    (id : String) (db after : Database)
    → after.messages ≡ db.messages
    → after.attachments ≡ db.attachments
    → keys_of id after ≡ keys_of id db
unfolding thread_object_keys
keys_of-same id db after e e' =
    λ i. keys_of id (record after { messages = e i; attachments = e' i })

-- An interrupted deletion leaves no new key to delete.
Interrupted-keys :
    (id j : String) (before after : Database)
    → Interrupted id before after
    → is_among (keys_of id before) j ≡ false
    → is_among (keys_of id after) j ≡ false
unfolding any
Interrupted-keys id j before after (same, threads, inl (e, e')) h =
    ap (λ ks. is_among ks j) (keys_of-same id before after e e') ∙ h
Interrupted-keys id j before after (same, threads, inr rows) h =
    ap (λ ks. is_among ks j)
      (keys_of-empty id after (ap (any (in_thread id)) rows ∙ none_inside id before))

module _ (f : DeleteFaults) (id : String) where
  abbrev objects : Vault → ℕ
  objects v = length (keys_of id v.db)

  pub delete_thread_data-err :
      (v w : Vault) (e : Error)
      → delete_thread_data f id v ≡ (err e, w)
      → ((e ≡ app_error 503 deletion_incomplete) × (w.db ≡ v.db))
        ⊎ ((e ≡ thrown "D1_ERROR")
            × Interrupted id v.db w.db
            × ((j : String) → is_among (keys_of id v.db) j ≡ true → is_among w.bucket j ≡ false))
  unfolding delete_thread_data
  delete_thread_data-err v w e h =
      elim (bind-err (delete_chunks (objects v) f 0 (keys_of id v.db)) _ v w e h) [
        | inl failed ↦ inl (
          delete_chunks-Fails f (objects v) 0 (keys_of id v.db) v w e failed,
          ap (λ r. r.1.db) (sym failed) ∙ db-delete_chunks f (objects v) 0 (keys_of id v.db) v,
        )
        | inr (u, mid, emptied, rest) ↦ elim (bind-err (forget_rows f id) _ mid w e rest) [
          | inr (x, last, forgotten, done) ↦ absurd (err-ne-ok e _ w _ (sym done))
          | inl failed ↦ inr (
            forget_rows-Fails f id mid w e failed,
            subst (λ db. Interrupted id db w.db) (unmoved v mid u emptied)
                (forget_rows-err f id mid w e failed),
            λ j among.
                ap (λ r. is_among r.1.bucket j) (sym failed)
                ∙ ap (λ b. is_among b j) (bucket-forget_rows f id mid)
                ∙ delete_chunks-removes f j (objects v) 0 (keys_of id v.db) u v mid emptied
                    (omega arith) among,
          )
        ]
      ]
    where
      unmoved :
          (v mid : Vault) (u : Unit {0})
          → delete_chunks (objects v) f 0 (keys_of id v.db) v ≡ (ok u, mid)
          → mid.db ≡ v.db
      unmoved v mid u emptied =
          ap (λ r. r.1.db) (sym emptied) ∙ db-delete_chunks f (objects v) 0 (keys_of id v.db) v

  -- A deletion that succeeds has deleted the rows of the thread, and none of its objects is left.
  pub delete_thread_data-ok :
      (n : ℕ) (v w : Vault)
      → delete_thread_data f id v ≡ (ok n, w)
      → (w.db ≡ forget_thread id v.db)
        × ((j : String) → is_among (keys_of id v.db) j ≡ true → is_among w.bucket j ≡ false)
  unfolding delete_thread_data
  delete_thread_data-ok n v w h =
      let (u, mid, emptied, rest) =
        bind-ok (delete_chunks (objects v) f 0 (keys_of id v.db)) _ v w n h in
      let (x, last, forgotten, done) = bind-ok (forget_rows f id) _ mid w n rest in
      let (_, moved) = ok-injective (objects v) n last w done in
      let unmoved : mid.db ≡ v.db =
        ap (λ r. r.1.db) (sym emptied) ∙ db-delete_chunks f (objects v) 0 (keys_of id v.db) v in
      (
        ap (λ (x : Vault). x.db) (sym moved)
            ∙ forget_rows-ok f id mid last x forgotten
            ∙ ap (forget_thread id) unmoved,
        λ j among.
            ap (λ (x : Vault). is_among x.bucket j) (sym moved)
            ∙ ap (λ r. is_among r.1.bucket j) (sym forgotten)
            ∙ ap (λ b. is_among b j) (bucket-forget_rows f id mid)
            ∙ delete_chunks-removes f j (objects v) 0 (keys_of id v.db) u v mid emptied
                (omega arith) among,
      )

  -- A deletion leaves every object that is not of the thread, whether it fails or not.
  delete_thread_data-keeps :
      (v : Vault) (j : String)
      → is_among (keys_of id v.db) j ≡ false
      → is_among (delete_thread_data f id v).1.bucket j ≡ is_among v.bucket j
  unfolding delete_thread_data
  delete_thread_data-keeps v j h =
      keeps-bind (delete_chunks (objects v) f 0 (keys_of id v.db)) _
        (λ (w : Vault). is_among w.bucket j ≡ is_among v.bucket j)
        (λ w e. delete_chunks-keeps f j (objects v) 0 (keys_of id v.db) w h ∙ e)
        (λ _ w e.
          keeps-bind (forget_rows f id) _ (λ (w : Vault). is_among w.bucket j ≡ is_among v.bucket j)
            (λ w e. ap (λ b. is_among b j) (bucket-forget_rows f id w) ∙ e) (λ _ w e. e) w e)
        v refl

  -- An object that is not there is not there afterwards.
  delete_thread_data-absent :
      (v : Vault) (j : String)
      → is_among v.bucket j ≡ false
      → is_among (delete_thread_data f id v).1.bucket j ≡ false
  unfolding delete_thread_data
  delete_thread_data-absent v j h =
      keeps-bind (delete_chunks (objects v) f 0 (keys_of id v.db)) _
        (λ (w : Vault). is_among w.bucket j ≡ false)
        (λ w e. absent-delete_chunks f j (objects v) 0 (keys_of id v.db) w e)
        (λ _ w e.
          keeps-bind (forget_rows f id) _ (λ (w : Vault). is_among w.bucket j ≡ false)
            (λ w e. ap (λ b. is_among b j) (bucket-forget_rows f id w) ∙ e) (λ _ w e. e) w e)
        v h

-- A deletion that fails, in whatever call of R2 or statement on the database, and is later repeated
-- with success has the effect of one: the database is the one that forgets the thread, no object of
-- the thread is left in the bucket, and every other object is as it was.
pub delete_thread_data-retry :
    (f g : DeleteFaults) (id : String) (v w x : Vault) (e : Error) (n : ℕ) (j : String)
    → delete_thread_data f id v ≡ (err e, w)
    → delete_thread_data g id w ≡ (ok n, x)
    → (x.db ≡ forget_thread id v.db)
      × (is_among x.bucket j
          ≡ (if is_among (keys_of id v.db) j then false else is_among v.bucket j))
delete_thread_data-retry f g id v w x e n j first second =
    let (forgotten, emptied) = delete_thread_data-ok g id n w x second in
    elim (delete_thread_data-err f id v w e first) [
      | inl (error, same) ↦ (
        forgotten ∙ ap (forget_thread id) same,
        elim (Bool-cases (is_among (keys_of id v.db) j)) [
          | inl among ↦ rw among (emptied j (ap (λ db. is_among (keys_of id db) j) same ∙ among))
          | inr apart ↦ rw apart (others apart (ap (λ db. is_among (keys_of id db) j) same ∙ apart))
        ],
      )
      | inr (error, stopped, gone) ↦ (
        forgotten ∙ stopped.0,
        elim (Bool-cases (is_among (keys_of id v.db) j)) [
          | inl among ↦ rw among (
              ap (λ r. is_among r.1.bucket j) (sym second)
              ∙ delete_thread_data-absent g id w j (gone j among))
          | inr apart ↦ rw apart (others apart (Interrupted-keys id j v.db w.db stopped apart))
        ],
      )
    ]
  where
    others :
        is_among (keys_of id v.db) j ≡ false
        → is_among (keys_of id w.db) j ≡ false
        → is_among x.bucket j ≡ is_among v.bucket j
    others apart apart' =
        ap (λ r. is_among r.1.bucket j) (sym second)
        ∙ delete_thread_data-keeps g id w j apart'
        ∙ ap (λ r. is_among r.1.bucket j) (sym first)
        ∙ delete_thread_data-keeps f id v j apart

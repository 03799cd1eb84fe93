-- ===== src/Retention/Interrupted.antt =====
-- How the statements of deleteThreadData on the database can end.
use mail_gable.Base.{
  List, [], ◌∷◌, delete, ℕ, arith, subst, suc, String, ◌≡◌, refl, ◌∙◌, sym, ap, inl, inr,
  where_rows, length, Bool-cases,
}
use mail_gable.Store.Tables.{Message, Database}
use mail_gable.Store.Effects.{thrown, Result, Error, ok, err, ◌>>◌, Exec}
use mail_gable.Store.Inversion.{Fails, bind-Fails, bind-ok, bind-err, err-ne-ok, keeps-bind}
use mail_gable.Threads.{in_thread}
use mail_gable.Retention.Defs.{
  is_event_of, Vault, DeleteFaults, forget_thread, delete_messages, delete_thread_row,
  run_statement, delete_each, forget_rows,
}
use mail_gable.Retention.Resumed.{
  none_inside, forget_thread-settled, Interrupted, Looped, delete_each-Looped, delete_each-ok,
  bucket-delete_each,
}

module _ (f : DeleteFaults) (id : String) where
  Looped-Interrupted : (v w : Database) → Looped id f v w → Interrupted id v w
  Looped-Interrupted v w (same, threads, messages, attachments) =
      (same, threads, inl (messages, attachments))

  looped :
      (v : Vault)
      → Looped id f v.db (delete_each f 0 (where_rows (in_thread id) v.db.messages) v).1.db
  looped v =
      delete_each-Looped id f 0 (where_rows (in_thread id) v.db.messages) v (λ k among. among)

  -- the two DELETEs behind the loop
  abbrev deletes : Vault → Exec Vault (Unit {0})
  deletes v =
      run_statement f (length (where_rows (in_thread id) v.db.messages)) (delete_messages id)
      >> run_statement f (suc (length (where_rows (in_thread id) v.db.messages)))
          (delete_thread_row id)

  -- the second of them, behind the first
  emptied-Interrupted :
      (v mid : Vault)
      → (delete_messages id mid.db).messages ≡ (delete_messages id v.db).messages
      → mid.db ≡ (delete_each f 0 (where_rows (in_thread id) v.db.messages) v).1.db
      → delete_thread_row id (delete_messages id mid.db) ≡ forget_thread id v.db
      → Interrupted id v.db (delete_messages id mid.db)
  unfolding delete_messages
  emptied-Interrupted v mid rows same whole = (
    forget_thread-settled id (delete_messages id mid.db) (none_inside id mid.db) ∙ whole,
    ap (λ (db : Database). db.threads) same ∙ (looped v).1,
    inr rows,
  )

  whole_effect :
      (v mid : Vault) (u : Unit {0})
      → delete_each f 0 (where_rows (in_thread id) v.db.messages) v ≡ (ok u, mid)
      → delete_thread_row id (delete_messages id mid.db) ≡ forget_thread id v.db
  unfolding forget_thread
  whole_effect v mid u h =
      ap (λ db. delete_thread_row id (delete_messages id db))
        (delete_each-ok id f 0 (where_rows (in_thread id) v.db.messages) v mid u h)

  rows_left :
      (v mid : Vault) (u : Unit {0})
      → delete_each f 0 (where_rows (in_thread id) v.db.messages) v ≡ (ok u, mid)
      → (delete_messages id mid.db).messages ≡ (delete_messages id v.db).messages
  unfolding delete_messages
  rows_left v mid u h =
      ap (λ db. (delete_messages id db).messages)
        (delete_each-ok id f 0 (where_rows (in_thread id) v.db.messages) v mid u h)

  deletes-err :
      (v mid w : Vault) (u : Unit {0}) (e : Error)
      → delete_each f 0 (where_rows (in_thread id) v.db.messages) v ≡ (ok u, mid)
      → deletes v mid ≡ (err e, w)
      → Interrupted id v.db w.db
  unfolding run_statement
  deletes-err v mid w u e done h =
      let n = length (where_rows (in_thread id) v.db.messages) in
      let same : mid.db ≡ (delete_each f 0 (where_rows (in_thread id) v.db.messages) v).1.db =
        ap (λ r. r.1.db) (sym done) in
      elim (Bool-cases (f.db_fails n)) [
        | inl first ↦
            subst (Interrupted id v.db) (sym same ∙ ap (λ r. r.1.db) (rw first at h))
              (Looped-Interrupted v.db _ (looped v))
        | inr works ↦ elim (Bool-cases (f.db_fails (suc n))) [
          | inl second ↦
              subst (Interrupted id v.db) (ap (λ r. r.1.db) (rw second at (rw works at h))) (
                emptied-Interrupted v mid (rows_left v mid u done) same (whole_effect v mid u done))
          | inr both ↦ absurd (err-ne-ok e _ w _ (sym (rw both at (rw works at h))))
        ]
      ]

  deletes-ok :
      (v mid w : Vault) (u x : Unit {0})
      → delete_each f 0 (where_rows (in_thread id) v.db.messages) v ≡ (ok u, mid)
      → deletes v mid ≡ (ok x, w)
      → w.db ≡ forget_thread id v.db
  unfolding run_statement
  deletes-ok v mid w u x done h =
      let n = length (where_rows (in_thread id) v.db.messages) in
      elim (Bool-cases (f.db_fails n)) [
        | inl first ↦ absurd (err-ne-ok _ x _ w (rw first at h))
        | inr works ↦ elim (Bool-cases (f.db_fails (suc n))) [
          | inl second ↦ absurd (err-ne-ok _ x _ w (rw second at (rw works at h)))
          | inr both ↦
              ap (λ r. r.1.db) (sym (rw both at (rw works at h))) ∙ whole_effect v mid u done
        ]
      ]

  pub forget_rows-err :
      (v w : Vault) (e : Error) → forget_rows f id v ≡ (err e, w) → Interrupted id v.db w.db
  unfolding forget_rows
  forget_rows-err v w e h =
      elim (bind-err (delete_each f 0 (where_rows (in_thread id) v.db.messages)) (λ _. deletes v) v
        w e h) [
          | inl failed ↦
              subst (Interrupted id v.db) (ap (λ r. r.1.db) failed)
                (Looped-Interrupted v.db _ (looped v))
          | inr (u, mid, done, later) ↦ deletes-err v mid w u e done later
        ]

  pub forget_rows-ok :
      (v w : Vault) (u : Unit {0}) → forget_rows f id v ≡ (ok u, w) → w.db ≡ forget_thread id v.db
  unfolding forget_rows
  forget_rows-ok v w u h =
      let (x, mid, done, later) =
        bind-ok (delete_each f 0 (where_rows (in_thread id) v.db.messages)) (λ _. deletes v) v w u
          h in
      deletes-ok v mid w x u done later

  bucket-run_statement :
      (n : ℕ) (change : Database → Database) (v : Vault)
      → (run_statement f n change v).1.bucket ≡ v.bucket
  unfolding run_statement
  bucket-run_statement n change v = ground arith

  pub bucket-forget_rows : (v : Vault) → (forget_rows f id v).1.bucket ≡ v.bucket
  unfolding forget_rows
  bucket-forget_rows v =
      keeps-bind (delete_each f 0 (where_rows (in_thread id) v.db.messages)) (λ _. deletes v)
        (λ (w : Vault). w.bucket ≡ v.bucket)
        (λ w e. bucket-delete_each id f 0 (where_rows (in_thread id) v.db.messages) w ∙ e)
        (λ _. kept) v refl
    where
      n : ℕ
      n = length (where_rows (in_thread id) v.db.messages)

      kept : (w : Vault) → w.bucket ≡ v.bucket → (deletes v w).1.bucket ≡ v.bucket
      kept w e =
          keeps-bind (run_statement f n (delete_messages id))
            (λ _. run_statement f (suc n) (delete_thread_row id))
            (λ (w : Vault). w.bucket ≡ v.bucket)
            (λ w e. bucket-run_statement n (delete_messages id) w ∙ e)
            (λ _ w e. bucket-run_statement (suc n) (delete_thread_row id) w ∙ e) w e

  run_statement-Fails :
      (n : ℕ) (change : Database → Database) → Fails (thrown "D1_ERROR") (run_statement f n change)
  unfolding run_statement
  run_statement-Fails n change v w x h = elim (Bool-cases (f.db_fails n)) [
    | inl fails ↦ sym (failure (rw fails at h))
    | inr works ↦ absurd (err-ne-ok x tt w _ (sym (rw works at h)))
  ]
    where
      failure :
          {y : Error} {a b : Vault} → Path (Result (Unit {0}) × Vault) (err y, a) (err x, b) → y ≡ x
      failure q = cc

  delete_each-Fails : (n : ℕ) (ms : List Message) → Fails (thrown "D1_ERROR") (delete_each f n ms)
  unfolding delete_each
  delete_each-Fails n [] v w x h = absurd (err-ne-ok x tt w v (sym h))
  delete_each-Fails n (m ∷ ms) v w x h =
      bind-Fails (thrown "D1_ERROR")
        (run_statement f n
          (λ db. record db { events = delete (is_event_of m.message_id) db.events }))
        (λ _. delete_each f (suc n) ms) (run_statement-Fails n _)
        (λ _. delete_each-Fails (suc n) ms) v w x h

  pub forget_rows-Fails : Fails (thrown "D1_ERROR") (forget_rows f id)
  unfolding forget_rows
  forget_rows-Fails v =
      bind-Fails (thrown "D1_ERROR") (delete_each f 0 (where_rows (in_thread id) v.db.messages))
        (λ _. deletes v) (delete_each-Fails 0 (where_rows (in_thread id) v.db.messages))
        (λ _.
          bind-Fails (thrown "D1_ERROR") (run_statement f n (delete_messages id))
            (λ _. run_statement f (suc n) (delete_thread_row id))
            (run_statement-Fails n (delete_messages id))
            (λ _. run_statement-Fails (suc n) (delete_thread_row id)))
        v
    where
      n : ℕ
      n = length (where_rows (in_thread id) v.db.messages)

-- ===== src/Outbound/Sent.antt =====
-- What a send that succeeds leaves of the row of its key.
use mail_gable.Base.{
  ℕ, String, ◌≡◌, refl, ◌∙◌, sym, Option, none, some, List, ◌==◌, inl, inr, or_else, find, eq_iff,
  Bool-cases, Option-cases, find-holds, subst, eq_refl,
}
use mail_gable.Store.Status.{is_success, is_retryable}
use mail_gable.Store.Tables.{Message, Database}
use mail_gable.Store.Effects.{Result, ok, err}
use mail_gable.Store.Inversion.{bind-ok, ok-injective, err-ne-ok}
use mail_gable.Threads.{find_message, refresh_thread}
use mail_gable.Providers.{
  Outbox, ProviderId, SendResult, Env, Answers, send, set_provider_message_id, outbound_provider,
  submit,
}
use mail_gable.Providers.Outcomes.{send_outcome, Reports, key_of}
use mail_gable.Archive.{Upload, archive_outgoing}
use mail_gable.Outbound.Defs.{Call, Reply, set_message}
use mail_gable.Outbound.Handlers.{
  is_archived, after_archive, archive_first, deliver_with_provider, record_sent, provide, finish,
  deliver, marked_sent, mark_parent,
}
use mail_gable.Outbound.Keyed.{Keyed, Keyed-update, Keyed-update_rest, archive_outgoing-Keyed}

module _ (key id hash : String) where
  abbrev pub IsOpen : Outbox → Type 0
  IsOpen o = Keyed key id hash is_retryable o.db.messages

  abbrev pub IsDone : Outbox → Type 0
  IsDone o = Keyed key id hash is_success o.db.messages

  set_provider_message_id-IsOpen :
      (row_id pid : String) (now : ℕ) (db : Database)
      → Keyed key id hash is_retryable db.messages
      → Keyed key id hash is_retryable (set_provider_message_id row_id pid now db).messages
  unfolding set_provider_message_id
  set_provider_message_id-IsOpen row_id pid now db =
      Keyed-update_rest key id hash is_retryable (λ m. m.message_id == row_id) _ db.messages
        (λ m. (refl, refl, refl)) (λ m. refl)

  send-IsOpen :
      (row : Message) (now : ℕ) (env : Env) (answers : Answers) (p : ProviderId) (o o' : Outbox)
      (r : SendResult)
      → send row now env answers p o ≡ (ok r, o')
      → IsOpen o
      → IsOpen o'
  send-IsOpen row now env answers p o o' r h p_open = elim (send_outcome row now env answers p o) [
    | inl (e, failed) ↦
        let x : Path (Result SendResult × Outbox) (err e, o) (ok r, o') = sym failed ∙ h in cc
    | inr told ↦
        let t : Reports row now p (submit p row (key_of row p) o) (ok r) o' =
          subst (λ x. Reports row now p (submit p row (key_of row p) o) x.0 x.1) h told in
        rw t.1 (set_provider_message_id-IsOpen row.message_id r.provider_message_id now o.db p_open)
  ]

  message_id-read_back :
      (row : Message) (db : Database)
      → row.message_id ≡ id
      → (or_else (find_message row.message_id db) row).message_id ≡ id
  unfolding find_message
  message_id-read_back row db named =
      elim (Option-cases (find (λ m. m.message_id == row.message_id) db.messages)) [
        | inl missing ↦ rw missing named
        | inr (m, found) ↦
            rw found
              ((eq_iff m.message_id row.message_id).0 (find-holds _ db.messages m found) ∙ named)
      ]

  archive_first-IsOpen :
      (c : Call) (uploads : List Upload) (row a : Message) (o o' : Outbox)
      → archive_first c uploads row o ≡ (ok a, o')
      → row.message_id ≡ id
      → IsOpen o
      → (a.message_id ≡ id) × IsOpen o'
  unfolding archive_first
  archive_first-IsOpen c uploads row a o o' h named is_open =
      elim (Bool-cases (is_archived row.archive_status)) [
        | inl stored ↦ read row a o o' (rw stored at h) named is_open
        | inr missing ↦
            step (archive_outgoing c.faults row.message_id uploads c.raw_key c.now o)
              (rw missing at h)
              (archive_outgoing-Keyed c.faults key id hash is_retryable row.message_id c.raw_key
                uploads c.now o is_open)
      ]
    where
      read :
          (row a : Message) (o o' : Outbox)
          → Path (Result Message × Outbox) (ok row, o) (ok a, o')
          → row.message_id ≡ id
          → IsOpen o
          → (a.message_id ≡ id) × IsOpen o'
      read row a o o' e named p =
          let (same, moved) = ok-injective row a o o' e in
          (subst (λ (m : Message). m.message_id ≡ id) same named, subst IsOpen moved p)

      step :
          (r : Result (Unit {0}) × Outbox)
          → after_archive c row r ≡ (ok a, o')
          → IsOpen r.1
          → (a.message_id ≡ id) × IsOpen o'
      step (ok _, mid) e p = read _ a mid o' e (message_id-read_back row mid.db named) p
      step (err x, mid) e p = absurd (err-ne-ok x a _ o' e)

  record_sent-IsDone :
      (c : Call) (row : Message) (r : SendResult) (db : Database)
      → row.message_id ≡ id
      → Keyed key id hash is_retryable db.messages
      → Keyed key id hash is_success (record_sent c row r db).messages
  unfolding record_sent set_message
  record_sent-IsDone c row r db named is_open = go row.parent_message_id
    where
      marked : Keyed key id hash is_success (marked_sent c row r db).messages
      marked =
          Keyed-update key id hash is_retryable is_success (λ m. m.message_id == row.message_id) _
            db.messages (λ m. (refl, refl, refl))
            (λ m is_row h. rw (is_row, named, eq_refl id, h) refl) is_open

      go :
          (parent : Option String)
          → Keyed key id hash is_success
              (mark_parent parent c.now (marked_sent c row r db)).messages
      go none = marked
      go (some parent) =
          Keyed-update_rest key id hash is_success (λ m. m.message_id == parent) _ _
            (λ m. (refl, refl, refl)) (λ m. refl) marked

  finish-IsDone :
      (c : Call) (row : Message) (r : SendResult) (o : Outbox)
      → row.message_id ≡ id
      → IsOpen o
      → IsDone (finish c row r o)
  unfolding finish refresh_thread
  finish-IsDone c row r o named is_open = record_sent-IsDone c row r o.db named is_open

  deliver_with_provider-IsOpen :
      (c : Call) (row : Message) (r : SendResult) (o o' : Outbox)
      → deliver_with_provider c row o ≡ (ok r, o')
      → IsOpen o
      → IsOpen o'
  unfolding deliver_with_provider
  deliver_with_provider-IsOpen c row r o o' h is_open = go (outbound_provider c.env) h
    where
      go : (p : Option ProviderId) → provide c row p o ≡ (ok r, o') → IsOpen o'
      go none e = absurd (err-ne-ok _ r o o' e)
      go (some p) e = send-IsOpen row c.now c.env c.answers p o o' r e is_open

  -- A send that succeeds leaves the row of its key sent, and answers with the row's id.
  pub deliver-IsDone :
      (c : Call) (uploads : List Upload) (row : Message) (reply : Reply) (o o' : Outbox)
      → deliver c uploads row o ≡ (ok reply, o')
      → row.message_id ≡ id
      → IsOpen o
      → (reply.message_id ≡ id) × IsDone o'
  unfolding deliver
  deliver-IsDone c uploads row reply o o' h named is_open =
      let (a, mid, archived_at, rest) = bind-ok (archive_first c uploads row) _ o o' reply h in
      let (r, late, sent_at, last) = bind-ok (deliver_with_provider c a) _ mid o' reply rest in
      let (a_named, a_open) =
        archive_first-IsOpen c uploads row a o mid archived_at named is_open in
      let (same, moved) = ok-injective _ reply (finish c a r late) o' last in
      (
        subst (λ (x : Reply). x.message_id ≡ id) same a_named,
        subst IsDone moved (
            finish-IsDone c a r late a_named
              (deliver_with_provider-IsOpen c a r mid late sent_at a_open)),
      )

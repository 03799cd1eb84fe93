-- ===== src/Outbound/Replay.antt =====
-- A send that is repeated with the same idempotency key.
use mail_gable.Base.{
  String, Bool, ◌≡◌, refl, ◌∙◌, sym, ap, true, false, Option, none, some, [], ◌∷◌, ◌++◌, ◌==◌, inl,
  inr, find, any, eq_iff, Bool-cases, Option-cases, find-holds, if◌then◌else◌, subst, eq_refl,
  any-or, any-false-find, find-append, leb,
}
use mail_gable.Store.Status.{is_success, is_retryable}
use mail_gable.Store.Tables.{Message, Database}
use mail_gable.Store.Effects.{Result, ok, modify, ◌>>◌}
use mail_gable.Store.Inversion.{bind-ok, ok-injective, err-ne-ok}
use mail_gable.Threads.{find_message, ensure_thread}
use mail_gable.Providers.{Outbox, ProviderId, outbound_provider}
use mail_gable.Outbound.Defs.{
  Call, SendPlan, Reply, earlier_reply, has_key, insert_message, new_message, set_message, on_db,
  create_message, resume_existing, check_window, final_subject, resume, is_taken, created_row,
  sends_in_hour,
}
use mail_gable.Outbound.Handlers.{known_key, send_message}
use mail_gable.Outbound.Keyed.{Keyed-update}
use mail_gable.Outbound.Pinning.{check_window-ok}
use mail_gable.Outbound.Sent.{IsOpen, IsDone, deliver-IsDone}

insert_message-IsOpen :
    (m : Message) (key : String) (u : Unit {0}) (o o' : Outbox)
    → insert_message m key o ≡ (ok u, o')
    → has_key key m ≡ true
    → is_retryable m.status ≡ true
    → IsOpen key m.message_id m.request_hash o'
unfolding insert_message find
insert_message-IsOpen m key u o o' h keyed retryable =
    elim (Bool-cases (any (is_taken key m) o.db.messages)) [
      | inl taken ↦ absurd (err-ne-ok _ u o o' (rw taken at h))
      | inr free ↦
          let (_, moved) =
            ok-injective tt u (on_db (λ db. record db { messages = db.messages ++ m ∷ [] }) o) o'
              (rw free at h) in
          subst (IsOpen key m.message_id m.request_hash) moved (
            m,
            find-append (has_key key) o.db.messages (m ∷ []) (
                  any-false-find _ _
                    (any-or (has_key key) (λ r. r.message_id == m.message_id) o.db.messages free))
                ∙ first keyed,
            refl,
            refl,
            retryable,
          )
    ]
  where
    first : has_key key m ≡ true → find (has_key key) (m ∷ []) ≡ some m
    first h = rw h refl

module _ (c : Call) (plan : SendPlan) (key : String) (others : Database → Database) where
  created-IsOpen :
      (row : Message) (o o' : Outbox)
      → IsOpen key c.message_id plan.request_hash o
      → Path
          (Result Message × Outbox)
          (created_row (find_message c.message_id o.db), o)
          (ok row, o')
      → (row.message_id ≡ c.message_id) × IsOpen key c.message_id plan.request_hash o'
  unfolding find_message
  created-IsOpen row o o' is_open h =
      go (find (λ m. m.message_id == c.message_id) o.db.messages) refl h
    where
      go :
          (found : Option Message)
          → find (λ m. m.message_id == c.message_id) o.db.messages ≡ found
          → Path (Result Message × Outbox) (created_row found, o) (ok row, o')
          → (row.message_id ≡ c.message_id) × IsOpen key c.message_id plan.request_hash o'
      go none e q = absurd (err-ne-ok _ row o o' q)
      go (some m) e q =
          let (same, moved) = ok-injective m row o o' q in
          (
            subst (λ (x : Message). x.message_id ≡ c.message_id) same
                ((eq_iff m.message_id c.message_id).0 (find-holds _ o.db.messages m e)),
            subst (IsOpen key c.message_id plan.request_hash) moved is_open,
          )

  create_message-IsOpen :
      (p : ProviderId) (row : Message) (o o' : Outbox)
      → create_message c plan key p others o ≡ (ok row, o')
      → (row.message_id ≡ c.message_id) × IsOpen key c.message_id plan.request_hash o'
  unfolding create_message
  create_message-IsOpen p row o o' h =
      elim (Bool-cases (leb 20 (sends_in_hour c.admin_id c.now o.db))) [
        | inl busy ↦ absurd (err-ne-ok _ row o o' (rw busy at h))
        | inr calm ↦
            let (u, mid, inserted, read) =
              bind-ok
                (modify (
                    on_db (λ db. others (
                      ensure_thread plan.thread_id (some plan.mailbox_id) (final_subject plan)
                        (plan.to ++ plan.cc ++ plan.mailbox_address ∷ []) c.now db)))
                  >> insert_message (new_message c plan key p) key)
                _ o o' row (rw calm at h) in
            created-IsOpen row mid o'
              (insert_message-IsOpen (new_message c plan key p) key u _ mid inserted (eq_refl key)
                refl)
              read
      ]

  resume_existing-IsOpen :
      (row m : Message) (o o' : Outbox)
      → resume_existing c row o ≡ (ok m, o')
      → (m ≡ row) × (o' ≡ on_db (set_message row.message_id (resume c.now)) o)
  unfolding resume_existing
  resume_existing-IsOpen row m o o' h =
      let (p, mid, checked, resumed) = bind-ok (check_window c row) _ o o' m h in
      let (_, _, kept) = check_window-ok c row p o mid checked in
      let (same, moved) = ok-injective row m _ o' resumed in (sym same, sym moved ∙ rw kept refl)

  resume-IsOpen :
      (row : Message) (o : Outbox)
      → find (has_key key) o.db.messages ≡ some row
      → row.request_hash ≡ plan.request_hash
      → is_retryable row.status ≡ true
      → IsOpen key row.message_id plan.request_hash
          (on_db (set_message row.message_id (resume c.now)) o)
  unfolding set_message
  resume-IsOpen row o found same retryable =
      Keyed-update key row.message_id plan.request_hash is_retryable is_retryable
        (λ m. m.message_id == row.message_id) (resume c.now) o.db.messages (λ m. (refl, refl, refl))
        (λ m _ open_before. status (m.message_id == row.message_id) m open_before)
        (row, found, refl, same, retryable)
    where
      status :
          (b : Bool) (m : Message)
          → is_retryable m.status ≡ true
          → is_retryable (if b then resume c.now m else m).status ≡ true
      status true m h = refl
      status false m h = h

  known_key-IsDone :
      (row : Message) (reply : Reply) (o o' : Outbox)
      → find (has_key key) o.db.messages ≡ some row
      → known_key c plan row o ≡ (ok reply, o')
      → IsDone key reply.message_id plan.request_hash o'
  known_key-IsDone row reply o o' found h =
      elim (Bool-cases (row.request_hash == plan.request_hash)) [
        | inr other ↦ absurd (err-ne-ok _ reply o o' (rw other at h))
        | inl same ↦ elim (Bool-cases (is_success row.status)) [
          | inl done ↦
              let (replied, moved) =
                ok-injective (earlier_reply row) reply o o' (rw (same, done) at h) in
              subst (IsDone key reply.message_id plan.request_hash) moved (
                row,
                found,
                ap (λ (r : Reply). r.message_id) replied,
                (eq_iff row.request_hash plan.request_hash).0 same,
                done,
              )
          | inr unsent ↦ elim (Bool-cases (is_retryable row.status)) [
            | inr final ↦ absurd (err-ne-ok _ reply o o' (rw (same, unsent, final) at h))
            | inl retryable ↦
                let (m, mid, resumed, sent_at) =
                  bind-ok (resume_existing c row) _ o o' reply
                    (rw (same, unsent, retryable) at h) in
                let (is_row, moved) = resume_existing-IsOpen row m o mid resumed in
                let (answered, done) =
                  deliver-IsDone key row.message_id plan.request_hash c plan.uploads m reply mid o'
                    sent_at (ap (λ (x : Message). x.message_id) is_row)
                    (rw moved (
                      resume-IsOpen row o found ((eq_iff row.request_hash plan.request_hash).0 same)
                        retryable)) in
                subst (λ id. IsDone key id plan.request_hash o') (sym answered) done
          ]
        ]
      ]

  -- A send that succeeds, or answers for an earlier one, leaves the row of its key known to be
  -- sent, with the id that it answers and the hash of its plan.
  send_message-IsDone :
      (reply : Reply) (o o' : Outbox)
      → send_message c plan key others o ≡ (ok reply, o')
      → IsDone key reply.message_id plan.request_hash o'
  unfolding send_message
  send_message-IsDone reply o o' h = elim (Option-cases (outbound_provider c.env)) [
    | inl unset ↦ absurd (err-ne-ok _ reply o o' (rw (unset, send_message) at h))
    | inr (p, set) ↦ elim (Option-cases (find (has_key key) o.db.messages)) [
      | inr (row, found) ↦
          known_key-IsDone row reply o o' found (rw (set, send_message, found) at h)
      | inl fresh ↦
          let (row, mid, created, sent_at) =
            bind-ok (create_message c plan key p others) _ o o' reply
              (rw (set, send_message, fresh) at h) in
          let (named, is_open) = create_message-IsOpen p row o mid created in
          let (answered, done) =
            deliver-IsDone key c.message_id plan.request_hash c plan.uploads row reply mid o'
              sent_at named is_open in
          subst (λ id. IsDone key id plan.request_hash o') (sym answered) done
    ]
  ]

-- Once a send has succeeded, another request with its key and the hash of its plan answers with
-- the same message id, as a repetition, whatever else has changed about the request, the clock or
-- the providers (while one is active), and changes nothing: no row, no object, no submission.
pub send_message-replay :
    (c c' : Call) (plan plan' : SendPlan) (key : String) (others others' : Database → Database)
    (reply : Reply) (o o' : Outbox) (p : ProviderId)
    → send_message c plan key others o ≡ (ok reply, o')
    → outbound_provider c'.env ≡ some p
    → plan'.request_hash ≡ plan.request_hash
    → (again : Reply) × (send_message c' plan' key others' o' ≡ (ok again, o'))
      × (again.message_id ≡ reply.message_id)
      × (again.idempotent ≡ true)
unfolding send_message
send_message-replay c c' plan plan' key others others' reply o o' p h set same =
    let (m, found, named, hashed, done) = send_message-IsDone c plan key others reply o o' h in
    (
      earlier_reply m,
      rw (set, send_message, found)
          (rw ((eq_iff m.request_hash plan'.request_hash).1 (hashed ∙ sym same), done) refl),
      named,
      refl,
    )

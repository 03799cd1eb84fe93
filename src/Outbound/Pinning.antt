-- ===== src/Outbound/Pinning.antt =====
-- Which provider a retry goes to.
use mail_gable.Base.{
  ℕ, String, ◌≡◌, refl, ◌∙◌, sym, ap, true, false, none, some, [], ◌∷◌, ◌++◌, ◌==◌, ◌⊎◌, inl, inr,
  not, ◌&&◌, Bool, or_else, arith, eq_iff, Bool-cases, Option-cases,
}
use mail_gable.Store.Status.{is_success, is_retryable}
use mail_gable.Store.Tables.{Message}
use mail_gable.Store.Effects.{
  Result, ok, err, thrown, app_error, continue, Exec, modify, ◌>>=◌, ◌>>◌,
}
use mail_gable.Threads.{is_outgoing, find_message}
use mail_gable.Providers.{
  ProviderId, id_text, Env, is_configured, provider_for_message, Answers, Outbox, Submission,
  SendResult, send, submit,
}
use mail_gable.Providers.Outcomes.{Reports, key_of, send_outcome}
use mail_gable.Outbound.Defs.{Call, Reply, is_expired, check_window}
use mail_gable.Outbound.Handlers.{
  is_archived, mark_sending, finish, retry_message, current_status, sent_reply,
}

-- A provider that providerForMessage returns is the one whose id the row names, and is configured.
provider_for_message-eq :
    (env : Env) (row : Message) (p : ProviderId)
    → provider_for_message env row ≡ ok (some p)
    → (or_else row.outbound_provider "" ≡ id_text p) × (is_configured env p ≡ true)
unfolding provider_for_message
provider_for_message-eq env row p h =
    let pinned = or_else row.outbound_provider "" in
    ground (arith, eq_iff pinned "resend", eq_iff pinned "brevo", eq_iff pinned "cloudflare")

pub check_window-ok :
    (c : Call) (row : Message) (p : ProviderId) (o o' : Outbox)
    → check_window c row o ≡ (ok p, o')
    → (provider_for_message c.env row ≡ ok (some p)) × (is_expired p c.now row ≡ false) × (o' ≡ o)
unfolding check_window
check_window-ok c row p o o' h = ground arith

pub submissions-check_window :
    (c : Call) (row : Message) (o : Outbox) → (check_window c row o).1.submissions ≡ o.submissions
unfolding check_window
submissions-check_window c row o = ground arith

abbrev pub submission : ProviderId → Message → Submission
submission p row = record { provider = p; message_id = row.message_id; key = key_of row p }

Reports-submissions :
    (row : Message) (now : ℕ) (p : ProviderId) (o o' : Outbox) (r : Result SendResult)
    → Reports row now p o r o'
    → o'.submissions ≡ o.submissions
Reports-submissions row now p o o' (ok r) h = h.2
Reports-submissions row now p o o' (err (app_error s c)) h = h.2
Reports-submissions row now p o o' (err (thrown e)) h = absurd h

-- A send submits nothing, or the message once to its provider.
pub send-submissions :
    (row : Message) (now : ℕ) (env : Env) (answers : Answers) (p : ProviderId) (o : Outbox)
    → ((send row now env answers p o).1.submissions ≡ o.submissions)
      ⊎ ((send row now env answers p o).1.submissions ≡ o.submissions ++ submission p row ∷ [])
send-submissions row now env answers p o = elim (send_outcome row now env answers p o) [
  | inl (e, same) ↦ inl (rw same refl)
  | inr told ↦ inr (Reports-submissions row now p (submit p row (key_of row p) o) _ _ told)
]

-- What a retry may submit, seen from the state before it.
abbrev pub IsPinnedTo : Call → Message → ProviderId → Type 0
IsPinnedTo c row p =
    (or_else row.outbound_provider "" ≡ id_text p)
    × (is_configured c.env p ≡ true)
    × (is_expired p c.now row ≡ false)
    × (is_retryable row.status ≡ true)
    × (is_archived row.archive_status ≡ true)

module _ (c : Call) (stored : Result (Unit {0})) (id : String) where
  -- retryMessage behind its checks
  abbrev resend_row : Message → ProviderId → Exec Outbox Reply
  resend_row row p =
      (λ o. (stored, o))
      >> modify (mark_sending row.message_id c.now)
      >> (send row c.now c.env c.answers p >>= λ r o. (
        ok (sent_reply row r (current_status (find_message row.message_id (finish c row r o).db))),
        finish c row r o,
      ))

  submissions-resend_row :
      (row : Message) (p : ProviderId) (o : Outbox)
      → ((resend_row row p o).1.submissions ≡ o.submissions)
        ⊎ ((resend_row row p o).1.submissions ≡ o.submissions ++ submission p row ∷ [])
  unfolding mark_sending finish
  submissions-resend_row row p o =
      ground
        (arith, send-submissions row c.now c.env c.answers p (mark_sending row.message_id c.now o))

  abbrev proceeds : Message → Bool
  proceeds row =
      is_outgoing row.direction
      && (not (is_success row.status)
          && (is_retryable row.status
              && (is_archived row.archive_status && not (or_else row.raw_r2_key "" == ""))))

  retry-tail :
      (row : Message) (o : Outbox)
      → find_message id o.db ≡ some row
      → proceeds row ≡ true
      → retry_message c stored id o ≡ (check_window c row >>= resend_row row) o
  unfolding retry_message
  retry-tail row o found h = rw (found, retry_message) (ground arith)

  retry-stops :
      (row : Message) (o : Outbox)
      → find_message id o.db ≡ some row
      → proceeds row ≡ false
      → (retry_message c stored id o).1 ≡ o
  unfolding retry_message
  retry-stops row o found h = rw (found, retry_message) (ground arith)

  retry-missing : (o : Outbox) → find_message id o.db ≡ none → (retry_message c stored id o).1 ≡ o
  unfolding retry_message
  retry-missing o found = rw (found, retry_message) refl

  -- Either a retry submits nothing, or it submits the message exactly once, to the provider that
  -- the row names; that provider is then configured, within its own retry window, and the message
  -- is archived and was not known to be sent or rejected.
  pub retry_message-submissions :
      (o : Outbox)
      → ((retry_message c stored id o).1.submissions ≡ o.submissions)
        ⊎ ((row : Message) × (p : ProviderId) × (find_message id o.db ≡ some row)
            × IsPinnedTo c row p
            × ((retry_message c stored id o).1.submissions
                ≡ o.submissions ++ submission p row ∷ []))
  retry_message-submissions o = elim (Option-cases (find_message id o.db)) [
    | inl missing ↦ inl (ap (λ (o : Outbox). o.submissions) (retry-missing o missing))
    | inr (row, found) ↦ elim (Bool-cases (proceeds row)) [
      | inr stops ↦ inl (ap (λ (o : Outbox). o.submissions) (retry-stops row o found stops))
      | inl goes ↦
          rw (retry-tail row o found goes) (tail row found goes (check_window c row o) refl)
    ]
  ]
    where
      tail :
          (row : Message)
          → find_message id o.db ≡ some row
          → proceeds row ≡ true
          → (r : Result ProviderId × Outbox) → check_window c row o ≡ r
          → ((continue r.0 (resend_row row) r.1).1.submissions ≡ o.submissions)
            ⊎ ((m : Message) × (p : ProviderId) × (find_message id o.db ≡ some m)
                × IsPinnedTo c m p
                × ((continue r.0 (resend_row row) r.1).1.submissions
                    ≡ o.submissions ++ submission p m ∷ []))
      tail row found goes (err e, o') q =
          inl (sym (ap (λ r. r.1.submissions) q) ∙ submissions-check_window c row o)
      tail row found goes (ok p, o') q =
          let (chosen, fresh, same) = check_window-ok c row p o o' q in
          let (named, set) = provider_for_message-eq c.env row p chosen in
          elim (submissions-resend_row row p o') [
            | inl none_sent ↦ inl (none_sent ∙ ap (λ (o : Outbox). o.submissions) same)
            | inr one ↦ inr (
              row,
              p,
              found,
              (named, set, fresh, ground arith, ground arith),
              one ∙ ap (λ (o : Outbox). o.submissions ++ submission p row ∷ []) same,
            )
          ]

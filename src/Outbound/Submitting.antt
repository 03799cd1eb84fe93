-- ===== src/Outbound/Submitting.antt =====
-- Which provider a send goes to, and how often.
use mail_gable.Base.{
  String, ◌≡◌, refl, ◌∙◌, sym, ap, true, false, none, some, List, [], ◌∷◌, ◌++◌, ◌==◌, ◌⊎◌, inl,
  inr, find, Bool-cases, Option-cases, subst,
}
use mail_gable.Store.Status.{is_success, is_retryable, sent}
use mail_gable.Store.Tables.{Message, Database}
use mail_gable.Store.Effects.{Error, Result, ok, err, continue, Exec, ◌>>=◌}
use mail_gable.Store.Inversion.{keeps-bind}
use mail_gable.Providers.{
  ProviderId, provider_for_message, outbound_provider, Outbox, SendResult, Submission, send,
}
use mail_gable.Archive.{Upload, archive_outgoing}
use mail_gable.Outbound.Defs.{
  Call, SendPlan, Reply, has_key, is_expired, check_window, resume_existing, create_message,
}
use mail_gable.Outbound.Handlers.{
  is_archived, after_archive, archive_first, deliver_with_provider, finish, deliver, known_key,
  send_message, sent_reply,
}
use mail_gable.Outbound.Pinning.{
  submission, send-submissions, check_window-ok, submissions-check_window,
}
use mail_gable.Outbound.Unsubmitted.{submissions-archive_outgoing, submissions-create_message}

-- Nothing more has been submitted, or one message has, once and to this provider.
abbrev pub AtMostOne : ProviderId → List Submission → List Submission → Type 0
AtMostOne q before after =
    (after ≡ before) ⊎ ((m : Message) × (after ≡ before ++ submission q m ∷ []))

module _ (c : Call) (uploads : List Upload) (q : ProviderId)
    (active : outbound_provider c.env ≡ some q) where
  submissions-archive_first :
      (row : Message) (o : Outbox) → (archive_first c uploads row o).1.submissions ≡ o.submissions
  unfolding archive_first
  submissions-archive_first row o = elim (Bool-cases (is_archived row.archive_status)) [
    | inl done ↦ rw done refl
    | inr missing ↦ rw missing (
        after (archive_outgoing c.faults row.message_id uploads c.raw_key c.now o)
        ∙ submissions-archive_outgoing c.faults row.message_id c.raw_key uploads c.now o)
  ]
    where
      after :
          (r : Result (Unit {0}) × Outbox) → (after_archive c row r).1.submissions ≡ r.1.submissions
      after (ok _, s) = refl
      after (err e, s) = refl

  submissions-finished :
      (row : Message) (r : Result SendResult × Outbox)
      → (continue r.0 (λ r o. (ok (sent_reply row r sent), finish c row r o)) r.1).1.submissions
        ≡ r.1.submissions
  unfolding finish
  submissions-finished row (ok x, o) = refl
  submissions-finished row (err e, o) = refl

  abbrev delivered : Message → Exec Outbox Reply
  delivered row =
      deliver_with_provider c row >>= λ r o. (ok (sent_reply row r sent), finish c row r o)

  delivered-AtMostOne :
      (row : Message) (o : Outbox) → AtMostOne q o.submissions (delivered row o).1.submissions
  unfolding deliver_with_provider
  delivered-AtMostOne row o = rw active (elim (send-submissions row c.now c.env c.answers q o) [
    | inl nothing ↦ inl (submissions-finished row (send row c.now c.env c.answers q o) ∙ nothing)
    | inr one ↦ inr (row, submissions-finished row (send row c.now c.env c.answers q o) ∙ one)
  ])

  deliver-AtMostOne :
      (row : Message) (o : Outbox)
      → AtMostOne q o.submissions (deliver c uploads row o).1.submissions
  unfolding deliver
  deliver-AtMostOne row o = go (archive_first c uploads row o) (submissions-archive_first row o)
    where
      go :
          (r : Result Message × Outbox)
          → r.1.submissions ≡ o.submissions
          → AtMostOne q o.submissions (continue r.0 delivered r.1).1.submissions
      go (ok a, s) e =
          subst (λ was. AtMostOne q was (delivered a s).1.submissions) e (delivered-AtMostOne a s)
      go (err x, s) e = inl e

  -- the same behind a step that submits nothing
  then_deliver :
      (m : Exec Outbox Message) (o : Outbox)
      → (m o).1.submissions ≡ o.submissions
      → AtMostOne q o.submissions ((m >>= deliver c uploads) o).1.submissions
  then_deliver m o same = go (m o) same
    where
      go :
          (r : Result Message × Outbox)
          → r.1.submissions ≡ o.submissions
          → AtMostOne q o.submissions (continue r.0 (deliver c uploads) r.1).1.submissions
      go (ok a, s) e =
          subst (λ was. AtMostOne q was (deliver c uploads a s).1.submissions) e
            (deliver-AtMostOne a s)
      go (err x, s) e = inl e

-- What has to hold of the row of a key for a send with this key to submit it again, where p is the
-- provider that the row is pinned to.
abbrev pub MayRepeat : Call → SendPlan → Message → ProviderId → Type 0
MayRepeat c plan row p =
    ((row.request_hash == plan.request_hash) ≡ true)
    × (is_retryable row.status ≡ true)
    × (provider_for_message c.env row ≡ ok (some p))
    × (is_expired p c.now row ≡ false)

module _ (c : Call) (plan : SendPlan) (key : String) (others : Database → Database)
    (o : Outbox) where
  abbrev pub MaySend : Type 0
  MaySend =
      (find (has_key key) o.db.messages ≡ none)
      ⊎ ((row : Message) × (p : ProviderId) × (find (has_key key) o.db.messages ≡ some row)
          × MayRepeat c plan row p)

  abbrev pub Sends : List Submission → Type 0
  Sends after =
      (after ≡ o.submissions)
      ⊎ ((q : ProviderId) × (m : Message) × (outbound_provider c.env ≡ some q)
          × (after ≡ o.submissions ++ submission q m ∷ [])
          × MaySend)

  sends :
      (q : ProviderId) (after : List Submission)
      → outbound_provider c.env ≡ some q
      → MaySend
      → AtMostOne q o.submissions after
      → Sends after
  sends q after active may (inl nothing) = inl nothing
  sends q after active may (inr (m, one)) = inr (q, m, active, one, may)

  submissions-resume_existing :
      (row : Message) → (resume_existing c row o).1.submissions ≡ o.submissions
  unfolding resume_existing
  submissions-resume_existing row =
      keeps-bind (check_window c row) _ (λ (s : Outbox). s.submissions ≡ o.submissions)
        (λ s e. submissions-check_window c row s ∙ e) (λ _ s e. e) o refl

  stops :
      (row : Message) (x : Error) (s : Outbox)
      → check_window c row o ≡ (err x, s)
      → ((resume_existing c row >>= deliver c plan.uploads) o).1.submissions ≡ s.submissions
  unfolding resume_existing
  stops row x s e = rw e refl

  -- the branch of a known key behind its checks
  resumed :
      (q : ProviderId) (row : Message)
      → outbound_provider c.env ≡ some q
      → find (has_key key) o.db.messages ≡ some row
      → (row.request_hash == plan.request_hash) ≡ true
      → is_retryable row.status ≡ true
      → Sends ((resume_existing c row >>= deliver c plan.uploads) o).1.submissions
  resumed q row active found same retryable = go (check_window c row o) refl
    where
      go :
          (r : Result ProviderId × Outbox)
          → check_window c row o ≡ r
          → Sends ((resume_existing c row >>= deliver c plan.uploads) o).1.submissions
      go (err x, s) e =
          inl
            (stops row x s e ∙ ap (λ r. r.1.submissions) (sym e) ∙ submissions-check_window c row o)
      go (ok p, s) e =
          let (pinned, fresh, at) = check_window-ok c row p o s e in
          sends q _ active (inr (row, p, found, (same, retryable, pinned, fresh))) (
            then_deliver c plan.uploads q active (resume_existing c row) o
              (submissions-resume_existing row))

  known :
      (q : ProviderId) (row : Message)
      → outbound_provider c.env ≡ some q
      → find (has_key key) o.db.messages ≡ some row
      → Sends (known_key c plan row o).1.submissions
  known q row active found = elim (Bool-cases (row.request_hash == plan.request_hash)) [
    | inr other ↦ inl (rw other refl)
    | inl same ↦ elim (Bool-cases (is_success row.status)) [
      | inl done ↦ inl (rw same (rw done refl))
      | inr unsent ↦ elim (Bool-cases (is_retryable row.status)) [
        | inr final ↦ inl (rw same (rw unsent (rw final refl)))
        | inl open' ↦ rw same (rw unsent (rw open' (resumed q row active found same open')))
      ]
    ]
  ]

  inactive_send :
      outbound_provider c.env ≡ none
      → (send_message c plan key others o).1.submissions ≡ o.submissions
  unfolding send_message
  inactive_send inactive = rw (inactive, send_message) refl

  new_send :
      (q : ProviderId)
      → outbound_provider c.env ≡ some q
      → find (has_key key) o.db.messages ≡ none
      → send_message c plan key others o
        ≡ (create_message c plan key q others >>= deliver c plan.uploads) o
  unfolding send_message
  new_send q active new = rw (active, send_message) (rw new refl)

  known_send :
      (q : ProviderId) (row : Message)
      → outbound_provider c.env ≡ some q
      → find (has_key key) o.db.messages ≡ some row
      → send_message c plan key others o ≡ known_key c plan row o
  unfolding send_message
  known_send q row active found = rw (active, send_message) (rw found refl)

  -- A send submits at most one message, once, and to the provider that is active now. It submits
  -- one only where its key is new, or where the row of the key has the hash of the plan, is in
  -- flight or failed for a retry, and is pinned to a configured provider within its own retry
  -- window, which need not be the active one.
  pub send_message-submissions : Sends (send_message c plan key others o).1.submissions
  send_message-submissions = elim (Option-cases (outbound_provider c.env)) [
    | inl inactive ↦ inl (inactive_send inactive)
    | inr (q, active) ↦ elim (Option-cases (find (has_key key) o.db.messages)) [
      | inl new ↦ rw (new_send q active new) (
          sends q _ active (inl new) (
            then_deliver c plan.uploads q active (create_message c plan key q others) o
              (submissions-create_message c plan key q others o)))
      | inr (row, found) ↦ rw (known_send q row active found) (known q row active found)
    ]
  ]

-- ===== src/Routing/Synced.antt =====
-- The mailboxes behind a synchronization.
use mail_gable.Base.{
  subst, ℕ, true, Option, none, some, List, [], ◌∷◌, ◌≡◌, refl, ◌∙◌, sym, ap, arith, all, map, inl,
  inr, ◌⊎◌, Bool-cases, eq_iff, length,
}
use mail_gable.Store.Effects.{routing_sync_verify_failed, Error, app_error, Result, ok, err, pure}
use mail_gable.Store.Inversion.{lift-err, bind-ok, bind-err, lift-ok}
use mail_gable.Helpers.{normalize_email}
use mail_gable.Routing.Plan.{
  DesiredRoutingMailbox, RoutingRule, RoutingEnv, RoutingConfig, runtime_config,
  derive_routing_mailbox_plan,
}
use mail_gable.Routing.Pages.{Answer, fetch_all_routing_rules}
use mail_gable.Routing.Apply.{
  Mailbox, SyncEnv, Changes, agrees, verified, managed_mailboxes, changes_of, statements_of, commit,
  verify_batch, apply_routing_plan, perform_routing_sync,
}

-- what the plan says of a mailbox
abbrev pub view : Mailbox → DesiredRoutingMailbox
view m = record { address = normalize_email m.address; can_receive = m.can_receive }

module _ (env : SyncEnv) where
  agrees-view :
      (m : Mailbox) (d : DesiredRoutingMailbox)
      → agrees env m d ≡ true
      → (view m ≡ d) × (m.can_send ≡ true)
  agrees-view m d h =
      let e : normalize_email m.address ≡ d.address =
        (eq_iff (normalize_email m.address) d.address).0 (ground arith) in
      let r : m.can_receive ≡ d.can_receive = ground arith in (cc, ground arith)

  verified-view :
      (ms : List Mailbox) (ds : List DesiredRoutingMailbox)
      → verified env ms ds ≡ true
      → (map view ms ≡ ds) × (all (λ m. m.can_send) ms ≡ true)
  unfolding verified all
  verified-view [] [] h = (refl, refl)
  verified-view [] (d ∷ ds) h = cc
  verified-view (m ∷ ms) [] h = cc
  verified-view (m ∷ ms) (d ∷ ds) h =
      let (e, s) = agrees-view m d (ground arith) in
      let (es, ss) = verified-view ms ds (ground arith) in
      (ap (λ x. x ∷ map view ms) e ∙ ap (λ xs. d ∷ xs) es, ground arith)

  -- What a successful application of a plan has shown.
  abbrev pub IsApplied : List DesiredRoutingMailbox → List Mailbox → Type 0
  IsApplied plan rows =
      (map view (managed_mailboxes env rows) ≡ plan)
      × (all (λ m. m.can_send) (managed_mailboxes env rows) ≡ true)

  verify_batch-ok :
      (c d : Changes) (plan : List DesiredRoutingMailbox) (batch : Option (List Mailbox))
      (rows after : List Mailbox)
      → verify_batch env c plan batch rows ≡ (ok d, after)
      → IsApplied plan after
  verify_batch-ok c d plan none rows after h = cc
  verify_batch-ok c d plan (some mid) rows after h =
      elim (Bool-cases (verified env (managed_mailboxes env mid) plan)) [
        | inl yes' ↦
            let p : Path (Result Changes × List Mailbox) (ok c, mid) (ok d, after) = rw yes' at h in
            let same : mid ≡ after = ap (λ x. x.1) p in
            subst (IsApplied plan) same (verified-view (managed_mailboxes env mid) plan yes')
        | inr no' ↦
            let p : Path (Result Changes × List Mailbox)
                (err (app_error 503 routing_sync_verify_failed), mid) (ok d, after) =
              rw no' at h in
            cc
      ]

  -- A synchronization that succeeds leaves, as its active managed mailboxes in the order of SQL,
  -- the plan of the rules that it has read, address for address and each able to send; so it can
  -- succeed only where the order of SQL and the one of localeCompare agree on these addresses.
  pub perform_routing_sync-ok :
      (settings : RoutingEnv) (api : ℕ → Answer) (rows after : List Mailbox) (n : ℕ) (d : Changes)
      → perform_routing_sync env settings api rows ≡ (ok (n, d), after)
      → (config : RoutingConfig) × (rules : List RoutingRule) × (runtime_config settings
          ≡ ok config)
        × (fetch_all_routing_rules api ≡ ok rules)
        × IsApplied
            (derive_routing_mailbox_plan env.locale_not_after rules config.domain
              config.worker_name)
            after
  unfolding perform_routing_sync apply_routing_plan
  perform_routing_sync-ok settings api rows after n d h =
      let (config, e, h1) = lift-ok (runtime_config settings) _ rows after (n, d) h in
      let (rules, f, h2) = lift-ok (fetch_all_routing_rules api) _ rows after (n, d) h1 in
      let plan =
        derive_routing_mailbox_plan env.locale_not_after rules config.domain config.worker_name in
      let (c, mid, h3, h4) =
        bind-ok (apply_routing_plan env plan) (λ changes. pure (length plan, changes)) rows after
          (n, d) h2 in
      let same : mid ≡ after = ap (λ x. x.1) h4 in
      (
        config,
        rules,
        e,
        f,
        subst (IsApplied plan) same (
            verify_batch-ok (changes_of env rows plan) c plan
              (commit env (statements_of env rows plan) rows) rows mid h3),
      )

  verify_batch-err :
      (c : Changes) (plan : List DesiredRoutingMailbox) (batch : Option (List Mailbox))
      (rows after : List Mailbox) (e : Error)
      → verify_batch env c plan batch rows ≡ (err e, after)
      → (after ≡ rows) ⊎ ((e ≡ app_error 503 routing_sync_verify_failed) × (batch ≡ some after))
  verify_batch-err c plan none rows after e h = inl (sym (ap (λ x. x.1) h))
  verify_batch-err c plan (some mid) rows after e h =
      elim (Bool-cases (verified env (managed_mailboxes env mid) plan)) [
        | inl yes' ↦
            let p : Path (Result Changes × List Mailbox) (ok c, mid) (err e, after) =
              rw yes' at h in
            cc
        | inr no' ↦
            let p : Path (Result Changes × List Mailbox)
                (err (app_error 503 routing_sync_verify_failed), mid) (err e, after) =
              rw no' at h in
            let same : mid ≡ after = ap (λ x. x.1) p in
            let failed : app_error 503 routing_sync_verify_failed ≡ e = cc in
            inr (sym failed, ap some same)
      ]

  -- A synchronization that fails leaves the mailboxes as they were, unless the comparison behind
  -- the batch failed: then the batch stays committed.
  pub perform_routing_sync-err :
      (settings : RoutingEnv) (api : ℕ → Answer) (rows after : List Mailbox) (e : Error)
      → perform_routing_sync env settings api rows ≡ (err e, after)
      → (after ≡ rows)
        ⊎ ((plan : List DesiredRoutingMailbox) × (e ≡ app_error 503 routing_sync_verify_failed)
            × (commit env (statements_of env rows plan) rows ≡ some after))
  unfolding perform_routing_sync apply_routing_plan
  perform_routing_sync-err settings api rows after e h =
      elim (lift-err (runtime_config settings) _ rows after e h) [
        | inl same ↦ inl same
        | inr (config, _, h1) ↦ elim (lift-err (fetch_all_routing_rules api) _ rows after e h1) [
          | inl same ↦ inl same
          | inr (rules, _, h2) ↦
              let plan =
                derive_routing_mailbox_plan env.locale_not_after rules config.domain
                  config.worker_name in
              apply_err plan after e (
                bind-err (apply_routing_plan env plan) (λ changes. pure (length plan, changes)) rows
                  after e h2)
        ]
      ]
    where
      apply_err :
          (plan : List DesiredRoutingMailbox) (after : List Mailbox) (e : Error)
          → (apply_routing_plan env plan rows ≡ (err e, after))
            ⊎ ((c : Changes) × (mid : List Mailbox) × (apply_routing_plan env plan rows
                  ≡ (ok c, mid))
                × (Path
                    (Result (ℕ × Changes) × List Mailbox)
                    (ok (length plan, c), mid)
                    (err e, after)))
          → (after ≡ rows)
            ⊎ ((plan : List DesiredRoutingMailbox) × (e ≡ app_error 503 routing_sync_verify_failed)
                × (commit env (statements_of env rows plan) rows ≡ some after))
      apply_err plan after e (inl h) =
          elim (verify_batch-err (changes_of env rows plan) plan
            (commit env (statements_of env rows plan) rows) rows after e h) [
              | inl same ↦ inl same
              | inr (failed, committed) ↦ inr (plan, failed, committed)
            ]
      apply_err plan after e (inr (c, mid, done, h)) = cc

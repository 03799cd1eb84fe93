-- ===== src/Routing/Untouched.antt =====
-- What a synchronization leaves alone.
use mail_gable.Base.{
  String, Bool, true, false, Option, none, some, List, [], ◌∷◌, ◌++◌, ◌==◌, ◌≡◌, refl, ◌∙◌, ap, not,
  ◌&&◌, arith, subst, if◌then◌else◌, any, all, find, inl, inr, Bool-cases, eq_iff,
}
use mail_gable.Helpers.{normalize_email}
use mail_gable.Routing.Plan.{DesiredRoutingMailbox}
use mail_gable.Routing.Apply.{
  Mailbox, SyncEnv, Changes, Statement, by_address, insert_by_address, by_sql_order, statement_for,
  plan_statements, stale_statements, statements_of, changes_of, commit, verify_batch, verified,
  managed_mailboxes, apply_routing_plan,
}
use mail_gable.Routing.Manual.{has_mailbox_id, IsManual, spares, Kept, run_batch-Kept}

module _ (id : String) where
  -- what holds of no row holds of none that is looked up
  by_address-some :
      (g : Mailbox → Bool) (address : String) (rows : List Mailbox) (m : Mailbox)
      → by_address address rows ≡ some m
      → any g rows ≡ false
      → (normalize_email m.address ≡ address) × (g m ≡ false)
  unfolding by_address any
  by_address-some g address [] m e h = cc
  by_address-some g address (r ∷ rs) m e h =
      go (by_address address rs) refl e (λ f. by_address-some g address rs m f (ground arith))
    where
      go :
          (o : Option Mailbox)
          → by_address address rs ≡ o
          → (elim o [
            | some later ↦ some later
            | none ↦
                if (normalize_email r.address == address) && not (normalize_email r.address == "")
                then some r
                else none
          ])
            ≡ some m
          → (by_address address rs ≡ some m → (normalize_email m.address ≡ address) × (g m ≡ false))
          → (normalize_email m.address ≡ address) × (g m ≡ false)
      go (some later) eq f rest = rest (eq ∙ f)
      go none eq f rest =
          elim (Bool-cases
            ((normalize_email r.address == address) && not (normalize_email r.address == ""))) [
              | inl fits ↦
                  let some_r : some r ≡ some m = rw fits at f in
                  let same : r ≡ m = cc in
                  let here : (normalize_email r.address == address) ≡ true = ground arith in
                  subst (λ x. (normalize_email x.address ≡ address) × (g x ≡ false)) same
                    ((eq_iff (normalize_email r.address) address).0 here, ground arith)
              | inr misfit ↦ let none_r : none ≡ some m = rw misfit at f in cc
            ]

  insert_by_address-any :
      (g : Mailbox → Bool) (not_after : String → String → Bool) (m : Mailbox) (rows : List Mailbox)
      → any g (insert_by_address not_after m rows) ≡ any g (m ∷ rows)
  unfolding insert_by_address any
  insert_by_address-any g not_after m [] = refl
  insert_by_address-any g not_after m (r ∷ rs) =
      ground (arith, insert_by_address-any g not_after m rs)

  by_sql_order-any :
      (g : Mailbox → Bool) (not_after : String → String → Bool) (rows : List Mailbox)
      → any g (by_sql_order not_after rows) ≡ any g rows
  unfolding by_sql_order any
  by_sql_order-any g not_after [] = refl
  by_sql_order-any g not_after (m ∷ ms) =
      insert_by_address-any g not_after m (by_sql_order not_after ms)
      ∙ ground (arith, by_sql_order-any g not_after ms)

  module _ (env : SyncEnv) (a : String) where
    -- Every row of the id has this address.
    abbrev elsewhere : Mailbox → Bool
    elsewhere m = has_mailbox_id id m && not (normalize_email m.address == a)

    statement_for-spares :
        (d : DesiredRoutingMailbox) (rows : List Mailbox)
        → (d.address == a) ≡ false
        → any elsewhere rows ≡ false
        → spares id (statement_for env d (by_address d.address rows)) ≡ true
    statement_for-spares d rows apart h = go (by_address d.address rows) refl
      where
        go :
            (o : Option Mailbox)
            → by_address d.address rows ≡ o
            → spares id (statement_for env d o) ≡ true
        go none e = refl
        go (some m) e =
            let (same, off) = by_address-some elsewhere d.address rows m e h in
            let p : (normalize_email m.address == a) ≡ false = ap (λ x. x == a) same ∙ apart in
            ground arith

    plan_statements-spares :
        (plan : List DesiredRoutingMailbox) (rows : List Mailbox)
        → any (λ d. d.address == a) plan ≡ false
        → any elsewhere rows ≡ false
        → all (spares id) (plan_statements env rows plan).0 ≡ true
    unfolding plan_statements any all
    plan_statements-spares [] rows h q = refl
    plan_statements-spares (d ∷ ds) rows h q = ground (
      arith,
      statement_for-spares d rows (ground arith) q,
      plan_statements-spares ds rows (ground arith) q,
    )

    stale_statements-spares :
        (plan : List DesiredRoutingMailbox) (rows : List Mailbox)
        → all (spares id) (stale_statements env plan rows) ≡ true
    unfolding stale_statements all
    stale_statements-spares plan [] = refl
    stale_statements-spares plan (m ∷ ms) = ground (arith, stale_statements-spares plan ms)

    all-append :
        (xs ys : List Statement)
        → all (spares id) (xs ++ ys) ≡ (all (spares id) xs && all (spares id) ys)
    unfolding all
    all-append [] ys = refl
    all-append (x ∷ xs) ys = ground (arith, all-append xs ys)

  verify_batch-find :
      (env : SyncEnv) (c : Changes) (plan : List DesiredRoutingMailbox)
      (batch : Option (List Mailbox)) (rows : List Mailbox)
      → ((after : List Mailbox)
          → batch ≡ some after
          → find (has_mailbox_id id) after ≡ find (has_mailbox_id id) rows)
      → find (has_mailbox_id id) (verify_batch env c plan batch rows).1
        ≡ find (has_mailbox_id id) rows
  verify_batch-find env c plan none rows kept = refl
  verify_batch-find env c plan (some after) rows kept =
      elim (Bool-cases (verified env (managed_mailboxes env after) plan)) [
        | inl yes' ↦ rw yes' (kept after refl)
        | inr no' ↦ rw no' (kept after refl)
      ]

  commit-Kept :
      (env : SyncEnv) (ss : List Statement) (rows after : List Mailbox)
      → all (spares id) ss ≡ true
      → commit env ss rows ≡ some after
      → IsManual id rows
      → Kept id rows after
  commit-Kept env [] rows after h e manual =
      let same : rows ≡ after = cc in subst (Kept id rows) same (manual, refl)
  commit-Kept env (s ∷ ss) rows after h e manual = elim (Bool-cases env.batch_works) [
    | inl works ↦ run_batch-Kept id (s ∷ ss) rows after h (rw works at e) manual
    | inr down ↦ let none_after : none ≡ some after = rw down at e in cc
  ]

  -- A mailbox that the synchronization does not manage and whose address is not in the plan is
  -- left as it is, whether the plan is applied with success or not, the rows of an id having one
  -- address.
  pub apply_routing_plan_manual :
      (env : SyncEnv) (plan : List DesiredRoutingMailbox) (address : String) (rows : List Mailbox)
      → IsManual id rows
      → any (λ m. has_mailbox_id id m && not (normalize_email m.address == address)) rows ≡ false
      → any (λ d. d.address == address) plan ≡ false
      → find (has_mailbox_id id) (apply_routing_plan env plan rows).1
        ≡ find (has_mailbox_id id) rows
  unfolding apply_routing_plan
  apply_routing_plan_manual env plan address rows manual one absent =
      let sorted = by_sql_order env.sql_not_after rows in
      let here = by_sql_order-any (elsewhere env address) env.sql_not_after rows ∙ one in
      let spared : all (spares id) (statements_of env rows plan) ≡ true =
        all-append env address (plan_statements env sorted plan).0
          (stale_statements env plan sorted)
        ∙ rw
            (
              plan_statements-spares env address plan sorted absent here,
              stale_statements-spares env address plan sorted,
            )
            refl in
      verify_batch-find env (changes_of env rows plan) plan
        (commit env (statements_of env rows plan) rows) rows
        (λ after e. (commit-Kept env (statements_of env rows plan) rows after spared e manual).1)

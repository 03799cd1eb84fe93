-- ===== src/Routing/Apply.antt =====
-- applyRoutingPlan: the statements for a plan, their batch and the verification.
use mail_gable.Base.{
  ℕ, suc, String, Bool, true, false, Option, none, some, List, [], ◌∷◌, ◌++◌, ◌==◌, not, ◌&&◌, ◌||◌,
  if◌then◌else◌, any, where_rows, update, length, lower_text,
}
use mail_gable.Store.Effects.{
  routing_sync_database_failed, routing_sync_verify_failed, app_error, ok, err, Exec, lift, pure,
  ◌>>=◌,
}
use mail_gable.Helpers.{normalize_email}
use mail_gable.Routing.Plan.{
  DesiredRoutingMailbox, RoutingEnv, runtime_config, derive_routing_mailbox_plan,
}
use mail_gable.Routing.Names.{stable_mailbox_id, display_name}
use mail_gable.Routing.Pages.{Answer, fetch_all_routing_rules}

pub record Mailbox : Type 0 where
  pub mailbox_id : String
  pub address : String
  pub display_name : String
  pub can_receive : Bool
  pub can_send : Bool
  pub active : Bool
  pub routing_managed : Bool
  pub updated_at : ℕ

-- What the code relies on: the two orders of texts, SHA-256, and whether the batch gets through
-- to D1.
pub record SyncEnv : Type 0 where
  pub locale_not_after : String → String → Bool
  pub sql_not_after : String → String → Bool
  pub sha256 : List ℕ → List ℕ
  pub batch_works : Bool
  pub now : ℕ

-- an INSERT and the two UPDATEs
pub data Statement : Type 0 where
  insert_row : Mailbox → Statement
  set_row : String → Bool → ℕ → Statement
  deactivate_row : String → ℕ → Statement

-- COLLATE NOCASE
abbrev pub same_address : String → String → Bool
same_address a b = lower_text a == lower_text b

abbrev pub add_mailbox : Bool → Mailbox → List Mailbox → Option (List Mailbox)
add_mailbox true m rows = none
add_mailbox false m rows = some (rows ++ m ∷ [])

abbrev pub managed_row : Bool → ℕ → Mailbox → Mailbox
managed_row receives at m = record m {
  can_receive = receives;
  can_send = true;
  active = true;
  routing_managed = true;
  updated_at = at;
}

abbrev pub inactive_row : ℕ → Mailbox → Mailbox
inactive_row at m = record m {
  can_receive = false;
  can_send = false;
  active = false;
  updated_at = at;
}

-- one statement; an INSERT fails for an id or an address that is there
unfoldable pub run_statement : Statement → List Mailbox → Option (List Mailbox)
unfolding any update lower_text
run_statement (insert_row m) rows =
    add_mailbox (any (λ r. (r.mailbox_id == m.mailbox_id) || same_address r.address m.address) rows)
      m rows
run_statement (set_row id receives at) rows =
    some (update (λ m. m.mailbox_id == id) (managed_row receives at) rows)
run_statement (deactivate_row id at) rows =
    some (update (λ m. (m.mailbox_id == id) && m.routing_managed) (inactive_row at) rows)

-- env.DB.batch, one transaction
unfoldable pub run_batch : List Statement → List Mailbox → Option (List Mailbox)
unfolding run_statement
run_batch [] rows = some rows
run_batch (s ∷ ss) rows = elim (run_statement s rows) [ none ↦ none | some mid ↦ run_batch ss mid ]

-- byAddress.get, where a later row of the same address is put over an earlier one
unfoldable pub by_address : String → List Mailbox → Option Mailbox
unfolding normalize_email
by_address address [] = none
by_address address (m ∷ ms) = elim (by_address address ms) [
  | some later ↦ some later
  | none ↦
      if (normalize_email m.address == address) && not (normalize_email m.address == "")
      then some m
      else none
]

-- ORDER BY address
unfoldable pub insert_by_address : (String → String → Bool) → Mailbox → List Mailbox → List Mailbox
insert_by_address not_after m [] = m ∷ []
insert_by_address not_after m (r ∷ rs) =
    let rest = insert_by_address not_after m rs in
    if not_after m.address r.address then m ∷ r ∷ rs else r ∷ rest

unfoldable pub by_sql_order : (String → String → Bool) → List Mailbox → List Mailbox
unfolding insert_by_address
by_sql_order not_after [] = []
by_sql_order not_after (m ∷ ms) = insert_by_address not_after m (by_sql_order not_after ms)

pub record Changes : Type 0 where
  pub inserted : ℕ
  pub changed : ℕ
  pub deactivated : ℕ

-- an existing row differs from what the plan wants
abbrev pub is_changed : DesiredRoutingMailbox → Mailbox → Bool
is_changed d m =
    not (if d.can_receive then m.can_receive else not m.can_receive)
    || not m.can_send
    || not m.active
    || not m.routing_managed

module _ (env : SyncEnv) where
  abbrev pub new_mailbox : DesiredRoutingMailbox → Mailbox
  new_mailbox d = record {
    mailbox_id = stable_mailbox_id env.sha256 d.address;
    address = d.address;
    display_name = display_name d.address;
    can_receive = d.can_receive;
    can_send = true;
    active = true;
    routing_managed = true;
    updated_at = env.now;
  }

  abbrev pub statement_for : DesiredRoutingMailbox → Option Mailbox → Statement
  statement_for d none = insert_row (new_mailbox d)
  statement_for d (some m) = set_row m.mailbox_id d.can_receive env.now

  abbrev pub count_for : DesiredRoutingMailbox → Option Mailbox → Changes → Changes
  count_for d none c = record c { inserted = suc c.inserted }
  count_for d (some m) c = if is_changed d m then record c { changed = suc c.changed } else c

  -- the loop over the plan
  unfoldable pub plan_statements :
      List Mailbox → List DesiredRoutingMailbox → List Statement × Changes
  unfolding by_address
  plan_statements rows [] = ([], record { inserted = 0; changed = 0; deactivated = 0 })
  plan_statements rows (d ∷ ds) =
      let existing = by_address d.address rows in
      let (rest, c) = plan_statements rows ds in
      (statement_for d existing ∷ rest, count_for d existing c)

  -- the mailboxes that the rules have made and no longer describe
  abbrev pub is_stale_mailbox : List DesiredRoutingMailbox → Mailbox → Bool
  is_stale_mailbox plan m =
      m.routing_managed
      && not (normalize_email m.address == "")
      && not (any (λ d. d.address == normalize_email m.address) plan)

  unfoldable pub stale_statements : List DesiredRoutingMailbox → List Mailbox → List Statement
  unfolding normalize_email any
  stale_statements plan [] = []
  stale_statements plan (m ∷ ms) =
      let rest = stale_statements plan ms in
      if is_stale_mailbox plan m then deactivate_row m.mailbox_id env.now ∷ rest else rest

  -- SELECT … WHERE active=1 AND routing_managed=1 ORDER BY address
  unfoldable pub managed_mailboxes : List Mailbox → List Mailbox
  unfolding by_sql_order where_rows
  managed_mailboxes rows =
      by_sql_order env.sql_not_after (where_rows (λ m. m.active && m.routing_managed) rows)

  abbrev pub agrees : Mailbox → DesiredRoutingMailbox → Bool
  agrees m d =
      (normalize_email m.address == d.address)
      && (if m.can_receive then d.can_receive else not d.can_receive)
      && m.can_send

  -- the comparison, position by position
  unfoldable pub verified : List Mailbox → List DesiredRoutingMailbox → Bool
  unfolding normalize_email
  verified [] [] = true
  verified [] (d ∷ ds) = false
  verified (m ∷ ms) [] = false
  verified (m ∷ ms) (d ∷ ds) = agrees m d && verified ms ds

  abbrev pub statements_of : List Mailbox → List DesiredRoutingMailbox → List Statement
  statements_of rows plan =
      let sorted = by_sql_order env.sql_not_after rows in
      (plan_statements sorted plan).0 ++ stale_statements plan sorted

  abbrev pub changes_of : List Mailbox → List DesiredRoutingMailbox → Changes
  changes_of rows plan =
      let sorted = by_sql_order env.sql_not_after rows in
      record (plan_statements sorted plan).1 { deactivated = length (stale_statements plan sorted) }

  abbrev pub verify_batch :
      Changes → List DesiredRoutingMailbox → Option (List Mailbox) → Exec (List Mailbox) Changes
  verify_batch c plan none rows = (err (app_error 503 routing_sync_database_failed), rows)
  verify_batch c plan (some after) rows =
      if verified (managed_mailboxes after) plan
      then (ok c, after)
      else (err (app_error 503 routing_sync_verify_failed), after)

  -- without a statement there is no batch
  abbrev pub commit : List Statement → List Mailbox → Option (List Mailbox)
  commit [] rows = some rows
  commit (s ∷ ss) rows = if env.batch_works then run_batch (s ∷ ss) rows else none

  unfoldable pub apply_routing_plan : List DesiredRoutingMailbox → Exec (List Mailbox) Changes
  unfolding by_sql_order plan_statements stale_statements run_batch verified managed_mailboxes
  apply_routing_plan plan rows =
      verify_batch (changes_of rows plan) plan (commit (statements_of rows plan) rows) rows

-- performRoutingSync; the result has the number of routes
unfoldable pub perform_routing_sync :
    SyncEnv → RoutingEnv → (ℕ → Answer) → Exec (List Mailbox) (ℕ × Changes)
unfolding runtime_config fetch_all_routing_rules derive_routing_mailbox_plan apply_routing_plan
perform_routing_sync env settings api rows =
    (lift (runtime_config settings) >>= λ config. lift (fetch_all_routing_rules api) >>= λ rules.
    let plan =
      derive_routing_mailbox_plan env.locale_not_after rules config.domain config.worker_name in
    apply_routing_plan env plan >>= λ changes. pure (length plan, changes))
      rows

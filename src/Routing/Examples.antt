-- ===== src/Routing/Examples.antt =====
-- Two pages of rules: one mailbox of the worker, one of another service.
use mail_gable.Base.{
  false, ◌==◌, find, not, ◌&&◌, ℕ, String, Bool, true, some, List, [], ◌∷◌, ◌≡◌, ◌≤◌, ◌⊎◌, refl,
  if◌then◌else◌, any, count, lower_text, trim, eqb,
}
use mail_gable.Store.Effects.{
  Result, ok, err, app_error, routing_sync_permission_denied, routing_sync_verify_failed,
}
use mail_gable.Routing.Plan.{
  RoutingEnv, RoutingConfig, RoutingRule, DesiredRoutingMailbox, runtime_config,
  derive_routing_mailbox_plan,
}
use mail_gable.Routing.Pages.{
  Answer, RulesPage, answered, http_error, natural, fetch_all_routing_rules,
}
use mail_gable.Helpers.{normalize_email}
use mail_gable.Routing.Manual.{has_mailbox_id, IsManual}
use mail_gable.Routing.Untouched.{apply_routing_plan_manual}
use mail_gable.Routing.Apply.{
  apply_routing_plan, Mailbox, SyncEnv, Changes, perform_routing_sync, commit, statements_of,
}
use mail_gable.Routing.Wanted.{
  has_address, receives_at, describes, describes_receiving, derive_routing_mailbox_plan-describes,
}
use mail_gable.Routing.Unique.{has_rule_id, fetch_all_routing_rules_unique}
use mail_gable.Routing.Synced.{IsApplied, perform_routing_sync-ok, perform_routing_sync-err}

abbrev rule : String → String → String → RoutingRule
rule id address worker = record {
  id = id;
  enabled = true;
  matchers =
      some (some (record { kind = some "literal"; field = some "to"; value = some address }) ∷ []);
  actions = some (some (record { kind = some "worker"; values = some (worker ∷ []) }) ∷ []);
}

abbrev page : ℕ → RoutingRule → RulesPage
page n r = record {
  rules = some r ∷ [];
  page = natural n;
  total_pages = natural 2;
  total_count = natural 2;
}

abbrev api : ℕ → Answer
api n =
    if eqb n 1
    then answered (page 1 (rule "r1" "Info@Example.com" "mail"))
    else answered (page 2 (rule "r2" "old@example.com" "other"))

abbrev rules : List RoutingRule
rules = rule "r1" "Info@Example.com" "mail" ∷ rule "r2" "old@example.com" "other" ∷ []

read : fetch_all_routing_rules api ≡ ok rules
unfolding fetch_all_routing_rules
read = refl

fetch_all_routing_rules_unique_example : count (has_rule_id "r1") rules ≤ 1
fetch_all_routing_rules_unique_example = fetch_all_routing_rules_unique "r1" api rules refl read

-- every order serves here
abbrev always : String → String → Bool
always a b = true

derive_routing_mailbox_plan-describes_example :
    (count
        (has_address "info@example.com")
        (derive_routing_mailbox_plan always rules "example.com" "mail")
      ≤ 1)
    × (any
          (has_address "info@example.com")
          (derive_routing_mailbox_plan always rules "example.com" "mail")
        ≡ any (describes "info@example.com" (lower_text (trim "example.com")) "mail") rules)
    × (any
          (receives_at "info@example.com")
          (derive_routing_mailbox_plan always rules "example.com" "mail")
        ≡ any
            (describes_receiving "info@example.com" (lower_text (trim "example.com")) "mail")
            rules)
derive_routing_mailbox_plan-describes_example =
    derive_routing_mailbox_plan-describes always rules "example.com" "mail" "info@example.com" refl

abbrev settings : RoutingEnv
settings = record {
  cloudflare_routing_read_token = "token";
  cloudflare_zone_id = "0123456789abcdef0123456789abcdef";
  mail_domain = "example.com";
  mail_worker_name = "mail";
}

-- the digest of an address is its length, which is enough for the ids here
abbrev env : SyncEnv
env = record {
  locale_not_after = always;
  sql_not_after = always;
  sha256 = λ bytes. bytes;
  batch_works = true;
  now = 1000;
}

abbrev mailbox : String → String → Mailbox
mailbox id address = record {
  mailbox_id = id;
  address = address;
  display_name = "Mailbox";
  can_receive = true;
  can_send = true;
  active = true;
  routing_managed = true;
  updated_at = 0;
}

abbrev synced : Result (ℕ × Changes) × List Mailbox
synced =
    perform_routing_sync env settings api
      (mailbox "b1" "info@example.com" ∷ mailbox "b2" "gone@example.com" ∷ [])

works : synced ≡ (ok (2, record { inserted = 1; changed = 0; deactivated = 1 }), synced.1)
unfolding perform_routing_sync mail_gable.Routing.Names.stable_mailbox_id
works = refl

perform_routing_sync-ok_example :
    (config : RoutingConfig) × (rules : List RoutingRule) × (runtime_config settings ≡ ok config)
    × (fetch_all_routing_rules api ≡ ok rules)
    × IsApplied env
        (derive_routing_mailbox_plan always rules config.domain config.worker_name)
        synced.1
perform_routing_sync-ok_example =
    perform_routing_sync-ok env settings api
      (mailbox "b1" "info@example.com" ∷ mailbox "b2" "gone@example.com" ∷ []) synced.1 2
      (record { inserted = 1; changed = 0; deactivated = 1 }) works

abbrev forbidden : ℕ → Answer
forbidden n = http_error 403

refused :
    perform_routing_sync env settings forbidden (mailbox "b1" "info@example.com" ∷ [])
    ≡ (err (app_error 503 routing_sync_permission_denied), mailbox "b1" "info@example.com" ∷ [])
unfolding perform_routing_sync
refused = refl

perform_routing_sync-err_example :
    (Path
      (List Mailbox)
      (mailbox "b1" "info@example.com" ∷ [])
      (mailbox "b1" "info@example.com" ∷ []))
    ⊎ ((plan : List DesiredRoutingMailbox) × (app_error 503 routing_sync_permission_denied
          ≡ app_error 503 routing_sync_verify_failed)
        × (commit env
              (statements_of env (mailbox "b1" "info@example.com" ∷ []) plan)
              (mailbox "b1" "info@example.com" ∷ [])
            ≡ some (mailbox "b1" "info@example.com" ∷ [])))
perform_routing_sync-err_example =
    perform_routing_sync-err env settings forbidden (mailbox "b1" "info@example.com" ∷ [])
      (mailbox "b1" "info@example.com" ∷ []) (app_error 503 routing_sync_permission_denied) refused

-- a mailbox that an operator has added
abbrev by_hand : List Mailbox
by_hand =
    record (mailbox "b3" "staff@example.com") { routing_managed = false }
    ∷ mailbox "b2" "gone@example.com"
    ∷ []

abbrev plan : List DesiredRoutingMailbox
plan = record { address = "info@example.com"; can_receive = true } ∷ []

is_by_hand : IsManual "b3" by_hand
unfolding any
is_by_hand = (refl, refl)

one_address :
    any
      (λ m. has_mailbox_id "b3" m && not (normalize_email m.address == "staff@example.com"))
      by_hand
    ≡ false
unfolding any normalize_email
one_address = refl

not_planned : any (λ (d : DesiredRoutingMailbox). d.address == "staff@example.com") plan ≡ false
unfolding any
not_planned = refl

apply_routing_plan_manual_example :
    find (has_mailbox_id "b3") (apply_routing_plan env plan by_hand).1
    ≡ find (has_mailbox_id "b3") by_hand
apply_routing_plan_manual_example =
    apply_routing_plan_manual "b3" env plan "staff@example.com" by_hand is_by_hand one_address
      not_planned

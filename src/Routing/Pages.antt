-- ===== src/Routing/Pages.antt =====
-- fetchRulesPage and fetchAllRoutingRules. What the API answers for a page is a parameter.
use mail_gable.Base.{
  ℕ, suc, zero, ◌-◌, String, Bool, false, Option, none, some, List, [], ◌∷◌, ◌++◌, ◌==◌, not, ◌&&◌,
  ◌||◌, ltb, eqb, if◌then◌else◌, any, length,
}
use mail_gable.Store.Effects.{
  routing_sync_permission_denied, routing_sync_upstream_failed, routing_sync_upstream_invalid,
  routing_sync_timeout, routing_sync_snapshot_changed, Error, app_error, Result, ok, err,
}
use mail_gable.Routing.Plan.{RoutingRule}

-- a value that Number() reads
pub data Field : Type 0 where
  missing : Field
  natural : ℕ → Field
  no_natural : Field

-- a page whose `success` is true and whose result is an array; `none` is an element that is no
-- object
pub record RulesPage : Type 0 where
  pub rules : List (Option RoutingRule)
  pub page : Field
  pub total_pages : Field
  pub total_count : Field

-- how the request of a page ends
pub data Answer : Type 0 where
  http_error : ℕ → Answer
  no_json incomplete aborted unreachable : Answer
  answered : RulesPage → Answer

unfoldable pub fetch_rules_page : Answer → Result RulesPage
fetch_rules_page (http_error status) =
    if eqb status 401 || eqb status 403
    then err (app_error 503 routing_sync_permission_denied)
    else err (app_error 502 routing_sync_upstream_failed)
fetch_rules_page no_json = err (app_error 502 routing_sync_upstream_invalid)
fetch_rules_page incomplete = err (app_error 502 routing_sync_upstream_invalid)
fetch_rules_page aborted = err (app_error 504 routing_sync_timeout)
fetch_rules_page unreachable = err (app_error 502 routing_sync_upstream_failed)
fetch_rules_page (answered p) = ok p

abbrev pub invalid_page : Error
invalid_page = app_error 502 routing_sync_upstream_invalid

abbrev pub snapshot_changed : Error
snapshot_changed = app_error 503 routing_sync_snapshot_changed

-- Number(field ?? fallback), `none` where it is no natural number
abbrev pub number_or : ℕ → Field → Option ℕ
number_or fallback missing = some fallback
number_or fallback (natural n) = some n
number_or fallback no_natural = none

abbrev pub is_number : Option ℕ → ℕ → Bool
is_number none n = false
is_number (some m) n = eqb m n

-- total_pages, checked
abbrev pub check_pages : ℕ → RulesPage → Option ℕ → Result ℕ
check_pages page p none = err invalid_page
check_pages page p (some total) =
    if ltb total 1 || ltb 100 total || not (is_number (number_or page p.page) page)
    then err invalid_page
    else ok total

abbrev pub same_pages : Option ℕ → ℕ → Result ℕ
same_pages none total = ok total
same_pages (some expected) total = if eqb total expected then ok total else err snapshot_changed

-- the expected total behind a page
abbrev pub check_total : Option ℕ → Field → Result (Option ℕ)
check_total expected missing = ok expected
check_total expected no_natural = err invalid_page
check_total none (natural n) = ok (some n)
check_total (some m) (natural n) = if eqb n m then ok (some m) else err snapshot_changed

abbrev pub is_seen : String → List String → Bool
is_seen id seen = any (λ s. s == id) seen

pub record Collected : Type 0 where
  pub seen : List String
  pub rules : List RoutingRule

abbrev pub keep_rule : RoutingRule → Collected → Collected
keep_rule r c = record {
  seen = if r.id == "" then c.seen else r.id ∷ c.seen;
  rules = c.rules ++ r ∷ [];
}

-- the loop over the rules of a page
unfoldable pub add_rules : List (Option RoutingRule) → Collected → Result Collected
unfolding any
add_rules [] c = ok c
add_rules (none ∷ rs) c = err invalid_page
add_rules (some r ∷ rs) c =
    let rest = add_rules rs (keep_rule r c) in
    if not (r.id == "") && is_seen r.id c.seen then err snapshot_changed else rest

-- what the loop over the pages has collected: the number of pages, the total and the rules
pub record Progress : Type 0 where
  pub pages : ℕ
  pub total : Option ℕ
  pub collected : Collected

module _ {ℓ κ} {A : Type ℓ} {B : Type κ} where
  infixl 5 ◌>=>◌
  abbrev pub ◌>=>◌ : Result A → (A → Result B) → Result B
  ok a >=> f = f a
  err e >=> f = err e

-- the body of the loop over the pages, for the page and the pages expected
unfoldable pub read_page : (ℕ → Answer) → ℕ → Option ℕ → Option ℕ → Collected → Result Progress
unfolding fetch_rules_page add_rules
read_page api page expected total c = fetch_rules_page (api page) >=> λ p.
    check_pages page p (number_or 1 p.total_pages) >=> λ pages.
    same_pages expected pages >=> λ pages. check_total total p.total_count >=> λ total.
    add_rules p.rules c >=> λ c. ok (record { pages = pages; total = total; collected = c })

-- the loop from a page on, with the number of the pages left
unfoldable pub read_pages : (ℕ → Answer) → ℕ → ℕ → Progress → Result Progress
unfolding read_page
read_pages api zero page p = ok p
read_pages api (suc left) page p =
    read_page api page (some p.pages) p.total p.collected >=> read_pages api left (suc page)

abbrev pub check_count : Progress → Result (List RoutingRule)
check_count p = elim p.total [
  | none ↦ ok p.collected.rules
  | some n ↦ if eqb (length p.collected.rules) n then ok p.collected.rules else err snapshot_changed
]

-- fetchAllRoutingRules; every later page has to confirm the number of pages of the first
unfoldable pub fetch_all_routing_rules : (ℕ → Answer) → Result (List RoutingRule)
unfolding read_page read_pages
fetch_all_routing_rules api =
    read_page api 1 none none (record { seen = []; rules = [] }) >=> λ first.
    read_pages api (first.pages - 1) 2 first >=> check_count

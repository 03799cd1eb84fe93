-- ===== src/Routing/Plan.antt =====
-- The settings of the synchronization, and the mailboxes that the routing rules describe.
use Prim.Native.Char.{code}
use Prim.Native.String.{◌++◌ as joined}
use mail_gable.Base.{
  ℕ, String, Bool, true, false, Option, none, some, List, [], ◌∷◌, ◌==◌, not, ◌&&◌, ◌||◌, ltb, leb,
  eqb, if◌then◌else◌, trim, lower_text, is_space, or_else,
}
use mail_gable.Store.Effects.{routing_sync_not_configured, Error, app_error, Result, ok, err}
use mail_gable.Helpers.{normalize_email, code_points}

pub record RoutingEnv : Type 0 where
  pub cloudflare_routing_read_token : String
  pub cloudflare_zone_id : String
  pub mail_domain : String
  pub mail_worker_name : String

pub record RoutingConfig : Type 0 where
  pub token : String
  pub zone_id : String
  pub domain : String
  pub worker_name : String

abbrev pub in_range : ℕ → ℕ → ℕ → Bool
in_range lo hi c = leb lo c && leb c hi

-- /^[…]*$/.test of a class of characters
unfoldable pub all_chars : (ℕ → Bool) → String → Bool
all_chars p String.[] = true
all_chars p (String.◌∷◌ c s) = p (code c) && all_chars p s

abbrev pub is_hex : ℕ → Bool
is_hex c = in_range b'a' b'f' c || in_range b'0' b'9' c

abbrev pub is_domain_char : ℕ → Bool
is_domain_char c = in_range b'a' b'z' c || in_range b'0' b'9' c || eqb c b'.' || eqb c b'-'

-- includes(".."), where `after_dot` tells that the character before is "."
unfoldable pub has_double_dot : Bool → String → Bool
has_double_dot after_dot String.[] = false
has_double_dot after_dot (String.◌∷◌ c s) =
    let here = eqb (code c) b'.' in (after_dot && here) || has_double_dot here s

abbrev pub not_configured : Error
not_configured = app_error 503 routing_sync_not_configured

-- runtimeConfig
unfoldable pub runtime_config : RoutingEnv → Result RoutingConfig
unfolding trim lower_text is_space all_chars has_double_dot code_points
runtime_config env =
    let token = trim env.cloudflare_routing_read_token in
    let zone = lower_text (trim env.cloudflare_zone_id) in
    let domain = lower_text (trim env.mail_domain) in
    let worker = trim env.mail_worker_name in
    if token == ""
    then err not_configured
    else if not (eqb (code_points zone) 32 && all_chars is_hex zone)
    then err not_configured
    else if (domain == "")
        || ltb 253 (code_points domain)
        || not (all_chars is_domain_char domain)
        || has_double_dot false domain
    then err not_configured
    else if (worker == "") || ltb 128 (code_points worker)
    then err not_configured
    else ok (record { token = token; zone_id = zone; domain = domain; worker_name = worker })

-- The JSON of a rule. `none` stands for a value of another type; the one value of an action is
-- taken as a text.
pub record RoutingMatcher : Type 0 where
  pub kind : Option String
  pub field : Option String
  pub value : Option String

pub record RoutingAction : Type 0 where
  pub kind : Option String
  pub values : Option (List String)

pub record RoutingRule : Type 0 where
  pub id : String
  pub enabled : Bool
  pub matchers : Option (List (Option RoutingMatcher))
  pub actions : Option (List (Option RoutingAction))

abbrev pub is_text : Option String → String → Bool
is_text none s = false
is_text (some t) s = t == s

-- the text before an ending, `none` if the text has another one
unfoldable pub before_suffix : String → String → Option String
before_suffix suffix String.[] = if "" == suffix then some "" else none
before_suffix suffix (String.◌∷◌ c s) =
    let rest = before_suffix suffix s in
    if String.◌∷◌ c s == suffix
    then some ""
    else elim rest [ none ↦ none | some t ↦ some (String.◌∷◌ c t) ]

unfoldable pub has_space : String → Bool
unfolding is_space
has_space String.[] = false
has_space (String.◌∷◌ c s) = is_space (code c) || has_space s

abbrev pub local_part_fits : Option String → Bool
local_part_fits none = false
local_part_fits (some part) = not (part == "") && not (has_space part)

abbrev pub matched_address : String → Option RoutingMatcher → String
matched_address domain none = ""
matched_address domain (some m) =
    if is_text m.kind "literal" && is_text m.field "to"
    then (let address = normalize_email (or_else m.value "") in
        if local_part_fits (before_suffix (joined "@" domain) address) then address else "")
    else ""

-- the only element of an array
abbrev pub single {ℓ} : {A : Type ℓ} → Option (List A) → Option A
single none = none
single (some []) = none
single (some (x ∷ [])) = some x
single (some (x ∷ y ∷ ys)) = none

abbrev pub flatten {ℓ} : {A : Type ℓ} → Option (Option A) → Option A
flatten none = none
flatten (some x) = x

-- literalDomainAddress
unfoldable pub literal_domain_address : RoutingRule → String → String
unfolding before_suffix has_space normalize_email
literal_domain_address rule domain =
    if rule.enabled then matched_address domain (flatten (single rule.matchers)) else ""

abbrev pub names_worker : String → Option RoutingAction → Bool
names_worker worker none = false
names_worker worker (some a) = is_text a.kind "worker" && is_text (single a.values) worker

-- routesToCanonicalWorker
unfoldable pub routes_to_canonical_worker : RoutingRule → String → Bool
routes_to_canonical_worker rule worker = names_worker worker (flatten (single rule.actions))

pub record DesiredRoutingMailbox : Type 0 where
  pub address : String
  pub can_receive : Bool

-- the Map, in the order of the first insertions
unfoldable pub want : String → Bool → List DesiredRoutingMailbox → List DesiredRoutingMailbox
want address receives [] = record { address = address; can_receive = receives } ∷ []
want address receives (d ∷ ds) =
    let rest = want address receives ds in
    if d.address == address
    then record d { can_receive = d.can_receive || receives } ∷ ds
    else d ∷ rest

abbrev pub add_rule :
    String → String → RoutingRule → List DesiredRoutingMailbox → List DesiredRoutingMailbox
add_rule domain worker rule desired =
    let address = literal_domain_address rule domain in
    if address == "" then desired else want address (routes_to_canonical_worker rule worker) desired

unfoldable pub collect :
    String → String → List RoutingRule → List DesiredRoutingMailbox → List DesiredRoutingMailbox
unfolding literal_domain_address routes_to_canonical_worker want
collect domain worker [] desired = desired
collect domain worker (r ∷ rs) desired = collect domain worker rs (add_rule domain worker r desired)

-- sort, a stable one; `not_after` is a.localeCompare(b, "en", …) <= 0
unfoldable pub insert_mailbox :
    (String → String → Bool)
    → DesiredRoutingMailbox
    → List DesiredRoutingMailbox
    → List DesiredRoutingMailbox
insert_mailbox not_after d [] = d ∷ []
insert_mailbox not_after d (e ∷ es) =
    let rest = insert_mailbox not_after d es in
    if not_after d.address e.address then d ∷ e ∷ es else e ∷ rest

unfoldable pub sort_mailboxes :
    (String → String → Bool) → List DesiredRoutingMailbox → List DesiredRoutingMailbox
unfolding insert_mailbox
sort_mailboxes not_after [] = []
sort_mailboxes not_after (d ∷ ds) = insert_mailbox not_after d (sort_mailboxes not_after ds)

-- deriveRoutingMailboxPlan
unfoldable pub derive_routing_mailbox_plan :
    (String → String → Bool) → List RoutingRule → String → String → List DesiredRoutingMailbox
unfolding trim lower_text is_space collect sort_mailboxes
derive_routing_mailbox_plan not_after rules domain worker =
    sort_mailboxes not_after (collect (lower_text (trim domain)) worker rules [])

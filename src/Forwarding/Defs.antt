-- ===== src/Forwarding/Defs.antt =====
-- inbound-forwarding.ts: the backup copies of an inbound message. The table has the key
-- (message_id, target), and targets are in lower case. `Outside` is what the platform answers; the text of last_error is the
-- detail that comes with a failure.
use mail_gable.Base.{
  ℕ, suc, ◌+◌, ◌*◌, ◌/◌, String, Bool, true, false, Option, none, some, List, [], ◌∷◌, ◌++◌, ◌==◌,
  not, ◌&&◌, leb, eqb, if◌then◌else◌, find, update, any, all, count, map, where_rows, first_chars,
  coalesce,
}
use mail_gable.Store.Tables.{
  ForwardAttempt, ForwardStatus, waiting, in_flight, accepted, forward_failed,
}
use mail_gable.Store.Effects.{inbound_forward_invalid_config, app_error, Result, ok, err}
use mail_gable.Helpers.{split_list, normalize_email, valid_email}
use mail_gable.Threads.{distinct}

-- inboundForwardAddresses
unfoldable pub forward_entries : String → List String
unfolding split_list normalize_email first_chars where_rows
forward_entries setting =
    where_rows (λ s. not (s == "")) (map normalize_email (split_list "" (first_chars 2000 setting)))

unfoldable pub inbound_forward_addresses : String → Result (List String)
unfolding forward_entries valid_email all
inbound_forward_addresses setting =
    if all valid_email (forward_entries setting)
    then ok (distinct (forward_entries setting))
    else err (app_error 503 inbound_forward_invalid_config)

-- the table, and the targets of the calls of message.forward()
pub record ForwardState : Type 0 where
  pub attempts : List ForwardAttempt
  pub calls : List String

-- the answer of message.forward() for a target, and of the UPDATE that marks it as accepted;
-- `some` is an exception with its detail
pub record Outside : Type 0 where
  pub forward : String → Option String
  pub mark : String → Option String
  pub now : ℕ

abbrev pub is_attempt : String → String → ForwardAttempt → Bool
is_attempt message target a = (a.message_id == message) && (a.target == target)

abbrev pub new_attempt : String → String → ℕ → ForwardAttempt
new_attempt message target at = record {
  message_id = message;
  target = target;
  status = waiting;
  attempts = 0;
  last_error = none;
  last_attempt_at = none;
  accepted_at = none;
  created_at = at;
  updated_at = at;
}

-- INSERT OR IGNORE
abbrev pub ensure_row : String → String → ℕ → List ForwardAttempt → List ForwardAttempt
ensure_row message target at rows =
    if any (is_attempt message target) rows
    then rows
    else rows ++ new_attempt message target at ∷ []

unfoldable pub ensure_attempt_rows :
    String → List String → ℕ → List ForwardAttempt → List ForwardAttempt
unfolding any
ensure_attempt_rows message [] at rows = rows
ensure_attempt_rows message (t ∷ ts) at rows =
    ensure_attempt_rows message ts at (ensure_row message t at rows)

-- datetime(last)<=datetime(now,'-15 minutes'), in seconds
abbrev pub is_stale : ℕ → Option ℕ → Bool
is_stale at none = true
is_stale at (some last) = leb (last / 1000 + 15 * 60) (at / 1000)

abbrev pub may_claim : ℕ → ForwardStatus → Option ℕ → Bool
may_claim at waiting last = true
may_claim at forward_failed last = true
may_claim at in_flight last = is_stale at last
may_claim at accepted last = false

abbrev pub is_claimable : String → String → ℕ → ForwardAttempt → Bool
is_claimable message target at a =
    is_attempt message target a && may_claim at a.status a.last_attempt_at

abbrev pub claimed_row : ℕ → ForwardAttempt → ForwardAttempt
claimed_row at a = record a {
  status = in_flight;
  attempts = suc a.attempts;
  last_error = none;
  last_attempt_at = some at;
  updated_at = at;
}

abbrev pub has_accepted : ForwardStatus → Bool
has_accepted accepted = true
has_accepted waiting = false
has_accepted in_flight = false
has_accepted forward_failed = false

pub data Claim : Type 0 where
  claimed already_accepted busy : Claim

abbrev pub claim_of_row : Option ForwardAttempt → Claim
claim_of_row none = busy
claim_of_row (some a) = if has_accepted a.status then already_accepted else busy

-- attemptStatus
unfoldable pub attempt_claim : String → String → List ForwardAttempt → Claim
unfolding find
attempt_claim message target rows = claim_of_row (find (is_attempt message target) rows)

unfoldable pub claim_rows : String → String → ℕ → List ForwardAttempt → List ForwardAttempt
unfolding update
claim_rows message target at rows = update (is_claimable message target at) (claimed_row at) rows

-- claimTarget
unfoldable pub claim_target :
    String → String → ℕ → List ForwardAttempt → Claim × List ForwardAttempt
unfolding count attempt_claim claim_rows
claim_target message target at rows =
    if eqb (count (is_claimable message target at) rows) 1
    then (claimed, claim_rows message target at rows)
    else (
      attempt_claim message target (claim_rows message target at rows),
      claim_rows message target at rows,
    )

-- the targets claimed, the number of the accepted and of the busy ones
pub record Claims : Type 0 where
  pub targets : List String
  pub accepted_count : ℕ
  pub busy_count : ℕ

abbrev pub add_claim : String → Claim → Claims → Claims
add_claim t claimed r = record r { targets = t ∷ r.targets }
add_claim t already_accepted r = record r { accepted_count = suc r.accepted_count }
add_claim t busy r = record r { busy_count = suc r.busy_count }

unfoldable pub claim_all :
    String → List String → ℕ → List ForwardAttempt → Claims × List ForwardAttempt
claim_all message [] at rows = (record { targets = []; accepted_count = 0; busy_count = 0 }, rows)
claim_all message (t ∷ ts) at rows =
    let (c, mid) = claim_target message t at rows in
    let (r, after) = claim_all message ts at mid in (add_claim t c r, after)

unfoldable pub mark_forward_accepted :
    String → String → ℕ → List ForwardAttempt → List ForwardAttempt
unfolding update
mark_forward_accepted message target at rows =
    update (is_attempt message target)
      (λ a. record a {
        status = accepted;
        last_error = none;
        accepted_at = coalesce a.accepted_at (some at);
        updated_at = at;
      })
      rows

abbrev pub is_accepted : ForwardAttempt → Bool
is_accepted a = has_accepted a.status

unfoldable pub mark_failed :
    String → String → String → ℕ → List ForwardAttempt → List ForwardAttempt
unfolding update
mark_failed message target detail at rows =
    update (λ a. is_attempt message target a && not (is_accepted a))
      (λ a. record a { status = forward_failed; last_error = some detail; updated_at = at }) rows

-- ===== src/Forwarding/Run.antt =====
-- forwardInboundCopies.
use mail_gable.Base.{
  ℕ, ◌+◌, String, Bool, Option, none, some, List, [], ◌∷◌, ◌++◌, ◌==◌, ◌||◌, ltb, if◌then◌else◌,
  any,
}
use mail_gable.Store.Tables.{ForwardAttempt}
use mail_gable.Store.Effects.{
  inbound_forward_loop, inbound_forward_failed, app_error, Result, ok, err, Exec,
}
use mail_gable.Helpers.{normalize_email}
use mail_gable.Forwarding.Defs.{
  inbound_forward_addresses, ForwardState, Outside, ensure_attempt_rows, Claims, claim_all,
  mark_forward_accepted, mark_failed,
}

-- how many copies were accepted, and how many passed the catch clause
pub record Outcome : Type 0 where
  pub accepted_count : ℕ
  pub failed_count : ℕ

-- the body of the second loop; a copy whose UPDATE fails counts as accepted and as failed
abbrev pub after_forward :
    Outside
    → String
    → String
    → Option String
    → Option String
    → List ForwardAttempt
    → Outcome × List ForwardAttempt
after_forward o message t (some detail) marked rows =
    (record { accepted_count = 0; failed_count = 1 }, mark_failed message t detail o.now rows)
after_forward o message t none none rows =
    (record { accepted_count = 1; failed_count = 0 }, mark_forward_accepted message t o.now rows)
after_forward o message t none (some detail) rows =
    (record { accepted_count = 1; failed_count = 1 }, mark_failed message t detail o.now rows)

abbrev pub add_outcome : Outcome → Outcome → Outcome
add_outcome a b = record {
  accepted_count = a.accepted_count + b.accepted_count;
  failed_count = a.failed_count + b.failed_count;
}

-- the second loop
unfoldable pub forward_all : Outside → String → List String → ForwardState → Outcome × ForwardState
unfolding mark_failed mark_forward_accepted
forward_all o message [] st = (record { accepted_count = 0; failed_count = 0 }, st)
forward_all o message (t ∷ ts) st =
    let (a, rows) = after_forward o message t (o.forward t) (o.mark t) st.attempts in
    let (b, after) =
      forward_all o message ts (record { attempts = rows; calls = st.calls ++ t ∷ [] }) in
    (add_outcome a b, after)

-- the end: best effort, unless no destination has accepted
abbrev pub conclude : Claims → Outcome → Result (Unit {0})
conclude c r =
    if ltb 0 (c.accepted_count + r.accepted_count)
    then ok tt
    else if ltb 0 r.failed_count || ltb 0 c.busy_count
    then err (app_error 502 inbound_forward_failed)
    else ok tt

-- both loops, with what other requests write between them
unfoldable pub forward_targets :
    Outside
    → (ForwardState → ForwardState)
    → String
    → ℕ
    → List String
    → Exec ForwardState (Unit {0})
unfolding ensure_attempt_rows claim_all forward_all
forward_targets o others message at targets st =
    let (claims, rows) =
      claim_all message targets at (ensure_attempt_rows message targets at st.attempts) in
    let (r, after) =
      forward_all o message claims.targets (others (record st { attempts = rows })) in
    (conclude claims r, after)

abbrev pub is_member : String → List String → Bool
is_member s ts = any (λ t. t == s) ts

abbrev pub forward_to :
    Outside
    → (ForwardState → ForwardState)
    → String
    → String
    → ℕ
    → Result (List String)
    → Exec ForwardState (Unit {0})
forward_to o others message envelope_to at (err e) st = (err e, st)
forward_to o others message envelope_to at (ok []) st = (ok tt, st)
forward_to o others message envelope_to at (ok (t ∷ ts)) st =
    if is_member (normalize_email envelope_to) (t ∷ ts)
    then (err (app_error 503 inbound_forward_loop), st)
    else forward_targets o others message at (t ∷ ts) st

unfoldable pub forward_inbound_copies :
    Outside
    → (ForwardState → ForwardState)
    → String
    → String
    → String
    → ℕ
    → Exec ForwardState (Unit {0})
unfolding inbound_forward_addresses
forward_inbound_copies o others setting message envelope_to at =
    forward_to o others message envelope_to at (inbound_forward_addresses setting)

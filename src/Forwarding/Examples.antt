-- ===== src/Forwarding/Examples.antt =====
-- A message with two targets: one copy is accepted, the other one is refused at first.
use mail_gable.Base.{none, some, List, [], ◌∷◌, ◌==◌, ◌≡◌, ◌≤◌, refl, count, arith, if◌then◌else◌}
use mail_gable.Store.Tables.{ForwardAttempt, accepted}
use mail_gable.Forwarding.Defs.{
  claim_rows, ForwardState, Outside, new_attempt, claimed, claim_target, is_attempt,
}
use mail_gable.Forwarding.Run.{forward_inbound_copies}
use mail_gable.Forwarding.Accepted.{IsAccepted, forward_inbound_copies-IsAccepted}
use mail_gable.Forwarding.Exclusive.{none_yet, then_move, claims, claim_target-exclusive}

abbrev outside : Outside
outside = record {
  forward = λ t. if t == "two@example.org" then none else some "down";
  mark = λ _. none;
  now = 5000000;
}

abbrev row : ForwardAttempt
row = record (new_attempt "m1" "one@example.org" 1000000) { status = accepted; attempts = 1 }

abbrev table : ForwardState
table = record { attempts = row ∷ []; calls = "one@example.org" ∷ [] }

abbrev after : ForwardState
after =
    (forward_inbound_copies outside (λ s. s) "one@example.org, two@example.org" "m1"
      "box@example.com" 4000000 table).1

is_in : IsAccepted "m1" "one@example.org" table.attempts
unfolding mail_gable.Base.any
is_in = (refl, refl)

forward_inbound_copies-IsAccepted_example :
    IsAccepted "m1" "one@example.org" after.attempts
    × (count (λ t. t == "one@example.org") after.calls
        ≡ count (λ t. t == "one@example.org") table.calls)
forward_inbound_copies-IsAccepted_example =
    forward_inbound_copies-IsAccepted outside (λ s. s) "m1" "one@example.org"
      "one@example.org, two@example.org" "box@example.com" 4000000 table (λ s h. (h, refl)) is_in

abbrev fresh_rows : List ForwardAttempt
fresh_rows =
    new_attempt "m1" "one@example.org" 1000000 ∷ new_attempt "m1" "two@example.org" 1000000 ∷ []

unique : count (is_attempt "m1" "one@example.org") fresh_rows ≤ 1
unfolding count
unique = omega arith

first : (claim_target "m1" "one@example.org" 1000000 fresh_rows).0 ≡ claimed
unfolding claim_target
first = refl

-- another delivery claims the second target, and then asks for the first one
claim_target-exclusive_example : ¬ (
    (claim_target "m1" "one@example.org" 1500000 (
      claim_rows "m1" "two@example.org" 1400000
        (claim_target "m1" "one@example.org" 1000000 fresh_rows).1)).0
    ≡ claimed)
claim_target-exclusive_example =
    claim_target-exclusive "m1" "one@example.org" 1000000 fresh_rows
      (claim_rows "m1" "two@example.org" 1400000
        (claim_target "m1" "one@example.org" 1000000 fresh_rows).1)
      1500000 unique first
      (then_move none_yet (claims "m1" "two@example.org" 1400000 (omega arith))) (omega arith)

-- ===== src/Store/Status.antt =====
-- The status column of mail_messages, and the ranks of delivery statuses
-- (src/mail/constants.ts; src/lib.ts repeats the table as DELIVERY_STATUS_RANK).
-- `other` is any further text: a status is `other s` only for an `s` that no constructor names.
use mail_gable.Base.{
  ℕ, String, ◌≡◌, Bool, true, false, Option, none, some, ◌==◌, eq_iff, inl, inr, Bool-cases, subst,
}
use mathlib.Core.Bool.{false≢true}

pub data Status : Type 0 where
  received sending retryable_failed : Status
  sent delivery_delayed delivered opened clicked failed suppressed bounced complained : Status
  partially_failed : Status
  other : String → Status

-- DELIVERY_RANK[status], `none` for undefined
abbrev pub delivery_rank : Status → Option ℕ
delivery_rank sending = some 0
delivery_rank sent = some 1
delivery_rank delivery_delayed = some 2
delivery_rank delivered = some 3
delivery_rank opened = some 4
delivery_rank clicked = some 5
delivery_rank failed = some 6
delivery_rank suppressed = some 7
delivery_rank bounced = some 8
delivery_rank complained = some 9
delivery_rank received = none
delivery_rank retryable_failed = none
delivery_rank partially_failed = none
delivery_rank (other s) = none

-- SUCCESS_STATUSES.has(status)
abbrev pub is_success : Status → Bool
is_success sent = true
is_success delivery_delayed = true
is_success delivered = true
is_success opened = true
is_success clicked = true
is_success partially_failed = true
is_success complained = true
is_success bounced = true
is_success suppressed = true
is_success received = false
is_success sending = false
is_success retryable_failed = false
is_success failed = false
is_success (other s) = false

-- RETRYABLE_STATUSES.has(status), and the test `status IN ('sending','retryable_failed')`
abbrev pub is_retryable : Status → Bool
is_retryable sending = true
is_retryable retryable_failed = true
is_retryable received = false
is_retryable sent = false
is_retryable delivery_delayed = false
is_retryable delivered = false
is_retryable opened = false
is_retryable clicked = false
is_retryable failed = false
is_retryable suppressed = false
is_retryable bounced = false
is_retryable complained = false
is_retryable partially_failed = false
is_retryable (other s) = false

unfoldable pub String-discrete : Discrete String
unfolding Bool-cases
String-discrete s t = elim (Bool-cases (s == t)) [
  | inl same ↦ yes ((eq_iff s t).0 same)
  | inr differs ↦ no (λ p. false≢true (subst (λ b. b ≡ true) differs ((eq_iff s t).1 p)))
]

unfoldable pub Status-discrete : Discrete Status
unfolding String-discrete
Status-discrete = hlevel String-discrete

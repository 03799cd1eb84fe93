-- ===== src/Webhooks/Parts.antt =====
-- Prefixes, keys of events, statuses and lists of addresses, for the events of the providers
-- (src/providers/events.ts). SHA-256 and the dates are parameters.
use Prim.Native.Char.{code}
use Prim.Native.String.{◌++◌ as joined}
use mail_gable.Base.{
  ℕ, String, Option, none, some, List, [], ◌∷◌, ◌++◌, ◌==◌, not, eqb, if◌then◌else◌, first_chars,
  map, where_rows, take,
}
use mail_gable.Store.Status.{
  Status, received, sending, retryable_failed, sent, delivery_delayed, delivered, opened, clicked,
  failed, suppressed, bounced, complained, partially_failed, other,
}
use mail_gable.Threads.{distinct}
use mail_gable.Helpers.{email_list, normalize_email, valid_email, encode}
use mail_gable.Routing.{hex_text}

pub record Platform : Type 0 where
  pub sha256 : List ℕ → List ℕ
  pub iso_of_ms : ℕ → String
  pub parse_date : String → Option String

-- value.slice(prefix.length), where the value starts with the prefix
unfoldable pub after_prefix : String → String → Option String
after_prefix String.[] s = some s
after_prefix (String.◌∷◌ c p) String.[] = none
after_prefix (String.◌∷◌ c p) (String.◌∷◌ d s) =
    let rest = after_prefix p s in if eqb (code c) (code d) then rest else none

-- the status that a text names
abbrev pub status_of : String → Status
status_of s =
    if s == "received"
    then received
    else if s == "sending"
    then sending
    else if s == "retryable_failed"
    then retryable_failed
    else if s == "sent"
    then sent
    else if s == "delivery_delayed"
    then delivery_delayed
    else if s == "delivered"
    then delivered
    else if s == "opened"
    then opened
    else if s == "clicked"
    then clicked
    else if s == "failed"
    then failed
    else if s == "suppressed"
    then suppressed
    else if s == "bounced"
    then bounced
    else if s == "complained"
    then complained
    else if s == "partially_failed"
    then partially_failed
    else other s

unfoldable pub join_parts : List String → String
join_parts [] = ""
join_parts (p ∷ []) = p
join_parts (p ∷ q ∷ ps) = joined p (joined "|" (join_parts (q ∷ ps)))

unfoldable pub deterministic_event_key : Platform → String → List String → String
unfolding where_rows join_parts encode hex_text first_chars
deterministic_event_key w provider parts =
    first_chars 40 (
      hex_text
        (w.sha256 (encode (join_parts (where_rows (λ p. not (p == "")) (provider ∷ parts))))))

-- emailList of an array
unfoldable pub join_lists : List (List String) → List String
join_lists [] = []
join_lists (xs ∷ xss) = xs ++ join_lists xss

unfoldable pub email_list_of : List String → ℕ → List String
unfolding email_list join_lists distinct where_rows valid_email normalize_email
email_list_of values max = take max (
    distinct (
      where_rows valid_email
        (map normalize_email (join_lists (map (λ v. email_list v max) values)))))

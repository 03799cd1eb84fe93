-- ===== src/Delivery/Defs.antt =====
-- updateRecipientSummary and aggregateDeliveryStatus. A summary is a JavaScript object: writing a
-- key that is there keeps its place, a new key goes to the end.
use mail_gable.Base.{
  ℕ, String, Bool, true, false, Option, none, some, List, [], ◌∷◌, map, ◌==◌, ltb, leb, not, ◌&&◌,
  if◌then◌else◌, or_else, any,
}
use mail_gable.Store.Status.{
  Status, sending, sent, failed, suppressed, bounced, complained, partially_failed, delivery_rank,
}
use mail_gable.Store.Tables.{Summary}

-- summary[recipient]
unfoldable pub lookup : String → Summary → Option Status
lookup k [] = none
lookup k ((j, v) ∷ s) = if j == k then some v else lookup k s

-- summary[recipient] = status
unfoldable pub assign : String → Status → Summary → Summary
assign k v [] = (k, v) ∷ []
assign k v ((j, w) ∷ s) = if j == k then (j, v) ∷ s else (j, w) ∷ assign k v s

-- DELIVERY_RANK[status] || 0
abbrev pub rank : Status → ℕ
rank status = or_else (delivery_rank status) 0

-- the body of the loop
unfoldable pub merge_recipient : Status → String → Summary → Summary
unfolding lookup assign
merge_recipient status recipient next =
    if leb (rank (or_else (lookup recipient next) sending)) (rank status)
    then assign recipient status next
    else next

unfoldable pub merge_all : Status → List String → Summary → Summary
merge_all status [] next = next
merge_all status (k ∷ ks) next = merge_all status ks (merge_recipient status k next)

abbrev pub summary_keys : List String → List String
summary_keys [] = "*" ∷ []
summary_keys (r ∷ rs) = r ∷ rs

unfoldable pub update_recipient_summary : Summary → List String → Status → Summary
unfolding merge_all merge_recipient
update_recipient_summary current recipients status =
    merge_all status (summary_keys recipients) current

-- NEGATIVE_DELIVERY_STATUSES.has(value)
abbrev pub is_negative : Status → Bool
is_negative bounced = true
is_negative complained = true
is_negative failed = true
is_negative suppressed = true
is_negative _ = false

abbrev pub is_complained : Status → Bool
is_complained complained = true
is_complained _ = false

abbrev pub is_bounced : Status → Bool
is_bounced bounced = true
is_bounced _ = false

abbrev pub is_suppressed : Status → Bool
is_suppressed suppressed = true
is_suppressed _ = false

-- the reduce of the last line
unfoldable pub best_status : Status → List Status → Status
best_status best [] = best
best_status best (v ∷ vs) = best_status (if ltb (rank best) (rank v) then v else best) vs

abbrev pub worst_status : List Status → Status
worst_status values =
    if any is_complained values
    then complained
    else if any is_bounced values
    then bounced
    else if any is_suppressed values
    then suppressed
    else failed

unfoldable pub aggregate_values : List Status → Status
unfolding best_status
aggregate_values [] = sent
aggregate_values (v ∷ vs) =
    let values = v ∷ vs in
    if any is_negative values && any (λ s. not (is_negative s)) values
    then partially_failed
    else if any is_negative values
    then worst_status values
    else best_status sent values

unfoldable pub aggregate_delivery_status : Summary → Status
unfolding aggregate_values
aggregate_delivery_status summary = aggregate_values (map (λ e. e.1) summary)

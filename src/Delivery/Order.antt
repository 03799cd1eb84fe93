-- ===== src/Delivery/Order.antt =====
-- Events that arrive in another order: the recipients' statuses and the message's status agree.
use mail_gable.Base.{
  String, ◌≡◌, refl, Bool, true, false, Option, List, ◌==◌, if◌then◌else◌, is_some, any, arith,
}
use mail_gable.Store.Status.{Status, delivery_rank}
use mail_gable.Store.Tables.{Summary}
use mail_gable.Delivery.Defs.{lookup, rank, summary_keys, update_recipient_summary}
use mail_gable.Delivery.Summary.{merged, lookup-update_recipient_summary}

-- The ranks of the table are distinct.
rank_injective :
    (a b : Status)
    → is_some (delivery_rank a) ≡ true
    → is_some (delivery_rank b) ≡ true
    → rank a ≡ rank b
    → a ≡ b
rank_injective a b ha hb e = ground arith

merged_comm :
    (a b : Status) (p : Option Status)
    → is_some (delivery_rank a) ≡ true
    → is_some (delivery_rank b) ≡ true
    → merged a (merged b p) ≡ merged b (merged a p)
merged_comm a b p ha hb = ground (arith, rank_injective a b ha hb)

-- Two events of known statuses may arrive in either order: each recipient ends with one status.
pub update_recipient_summary_comm :
    (current : Summary) (r q : List String) (a b : Status) (j : String)
    → is_some (delivery_rank a) ≡ true
    → is_some (delivery_rank b) ≡ true
    → lookup j (update_recipient_summary (update_recipient_summary current r a) q b)
      ≡ lookup j (update_recipient_summary (update_recipient_summary current q b) r a)
update_recipient_summary_comm current r q a b j ha hb =
    simp lookup-update_recipient_summary
      (cases (any (λ k. k == j) (summary_keys r)) (any (λ k. k == j) (summary_keys q)))
  where
    p : Option Status
    p = lookup j current

    cases :
        (c d : Bool)
        → (if d then merged b (if c then merged a p else p) else (if c then merged a p else p))
          ≡ (if c then merged a (if d then merged b p else p) else (if d then merged b p else p))
    cases true true = merged_comm b a p hb ha
    cases true false = refl
    cases false true = refl
    cases false false = refl

-- ===== src/Delivery/Aggregate.antt =====
-- The status of a message as a function of which statuses its recipients have.
use mail_gable.Base.{
  ◌<◌, String, ◌≡◌, ◌↔◌, refl, ◌∙◌, Bool, true, false, List, [], ◌∷◌, ◌&&◌, ◌||◌, not, arith, ltb,
  if◌then◌else◌, is_some, any, inl, inr, Bool-cases,
}
use mail_gable.Store.Status.{
  Status, sent, delivery_delayed, delivered, opened, clicked, partially_failed, delivery_rank,
}
use mail_gable.Store.Tables.{Summary}
use mail_gable.Delivery.Defs.{
  lookup, rank, is_negative, is_complained, is_bounced, is_suppressed, worst_status, best_status,
  aggregate_values, aggregate_delivery_status, update_recipient_summary,
}
use mail_gable.Delivery.Values.{IsObject, values, any-values_eq, update_recipient_summary-IsObject}
use mail_gable.Delivery.Order.{update_recipient_summary_comm}

abbrev is_clicked : Status → Bool
is_clicked clicked = true
is_clicked _ = false

abbrev is_opened : Status → Bool
is_opened opened = true
is_opened _ = false

abbrev is_delivered : Status → Bool
is_delivered delivered = true
is_delivered _ = false

abbrev is_delayed : Status → Bool
is_delayed delivery_delayed = true
is_delayed _ = false

abbrev ladder : Bool → Bool → Bool → Bool → Status
ladder c o d l =
    if c
    then clicked
    else if o
    then opened
    else if d
    then delivered
    else if l
    then delivery_delayed
    else sent

abbrev ladder_of : List Status → Status
ladder_of vs =
    ladder (any is_clicked vs) (any is_opened vs) (any is_delivered vs) (any is_delayed vs)

abbrev better : Status → Status → Status
better b v = if ltb (rank b) (rank v) then v else b

ladder_step :
    (b v : Status) (c o d l : Bool)
    → rank b < 6
    → 0 < rank b
    → is_negative v ≡ false
    → ladder
        (is_clicked (better b v) || c)
        (is_opened (better b v) || o)
        (is_delivered (better b v) || d)
        (is_delayed (better b v) || l)
      ≡ ladder
          (is_clicked b || (is_clicked v || c))
          (is_opened b || (is_opened v || o))
          (is_delivered b || (is_delivered v || d))
          (is_delayed b || (is_delayed v || l))
ladder_step sent v c o d l h k n = ground arith
ladder_step delivery_delayed v c o d l h k n = ground arith
ladder_step delivered v c o d l h k n = ground arith
ladder_step opened v c o d l h k n = ground arith
ladder_step clicked v c o d l h k n = ground arith
ladder_step _ v c o d l h k n = absurd (omega arith)

better_bounds :
    (b v : Status)
    → rank b < 6
    → 0 < rank b
    → is_negative v ≡ false
    → (rank (better b v) < 6) × (0 < rank (better b v))
better_bounds b v h k n = ground arith

-- The best of non-negative statuses, from `sent` on, is read off which ones are there.
best-ladder :
    (b : Status) (vs : List Status)
    → rank b < 6
    → 0 < rank b
    → any is_negative vs ≡ false
    → best_status b vs ≡ ladder_of (b ∷ vs)
unfolding best_status any
best-ladder b [] h k n = ground arith
best-ladder b (v ∷ vs) h k n =
    let here : is_negative v ≡ false = ground arith in
    let (h', k') = better_bounds b v h k here in
    best-ladder (better b v) vs h' k' (ground arith)
    ∙ ladder_step b v (any is_clicked vs) (any is_opened vs) (any is_delivered vs)
        (any is_delayed vs) h k here

-- The aggregate as a function of which statuses occur.
abbrev verdict : Bool → Bool → Status → Status → Status
verdict n m w b = if n && m then partially_failed else if n then w else b

aggregate-verdict :
    (vs : List Status)
    → aggregate_values vs
      ≡ verdict
          (any is_negative vs)
          (any (λ s. not (is_negative s)) vs)
          (worst_status vs)
          (ladder_of vs)
unfolding aggregate_values any
aggregate-verdict [] = refl
aggregate-verdict (v ∷ vs) = elim (Bool-cases (any is_negative (v ∷ vs))) [
  | inl bad ↦ rw bad refl
  | inr good ↦ rw good (best-ladder sent (v ∷ vs) (omega arith) (omega arith) good)
]

-- The message is `partially_failed` exactly when one recipient failed and another did not.
pub aggregate-partially_failed :
    (s : Summary)
    → (aggregate_delivery_status s ≡ partially_failed)
      ↔ ((any is_negative (values s) ≡ true) × (any (λ v. not (is_negative v)) (values s) ≡ true))
unfolding aggregate_delivery_status
aggregate-partially_failed s =
    rw (aggregate-verdict (values s)) (λ e. (ground arith, ground arith), λ h. rw (h.0, h.1) refl)

-- Summaries that give each recipient one status give the message one status.
pub aggregate_delivery_status_eq :
    (s t : Summary)
    → IsObject s
    → IsObject t
    → ((k : String) → lookup k s ≡ lookup k t)
    → aggregate_delivery_status s ≡ aggregate_delivery_status t
unfolding aggregate_delivery_status
aggregate_delivery_status_eq s t hs ht same =
    let eq = λ (p : Status → Bool). any-values_eq p s t hs ht same in
    rw (aggregate-verdict (values s), aggregate-verdict (values t))
      (rw (
        eq is_negative,
        eq (λ s. not (is_negative s)),
        eq is_complained,
        eq is_bounced,
        eq is_suppressed,
        eq is_clicked,
        eq is_opened,
        eq is_delivered,
        eq is_delayed,
      ))

-- Two events of known statuses give the message the same final status in either order.
pub aggregate_comm :
    (current : Summary) (r q : List String) (a b : Status)
    → IsObject current
    → is_some (delivery_rank a) ≡ true
    → is_some (delivery_rank b) ≡ true
    → aggregate_delivery_status
        (update_recipient_summary (update_recipient_summary current r a) q b)
      ≡ aggregate_delivery_status
          (update_recipient_summary (update_recipient_summary current q b) r a)
aggregate_comm current r q a b h ha hb =
    aggregate_delivery_status_eq _ _
      (update_recipient_summary-IsObject _ q b (update_recipient_summary-IsObject current r a h))
      (update_recipient_summary-IsObject _ r a (update_recipient_summary-IsObject current q b h))
      (λ k. update_recipient_summary_comm current r q a b k ha hb)

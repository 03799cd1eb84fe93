-- ===== src/Delivery/Summary.antt =====
-- The summary of an event's recipients: what one event does to each recipient.
use mail_gable.Base.{
  ◌≤◌, String, ◌≡◌, refl, ◌∙◌, Bool, true, false, Option, some, List, [], ◌∷◌, arith, ◌==◌, ◌||◌,
  eq_iff, eq_refl, leb, if◌then◌else◌, or_else, any, inl, inr, Bool-cases,
}
use mail_gable.Store.Status.{Status, sending}
use mail_gable.Store.Tables.{Summary}
use mail_gable.Delivery.Defs.{
  lookup, assign, rank, merge_recipient, merge_all, summary_keys, update_recipient_summary,
}

pub lookup-assign :
    (k j : String) (v : Status) (s : Summary)
    → lookup j (assign k v s) ≡ (if k == j then some v else lookup j s)
unfolding lookup assign
lookup-assign k j v [] = refl
lookup-assign k j v ((i, w) ∷ s) =
    ground (arith, eq_iff k j, eq_iff i k, eq_iff i j, lookup-assign k j v s)

assign-lookup : (k : String) (v : Status) (s : Summary) → lookup k s ≡ some v → assign k v s ≡ s
unfolding lookup assign
assign-lookup k v [] h = cc
assign-lookup k v ((i, w) ∷ s) h = ground (arith, eq_iff i k, assign-lookup k v s)

-- The status that an event leaves for one of its recipients.
abbrev pub merged : Status → Option Status → Option Status
merged status previous =
    if leb (rank (or_else previous sending)) (rank status) then some status else previous

lookup-merge_recipient :
    (status : Status) (k j : String) (s : Summary)
    → lookup j (merge_recipient status k s)
      ≡ (if k == j then merged status (lookup j s) else lookup j s)
unfolding merge_recipient
lookup-merge_recipient status k j s = elim (Bool-cases (k == j)) [
  | inl same ↦ rw same (
      rw (← (eq_iff k j).0 same)
        (elim (Bool-cases (leb (rank (or_else (lookup k s) sending)) (rank status))) [
          | inl wins ↦ rw wins (rw lookup-assign (rw (eq_refl k)))
          | inr loses ↦ rw loses
        ]))
  | inr apart ↦
      rw apart (elim (Bool-cases (leb (rank (or_else (lookup k s) sending)) (rank status))) [
        | inl wins ↦ rw wins (rw lookup-assign (rw apart))
        | inr loses ↦ rw loses
      ])
]

merged_idempotent :
    (status : Status) (p : Option Status) → merged status (merged status p) ≡ merged status p
merged_idempotent status p = ground arith

lookup-merge_all :
    (status : Status) (ks : List String) (j : String) (s : Summary)
    → lookup j (merge_all status ks s)
      ≡ (if any (λ k. k == j) ks then merged status (lookup j s) else lookup j s)
unfolding merge_all any
lookup-merge_all status [] j s = refl
lookup-merge_all status (k ∷ ks) j s =
    rw (lookup-merge_all status ks j (merge_recipient status k s))
      (rw (lookup-merge_recipient status k j s) (cases (k == j) (any (λ k. k == j) ks)))
  where
    cases :
        (b c : Bool)
        → (if c
            then merged status (if b then merged status (lookup j s) else lookup j s)
            else (if b then merged status (lookup j s) else lookup j s))
          ≡ (if b || c then merged status (lookup j s) else lookup j s)
    cases true true = merged_idempotent status (lookup j s)
    cases true false = refl
    cases false true = refl
    cases false false = refl

-- An event gives each of its recipients (or "*" if it names none) its own status, unless the
-- recipient has one of a higher rank, and changes no other recipient.
pub lookup-update_recipient_summary :
    (current : Summary) (recipients : List String) (status : Status) (j : String)
    → lookup j (update_recipient_summary current recipients status) ≡ (
        if any (λ k. k == j) (summary_keys recipients)
        then merged status (lookup j current)
        else lookup j current)
unfolding update_recipient_summary
lookup-update_recipient_summary current recipients status j =
    lookup-merge_all status (summary_keys recipients) j current

-- No event lowers the rank of any recipient.
pub update_recipient_summary_monotone :
    (current : Summary) (recipients : List String) (status : Status) (j : String)
    → rank (or_else (lookup j current) sending)
      ≤ rank (or_else (lookup j (update_recipient_summary current recipients status)) sending)
update_recipient_summary_monotone current recipients status j =
    rw lookup-update_recipient_summary
      (elim (Bool-cases (any (λ k. k == j) (summary_keys recipients))) [
        | inl named ↦ rw named (ground arith)
        | inr other ↦ rw other (omega arith)
      ])

-- A recipient whose status an event has merged absorbs the event.
absorbs :
    (status : Status) (k : String) (s : Summary) (p : Option Status)
    → lookup k s ≡ merged status p
    → merge_recipient status k s ≡ s
unfolding merge_recipient
absorbs status k s p h = elim (Bool-cases (leb (rank (or_else p sending)) (rank status))) [
  | inl wins ↦
      let now : lookup k s ≡ some status = rw wins at h in
      rw now (rw (assign-lookup k status s now) (ground arith))
  | inr loses ↦ let now : lookup k s ≡ p = rw loses at h in rw now (rw loses)
]

absorbs_all :
    (status : Status) (ks : List String) (s : Summary)
    → ((k : String) → any (λ i. i == k) ks ≡ true → merge_recipient status k s ≡ s)
    → merge_all status ks s ≡ s
unfolding merge_all any
absorbs_all status [] s h = refl
absorbs_all status (k ∷ ks) s h =
    rw (h k (rw (eq_refl k))) (absorbs_all status ks s (λ i m. h i (ground arith)))

-- Applying one event twice leaves the very summary that applying it once leaves.
pub update_recipient_summary_idempotent :
    (current : Summary) (recipients : List String) (status : Status)
    → update_recipient_summary
        (update_recipient_summary current recipients status)
        recipients
        status
      ≡ update_recipient_summary current recipients status
unfolding update_recipient_summary
update_recipient_summary_idempotent current recipients status =
    absorbs_all status (summary_keys recipients)
      (merge_all status (summary_keys recipients) current)
      λ k named.
        absorbs status k (merge_all status (summary_keys recipients) current) (lookup k current)
          (lookup-merge_all status (summary_keys recipients) k current ∙ rw named refl)

-- ===== src/Delivery/Values.antt =====
-- The values of a summary, apart from their order: a summary has each key once, as an object has.
use mail_gable.Base.{
  String, ◌≡◌, refl, sym, ◌∙◌, Bool, true, false, none, some, List, [], ◌∷◌, map, arith, ◌==◌,
  eq_iff, leb, if◌then◌else◌, or_else, any, inl, inr, Bool-cases,
}
use mail_gable.Store.Status.{Status, sending}
use mail_gable.Store.Tables.{Summary}
use mail_gable.Delivery.Defs.{
  lookup, assign, rank, merge_recipient, merge_all, summary_keys, update_recipient_summary,
}
use mail_gable.Delivery.Summary.{lookup-assign}

abbrev pub IsObject : Summary → Type 0
IsObject [] = Unit
IsObject ((k, v) ∷ s) = (lookup k s ≡ none) × IsObject s

assign-IsObject : (k : String) (v : Status) (s : Summary) → IsObject s → IsObject (assign k v s)
unfolding assign
assign-IsObject k v [] h = (unfold lookup in refl, tt)
assign-IsObject k v ((j, w) ∷ s) h = elim (Bool-cases (j == k)) [
  | inl same ↦ rw same h
  | inr apart ↦
      rw apart (lookup-assign k j v s ∙ rw (differ j k apart) h.0, assign-IsObject k v s h.1)
]
  where
    differ : (j k : String) → (j == k) ≡ false → (k == j) ≡ false
    differ j k e = ground (arith, eq_iff j k, eq_iff k j)

merge_all-IsObject :
    (status : Status) (ks : List String) (s : Summary)
    → IsObject s
    → IsObject (merge_all status ks s)
unfolding merge_all merge_recipient
merge_all-IsObject status [] s h = h
merge_all-IsObject status (k ∷ ks) s h =
    merge_all-IsObject status ks
      (if leb (rank (or_else (lookup k s) sending)) (rank status) then assign k status s else s)
      (elim (Bool-cases (leb (rank (or_else (lookup k s) sending)) (rank status))) [
        | inl wins ↦ rw wins (assign-IsObject k status s h)
        | inr loses ↦ rw loses h
      ])

pub update_recipient_summary-IsObject :
    (current : Summary) (recipients : List String) (status : Status)
    → IsObject current
    → IsObject (update_recipient_summary current recipients status)
unfolding update_recipient_summary
update_recipient_summary-IsObject current recipients status h =
    merge_all-IsObject status (summary_keys recipients) current h

abbrev pub values : Summary → List Status
values s = map (λ e. e.1) s

module _ (p : Status → Bool) where
  any_of_lookup :
      (s : Summary) (k : String) (v : Status)
      → lookup k s ≡ some v
      → p v ≡ true
      → any p (values s) ≡ true
  unfolding lookup any
  any_of_lookup [] k v h e = cc
  any_of_lookup ((j, w) ∷ s) k v h e = ground (arith, any_of_lookup s k v)

  lookup_of_any :
      (s : Summary)
      → IsObject s
      → any p (values s) ≡ true
      → (k : String) × (v : Status) × (lookup k s ≡ some v) × (p v ≡ true)
  unfolding lookup any
  lookup_of_any [] h e = cc
  lookup_of_any ((j, w) ∷ s) h e = elim (Bool-cases (p w)) [
    | inl here ↦ (j, w, ground (arith, eq_iff j j), here)
    | inr later ↦
        let (k, v, found, holds) = lookup_of_any s h.1 (rw later at e) in
        (
          k,
          v,
          elim (Bool-cases (j == k)) [
            | inl same ↦ let missing : lookup k s ≡ none = rw (← (eq_iff j k).0 same) h.0 in cc
            | inr apart ↦ rw apart found
          ],
          holds,
        )
  ]

  any_implied :
      (s t : Summary)
      → IsObject s
      → ((k : String) → lookup k s ≡ lookup k t)
      → any p (values s) ≡ true
      → any p (values t) ≡ true
  any_implied s t hs same e =
      let (k, v, found, holds) = lookup_of_any s hs e in
      any_of_lookup t k v (sym (same k) ∙ found) holds

  -- Summaries that agree at each key hold the same values.
  pub any-values_eq :
      (s t : Summary)
      → IsObject s
      → IsObject t
      → ((k : String) → lookup k s ≡ lookup k t)
      → any p (values s) ≡ any p (values t)
  any-values_eq s t hs ht same =
      both _ _ (any_implied s t hs same) (any_implied t s ht (λ k. sym (same k)))
    where
      both : (a b : Bool) → (a ≡ true → b ≡ true) → (b ≡ true → a ≡ true) → a ≡ b
      both true b f g = sym (f refl)
      both false true f g = g refl
      both false false f g = refl

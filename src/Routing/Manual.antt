-- ===== src/Routing/Manual.antt =====
-- The mailboxes that no rule has made and no rule describes.
use mail_gable.Base.{
  String, Bool, true, false, Option, none, some, List, [], ◌∷◌, ◌++◌, ◌==◌, ◌≡◌, refl, ◌∙◌, ap, not,
  ◌&&◌, ◌||◌, arith, subst, any, any-append, any-or, all, find, update, inl, inr, Bool-cases,
  eq_iff,
}
use mail_gable.Routing.Apply.{
  Mailbox, Statement, insert_row, set_row, deactivate_row, add_mailbox, same_address, managed_row,
  inactive_row, run_statement, run_batch,
}

module _ (p q : Mailbox → Bool) (f : Mailbox → Mailbox) where
  find-update_apart :
      (rows : List Mailbox)
      → any (λ m. p m && q m) rows ≡ false
      → ((m : Mailbox) → p (f m) ≡ p m)
      → find p (update q f rows) ≡ find p rows
  unfolding any find update
  find-update_apart [] h key = refl
  find-update_apart (m ∷ ms) h key = ground (arith, key m, find-update_apart ms)

  any-update_apart :
      (w : Mailbox → Bool) (rows : List Mailbox)
      → any (λ m. p m && q m) rows ≡ false
      → ((m : Mailbox) → p (f m) ≡ p m)
      → any (λ m. p m && w m) (update q f rows) ≡ any (λ m. p m && w m) rows
  unfolding any update
  any-update_apart w [] h key = refl
  any-update_apart w (m ∷ ms) h key = ground (arith, key m, any-update_apart w ms)

  any-update_same :
      (rows : List Mailbox) → ((m : Mailbox) → p (f m) ≡ p m) → any p (update q f rows) ≡ any p rows
  unfolding any update
  any-update_same [] key = refl
  any-update_same (m ∷ ms) key = ground (arith, key m, any-update_same ms)

find-append :
    (p : Mailbox → Bool) (xs ys : List Mailbox) → any p xs ≡ true → find p (xs ++ ys) ≡ find p xs
unfolding any find
find-append p [] ys h = cc
find-append p (x ∷ xs) ys h = ground (arith, find-append p xs ys)

module _ (id : String) where
  abbrev pub has_mailbox_id : Mailbox → Bool
  has_mailbox_id m = m.mailbox_id == id

  -- The table has a row of the id, and none that the synchronization manages.
  abbrev pub IsManual : List Mailbox → Type 0
  IsManual rows =
      (any has_mailbox_id rows ≡ true)
      × (any (λ m. has_mailbox_id m && m.routing_managed) rows ≡ false)

  abbrev pub spares : Statement → Bool
  spares (insert_row m) = true
  spares (set_row i receives at) = not (i == id)
  spares (deactivate_row i at) = true

  -- what a statement or a batch leaves of the row
  abbrev pub Kept : List Mailbox → List Mailbox → Type 0
  Kept rows after = IsManual after × (find has_mailbox_id after ≡ find has_mailbox_id rows)

  other_id :
      (i : String) (rows : List Mailbox)
      → (i == id) ≡ false
      → any (λ m. has_mailbox_id m && (m.mailbox_id == i)) rows ≡ false
  unfolding any
  other_id i [] apart = refl
  other_id i (m ∷ ms) apart = ground (arith, other_id i ms apart, two_ids i m.mailbox_id apart)
    where
      two_ids : (i j : String) → (i == id) ≡ false → ((j == id) && (j == i)) ≡ false
      two_ids i j apart = elim (Bool-cases (j == i)) [
        | inr other ↦ ground arith
        | inl same ↦
            let e : (j == id) ≡ (i == id) = ap (λ x. x == id) ((eq_iff j i).0 same) in ground arith
      ]

  managed_apart :
      (i : String) (rows : List Mailbox)
      → any (λ m. has_mailbox_id m && m.routing_managed) rows ≡ false
      → any (λ m. has_mailbox_id m && ((m.mailbox_id == i) && m.routing_managed)) rows ≡ false
  unfolding any
  managed_apart i [] h = refl
  managed_apart i (m ∷ ms) h = ground (arith, managed_apart i ms)

  not_added : (m : Mailbox) (rows after : List Mailbox) → add_mailbox true m rows ≡ some after → ⊥
  not_added m rows after e = cc

  added :
      (m : Mailbox) (rows after : List Mailbox)
      → add_mailbox false m rows ≡ some after
      → rows ++ m ∷ [] ≡ after
  added m rows after e = cc

  new_id :
      (m : Mailbox) (rows : List Mailbox)
      → any has_mailbox_id rows ≡ true
      → any (λ r. (r.mailbox_id == m.mailbox_id) || same_address r.address m.address) rows ≡ false
      → (m.mailbox_id == id) ≡ false
  new_id m rows there free = elim (Bool-cases (m.mailbox_id == id)) [
    | inr apart ↦ apart
    | inl same ↦
        let lacks =
          any-or (λ r. r.mailbox_id == m.mailbox_id) (λ r. same_address r.address m.address) rows
            free in
        let e : any (λ r. r.mailbox_id == m.mailbox_id) rows ≡ any has_mailbox_id rows =
          ap (λ x. any (λ r. r.mailbox_id == x) rows) ((eq_iff m.mailbox_id id).0 same) in
        cc
  ]

  run_statement-Kept :
      (s : Statement) (rows after : List Mailbox)
      → spares s ≡ true
      → run_statement s rows ≡ some after
      → IsManual rows
      → Kept rows after
  unfolding run_statement any
  run_statement-Kept (insert_row m) rows after h e (there, quiet) =
      elim (Bool-cases
        (any (λ r. (r.mailbox_id == m.mailbox_id) || same_address r.address m.address) rows)) [
          | inl taken ↦ absurd (not_added m rows after (rw taken at e))
          | inr free ↦
              let same : rows ++ m ∷ [] ≡ after = added m rows after (rw free at e) in
              let fresh = new_id m rows there free in
              subst (Kept rows) same (
                (
                  any-append has_mailbox_id rows (m ∷ []) ∙ rw there refl,
                  any-append (λ r. has_mailbox_id r && r.routing_managed) rows (m ∷ [])
                      ∙ rw (quiet, fresh) refl,
                ),
                find-append has_mailbox_id rows (m ∷ []) there,
              )
        ]
  run_statement-Kept (set_row i receives at) rows after h e (there, quiet) =
      let apart = other_id i rows (ground arith) in
      let same : update (λ m. m.mailbox_id == i) (managed_row receives at) rows ≡ after = cc in
      subst (Kept rows) same (
        (
          any-update_same has_mailbox_id (λ m. m.mailbox_id == i) (managed_row receives at) rows
                (λ m. refl)
              ∙ there,
          any-update_apart has_mailbox_id (λ m. m.mailbox_id == i) (managed_row receives at)
                (λ m. m.routing_managed) rows apart (λ m. refl)
              ∙ quiet,
        ),
        find-update_apart has_mailbox_id (λ m. m.mailbox_id == i) (managed_row receives at) rows
            apart (λ m. refl),
      )
  run_statement-Kept (deactivate_row i at) rows after h e (there, quiet) =
      let apart = managed_apart i rows quiet in
      let same : update (λ m. (m.mailbox_id == i) && m.routing_managed) (inactive_row at) rows
          ≡ after =
        cc in
      subst (Kept rows) same (
        (
          any-update_same has_mailbox_id (λ m. (m.mailbox_id == i) && m.routing_managed)
                (inactive_row at) rows (λ m. refl)
              ∙ there,
          any-update_apart has_mailbox_id (λ m. (m.mailbox_id == i) && m.routing_managed)
                (inactive_row at) (λ m. m.routing_managed) rows apart (λ m. refl)
              ∙ quiet,
        ),
        find-update_apart has_mailbox_id (λ m. (m.mailbox_id == i) && m.routing_managed)
            (inactive_row at) rows apart (λ m. refl),
      )

  pub run_batch-Kept :
      (ss : List Statement) (rows after : List Mailbox)
      → all spares ss ≡ true
      → run_batch ss rows ≡ some after
      → IsManual rows
      → Kept rows after
  unfolding run_batch all
  run_batch-Kept [] rows after h e manual =
      let same : rows ≡ after = cc in subst (Kept rows) same (manual, refl)
  run_batch-Kept (s ∷ ss) rows after h e manual =
      go (run_statement s rows) refl e
        (λ mid f first. run_batch-Kept ss mid after (ground arith) f first)
    where
      go :
          (o : Option (List Mailbox))
          → run_statement s rows ≡ o
          → (elim o [ none ↦ none | some mid ↦ run_batch ss mid ]) ≡ some after
          → ((mid : List Mailbox) → run_batch ss mid ≡ some after → IsManual mid → Kept mid after)
          → Kept rows after
      go none eq e later = cc
      go (some mid) eq e later =
          let (first, same) = run_statement-Kept s rows mid (ground arith) eq manual in
          let (last, equal) = later mid e first in (last, equal ∙ same)

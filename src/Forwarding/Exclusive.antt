-- ===== src/Forwarding/Exclusive.antt =====
-- Two deliveries of one message: a claim excludes the others for 15 minutes.
use mail_gable.Base.{
  ℕ, ◌+◌, ◌*◌, ◌/◌, ◌<◌, ◌≤◌, String, Bool, true, false, Option, none, some, List, [], ◌∷◌, ◌==◌,
  ◌≡◌, refl, ◌∙◌, sym, ◌&&◌, eqb, arith, any, count, update, inl, inr, Bool-cases, eq_iff,
}
use mail_gable.Store.Tables.{
  ForwardAttempt, ForwardStatus, waiting, in_flight, accepted, forward_failed,
}
use mail_gable.Forwarding.Defs.{
  attempt_claim, is_attempt, may_claim, is_claimable, claimed_row, claimed, claim_rows,
  claim_target, ensure_attempt_rows, mark_forward_accepted, mark_failed,
}
use mail_gable.Forwarding.Claims.{
  HasRow, AllRows, count-none, update-HasRow, ensure_attempt_rows-HasRow,
}
use mail_gable.Forwarding.Accepted.{claim_of_row-refused, claim_target-refused}

-- accepted, or claimed at this time and in flight
abbrev pub is_held : ℕ → ForwardStatus → Option ℕ → Bool
is_held at accepted last = true
is_held at in_flight none = false
is_held at in_flight (some last) = eqb last at
is_held at waiting last = false
is_held at forward_failed last = false

-- A claim at `later` comes within the 15 minutes after `at`.
abbrev pub IsSoon : ℕ → ℕ → Type 0
IsSoon at later = later / 1000 < at / 1000 + 15 * 60

module _ (message target : String) (at : ℕ) where
  abbrev held : ForwardAttempt → Bool
  held a = is_held at a.status a.last_attempt_at

  abbrev pub IsHeld : List ForwardAttempt → Type 0
  IsHeld = HasRow held message target

  -- What deliveries do to the table in the meantime, the failure of this target of this message
  -- excepted: they add rows, claim, accept, and mark other targets or messages as failed.
  pub data Move (rows : List ForwardAttempt) : List ForwardAttempt → Type 0 where
    adds : (m : String) (ts : List String) (now : ℕ) → Move rows (ensure_attempt_rows m ts now rows)
    claims : (m t : String) (now : ℕ) → IsSoon at now → Move rows (claim_rows m t now rows)
    accepts : (m t : String) (now : ℕ) → Move rows (mark_forward_accepted m t now rows)
    fails :
        (m t detail : String) (now : ℕ)
        → ((m == message) && (t == target)) ≡ false
        → Move rows (mark_failed m t detail now rows)

  pub data Moves (rows : List ForwardAttempt) : List ForwardAttempt → Type 0 where
    none_yet : Moves rows rows
    then_move :
        {mid after : List ForwardAttempt} → Moves rows mid → Move mid after → Moves rows after

  held-claimable :
      (now : ℕ) (s : ForwardStatus) (last : Option ℕ)
      → IsSoon at now
      → is_held at s last ≡ true
      → may_claim now s last ≡ true
      → ⊥
  held-claimable now waiting last soon h q = cc
  held-claimable now forward_failed last soon h q = cc
  held-claimable now accepted last soon h q = cc
  held-claimable now in_flight none soon h q = cc
  held-claimable now in_flight (some last) soon h q = ground arith

  not_held :
      (later : ℕ)
      → IsSoon at later
      → (a : ForwardAttempt) → is_claimable message target later a ≡ true
      → held a ≡ false
  not_held later soon a q = elim (Bool-cases (held a)) [
    | inr free ↦ free
    | inl h ↦ absurd (held-claimable later a.status a.last_attempt_at soon h (ground arith))
  ]

  nothing_claimable : count (is_claimable message target at) [] ≡ 1 → ⊥
  unfolding count
  nothing_claimable e = ground arith

  other_key :
      (m t : String) (a : ForwardAttempt)
      → ((m == message) && (t == target)) ≡ false
      → is_attempt message target a ≡ true
      → is_attempt m t a ≡ true
      → ⊥
  other_key m t a apart key q =
      let p : message ≡ m =
        sym ((eq_iff a.message_id message).0 (ground arith))
        ∙ (eq_iff a.message_id m).0 (ground arith) in
      let r : target ≡ t =
        sym ((eq_iff a.target target).0 (ground arith)) ∙ (eq_iff a.target t).0 (ground arith) in
      let b : (m == message) ≡ true = (eq_iff m message).1 (sym p) in
      let c : (t == target) ≡ true = (eq_iff t target).1 (sym r) in ground arith

  Move-IsHeld : (rows after : List ForwardAttempt) → Move rows after → IsHeld rows → IsHeld after
  unfolding claim_rows mark_forward_accepted mark_failed
  Move-IsHeld rows after (adds m ts now) h =
      ensure_attempt_rows-HasRow message target held m ts now rows h
  Move-IsHeld rows after (claims m t now soon) h =
      update-HasRow message target held _ (claimed_row now) rows (λ a. refl)
        (λ a key h q. absurd (held-claimable now a.status a.last_attempt_at soon h (ground arith)))
        h
  Move-IsHeld rows after (accepts m t now) h =
      update-HasRow message target held _ _ rows (λ a. refl) (λ a key h q. refl) h
  Move-IsHeld rows after (fails m t detail now apart) h =
      update-HasRow message target held _ _ rows (λ a. refl)
        (λ a key h q. absurd (other_key m t a apart key (ground arith))) h

  Moves-IsHeld : (rows after : List ForwardAttempt) → Moves rows after → IsHeld rows → IsHeld after
  Moves-IsHeld rows after none_yet h = h
  Moves-IsHeld rows after (then_move {mid} before step) h =
      Move-IsHeld mid after step (Moves-IsHeld rows mid before h)

  no_attempt-claimable :
      (rows : List ForwardAttempt)
      → count (is_attempt message target) rows ≡ 0
      → count (is_claimable message target at) rows ≡ 0
  unfolding count
  no_attempt-claimable [] h = refl
  no_attempt-claimable (a ∷ rows) h = ground (arith, no_attempt-claimable rows)

  no_attempt-AllRows :
      (rows : List ForwardAttempt)
      → count (is_attempt message target) rows ≡ 0
      → AllRows held message target (update (is_claimable message target at) (claimed_row at) rows)
  unfolding count any update
  no_attempt-AllRows [] h = refl
  no_attempt-AllRows (a ∷ rows) h = ground (arith, no_attempt-AllRows rows)

  eqb_refl : (n : ℕ) → eqb n n ≡ true
  eqb_refl n = ground arith

  -- The key of the table is unique, and one of its rows is claimable.
  claim_rows-IsHeld :
      (rows : List ForwardAttempt)
      → count (is_attempt message target) rows ≤ 1
      → count (is_claimable message target at) rows ≡ 1
      → IsHeld (claim_rows message target at rows)
  unfolding claim_rows any count update
  claim_rows-IsHeld [] unique one = absurd (nothing_claimable one)
  claim_rows-IsHeld (a ∷ rows) unique one = elim (Bool-cases (is_claimable message target at a)) [
    | inl fits ↦
        let rest : count (is_attempt message target) rows ≡ 0 = ground arith in
        let quiet = no_attempt-AllRows rows rest in (ground arith, ground (arith, eqb_refl at))
    | inr misfit ↦ elim (Bool-cases (is_attempt message target a)) [
      | inl there ↦
          let rest : count (is_attempt message target) rows ≡ 0 = ground arith in
          let zero' = no_attempt-claimable rows rest in absurd (ground arith)
      | inr other ↦
          let (has, all') = claim_rows-IsHeld rows (ground arith) (ground arith) in
          (ground arith, ground arith)
    ]
  ]

  claim_target-claimed :
      (rows : List ForwardAttempt)
      → (claim_target message target at rows).0 ≡ claimed
      → (count (is_claimable message target at) rows ≡ 1)
        × ((claim_target message target at rows).1 ≡ claim_rows message target at rows)
  unfolding claim_target attempt_claim
  claim_target-claimed rows h =
      elim (Bool-cases (eqb (count (is_claimable message target at) rows) 1)) [
        | inl one ↦ (ground arith, ground arith)
        | inr other ↦ absurd (claim_of_row-refused _ (rw other at h))
      ]

  -- Where a target of a message has been claimed, it is claimed again within the 15 minutes after
  -- the claim only if a failure has been recorded for this target of this message in between: as
  -- long as there is none, whatever deliveries add, claim or accept, and whatever else fails, the
  -- claim is refused.
  pub claim_target-exclusive :
      (rows after : List ForwardAttempt) (later : ℕ)
      → count (is_attempt message target) rows ≤ 1
      → (claim_target message target at rows).0 ≡ claimed
      → Moves (claim_target message target at rows).1 after
      → IsSoon at later
      → ¬ ((claim_target message target later after).0 ≡ claimed)
  claim_target-exclusive rows after later unique first moves soon second =
      let (one, same) = claim_target-claimed rows first in
      let held_now : IsHeld (claim_target message target at rows).1 =
        rw same (claim_rows-IsHeld rows unique one) in
      let (there, all') = Moves-IsHeld _ after moves held_now in
      claim_target-refused message target later after
        (count-none message target held (is_claimable message target later) after
          (λ a q. (ground arith, not_held later soon a q)) all')
        second

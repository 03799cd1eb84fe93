-- ===== src/Forwarding/Accepted.antt =====
-- An accepted copy stays accepted, and is not forwarded again.
use mail_gable.Base.{
  ℕ, ◌+◌, String, Bool, true, false, Option, none, some, List, [], ◌∷◌, ◌++◌, ◌==◌, ◌≡◌, refl, ◌∙◌,
  arith, any, count, inl, inr, Bool-cases, eq_iff,
}
use mail_gable.Store.Tables.{
  ForwardAttempt, ForwardStatus, waiting, in_flight, accepted, forward_failed,
}
use mail_gable.Helpers.{normalize_email}
use mail_gable.Store.Effects.{Result, ok, err}
use mail_gable.Forwarding.Defs.{
  inbound_forward_addresses, has_accepted, claim_of_row, ForwardState, Outside, is_claimable,
  may_claim, claimed_row, Claim, claimed, already_accepted, busy, claim_rows, claim_target,
  claim_all, Claims, add_claim, ensure_attempt_rows, mark_forward_accepted, mark_failed,
  is_accepted, attempt_claim,
}
use mail_gable.Forwarding.Run.{
  forward_to, forward_inbound_copies, is_member, after_forward, forward_all, forward_targets,
}
use mail_gable.Forwarding.Claims.{HasRow, count-none, update-HasRow, ensure_attempt_rows-HasRow}

accepted_stays :
    (at : ℕ) (s : ForwardStatus) (last : Option ℕ)
    → has_accepted s ≡ true
    → may_claim at s last ≡ true
    → ⊥
accepted_stays at waiting last h q = cc
accepted_stays at in_flight last h q = cc
accepted_stays at accepted last h q = cc
accepted_stays at forward_failed last h q = cc

pub claim_of_row-refused : (row : Option ForwardAttempt) → claim_of_row row ≡ claimed → ⊥
claim_of_row-refused none h = cc
claim_of_row-refused (some a) h = ground arith

-- A claim that finds no claimable row is refused.
pub claim_target-refused :
    (m t : String) (at : ℕ) (rows : List ForwardAttempt)
    → count (is_claimable m t at) rows ≡ 0
    → (claim_target m t at rows).0 ≡ claimed
    → ⊥
unfolding claim_target attempt_claim
claim_target-refused m t at rows zero' h = claim_of_row-refused _ (rw zero' at h)

module _ (message target : String) where
  abbrev pub IsAccepted : List ForwardAttempt → Type 0
  IsAccepted = HasRow is_accepted message target

  claim_rows-IsAccepted :
      (m t : String) (at : ℕ) (rows : List ForwardAttempt)
      → IsAccepted rows
      → IsAccepted (claim_rows m t at rows)
  unfolding claim_rows
  claim_rows-IsAccepted m t at rows h =
      update-HasRow message target is_accepted (is_claimable m t at) (claimed_row at) rows
        (λ a. refl) (λ a key yes' q. absurd (no_claim a yes' q)) h
    where
      no_claim : (a : ForwardAttempt) → is_accepted a ≡ true → is_claimable m t at a ≡ true → ⊥
      no_claim a yes' q = accepted_stays at a.status a.last_attempt_at yes' (ground arith)

  mark_forward_accepted-IsAccepted :
      (m t : String) (at : ℕ) (rows : List ForwardAttempt)
      → IsAccepted rows
      → IsAccepted (mark_forward_accepted m t at rows)
  unfolding mark_forward_accepted
  mark_forward_accepted-IsAccepted m t at rows h =
      update-HasRow message target is_accepted _ _ rows (λ a. refl) (λ a key yes' q. refl) h

  mark_failed-IsAccepted :
      (m t detail : String) (at : ℕ) (rows : List ForwardAttempt)
      → IsAccepted rows
      → IsAccepted (mark_failed m t detail at rows)
  unfolding mark_failed
  mark_failed-IsAccepted m t detail at rows h =
      update-HasRow message target is_accepted _ _ rows (λ a. refl) (λ a key yes' q. ground arith) h

  claim_target-rows :
      (m t : String) (at : ℕ) (rows : List ForwardAttempt)
      → (claim_target m t at rows).1 ≡ claim_rows m t at rows
  unfolding claim_target
  claim_target-rows m t at rows = ground arith

  claim_all-IsAccepted :
      (m : String) (ts : List String) (at : ℕ) (rows : List ForwardAttempt)
      → IsAccepted rows
      → IsAccepted (claim_all m ts at rows).1
  unfolding claim_all
  claim_all-IsAccepted m [] at rows h = h
  claim_all-IsAccepted m (t ∷ ts) at rows h =
      claim_all-IsAccepted m ts at (claim_target m t at rows).1
        (rw (claim_target-rows m t at rows) (claim_rows-IsAccepted m t at rows h))

  after_forward-IsAccepted :
      (o : Outside) (m t : String) (sent marked : Option String) (rows : List ForwardAttempt)
      → IsAccepted rows
      → IsAccepted (after_forward o m t sent marked rows).1
  after_forward-IsAccepted o m t (some detail) marked rows h =
      mark_failed-IsAccepted m t detail o.now rows h
  after_forward-IsAccepted o m t none none rows h =
      mark_forward_accepted-IsAccepted m t o.now rows h
  after_forward-IsAccepted o m t none (some detail) rows h =
      mark_failed-IsAccepted m t detail o.now rows h

  forward_all-IsAccepted :
      (o : Outside) (m : String) (ts : List String) (st : ForwardState)
      → IsAccepted st.attempts
      → IsAccepted (forward_all o m ts st).1.attempts
  unfolding forward_all
  forward_all-IsAccepted o m [] st h = h
  forward_all-IsAccepted o m (t ∷ ts) st h =
      forward_all-IsAccepted o m ts _
        (after_forward-IsAccepted o m t (o.forward t) (o.mark t) st.attempts h)

  add_claim-apart :
      (t : String) (c : Claim) (r : Claims)
      → (c ≡ claimed → (t == target) ≡ false)
      → any (λ x. x == target) r.targets ≡ false
      → any (λ x. x == target) (add_claim t c r).targets ≡ false
  unfolding any
  add_claim-apart t claimed r other later = rw (other refl) later
  add_claim-apart t already_accepted r other later = later
  add_claim-apart t busy r other later = later

  not_accepted :
      (at : ℕ) (a : ForwardAttempt)
      → is_claimable message target at a ≡ true
      → is_accepted a ≡ false
  not_accepted at a q = elim (Bool-cases (is_accepted a)) [
    | inr fresh ↦ fresh
    | inl done ↦ absurd (accepted_stays at a.status a.last_attempt_at done (ground arith))
  ]

  claim_target-accepted :
      (t : String) (at : ℕ) (rows : List ForwardAttempt)
      → IsAccepted rows
      → (claim_target message t at rows).0 ≡ claimed
      → (t == target) ≡ false
  claim_target-accepted t at rows (there, h) e = elim (Bool-cases (t == target)) [
    | inr apart ↦ apart
    | inl same ↦
        let eq : t ≡ target = (eq_iff t target).0 same in
        absurd (
          claim_target-refused message target at rows
            (count-none message target is_accepted (is_claimable message target at) rows
              (λ a q. (ground arith, not_accepted at a q)) h)
            (rw eq at e))
  ]

  -- the accepted target is not among those that are claimed
  claim_all-accepted :
      (ts : List String) (at : ℕ) (rows : List ForwardAttempt)
      → IsAccepted rows
      → any (λ t. t == target) (claim_all message ts at rows).0.targets ≡ false
  unfolding claim_all any
  claim_all-accepted [] at rows h = refl
  claim_all-accepted (t ∷ ts) at rows h =
      add_claim-apart t (claim_target message t at rows).0 _ (claim_target-accepted t at rows h) (
        claim_all-accepted ts at (claim_target message t at rows).1
          (rw (claim_target-rows message t at rows) (claim_rows-IsAccepted message t at rows h)))

any-count :
    (t : String) (ts : List String) → any (λ x. x == t) ts ≡ false → count (λ x. x == t) ts ≡ 0
unfolding any count
any-count t [] h = refl
any-count t (x ∷ ts) h = ground (arith, any-count t ts)

count-append :
    (p : String → Bool) (xs ys : List String) → count p (xs ++ ys) ≡ count p xs + count p ys
unfolding count
count-append p [] ys = omega arith
count-append p (x ∷ xs) ys = ground (arith, count-append p xs ys)

-- The second loop calls message.forward() once for each claimed target.
pub forward_all-calls :
    (o : Outside) (message target : String) (ts : List String) (st : ForwardState)
    → count (λ t. t == target) (forward_all o message ts st).1.calls
      ≡ count (λ t. t == target) st.calls + count (λ t. t == target) ts
unfolding forward_all count
forward_all-calls o message target [] st = omega arith
forward_all-calls o message target (t ∷ ts) st =
    let (r, rows) = after_forward o message t (o.forward t) (o.mark t) st.attempts in
    let rest =
      forward_all-calls o message target ts
        (record { attempts = rows; calls = st.calls ++ t ∷ [] }) in
    let split = count-append (λ t. t == target) st.calls (t ∷ []) in ground (arith, rest, split)

-- What other requests may write between the two loops: nothing that takes an acceptance back.
abbrev pub IsHarmless : String → String → (ForwardState → ForwardState) → Type 0
IsHarmless message target others =
    (s : ForwardState)
    → IsAccepted message target s.attempts
    → IsAccepted message target (others s).attempts × ((others s).calls ≡ s.calls)

module _ (o : Outside) (others : ForwardState → ForwardState) (message target : String) where
  forward_targets-IsAccepted :
      (at : ℕ) (targets : List String) (st : ForwardState)
      → IsHarmless message target others
      → IsAccepted message target st.attempts
      → IsAccepted message target (forward_targets o others message at targets st).1.attempts
        × (count (λ t. t == target) (forward_targets o others message at targets st).1.calls
            ≡ count (λ t. t == target) st.calls)
  unfolding forward_targets
  forward_targets-IsAccepted at targets st keeps h =
      let rows = ensure_attempt_rows message targets at st.attempts in
      let ensured =
        ensure_attempt_rows-HasRow message target is_accepted message targets at st.attempts h in
      let mid : ForwardState = record st { attempts = (claim_all message targets at rows).1 } in
      let (safe, same) =
        keeps mid (claim_all-IsAccepted message target message targets at rows ensured) in
      let claims = (claim_all message targets at rows).0.targets in
      let spared =
        any-count target claims (claim_all-accepted message target targets at rows ensured) in
      let called = forward_all-calls o message target claims (others mid) in
      (
        forward_all-IsAccepted message target o message claims (others mid) safe,
        called ∙ rw (same, spared) (omega arith),
      )

  -- A copy that is accepted stays accepted, and a later run for the message does not forward it
  -- again, whatever other requests write in between that takes no acceptance back.
  pub forward_inbound_copies-IsAccepted :
      (setting envelope_to : String) (at : ℕ) (st : ForwardState)
      → IsHarmless message target others
      → IsAccepted message target st.attempts
      → IsAccepted message target
          (forward_inbound_copies o others setting message envelope_to at st).1.attempts
        × (count
              (λ t. t == target)
              (forward_inbound_copies o others setting message envelope_to at st).1.calls
            ≡ count (λ t. t == target) st.calls)
  unfolding forward_inbound_copies
  forward_inbound_copies-IsAccepted setting envelope_to at st keeps h =
      go (inbound_forward_addresses setting)
    where
      go :
          (r : Result (List String))
          → IsAccepted message target (forward_to o others message envelope_to at r st).1.attempts
            × (count (λ t. t == target) (forward_to o others message envelope_to at r st).1.calls
                ≡ count (λ t. t == target) st.calls)
      go (err e) = (h, refl)
      go (ok []) = (h, refl)
      go (ok (t ∷ ts)) = elim (Bool-cases (is_member (normalize_email envelope_to) (t ∷ ts))) [
        | inl loop ↦ rw loop (h, refl)
        | inr clear ↦ rw clear (forward_targets-IsAccepted at (t ∷ ts) st keeps h)
      ]

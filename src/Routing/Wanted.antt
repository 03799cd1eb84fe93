-- ===== src/Routing/Wanted.antt =====
-- The mailboxes of a plan are those that the rules describe.
use mail_gable.Base.{
  ◌≤◌, String, Bool, true, false, List, [], ◌∷◌, ◌==◌, ◌≡◌, refl, ◌∙◌, sym, ap, ◌&&◌, ◌||◌, arith,
  any, count, inl, inr, Bool-cases, eq_iff, trim, lower_text,
}
use mail_gable.Routing.Plan.{
  RoutingRule, DesiredRoutingMailbox, literal_domain_address, routes_to_canonical_worker, want,
  add_rule, collect, insert_mailbox, sort_mailboxes, derive_routing_mailbox_plan,
}

module _ (not_after : String → String → Bool) (p : DesiredRoutingMailbox → Bool) where
  any-insert_mailbox :
      (d : DesiredRoutingMailbox) (ds : List DesiredRoutingMailbox)
      → any p (insert_mailbox not_after d ds) ≡ any p (d ∷ ds)
  unfolding insert_mailbox any
  any-insert_mailbox d [] = refl
  any-insert_mailbox d (e ∷ es) = ground (arith, any-insert_mailbox d es)

  any-sort_mailboxes :
      (ds : List DesiredRoutingMailbox) → any p (sort_mailboxes not_after ds) ≡ any p ds
  unfolding sort_mailboxes any
  any-sort_mailboxes [] = refl
  any-sort_mailboxes (d ∷ ds) =
      any-insert_mailbox d (sort_mailboxes not_after ds) ∙ ground (arith, any-sort_mailboxes ds)

  count-insert_mailbox :
      (d : DesiredRoutingMailbox) (ds : List DesiredRoutingMailbox)
      → count p (insert_mailbox not_after d ds) ≡ count p (d ∷ ds)
  unfolding insert_mailbox count
  count-insert_mailbox d [] = refl
  count-insert_mailbox d (e ∷ es) = ground (arith, count-insert_mailbox d es)

  count-sort_mailboxes :
      (ds : List DesiredRoutingMailbox) → count p (sort_mailboxes not_after ds) ≡ count p ds
  unfolding sort_mailboxes count
  count-sort_mailboxes [] = refl
  count-sort_mailboxes (d ∷ ds) =
      count-insert_mailbox d (sort_mailboxes not_after ds) ∙ ground (arith, count-sort_mailboxes ds)

module _ (a : String) where
  abbrev pub has_address : DesiredRoutingMailbox → Bool
  has_address d = d.address == a

  abbrev pub receives_at : DesiredRoutingMailbox → Bool
  receives_at d = (d.address == a) && d.can_receive

  same_is : (x y : String) → (x == y) ≡ true → (x == a) ≡ (y == a)
  same_is x y e = ap (λ t. t == a) ((eq_iff x y).0 e)

  any-want :
      (x : String) (r : Bool) (ds : List DesiredRoutingMailbox)
      → any has_address (want x r ds) ≡ ((x == a) || any has_address ds)
  unfolding want any
  any-want x r [] = ground arith
  any-want x r (d ∷ ds) = ground (arith, same_is d.address x, any-want x r ds)

  any-want_receives :
      (x : String) (r : Bool) (ds : List DesiredRoutingMailbox)
      → any receives_at (want x r ds) ≡ (((x == a) && r) || any receives_at ds)
  unfolding want any
  any-want_receives x r [] = ground arith
  any-want_receives x r (d ∷ ds) = ground (arith, same_is d.address x, any-want_receives x r ds)

  count-any :
      (ds : List DesiredRoutingMailbox) → any has_address ds ≡ false → count has_address ds ≡ 0
  unfolding any count
  count-any [] h = refl
  count-any (d ∷ ds) h = ground (arith, count-any ds)

  count-want_other :
      (x : String) (r : Bool) (ds : List DesiredRoutingMailbox)
      → (x == a) ≡ false
      → count has_address (want x r ds) ≡ count has_address ds
  unfolding want count
  count-want_other x r [] apart = ground arith
  count-want_other x r (d ∷ ds) apart = ground (arith, count-want_other x r ds)

  count-want :
      (x : String) (r : Bool) (ds : List DesiredRoutingMailbox)
      → count has_address ds ≤ 1
      → count has_address (want x r ds) ≤ 1
  unfolding want count
  count-want x r [] h = ground arith
  count-want x r (d ∷ ds) h = elim (Bool-cases (x == a)) [
    | inr apart ↦ ground (arith, count-want_other x r ds apart)
    | inl is_a ↦
        let same : (d.address == x) ≡ (d.address == a) =
          ap (λ t. d.address == t) ((eq_iff x a).0 is_a) in
        ground (arith, same, count-want x r ds)
  ]

  module _ (domain worker : String) where
    abbrev pub describes : RoutingRule → Bool
    describes r = literal_domain_address r domain == a

    abbrev pub describes_receiving : RoutingRule → Bool
    describes_receiving r =
        (literal_domain_address r domain == a) && routes_to_canonical_worker r worker

    -- no rule describes the empty address
    empty-apart : (x : String) → (a == "") ≡ false → (x == "") ≡ true → (x == a) ≡ false
    empty-apart x named e = elim (Bool-cases (x == a)) [
      | inr apart ↦ apart
      | inl same ↦
          let p : a ≡ "" = sym ((eq_iff x a).0 same) ∙ (eq_iff x "").0 e in
          let q : (a == "") ≡ true = (eq_iff a "").1 p in cc
    ]

    any-collect :
        (rs : List RoutingRule) (ds : List DesiredRoutingMailbox)
        → (a == "") ≡ false
        → any has_address (collect domain worker rs ds) ≡ (any has_address ds || any describes rs)
    unfolding collect any
    any-collect [] ds named = ground arith
    any-collect (r ∷ rs) ds named =
        any-collect rs (add_rule domain worker r ds) named
        ∙ ground (
          arith,
          empty-apart (literal_domain_address r domain) named,
          any-want (literal_domain_address r domain) (routes_to_canonical_worker r worker) ds,
        )

    any-collect_receives :
        (rs : List RoutingRule) (ds : List DesiredRoutingMailbox)
        → (a == "") ≡ false
        → any receives_at (collect domain worker rs ds)
          ≡ (any receives_at ds || any describes_receiving rs)
    unfolding collect any
    any-collect_receives [] ds named = ground arith
    any-collect_receives (r ∷ rs) ds named =
        any-collect_receives rs (add_rule domain worker r ds) named
        ∙ ground (
          arith,
          empty-apart (literal_domain_address r domain) named,
          any-want_receives (literal_domain_address r domain) (routes_to_canonical_worker r worker)
              ds,
        )

    count-collect :
        (rs : List RoutingRule) (ds : List DesiredRoutingMailbox)
        → count has_address ds ≤ 1
        → count has_address (collect domain worker rs ds) ≤ 1
    unfolding collect
    count-collect [] ds h = h
    count-collect (r ∷ rs) ds h = count-collect rs (add_rule domain worker r ds) (
        ground (
          arith,
          count-want (literal_domain_address r domain) (routes_to_canonical_worker r worker) ds h,
        ))

-- A plan has each address at most once; it has those addresses that an enabled rule with a
-- literal matcher of the domain describes, and a mailbox receives just where one of its rules
-- routes to the worker alone. This holds for every order of sorting.
pub derive_routing_mailbox_plan-describes :
    (not_after : String → String → Bool) (rules : List RoutingRule) (domain worker a : String)
    → (a == "") ≡ false
    → (count (has_address a) (derive_routing_mailbox_plan not_after rules domain worker) ≤ 1)
      × (any (has_address a) (derive_routing_mailbox_plan not_after rules domain worker)
          ≡ any (describes a (lower_text (trim domain)) worker) rules)
      × (any (receives_at a) (derive_routing_mailbox_plan not_after rules domain worker)
          ≡ any (describes_receiving a (lower_text (trim domain)) worker) rules)
unfolding derive_routing_mailbox_plan any count
derive_routing_mailbox_plan-describes not_after rules domain worker a named =
    let d = lower_text (trim domain) in
    let plan = collect d worker rules [] in
    (
      rw (count-sort_mailboxes not_after (has_address a) plan)
          (count-collect a d worker rules [] (ground arith)),
      any-sort_mailboxes not_after (has_address a) plan ∙ any-collect a d worker rules [] named,
      any-sort_mailboxes not_after (receives_at a) plan
          ∙ any-collect_receives a d worker rules [] named,
    )

-- ===== src/Routing/Unique.antt =====
-- The rules that a synchronization has read.
use mail_gable.Base.{
  subst, ℕ, suc, zero, ◌+◌, ◌-◌, ◌≤◌, String, Bool, false, Option, none, some, List, [], ◌∷◌, ◌++◌,
  ◌==◌, ◌≡◌, refl, ◌∙◌, sym, ap, not, ◌&&◌, arith, if◌then◌else◌, any, any-append, count, inl, inr,
  Bool-cases, eq_iff, eqb, length,
}
use mail_gable.Store.Effects.{Error, Result, ok, err}
use mail_gable.Routing.Plan.{RoutingRule}
use mail_gable.Routing.Pages.{
  snapshot_changed, Answer, Collected, keep_rule, add_rules, Progress, ◌>=>◌, read_page, read_pages,
  check_count, fetch_all_routing_rules, is_seen, fetch_rules_page, check_pages, same_pages,
  check_total, number_or,
}

-- where a chain of results succeeds, so does each of its parts
then-ok {ℓ κ} :
    {A : Type ℓ} {B : Type κ} (r : Result A) (f : A → Result B) (b : B)
    → (r >=> f) ≡ ok b
    → (a : A) × (r ≡ ok a) × (f a ≡ ok b)
then-ok (ok a) f b h = (a, refl, h)
then-ok (err e) f b h = cc

abbrev collected_or : Collected → Result Progress → Collected
collected_or c (ok p) = p.collected
collected_or c (err e) = c

err-ne-okay : (e : Error) (c : Collected) → Path (Result Collected) (err e) (ok c) → ⊥
err-ne-okay e c h = cc

module _ (id : String) where
  abbrev pub has_rule_id : RoutingRule → Bool
  has_rule_id r = r.id == id

  -- What has been collected has the id at most once, and not without having seen it.
  abbrev Tracked : Collected → Type 0
  Tracked c = (count has_rule_id c.rules ≤ 1) × (is_seen id c.seen ≡ any has_rule_id c.rules)

  count-append :
      (xs ys : List RoutingRule)
      → count has_rule_id (xs ++ ys) ≡ count has_rule_id xs + count has_rule_id ys
  unfolding count
  count-append [] ys = ground arith
  count-append (x ∷ xs) ys = ground (arith, count-append xs ys)

  any-count : (xs : List RoutingRule) → any has_rule_id xs ≡ false → count has_rule_id xs ≡ 0
  unfolding any count
  any-count [] h = refl
  any-count (x ∷ xs) h = ground (arith, any-count xs)

  keep_rule-Tracked :
      (r : RoutingRule) (c : Collected)
      → (id == "") ≡ false
      → (not (r.id == "") && is_seen r.id c.seen) ≡ false
      → Tracked c
      → Tracked (keep_rule r c)
  unfolding any count
  keep_rule-Tracked r c named fresh (once, seen) =
      let p = count-append c.rules (r ∷ []) in
      let q = any-append has_rule_id c.rules (r ∷ []) in
      let z = any-count c.rules in
      elim (Bool-cases (r.id == id)) [
        | inr other ↦ (ground arith, ground arith)
        | inl same ↦
            let e : r.id ≡ id = (eq_iff r.id id).0 same in
            let n : (r.id == "") ≡ false = ap (λ t. t == "") e ∙ named in
            let s : is_seen r.id c.seen ≡ is_seen id c.seen = ap (λ t. is_seen t c.seen) e in
            (ground arith, ground arith)
      ]

  add_rules-Tracked :
      (rs : List (Option RoutingRule)) (c after : Collected)
      → (id == "") ≡ false
      → add_rules rs c ≡ ok after
      → Tracked c
      → Tracked after
  unfolding add_rules
  add_rules-Tracked [] c after named h t = let same : c ≡ after = cc in subst Tracked same t
  add_rules-Tracked (none ∷ rs) c after named h t = cc
  add_rules-Tracked (some r ∷ rs) c after named h t =
      elim (Bool-cases (not (r.id == "") && is_seen r.id c.seen)) [
        | inl twice ↦ absurd (err-ne-okay _ after (rw twice at h))
        | inr fresh ↦
            add_rules-Tracked rs (keep_rule r c) after named (rw fresh at h)
              (keep_rule-Tracked r c named fresh t)
      ]

  read_page-Tracked :
      (api : ℕ → Answer) (page : ℕ) (expected total : Option ℕ) (c : Collected) (p : Progress)
      → (id == "") ≡ false
      → read_page api page expected total c ≡ ok p
      → Tracked c
      → Tracked p.collected
  unfolding read_page
  read_page-Tracked api page expected total c p named h t =
      let (a, e1, h1) = then-ok (fetch_rules_page (api page)) _ p h in
      let (n, e2, h2) = then-ok (check_pages page a (number_or 1 a.total_pages)) _ p h1 in
      let (m, e3, h3) = then-ok (same_pages expected n) _ p h2 in
      let (w, e4, h4) = then-ok (check_total total a.total_count) _ p h3 in
      let (d, e5, h5) = then-ok (add_rules a.rules c) _ p h4 in
      let same : d ≡ p.collected = ap (collected_or d) h5 in
      subst Tracked same (add_rules-Tracked a.rules c d named e5 t)

  read_pages-Tracked :
      (api : ℕ → Answer) (left page : ℕ) (p q : Progress)
      → (id == "") ≡ false
      → read_pages api left page p ≡ ok q
      → Tracked p.collected
      → Tracked q.collected
  unfolding read_pages
  read_pages-Tracked api zero page p q named h t =
      let same : p.collected ≡ q.collected = ap (collected_or p.collected) h in subst Tracked same t
  read_pages-Tracked api (suc left) page p q named h t =
      let (mid, e, rest) = then-ok (read_page api page (some p.pages) p.total p.collected) _ q h in
      read_pages-Tracked api left (suc page) mid q named rest
        (read_page-Tracked api page (some p.pages) p.total p.collected mid named e t)

  check_count-ok :
      (p : Progress) (rules : List RoutingRule)
      → check_count p ≡ ok rules
      → p.collected.rules ≡ rules
  check_count-ok p rules h = go p.total h
    where
      go :
          (total : Option ℕ)
          → (elim total [
            | none ↦ ok p.collected.rules
            | some n ↦
                if eqb (length p.collected.rules) n
                then ok p.collected.rules
                else err snapshot_changed
          ])
            ≡ ok rules
          → p.collected.rules ≡ rules
      go none h = cc
      go (some n) h = ground arith

  -- A synchronization that has read the rules has read no id twice: what the API shows on two
  -- pages because the rules moved meanwhile is an error.
  pub fetch_all_routing_rules_unique :
      (api : ℕ → Answer) (rules : List RoutingRule)
      → (id == "") ≡ false
      → fetch_all_routing_rules api ≡ ok rules
      → count has_rule_id rules ≤ 1
  unfolding fetch_all_routing_rules any count
  fetch_all_routing_rules_unique api rules named h =
      let (p, e1, h1) =
        then-ok (read_page api 1 none none (record { seen = []; rules = [] })) _ rules h in
      let (q, e2, h2) = then-ok (read_pages api (p.pages - 1) 2 p) check_count rules h1 in
      let start =
        read_page-Tracked api 1 none none (record { seen = []; rules = [] }) p named e1
          (ground arith, refl) in
      let (once, seen) = read_pages-Tracked api (p.pages - 1) 2 p q named e2 start in
      rw (sym (check_count-ok q rules h2)) once

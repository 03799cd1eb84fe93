-- ===== src/Store/Inversion.antt =====
-- How a sequence of two steps ended, taken apart.
use mail_gable.Base.{Option, none, some, ◌≡◌, refl, sym, ◌∙◌, ap, ◌⊎◌, inl, inr}
use mail_gable.Store.Effects.{Error, Result, ok, err, Exec, continue, lift, ◌>>=◌, ◌>>◌}

module _ {ℓ κ ι} {S : Type ℓ} {A : Type κ} {B : Type ι} (m : Exec S A) (f : A → Exec S B) where
  -- Where a sequence fails, its first or its second step has failed.
  pub bind-err :
      (s s' : S) (e : Error)
      → (m >>= f) s ≡ (err e, s')
      → (m s ≡ (err e, s')) ⊎ ((a : A) × (mid : S) × (m s ≡ (ok a, mid)) × (f a mid ≡ (err e, s')))
  bind-err s s' e h = go (m s) refl h
    where
      go :
          (r : Result A × S)
          → m s ≡ r
          → continue r.0 f r.1 ≡ (err e, s')
          → (m s ≡ (err e, s'))
            ⊎ ((a : A) × (mid : S) × (m s ≡ (ok a, mid)) × (f a mid ≡ (err e, s')))
      go (ok a, mid) p q = inr (a, mid, p, q)
      go (err x, mid) p q = inl (p ∙ failed x mid q)
        where
          failed :
              (x : Error) (mid : S)
              → Path (Result B × S) (err x, mid) (err e, s')
              → Path (Result A × S) (err x, mid) (err e, s')
          failed x mid q = let same : x ≡ e = cc in let at : mid ≡ s' = ap (λ r. r.1) q in cc

  -- Where a sequence succeeds, so do both steps.
  pub bind-ok :
      (s s' : S) (b : B)
      → (m >>= f) s ≡ (ok b, s')
      → (a : A) × (mid : S) × (m s ≡ (ok a, mid)) × (f a mid ≡ (ok b, s'))
  bind-ok s s' b h = go (m s) refl h
    where
      go :
          (r : Result A × S)
          → m s ≡ r
          → continue r.0 f r.1 ≡ (ok b, s')
          → (a : A) × (mid : S) × (m s ≡ (ok a, mid)) × (f a mid ≡ (ok b, s'))
      go (ok a, mid) p q = (a, mid, p, q)
      go (err x, mid) p q = cc

  -- A property of the state that both steps keep is kept by the sequence.
  pub keeps-bind {π} :
      (P : S → Type π)
      → ((s : S) → P s → P (m s).1)
      → ((a : A) (s : S) → P s → P (f a s).1)
      → (s : S) → P s
      → P ((m >>= f) s).1
  keeps-bind P first later s p = go (m s) (first s p)
    where
      go : (r : Result A × S) → P r.1 → P (continue r.0 f r.1).1
      go (ok a, mid) q = later a mid q
      go (err e, mid) q = q

abbrev pub result_or {κ} : {A : Type κ} → A → Result A → A
result_or a (ok b) = b
result_or a (err e) = a

module _ {ℓ κ} {S : Type ℓ} {A : Type κ} where
  pub ok-injective :
      (a b : A) (s t : S) → Path (Result A × S) (ok a, s) (ok b, t) → (a ≡ b) × (s ≡ t)
  ok-injective a b s t e = (ap (λ r. result_or a r.0) e, ap (λ r. r.1) e)

  pub err-ne-ok : (x : Error) (b : A) (s t : S) → Path (Result A × S) (err x, s) (ok b, t) → ⊥
  err-ne-ok x b s t e = cc

  -- the same for steps that may find nothing
  pub none-ne-some :
      (a : A) (s t : S) → Path (Result (Option A) × S) (ok none, s) (ok (some a), t) → ⊥
  none-ne-some a s t e = let same : none ≡ some a = ap (λ r. result_or none r.0) e in cc

  pub some-injective :
      (a b : A) (s t : S) → Path (Result (Option A) × S) (ok (some a), s) (ok (some b), t) → a ≡ b
  some-injective a b s t e = let same : some a ≡ some b = ap (λ r. result_or none r.0) e in cc

module _ {ℓ κ ι} {S : Type ℓ} {A : Type κ} {B : Type ι} where
  -- What follows a step that leaves the state alone.
  pub keeps-lift {π} :
      (P : S → Type π) (r : Result A) (f : A → Exec S B)
      → ((a : A) (s : S) → P s → P (f a s).1)
      → (s : S) → P s
      → P ((lift r >>= f) s).1
  keeps-lift P (ok a) f later s p = later a s p
  keeps-lift P (err e) f later s p = p

  -- Where a step that leaves the state alone stands first, it has succeeded too.
  pub lift-ok :
      (r : Result A) (f : A → Exec S B) (s s' : S) (b : B)
      → (lift r >>= f) s ≡ (ok b, s')
      → (a : A) × (r ≡ ok a) × (f a s ≡ (ok b, s'))
  lift-ok (ok a) f s s' b h = (a, refl, h)
  lift-ok (err e) f s s' b h = cc

  -- a guard behind another step
  pub guard-ok :
      (m : Exec S A) (r : Result B) (s s' : S) (b : B)
      → (m >> lift r) s ≡ (ok b, s')
      → (a : A) × (m s ≡ (ok a, s')) × (r ≡ ok b)
  guard-ok m r s s' b h =
      let (a, mid, first, second) = bind-ok m (λ _. lift r) s s' b h in
      let at : mid ≡ s' = ap (λ x. x.1) second in
      let val : r ≡ ok b = ap (λ x. x.0) second in (a, first ∙ ap (λ x. (ok a, x)) at, val)

  -- Where it stands first in a sequence that fails, the state is as it was, or what follows fails.
  pub lift-err :
      (r : Result A) (f : A → Exec S B) (s s' : S) (e : Error)
      → (lift r >>= f) s ≡ (err e, s')
      → (s' ≡ s) ⊎ ((a : A) × (r ≡ ok a) × (f a s ≡ (err e, s')))
  lift-err (ok a) f s s' e h = inr (a, refl, h)
  lift-err (err x) f s s' e h = inl (ap (λ p. p.1) (sym h))

  -- What holds where it fails and where what follows has ended.
  pub lift-cases {π} :
      (Q : Result B × S → Type π) (r : Result A) (f : A → Exec S B) (s : S)
      → ((e : Error) → Q (err e, s))
      → ((a : A) → r ≡ ok a → Q (f a s))
      → Q ((lift r >>= f) s)
  lift-cases Q (ok a) f s failed later = later a refl
  lift-cases Q (err e) f s failed later = failed e

-- Where a step fails, it fails with this error.
abbrev pub Fails {ℓ κ} : {S : Type ℓ} {A : Type κ} → Error → Exec S A → Type (ℓ ⊔ κ)
Fails {S} e m = (s s' : S) (x : Error) → m s ≡ (err x, s') → x ≡ e

pub bind-Fails {ℓ κ ι} :
    {S : Type ℓ} {A : Type κ} {B : Type ι} (e : Error) (m : Exec S A) (f : A → Exec S B)
    → Fails e m
    → ((a : A) → Fails e (f a))
    → Fails e (m >>= f)
bind-Fails e m f first later s s' x h = elim (bind-err m f s s' x h) [
  | inl failed ↦ first s s' x failed
  | inr (a, mid, done, after) ↦ later a mid s' x after
]

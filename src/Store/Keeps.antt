-- ===== src/Store/Keeps.antt =====
-- A property of the state that a handler keeps, however it ends.
use mail_gable.Base.{◌≡◌, refl}
use mail_gable.Store.Effects.{Error, Result, ok, err, Exec, continue, lift, ◌>>=◌, ◌>>◌}

module _ {ℓ π} {S : Type ℓ} (P : S → Type π) where
  abbrev pub Keeps {κ} : {A : Type κ} → Exec S A → Type (ℓ ⊔ π)
  Keeps m = (s : S) → P s → P (m s).1

  pub lift-Keeps {κ} : {A : Type κ} (r : Result A) → Keeps (lift r)
  lift-Keeps r s p = p

  pub bind-Keeps {κ ι} :
      {A : Type κ} {B : Type ι} (m : Exec S A) (f : A → Exec S B)
      → Keeps m
      → ((a : A) → Keeps (f a))
      → Keeps (m >>= f)
  bind-Keeps {B = B} m f first later s p = go (m s) (first s p)
    where
      go : (r : Result _ × S) → P r.1 → P (continue r.0 f r.1).1
      go (ok a, mid) q = later a mid q
      go (err e, mid) q = q

  -- a guard behind a step
  pub guard-Keeps {κ ι} :
      {A : Type κ} {B : Type ι} (m : Exec S A) (r : Result B) → Keeps m → Keeps (m >> lift r)
  guard-Keeps m r first = bind-Keeps m (λ _. lift r) first (λ _. lift-Keeps r)

-- A step that fails and writes nothing.
module _ {ℓ κ} {S : Type ℓ} {A : Type κ} where
  abbrev pub Refused : Exec S A → S → Type (ℓ ⊔ κ)
  Refused m s = (e : Error) × (m s ≡ (err e, s))

  pub lift-Refused {ι} :
      {B : Type ι} (r : Result B) (f : B → Exec S A) (s : S)
      → ((b : B) → r ≡ ok b → Refused (f b) s)
      → Refused (lift r >>= f) s
  lift-Refused (ok b) f s later = later b refl
  lift-Refused (err e) f s later = (e, refl)

  -- behind two guards
  pub guards-Refused {ι π} :
      {B : Type ι} {C : Type π} (r : Result B) (q : Result C) (f : C → Exec S A) (s : S)
      → ((b : C) → q ≡ ok b → Refused (f b) s)
      → Refused ((lift r >> lift q) >>= f) s
  guards-Refused (ok b) q f s later = lift-Refused q f s later
  guards-Refused (err e) q f s later = (e, refl)

-- ===== src/Base/Rows.antt =====
-- The SQL statements of the program over a table, which is a list of rows.
use Prim.Native.Nat.{ℕ, suc}
use mathlib.Core.Path.{◌≡◌, refl, ap}
use mathlib.Core.Bool.{Bool, true, false, ◌&&◌, ◌||◌}
use mathlib.Core.Option.{Option, none, some}
use mathlib.Core.List.{List, [], ◌∷◌, ◌++◌}
use native.Mathlib.Omega.{arith}
use mail_gable.Base.Tests.{if◌then◌else◌, Bool-cases}
use mathlib.Core.Logic.{inl, inr}

module _ {ℓ} {A : Type ℓ} where
  abbrev pub length : List A → ℕ
  length [] = 0
  length (x ∷ xs) = suc (length xs)

  -- SELECT … WHERE p LIMIT 1
  unfoldable pub find : (A → Bool) → List A → Option A
  find p [] = none
  find p (x ∷ xs) = if p x then some x else find p xs

  -- SELECT … WHERE p
  unfoldable pub where_rows : (A → Bool) → List A → List A
  where_rows p [] = []
  where_rows p (x ∷ xs) = let rest = where_rows p xs in if p x then x ∷ rest else rest

  -- UPDATE … SET f WHERE p
  unfoldable pub update : (A → Bool) → (A → A) → List A → List A
  update p f [] = []
  update p f (x ∷ xs) = (if p x then f x else x) ∷ update p f xs

  -- DELETE … WHERE p
  unfoldable pub delete : (A → Bool) → List A → List A
  delete p [] = []
  delete p (x ∷ xs) = let rest = delete p xs in if p x then rest else x ∷ rest

  -- SELECT COUNT(*) … WHERE p
  unfoldable pub count : (A → Bool) → List A → ℕ
  count p [] = 0
  count p (x ∷ xs) = if p x then suc (count p xs) else count p xs

  -- EXISTS(SELECT 1 … WHERE p)
  unfoldable pub any : (A → Bool) → List A → Bool
  any p [] = false
  any p (x ∷ xs) = p x || any p xs

  unfoldable pub all : (A → Bool) → List A → Bool
  all p [] = true
  all p (x ∷ xs) = p x && all p xs

  -- LIMIT n
  abbrev pub take : ℕ → List A → List A
  take n [] = []
  take ℕ.zero (x ∷ xs) = []
  take (suc n) (x ∷ xs) = x ∷ take n xs

  pub find-holds : (p : A → Bool) (xs : List A) (a : A) → find p xs ≡ some a → p a ≡ true
  unfolding find
  find-holds p [] a h = cc
  find-holds p (x ∷ xs) a h = elim (Bool-cases (p x)) [
    | inl yes' ↦ let e : some x ≡ some a = rw yes' at h in cc
    | inr no' ↦ find-holds p xs a (rw no' at h)
  ]

  -- A row that a later update leaves in its class is found, updated.
  pub find-update :
      (p q : A → Bool) (f : A → A) (xs : List A)
      → ((a : A) → p (if q a then f a else a) ≡ p a)
      → find p (update q f xs)
        ≡ (elim (find p xs) [ none ↦ none | some a ↦ some (if q a then f a else a) ])
  unfolding find update
  find-update p q f [] h = refl
  find-update p q f (x ∷ xs) h = elim (Bool-cases (p x)) [
    | inl yes' ↦ rw (h x, yes') refl
    | inr no' ↦ rw (h x, no') (find-update p q f xs h)
  ]

  pub any-delete : (p : A → Bool) (xs : List A) → any p (delete p xs) ≡ false
  unfolding any delete
  any-delete p [] = refl
  any-delete p (x ∷ xs) = ground (arith, any-delete p xs)

  -- Deleting one class removes nothing of a class apart from it.
  pub delete-update :
      (p q : A → Bool) (f : A → A) (xs : List A)
      → ((a : A) → p (if q a then f a else a) ≡ p a)
      → delete p (update q f xs) ≡ update q f (delete p xs)
  unfolding delete update
  delete-update p q f [] h = refl
  delete-update p q f (x ∷ xs) h = elim (Bool-cases (p x)) [
    | inl yes' ↦ rw (h x, yes') (delete-update p q f xs h)
    | inr no' ↦ rw (h x, no') (ap (λ r. (if q x then f x else x) ∷ r) (delete-update p q f xs h))
  ]

  pub any-append : (p : A → Bool) (xs ys : List A) → any p (xs ++ ys) ≡ (any p xs || any p ys)
  unfolding any
  any-append p [] ys = refl
  any-append p (x ∷ xs) ys = ground (arith, any-append p xs ys)

  pub find-none-any : (p : A → Bool) (xs : List A) → find p xs ≡ none → any p xs ≡ false
  unfolding find any
  find-none-any p [] h = refl
  find-none-any p (x ∷ xs) h = ground (arith, find-none-any p xs)

  pub any-false-find : (p : A → Bool) (xs : List A) → any p xs ≡ false → find p xs ≡ none
  unfolding find any
  any-false-find p [] h = refl
  any-false-find p (x ∷ xs) h = ground (arith, any-false-find p xs)

  pub find-append :
      (p : A → Bool) (xs ys : List A) → find p xs ≡ none → find p (xs ++ ys) ≡ find p ys
  unfolding find
  find-append p [] ys h = refl
  find-append p (x ∷ xs) ys h = ground (arith, find-append p xs ys)

  pub any-or : (p q : A → Bool) (xs : List A) → any (λ x. p x || q x) xs ≡ false → any p xs ≡ false
  unfolding any
  any-or p q [] h = refl
  any-or p q (x ∷ xs) h = ground (arith, any-or p q xs)

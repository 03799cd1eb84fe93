-- ===== src/Retention/Batches.antt =====
-- The loop of deletes over an R2 bucket.
use mail_gable.Base.{
  ℕ, zero, suc, ◌≤◌, sym, String, Bool, true, false, List, [], ◌∷◌, ◌==◌, ◌≡◌, refl, ◌∙◌, ◌&&◌,
  ◌||◌, ap, length, take, delete, any, arith, Bool-cases, inl, inr, eq_iff,
}
use mail_gable.Store.Effects.{Error, Result, app_error, deletion_incomplete, ok, err}
use mail_gable.Store.Inversion.{Fails, bind-Fails, keeps-bind, bind-ok, ok-injective, err-ne-ok}
use mail_gable.Retention.Defs.{Vault, DeleteFaults, drop, is_among, delete_chunk, delete_chunks}

any-take-drop :
    (p : String → Bool) (n : ℕ) (xs : List String)
    → any p xs ≡ (any p (take n xs) || any p (drop n xs))
unfolding any
any-take-drop p zero [] = refl
any-take-drop p (suc n) [] = refl
any-take-drop p zero (x ∷ xs) = refl
any-take-drop p (suc n) (x ∷ xs) = ground (arith, any-take-drop p n xs)

neither :
    (j : String) (n : ℕ) (xs : List String)
    → is_among xs j ≡ false
    → (is_among (take n xs) j ≡ false) × (is_among (drop n xs) j ≡ false)
neither j n xs h = ground (arith, any-take-drop (λ k. k == j) n xs)

after_first :
    (j : String) (n : ℕ) (xs : List String)
    → is_among xs j ≡ true
    → is_among (take n xs) j ≡ false
    → is_among (drop n xs) j ≡ true
after_first j n xs h e = ground (arith, any-take-drop (λ k. k == j) n xs)

length-drop : (n : ℕ) (xs : List String) → length (drop n xs) ≤ length xs
length-drop zero xs = omega arith
length-drop (suc n) [] = omega arith
length-drop (suc n) (x ∷ xs) = let h = length-drop n xs in omega arith

-- What is absent stays absent.
absent-delete :
    (k : String) (q : String → Bool) (xs : List String)
    → is_among xs k ≡ false
    → is_among (delete q xs) k ≡ false
unfolding any delete
absent-delete k q [] h = refl
absent-delete k q (x ∷ xs) h = ground (arith, absent-delete k q xs)

-- What is deleted is absent.
deleted-absent :
    (k : String) (q : String → Bool) (xs : List String)
    → q k ≡ true
    → is_among (delete q xs) k ≡ false
unfolding any delete
deleted-absent k q [] h = refl
deleted-absent k q (x ∷ xs) h = elim (Bool-cases (x == k)) [
  | inl same ↦ rw (ap q ((eq_iff x k).0 same) ∙ h) (deleted-absent k q xs h)
  | inr apart ↦ ground (arith, deleted-absent k q xs h)
]

-- A key that is not deleted keeps its place.
kept-delete :
    (k : String) (q : String → Bool) (xs : List String)
    → q k ≡ false
    → is_among (delete q xs) k ≡ is_among xs k
unfolding any delete
kept-delete k q [] h = refl
kept-delete k q (x ∷ xs) h = elim (Bool-cases (x == k)) [
  | inl same ↦ rw (ap q ((eq_iff x k).0 same) ∙ h, same) refl
  | inr apart ↦ ground (arith, kept-delete k q xs h)
]

module _ (f : DeleteFaults) where
  db-delete_chunk :
      (n : ℕ) (chunk : List String) (v : Vault) → (delete_chunk f n chunk v).1.db ≡ v.db
  unfolding delete_chunk
  db-delete_chunk n chunk v = ground arith

  -- The loop leaves the database alone, whether it fails or not.
  pub db-delete_chunks :
      (bound n : ℕ) (keys : List String) (v : Vault) → (delete_chunks bound f n keys v).1.db ≡ v.db
  unfolding delete_chunks
  db-delete_chunks zero n [] v = refl
  db-delete_chunks (suc bound) n [] v = refl
  db-delete_chunks zero n (k ∷ ks) v = refl
  db-delete_chunks (suc bound) n (k ∷ ks) v =
      keeps-bind (delete_chunk f n (take 1000 (k ∷ ks))) _ (λ (w : Vault). w.db ≡ v.db)
        (λ w e. db-delete_chunk n (take 1000 (k ∷ ks)) w ∙ e)
        (λ _ w e. db-delete_chunks bound (suc n) (drop 1000 (k ∷ ks)) w ∙ e) v refl

  absent-delete_chunk :
      (j : String) (n : ℕ) (chunk : List String) (v : Vault)
      → is_among v.bucket j ≡ false
      → is_among (delete_chunk f n chunk v).1.bucket j ≡ false
  unfolding delete_chunk
  absent-delete_chunk j n chunk v h = ground (
    arith,
    absent-delete j (is_among chunk) v.bucket h,
    absent-delete j (λ k. is_among chunk k && f.removes n k) v.bucket h,
  )

  pub absent-delete_chunks :
      (j : String) (bound n : ℕ) (keys : List String) (v : Vault)
      → is_among v.bucket j ≡ false
      → is_among (delete_chunks bound f n keys v).1.bucket j ≡ false
  unfolding delete_chunks
  absent-delete_chunks j zero n [] v h = h
  absent-delete_chunks j (suc bound) n [] v h = h
  absent-delete_chunks j zero n (k ∷ ks) v h = h
  absent-delete_chunks j (suc bound) n (k ∷ ks) v h =
      keeps-bind (delete_chunk f n (take 1000 (k ∷ ks))) _
        (λ (w : Vault). is_among w.bucket j ≡ false)
        (λ w e. absent-delete_chunk j n (take 1000 (k ∷ ks)) w e)
        (λ _ w e. absent-delete_chunks j bound (suc n) (drop 1000 (k ∷ ks)) w e) v h

  delete_chunk-removes :
      (j : String) (n : ℕ) (chunk : List String) (u : Unit {0}) (v w : Vault)
      → delete_chunk f n chunk v ≡ (ok u, w)
      → is_among chunk j ≡ true
      → is_among w.bucket j ≡ false
  unfolding delete_chunk
  delete_chunk-removes j n chunk u v w h among = elim (Bool-cases (f.fails n)) [
    | inl fails ↦ absurd (err-ne-ok _ u _ w (rw fails at h))
    | inr works ↦
        let (_, moved) =
          ok-injective tt u (record v { bucket = delete (is_among chunk) v.bucket }) w
            (rw works at h) in
        rw⁻¹ moved (deleted-absent j (is_among chunk) v.bucket among)
  ]

  -- A loop that succeeds, with calls enough, leaves none of the keys in the bucket.
  pub delete_chunks-removes :
      (j : String) (bound n : ℕ) (keys : List String) (u : Unit {0}) (v w : Vault)
      → delete_chunks bound f n keys v ≡ (ok u, w)
      → length keys ≤ bound
      → is_among keys j ≡ true
      → is_among w.bucket j ≡ false
  unfolding delete_chunks any
  delete_chunks-removes j bound n [] u v w h enough among = cc
  delete_chunks-removes j zero n (k ∷ ks) u v w h enough among = absurd (omega arith)
  delete_chunks-removes j (suc bound) n (k ∷ ks) u v w h enough among =
      let (a, mid, first, later) = bind-ok (delete_chunk f n (take 1000 (k ∷ ks))) _ v w u h in
      elim (Bool-cases (is_among (take 1000 (k ∷ ks)) j)) [
        | inl now ↦
            ap (λ r. is_among r.1.bucket j) (sym later)
            ∙ absent-delete_chunks j bound (suc n) (drop 1000 (k ∷ ks)) mid
                (delete_chunk-removes j n (take 1000 (k ∷ ks)) a v mid first now)
        | inr afterwards ↦
            delete_chunks-removes j bound (suc n) (drop 1000 (k ∷ ks)) u mid w later
              (shorter ks enough) (after_first j 1000 (k ∷ ks) among afterwards)
      ]
    where
      shorter : (ks : List String) → suc (length ks) ≤ suc bound → length (drop 999 ks) ≤ bound
      shorter ks h = let e = length-drop 999 ks in omega arith

  delete_chunk-keeps :
      (j : String) (n : ℕ) (chunk : List String) (v : Vault)
      → is_among chunk j ≡ false
      → is_among (delete_chunk f n chunk v).1.bucket j ≡ is_among v.bucket j
  unfolding delete_chunk
  delete_chunk-keeps j n chunk v h = ground (
    arith,
    kept-delete j (is_among chunk) v.bucket h,
    kept-delete j (λ k. is_among chunk k && f.removes n k) v.bucket (rw h refl),
  )

  -- The loop keeps every other key, whether it fails or not.
  pub delete_chunks-keeps :
      (j : String) (bound n : ℕ) (keys : List String) (v : Vault)
      → is_among keys j ≡ false
      → is_among (delete_chunks bound f n keys v).1.bucket j ≡ is_among v.bucket j
  unfolding delete_chunks
  delete_chunks-keeps j zero n [] v h = refl
  delete_chunks-keeps j (suc bound) n [] v h = refl
  delete_chunks-keeps j zero n (k ∷ ks) v h = refl
  delete_chunks-keeps j (suc bound) n (k ∷ ks) v h =
      let (now, later) = neither j 1000 (k ∷ ks) h in
      keeps-bind (delete_chunk f n (take 1000 (k ∷ ks))) _
        (λ (w : Vault). is_among w.bucket j ≡ is_among v.bucket j)
        (λ w e. delete_chunk-keeps j n (take 1000 (k ∷ ks)) w now ∙ e)
        (λ _ w e. delete_chunks-keeps j bound (suc n) (drop 1000 (k ∷ ks)) w later ∙ e) v refl

  delete_chunk-Fails :
      (n : ℕ) (chunk : List String)
      → Fails (app_error 503 deletion_incomplete) (delete_chunk f n chunk)
  unfolding delete_chunk
  delete_chunk-Fails n chunk v w x h = elim (Bool-cases (f.fails n)) [
    | inl fails ↦ sym (failure (rw fails at h))
    | inr works ↦ absurd (err-ne-ok x tt w _ (sym (rw works at h)))
  ]
    where
      failure :
          {y : Error} {a b : Vault} → Path (Result (Unit {0}) × Vault) (err y, a) (err x, b) → y ≡ x
      failure q = cc

  pub delete_chunks-Fails :
      (bound n : ℕ) (keys : List String)
      → Fails (app_error 503 deletion_incomplete) (delete_chunks bound f n keys)
  unfolding delete_chunks
  delete_chunks-Fails zero n [] v w x h = absurd (err-ne-ok x tt w v (sym h))
  delete_chunks-Fails (suc bound) n [] v w x h = absurd (err-ne-ok x tt w v (sym h))
  delete_chunks-Fails zero n (k ∷ ks) v w x h = absurd (err-ne-ok x tt w v (sym h))
  delete_chunks-Fails (suc bound) n (k ∷ ks) v w x h =
      bind-Fails (app_error 503 deletion_incomplete) (delete_chunk f n (take 1000 (k ∷ ks)))
        (λ _. delete_chunks bound f (suc n) (drop 1000 (k ∷ ks)))
        (delete_chunk-Fails n (take 1000 (k ∷ ks)))
        (λ _. delete_chunks-Fails bound (suc n) (drop 1000 (k ∷ ks))) v w x h

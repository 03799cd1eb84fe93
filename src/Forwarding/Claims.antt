-- ===== src/Forwarding/Claims.antt =====
-- What a claim grants, and which rows no operation changes.
use mail_gable.Base.{
  ℕ, String, Bool, true, false, List, [], ◌∷◌, ◌==◌, ◌≡◌, refl, ◌∙◌, not, ◌&&◌, arith, any,
  any-append, count, update, inl, inr, Bool-cases, eq_iff,
}
use mail_gable.Store.Tables.{ForwardAttempt}
use mail_gable.Forwarding.Defs.{is_attempt, ensure_attempt_rows, ensure_row, new_attempt}

-- The row of the message and the target, if there is one, is in this class.
abbrev pub AllRows : (ForwardAttempt → Bool) → String → String → List ForwardAttempt → Type 0
AllRows p message target rows = any (λ a. is_attempt message target a && not (p a)) rows ≡ false

module _ (message target : String) (p : ForwardAttempt → Bool) where
  any-update_apart :
      (q : ForwardAttempt → Bool) (f : ForwardAttempt → ForwardAttempt) (rows : List ForwardAttempt)
      → ((a : ForwardAttempt) → is_attempt message target (f a) ≡ is_attempt message target a)
      → ((a : ForwardAttempt)
          → is_attempt message target a ≡ true
          → p a ≡ true
          → q a ≡ true
          → p (f a) ≡ true)
      → AllRows p message target rows
      → AllRows p message target (update q f rows)
  unfolding any update
  any-update_apart q f [] key keeps h = refl
  any-update_apart q f (a ∷ rows) key keeps h =
      ground (arith, key a, keeps a, any-update_apart q f rows key keeps)

-- The table has a row of the message and the target, and it is in this class.
abbrev pub HasRow : (ForwardAttempt → Bool) → String → String → List ForwardAttempt → Type 0
HasRow p message target rows =
    (any (is_attempt message target) rows ≡ true) × AllRows p message target rows

any-update_key :
    (message target : String) (q : ForwardAttempt → Bool) (f : ForwardAttempt → ForwardAttempt)
    (rows : List ForwardAttempt)
    → ((a : ForwardAttempt) → is_attempt message target (f a) ≡ is_attempt message target a)
    → any (is_attempt message target) (update q f rows) ≡ any (is_attempt message target) rows
unfolding any update
any-update_key message target q f [] key = refl
any-update_key message target q f (a ∷ rows) key =
    ground (arith, key a, any-update_key message target q f rows key)

-- A key that the table has is not a key that it lacks.
apart_key :
    (message target m t : String) (rows : List ForwardAttempt)
    → any (is_attempt message target) rows ≡ true
    → any (is_attempt m t) rows ≡ false
    → ((m == message) && (t == target)) ≡ false
apart_key message target m t rows there lacks =
    elim (Bool-cases ((m == message) && (t == target))) [
      | inr apart ↦ apart
      | inl same ↦
          let p : m ≡ message = (eq_iff m message).0 (ground arith) in
          let q : t ≡ target = (eq_iff t target).0 (ground arith) in
          let has : any (is_attempt m t) rows ≡ true = rw (p, q) there in cc
    ]

module _ (message target : String) (p : ForwardAttempt → Bool) where
  pub count-none :
      (q : ForwardAttempt → Bool) (rows : List ForwardAttempt)
      → ((a : ForwardAttempt) → q a ≡ true → (is_attempt message target a ≡ true) × (p a ≡ false))
      → AllRows p message target rows
      → count q rows ≡ 0
  unfolding any count
  count-none q [] key h = refl
  count-none q (a ∷ rows) key h = ground (arith, key a, count-none q rows key)

  pub ensure_attempt_rows-HasRow :
      (m : String) (ts : List String) (at : ℕ) (rows : List ForwardAttempt)
      → HasRow p message target rows
      → HasRow p message target (ensure_attempt_rows m ts at rows)
  unfolding ensure_attempt_rows any
  ensure_attempt_rows-HasRow m [] at rows h = h
  ensure_attempt_rows-HasRow m (t ∷ ts) at rows (there, h) =
      ensure_attempt_rows-HasRow m ts at (ensure_row m t at rows) (ensured there h)
    where
      ensured :
          any (is_attempt message target) rows ≡ true
          → AllRows p message target rows
          → HasRow p message target (ensure_row m t at rows)
      ensured there h = elim (Bool-cases (any (is_attempt m t) rows)) [
        | inl has ↦ rw has (there, h)
        | inr lacks ↦ rw lacks (
          any-append (is_attempt message target) rows (new_attempt m t at ∷ []) ∙ rw there refl,
          any-append (λ a. is_attempt message target a && not (p a)) rows (new_attempt m t at ∷ [])
              ∙ rw (h, apart_key message target m t rows there lacks) refl,
        )
      ]

  pub update-HasRow :
      (q : ForwardAttempt → Bool) (f : ForwardAttempt → ForwardAttempt) (rows : List ForwardAttempt)
      → ((a : ForwardAttempt) → is_attempt message target (f a) ≡ is_attempt message target a)
      → ((a : ForwardAttempt)
          → is_attempt message target a ≡ true
          → p a ≡ true
          → q a ≡ true
          → p (f a) ≡ true)
      → HasRow p message target rows
      → HasRow p message target (update q f rows)
  update-HasRow q f rows key keeps (there, h) = (
    any-update_key message target q f rows key ∙ there,
    any-update_apart message target p q f rows key keeps h,
  )

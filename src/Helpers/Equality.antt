-- ===== src/Helpers/Equality.antt =====
-- timingSafeEqual compares bytes, and finds every difference.
use Prim.Native.Nat.{bit_or, bit_xor, max, differ, digits, bit_or-bitwise, bit_xor-bitwise}
use Prim.Native.Char.{code}
use text.Mathlib.TextEquality.{Char-path}
use mail_gable.Base.{
  ◌++◌, ◌↔◌, ℕ, zero, suc, ◌/◌, ◌%◌, ◌≤◌, ◌≡◌, refl, List, [], ◌∷◌, true, sym, ◌∙◌, arith, eqb,
  length, String,
}
use mail_gable.Helpers.Bytes.{difference, timing_safe_equal, encode, utf8_char}

abbrev or_digits : ℕ → ℕ → ℕ → ℕ
or_digits n a b = digits (λ b. b) max n a b

abbrev xor_digits : ℕ → ℕ → ℕ → ℕ
xor_digits n a b = digits (λ b. b) differ n a b

differ-zero : (x y : ℕ) → differ x y ≡ 0 → x ≡ y
differ-zero zero y h = omega arith
differ-zero (suc x) zero h = absurd (omega arith)
differ-zero (suc x) (suc y) h = let e = differ-zero x y h in omega arith

differ_self : (x : ℕ) → differ x x ≡ 0
differ_self zero = refl
differ_self (suc x) = differ_self x

or_digits-zero : (n a b : ℕ) → a ≤ n → or_digits n a b ≡ 0 → (a ≡ 0) × (b ≡ 0)
or_digits-zero zero zero b h e = (refl, e)
or_digits-zero zero (suc a) b h e = absurd (omega arith)
or_digits-zero (suc n) zero b h e = (refl, e)
or_digits-zero (suc n) (suc a) b h e =
    let (p, q) = or_digits-zero n (suc a / 2) (b / 2) (omega arith) (omega arith) in
    (omega arith, omega arith)

xor_digits-zero : (n a b : ℕ) → a ≤ n → xor_digits n a b ≡ 0 → a ≡ b
xor_digits-zero zero zero b h e = omega arith
xor_digits-zero zero (suc a) b h e = absurd (omega arith)
xor_digits-zero (suc n) zero b h e = omega arith
xor_digits-zero (suc n) (suc a) b h e =
    let p = xor_digits-zero n (suc a / 2) (b / 2) (omega arith) (omega arith) in
    let q = differ-zero (suc a % 2) (b % 2) (omega arith) in omega arith

xor_digits_self : (n a : ℕ) → a ≤ n → xor_digits n a a ≡ 0
xor_digits_self zero zero h = refl
xor_digits_self zero (suc a) h = absurd (omega arith)
xor_digits_self (suc n) zero h = refl
xor_digits_self (suc n) (suc a) h =
    omega (arith, xor_digits_self n (suc a / 2) (omega arith), differ_self (suc a % 2))

bit_or-zero : (a b : ℕ) → bit_or a b ≡ 0 → (a ≡ 0) × (b ≡ 0)
bit_or-zero a b h = or_digits-zero a a b (omega arith) (sym (bit_or-bitwise a b) ∙ h)

bit_xor-zero : (a b : ℕ) → bit_xor a b ≡ 0 → a ≡ b
bit_xor-zero a b h = xor_digits-zero a a b (omega arith) (sym (bit_xor-bitwise a b) ∙ h)

bit_xor_self : (a : ℕ) → bit_xor a a ≡ 0
bit_xor_self a = bit_xor-bitwise a a ∙ xor_digits_self a a (omega arith)

-- Where the lengths agree, the loop ends with 0 exactly for equal bytes and a start from 0.
difference-zero :
    (d : ℕ) (as' bs : List ℕ)
    → length as' ≡ length bs
    → difference d as' bs ≡ 0
    → (d ≡ 0) × (as' ≡ bs)
unfolding difference
difference-zero d [] [] l h = (h, refl)
difference-zero d [] (b ∷ bs) l h = absurd (omega arith)
difference-zero d (a ∷ as') [] l h = absurd (omega arith)
difference-zero d (a ∷ as') (b ∷ bs) l h =
    let (p, q) = difference-zero (bit_or d (bit_xor a b)) as' bs (omega arith) h in
    let (e, x) = bit_or-zero d (bit_xor a b) p in (e, ap2 (bit_xor-zero a b x) q)
  where
    ap2 : a ≡ b → as' ≡ bs → Path (List ℕ) (a ∷ as') (b ∷ bs)
    ap2 e q = cc

difference_self : (bs : List ℕ) → difference 0 bs bs ≡ 0
unfolding difference
difference_self [] = refl
difference_self (b ∷ bs) = rw (bit_xor_self b) (difference_self bs)

difference_start : (as' bs : List ℕ) (d : ℕ) → difference d as' bs ≡ 0 → d ≡ 0
unfolding difference
difference_start [] [] d h = h
difference_start [] (b ∷ bs) d h = (bit_or-zero d (bit_xor 0 b) (difference_start [] bs _ h)).0
difference_start (a ∷ as') [] d h = (bit_or-zero d (bit_xor a 0) (difference_start as' [] _ h)).0
difference_start (a ∷ as') (b ∷ bs) d h =
    (bit_or-zero d (bit_xor a b) (difference_start as' bs _ h)).0

-- No code point's bytes begin with those of another.
utf8_char-prefix :
    (c d : ℕ) (xs ys : List ℕ)
    → Path (List ℕ) (utf8_char c ++ xs) (utf8_char d ++ ys)
    → (c ≡ d) × (xs ≡ ys)
utf8_char-prefix c d xs ys h = ground arith

encode-inj : (s t : String) → encode s ≡ encode t → s ≡ t
unfolding encode
encode-inj String.[] String.[] h = refl
encode-inj String.[] (String.◌∷◌ d t) h = ground arith
encode-inj (String.◌∷◌ c s) String.[] h = ground arith
encode-inj (String.◌∷◌ c s) (String.◌∷◌ d t) h =
    let (e, rest) = utf8_char-prefix (code c) (code d) (encode s) (encode t) h in
    let p = Char-path c d e in let q = encode-inj s t rest in cc

eqb-zero : (n : ℕ) → eqb n 0 ≡ true → n ≡ 0
eqb-zero n h = ground arith

-- timingSafeEqual, which looks at every byte, decides the equality of two texts.
pub timing_safe_equal_iff : (a b : String) → (timing_safe_equal a b ≡ true) ↔ (a ≡ b)
unfolding timing_safe_equal
timing_safe_equal_iff a b = (
  λ h.
      let zero_all =
        eqb-zero
          (difference (bit_xor (length (encode a)) (length (encode b))) (encode a) (encode b)) h in
      let start = difference_start (encode a) (encode b) _ zero_all in
      encode-inj a b (difference-zero _ (encode a) (encode b) (bit_xor-zero _ _ start) zero_all).1,
  λ e. rw e (rw (bit_xor_self (length (encode b))) (rw (difference_self (encode b)) refl)),
)

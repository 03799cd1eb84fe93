-- ===== src/Webhooks/Signed.antt =====
-- What a signature proves, and the bound of a body.
use Prim.Native.String.{◌++◌ as joined}
use mail_gable.Base.{
  some, none, eq_refl, ℕ, ◌+◌, ◌≤◌, String, Bool, true, false, Option, List, [], ◌∷◌, ◌++◌, ◌==◌,
  ◌≡◌, refl, ◌∙◌, sym, ap, ◌||◌, arith, ltb, subst, or_else, any, length, inl, inr, Bool-cases,
}
use mail_gable.Store.Effects.{app_error, body_too_large, Result, ok, err}
use mail_gable.Store.Inversion.{result_or}
use mail_gable.Helpers.{bytes_to_base64, parse_int, base64_url_to_bytes}
use mail_gable.Webhooks.Parts.{after_prefix}
use mail_gable.Webhooks.Handlers.{
  same_codes, codes_of, split_entries, entry_value, is_signed, SvixHeaders, is_far, signature_of,
  check_entries, verify_svix_signature, read_chunks, read_text_limited,
}

module _ (hmac : List ℕ → String → List ℕ) where
  -- What a valid signature shows: an id, a time within five minutes, and an entry of the header
  -- whose value of version "v1" is, in Base64, the MAC of the id, the time and the body, joined by
  -- dots, under the secret.
  abbrev pub IsSigned : String → SvixHeaders → String → ℕ → List ℕ → String → String → Type 0
  IsSigned raw h secret now bytes entry value =
      ((h.svix_id == "") ≡ false)
      × (is_far now (parse_int h.svix_timestamp) ≡ false)
      × (base64_url_to_bytes (codes_of (or_else (after_prefix "whsec_" secret) secret)) ≡ ok bytes)
      × (any (λ e. e == entry) (split_entries "" h.svix_signature) ≡ true)
      × (entry_value entry ≡ some value)
      × (codes_of value
          ≡ bytes_to_base64 (
              hmac bytes
                (joined h.svix_id (joined "." (joined h.svix_timestamp (joined "." raw))))))

  same_codes-eq : (xs ys : List ℕ) → same_codes xs ys ≡ true → xs ≡ ys
  same_codes-eq [] [] h = refl
  same_codes-eq [] (y ∷ ys) h = cc
  same_codes-eq (x ∷ xs) [] h = cc
  same_codes-eq (x ∷ xs) (y ∷ ys) h = ground (arith, same_codes-eq xs ys)

  is_signed-eq :
      (expected : List ℕ) (value : Option String)
      → is_signed expected value ≡ true
      → (text : String) × (value ≡ some text) × (codes_of text ≡ expected)
  is_signed-eq expected none h = cc
  is_signed-eq expected (some text) h =
      (text, refl, same_codes-eq (codes_of text) expected (ground arith))

  found_entry :
      (p : String → Bool) (entries : List String)
      → any p entries ≡ true
      → (entry : String) × (any (λ e. e == entry) entries ≡ true) × (p entry ≡ true)
  unfolding any
  found_entry p [] h = cc
  found_entry p (e ∷ es) h = elim (Bool-cases (p e)) [
    | inl here ↦ (e, rw (eq_refl e) refl, here)
    | inr other ↦
        let (entry, among, fits) = found_entry p es (rw other at h) in (entry, ground arith, fits)
  ]

  check_entries-ok :
      (h : SvixHeaders) (raw : String) (r : Result (List ℕ))
      → check_entries hmac h raw r ≡ ok true
      → (bytes : List ℕ) × (r ≡ ok bytes)
        × (any
              (λ entry. is_signed (signature_of hmac h raw bytes) (entry_value entry))
              (split_entries "" h.svix_signature)
            ≡ true)
  check_entries-ok h raw (err e) p = cc
  check_entries-ok h raw (ok bytes) p = (bytes, refl, ap (result_or true) p)

  -- A webhook passes only with an id, a time within five minutes of the clock, and a signature of
  -- version "v1" that is the MAC, under the secret, of exactly its id, its time and its body.
  pub verify_svix_signature-ok :
      (raw : String) (h : SvixHeaders) (secret : String) (now : ℕ)
      → verify_svix_signature hmac raw h secret now ≡ ok true
      → (bytes : List ℕ) × (entry : String) × (value : String) × IsSigned raw h secret now bytes
          entry value
  unfolding verify_svix_signature
  verify_svix_signature-ok raw h secret now p =
      elim (Bool-cases (
        (h.svix_id == "") || is_far now (parse_int h.svix_timestamp) || (h.svix_signature == ""))) [
          | inl bare ↦ absurd (refused (rw bare at p))
          | inr sent ↦
              let (bytes, e, found) =
                check_entries-ok h raw
                  (base64_url_to_bytes (codes_of (or_else (after_prefix "whsec_" secret) secret)))
                  (rw sent at p) in
              let (entry, among, fits) =
                found_entry (λ x. is_signed (signature_of hmac h raw bytes) (entry_value x))
                  (split_entries "" h.svix_signature) found in
              let (value, is_value, same) = is_signed-eq _ (entry_value entry) fits in
              (bytes, entry, value, (ground arith, ground arith, e, among, is_value, same))
        ]
    where
      refused : Path (Result Bool) (ok false) (ok true) → ⊥
      refused q = cc

-- the body behind what has been read
unfoldable pub join_chunks : List (List ℕ) → List ℕ
join_chunks [] = []
join_chunks (c ∷ cs) = c ++ join_chunks cs

length-append : (xs ys : List ℕ) → length (xs ++ ys) ≡ length xs + length ys
length-append [] ys = ground arith
length-append (x ∷ xs) ys = ground (arith, length-append xs ys)

append_nil : (xs : List ℕ) → xs ++ [] ≡ xs
append_nil [] = refl
append_nil (x ∷ xs) = ap (λ r. x ∷ r) (append_nil xs)

append_assoc : (xs ys zs : List ℕ) → (xs ++ ys) ++ zs ≡ xs ++ (ys ++ zs)
append_assoc [] ys zs = refl
append_assoc (x ∷ xs) ys zs = ap (λ r. x ∷ r) (append_assoc xs ys zs)

read_chunks-ok :
    (max : ℕ) (seen : List ℕ) (cs : List (List ℕ)) (body : List ℕ)
    → length seen ≤ max
    → read_chunks max seen cs ≡ ok body
    → (body ≡ seen ++ join_chunks cs) × (length body ≤ max)
unfolding read_chunks join_chunks
read_chunks-ok max seen [] body fits p =
    let same : seen ≡ body = ap (result_or body) p in
    (sym same ∙ sym (append_nil seen), subst (λ x. length x ≤ max) same fits)
read_chunks-ok max seen (c ∷ cs) body fits p =
    elim (Bool-cases (ltb max (length seen + length c))) [
      | inl over ↦ absurd (too_large (rw over at p))
      | inr under ↦
          let (same, bound) =
            read_chunks-ok max (seen ++ c) cs body (rw (length-append seen c) (ground arith))
              (rw under at p) in
          (same ∙ append_assoc seen c (join_chunks cs), bound)
    ]
  where
    too_large : Path (Result (List ℕ)) (err (app_error 413 body_too_large)) (ok body) → ⊥
    too_large q = cc

-- A body that is read is whole, and no longer than the bound, in however many chunks it comes.
pub read_text_limited-ok :
    (max : ℕ) (declared : Option ℕ) (chunks : List (List ℕ)) (body : List ℕ)
    → read_text_limited max declared chunks ≡ ok body
    → (body ≡ join_chunks chunks) × (length body ≤ max)
unfolding read_text_limited
read_text_limited-ok max declared chunks body p = elim (Bool-cases (ltb max (or_else declared 0))) [
  | inl over ↦ absurd (too_large (rw over at p))
  | inr under ↦ read_chunks-ok max [] chunks body (ground arith) (rw under at p)
]
  where
    too_large : Path (Result (List ℕ)) (err (app_error 413 body_too_large)) (ok body) → ⊥
    too_large q = cc

-- ===== src/Helpers/RoundTrip.antt =====
-- base64UrlToBytes reads what base64Url has written.
use mail_gable.Base.{
  ℕ, zero, suc, ◌+◌, ◌-◌, ◌*◌, ◌/◌, ◌%◌, ◌<◌, ◌≤◌, true, false, some, List, [], ◌∷◌, ◌++◌, ◌≡◌,
  refl, ◌∙◌, ap, arith, map, not, ltb, eqb, length, where_rows, all, inl, inr, Bool-cases,
}
use mail_gable.Store.Effects.{ok}
use mail_gable.Helpers.Base64.{
  sextet_code, code_sextet, bytes_to_base64, is_padding, strip_padding, to_url, from_url,
  base64_url, sextets, join_sextets, drop_padding, is_blank, decoded, join_all, cons_sextet,
  cons_bytes, base64_to_bytes, padding, base64_url_to_bytes,
}

-- the groups of six bits of the bytes
unfoldable groups : List ℕ → List ℕ
groups [] = []
groups (a ∷ []) = (a / 4) ∷ (a % 4 * 16) ∷ []
groups (a ∷ b ∷ []) = (a / 4) ∷ (a % 4 * 16 + b / 16) ∷ (b % 16 * 4) ∷ []
groups (a ∷ b ∷ c ∷ rest) =
    (a / 4) ∷ (a % 4 * 16 + b / 16) ∷ (b % 16 * 4 + c / 64) ∷ (c % 64) ∷ groups rest

abbrev url_code : ℕ → ℕ
url_code n = to_url (sextet_code n)

url_code-padding : (n : ℕ) → is_padding (url_code n) ≡ false
url_code-padding n = ground arith

from-url_code : (n : ℕ) → from_url (url_code n) ≡ sextet_code n
from-url_code n = ground arith

sextet_code-padding : (n : ℕ) → is_padding (sextet_code n) ≡ false
sextet_code-padding n = ground arith

sextet_code-blank : (n : ℕ) → is_blank (sextet_code n) ≡ false
sextet_code-blank n = ground arith

code_sextet-sextet_code : (n : ℕ) → n < 64 → code_sextet (sextet_code n) ≡ some n
code_sextet-sextet_code n h = ground arith

strip_padding-cons :
    (c : ℕ) (cs : List ℕ) → is_padding c ≡ false → strip_padding (c ∷ cs) ≡ c ∷ strip_padding cs
unfolding strip_padding
strip_padding-cons c cs h = rw h refl

base64_url-groups : (bs : List ℕ) → base64_url bs ≡ map url_code (groups bs)
unfolding base64_url bytes_to_base64 groups strip_padding
base64_url-groups [] = refl
base64_url-groups (a ∷ []) = rw (url_code-padding (a / 4), url_code-padding (a % 4 * 16)) refl
base64_url-groups (a ∷ b ∷ []) =
    rw
      (
        url_code-padding (a / 4),
        url_code-padding (a % 4 * 16 + b / 16),
        url_code-padding (b % 16 * 4),
      )
      refl
base64_url-groups (a ∷ b ∷ c ∷ rest) =
    rw
      (
        url_code-padding (a / 4),
        url_code-padding (a % 4 * 16 + b / 16),
        url_code-padding (b % 16 * 4 + c / 64),
        url_code-padding (c % 64),
      )
      (ap
        (λ xs.
          url_code (a / 4)
          ∷ url_code (a % 4 * 16 + b / 16)
          ∷ url_code (b % 16 * 4 + c / 64)
          ∷ url_code (c % 64)
          ∷ xs)
        (base64_url-groups rest))

map-from_url : (ns : List ℕ) → map from_url (map url_code ns) ≡ map sextet_code ns
map-from_url [] = refl
map-from_url (n ∷ ns) =
    ap (λ x. x ∷ map from_url (map url_code ns)) (from-url_code n)
    ∙ ap (λ xs. sextet_code n ∷ xs) (map-from_url ns)

where_rows-padding : (k : ℕ) → where_rows (λ c. not (is_blank c)) (padding k) ≡ padding k
unfolding where_rows padding
where_rows-padding zero = refl
where_rows-padding (suc k) = ap (λ xs. b'=' ∷ xs) (where_rows-padding k)

where_rows-codes :
    (ns : List ℕ) (k : ℕ)
    → where_rows (λ c. not (is_blank c)) (map sextet_code ns ++ padding k)
      ≡ map sextet_code ns ++ padding k
unfolding where_rows
where_rows-codes [] k = where_rows-padding k
where_rows-codes (n ∷ ns) k =
    rw (sextet_code-blank n) (ap (λ xs. sextet_code n ∷ xs) (where_rows-codes ns k))

length-padding : (k : ℕ) → length (padding k) ≡ k
unfolding padding
length-padding zero = refl
length-padding (suc k) = ground (arith, length-padding k)

length-codes : (ns : List ℕ) (k : ℕ) → length (map sextet_code ns ++ padding k) ≡ length ns + k
length-codes [] k = ground (arith, length-padding k)
length-codes (n ∷ ns) k = ground (arith, length-codes ns k)

drop_padding-cons :
    (c : ℕ) (cs : List ℕ) → is_padding c ≡ false → drop_padding (c ∷ cs) ≡ c ∷ drop_padding cs
unfolding drop_padding
drop_padding-cons c [] h = rw h refl
drop_padding-cons c (d ∷ []) h =
    rw h (elim (Bool-cases (is_padding d)) [ inl pad ↦ rw pad refl | inr code' ↦ rw code' refl ])
drop_padding-cons c (d ∷ e ∷ r) h = refl

drop_padding-codes :
    (ns : List ℕ) (k : ℕ)
    → k ≤ 2
    → drop_padding (map sextet_code ns ++ padding k) ≡ map sextet_code ns
unfolding drop_padding padding
drop_padding-codes [] zero h = refl
drop_padding-codes [] (suc zero) h = refl
drop_padding-codes [] (suc (suc zero)) h = refl
drop_padding-codes [] (suc (suc (suc k))) h = absurd (ground arith)
drop_padding-codes (n ∷ ns) k h =
    drop_padding-cons (sextet_code n) (map sextet_code ns ++ padding k) (sextet_code-padding n)
    ∙ ap (λ xs. sextet_code n ∷ xs) (drop_padding-codes ns k h)

sextets-codes :
    (ns : List ℕ) → all (λ n. ltb n 64) ns ≡ true → sextets (map sextet_code ns) ≡ some ns
unfolding sextets all
sextets-codes [] h = refl
sextets-codes (n ∷ ns) h =
    ap (λ o. cons_sextet o (sextets (map sextet_code ns)))
      (code_sextet-sextet_code n (ground arith))
    ∙ ap (cons_sextet (some n)) (sextets-codes ns (ground arith))

abbrev pub AreBytes : List ℕ → Type 0
AreBytes bs = all (λ b. ltb b 256) bs ≡ true

groups-small : (bs : List ℕ) → AreBytes bs → all (λ n. ltb n 64) (groups bs) ≡ true
unfolding groups all
groups-small [] h = refl
groups-small (a ∷ []) h = ground arith
groups-small (a ∷ b ∷ []) h = ground arith
groups-small (a ∷ b ∷ c ∷ rest) h = ground (arith, groups-small rest)

byte_of_one : (a : ℕ) → a < 256 → a / 4 * 4 + a % 4 * 16 / 16 ≡ a
byte_of_one a h = omega arith

first_byte : (a b : ℕ) → b < 256 → a / 4 * 4 + (a % 4 * 16 + b / 16) / 16 ≡ a
first_byte a b h = omega arith

second_byte :
    (a b c : ℕ)
    → b < 256
    → c < 256
    → (a % 4 * 16 + b / 16) % 16 * 16 + (b % 16 * 4 + c / 64) / 4 ≡ b
second_byte a b c h k = omega arith

last_byte : (a b : ℕ) → b < 256 → (a % 4 * 16 + b / 16) % 16 * 16 + b % 16 * 4 / 4 ≡ b
last_byte a b h = omega arith

third_byte : (b c : ℕ) → c < 256 → (b % 16 * 4 + c / 64) % 4 * 64 + c % 64 ≡ c
third_byte b c h = omega arith

join_sextets-groups : (bs : List ℕ) → AreBytes bs → join_sextets (groups bs) ≡ some bs
unfolding groups join_sextets all
join_sextets-groups [] h = refl
join_sextets-groups (a ∷ []) h = ap (λ x. some (x ∷ [])) (byte_of_one a (ground arith))
join_sextets-groups (a ∷ b ∷ []) h =
    let x = first_byte a b (ground arith) in let y = last_byte a b (ground arith) in cc
join_sextets-groups (a ∷ b ∷ c ∷ rest) h =
    let x = first_byte a b (ground arith) in
    let y = second_byte a b c (ground arith) (ground arith) in
    let z = third_byte b c (ground arith) in
    ap
      (cons_bytes (a / 4 * 4 + (a % 4 * 16 + b / 16) / 16)
        ((a % 4 * 16 + b / 16) % 16 * 16 + (b % 16 * 4 + c / 64) / 4)
        ((b % 16 * 4 + c / 64) % 4 * 64 + c % 64))
      (join_sextets-groups rest (ground arith))
    ∙ cc

groups-length : (bs : List ℕ) → (4 - length (groups bs) % 4) % 4 ≤ 2
unfolding groups
groups-length [] = ground arith
groups-length (a ∷ []) = ground arith
groups-length (a ∷ b ∷ []) = ground arith
groups-length (a ∷ b ∷ c ∷ rest) = ground (arith, groups-length rest)

length-map : (ns : List ℕ) → length (map sextet_code ns) ≡ length ns
length-map [] = refl
length-map (n ∷ ns) = ap suc (length-map ns)

full_length : (n k : ℕ) → k ≡ (4 - n % 4) % 4 → eqb ((n + k) % 4) 0 ≡ true
full_length n k h = ground arith

read-groups :
    (ns : List ℕ) (k : ℕ)
    → k ≡ (4 - length ns % 4) % 4
    → k ≤ 2
    → base64_to_bytes (map sextet_code ns ++ padding k)
      ≡ decoded (join_all (sextets (map sextet_code ns)))
unfolding base64_to_bytes
read-groups ns k e few =
    let whole : eqb (length (map sextet_code ns ++ padding k) % 4) 0 ≡ true =
      ap (λ n. eqb (n % 4) 0) (length-codes ns k) ∙ full_length (length ns) k e in
    rw (where_rows-codes ns k, whole, drop_padding-codes ns k few) refl

-- What base64Url writes for a sequence of bytes base64UrlToBytes reads as these bytes again.
pub base64_url_to_bytes-base64_url :
    (bs : List ℕ) → AreBytes bs → base64_url_to_bytes (base64_url bs) ≡ ok bs
unfolding base64_url_to_bytes
base64_url_to_bytes-base64_url bs h =
    let standard : map from_url (base64_url bs) ≡ map sextet_code (groups bs) =
      ap (map from_url) (base64_url-groups bs) ∙ map-from_url (groups bs) in
    let same : length (map sextet_code (groups bs)) ≡ length (groups bs) = length-map (groups bs) in
    ap (λ x. base64_to_bytes (x ++ padding ((4 - length x % 4) % 4))) standard
    ∙ read-groups (groups bs) ((4 - length (map sextet_code (groups bs)) % 4) % 4)
        (ap (λ n. (4 - n % 4) % 4) same) (rw same (groups-length bs))
    ∙ ap (λ o. decoded (join_all o)) (sextets-codes (groups bs) (groups-small bs h))
    ∙ ap decoded (join_sextets-groups bs h)

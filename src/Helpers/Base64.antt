-- ===== src/Helpers/Base64.antt =====
-- bytesToBase64, base64ToBytes, base64Url and base64UrlToBytes. A Base64 text is the list of the
-- codes of its characters. btoa and atob are those of the HTML standard.
use mail_gable.Base.{
  ℕ, zero, suc, ◌+◌, ◌-◌, ◌*◌, ◌/◌, ◌%◌, Bool, Option, none, some, List, [], ◌∷◌, ◌++◌, map, not,
  ◌&&◌, ◌||◌, ltb, eqb, if◌then◌else◌, length, where_rows,
}
use mail_gable.Store.Effects.{Result, ok, err, app_error, invalid_attachment}

-- the character of six bits
abbrev pub sextet_code : ℕ → ℕ
sextet_code n =
    if ltb n 26
    then b'A' + n
    else if ltb n 52
    then 71 + n
    else if ltb n 62
    then n - 4
    else if ltb n 63
    then b'+'
    else b'/'

-- the six bits of a character
abbrev pub code_sextet : ℕ → Option ℕ
code_sextet c =
    if ltb (b'A' - 1) c && ltb c (b'Z' + 1)
    then some (c - b'A')
    else if ltb (b'a' - 1) c && ltb c (b'z' + 1)
    then some (c - 71)
    else if ltb (b'0' - 1) c && ltb c (b'9' + 1)
    then some (c + 4)
    else if eqb c b'+'
    then some 62
    else if eqb c b'/'
    then some 63
    else none

-- btoa of the characters of the bytes
unfoldable pub bytes_to_base64 : List ℕ → List ℕ
bytes_to_base64 [] = []
bytes_to_base64 (a ∷ []) = sextet_code (a / 4) ∷ sextet_code (a % 4 * 16) ∷ b'=' ∷ b'=' ∷ []
bytes_to_base64 (a ∷ b ∷ []) =
    sextet_code (a / 4) ∷ sextet_code (a % 4 * 16 + b / 16) ∷ sextet_code (b % 16 * 4) ∷ b'=' ∷ []
bytes_to_base64 (a ∷ b ∷ c ∷ rest) =
    sextet_code (a / 4)
    ∷ sextet_code (a % 4 * 16 + b / 16)
    ∷ sextet_code (b % 16 * 4 + c / 64)
    ∷ sextet_code (c % 64)
    ∷ bytes_to_base64 rest

abbrev pub is_padding : ℕ → Bool
is_padding c = eqb c b'='

abbrev pub is_empty : List ℕ → Bool
is_empty [] = Bool.true
is_empty (x ∷ xs) = Bool.false

-- .replace(/=+$/g, "")
unfoldable pub strip_padding : List ℕ → List ℕ
strip_padding [] = []
strip_padding (c ∷ cs) =
    let rest = strip_padding cs in if is_padding c && is_empty rest then [] else c ∷ rest

-- "+" and "/" as "-" and "_"
abbrev pub to_url : ℕ → ℕ
to_url c = if eqb c b'+' then b'-' else if eqb c b'/' then b'_' else c

abbrev pub from_url : ℕ → ℕ
from_url c = if eqb c b'-' then b'+' else if eqb c b'_' then b'/' else c

unfoldable pub base64_url : List ℕ → List ℕ
unfolding strip_padding bytes_to_base64
base64_url bytes = strip_padding (map to_url (bytes_to_base64 bytes))

abbrev pub cons_sextet : Option ℕ → Option (List ℕ) → Option (List ℕ)
cons_sextet none rest = none
cons_sextet (some n) none = none
cons_sextet (some n) (some ns) = some (n ∷ ns)

-- the sextets of the characters, if each of them is of the alphabet
unfoldable pub sextets : List ℕ → Option (List ℕ)
sextets [] = some []
sextets (c ∷ cs) = cons_sextet (code_sextet c) (sextets cs)

abbrev pub cons_bytes : ℕ → ℕ → ℕ → Option (List ℕ) → Option (List ℕ)
cons_bytes a b c none = none
cons_bytes a b c (some bytes) = some (a ∷ b ∷ c ∷ bytes)

-- the bytes of the sextets; one sextet alone is an error
unfoldable pub join_sextets : List ℕ → Option (List ℕ)
join_sextets [] = some []
join_sextets (p ∷ []) = none
join_sextets (p ∷ q ∷ []) = some ((p * 4 + q / 16) ∷ [])
join_sextets (p ∷ q ∷ r ∷ []) = some ((p * 4 + q / 16) ∷ (q % 16 * 16 + r / 4) ∷ [])
join_sextets (p ∷ q ∷ r ∷ s ∷ rest) =
    cons_bytes (p * 4 + q / 16) (q % 16 * 16 + r / 4) (r % 4 * 64 + s) (join_sextets rest)

-- at most two "=" at the end
unfoldable pub drop_padding : List ℕ → List ℕ
drop_padding [] = []
drop_padding (c ∷ []) = if is_padding c then [] else c ∷ []
drop_padding (c ∷ d ∷ []) =
    if is_padding d then (if is_padding c then [] else c ∷ []) else c ∷ d ∷ []
drop_padding (c ∷ d ∷ e ∷ rest) = c ∷ drop_padding (d ∷ e ∷ rest)

abbrev pub is_blank : ℕ → Bool
is_blank c = eqb c 32 || (ltb 8 c && ltb c 14)

abbrev pub decoded : Option (List ℕ) → Result (List ℕ)
decoded none = err (app_error 400 invalid_attachment)
decoded (some bytes) = ok bytes

abbrev pub join_all : Option (List ℕ) → Option (List ℕ)
join_all none = none
join_all (some ns) = join_sextets ns

-- atob behind value.replace(/\s/g, ""), of which only the white space of ASCII is modelled
unfoldable pub base64_to_bytes : List ℕ → Result (List ℕ)
unfolding where_rows sextets join_sextets drop_padding
base64_to_bytes value =
    let text = where_rows (λ c. not (is_blank c)) value in
    decoded (join_all (sextets (if eqb (length text % 4) 0 then drop_padding text else text)))

-- "=".repeat(n)
unfoldable pub padding : ℕ → List ℕ
padding zero = []
padding (suc n) = b'=' ∷ padding n

unfoldable pub base64_url_to_bytes : List ℕ → Result (List ℕ)
unfolding base64_to_bytes padding
base64_url_to_bytes value =
    let standard = map from_url value in
    base64_to_bytes (standard ++ padding ((4 - length standard % 4) % 4))

-- ===== src/Headers.antt =====
-- src/mail/helpers.ts: header values and Message-IDs. A length counts characters, where the
-- program counts UTF-16 units.
pub mod Ids
use Prim.Native.Nat.{compare, Ordering}
use Prim.Native.Char.{Char, code}
use mathlib.Core.List.{reverse}
use Prim.Native.String.{◌++◌ as joined}
use mail_gable.Base.{
  ℕ, String, Bool, true, false, Option, none, some, List, [], ◌∷◌, ◌==◌, not, ◌&&◌, ◌||◌,
  if◌then◌else◌, is_space, trim, first_chars, take,
}

abbrev pub is_code : ℕ → Char → Bool
is_code n c = elim (compare (code c) n) [ Ordering.eq ↦ true | _ ↦ false ]

abbrev pub is_line_end : Char → Bool
is_line_end c = is_code 10 c || is_code 13 c

-- value.replace(/[\r\n]+/g, " "); `inside` says that a run has begun
unfoldable pub flatten_lines : Bool → String → String
flatten_lines inside String.[] = ""
flatten_lines inside (String.◌∷◌ c s) =
    let rest = flatten_lines (is_line_end c) s in
    if is_line_end c then (if inside then rest else joined " " rest) else String.◌∷◌ c rest

unfoldable pub safe_header_value : String → ℕ → String
unfolding flatten_lines trim first_chars
safe_header_value value max = trim (flatten_lines false (first_chars max value))

-- [^<>\s]
abbrev pub is_id_char : Char → Bool
is_id_char c = not (is_code b'<' c || is_code b'>' c || is_space (code c))

abbrev close_id : Option String → List String → List String
close_id none rest = rest
close_id (some body) rest = if body == "" then rest else joined "<" (joined body ">") ∷ rest

abbrev push_char : Option String → Char → Option String
push_char none c = none
push_char (some body) c = some (joined body (String.◌∷◌ c ""))

-- value.matchAll(/<[^<>\s]+>/g): `body` is what has followed the last "<"
unfoldable pub scan_ids : Option String → String → List String
scan_ids body String.[] = []
scan_ids body (String.◌∷◌ c s) =
    let rest =
      scan_ids (if is_code b'<' c then some "" else if is_id_char c then push_char body c else none)
        s in
    if is_code b'>' c then close_id body rest else rest

-- the part of /^[^<>\s@]+@[^<>\s@]+$/ behind the "@"; `seen` says that a character was read
unfoldable pub is_domain_part : Bool → String → Bool
is_domain_part seen String.[] = seen
is_domain_part seen (String.◌∷◌ c s) = is_id_char c && not (is_code b'@' c) && is_domain_part true s

unfoldable pub is_plain_id : Bool → String → Bool
unfolding is_domain_part
is_plain_id seen String.[] = false
is_plain_id seen (String.◌∷◌ c s) =
    let rest = is_plain_id true s in
    if is_code b'@' c then seen && is_domain_part false s else is_id_char c && rest

abbrev first_id : List String → String → String
first_id (id ∷ ids) raw = id
first_id [] raw = if is_plain_id false raw then joined "<" (joined raw ">") else ""

unfoldable pub normalize_internet_message_id : String → String
unfolding safe_header_value scan_ids is_plain_id is_space
normalize_internet_message_id value =
    let raw = safe_header_value value 998 in first_id (scan_ids none raw) raw

-- .slice(-n)
unfoldable pub last_n {ℓ} : {A : Type ℓ} → ℕ → List A → List A
last_n n xs = reverse (take n (reverse xs))

unfoldable pub references : String → List String
unfolding scan_ids last_n is_space
references value = last_n 30 (scan_ids none value)

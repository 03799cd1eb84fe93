-- ===== src/Helpers/Numbers.antt =====
-- asInt.
use Prim.Native.Char.{code}
use mail_gable.Base.{
  ℕ, ◌+◌, ◌-◌, ◌*◌, String, Bool, Option, none, some, ◌&&◌, leb, eqb, if◌then◌else◌, trim_start,
  is_space, or_else,
}

abbrev pub is_digit : ℕ → Bool
is_digit c = leb b'0' c && leb c b'9'

-- the digits at the beginning of a text, behind those read before
unfoldable pub read_digits : Option ℕ → String → Option ℕ
read_digits seen String.[] = seen
read_digits seen (String.◌∷◌ c s) =
    let before = or_else seen 0 in
    let rest = read_digits (some (before * 10 + (code c - b'0'))) s in
    if is_digit (code c) then rest else seen

-- a negative number, of which only -0 is not below 0
abbrev pub negated : Option ℕ → Option ℕ
negated none = none
negated (some n) = if eqb n 0 then some 0 else none

unfoldable pub signed_digits : String → Option ℕ
unfolding read_digits
signed_digits String.[] = none
signed_digits (String.◌∷◌ c s) =
    let unsigned = read_digits none s in
    if eqb (code c) b'-'
    then negated unsigned
    else if eqb (code c) b'+'
    then unsigned
    else read_digits none (String.◌∷◌ c s)

-- Number.parseInt(value, 10), `none` for NaN and for a negative number
unfoldable pub parse_int : String → Option ℕ
unfolding trim_start is_space signed_digits
parse_int value = signed_digits (trim_start value)

abbrev pub within : Option ℕ → ℕ → ℕ → ℕ → ℕ
within none fallback lo hi = fallback
within (some n) fallback lo hi = if leb lo n && leb n hi then n else fallback

-- asInt, whose bounds are safe integers
unfoldable pub as_int : String → ℕ → ℕ → ℕ → ℕ
unfolding parse_int
as_int value fallback lo hi = within (parse_int value) fallback lo hi

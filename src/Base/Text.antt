-- ===== src/Base/Text.antt =====
-- What the code uses of JavaScript's and SQL's functions on texts.
use Prim.Native.Char.{code}
use Prim.Native.Nat.{ℕ, zero, suc}
use Prim.Native.String.{String, ◌++◌, slice}
use Prim.Native.Nat.{compare, Ordering, ◌+◌, ◌-◌, ◌/◌, ◌%◌}
use mathlib.Core.Bool.{Bool, true, false, ◌&&◌, ◌||◌}
use text.Mathlib.Text.{◌==◌}
use mathlib.Core.Option.{Option, none, some}
use mail_gable.Base.Tests.{leb, if◌then◌else◌}

abbrev between : ℕ → ℕ → ℕ → Bool
between lo hi c = leb lo c && leb c hi

-- The white space and line ends of ECMAScript, which `trim` and `\s` use.
unfoldable pub is_space : ℕ → Bool
is_space c =
    between 9 13 c
    || between 32 32 c
    || between 160 160 c
    || between 0x1680 0x1680 c
    || between 0x2000 0x200a c
    || between 0x2028 0x2029 c
    || between 0x202f 0x202f c
    || between 0x205f 0x205f c
    || between 0x3000 0x3000 c
    || between 0xfeff 0xfeff c

unfoldable pub trim_start : String → String
trim_start String.[] = ""
trim_start (String.◌∷◌ c s) =
    let rest = trim_start s in if is_space (code c) then rest else String.◌∷◌ c s

unfoldable pub trim_end : String → String
trim_end String.[] = ""
trim_end (String.◌∷◌ c s) =
    let rest = trim_end s in if (rest == "") && is_space (code c) then "" else String.◌∷◌ c rest

-- s.trim()
unfoldable pub trim : String → String
unfolding trim_start trim_end is_space
trim s = trim_end (trim_start s)

-- substr(s,1,n)
unfoldable pub first_chars : ℕ → String → String
first_chars zero s = ""
first_chars (suc n) String.[] = ""
first_chars (suc n) (String.◌∷◌ c s) = String.◌∷◌ c (first_chars n s)

abbrev pub eqb : ℕ → ℕ → Bool
eqb a b = elim (compare a b) [ Ordering.eq ↦ true | _ ↦ false ]

-- the code of c.toLowerCase() for an ASCII character
abbrev lower_code : ℕ → ℕ
lower_code c = if between b'A' b'Z' c then c + 32 else c

-- value.toLowerCase() === text, for a text in ASCII lower case with no k: other characters of
-- `value` lower to none of its letters
unfoldable pub lower_is : String → String → Bool
lower_is String.[] String.[] = true
lower_is (String.◌∷◌ c s) (String.◌∷◌ d t) = eqb (lower_code (code c)) (code d) && lower_is s t
lower_is _ _ = false

-- the text begins with the pattern, apart from case
unfoldable pub starts_lower : String → String → Bool
starts_lower s String.[] = true
starts_lower String.[] (String.◌∷◌ d t) = false
starts_lower (String.◌∷◌ c s) (String.◌∷◌ d t) =
    eqb (lower_code (code c)) (code d) && starts_lower s t

-- /pattern/i.test(s), for a pattern of letters
unfoldable pub contains_lower : String → String → Bool
unfolding starts_lower
contains_lower String.[] pattern = starts_lower "" pattern
contains_lower (String.◌∷◌ c s) pattern =
    starts_lower (String.◌∷◌ c s) pattern || contains_lower s pattern

abbrev digit : ℕ → String
digit n =
    if eqb n 0
    then "0"
    else if eqb n 1
    then "1"
    else if eqb n 2
    then "2"
    else if eqb n 3
    then "3"
    else if eqb n 4
    then "4"
    else if eqb n 5
    then "5"
    else if eqb n 6
    then "6"
    else if eqb n 7
    then "7"
    else if eqb n 8
    then "8"
    else "9"

-- the decimal digits of a number below 10 ^ fuel
decimal_digits : ℕ → ℕ → String
decimal_digits zero n = ""
decimal_digits (suc fuel) n =
    let rest = decimal_digits fuel (n / 10) in if leb n 9 then digit n else rest ++ digit (n % 10)

-- `HTTP ${status}`; a status has three digits
unfoldable pub http_text : ℕ → String
unfolding decimal_digits
http_text status = "HTTP " ++ decimal_digits 10 status

-- `a || b` on texts
abbrev pub first_text : String → String → String
first_text a b = if a == "" then b else a

-- `a || null` on a text
abbrev pub or_null : String → Option String
or_null s = if s == "" then none else some s

-- s.toLowerCase(), where only ASCII letters are lowered
unfoldable pub lower_text : String → String
lower_text String.[] = ""
lower_text (String.◌∷◌ c s) =
    let rest = lower_text s in
    if between b'A' b'Z' (code c)
    then slice "abcdefghijklmnopqrstuvwxyz" (code c - b'A') (code c - b'A' + 1) ++ rest
    else String.◌∷◌ c rest

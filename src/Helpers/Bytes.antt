-- ===== src/Helpers/Bytes.antt =====
-- UTF-8 bytes of a text and timingSafeEqual. A text has no lone surrogates.
use Prim.Native.Nat.{bit_or, bit_xor}
use Prim.Native.Char.{code}
use mail_gable.Base.{
  ℕ, ◌+◌, ◌/◌, ◌%◌, String, Bool, List, [], ◌∷◌, ◌++◌, ltb, eqb, length, if◌then◌else◌,
}

-- the bytes of one code point
abbrev pub utf8_char : ℕ → List ℕ
utf8_char c =
    if ltb c 0x80
    then c ∷ []
    else if ltb c 0x800
    then (0xc0 + c / 64) ∷ (0x80 + c % 64) ∷ []
    else if ltb c 0x10000
    then (0xe0 + c / 4096) ∷ (0x80 + c / 64 % 64) ∷ (0x80 + c % 64) ∷ []
    else (0xf0 + c / 262144) ∷ (0x80 + c / 4096 % 64) ∷ (0x80 + c / 64 % 64) ∷ (0x80 + c % 64) ∷ []

-- encoder.encode
unfoldable pub encode : String → List ℕ
encode String.[] = []
encode (String.◌∷◌ c s) = utf8_char (code c) ++ encode s

-- the loop over the index: `aa[index] || 0` is 0 behind the end of the shorter array
unfoldable pub difference : ℕ → List ℕ → List ℕ → ℕ
difference d [] [] = d
difference d (a ∷ as') [] = difference (bit_or d (bit_xor a 0)) as' []
difference d [] (b ∷ bs) = difference (bit_or d (bit_xor 0 b)) [] bs
difference d (a ∷ as') (b ∷ bs) = difference (bit_or d (bit_xor a b)) as' bs

unfoldable pub timing_safe_equal : String → String → Bool
unfolding encode difference
timing_safe_equal a b =
    let aa = encode a in
    let bb = encode b in eqb (difference (bit_xor (length aa) (length bb)) aa bb) 0

-- encoder.encode(value).byteLength
unfoldable pub byte_length : String → ℕ
byte_length s = length (encode s)

-- the number of code points
unfoldable pub code_points : String → ℕ
code_points String.[] = 0
code_points (String.◌∷◌ c s) = code_points s + 1

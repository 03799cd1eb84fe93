-- ===== src/Helpers/Truncate.antt =====
-- truncateUtf8. A text is the list of its UTF-16 code units here.
use mail_gable.Base.{
  ℕ, zero, suc, ◌+◌, ◌-◌, ◌/◌, Bool, false, Option, none, some, List, [], ◌∷◌, ◌&&◌, leb, ltb,
  if◌then◌else◌, length, take,
}

abbrev pub is_high : ℕ → Bool
is_high u = leb 0xd800 u && leb u 0xdbff

abbrev pub is_low : ℕ → Bool
is_low u = leb 0xdc00 u && leb u 0xdfff

-- a unit outside a pair; a lone surrogate is encoded as U+FFFD
abbrev pub unit_size : ℕ → ℕ
unit_size u = if ltb u 0x80 then 1 else if ltb u 0x800 then 2 else 3

-- encoder.encode(value).byteLength
unfoldable pub units_size : List ℕ → ℕ
units_size [] = 0
units_size (u ∷ []) = unit_size u
units_size (u ∷ v ∷ us) =
    let pair = 4 + units_size us in
    let single = unit_size u + units_size (v ∷ us) in if is_high u && is_low v then pair else single

-- value.charCodeAt(index)
unfoldable pub code_at : ℕ → List ℕ → Option ℕ
code_at n [] = none
code_at zero (u ∷ us) = some u
code_at (suc n) (u ∷ us) = code_at n us

abbrev pub is_high_unit : Option ℕ → Bool
is_high_unit none = false
is_high_unit (some u) = is_high u

-- the end moved before a high surrogate; there is no unit before the first one
abbrev pub back_off : List ℕ → ℕ → ℕ
back_off value zero = zero
back_off value (suc n) = if is_high_unit (code_at n value) then n else suc n

abbrev pub fits : List ℕ → ℕ → ℕ → Bool
fits value max n = leb (units_size (take n value)) max

-- the binary search; the first argument bounds the number of its steps, and `none` is a search that
-- has not ended within them
unfoldable pub search_end : ℕ → List ℕ → ℕ → ℕ → ℕ → Option ℕ
unfolding units_size code_at
search_end zero value max low high = if ltb low high then none else some low
search_end (suc fuel) value max low high =
    let middle = (low + high + 1) / 2 in
    let upper = search_end fuel value max middle high in
    let lower = search_end fuel value max low (middle - 1) in
    if ltb low high
    then (if fits value max (back_off value middle) then upper else lower)
    else some low

-- the last loop
unfoldable pub shrink_end : List ℕ → ℕ → ℕ → ℕ
unfolding units_size
shrink_end value max zero = zero
shrink_end value max (suc n) =
    let rest = shrink_end value max n in if fits value max (suc n) then suc n else rest

-- what is done with the end that the search has found
unfoldable pub cut_at : List ℕ → ℕ → ℕ → List ℕ
unfolding units_size code_at shrink_end
cut_at value max end = take (shrink_end value max (back_off value end)) value

abbrev pub cut_found : List ℕ → ℕ → Option ℕ → Option (List ℕ)
cut_found value max none = none
cut_found value max (some end) = some (cut_at value max end)

-- `none` is a call that does not return
unfoldable pub truncate_utf8 : List ℕ → ℕ → Option (List ℕ)
unfolding units_size search_end cut_at
truncate_utf8 [] max = some []
truncate_utf8 (u ∷ us) zero = some []
truncate_utf8 (u ∷ us) (suc m) =
    let value = u ∷ us in
    if leb (units_size value) (suc m)
    then some value
    else cut_found value (suc m) (search_end (length value) value (suc m) 0 (length value))

-- ===== src/Helpers/Bounded.antt =====
-- The length of a truncated text, and the steps of the search.
use mail_gable.Base.{
  ℕ, zero, suc, ◌+◌, ◌-◌, ◌/◌, ◌≤◌, List, [], ◌∷◌, ◌≡◌, some, refl, sym, ap, leb, ltb, length, take,
  arith, inl, inr, Bool-cases,
}
use mail_gable.Helpers.Truncate.{
  fits, back_off, units_size, search_end, shrink_end, cut_at, cut_found, truncate_utf8,
}

take-zero : (value : List ℕ) → take zero value ≡ []
take-zero [] = refl
take-zero (u ∷ us) = refl

take-length : (value : List ℕ) → take (length value) value ≡ value
take-length [] = refl
take-length (u ∷ us) = ap (λ x. u ∷ x) (take-length us)

nothing_fits : (max : ℕ) → units_size [] ≤ max
unfolding units_size
nothing_fits max = omega arith

shrink_end-fits :
    (value : List ℕ) (max n : ℕ) → units_size (take (shrink_end value max n) value) ≤ max
unfolding shrink_end
shrink_end-fits value max zero = rw (take-zero value) (nothing_fits max)
shrink_end-fits value max (suc n) = elim (Bool-cases (fits value max (suc n))) [
  | inl yes' ↦ rw yes' (ground arith)
  | inr no' ↦ rw no' (shrink_end-fits value max n)
]

-- The search ends: as many steps as its ends are apart are enough.
pub search_end_terminates :
    (n : ℕ) (value : List ℕ) (max low high : ℕ)
    → high ≤ low + n
    → (end : ℕ) × (search_end n value max low high ≡ some end)
unfolding search_end
search_end_terminates zero value max low high h = (low, ground arith)
search_end_terminates (suc n) value max low high h =
    let middle = (low + high + 1) / 2 in
    elim (Bool-cases (ltb low high)) [
      | inr done ↦ rw done (low, refl)
      | inl more ↦ rw more (elim (Bool-cases (fits value max (back_off value middle))) [
        | inl fit ↦ rw fit (search_end_terminates n value max middle high (ground arith))
        | inr large ↦ rw large (search_end_terminates n value max low (middle - 1) (ground arith))
      ])
    ]

-- Truncation returns, and a truncated text is the beginning of the text, whose UTF-8 bytes are at
-- most the bound.
pub truncate_utf8-bound :
    (value : List ℕ) (max : ℕ)
    → (text : List ℕ) × (truncate_utf8 value max ≡ some text)
      × (units_size text ≤ max)
      × ((n : ℕ) × (text ≡ take n value))
unfolding truncate_utf8 cut_at
truncate_utf8-bound [] max = ([], refl, nothing_fits max, (0, refl))
truncate_utf8-bound (u ∷ us) zero = ([], refl, nothing_fits 0, (0, refl))
truncate_utf8-bound (u ∷ us) (suc m) =
    let value = u ∷ us in
    elim (Bool-cases (leb (units_size (u ∷ us)) (suc m))) [
      | inl short ↦ rw short (value, refl, ground arith, (length value, sym (take-length value)))
      | inr long ↦
          let (end, found) =
            search_end_terminates (length value) value (suc m) 0 (length value) (omega arith) in
          rw long (
            cut_at value (suc m) end,
            ap (cut_found value (suc m)) found,
            shrink_end-fits value (suc m) (back_off value end),
            (shrink_end value (suc m) (back_off value end), refl),
          )
    ]

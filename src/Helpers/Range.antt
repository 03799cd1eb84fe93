-- ===== src/Helpers/Range.antt =====
-- The range of a number that asInt reads.
use mail_gable.Base.{ℕ, ◌≤◌, String, Option, none, some, arith}
use mail_gable.Helpers.Numbers.{within, as_int}

within-bound :
    (n : Option ℕ) (fallback lo hi : ℕ)
    → lo ≤ fallback
    → fallback ≤ hi
    → (lo ≤ within n fallback lo hi) × (within n fallback lo hi ≤ hi)
within-bound none fallback lo hi above below = (above, below)
within-bound (some n) fallback lo hi above below = ground arith

-- A default in the range is enough for every text.
pub as_int-bound :
    (value : String) (fallback lo hi : ℕ)
    → lo ≤ fallback
    → fallback ≤ hi
    → (lo ≤ as_int value fallback lo hi) × (as_int value fallback lo hi ≤ hi)
unfolding as_int
as_int-bound value fallback lo hi above below = within-bound _ fallback lo hi above below

-- ===== src/Helpers/Examples.antt =====
-- Texts of the same length that differ in one bit, bytes and a truncated text.
use mail_gable.Base.{
  all, false, ◌⊎◌, ℕ, [], ◌∷◌, ◌≤◌, arith, refl, List, some, take, String, true, ◌≡◌, ◌↔◌,
}
use mail_gable.Helpers.Bytes.{timing_safe_equal}
use mail_gable.Store.Effects.{ok}
use mail_gable.Helpers.Base64.{base64_url, base64_url_to_bytes}
use mail_gable.Helpers.Truncate.{units_size, truncate_utf8, search_end}
use mail_gable.Helpers.RoundTrip.{AreBytes, base64_url_to_bytes-base64_url}
use mail_gable.Helpers.Bounded.{truncate_utf8-bound, search_end_terminates}
use mail_gable.Helpers.Html.{escape_html}
use mail_gable.Helpers.Escaped.{is_inert, is_plain, escape_html_inert}
use mail_gable.Helpers.Equality.{timing_safe_equal_iff}

timing_safe_equal_iff_example : (timing_safe_equal "abc" "abb" ≡ true) ↔ (Path String "abc" "abb")
timing_safe_equal_iff_example = timing_safe_equal_iff "abc" "abb"

are_bytes : AreBytes (0 ∷ 255 ∷ 254 ∷ 63 ∷ [])
unfolding mail_gable.Base.all
are_bytes = refl

base64_url_to_bytes-base64_url_example :
    base64_url_to_bytes (base64_url (0 ∷ 255 ∷ 254 ∷ 63 ∷ [])) ≡ ok (0 ∷ 255 ∷ 254 ∷ 63 ∷ [])
base64_url_to_bytes-base64_url_example =
    base64_url_to_bytes-base64_url (0 ∷ 255 ∷ 254 ∷ 63 ∷ []) are_bytes

-- a pair of surrogates, which does not fit
truncate_utf8-bound_example :
    (text : List ℕ) × (truncate_utf8 (97 ∷ 0xd83d ∷ 0xde00 ∷ 98 ∷ []) 4 ≡ some text)
    × (units_size text ≤ 4)
    × ((n : ℕ) × (text ≡ take n (97 ∷ 0xd83d ∷ 0xde00 ∷ 98 ∷ [])))
truncate_utf8-bound_example = truncate_utf8-bound (97 ∷ 0xd83d ∷ 0xde00 ∷ 98 ∷ []) 4

search_end_terminates_example :
    (end : ℕ) × (search_end 4 (97 ∷ 0xd83d ∷ 0xde00 ∷ 98 ∷ []) 4 0 4 ≡ some end)
search_end_terminates_example =
    search_end_terminates 4 (97 ∷ 0xd83d ∷ 0xde00 ∷ 98 ∷ []) 4 0 4 (omega arith)

escape_html_inert_example :
    (all is_inert (escape_html (60 ∷ 98 ∷ 62 ∷ [])) ≡ true)
    × ((escape_html (60 ∷ 98 ∷ 62 ∷ []) ≡ take 1000000 (60 ∷ 98 ∷ 62 ∷ []))
        ⊎ (all is_plain (take 1000000 (60 ∷ 98 ∷ 62 ∷ [])) ≡ false))
escape_html_inert_example = escape_html_inert (60 ∷ 98 ∷ 62 ∷ [])

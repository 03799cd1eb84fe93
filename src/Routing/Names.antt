-- ===== src/Routing/Names.antt =====
-- stableMailboxId and displayName. Of the letters with two cases only those of ASCII are turned.
use Prim.Native.Char.{code}
use Prim.Native.String.{◌++◌ as joined, slice}
use mail_gable.Base.{
  ℕ, ◌+◌, ◌-◌, ◌/◌, ◌%◌, String, Bool, List, [], ◌∷◌, ◌==◌, not, ◌||◌, eqb, if◌then◌else◌, is_space,
  lower_text, first_chars, where_rows, map,
}
use mail_gable.Helpers.{encode}
use mail_gable.Routing.Plan.{in_range}

abbrev hex_digit : ℕ → String
hex_digit n = slice "0123456789abcdef" n (n + 1)

-- value.toString(16).padStart(2, "0"), for each of the bytes
unfoldable pub hex_text : List ℕ → String
hex_text [] = ""
hex_text (b ∷ bs) = joined (hex_digit (b / 16)) (joined (hex_digit (b % 16)) (hex_text bs))

-- stableMailboxId, with SHA-256 as a parameter
unfoldable pub stable_mailbox_id : (List ℕ → List ℕ) → String → String
unfolding lower_text encode hex_text first_chars
stable_mailbox_id sha256 address =
    joined "route_" (first_chars 24 (hex_text (sha256 (encode (lower_text address)))))

-- address.split("@")[0]
unfoldable pub local_part : String → String
local_part String.[] = ""
local_part (String.◌∷◌ c s) =
    let rest = local_part s in if eqb (code c) b'@' then "" else String.◌∷◌ c rest

abbrev pub is_word_break : ℕ → Bool
is_word_break c = is_space c || eqb c b'.' || eqb c b'_' || eqb c b'+' || eqb c b'-'

-- the parts between the separators, of which the empty ones are left out later
unfoldable pub split_words : String → String → List String
unfolding is_space
split_words part String.[] = part ∷ []
split_words part (String.◌∷◌ c s) =
    let rest = split_words "" s in
    let longer = split_words (joined part (String.◌∷◌ c "")) s in
    if is_word_break (code c) then part ∷ rest else longer

abbrev pub upper_char : ℕ → String → String
upper_char c s =
    if in_range b'a' b'z' c then slice "ABCDEFGHIJKLMNOPQRSTUVWXYZ" (c - b'a') (c - b'a' + 1) else s

-- the first letter in upper case, the others in lower case
unfoldable pub title_word : String → String
unfolding lower_text
title_word String.[] = ""
title_word (String.◌∷◌ c s) = joined (upper_char (code c) (String.◌∷◌ c "")) (lower_text s)

unfoldable pub join_words : List String → String
join_words [] = ""
join_words (w ∷ []) = w
join_words (w ∷ v ∷ vs) = joined w (joined " " (join_words (v ∷ vs)))

abbrev pub title_of : List String → String
title_of [] = "Mailbox"
title_of (w ∷ ws) = joined (join_words (map title_word (w ∷ ws))) " Mailbox"

unfoldable pub display_name : String → String
unfolding where_rows split_words local_part title_word join_words
display_name address =
    title_of (where_rows (λ w. not (w == "")) (split_words "" (local_part address)))

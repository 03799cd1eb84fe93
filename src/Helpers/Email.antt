-- ===== src/Helpers/Email.antt =====
-- normalizeEmail and validEmail. Of the letters with two cases only those of ASCII are lowered,
-- and a length counts characters.
use Prim.Native.Char.{code}
use Prim.Native.String.{◌++◌ as joined}
use mail_gable.Base.{
  ℕ, String, Bool, false, Option, none, some, List, [], ◌∷◌, ◌==◌, ◌&&◌, ◌||◌, leb, if◌then◌else◌,
  trim, first_chars, is_space, or_else, lower_text, where_rows, take, map,
}
use mail_gable.Headers.{is_code}
use mail_gable.Helpers.Bytes.{code_points}
use mail_gable.Threads.{is_address, distinct}

abbrev close_angle : Option String → Option String → Option String
close_angle none rest = rest
close_angle (some body) rest = if body == "" then rest else some body

abbrev extend_angle : Option String → String → Option String
extend_angle none c = none
extend_angle (some body) c = some (joined body c)

-- the group of the first match of /<([^<>]+)>/; `body` is what has followed the last "<"
unfoldable pub angle_part : Option String → String → Option String
angle_part body String.[] = none
angle_part body (String.◌∷◌ c s) =
    let rest =
      angle_part
        (if is_code b'<' c
          then some ""
          else if is_code b'>' c
          then none
          else extend_angle body (String.◌∷◌ c ""))
        s in
    if is_code b'>' c then close_angle body rest else rest

unfoldable pub normalize_email : String → String
unfolding angle_part trim lower_text is_space first_chars
normalize_email value =
    let raw = trim (first_chars 320 value) in lower_text (trim (or_else (angle_part none raw) raw))

unfoldable pub valid_email : String → Bool
unfolding is_address code_points is_space
valid_email value = leb (code_points value) 320 && is_address false value

-- value.split(/[;,\n]+/), without the empty parts
abbrev is_separator : ℕ → Bool
is_separator c = (leb b';' c && leb c b';') || (leb b',' c && leb c b',') || (leb 10 c && leb c 10)

unfoldable pub split_list : String → String → List String
split_list part String.[] = part ∷ []
split_list part (String.◌∷◌ c s) =
    let rest = split_list "" s in
    let longer = split_list (joined part (String.◌∷◌ c "")) s in
    if is_separator (code c) then part ∷ rest else longer

-- emailList of a text
unfoldable pub email_list : String → ℕ → List String
unfolding split_list normalize_email valid_email
email_list value max = take max (
    distinct
      (where_rows valid_email (map normalize_email (split_list "" (first_chars 30000 value)))))

-- ===== src/Helpers/Html.antt =====
-- escapeHtml. A text is the list of the codes of its characters here.
use mail_gable.Base.{ℕ, List, [], ◌∷◌, ◌++◌, eqb, if◌then◌else◌, take}

-- the character, or its entity
abbrev pub escaped_char : ℕ → List ℕ
escaped_char c =
    if eqb c b'&'
    then b'&' ∷ b'a' ∷ b'm' ∷ b'p' ∷ b';' ∷ []
    else if eqb c b'<'
    then b'&' ∷ b'l' ∷ b't' ∷ b';' ∷ []
    else if eqb c b'>'
    then b'&' ∷ b'g' ∷ b't' ∷ b';' ∷ []
    else if eqb c 34
    then b'&' ∷ b'q' ∷ b'u' ∷ b'o' ∷ b't' ∷ b';' ∷ []
    else if eqb c 39
    then b'&' ∷ b'#' ∷ b'3' ∷ b'9' ∷ b';' ∷ []
    else c ∷ []

unfoldable pub escape_all : List ℕ → List ℕ
escape_all [] = []
escape_all (c ∷ cs) = escaped_char c ++ escape_all cs

-- the five replacements, of which the first one is the one of "&"
unfoldable pub escape_html : List ℕ → List ℕ
unfolding escape_all
escape_html value = escape_all (take 1000000 value)

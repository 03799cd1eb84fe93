-- ===== src/Helpers/Escaped.antt =====
-- An escaped text cannot open a tag or end an attribute.
use mail_gable.Base.{
  ℕ, Bool, true, List, [], ◌∷◌, ◌++◌, not, ◌||◌, ◌&&◌, eqb, take, all, arith, ◌≡◌, refl, ◌∙◌, ap,
  false, ◌⊎◌, inl, inr, Bool-cases,
}
use mail_gable.Helpers.Html.{escaped_char, escape_all, escape_html}

-- neither "<" nor ">" nor a quotation mark
abbrev pub is_inert : ℕ → Bool
is_inert c = not (eqb c b'<' || eqb c b'>' || eqb c 34 || eqb c 39)

-- The characters of a replacement are inert, and with them the character itself where it stays.
escaped_char-all : (c : ℕ) → all is_inert (escaped_char c) ≡ true
unfolding all
escaped_char-all c = ground arith

all-append : (xs ys : List ℕ) → all is_inert (xs ++ ys) ≡ (all is_inert xs && all is_inert ys)
unfolding all
all-append [] ys = refl
all-append (x ∷ xs) ys = ground (arith, all-append xs ys)

escape_all-all : (cs : List ℕ) → all is_inert (escape_all cs) ≡ true
unfolding escape_all all
escape_all-all [] = refl
escape_all-all (c ∷ cs) =
    all-append (escaped_char c) (escape_all cs) ∙ rw (escaped_char-all c, escape_all-all cs) refl

abbrev pub is_plain : ℕ → Bool
is_plain c = is_inert c && not (eqb c b'&')

escaped_char-plain : (c : ℕ) → is_plain c ≡ true → escaped_char c ≡ c ∷ []
escaped_char-plain c h = ground arith

escape_all-plain : (cs : List ℕ) → all is_plain cs ≡ true → escape_all cs ≡ cs
unfolding escape_all all
escape_all-plain [] h = refl
escape_all-plain (c ∷ cs) h =
    ap (λ x. x ++ escape_all cs) (escaped_char-plain c (ground arith))
    ∙ ap (λ x. c ∷ x) (escape_all-plain cs (ground arith))

-- An escaped text has no "<", no ">" and no quotation mark, and it is the text itself, as far as
-- it is read, where this has none of the five characters.
pub escape_html_inert :
    (value : List ℕ)
    → (all is_inert (escape_html value) ≡ true)
      × ((escape_html value ≡ take 1000000 value) ⊎ (all is_plain (take 1000000 value) ≡ false))
unfolding escape_html
escape_html_inert value = (
  escape_all-all (take 1000000 value),
  elim (Bool-cases (all is_plain (take 1000000 value))) [
    | inl plain ↦ inl (escape_all-plain (take 1000000 value) plain)
    | inr special ↦ inr special
  ],
)

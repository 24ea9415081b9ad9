-- ===== src/MsSql/Sql/Words.antt =====
-- The names that SQL Server reads as one word after `@`.
use Prim.Native.Char.{code}
use text.Mathlib.TextLemmas.{cons-append, nil-append}
use velo_external_db.Base.{
  ℕ, String, Bool, true, false, ◌≡◌, refl, ap, List, [], ◌∷◌, ◌&&◌, ◌||◌, ◌&◌, leb, eqb, All,
  Bool-cases, inl, inr, if◌then◌else◌,
}

-- a letter, a digit or _
abbrev is_word_char : ℕ → Bool
is_word_char c =
    (leb 48 c && leb c 57) || (leb 65 c && leb c 90) || (leb 97 c && leb c 122) || eqb c b'_'

unfoldable pub word_chars : String → Bool
word_chars String.[] = true
word_chars (String.◌∷◌ c s) =
    let rest = word_chars s in if is_word_char (code c) then rest else false

abbrev pub starts_word : String → Bool
starts_word String.[] = false
starts_word (String.◌∷◌ c s) = is_word_char (code c)

-- The word that a text begins with, and the text after it.
unfoldable pub read_word : String → String × String
read_word String.[] = ("", "")
read_word (String.◌∷◌ c s) =
    let (word, rest) = read_word s in
    if is_word_char (code c) then (String.◌∷◌ c word, rest) else ("", String.◌∷◌ c s)

abbrev pub Words : List String → Type 0
Words names = All (λ n. word_chars n ≡ true) names

-- Each name is read whole, before any text that does not go on with it.
abbrev pub ReadWhole : List String → Type 0
ReadWhole names =
    All (λ n. (rest : String) → starts_word rest ≡ false → read_word (n & rest) ≡ (n, rest)) names

ended : (rest : String) → starts_word rest ≡ false → read_word rest ≡ ("", rest)
unfolding read_word
ended String.[] h = refl
ended (String.◌∷◌ c s) h = rw h refl

word_read :
    (n rest : String)
    → word_chars n ≡ true
    → starts_word rest ≡ false
    → read_word (n & rest) ≡ (n, rest)
unfolding word_chars read_word
word_read String.[] rest w h = rw nil-append (ended rest h)
word_read (String.◌∷◌ c s) rest w h = elim (Bool-cases (is_word_char (code c))) [
  | inl e ↦
      let later : word_chars s ≡ true = rw e at w in
      rw cons-append (rw e (ap (λ x. (String.◌∷◌ c x.0, x.1)) (word_read s rest later h)))
  | inr e ↦ let bad : false ≡ true = rw e at w in cc
]

pub Words-ReadWhole : (names : List String) → Words names → ReadWhole names
Words-ReadWhole [] h = tt
Words-ReadWhole (n ∷ ns) (w, h) = ((λ rest k. word_read n rest w k), Words-ReadWhole ns h)

-- ===== src/Postgres/Sql/Quoted.antt =====
-- Reading an escaped identifier back, as the database does.
use Prim.Native.Char.{Char, code}
use text.Mathlib.TextLemmas.{cons-append, nil-append, append_assoc}
use text.Mathlib.TextEquality.{Char-path}
use velo_external_db.Base.{
  String, Bool, true, false, ◌≡◌, refl, sym, ap, ◌∙◌, inl, inr, Option, none, some, ◌==◌, ◌&◌, eqb,
  starts_with_char, Bool-cases, arith, if◌then◌else◌,
}
use velo_external_db.Postgres.Sql.{double_quotes, escape_identifier}

abbrev push : Char → Option (String × String) → Option (String × String)
push c none = none
push c (some (name, rest)) = some (String.◌∷◌ c name, rest)

-- The identifier that a text begins with, after its opening quote, and the text after its closing
-- quote. A quote that is doubled stands for itself. The Boolean says that a quote was just read.
unfoldable pub read_identifier : Bool → String → Option (String × String)
read_identifier false String.[] = none
read_identifier true String.[] = some ("", "")
read_identifier false (String.◌∷◌ c s) =
    let after = read_identifier true s in
    let on = read_identifier false s in if eqb (code c) b'"' then after else push c on
read_identifier true (String.◌∷◌ c s) =
    let on = read_identifier false s in
    if eqb (code c) b'"' then push c on else some ("", String.◌∷◌ c s)

closed :
    (rest : String)
    → starts_with_char b'"' rest ≡ false
    → read_identifier true rest ≡ some ("", rest)
unfolding read_identifier
closed String.[] h = refl
closed (String.◌∷◌ c s) h = rw h refl

-- a doubled quote
doubled :
    (c : Char) (x : String)
    → code c ≡ b'"'
    → read_identifier false ("\"\"" & x) ≡ push c (read_identifier false x)
unfolding read_identifier
doubled c x k =
    rw (cons-append, cons-append, nil-append)
      (ap (λ d. push d (read_identifier false x)) (Char-path _ c (sym k)))

-- any other character
other :
    (c : Char) (x : String)
    → eqb (code c) b'"' ≡ false
    → read_identifier false (String.◌∷◌ c x) ≡ push c (read_identifier false x)
unfolding read_identifier
other c x e = rw e refl

read-double_quotes :
    (s rest : String)
    → starts_with_char b'"' rest ≡ false
    → read_identifier false (double_quotes s & "\"" & rest) ≡ some (s, rest)
read-double_quotes String.[] rest h =
    rw (nil-append, cons-append, nil-append) (unfold read_identifier in closed rest h)
read-double_quotes (String.◌∷◌ c s) rest h = elim (Bool-cases (eqb (code c) b'"')) [
  | inl e ↦
      let quote : code c ≡ b'"' = ground arith in
      rw e (
        rw append_assoc (
          doubled c (double_quotes s & "\"" & rest) quote
          ∙ ap (push c) (read-double_quotes s rest h)))
  | inr e ↦
      rw (e, cons-append)
        (other c (double_quotes s & "\"" & rest) e ∙ ap (push c) (read-double_quotes s rest h))
]

-- For every name but `*`, and every text that does not go on with a quote, what the database reads
-- after the opening quote of the escaped name is the name, and then that text: no name ends its own
-- quotes.
pub read-escape_identifier :
    (s rest : String)
    → (s == "*") ≡ false
    → starts_with_char b'"' rest ≡ false
    → (quoted : String) × (escape_identifier s ≡ "\"" & quoted)
      × (read_identifier false (quoted & rest) ≡ some (s, rest))
unfolding escape_identifier
read-escape_identifier s rest star h =
    (double_quotes s & "\"", rw star refl, rw append_assoc (read-double_quotes s rest h))

-- ===== src/Postgres/Sql.antt =====
-- SQL text as the pieces of the template literals that build it, and postgres_utils.ts. A piece is
-- text, or a placeholder `$n` for the n-th parameter.
pub mod Placeholders
pub mod Quoted
use Prim.Native.Char.{code}
use velo_external_db.Base.{
  ℕ, zero, suc, String, ◌≡◌, refl, List, [], ◌∷◌, ◌++◌, ◌==◌, ◌&◌, decimal, eqb, if◌then◌else◌,
}

pub data Piece : Type 0 where
  text : String → Piece
  placeholder : ℕ → Piece

abbrev pub Sql : Type 0
Sql = List Piece

abbrev piece_text : Piece → String
piece_text (text s) = s
piece_text (placeholder n) = "$" & decimal n

-- The text that is sent to the database.
unfoldable pub render : Sql → String
render [] = ""
render (p ∷ ps) = piece_text p & render ps

-- `pieces.join(separator)`
abbrev pub join_sql : String → List Sql → Sql
join_sql separator [] = []
join_sql separator (s ∷ []) = s
join_sql separator (s ∷ t ∷ ts) = s ++ (text separator ∷ join_sql separator (t ∷ ts))

-- `str.replace(/"/g, '""')`
abbrev pub double_quotes : String → String
double_quotes String.[] = ""
double_quotes (String.◌∷◌ c s) =
    let rest = double_quotes s in if eqb (code c) b'"' then "\"\"" & rest else String.◌∷◌ c rest

-- `escapeIdentifier`
unfoldable pub escape_identifier : String → String
escape_identifier s = if s == "*" then "*" else "\"" & double_quotes s & "\""

-- `$from, ..., $(from + n - 1)`, one piece each
abbrev pub variables : ℕ → ℕ → List Sql
variables from zero = []
variables from (suc n) = (placeholder from ∷ []) ∷ variables (suc from) n

-- `prepareStatementVariables` of the filter parser
unfoldable pub prepare_statement_variables : ℕ → ℕ → Sql
prepare_statement_variables n offset = join_sql ", " (variables offset n)

escape_test : escape_identifier "a\"b" ≡ "\"a\"\"b\""
unfolding escape_identifier
escape_test = refl

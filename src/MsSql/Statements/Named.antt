-- ===== src/MsSql/Statements/Named.antt =====
-- Which names the statements refer to, and what is sent under them.
use Prim.Native.Char.{code}
use velo_external_db.Base.{
  if◌then◌else◌, eqb, not, ◌&◌, true, ℕ, suc, String, Bool, false, ◌≡◌, refl, List, [], ◌∷◌, ◌++◌,
  ok, has_char,
}
use velo_external_db.Commons.Values.{Item}
use velo_external_db.Commons.Runtime.{Runtime}
use velo_external_db.MsSql.Sql.{TsqlString, escape_id, escape_table, is_system_table}
use velo_external_db.MsSql.Sql.Words.{Words}
use velo_external_db.MsSql.Filter.Ready.{Ready}
use velo_external_db.MsSql.Statements.{patch}

-- A name of a collection that is accepted.
abbrev pub TableName : String → Type 0
TableName t = (has_char b'.' t ≡ false) × (is_system_table t ≡ false)

-- Every closing bracket of a text is doubled. The Boolean says that one was just read alone.
abbrev pub doubled : Bool → String → Bool
doubled single String.[] = not single
doubled false (String.◌∷◌ c s) =
    let after = doubled true s in
    let on = doubled false s in if eqb (code c) b']' then after else on
doubled true (String.◌∷◌ c s) = let on = doubled false s in if eqb (code c) b']' then on else false

-- A quoted name stands between brackets, and has none that closes them before its end: nothing in
-- it is read as a parameter.
abbrev pub Encloses : TsqlString → Type 0
Encloses l =
    (s : String)
    → (quoted : String) × (l.escape_id s ≡ "[" & quoted & "]") × (doubled false quoted ≡ true)

module _ (r : Runtime) (l : TsqlString) where
  pub escape_table-eq : (t : String) → TableName t → escape_table l t ≡ ok (escape_id l t)
  unfolding escape_table
  escape_table-eq t (e, k) = rw (e, k) refl

  -- The entries of items that are inserted: the n-th has n in its names, but for the first.
  abbrev pub inserted : ℕ → List Item → Item
  inserted i [] = []
  inserted i (item ∷ items) = patch r l i item ++ inserted (suc i) items

-- ===== src/MsSql/Sql.antt =====
-- SQL of the SQL Server adapter as the pieces of the template literals that build it, with named
-- parameters, and mssql_utils.ts. The package tsqlstring quotes identifiers and values.
pub mod Words
use velo_external_db.Base.{
  ℕ, zero, suc, String, Bool, List, [], ◌∷◌, ◌++◌, ◌==◌, ◌&◌, decimal, lower, includes, has_char,
  ◌||◌, ok, err, if◌then◌else◌,
}
use velo_external_db.Commons.Values.{Item, put}
use velo_external_db.Commons.Errors.{Result, invalid_query}
use velo_external_db.MySql.Text.{trim}

-- `SqlString.escapeId`, and `SqlString.escape` of a text and of a number
pub record TsqlString : Type 0 where
  pub escape_id : String → String
  pub escape : String → String
  pub escape_number : ℕ → String

-- A piece is text, or `@name`.
pub data Piece : Type 0 where
  text : String → Piece
  reference : String → Piece

abbrev pub Sql : Type 0
Sql = List Piece

abbrev piece_text : Piece → String
piece_text (text s) = s
piece_text (reference name) = "@" & name

-- The text that is sent to the database.
unfoldable pub render : Sql → String
render [] = ""
render (p ∷ ps) = piece_text p & render ps

-- The names that the text refers to, in order.
unfoldable pub references : Sql → List String
references [] = []
references (text s ∷ ps) = references ps
references (reference name ∷ ps) = name ∷ references ps

-- `pieces.join(separator)`
abbrev pub join_sql : String → List Sql → Sql
join_sql separator [] = []
join_sql separator (s ∷ []) = s
join_sql separator (s ∷ t ∷ ts) = s ++ (text separator ∷ join_sql separator (t ∷ ts))

-- `s.substring(1)` and `s.slice(0, -1)`
abbrev substring_one : String → String
substring_one String.[] = ""
substring_one (String.◌∷◌ c s) = s

abbrev slice_last : String → String
slice_last String.[] = ""
slice_last (String.◌∷◌ c String.[]) = ""
slice_last (String.◌∷◌ c (String.◌∷◌ d s)) =
    let rest = slice_last (String.◌∷◌ d s) in String.◌∷◌ c rest

-- `{ ...o, ...s }`, and the reductions that add one entry after the other
abbrev pub assign : Item → Item → Item
assign o [] = o
assign o ((k, v) ∷ kvs) = assign (put k v o) kvs

abbrev sql_server_system_tables : List String
sql_server_system_tables =
    "syblicenseslog" ∷ "sysalternates" ∷ "sysaltusages" ∷ "sysattributes" ∷ "sysauditoptions"
    ∷ "sysaudits_01" ∷ "sysaudits_02" ∷ "sysaudits_03" ∷ "sysaudits_04" ∷ "sysaudits_05"
    ∷ "sysaudits_06" ∷ "sysaudits_07" ∷ "sysaudits_08" ∷ "syscharsets" ∷ "syscolumns"
    ∷ "syscomments" ∷ "sysconfigures" ∷ "sysconstraints" ∷ "syscoordinations" ∷ "syscurconfigs"
    ∷ "sysdatabases" ∷ "sysdepends" ∷ "sysdevices" ∷ "sysencryptkeys" ∷ "sysengines" ∷ "sysgams"
    ∷ "sysindexes" ∷ "sysinstances" ∷ "sysjars" ∷ "syskeys" ∷ "syslanguages" ∷ "syslisteners"
    ∷ "syslocks" ∷ "sysloginroles" ∷ "syslogins" ∷ "syslogs" ∷ "syslogshold" ∷ "sysmessages"
    ∷ "sysmonitors" ∷ "sysobjects" ∷ "sysoptions" ∷ "syspartitionkeys" ∷ "syspartitions"
    ∷ "sysprocedures" ∷ "sysprocesses" ∷ "sysprotects" ∷ "sysquerymetrics" ∷ "sysqueryplans"
    ∷ "sysreferences" ∷ "sysremotelogins" ∷ "sysresourcelimits" ∷ "sysroles" ∷ "syssecmechs"
    ∷ "syssegments" ∷ "sysservers" ∷ "syssessions" ∷ "sysslices" ∷ "syssrvroles" ∷ "sysstatistics"
    ∷ "systabstats" ∷ "systhresholds" ∷ "systimeranges" ∷ "systransactions" ∷ "systypes"
    ∷ "sysusages" ∷ "sysusermessages" ∷ "sysusers" ∷ "sysxtypes" ∷ []

-- `isSystemTable`
unfoldable pub is_system_table : String → Bool
unfolding trim lower
is_system_table name = includes sql_server_system_tables (lower (trim name))

module _ (l : TsqlString) where
  -- `escapeId`
  unfoldable pub escape_id : String → String
  escape_id s = if s == "*" then "*" else l.escape_id s

  -- `patchFieldName` without a number
  unfoldable pub patch_field_name : String → String
  patch_field_name s = slice_last (substring_one (l.escape s))

  -- `patchFieldName` with a number; the number 0 counts as none
  unfoldable pub patch_field_name_at : String → ℕ → String
  unfolding patch_field_name
  patch_field_name_at s zero = patch_field_name s
  patch_field_name_at s (suc i) = "x" & patch_field_name s & decimal (suc i)

  -- the name that a field has at a count: `patchFieldNameWithCounter`, `validateLiteralWithCounter`
  unfoldable pub name_at : String → ℕ → String
  unfolding patch_field_name
  name_at s n = patch_field_name (s & decimal n)

  -- `escapeTable`
  unfoldable pub escape_table : String → Result String
  unfolding is_system_table escape_id
  escape_table s =
      if has_char b'.' s || is_system_table s
      then err (invalid_query "Illegal table name")
      else ok (escape_id s)

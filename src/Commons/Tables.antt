-- ===== src/Commons/Tables.antt =====
-- `parseTableData` of schema_commons.ts: the rows of the columns of all tables, by table.
pub mod Grouping
use velo_external_db.Base.{String, Bool, List, [], ◌∷◌, ◌++◌, ◌==◌, if◌then◌else◌}

-- A row of information_schema.columns.
pub record Row : Type 0 where
  pub table_name : String
  pub field : String
  pub type : String

abbrev pub Tables : Type 0
Tables = List (String × List Row)

-- `arr = o[r.table_name] || []`, `arr.push(r)`, `o[r.table_name] = arr`
unfoldable pub add_row : Tables → Row → Tables
add_row [] r = (r.table_name, r ∷ []) ∷ []
add_row ((name, rows) ∷ tables) r =
    let rest = add_row tables r in
    if name == r.table_name then (name, rows ++ r ∷ []) ∷ tables else (name, rows) ∷ rest

abbrev pub add_rows : Tables → List Row → Tables
add_rows tables [] = tables
add_rows tables (r ∷ rs) = add_rows (add_row tables r) rs

-- `parseTableData`
unfoldable pub parse_table_data : List Row → Tables
unfolding add_row
parse_table_data rows = add_rows [] rows

-- ===== src/Postgres/Provider.antt =====
-- postgres_schema_provider.ts, sql_exception_translator.ts and postgres_capabilities.ts. The pool of
-- connections runs a statement with its parameters, and fails with an error of the driver.
pub mod Guarded
pub mod Listing
use Prim.Native.Char.{Char, code}
use velo_external_db.Base.{
  eqb, ◌||◌, ℕ, String, Bool, true, false, Option, none, some, List, [], ◌∷◌, ◌++◌, map, filter, ok,
  err, ◌==◌, ◌&◌, includes, join, traverse, Outcome, if◌then◌else◌,
}
use velo_external_db.Commons.Errors.{
  Error, Result, or_empty, field_does_not_exist, field_already_exists, item_already_exists,
  collection_does_not_exist, db_connection, collection_change_not_supported, new_unrecognized,
  other_error,
}
use velo_external_db.Commons.Effects.{Exec, pure, lift, throw, ◌>>=◌, ◌>>◌}
use velo_external_db.Commons.Schema.{validate_system_fields}
use velo_external_db.Commons.Tables.{Row, parse_table_data}
use velo_external_db.Types.{InputField, ResponseField, ColumnCapabilities}
use velo_external_db.Schemas.Operations.{
  DataOperation, query, count, query_referenced, aggregate, insert, update, remove, truncate,
  insert_references, remove_references, offset,
}
use velo_external_db.Service.Storage.{Table, CollectionCapabilities}
use velo_external_db.Postgres.Sql.{escape_identifier}
use velo_external_db.Postgres.Schema.{case_of, translate_type, db_type_for, column_to_db_column_sql}

-- An error of the driver.
pub record DriverError : Type 0 where
  pub code : Option String
  pub message : String
  pub table : Option String
  pub detail : Option String

pub record Pool (S : Type 0) : Type 0 where
  pub query : String → List String → S → Outcome DriverError (List Row) × S

-- `err.code` in a template literal
abbrev printed : Option String → String
printed none = "undefined"
printed (some s) = s

-- the text after a prefix
abbrev strip : String → String → Option String
strip String.[] s = some s
strip (String.◌∷◌ p ps) String.[] = none
strip (String.◌∷◌ p ps) (String.◌∷◌ c s) = if eqb (code p) (code c) then strip ps s else none

abbrev ended : String → String → Option String
ended last s = elim (strip last s) [ some rest ↦ some "" | none ↦ none ]

abbrev first_of : {A : Type 0} → Option A → Option A → Option A
first_of (some a) other = some a
first_of none other = other

abbrev with_char : Char → Option String → Option String
with_char c none = none
with_char c (some s) = some (String.◌∷◌ c s)

-- `(.*)` and what follows it: the longest text of a line that is followed by `last`
abbrev before_last : String → String → Option String
before_last last String.[] = ended last ""
before_last last (String.◌∷◌ c s) =
    let longer = with_char c (before_last last s) in
    if eqb (code c) 10 || eqb (code c) 13
    then ended last (String.◌∷◌ c s)
    else first_of longer (ended last (String.◌∷◌ c s))

abbrev matched : Option String → String → Option String
matched none last = none
matched (some rest) last = before_last last rest

-- `msg.match(regex)[1]` for a regular expression of a prefix, `(.*)` and a suffix
abbrev first_match : String → String → String → Option String
first_match prefix last String.[] = matched (strip prefix "") last
first_match prefix last (String.◌∷◌ c s) =
    first_of (matched (strip prefix (String.◌∷◌ c s)) last) (first_match prefix last s)

-- `extractDuplicatedItem` of the detail of an error
unfoldable pub extract_duplicated_item : Option String → String
extract_duplicated_item none = ""
extract_duplicated_item (some detail) =
    or_empty (first_match "Key (_id)=(" ") already exists." detail)

-- what an error of each code becomes
abbrev translations : DriverError → String → Option String → List (String × Error)
translations e collection_name field_name =
    ("42703", field_does_not_exist "Collection does not contain a field with this name" "" "")
    ∷ ("42701", field_already_exists "Collection already has a field with the same name" "" "")
    ∷ (
      "23505",
      item_already_exists ("Item already exists: " & e.message) (or_empty e.table)
          (extract_duplicated_item e.detail),
    )
    ∷ ("42P01", collection_does_not_exist "Collection does not exists" (or_empty e.table))
    ∷ (
      "28P01",
      db_connection
          ("Access to database denied - probably wrong credentials,sql message:  " & e.message),
    )
    ∷ (
      "3D000",
      db_connection
          ("Database does not exists or you don't have access to it, sql message: " & e.message),
    )
    ∷ ("ENOTFOUND", db_connection "Database host is unavailable.")
    ∷ ("EAI_AGAIN", db_connection "Database host is unavailable.")
    ∷ ("22P02", collection_change_not_supported e.message collection_name (or_empty field_name))
    ∷ []

abbrev or_unrecognized : DriverError → Option Error → Error
or_unrecognized e none = new_unrecognized (printed e.code & ", " & e.message)
or_unrecognized e (some translated) = translated

-- `notThrowingTranslateErrorCodes`
unfoldable pub not_throwing_translate_error_codes : DriverError → String → Option String → Error
unfolding extract_duplicated_item
not_throwing_translate_error_codes e collection_name field_name =
    or_unrecognized e (case_of (printed e.code) (translations e collection_name field_name))

abbrev read_write_operations : List DataOperation
read_write_operations =
    query ∷ count ∷ query_referenced ∷ aggregate ∷ insert ∷ update ∷ remove ∷ truncate
    ∷ insert_references ∷ remove_references ∷ []

abbrev read_only_operations : List DataOperation
read_only_operations = query ∷ count ∷ query_referenced ∷ aggregate ∷ []

-- `ColumnsCapabilities`, operators by their adapter names
abbrev text_operators : List String
text_operators =
    "eq" ∷ "ne" ∷ "contains" ∷ "begins" ∷ "ends" ∷ "in" ∷ "gt" ∷ "gte" ∷ "lt" ∷ "lte" ∷ []

abbrev ordered_operators : List String
ordered_operators = "eq" ∷ "ne" ∷ "gt" ∷ "gte" ∷ "lt" ∷ "lte" ∷ []

abbrev able : Bool → List String → ColumnCapabilities
able sortable operators = record { sortable = sortable; column_query_operators = operators }

unfoldable pub columns_capabilities : List (String × ColumnCapabilities)
columns_capabilities =
    ("text", able true text_operators)
    ∷ ("url", able true text_operators)
    ∷ ("number", able true (ordered_operators ++ "in" ∷ []))
    ∷ ("boolean", able true ("eq" ∷ []))
    ∷ ("image", able false [])
    ∷ ("object", able false text_operators)
    ∷ ("datetime", able true ordered_operators)
    ∷ ("time", able true ordered_operators)
    ∷ ("date", able true ordered_operators)
    ∷ []

-- `?? EmptyCapabilities`
abbrev or_unable : Option ColumnCapabilities → ColumnCapabilities
or_unable none = able false []
or_unable (some c) = c

-- The field keeps the rest of its row too, the names of the table and of the data type; no code reads
-- them of a field, and they are left out.
unfoldable pub append_additional_row_details : Row → ResponseField
unfolding translate_type columns_capabilities
append_additional_row_details row = record {
  field = row.field;
  type = translate_type row.type;
  subtype = none;
  precision = none;
  is_primary = false;
  capabilities = some (or_unable (case_of (translate_type row.type) columns_capabilities));
}

unfoldable pub collection_capabilities : List String → CollectionCapabilities
collection_capabilities field_names = record {
  data_operations =
      if includes field_names "_id" then read_write_operations else read_only_operations;
  paging_mode = offset;
}

abbrev pub table_for : String → List Row → Table
table_for name rows = record {
  id = name;
  fields = map append_additional_row_details rows;
  capabilities = some (collection_capabilities (map (λ r. r.field) rows));
}

-- `f.isPrimary` as a condition
abbrev is_primary_column : InputField → Bool
is_primary_column f = elim f.is_primary [ none ↦ false | some b ↦ b ]

-- The queries of the columns.
abbrev column_rows : String
column_rows =
    "SELECT table_name, column_name AS field, data_type, udt_name AS type, character_maximum_length FROM information_schema.columns WHERE table_schema = $1 AND table_name = $2 ORDER BY table_name"

abbrev pub list_rows : String
list_rows =
    "SELECT table_name, column_name AS field, data_type, udt_name AS type FROM information_schema.columns WHERE table_schema = $1 ORDER BY table_name"

abbrev pub table_of : String × List Row → Table
table_of (name, rows) = table_for name rows

module _ {S : Type 0} (pool : Pool S) where
  abbrev translated : String → Option String → Outcome DriverError (List Row) → Result (List Row)
  translated collection_name field_name (ok rows) = ok rows
  translated collection_name field_name (err e) =
      err (not_throwing_translate_error_codes e collection_name field_name)

  -- `pool.query(sql, parameters).catch(err => translateErrorCodes(err, ...))`
  unfoldable pub run : String → List String → String → Option String → Exec S (List Row)
  unfolding not_throwing_translate_error_codes
  run sql parameters collection_name field_name s =
      let (answer, after) = pool.query sql parameters s in
      (translated collection_name field_name answer, after)

  -- the errors of this query are not translated
  abbrev uncaught : Outcome DriverError (List Row) → Result (List Row)
  uncaught (ok rows) = ok rows
  uncaught (err e) = err (other_error e.message none)

  abbrev listed : Result (List Row) → Result (List Table)
  listed (ok rows) = ok (map table_of (parse_table_data rows))
  listed (err e) = err e

  unfoldable pub list : Exec S (List Table)
  unfolding parse_table_data append_additional_row_details collection_capabilities
  list s =
      let (answer, after) = pool.query list_rows ("public" ∷ []) s in
      (listed (uncaught answer), after)

  unfoldable pub create : String → List InputField → Exec S (Unit {0})
  unfolding run column_to_db_column_sql escape_identifier
  create collection_name columns = do
    db_columns ← lift (traverse column_to_db_column_sql columns)
    rows ←
        run
          ("CREATE TABLE IF NOT EXISTS "
            & escape_identifier collection_name
            & " ("
            & join ", " db_columns
            & ", PRIMARY KEY ("
            & join ", " (map (λ f. escape_identifier f.name) (filter is_primary_column columns))
            & "))")
          [] collection_name none
    pure tt

  unfoldable pub drop : String → Exec S (Unit {0})
  unfolding run escape_identifier
  drop collection_name = do
    rows ← run ("DROP TABLE IF EXISTS " & escape_identifier collection_name) [] collection_name none
    pure tt

  abbrev altered : String → String → Option String → Exec S (Unit {0})
  altered collection_name change field_name = do
    rows ←
        run ("ALTER TABLE " & escape_identifier collection_name & change) [] collection_name
          field_name
    pure tt

  unfoldable pub add_column : String → InputField → Exec S (Unit {0})
  unfolding validate_system_fields run db_type_for escape_identifier
  add_column collection_name column = do
    lift (validate_system_fields column.name)
    type ← lift (db_type_for column)
    altered collection_name (" ADD " & escape_identifier column.name & " " & type) none

  unfoldable pub change_column_type : String → InputField → Exec S (Unit {0})
  unfolding validate_system_fields run db_type_for escape_identifier
  change_column_type collection_name column = do
    lift (validate_system_fields column.name)
    type ← lift (db_type_for column)
    altered collection_name
        (" ALTER COLUMN "
          & escape_identifier column.name
          & " TYPE "
          & type
          & " USING ("
          & escape_identifier column.name
          & "::"
          & type
          & ")")
        (some column.name)

  unfoldable pub remove_column : String → String → Exec S (Unit {0})
  unfolding validate_system_fields run escape_identifier
  remove_column collection_name column_name = do
    lift (validate_system_fields column_name)
    altered collection_name (" DROP COLUMN " & escape_identifier column_name) none

  -- no rows: there is no such collection
  abbrev described : String → List Row → Result Table
  described collection_name [] =
      err (collection_does_not_exist "Collection does not exists" collection_name)
  described collection_name (r ∷ rows) = ok (table_for collection_name (r ∷ rows))

  unfoldable pub describe_collection : String → Exec S Table
  unfolding run append_additional_row_details collection_capabilities
  describe_collection collection_name = do
    rows ← run column_rows ("public" ∷ collection_name ∷ []) collection_name none
    lift (described collection_name rows)

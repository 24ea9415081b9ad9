-- ===== src/MySql/Statements.antt =====
-- mysql_data_provider.ts: the statements that the connection is asked to run, with their
-- parameters. `quote` is `escapeId` of the package mysql, `moment` is
-- `moment(date).format('YYYY-MM-DD HH:mm:ss')`.
pub mod Names
pub mod Balance
pub mod Writes
use velo_external_db.Base.{
  ℕ, String, Bool, true, false, ◌&&◌, not, Option, none, List, [], ◌∷◌, ◌++◌, map, ok, err, ◌>>=◌,
  ◌==◌, ◌&◌, flat_map, join, length, has_char, if◌then◌else◌,
}
use velo_external_db.Commons.Values.{
  ℤ, pos, Value, num, str, arr, Items, nil, cons, Item, get, is_object,
}
use velo_external_db.Commons.Errors.{Result, type_error, invalid_query}
use velo_external_db.Commons.Runtime.{Runtime}
use velo_external_db.Types.{AdapterFilter, Sort, ResponseField}
use velo_external_db.Converters.Validation.{Aggregation}
use velo_external_db.Postgres.Statements.{patch_date_time_value, update_fields_for}
use velo_external_db.MySql.Operators.{ParsedFilter, escape_id, wild_card_with}
use velo_external_db.MySql.Filter.{transform}
use velo_external_db.MySql.Clauses.{
  order_by, select_fields_for, parse_aggregation, ParsedAggregation,
}

pub record Statement : Type 0 where
  pub sql : String
  pub parameters : List Value

abbrev pub of_values : List Value → Items
of_values [] = nil
of_values (v ∷ vs) = cons v (of_values vs)

abbrev pub counted : ℕ → Value
counted n = num (pos n)

module _ (r : Runtime) (quote : String → String) (moment : Option ℤ → String) where
  unfoldable pub escape_table : String → Result String
  escape_table t =
      if has_char b'.' t then err (invalid_query "Illegal table name") else ok (quote t)

  -- `patchObjectField` of one value
  abbrev json_value : Value → Value
  json_value v = if is_object v then str (r.json_stringify v) else v

  -- `asParamArrays(patchItem(item))`
  unfoldable pub as_params : Item → List Value
  unfolding patch_date_time_value is_object
  as_params item = map (λ e. json_value (patch_date_time_value r moment e.1)) item

  -- `find`, for a filter that is parsed and a name that is escaped
  unfoldable pub find_statement :
      String → List Sort → ℕ → ℕ → List String → ParsedFilter → Statement
  unfolding order_by select_fields_for
  find_statement table sort skip limit projection p = record {
    sql =
        "SELECT "
        & select_fields_for quote projection
        & " FROM "
        & table
        & " "
        & p.filter_expr
        & " "
        & order_by quote sort
        & " LIMIT ?, ?";
    parameters = p.parameters ++ counted skip ∷ counted limit ∷ [];
  }

  unfoldable pub find : String → AdapterFilter → List Sort → ℕ → ℕ → List String → Result Statement
  unfolding transform find_statement escape_table
  find collection_name f sort skip limit projection = do
    p ← transform r quote f
    table ← escape_table collection_name
    ok (find_statement table sort skip limit projection p)

  unfoldable pub count_statement : String → ParsedFilter → Statement
  count_statement table p = record {
    sql = "SELECT COUNT(*) AS num FROM " & table & " " & p.filter_expr;
    parameters = p.parameters;
  }

  unfoldable pub count : String → AdapterFilter → Result Statement
  unfolding transform count_statement escape_table
  count collection_name f = do
    p ← transform r quote f
    table ← escape_table collection_name
    ok (count_statement table p)

  -- `insert`, for a name that is escaped; the rows are one parameter, which the driver spreads
  unfoldable pub insert_statement : String → List Item → List ResponseField → Bool → Statement
  unfolding as_params escape_id
  insert_statement table items fields upsert = record {
    sql =
        (if upsert then "REPLACE" else "INSERT")
        & " INTO "
        & table
        & " ("
        & join ", " (map (λ f. escape_id quote f.field) fields)
        & ") VALUES ?";
    parameters = arr (of_values (map (λ i. arr (of_values (as_params i))) items)) ∷ [];
  }

  unfoldable pub insert : String → List Item → List ResponseField → Bool → Result Statement
  unfolding insert_statement escape_table
  insert collection_name items fields upsert = do
    table ← escape_table collection_name
    ok (insert_statement table items fields upsert)

  -- one of the updates of `update`
  unfoldable pub update_query : String → List String → String
  unfolding escape_id
  update_query table fields =
      "UPDATE "
      & table
      & " SET "
      & join ", " (map (λ f. escape_id quote f & " = ?") fields)
      & " WHERE _id = ?"

  -- the values of an item for the fields, then its identifier, patched
  unfoldable pub updatable : List String → Item → List Value
  unfolding as_params
  updatable fields item = as_params (map (λ k. (k, get k item)) (fields ++ "_id" ∷ []))

  -- the updates of items, one after the other
  unfoldable pub update_statement : String → List String → List Item → Statement
  unfolding update_query updatable
  update_statement table fields items = record {
    sql = join ";" (map (λ i. update_query table fields) items);
    parameters = flat_map (updatable fields) items;
  }

  -- `update`: the first item says which fields are updated
  unfoldable pub update : String → List Item → Result Statement
  unfolding update_fields_for update_statement escape_table
  update collection_name [] = err (type_error "Cannot convert undefined or null to object")
  update collection_name (item ∷ items) = do
    table ← escape_table collection_name
    ok (update_statement table (update_fields_for item) (item ∷ items))

  unfoldable pub delete_statement : String → List String → Statement
  unfolding wild_card_with
  delete_statement table item_ids = record {
    sql = "DELETE FROM " & table & " WHERE _id IN (" & wild_card_with (length item_ids) "?" & ")";
    parameters = map str item_ids;
  }

  unfoldable pub delete : String → List String → Result Statement
  unfolding escape_table delete_statement
  delete collection_name item_ids = do
    table ← escape_table collection_name
    ok (delete_statement table item_ids)

  unfoldable pub truncate : String → Result Statement
  unfolding escape_table
  truncate collection_name = do
    table ← escape_table collection_name
    ok (record { sql = "TRUNCATE " & table; parameters = [] })

  -- `aggregate`, for a filter and an aggregation that are parsed
  unfoldable pub aggregate_statement :
      String → List Sort → ℕ → ℕ → ParsedFilter → ParsedAggregation → Statement
  unfolding order_by escape_id
  aggregate_statement table sort skip limit p a = record {
    sql =
        "SELECT "
        & a.fields_statement
        & " FROM "
        & table
        & " "
        & p.filter_expr
        & " GROUP BY "
        & join ", " (map (escape_id quote) a.group_by_columns)
        & " "
        & a.having_filter
        & " "
        & order_by quote sort
        & " LIMIT ?, ?";
    parameters = p.parameters ++ (a.parameters ++ counted skip ∷ counted limit ∷ []);
  }

  unfoldable pub aggregate :
      String → AdapterFilter → Aggregation → List Sort → ℕ → ℕ → Result Statement
  unfolding transform parse_aggregation aggregate_statement escape_table
  aggregate collection_name f aggregation sort skip limit = do
    p ← transform r quote f
    a ← parse_aggregation quote r aggregation
    table ← escape_table collection_name
    ok (aggregate_statement table sort skip limit p a)

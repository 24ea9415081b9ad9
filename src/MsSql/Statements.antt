-- ===== src/MsSql/Statements.antt =====
-- mssql_data_provider.ts: the statements that the pool of connections is asked to run, with their
-- named parameters; and the aggregations of sql_filter_transformer.ts.
pub mod Named
pub mod Shared
use velo_external_db.Base.{
  ℕ, zero, suc, String, Bool, true, false, Option, none, some, List, [], ◌∷◌, ◌++◌, map, ok, ◌>>=◌,
  ◌==◌, ◌&◌, flat_map, join, ltb, decimal, if◌then◌else◌,
}
use velo_external_db.Commons.Values.{Value, str, Item, keys}
use velo_external_db.Commons.Errors.{Result}
use velo_external_db.Commons.Runtime.{Runtime}
use velo_external_db.Types.{AdapterFilter, Sort, ResponseField}
use velo_external_db.Converters.Validation.{Projection, Aggregation}
use velo_external_db.Postgres.Operators.{Inline, adapter_function_to_sql}
use velo_external_db.Postgres.Clauses.{extract_group_by_names, alias_key}
use velo_external_db.Postgres.Statements.{update_fields_for}
use velo_external_db.MySql.Text.{trim}
use velo_external_db.MySql.Clauses.{order_by, select_fields_for, create_fields_statement_array}
use velo_external_db.MsSql.Sql.{
  TsqlString, text, reference, Sql, join_sql, assign, escape_id, escape_table, patch_field_name,
  patch_field_name_at,
}
use velo_external_db.MsSql.Filter.{ParsedFilter, parse_filter, transform, start}

pub record Statement : Type 0 where
  pub sql : Sql
  pub parameters : Item

pub record ParsedAggregation : Type 0 where
  pub fields_statement : String
  pub group_by_columns : List String
  pub having_filter : ParsedFilter

-- `extractFilterExprAndParams`
abbrev pub having : Sql → Sql
having [] = []
having (p ∷ ps) = text "HAVING " ∷ p ∷ ps

unfoldable pub extract_filter_expr_and_params : List ParsedFilter → ParsedFilter
extract_filter_expr_and_params [] = record { filter_expr = []; parameters = [] }
extract_filter_expr_and_params (p ∷ ps) = record {
  filter_expr = having p.filter_expr;
  parameters = p.parameters;
}

module _ (r : Runtime) (l : TsqlString) where
  abbrev add_alias : Projection → Inline → Inline
  add_alias p inline = elim p.function [
    | none ↦ inline
    | some f ↦
        (alias_key p.alias, adapter_function_to_sql f & "(" & escape_id l p.name & ")") ∷ inline
  ]

  -- `aliasToFunction`: a later alias comes first
  unfoldable pub alias_to_function : List Projection → Inline → Inline
  unfolding adapter_function_to_sql escape_id
  alias_to_function [] inline = inline
  alias_to_function (p ∷ ps) inline = alias_to_function ps (add_alias p inline)

  -- `parseAggregation`, for a final filter that is parsed
  unfoldable pub parsed_aggregation : Aggregation → List ParsedFilter → ParsedAggregation
  unfolding create_fields_statement_array extract_group_by_names extract_filter_expr_and_params
  parsed_aggregation aggregation filters = record {
    fields_statement = join ", " (create_fields_statement_array l.escape_id aggregation.projection);
    group_by_columns = extract_group_by_names aggregation.projection;
    having_filter = extract_filter_expr_and_params filters;
  }

  -- `parseAggregation`: its counters start anew
  unfoldable pub parse_aggregation : Aggregation → Result ParsedAggregation
  unfolding alias_to_function parsed_aggregation parse_filter
  parse_aggregation aggregation = do
    (filters, after) ←
        parse_filter r l (alias_to_function aggregation.projection []) aggregation.post_filter
          (start r l)
    ok (parsed_aggregation aggregation filters)

  unfoldable pub paging_query_for : ℕ → ℕ → String
  unfolding trim
  paging_query_for skip limit =
      let offset_sql = if ltb 0 skip then "OFFSET " & l.escape_number skip & " ROWS" else "" in
      let limit_sql =
        if ltb 0 skip then "FETCH NEXT " & l.escape_number limit & " ROWS ONLY" else "" in
      trim (offset_sql & " " & limit_sql)

  -- `find`, for a filter that is parsed and a name that is escaped
  unfoldable pub find_statement :
      String → List Sort → ℕ → ℕ → List String → ParsedFilter → Statement
  unfolding order_by select_fields_for paging_query_for
  find_statement table sort skip limit projection p = record {
    sql =
        text ("SELECT " & select_fields_for l.escape_id projection & " FROM " & table & " ")
        ∷ (p.filter_expr
            ++ text (" " & order_by l.escape_id sort & " " & paging_query_for skip limit) ∷ []);
    parameters = p.parameters;
  }

  unfoldable pub find : String → AdapterFilter → List Sort → ℕ → ℕ → List String → Result Statement
  unfolding transform find_statement escape_table
  find collection_name f sort skip limit projection = do
    p ← transform r l f
    table ← escape_table l collection_name
    ok (find_statement table sort skip limit projection p)

  unfoldable pub count_statement : String → ParsedFilter → Statement
  count_statement table p = record {
    sql = text ("SELECT COUNT(*) as num FROM " & table & " ") ∷ p.filter_expr;
    parameters = p.parameters;
  }

  unfoldable pub count : String → AdapterFilter → Result Statement
  unfolding transform count_statement escape_table
  count collection_name f = do
    p ← transform r l f
    table ← escape_table l collection_name
    ok (count_statement table p)

  -- `patch`
  unfoldable pub patch : ℕ → Item → Item
  unfolding patch_field_name_at
  patch i item = map (λ e. (patch_field_name_at l e.0 i, e.1)) item

  -- `(@key, ...)` for the keys of an item
  abbrev row : ℕ → Item → Sql
  row i item =
      text "("
      ∷ (join_sql ", " (map (λ k. reference (patch_field_name_at l k i) ∷ []) (keys item))
          ++ text ")" ∷ [])

  abbrev pub rows : ℕ → List Item → List Sql
  rows i [] = []
  rows i (item ∷ items) = row i item ∷ rows (suc i) items

  -- the reduction of `insert`: an item after the other
  abbrev pub patch_all : ℕ → Item → List Item → Item
  patch_all i o [] = o
  patch_all i o (item ∷ items) = patch_all (suc i) (assign o (patch i item)) items

  abbrev names_of : List String → String
  names_of fields = join ", " (map (escape_id l) fields)

  -- what stands before the rows of `insert`, and after them
  abbrev before_rows : String → List String → Bool → String
  before_rows table fields true = "MERGE " & table & " as target USING (VALUES "
  before_rows table fields false = "INSERT INTO " & table & " (" & names_of fields & ") VALUES "

  abbrev after_rows : List String → Bool → String
  after_rows fields true =
      ") as source ("
      & names_of fields
      & ") ON target._id = source._id WHEN NOT MATCHED  THEN INSERT ("
      & names_of fields
      & ") VALUES ("
      & join ", " (map (λ f. "source." & f) fields)
      & ") WHEN MATCHED THEN UPDATE SET "
      & join ", " (map (λ f. escape_id l f & " = source." & f) fields)
      & ";"
  after_rows fields false = ""

  unfoldable pub insert_statement : String → List Item → List String → Bool → Statement
  unfolding patch patch_field_name_at escape_id
  insert_statement table items fields upsert = record {
    sql =
        text (before_rows table fields upsert)
        ∷ (join_sql ", " (rows 0 items) ++ text (after_rows fields upsert) ∷ []);
    parameters = patch_all 0 [] items;
  }

  unfoldable pub insert : String → List Item → List ResponseField → Bool → Result Statement
  unfolding insert_statement escape_table
  insert collection_name items fields upsert = do
    table ← escape_table l collection_name
    ok (insert_statement table items (map (λ f. f.field) fields) upsert)

  unfoldable pub update_single : String → Item → Result Statement
  unfolding update_fields_for patch patch_field_name escape_id escape_table
  update_single collection_name item = do
    table ← escape_table l collection_name
    ok (record {
      sql =
          text ("UPDATE " & table & " SET ")
          ∷ (join_sql ", " (
                map (λ f. text (escape_id l f & " = ") ∷ reference (patch_field_name l f) ∷ [])
                  (update_fields_for item))
              ++ text " WHERE _id = " ∷ reference (patch_field_name l "_id") ∷ []);
      parameters = assign [] (patch 0 item);
    })

  -- `_id0`, `_id1`, ... for identifiers
  abbrev pub id_entries : ℕ → List String → Item
  id_entries i [] = []
  id_entries i (t ∷ ts) = (patch_field_name l ("_id" & decimal i), str t) ∷ id_entries (suc i) ts

  unfoldable pub delete : String → List String → Result Statement
  unfolding patch_field_name escape_table
  delete collection_name item_ids = do
    table ← escape_table l collection_name
    ok (record {
      sql =
          text ("DELETE FROM " & table & " WHERE _id IN (")
          ∷ (join_sql ", " (map (λ k. reference k ∷ []) (keys (id_entries 0 item_ids)))
              ++ text ")" ∷ []);
      parameters = assign [] (id_entries 0 item_ids);
    })

  unfoldable pub truncate : String → Result Statement
  unfolding escape_table
  truncate collection_name = do
    table ← escape_table l collection_name
    ok (record { sql = text ("TRUNCATE TABLE " & table) ∷ []; parameters = [] })

  -- `aggregate`, for a filter and an aggregation that are parsed
  unfoldable pub aggregate_statement :
      String → List Sort → ℕ → ℕ → ParsedFilter → ParsedAggregation → Statement
  unfolding order_by escape_id paging_query_for
  aggregate_statement table sort skip limit p a = record {
    sql =
        text ("SELECT " & a.fields_statement & " FROM " & table & " ")
        ∷ (p.filter_expr
            ++ text (" GROUP BY " & names_of a.group_by_columns & " ")
              ∷ (a.having_filter.filter_expr
                  ++ text (" " & order_by l.escape_id sort & " " & paging_query_for skip limit)
                    ∷ []));
    parameters = assign (assign [] p.parameters) a.having_filter.parameters;
  }

  unfoldable pub aggregate :
      String → AdapterFilter → Aggregation → List Sort → ℕ → ℕ → Result Statement
  unfolding transform parse_aggregation aggregate_statement escape_table
  aggregate collection_name f aggregation sort skip limit = do
    p ← transform r l f
    a ← parse_aggregation aggregation
    table ← escape_table l collection_name
    ok (aggregate_statement table sort skip limit p a)

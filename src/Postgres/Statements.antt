-- ===== src/Postgres/Statements.antt =====
-- postgres_data_provider.ts: the statements that the pool of connections is asked to run, with their
-- parameters. `moment` is `moment(date).format('YYYY-MM-DD HH:mm:ss')`, of the package moment.
pub mod Complete
pub mod Writes
use velo_external_db.Base.{
  ℕ, zero, suc, ◌+◌, ◌*◌, String, Bool, true, false, not, Option, none, some, List, [], ◌∷◌, ◌++◌,
  map, ok, err, ◌>>=◌, ◌==◌, ◌&◌, filter, flat_map, join, length, if◌then◌else◌,
}
use velo_external_db.Commons.Values.{ℤ, pos, Value, num, str, date, Item, get, keys}
use velo_external_db.Commons.Iso.{is_iso_fraction}
use velo_external_db.Commons.Errors.{Result, type_error}
use velo_external_db.Commons.Runtime.{Runtime}
use velo_external_db.Commons.Text.{text_of}
use velo_external_db.Types.{AdapterFilter, Sort, ResponseField}
use velo_external_db.Converters.Validation.{Aggregation}
use velo_external_db.Postgres.Sql.{
  text, placeholder, Sql, join_sql, escape_identifier, variables, prepare_statement_variables,
}
use velo_external_db.Postgres.Operators.{ParsedFilter}
use velo_external_db.Postgres.Filter.{transform}
use velo_external_db.Postgres.Clauses.{
  order_by, select_fields_for, parse_aggregation, ParsedAggregation,
}

pub record Statement : Type 0 where
  pub sql : Sql
  pub parameters : List Value

-- one row of `prepareStatementVariablesForBulkInsert`, whose first variable is given
abbrev pub segment : ℕ → ℕ → Sql
segment from columns = text "(" ∷ (join_sql "," (variables from columns) ++ text ")" ∷ [])

abbrev pub segments : ℕ → ℕ → ℕ → List Sql
segments from zero columns = []
segments from (suc rows) columns = segment from columns ∷ segments (from + columns) rows columns

-- `prepareStatementVariablesForBulkInsert`
unfoldable pub prepare_statement_variables_for_bulk_insert : ℕ → ℕ → Sql
prepare_statement_variables_for_bulk_insert rows columns = join_sql "," (segments 1 rows columns)

-- `updateFieldsFor` of data_commons.ts
unfoldable pub update_fields_for : Item → List String
update_fields_for item = filter (λ f. not (f == "_id")) (keys item)

module _ (r : Runtime) (moment : Option ℤ → String) where
  -- `patchDateTimeValue` of data_commons.ts
  unfoldable pub patch_date_time_value : Value → Value
  unfolding text_of is_iso_fraction
  patch_date_time_value (date t) = str (moment t)
  patch_date_time_value v =
      if is_iso_fraction (text_of r v) then str (moment (r.calendar.of_value v)) else v

  -- `asParamArrays(patchDateTime(item))`
  unfoldable pub as_params : Item → List Value
  unfolding patch_date_time_value
  as_params item = map (λ e. patch_date_time_value e.1) item

  -- `OFFSET $n LIMIT $n+1`
  abbrev pub paging : ℕ → Sql
  paging offset =
      text " OFFSET " ∷ placeholder offset ∷ text " LIMIT " ∷ placeholder (offset + 1) ∷ []

  abbrev pub counted : ℕ → Value
  counted n = num (pos n)

  -- `find`, for a filter that is parsed
  unfoldable pub find_statement :
      String → List Sort → ℕ → ℕ → List String → ParsedFilter → Statement
  unfolding order_by select_fields_for escape_identifier
  find_statement collection_name sort skip limit projection p = record {
    sql =
        text (
          "SELECT "
          & select_fields_for projection
          & " FROM "
          & escape_identifier collection_name
          & " ")
        ∷ (p.filter_expr ++ text (" " & order_by sort) ∷ paging p.offset);
    parameters = p.parameters ++ counted skip ∷ counted limit ∷ [];
  }

  unfoldable pub find : String → AdapterFilter → List Sort → ℕ → ℕ → List String → Result Statement
  unfolding transform find_statement
  find collection_name f sort skip limit projection = do
    p ← transform r f
    ok (find_statement collection_name sort skip limit projection p)

  unfoldable pub count_statement : String → ParsedFilter → Statement
  unfolding escape_identifier
  count_statement collection_name p = record {
    sql =
        text ("SELECT COUNT(*) AS num FROM " & escape_identifier collection_name & " ")
        ∷ p.filter_expr;
    parameters = p.parameters;
  }

  unfoldable pub count : String → AdapterFilter → Result Statement
  unfolding transform count_statement
  count collection_name f = do p ← transform r f; ok (count_statement collection_name p)

  abbrev excluded : ResponseField → String
  excluded f = escape_identifier f.field & " = EXCLUDED." & escape_identifier f.field

  abbrev upsert_addon : Bool → List ResponseField → String
  upsert_addon true fields = " ON CONFLICT (_id) DO UPDATE SET " & join ", " (map excluded fields)
  upsert_addon false fields = ""

  unfoldable pub insert : String → List Item → List ResponseField → Bool → Statement
  unfolding as_params prepare_statement_variables_for_bulk_insert escape_identifier
  insert collection_name items fields upsert = record {
    sql =
        text (
          "INSERT INTO "
          & escape_identifier collection_name
          & " ("
          & join ", " (map (λ f. escape_identifier f.field) fields)
          & ") VALUES ")
        ∷ (prepare_statement_variables_for_bulk_insert (length items) (length fields)
            ++ text (upsert_addon upsert fields) ∷ []);
    parameters = flat_map as_params items;
  }

  -- `"field" = $n` for each field
  abbrev pub assignments : ℕ → List String → List Sql
  assignments from [] = []
  assignments from (f ∷ fs) =
      (text (escape_identifier f & " = ") ∷ placeholder from ∷ []) ∷ assignments (from + 1) fs

  -- the update of one item; its parameters are those of the fields, then the identifier
  unfoldable pub update_one : String → List String → Item → Statement
  unfolding patch_date_time_value escape_identifier
  update_one collection_name fields item = record {
    sql =
        text ("UPDATE " & escape_identifier collection_name & " SET ")
        ∷ (join_sql ", " (assignments 1 fields)
            ++ text " WHERE _id = " ∷ placeholder (length fields + 1) ∷ []);
    parameters = map (λ k. patch_date_time_value (get k item)) (fields ++ "_id" ∷ []);
  }

  -- the statements of `update`; the first item says which fields are updated
  unfoldable pub update : String → List Item → Result (List Statement)
  unfolding update_fields_for update_one
  update collection_name [] = err (type_error "Cannot convert undefined or null to object")
  update collection_name (item ∷ items) =
      ok (map (update_one collection_name (update_fields_for item)) (item ∷ items))

  unfoldable pub delete : String → List String → Statement
  unfolding prepare_statement_variables escape_identifier
  delete collection_name item_ids = record {
    sql =
        text ("DELETE FROM " & escape_identifier collection_name & " WHERE _id IN (")
        ∷ (prepare_statement_variables (length item_ids) 1 ++ text ")" ∷ []);
    parameters = map str item_ids;
  }

  unfoldable pub truncate : String → Statement
  unfolding escape_identifier
  truncate collection_name = record {
    sql = text ("TRUNCATE " & escape_identifier collection_name) ∷ [];
    parameters = [];
  }

  -- `aggregate`, for a filter and an aggregation that are parsed
  unfoldable pub aggregate_statement :
      String → List Sort → ℕ → ℕ → ParsedFilter → ParsedAggregation → Statement
  unfolding order_by escape_identifier
  aggregate_statement collection_name sort skip limit p a = record {
    sql =
        text ("SELECT " & a.fields_statement & " FROM " & escape_identifier collection_name & " ")
        ∷ (p.filter_expr
            ++ text (" GROUP BY " & join ", " (map escape_identifier a.group_by_columns) & " ")
              ∷ (a.having_filter.filter_expr
                  ++ text (" " & order_by sort) ∷ paging a.having_filter.offset));
    parameters = p.parameters ++ (a.having_filter.parameters ++ counted skip ∷ counted limit ∷ []);
  }

  unfoldable pub aggregate :
      String → AdapterFilter → Aggregation → List Sort → ℕ → ℕ → Result Statement
  unfolding transform parse_aggregation aggregate_statement
  aggregate collection_name f aggregation sort skip limit = do
    p ← transform r f
    a ← parse_aggregation r aggregation p.offset
    ok (aggregate_statement collection_name sort skip limit p a)

-- ===== src/MySql/Clauses.antt =====
-- sql_filter_transformer.ts of the MySQL adapter, beside its filters: sorts, projections and
-- aggregations.
use velo_external_db.Base.{
  String, none, some, List, [], ◌∷◌, ◌++◌, map, ok, ◌>>=◌, ◌==◌, ◌&◌, flat_map, join, if◌then◌else◌,
}
use velo_external_db.Commons.Values.{Value, str}
use velo_external_db.Commons.Errors.{Result, or_empty}
use velo_external_db.Commons.Runtime.{Runtime}
use velo_external_db.Types.{Sort}
use velo_external_db.Converters.Validation.{Projection, Aggregation}
use velo_external_db.Postgres.Operators.{adapter_function_to_sql}
use velo_external_db.Postgres.Clauses.{direction_for, extract_group_by_names}
use velo_external_db.MySql.Operators.{ParsedFilter, escape_id}
use velo_external_db.MySql.Filter.{parse_filter}

pub record ParsedAggregation : Type 0 where
  pub fields_statement : String
  pub group_by_columns : List String
  pub having_filter : String
  pub parameters : List Value

abbrev pub sort_expr : List String → String
sort_expr [] = ""
sort_expr (e ∷ es) = "ORDER BY " & join ", " (e ∷ es)

-- `EmptyFilter` where there is no final filter
unfoldable pub extract_filter_expr_and_params : List ParsedFilter → ParsedFilter
extract_filter_expr_and_params [] = record { filter_expr = ""; parameters = [] }
extract_filter_expr_and_params (p ∷ ps) = record {
  filter_expr = if p.filter_expr == "" then "" else "HAVING " & p.filter_expr;
  parameters = p.parameters;
}

module _ (quote : String → String) where
  abbrev pub sort_on : Value → String → List String
  sort_on (str field_name) direction =
      (escape_id quote field_name & " " & direction_for direction) ∷ []
  sort_on v direction = []

  unfoldable pub parse_sort : Sort → List String
  unfolding escape_id
  parse_sort s = sort_on s.field_name s.direction

  unfoldable pub order_by : List Sort → String
  unfolding parse_sort
  order_by sort = sort_expr (flat_map parse_sort sort)

  unfoldable pub select_fields_for : List String → String
  unfolding escape_id
  select_fields_for projection = join ", " (map (escape_id quote) projection)

  -- what a projection with a function adds to the statement
  abbrev pub function_field : Projection → List String
  function_field p = elim p.function [
    | none ↦ []
    | some f ↦
        (adapter_function_to_sql f
          & "("
          & escape_id quote p.name
          & ") AS "
          & escape_id quote (or_empty p.alias))
        ∷ []
  ]

  -- `createFieldsStatementArray`
  unfoldable pub create_fields_statement_array : List Projection → List String
  unfolding extract_group_by_names adapter_function_to_sql escape_id
  create_fields_statement_array projection =
      map (escape_id quote) (extract_group_by_names projection)
      ++ flat_map function_field projection

  -- `parseAggregation`, for a final filter that is parsed
  unfoldable pub parsed_aggregation : Aggregation → List ParsedFilter → ParsedAggregation
  unfolding create_fields_statement_array extract_filter_expr_and_params
  parsed_aggregation aggregation filters =
      let having = extract_filter_expr_and_params filters in
      record {
        fields_statement = join ", " (create_fields_statement_array aggregation.projection);
        group_by_columns = extract_group_by_names aggregation.projection;
        having_filter = having.filter_expr;
        parameters = having.parameters;
      }

  -- `parseAggregation`
  unfoldable pub parse_aggregation : Runtime → Aggregation → Result ParsedAggregation
  unfolding parsed_aggregation parse_filter
  parse_aggregation r aggregation = do
    filters ← parse_filter r quote aggregation.post_filter
    ok (parsed_aggregation aggregation filters)

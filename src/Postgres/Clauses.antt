-- ===== src/Postgres/Clauses.antt =====
-- sql_filter_transformer.ts of the Postgres adapter, beside its filters: sorts, projections and
-- aggregations.
use velo_external_db.Base.{
  ℕ, String, Option, none, some, List, [], ◌∷◌, ◌++◌, map, ok, ◌>>=◌, ◌==◌, ◌&◌, flat_map, join,
  upper, if◌then◌else◌,
}
use velo_external_db.Commons.Values.{Value, str}
use velo_external_db.Commons.Errors.{Result, or_empty}
use velo_external_db.Commons.Runtime.{Runtime}
use velo_external_db.Types.{Sort, AdapterFunction}
use velo_external_db.Converters.Validation.{Projection, Aggregation}
use velo_external_db.Postgres.Sql.{text, Sql, escape_identifier}
use velo_external_db.Postgres.Operators.{ParsedFilter, Inline, adapter_function_to_sql}
use velo_external_db.Postgres.Filter.{parse_filter}

-- `direction || 'ASC'`, and `ASC` or `DESC` for it
abbrev pub direction_for : String → String
direction_for direction =
    if direction == "" then "ASC" else if upper direction == "ASC" then "ASC" else "DESC"

abbrev sort_on : Value → String → List String
sort_on (str field_name) direction =
    (escape_identifier field_name & " " & direction_for direction) ∷ []
sort_on v direction = []

unfoldable pub parse_sort : Sort → List String
unfolding escape_identifier
parse_sort s = sort_on s.field_name s.direction

abbrev sort_expr : List String → String
sort_expr [] = ""
sort_expr (e ∷ es) = "ORDER BY " & join ", " (e ∷ es)

unfoldable pub order_by : List Sort → String
unfolding parse_sort
order_by sort = sort_expr (flat_map parse_sort sort)

unfoldable pub select_fields_for : List String → String
unfolding escape_identifier
select_fields_for projection = join ", " (map escape_identifier projection)

-- `extractGroupByNames`
abbrev pub name_of_group : Projection → List String
name_of_group p = elim p.function [ none ↦ p.name ∷ [] | some f ↦ [] ]

unfoldable pub extract_group_by_names : List Projection → List String
extract_group_by_names projection = flat_map name_of_group projection

-- `FUNCTION("field")`
abbrev call : AdapterFunction → String → String
call f name = adapter_function_to_sql f & "(" & escape_identifier name & ")"

-- what a projection with a function adds to the statement
abbrev function_field : Projection → List String
function_field p = elim p.function [
  | none ↦ []
  | some f ↦ (call f p.name & " AS " & escape_identifier (or_empty p.alias)) ∷ []
]

unfoldable pub fields_statement : List Projection → List String
unfolding extract_group_by_names adapter_function_to_sql escape_identifier
fields_statement projection =
    map escape_identifier (extract_group_by_names projection) ++ flat_map function_field projection

-- an alias that is missing is the key "undefined"
abbrev pub alias_key : Option String → String
alias_key none = "undefined"
alias_key (some alias) = alias

abbrev add_alias : Projection → Inline → Inline
add_alias p inline = elim p.function [
  | none ↦ inline
  | some f ↦ (alias_key p.alias, call f p.name) ∷ inline
]

-- `aliasToFunction`: a later alias comes first
unfoldable pub alias_to_function : List Projection → Inline → Inline
unfolding adapter_function_to_sql escape_identifier
alias_to_function [] inline = inline
alias_to_function (p ∷ ps) inline = alias_to_function ps (add_alias p inline)

-- `extractFilterExprAndParams`
abbrev pub having : Sql → Sql
having [] = []
having (p ∷ ps) = text "HAVING " ∷ p ∷ ps

unfoldable pub extract_filter_expr_and_params : List ParsedFilter → ℕ → ParsedFilter
extract_filter_expr_and_params [] offset = record {
  filter_expr = [];
  offset = offset;
  parameters = [];
}
extract_filter_expr_and_params (p ∷ ps) offset = record {
  filter_expr = having p.filter_expr;
  offset = p.offset;
  parameters = p.parameters;
}

pub record ParsedAggregation : Type 0 where
  pub fields_statement : String
  pub group_by_columns : List String
  pub having_filter : ParsedFilter

-- `parseAggregation`, for a final filter that is parsed
unfoldable pub parsed_aggregation : Aggregation → ℕ → List ParsedFilter → ParsedAggregation
unfolding fields_statement extract_filter_expr_and_params
parsed_aggregation aggregation offset filters = record {
  fields_statement = join ", " (fields_statement aggregation.projection);
  group_by_columns = extract_group_by_names aggregation.projection;
  having_filter = extract_filter_expr_and_params filters offset;
}

-- `parseAggregation`
unfoldable pub parse_aggregation : Runtime → Aggregation → ℕ → Result ParsedAggregation
unfolding alias_to_function parsed_aggregation parse_filter
parse_aggregation r aggregation offset = do
  filters ←
      parse_filter r (alias_to_function aggregation.projection []) aggregation.post_filter offset
  ok (parsed_aggregation aggregation offset filters)

-- ===== src/Converters/Aggregation.antt =====
-- aggregation_transformer.ts, and projectionFunctionFor of converters/utils.ts.
pub mod Valid
use velo_external_db.Base.{
  String, Option, none, some, List, [], ◌∷◌, ◌++◌, map, ok, err, ◌>>=◌, ◌==◌, ◌&◌, traverse,
  if◌then◌else◌,
}
use velo_external_db.Commons.Values.{Value}
use velo_external_db.Commons.Dates.{Calendar}
use velo_external_db.Commons.Errors.{Result, invalid_query, type_error}
use velo_external_db.Types.{AdapterFunction, avg, max, min, sum, count}
use velo_external_db.Converters.Filter.{transform as transform_filter}
use velo_external_db.Converters.Validation.{Projection, Aggregation}

-- `{ resultFieldName, [function]: { itemFieldName } }`: the first entry beside the alias, if any. The
-- field of a count is not read; for another function it is a text.
pub record Operation : Type 0 where
  pub result_field_name : String
  pub calculate : Option (String × String)

-- `Aggregation` of spi-model/data_source.ts
pub record GroupedOperations : Type 0 where
  pub grouping_fields : List String
  pub operations : List Operation

unfoldable pub wix_function_to_adapter_function : String → Result AdapterFunction
wix_function_to_adapter_function f =
    if f == "average"
    then ok avg
    else if f == "max"
    then ok max
    else if f == "min"
    then ok min
    else if f == "sum"
    then ok sum
    else if f == "count"
    then ok count
    else err (invalid_query ("Unrecognized function " & f))

-- `fieldAlias || fieldName`
abbrev pub alias_or : String → String → String
alias_or field_alias field_name = if field_alias == "" then field_name else field_alias

unfoldable pub projection_function_for : String → String → AdapterFunction → Projection
projection_function_for field_name field_alias count = record {
  name = "*";
  alias = some field_alias;
  function = some count;
}
projection_function_for field_name field_alias f = record {
  name = field_name;
  alias = some (alias_or field_alias field_name);
  function = some f;
}

abbrev pub calculation : String → Option (String × String) → Result Projection
calculation alias none = err (type_error "undefined is not iterable")
calculation alias (some (f, field_name)) = do
  function ← wix_function_to_adapter_function f
  ok (projection_function_for field_name alias function)

-- one of the operations
unfoldable pub projection_of : Operation → Result Projection
unfolding wix_function_to_adapter_function projection_function_for
projection_of operation = calculation operation.result_field_name operation.calculate

unfoldable pub operation_to_projection_functions : List Operation → Result (List Projection)
unfolding projection_of
operation_to_projection_functions operations = traverse projection_of operations

abbrev pub projection_field : String → Projection
projection_field f = record { name = f; alias = none; function = none }

-- `transform`; no aggregation is an empty one
unfoldable pub transform : Calendar → Option GroupedOperations → Value → Result (Option Aggregation)
unfolding operation_to_projection_functions transform_filter
transform c none final_filter = ok none
transform c (some a) final_filter = do
  functions ← operation_to_projection_functions a.operations
  post_filter ← transform_filter c final_filter
  ok (
      some (record {
        projection = map projection_field a.grouping_fields ++ functions;
        post_filter = post_filter;
      }))

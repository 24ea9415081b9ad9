-- ===== src/Schemas/Operations.antt =====
-- schema_utils.ts: query operators and data operations as a client is told of them.
use velo_external_db.Base.{String, ok, err, ◌==◌, ◌&◌, none, List, traverse, if◌then◌else◌}
use velo_external_db.Commons.Errors.{Result, other_error}

-- `QueryOperator` of spi-model/collection.ts
pub data QueryOperator : Type 0 where
  eq lt gt ne lte gte starts_with ends_with contains has_some has_all exists urlized : QueryOperator

-- `queryOperatorsToWixDataQueryOperators`
unfoldable pub query_operators_to_wix_data_query_operators : String → Result QueryOperator
query_operators_to_wix_data_query_operators op =
    if op == "eq"
    then ok eq
    else if op == "lt"
    then ok lt
    else if op == "gt"
    then ok gt
    else if op == "ne"
    then ok ne
    else if op == "lte"
    then ok lte
    else if op == "gte"
    then ok gte
    else if op == "begins"
    then ok starts_with
    else if op == "ends"
    then ok ends_with
    else if op == "contains"
    then ok contains
    else if op == "in"
    then ok has_some
    else err (other_error (op & " - Unsupported query operator") none)

unfoldable pub queries_to_wix_data_query_operators : List String → Result (List QueryOperator)
unfolding query_operators_to_wix_data_query_operators
queries_to_wix_data_query_operators ops = traverse query_operators_to_wix_data_query_operators ops

-- `DataOperation` of the types; spi-model/collection.ts has the same names.
pub data DataOperation : Type 0 where
  query count query_referenced aggregate insert update remove truncate : DataOperation
  insert_references remove_references : DataOperation

-- `dataOperationsToWixDataQueryOperators`: the text of the enumeration in spi-model/collection.ts
unfoldable pub data_operations_to_wix_data_query_operators : DataOperation → String
data_operations_to_wix_data_query_operators query = "QUERY"
data_operations_to_wix_data_query_operators count = "COUNT"
data_operations_to_wix_data_query_operators query_referenced = "QUERY_REFERENCED"
data_operations_to_wix_data_query_operators aggregate = "AGGREGATE"
data_operations_to_wix_data_query_operators insert = "INSERT"
data_operations_to_wix_data_query_operators update = "UPDATE"
data_operations_to_wix_data_query_operators remove = "REMOVE"
data_operations_to_wix_data_query_operators truncate = "TRUNCATE"
data_operations_to_wix_data_query_operators insert_references = "INSERT_REFERENCES"
data_operations_to_wix_data_query_operators remove_references = "REMOVE_REFERENCES"

pub data PagingMode : Type 0 where
  offset cursor : PagingMode

unfoldable pub paging_mode_to_wix_data_paging_mode : PagingMode → String
paging_mode_to_wix_data_paging_mode offset = "OFFSET"
paging_mode_to_wix_data_paging_mode cursor = "CURSOR"

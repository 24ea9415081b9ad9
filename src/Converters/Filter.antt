-- ===== src/Converters/Filter.antt =====
-- filter_transformer.ts: the filters and sorts of a request, as the adapters want them. A filter of
pub mod RoundTrip
-- a request is any value; its first key decides what it is.
use velo_external_db.Base.{
  String, Bool, true, false, not, ◌&&◌, List, [], ◌∷◌, ok, err, ◌>>=◌, ◌==◌, ◌&◌, includes, lower,
  starts_with_char, traverse, if◌then◌else◌,
}
use velo_external_db.Commons.Values.{
  Value, undefined, null, str, date, arr, obj, Items, nil, cons, end, field, entries, values, get,
  is_truthy,
}
use velo_external_db.Commons.Dates.{Calendar, patch_velo_date_value}
use velo_external_db.Commons.Errors.{Result, invalid_query, type_error}
use velo_external_db.Commons.Operators.{
  AdapterOperator, eq, gt, gte, include, lt, lte, ne, string_begins, string_ends, string_contains,
  and, or, not as op_not, urlized, matches,
}
use velo_external_db.Types.{AdapterFilter, empty, single, multi, Filters, done, also, Sort}

-- `wixOperatorToAdapterOperatorString`
unfoldable pub wix_operator_to_adapter_operator : String → Result AdapterOperator
wix_operator_to_adapter_operator operator =
    if operator == "$eq"
    then ok eq
    else if operator == "$ne"
    then ok ne
    else if operator == "$lt"
    then ok lt
    else if operator == "$lte"
    then ok lte
    else if operator == "$gt"
    then ok gt
    else if operator == "$gte"
    then ok gte
    else if operator == "$hasSome"
    then ok include
    else if operator == "$contains"
    then ok string_contains
    else if operator == "$startsWith"
    then ok string_begins
    else if operator == "$endsWith"
    then ok string_ends
    else if operator == "$or"
    then ok or
    else if operator == "$and"
    then ok and
    else if operator == "$not"
    then ok op_not
    else if operator == "$urlized"
    then ok urlized
    else if operator == "$matches"
    then ok matches
    else err (invalid_query ("Unrecognized operator " & operator))

-- `isMultipleFieldOperator`, of the filter's first key
unfoldable pub is_multiple_field_operator : String → Bool
is_multiple_field_operator key = includes ("$and" ∷ "$or" ∷ "$not" ∷ []) key

-- `isOperator`
unfoldable pub is_operator : String → Bool
is_operator operator = starts_with_char b'$' operator && not (operator == "$encrypted")

abbrev no_key : Result (String × Value)
no_key = err (type_error "Cannot read properties of undefined (reading 'startsWith')")

-- `valueAndOperatorFromFilter`, of the filter's value at its field: operator and value. A date, an
-- empty object and an empty array have no first key.
unfoldable pub value_and_operator_from_filter : Value → Result (String × Value)
unfolding is_operator
value_and_operator_from_filter (obj (field operator value fs)) =
    if is_operator operator then ok (operator, value) else ok ("$eq", obj (field operator value fs))
value_and_operator_from_filter (obj end) = no_key
value_and_operator_from_filter (arr nil) = no_key
value_and_operator_from_filter (date t) = no_key
value_and_operator_from_filter v = ok ("$eq", v)

-- what `values.map` throws for a value that is no array
abbrev no_map : Value → Result Filters
no_map undefined = err (type_error "Cannot read properties of undefined (reading 'map')")
no_map null = err (type_error "Cannot read properties of null (reading 'map')")
no_map v = err (type_error "values.map is not a function")

-- `isSortObject`, as a condition
unfoldable pub is_sort_object : Value → Result Bool
is_sort_object undefined =
    err (type_error "Cannot read properties of undefined (reading 'fieldName')")
is_sort_object null = err (type_error "Cannot read properties of null (reading 'fieldName')")
is_sort_object (obj fs) =
    ok (is_truthy (get "fieldName" (entries fs)) && is_truthy (get "order" (entries fs)))
is_sort_object v = ok false

-- `sort.every(...)`, which stops at the first element that fails
every_sort_object : List Value → Result Bool
every_sort_object [] = ok true
every_sort_object (s ∷ ss) =
    let rest = every_sort_object ss in do good ← is_sort_object s; if good then rest else ok false

-- one element of the sort, its order in lower case
abbrev sort_of : Value → Value → Result Sort
sort_of field_name (str order) = ok (record { field_name = field_name; direction = lower order })
sort_of field_name v = err (type_error "sorting.order.toLowerCase is not a function")

abbrev sorting : Value → Result Sort
sorting (obj fs) = sort_of (get "fieldName" (entries fs)) (get "order" (entries fs))
sorting v = err (type_error "sorting.order.toLowerCase is not a function")

unfoldable pub transform_sort : Value → Result (List Sort)
unfolding every_sort_object is_sort_object
transform_sort (arr vs) = do
  sortable ← every_sort_object (values vs)
  if sortable then traverse sorting (values vs) else ok []
transform_sort v = ok []

module _ (c : Calendar) where
  unfoldable pub transform_single : String → Value → Result AdapterFilter
  unfolding value_and_operator_from_filter wix_operator_to_adapter_operator patch_velo_date_value
  transform_single field_name v = do
    (operator, value) ← value_and_operator_from_filter v
    op ← wix_operator_to_adapter_operator operator
    ok (single op field_name (patch_velo_date_value c value))

  unfoldable mutual
    pub transform : Value → Result AdapterFilter
    transform (obj (field key value fs)) =
        let several = transform_values key value in
        if is_multiple_field_operator key then several else transform_single key value
    transform (arr (cons v vs)) = transform_single "0" v
    transform _ = ok empty

    pub transform_values : String → Value → Result AdapterFilter
    transform_values wix_operator (arr vs) = do
      operator ← wix_operator_to_adapter_operator wix_operator
      res ← transform_items vs
      ok (multi operator res)
    transform_values wix_operator v = do
      operator ← wix_operator_to_adapter_operator wix_operator
      res ← no_map v
      ok (multi operator res)

    pub transform_items : Items → Result Filters
    transform_items nil = ok done
    transform_items (cons v vs) = do f ← transform v; fs ← transform_items vs; ok (also f fs)

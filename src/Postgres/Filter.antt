-- ===== src/Postgres/Filter.antt =====
-- sql_filter_transformer.ts of the Postgres adapter. A filter becomes SQL, the offset after its
-- placeholders and its parameters. An inline map takes an alias to the SQL of its function.
pub mod Bindable
pub mod Fields
pub mod Binding
use velo_external_db.Base.{
  ℕ, zero, ◌+◌, String, Bool, true, false, not, ◌&&◌, none, List, [], ◌∷◌, ◌++◌, map, ok, err,
  ◌>>=◌, ◌==◌, ◌&◌, length, flat_map, has_char, before_char, after_char, codes, join, traverse,
  if◌then◌else◌,
}
use velo_external_db.Commons.Values.{
  pos, Value, undefined, null, bool, num, str, arr, obj, values, entries, get, is_truthy, is_object,
  is_null,
}
use velo_external_db.Commons.Dates.{is_date}
use velo_external_db.Commons.Errors.{Result, invalid_query, type_error, other_error}
use velo_external_db.Commons.Operators.{
  AdapterOperator, eq, gt, gte, include, lt, lte, ne, string_begins, string_ends, string_contains,
  and, or, not as op_not, matches,
}
use velo_external_db.Commons.Runtime.{Runtime}
use velo_external_db.Commons.Text.{text_of, template_text}
use velo_external_db.Types.{
  AdapterFilter, empty, single, multi, Filters, done, also, AdapterFunction, avg, max, min, sum,
  count,
}
use velo_external_db.Postgres.Sql.{
  text, placeholder, Sql, join_sql, escape_identifier, prepare_statement_variables,
}
use velo_external_db.Postgres.Operators.{
  ParsedFilter, Inline, inline_variable_if_needed, parameters_of, value_for_operator,
  adapter_operator_to_sql_operator, compared, matched, is_single_field_operator,
  is_single_field_string_operator, is_matches, is_eq, one, next_offset, joined, negated,
  where_clause,
}

module _ (r : Runtime) where
  -- `specItemToRegex` of data_commons.ts, printed as `join('')` prints it
  abbrev typed_spec : Value → Value → Result String
  typed_spec (str t) v =
      if t == "literal"
      then ok (text_of r v)
      else if t == "anyOf"
      then ok ("[" & template_text r v & "]")
      else err (invalid_query "spec must have type of literal or anyOf")
  typed_spec t v = err (invalid_query "spec must have type of literal or anyOf")

  unfoldable pub spec_item_to_regex : Value → Result String
  unfolding template_text
  spec_item_to_regex undefined =
      err (type_error "Cannot read properties of undefined (reading 'type')")
  spec_item_to_regex null = err (type_error "Cannot read properties of null (reading 'type')")
  spec_item_to_regex (obj fs) = typed_spec (get "type" (entries fs)) (get "value" (entries fs))
  spec_item_to_regex v = err (invalid_query "spec must have type of literal or anyOf")

  -- `specArrayToRegex`
  unfoldable pub spec_array_to_regex : Value → Result String
  unfolding spec_item_to_regex
  spec_array_to_regex (arr vs) = do
    parts ← traverse spec_item_to_regex (values vs)
    ok (join "" parts)
  spec_array_to_regex v = err (invalid_query "$matches must have array - spec property")

  -- `value.ignoreCase` and the pattern of `value.spec`
  unfoldable pub match_of : Value → Result (Bool × String)
  unfolding spec_array_to_regex
  match_of (obj fs) = do
    pattern ← spec_array_to_regex (get "spec" (entries fs))
    ok (is_truthy (get "ignoreCase" (entries fs)), pattern)
  match_of undefined = err (type_error "Cannot read properties of undefined (reading 'ignoreCase')")
  match_of null = err (type_error "Cannot read properties of null (reading 'ignoreCase')")
  match_of v = err (invalid_query "$matches must have array - spec property")

  -- `valueForStringOperator`
  unfoldable pub value_for_string_operator : AdapterOperator → Value → Value
  unfolding template_text
  value_for_string_operator string_contains v = str ("%" & template_text r v & "%")
  value_for_string_operator string_begins v = str (template_text r v & "%")
  value_for_string_operator string_ends v = str ("%" & template_text r v)
  value_for_string_operator op v = undefined

  -- a field whose name has a dot
  unfoldable pub parse_nested : AdapterOperator → String → Value → ℕ → Result (List ParsedFilter)
  unfolding value_for_operator adapter_operator_to_sql_operator parameters_of escape_identifier
  parse_nested op field_name v offset = do
    value ← value_for_operator v op offset
    one (
        compared
          (escape_identifier (before_char b'.' field_name)
            & " ->> '"
            & after_char b'.' field_name
            & "'")
          op v value)

  unfoldable pub parse_matches : String → Value → ℕ → Result (List ParsedFilter)
  unfolding match_of escape_identifier
  parse_matches field_name v offset = do found ← match_of v; one (matched field_name offset found)

  -- a comparison with a JSON value
  unfoldable pub parse_json : String → Value → ℕ → Result (List ParsedFilter)
  unfolding escape_identifier
  parse_json field_name v offset = one (record {
    filter_expr =
        text (escape_identifier field_name & "::jsonb @> ")
        ∷ placeholder offset
        ∷ text "::jsonb"
        ∷ [];
    offset = offset + 1;
    parameters = str (r.json_stringify v) ∷ [];
  })

  unfoldable pub parse_comparison :
      Inline → AdapterOperator → String → Value → ℕ → Result (List ParsedFilter)
  unfolding value_for_operator adapter_operator_to_sql_operator parameters_of
      inline_variable_if_needed
  parse_comparison inline op field_name v offset = do
    value ← value_for_operator v op offset
    one (compared (inline_variable_if_needed field_name inline) op v value)

  unfoldable pub parse_text :
      Inline → AdapterOperator → String → Value → ℕ → Result (List ParsedFilter)
  unfolding value_for_string_operator inline_variable_if_needed
  parse_text inline op field_name v offset = one (record {
    filter_expr =
        text (inline_variable_if_needed field_name inline & " ILIKE ") ∷ placeholder offset ∷ [];
    offset = offset + 1;
    parameters = value_for_string_operator op v ∷ [];
  })

  -- `parseFilter` of one field: the tests in the order of the source
  unfoldable pub parse_field :
      Inline → AdapterOperator → String → Value → ℕ → Result (List ParsedFilter)
  unfolding parse_nested parse_matches parse_json parse_comparison parse_text is_object is_date
  parse_field inline op field_name v offset =
      if has_char b'.' field_name
      then parse_nested op field_name v offset
      else if is_matches op
      then parse_matches field_name v offset
      else if is_eq op && is_object v && not (is_date v)
      then parse_json field_name v offset
      else if is_single_field_operator op
      then parse_comparison inline op field_name v offset
      else if is_single_field_string_operator op
      then parse_text inline op field_name v offset
      else ok []

  -- A logical operator on a plain value finds no list of filters; one whose first element is itself
  -- a filter of the adapter is not modelled.
  abbrev parse_single : Inline → AdapterOperator → String → Value → ℕ → Result (List ParsedFilter)
  parse_single inline and field_name v offset = err (type_error "value.reduce is not a function")
  parse_single inline or field_name v offset = err (type_error "value.reduce is not a function")
  parse_single inline op_not field_name v offset =
      err (type_error "Cannot read properties of undefined (reading 'filterExpr')")
  parse_single inline op field_name v offset = parse_field inline op field_name v offset

  -- `parseFilter`
  unfoldable mutual
    pub parse_filter : Inline → AdapterFilter → ℕ → Result (List ParsedFilter)
    parse_filter inline empty offset = ok []
    parse_filter inline (single op field_name v) offset = parse_single inline op field_name v offset
    parse_filter inline (multi and fs) offset = do
      (ps, after) ← parse_each inline fs offset
      one (joined " AND " ps after)
    parse_filter inline (multi or fs) offset = do
      (ps, after) ← parse_each inline fs offset
      one (joined " OR " ps after)
    parse_filter inline (multi op_not fs) offset = do
      ps ← parse_first inline fs offset
      negated ps offset
    parse_filter inline (multi op fs) offset =
        err (type_error "Cannot read properties of undefined (reading 'includes')")

    -- the reduction: the results of all, and the offset after them
    pub parse_each : Inline → Filters → ℕ → Result (List ParsedFilter × ℕ)
    parse_each inline done offset = ok ([], offset)
    parse_each inline (also f fs) offset = do
      here ← parse_filter inline f offset
      (rest, after) ← parse_each inline fs (next_offset here offset)
      ok (here ++ rest, after)

    -- `parseFilter(value[0], ...)`; of `undefined` it is empty
    pub parse_first : Inline → Filters → ℕ → Result (List ParsedFilter)
    parse_first inline done offset = ok []
    parse_first inline (also f fs) offset = parse_filter inline f offset

  unfoldable pub transform : AdapterFilter → Result ParsedFilter
  unfolding parse_filter
  transform f = do ps ← parse_filter [] f 1; ok (where_clause ps)

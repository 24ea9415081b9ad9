-- ===== src/MySql/Filter.antt =====
-- sql_filter_transformer.ts of the MySQL adapter. A filter becomes SQL and its parameters.
pub mod Ready
pub mod Values
pub mod Fields
pub mod Balance
pub mod EmptyParts
use velo_external_db.Base.{
  String, Bool, true, false, not, ◌&&◌, List, [], ◌∷◌, ok, err, ◌>>=◌, ◌&◌, has_char, before_char,
  after_char, if◌then◌else◌,
}
use velo_external_db.Commons.Values.{Value, str, is_object}
use velo_external_db.Commons.Dates.{is_date}
use velo_external_db.Commons.Errors.{Result, type_error}
use velo_external_db.Commons.Operators.{AdapterOperator, eq, and, or, not as op_not, urlized}
use velo_external_db.Commons.Runtime.{Runtime}
use velo_external_db.Types.{AdapterFilter, empty, single, multi, Filters, done, also}
use velo_external_db.Postgres.Operators.{
  is_single_field_operator, is_single_field_string_operator, is_matches, is_eq,
}
use velo_external_db.Postgres.Filter.{match_of, value_for_string_operator}
use velo_external_db.MySql.Operators.{
  ParsedFilter, escape_id, value_for_operator, compared, urlized_pattern, firsts, joined, one,
  negated, where_clause,
}

abbrev pub is_urlized : AdapterOperator → Bool
is_urlized urlized = true
is_urlized op = false

abbrev pub lower_if : Bool → String
lower_if ignore_case = if ignore_case then "LOWER" else ""

module _ (r : Runtime) (quote : String → String) where
  -- a field whose name has a dot
  unfoldable pub parse_nested : AdapterOperator → String → Value → Result (List ParsedFilter)
  unfolding value_for_operator compared escape_id
  parse_nested op field_name v = do
    sql ← value_for_operator v op
    one (
        compared
          (escape_id quote (before_char b'.' field_name)
            & " ->> '$."
            & after_char b'.' field_name
            & "'")
          op v sql)

  unfoldable pub parse_urlized : String → Value → Result (List ParsedFilter)
  unfolding urlized_pattern escape_id
  parse_urlized field_name v = do
    pattern ← urlized_pattern v
    one (record {
      filter_expr = "LOWER(" & escape_id quote field_name & ") RLIKE ?";
      parameters = str pattern ∷ [];
    })

  -- the result for a match with a pattern
  unfoldable pub matched : String → Bool × String → ParsedFilter
  unfolding escape_id
  matched field_name (ignore_case, pattern) = record {
    filter_expr =
        lower_if ignore_case
        & "("
        & escape_id quote field_name
        & ") RLIKE "
        & lower_if ignore_case
        & "(?)";
    parameters = str pattern ∷ [];
  }

  unfoldable pub parse_matches : String → Value → Result (List ParsedFilter)
  unfolding match_of matched
  parse_matches field_name v = do found ← match_of r v; one (matched field_name found)

  -- a comparison with a JSON value
  unfoldable pub parse_json : String → Value → Result (List ParsedFilter)
  unfolding escape_id
  parse_json field_name v = one (record {
    filter_expr = "JSON_CONTAINS(" & escape_id quote field_name & ", ?)";
    parameters = str (r.json_stringify v) ∷ [];
  })

  unfoldable pub parse_comparison : AdapterOperator → String → Value → Result (List ParsedFilter)
  unfolding value_for_operator compared escape_id
  parse_comparison op field_name v = do
    sql ← value_for_operator v op
    one (compared (escape_id quote field_name) op v sql)

  unfoldable pub parse_text : AdapterOperator → String → Value → Result (List ParsedFilter)
  unfolding value_for_string_operator escape_id
  parse_text op field_name v = one (record {
    filter_expr = escape_id quote field_name & " LIKE ?";
    parameters = value_for_string_operator r op v ∷ [];
  })

  -- `parseFilter` of one field: the tests in the order of the source
  unfoldable pub parse_field : AdapterOperator → String → Value → Result (List ParsedFilter)
  unfolding parse_nested parse_urlized parse_matches parse_json parse_comparison parse_text
      is_object is_date
  parse_field op field_name v =
      if has_char b'.' field_name
      then parse_nested op field_name v
      else if is_urlized op
      then parse_urlized field_name v
      else if is_matches op
      then parse_matches field_name v
      else if is_eq op && is_object v && not (is_date v)
      then parse_json field_name v
      else if is_single_field_operator op
      then parse_comparison op field_name v
      else if is_single_field_string_operator op
      then parse_text op field_name v
      else ok []

  -- A logical operator on a plain value finds no list of filters; one whose elements are themselves
  -- filters of the adapter is not modelled.
  abbrev parse_single : AdapterOperator → String → Value → Result (List ParsedFilter)
  parse_single and field_name v = err (type_error "value.map is not a function")
  parse_single or field_name v = err (type_error "value.map is not a function")
  parse_single op_not field_name v =
      err (type_error "Cannot read properties of undefined (reading 'filterExpr')")
  parse_single op field_name v = parse_field op field_name v

  -- `parseFilter`
  unfoldable mutual
    pub parse_filter : AdapterFilter → Result (List ParsedFilter)
    parse_filter empty = ok []
    parse_filter (single op field_name v) = parse_single op field_name v
    parse_filter (multi and fs) = do res ← parse_each fs; ps ← firsts res; one (joined " AND " ps)
    parse_filter (multi or fs) = do res ← parse_each fs; ps ← firsts res; one (joined " OR " ps)
    parse_filter (multi op_not fs) = do ps ← parse_first fs; negated ps
    parse_filter (multi op fs) =
        err (type_error "Cannot read properties of undefined (reading 'includes')")

    -- `value.map(this.parseFilter)`
    pub parse_each : Filters → Result (List (List ParsedFilter))
    parse_each done = ok []
    parse_each (also f fs) = do here ← parse_filter f; rest ← parse_each fs; ok (here ∷ rest)

    -- `parseFilter(value[0])`; of `undefined` it is empty
    pub parse_first : Filters → Result (List ParsedFilter)
    parse_first done = ok []
    parse_first (also f fs) = parse_filter f

  unfoldable pub transform : AdapterFilter → Result ParsedFilter
  unfolding parse_filter
  transform f = do ps ← parse_filter f; ok (where_clause ps)

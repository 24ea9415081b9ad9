-- ===== src/MsSql/Filter.antt =====
-- sql_filter_transformer.ts of the SQL Server adapter. A filter becomes SQL and named parameters. The
-- names are numbered by two counters that the whole parse shares: one for the names in the SQL, one
-- for the names of the parameters. An inline map takes an alias to the SQL of its function; a field
-- named like a property that every JavaScript object inherits is not modelled.
pub mod Ready
pub mod Assigned
pub mod Values
pub mod Naming
pub mod Binding
use velo_external_db.Base.{
  ℕ, zero, suc, ◌+◌, String, Bool, true, false, none, List, [], ◌∷◌, ◌++◌, map, ok, err, ◌>>=◌,
  ◌==◌, ◌&◌, length, codes, if◌then◌else◌,
}
use velo_external_db.Commons.Values.{
  Value, undefined, null, str, arr, obj, values, Item, put, is_null,
}
use velo_external_db.Commons.Errors.{Result, invalid_query, type_error, other_error}
use velo_external_db.Commons.Operators.{
  AdapterOperator, eq, include, ne, and, or, not as op_not, urlized,
}
use velo_external_db.Commons.Runtime.{Runtime}
use velo_external_db.Types.{AdapterFilter, empty, single, multi, Filters, done, also}
use velo_external_db.Postgres.Operators.{
  patch_true_false_value, is_single_field_operator, is_single_field_string_operator, is_matches,
  Inline,
}
use velo_external_db.Postgres.Filter.{match_of, value_for_string_operator}
use velo_external_db.MySql.Text.{trim, trim_start}
use velo_external_db.MySql.Operators.{adapter_operator_to_my_sql_operator, urlized_pattern}
use velo_external_db.MySql.Filter.{is_urlized, lower_if}
use velo_external_db.MsSql.Sql.{
  TsqlString, text, reference, Sql, join_sql, assign, escape_id, name_at,
}

pub record Counter : Type 0 where
  pub param_counter : ℕ
  pub value_counter : ℕ

pub record ParsedFilter : Type 0 where
  pub filter_expr : Sql
  pub parameters : Item

-- `adapterOperatorToMySqlOperator` and `a operator b` trimmed; a name in the SQL ends with a digit
abbrev pub comparison : String → String → Sql → Sql
comparison left operator [] = text (trim (left & " " & operator & " ")) ∷ []
comparison left operator (p ∷ ps) = text (trim_start (left & " " & operator & " ")) ∷ p ∷ ps

-- `ps.reduce((o, s) => ({ ...o, ...s.parameters }), o)`
abbrev pub assign_all : Item → List ParsedFilter → Item
assign_all o [] = o
assign_all o (p ∷ ps) = assign_all (assign o p.parameters) ps

abbrev pub joined : String → List ParsedFilter → ParsedFilter
joined separator ps = record {
  filter_expr = text "(" ∷ (join_sql separator (map (λ p. p.filter_expr) ps) ++ text ")" ∷ []);
  parameters = assign_all [] ps;
}

abbrev pub negated : List ParsedFilter → Result (List ParsedFilter)
negated [] = err (type_error "Cannot read properties of undefined (reading 'filterExpr')")
negated (p ∷ ps) = ok (
    record {
      filter_expr = text "NOT (" ∷ (p.filter_expr ++ text ")" ∷ []);
      parameters = p.parameters;
    }
    ∷ [])

-- `transform`, for a filter that is parsed
abbrev pub where_clause : List ParsedFilter → ParsedFilter
where_clause [] = record { filter_expr = []; parameters = [] }
where_clause (p ∷ ps) = record {
  filter_expr = text "WHERE " ∷ p.filter_expr;
  parameters = p.parameters;
}

abbrev some_length : ℕ → Result ℕ
some_length zero = err (invalid_query "$hasSome cannot have an empty list of arguments")
some_length (suc n) = ok (suc n)

-- `value.length` of `$hasSome`; `Array.from({ length: undefined })` is empty, and a `length` that an
-- object may have is not modelled: the error stands for it.
abbrev length_of : Value → Result ℕ
length_of undefined = some_length 0
length_of null = some_length 0
length_of (arr vs) = some_length (length (values vs))
length_of (str s) = some_length (length (codes s))
length_of (obj fs) = err (other_error "the length of an object" none)
length_of v = ok 0

abbrev pub Parts : Type 0
Parts = Result (List ParsedFilter × Counter)

module _ (r : Runtime) (l : TsqlString) where
  -- the names of `n` values, numbered on from a count
  abbrev pub names_from : String → ℕ → ℕ → List Sql
  names_from field_name from zero = []
  names_from field_name from (suc n) =
      (reference (name_at l field_name from) ∷ []) ∷ names_from field_name (suc from) n

  -- the entries of values, numbered on from a count
  abbrev pub entries_from : String → ℕ → List Value → Item
  entries_from field_name from [] = []
  entries_from field_name from (v ∷ vs) =
      (name_at l field_name from, v) ∷ entries_from field_name (suc from) vs

  abbrev pub after_values : ℕ → Counter → Counter
  after_values n c = record { param_counter = c.param_counter; value_counter = c.value_counter + n }

  abbrev pub after_params : ℕ → Counter → Counter
  after_params n c = record { param_counter = c.param_counter + n; value_counter = c.value_counter }

  -- `validateLiteralWithCounter`
  abbrev pub one_name : String → Counter → Result (Sql × Counter)
  one_name field_name c =
      ok (reference (name_at l field_name c.value_counter) ∷ [], after_values 1 c)

  -- `prepareStatementVariables`
  abbrev pub some_names : String → Counter → ℕ → Result (Sql × Counter)
  some_names field_name c n = ok (
    text "(" ∷ (join_sql ", " (names_from field_name c.value_counter n) ++ text ")" ∷ []),
    after_values n c,
  )

  -- `valueForOperator`
  unfoldable pub value_for_operator :
      String → Value → AdapterOperator → Counter → Result (Sql × Counter)
  unfolding is_null name_at
  value_for_operator field_name v include c = do n ← length_of v; some_names field_name c n
  value_for_operator field_name v eq c = if is_null v then ok ([], c) else one_name field_name c
  value_for_operator field_name v ne c = if is_null v then ok ([], c) else one_name field_name c
  value_for_operator field_name v op c = one_name field_name c

  -- `parametersFor`
  unfoldable pub parameters_for : String → Value → Counter → Item × Counter
  unfolding patch_true_false_value name_at
  parameters_for field_name undefined c = ([], c)
  parameters_for field_name null c = ([], c)
  parameters_for field_name (arr vs) c = (
    assign [] (entries_from field_name c.param_counter (values vs)),
    after_params (length (values vs)) c,
  )
  parameters_for field_name v c =
      ((name_at l field_name c.param_counter, patch_true_false_value v) ∷ [], after_params 1 c)

  -- `inlineVariableIfNeeded`
  unfoldable pub inline_variable_if_needed : String → Inline → String
  unfolding escape_id
  inline_variable_if_needed field_name [] = escape_id l field_name
  inline_variable_if_needed field_name ((k, f) ∷ inline) =
      if k == field_name then f else inline_variable_if_needed field_name inline

  -- SQL around the names of a value, with the parameters of what is sent for it
  abbrev pub finish : (Sql → Sql) → String → Value → Sql × Counter → Parts
  finish sql field_name sent (names, c) =
      let (parameters, after) = parameters_for field_name sent c in
      ok (record { filter_expr = sql names; parameters = parameters } ∷ [], after)

  unfoldable pub parse_comparison : Inline → AdapterOperator → String → Value → Counter → Parts
  unfolding value_for_operator parameters_for inline_variable_if_needed
      adapter_operator_to_my_sql_operator trim
  parse_comparison inline op field_name v c = do
    names ← value_for_operator field_name v op c
    finish
        (comparison (inline_variable_if_needed field_name inline)
          (adapter_operator_to_my_sql_operator op v))
        field_name v names

  unfoldable pub parse_text : Inline → AdapterOperator → String → Value → Counter → Parts
  unfolding value_for_operator parameters_for inline_variable_if_needed value_for_string_operator
      trim
  parse_text inline op field_name v c = do
    names ← value_for_operator field_name v op c
    finish (comparison (inline_variable_if_needed field_name inline) "LIKE") field_name
        (value_for_string_operator r op v) names

  -- texts are lowered by `toLocaleLowerCase`, read here as `toLowerCase`
  unfoldable pub parse_urlized : String → Value → Counter → Parts
  unfolding value_for_operator parameters_for urlized_pattern escape_id
  parse_urlized field_name v c = do
    names ← value_for_operator field_name v urlized c
    pattern ← urlized_pattern v
    finish (λ sql. text ("LOWER(" & escape_id l field_name & ") LIKE ") ∷ sql) field_name
        (str pattern) names

  abbrev pub match_sql : String → Bool → Sql → Sql
  match_sql field_name ignore_case sql =
      text (
        lower_if ignore_case
        & "("
        & escape_id l field_name
        & ") LIKE "
        & lower_if ignore_case
        & "(")
      ∷ (sql ++ text ")" ∷ [])

  -- `value.ignoreCase` is read before the name is numbered, the pattern after it: an error ends the
  -- parse wherever it comes from, so that the two are read together.
  unfoldable pub parse_matches : AdapterOperator → String → Value → Counter → Parts
  unfolding value_for_operator parameters_for match_of escape_id
  parse_matches op field_name v c = do
    (ignore_case, pattern) ← match_of r v
    names ← value_for_operator field_name v op c
    finish (match_sql field_name ignore_case) field_name (str pattern) names

  -- `parseFilter` of one field: the tests in the order of the source
  unfoldable pub parse_field : Inline → AdapterOperator → String → Value → Counter → Parts
  unfolding parse_comparison parse_text parse_urlized parse_matches
  parse_field inline op field_name v c =
      if is_single_field_operator op
      then parse_comparison inline op field_name v c
      else if is_single_field_string_operator op
      then parse_text inline op field_name v c
      else if is_urlized op
      then parse_urlized field_name v c
      else if is_matches op
      then parse_matches op field_name v c
      else ok ([], c)

  -- A logical operator on a plain value finds no list of filters; one whose elements are themselves
  -- filters of the adapter is not modelled.
  abbrev parse_single : Inline → AdapterOperator → String → Value → Counter → Parts
  parse_single inline and field_name v c = err (type_error "value.reduce is not a function")
  parse_single inline or field_name v c = err (type_error "value.reduce is not a function")
  parse_single inline op_not field_name v c =
      err (type_error "Cannot read properties of undefined (reading 'filterExpr')")
  parse_single inline op field_name v c = parse_field inline op field_name v c

  -- `parseFilter`. An operator of a field that has a list of filters for its value, and no field, is
  -- not modelled: an error stands for it.
  unfoldable mutual
    pub parse_filter : Inline → AdapterFilter → Counter → Parts
    parse_filter inline empty c = ok ([], c)
    parse_filter inline (single op field_name v) c = parse_single inline op field_name v c
    parse_filter inline (multi and fs) c = do
      (ps, after) ← parse_each inline fs c
      ok (joined " AND " ps ∷ [], after)
    parse_filter inline (multi or fs) c = do
      (ps, after) ← parse_each inline fs c
      ok (joined " OR " ps ∷ [], after)
    parse_filter inline (multi op_not fs) c = do
      (ps, after) ← parse_first inline fs c
      part ← negated ps
      ok (part, after)
    parse_filter inline (multi op fs) c =
        err (other_error "an operator of a field with a list of filters" none)

    -- the reduction: the results of all, one after the other
    pub parse_each : Inline → Filters → Counter → Parts
    parse_each inline done c = ok ([], c)
    parse_each inline (also f fs) c = do
      (here, next) ← parse_filter inline f c
      (rest, after) ← parse_each inline fs next
      ok (here ++ rest, after)

    -- `parseFilter(value[0], ...)`; of `undefined` it is empty
    pub parse_first : Inline → Filters → Counter → Parts
    parse_first inline done c = ok ([], c)
    parse_first inline (also f fs) c = parse_filter inline f c

  abbrev pub start : Counter
  start = record { param_counter = 0; value_counter = 0 }

  unfoldable pub transform : AdapterFilter → Result ParsedFilter
  unfolding parse_filter
  transform f = do (ps, after) ← parse_filter [] f start; ok (where_clause ps)

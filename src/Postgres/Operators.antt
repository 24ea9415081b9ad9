-- ===== src/Postgres/Operators.antt =====
-- sql_filter_transformer.ts of the Postgres adapter: operators, placeholders and parameters, and how
-- the parts of a filter are put together. `filterColumns`, which is always empty, is left out.
use velo_external_db.Base.{
  ℕ, zero, ◌+◌, String, Bool, true, false, none, List, [], ◌∷◌, ◌++◌, map, ok, err, ◌>>=◌, ◌==◌,
  ◌&◌, length, flat_map, codes, if◌then◌else◌,
}
use velo_external_db.Commons.Values.{
  pos, Value, undefined, null, bool, num, str, arr, values, is_null,
}
use velo_external_db.Commons.Errors.{Result, invalid_query, type_error, other_error}
use velo_external_db.Commons.Operators.{
  AdapterOperator, eq, gt, gte, include, lt, lte, ne, string_begins, string_ends, string_contains,
  matches,
}
use velo_external_db.Types.{AdapterFunction, avg, max, min, sum, count}
use velo_external_db.Postgres.Sql.{
  text, placeholder, Sql, join_sql, escape_identifier, prepare_statement_variables,
}

pub record ParsedFilter : Type 0 where
  pub filter_expr : Sql
  pub offset : ℕ
  pub parameters : List Value

abbrev pub Inline : Type 0
Inline = List (String × String)

unfoldable pub adapter_function_to_sql : AdapterFunction → String
adapter_function_to_sql avg = "AVG"
adapter_function_to_sql max = "MAX"
adapter_function_to_sql min = "MIN"
adapter_function_to_sql sum = "SUM"
adapter_function_to_sql count = "COUNT"

-- `inlineVariableIfNeeded`
unfoldable pub inline_variable_if_needed : String → Inline → String
unfolding escape_identifier
inline_variable_if_needed field_name [] = escape_identifier field_name
inline_variable_if_needed field_name ((k, f) ∷ inline) =
    if k == field_name then f else inline_variable_if_needed field_name inline

-- `patchTrueFalseValue`
unfoldable pub patch_true_false_value : Value → Value
patch_true_false_value (bool true) = num (pos 1)
patch_true_false_value (bool false) = num (pos 0)
patch_true_false_value v = v

-- `!isNull(value) ? [].concat(patchTrueFalseValue(value)) : []`: `concat` takes an array apart.
unfoldable pub parameters_of : Value → List Value
unfolding patch_true_false_value
parameters_of undefined = []
parameters_of null = []
parameters_of (arr vs) = values vs
parameters_of v = patch_true_false_value v ∷ []

-- `value.length` of `$hasSome`, for an array or a text. Of any other value the code goes on with an
-- offset that is not a number, which is not modelled: the error stands for that.
abbrev pub length_of : Value → Result ℕ
length_of (arr vs) = ok (length (values vs))
length_of (str s) = ok (length (codes s))
length_of null = err (type_error "Cannot read properties of null (reading 'length')")
length_of undefined = ok 0
length_of v = err (other_error "the offset is not a number" none)

abbrev pub some_variables : ℕ → ℕ → Result (Sql × ℕ)
some_variables zero offset = err (invalid_query "$hasSome cannot have an empty list of arguments")
some_variables (ℕ.suc n) offset =
    ok
      (text "(" ∷ (prepare_statement_variables (ℕ.suc n) offset ++ text ")" ∷ []), offset + ℕ.suc n)

abbrev pub one_variable : ℕ → Result (Sql × ℕ)
one_variable offset = ok (placeholder offset ∷ [], offset + 1)

-- `valueForOperator`: SQL and the offset after it
unfoldable pub value_for_operator : Value → AdapterOperator → ℕ → Result (Sql × ℕ)
unfolding is_null prepare_statement_variables
value_for_operator v include offset = do n ← length_of v; some_variables n offset
value_for_operator v eq offset = if is_null v then ok ([], offset) else one_variable offset
value_for_operator v ne offset = if is_null v then ok ([], offset) else one_variable offset
value_for_operator v op offset = one_variable offset

-- `adapterOperatorToMySqlOperator`, as a template literal prints it
unfoldable pub adapter_operator_to_sql_operator : AdapterOperator → Value → String
unfolding is_null
adapter_operator_to_sql_operator eq v = if is_null v then "IS NULL" else "="
adapter_operator_to_sql_operator ne v = if is_null v then "IS NOT NULL" else "<>"
adapter_operator_to_sql_operator lt v = "<"
adapter_operator_to_sql_operator lte v = "<="
adapter_operator_to_sql_operator gt v = ">"
adapter_operator_to_sql_operator gte v = ">="
adapter_operator_to_sql_operator include v = "IN"
adapter_operator_to_sql_operator op v = "undefined"

-- `a operator b` with the blank before an empty right side trimmed; nothing else can be blank at
-- an end, since a left side begins with a quote, a star or a function's name.
abbrev pub comparison : String → String → Sql → Sql
comparison left operator [] = text (left & " " & operator) ∷ []
comparison left operator (p ∷ ps) = text (left & " " & operator & " ") ∷ p ∷ ps

-- the result for a comparison with a value whose SQL and offset are given
abbrev pub compared : String → AdapterOperator → Value → Sql × ℕ → ParsedFilter
compared left op v (sql, after) = record {
  filter_expr = comparison left (adapter_operator_to_sql_operator op v) sql;
  offset = after;
  parameters = parameters_of v;
}

abbrev lower_if : Bool → String
lower_if ignore_case = if ignore_case then "LOWER" else ""

-- the result for a match with a pattern
abbrev pub matched : String → ℕ → Bool × String → ParsedFilter
matched field_name offset (ignore_case, pattern) = record {
  filter_expr =
      text (
        lower_if ignore_case
        & "("
        & escape_identifier field_name
        & ") ~ "
        & lower_if ignore_case
        & "(")
      ∷ placeholder offset
      ∷ text ")"
      ∷ [];
  offset = offset + 1;
  parameters = str pattern ∷ [];
}

-- the tests on an operator
abbrev pub is_single_field_operator : AdapterOperator → Bool
is_single_field_operator ne = true
is_single_field_operator lt = true
is_single_field_operator lte = true
is_single_field_operator gt = true
is_single_field_operator gte = true
is_single_field_operator include = true
is_single_field_operator eq = true
is_single_field_operator op = false

abbrev pub is_single_field_string_operator : AdapterOperator → Bool
is_single_field_string_operator string_contains = true
is_single_field_string_operator string_begins = true
is_single_field_string_operator string_ends = true
is_single_field_string_operator op = false

abbrev pub is_matches : AdapterOperator → Bool
is_matches matches = true
is_matches op = false

abbrev pub is_eq : AdapterOperator → Bool
is_eq eq = true
is_eq op = false

abbrev pub one : ParsedFilter → Result (List ParsedFilter)
one p = ok (p ∷ [])

-- `res.length === 1 ? res[0].offset : o.offset`
abbrev pub next_offset : List ParsedFilter → ℕ → ℕ
next_offset (p ∷ []) offset = p.offset
next_offset ps offset = offset

abbrev pub joined : String → List ParsedFilter → ℕ → ParsedFilter
joined separator ps offset = record {
  filter_expr = text "(" ∷ (join_sql separator (map (λ p. p.filter_expr) ps) ++ text ")" ∷ []);
  offset = offset;
  parameters = flat_map (λ p. p.parameters) ps;
}

abbrev pub negated : List ParsedFilter → ℕ → Result (List ParsedFilter)
negated [] offset = err (type_error "Cannot read properties of undefined (reading 'filterExpr')")
negated (p ∷ ps) offset = one (record {
  filter_expr = text "NOT (" ∷ (p.filter_expr ++ text ")" ∷ []);
  offset = next_offset (p ∷ ps) offset;
  parameters = p.parameters;
})

-- `transform`: the clause, the offset after it and the parameters
abbrev pub where_clause : List ParsedFilter → ParsedFilter
where_clause [] = record { filter_expr = []; offset = 1; parameters = [] }
where_clause (p ∷ ps) = record {
  filter_expr = text "WHERE " ∷ p.filter_expr;
  offset = p.offset;
  parameters = p.parameters;
}

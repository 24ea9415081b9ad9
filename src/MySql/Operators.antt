-- ===== src/MySql/Operators.antt =====
-- sql_filter_transformer.ts of the MySQL adapter: operators, placeholders and parameters, and how the
-- parts of a filter are put together; mysql_utils.ts. `quote` is `escapeId` of the package mysql.
use velo_external_db.Base.{
  ℕ, zero, suc, String, none, List, [], ◌∷◌, map, ok, err, ◌>>=◌, ◌==◌, ◌&◌, length, flat_map,
  codes, join, traverse, if◌then◌else◌, lower,
}
use velo_external_db.Commons.Values.{Value, undefined, null, str, arr, obj, values, is_null}
use velo_external_db.Commons.Errors.{Result, invalid_query, type_error, other_error}
use velo_external_db.Commons.Operators.{AdapterOperator, eq, gt, gte, include, lt, lte, ne}
use velo_external_db.Postgres.Operators.{parameters_of}
use velo_external_db.MySql.Text.{trim}

pub record ParsedFilter : Type 0 where
  pub filter_expr : String
  pub parameters : List Value

abbrev pub repeated : ℕ → String → List String
repeated zero char = []
repeated (suc n) char = char ∷ repeated n char

-- `wildCardWith`
unfoldable pub wild_card_with : ℕ → String → String
wild_card_with n char = join ", " (repeated n char)

-- `escapeId` of mysql_utils.ts
unfoldable pub escape_id : (String → String) → String → String
escape_id quote f = if f == "*" then "*" else quote f

abbrev some_wild_cards : ℕ → Result String
some_wild_cards zero = err (invalid_query "$hasSome cannot have an empty list of arguments")
some_wild_cards (suc n) = ok ("(" & wild_card_with (suc n) "?" & ")")

-- the list of `$hasSome`; `Array(undefined)` has one element, and a `length` that an object may have
-- is not modelled: the error stands for it.
abbrev wild_cards_for : Value → Result String
wild_cards_for undefined = err (invalid_query "$hasSome cannot have an empty list of arguments")
wild_cards_for null = err (invalid_query "$hasSome cannot have an empty list of arguments")
wild_cards_for (arr vs) = some_wild_cards (length (values vs))
wild_cards_for (str s) = some_wild_cards (length (codes s))
wild_cards_for (obj fs) = err (other_error "the length of an object" none)
wild_cards_for v = ok "(?)"

-- `valueForOperator`
unfoldable pub value_for_operator : Value → AdapterOperator → Result String
unfolding is_null wild_card_with
value_for_operator v include = wild_cards_for v
value_for_operator v eq = ok (if is_null v then "" else "?")
value_for_operator v ne = ok (if is_null v then "" else "?")
value_for_operator v op = ok "?"

-- `adapterOperatorToMySqlOperator`
unfoldable pub adapter_operator_to_my_sql_operator : AdapterOperator → Value → String
unfolding is_null
adapter_operator_to_my_sql_operator eq v = if is_null v then "IS NULL" else "="
adapter_operator_to_my_sql_operator ne v = if is_null v then "IS NOT NULL" else "<>"
adapter_operator_to_my_sql_operator lt v = "<"
adapter_operator_to_my_sql_operator lte v = "<="
adapter_operator_to_my_sql_operator gt v = ">"
adapter_operator_to_my_sql_operator gte v = ">="
adapter_operator_to_my_sql_operator include v = "IN"
adapter_operator_to_my_sql_operator op v = ""

-- the result for a comparison with a value whose SQL is given
unfoldable pub compared : String → AdapterOperator → Value → String → ParsedFilter
unfolding adapter_operator_to_my_sql_operator parameters_of trim
compared left op v sql = record {
  filter_expr = trim (left & " " & adapter_operator_to_my_sql_operator op v & " " & sql);
  parameters = parameters_of v;
}

-- `s.toLowerCase()`
abbrev pub lowered : Value → Result String
lowered (str s) = ok (lower s)
lowered undefined = err (type_error "Cannot read properties of undefined (reading 'toLowerCase')")
lowered null = err (type_error "Cannot read properties of null (reading 'toLowerCase')")
lowered v = err (type_error "s.toLowerCase is not a function")

-- `value.map(s => s.toLowerCase()).join('[- ]')`
unfoldable pub urlized_pattern : Value → Result String
unfolding lower
urlized_pattern (arr vs) = do parts ← traverse lowered (values vs); ok (join "[- ]" parts)
urlized_pattern undefined = err (type_error "Cannot read properties of undefined (reading 'map')")
urlized_pattern null = err (type_error "Cannot read properties of null (reading 'map')")
urlized_pattern v = err (type_error "value.map is not a function")

-- `r[0]` of each
abbrev pub firsts : List (List ParsedFilter) → Result (List ParsedFilter)
firsts [] = ok []
firsts ([] ∷ ps) = err (type_error "Cannot read properties of undefined (reading 'filterExpr')")
firsts ((p ∷ qs) ∷ ps) = do rest ← firsts ps; ok (p ∷ rest)

abbrev pub joined : String → List ParsedFilter → ParsedFilter
joined separator ps = record {
  filter_expr = "(" & join separator (map (λ p. p.filter_expr) ps) & ")";
  parameters = flat_map (λ p. p.parameters) ps;
}

abbrev pub one : ParsedFilter → Result (List ParsedFilter)
one p = ok (p ∷ [])

abbrev pub negated : List ParsedFilter → Result (List ParsedFilter)
negated [] = err (type_error "Cannot read properties of undefined (reading 'filterExpr')")
negated (p ∷ ps) =
    one (record { filter_expr = "NOT (" & p.filter_expr & ")"; parameters = p.parameters })

-- `transform`, for a filter that is parsed; of nothing it is `EmptyFilter`
abbrev pub where_clause : List ParsedFilter → ParsedFilter
where_clause [] = record { filter_expr = ""; parameters = [] }
where_clause (p ∷ ps) = record { filter_expr = "WHERE " & p.filter_expr; parameters = p.parameters }

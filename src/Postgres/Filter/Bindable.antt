-- ===== src/Postgres/Filter/Bindable.antt =====
-- The filters whose SQL takes their parameters, and the placeholders of one value.
use velo_external_db.Base.{
  has_char, ◌&&◌, ℕ, suc, ◌+◌, String, ◌≡◌, refl, ◌∙◌, ◌⊎◌, true, false, [], ◌∷◌, ◌++◌, ok, length,
  All, arith,
}
use velo_external_db.Commons.Values.{
  Value, undefined, null, bool, num, frac, str, date, arr, obj, cons, values, entries, get, is_null,
}
use velo_external_db.Commons.Operators.{
  AdapterOperator, eq, include, ne, and, or, not as op_not, urlized, matches,
}
use velo_external_db.Types.{AdapterFilter, empty, single, multi, Filters, done, also}
use velo_external_db.Postgres.Sql.{text, placeholder, Sql, prepare_statement_variables}
use velo_external_db.Postgres.Sql.Placeholders.{
  placeholders, range, placeholders-before_text, placeholders-prepare_statement_variables,
}
use velo_external_db.Postgres.Operators.{
  ParsedFilter, parameters_of, value_for_operator, comparison,
}

-- The SQL numbers its placeholders from `from` on, one for each parameter, and ends where they end.
abbrev pub Binds : ParsedFilter → ℕ → Type 0
Binds p from =
    (p.offset ≡ from + length p.parameters)
    × (placeholders p.filter_expr ≡ range from (length p.parameters))

-- Neither missing nor an array.
abbrev pub Plain : Value → Type 0
Plain undefined = ⊥
Plain null = ⊥
Plain (arr vs) = ⊥
Plain v = Unit

abbrev pub NotArray : Value → Type 0
NotArray (arr vs) = ⊥
NotArray v = Unit

abbrev pub NonEmptyArray : Value → Type 0
NonEmptyArray (arr (cons v vs)) = Unit
NonEmptyArray v = ⊥

-- A part of a pattern, and a pattern.
abbrev pub SpecItem : Value → Type 0
SpecItem (obj fs) =
    (get "type" (entries fs) ≡ str "literal") ⊎ (get "type" (entries fs) ≡ str "anyOf")
SpecItem v = ⊥

abbrev pub SpecArray : Value → Type 0
SpecArray (arr vs) = All SpecItem (values vs)
SpecArray v = ⊥

abbrev pub Matchable : Value → Type 0
Matchable (obj fs) = SpecArray (get "spec" (entries fs))
Matchable v = ⊥

-- The value that an operator takes.
abbrev pub Suits : AdapterOperator → Value → Type 0
Suits and v = ⊥
Suits or v = ⊥
Suits op_not v = ⊥
Suits include v = NonEmptyArray v
Suits eq v = NotArray v
Suits ne v = NotArray v
Suits matches v = Matchable v
Suits op v = Plain v

-- A filter that becomes SQL: one that says something.
abbrev pub Yields : AdapterFilter → Type 0
Yields empty = ⊥
Yields (single urlized f v) = ⊥
Yields (single op f v) = Unit
Yields (multi op fs) = Unit

-- The path of a nested field, which the SQL has between single quotes as it is, has none itself.
abbrev pub Enclosed : String → Type 0
Enclosed f = (has_char b'.' f && has_char 39 f) ≡ false

abbrev mutual
  pub Bindable : AdapterFilter → Type 0
  Bindable empty = Unit
  Bindable (single op f v) = Enclosed f × Suits op v
  Bindable (multi and fs) = EachBindable fs
  Bindable (multi or fs) = EachBindable fs
  Bindable (multi op_not (also f fs)) = Bindable f × Yields f
  Bindable (multi op fs) = ⊥

  pub EachBindable : Filters → Type 0
  EachBindable done = Unit
  EachBindable (also f fs) = Bindable f × EachBindable fs

-- The SQL of a value, with the parameters of the value.
abbrev pub Fits : AdapterOperator → Value → ℕ → Type 0
Fits op v from =
    (sql : Sql) × (value_for_operator v op from ≡ ok (sql, from + length (parameters_of v)))
    × (placeholders sql ≡ range from (length (parameters_of v)))

pub one_parameter : (v : Value) → Plain v → length (parameters_of v) ≡ 1
unfolding parameters_of
one_parameter (bool true) h = refl
one_parameter (bool false) h = refl
one_parameter (num n) h = refl
one_parameter (frac t) h = refl
one_parameter (str s) h = refl
one_parameter (date t) h = refl
one_parameter (obj fs) h = refl
one_parameter v h = elim h [ ]

one-Fits :
    (op : AdapterOperator) (v : Value) (from : ℕ)
    → Plain v
    → value_for_operator v op from ≡ ok (placeholder from ∷ [], from + 1)
    → Fits op v from
unfolding placeholders range
one-Fits op v from h e =
    (placeholder from ∷ [], rw (one_parameter v h) e, rw (one_parameter v h) refl)

some-Fits : (v : Value) (from : ℕ) → NonEmptyArray v → Fits include v from
unfolding value_for_operator parameters_of placeholders
some-Fits (arr (cons v vs)) from h = (
  text "(" ∷ (prepare_statement_variables (suc (length (values vs))) from ++ text ")" ∷ []),
  refl,
  placeholders-before_text (prepare_statement_variables (suc (length (values vs))) from) ")"
      ∙ placeholders-prepare_statement_variables (suc (length (values vs))) from,
)
some-Fits v from h = elim h [ ]

null-Fits :
    (op : AdapterOperator) (v : Value) (from : ℕ)
    → value_for_operator v op from ≡ ok ([], from)
    → length (parameters_of v) ≡ 0
    → Fits op v from
unfolding placeholders range
null-Fits op v from e none_left =
    let same : from + 0 ≡ from = omega arith in ([], rw (none_left, same) e, rw none_left refl)

eq-Fits : (v : Value) (from : ℕ) → NotArray v → Fits eq v from
unfolding value_for_operator parameters_of is_null
eq-Fits undefined from h = null-Fits eq undefined from refl refl
eq-Fits null from h = null-Fits eq null from refl refl
eq-Fits (arr vs) from h = elim h [ ]
eq-Fits v from h = one-Fits eq v from tt refl

ne-Fits : (v : Value) (from : ℕ) → NotArray v → Fits ne v from
unfolding value_for_operator parameters_of is_null
ne-Fits undefined from h = null-Fits ne undefined from refl refl
ne-Fits null from h = null-Fits ne null from refl refl
ne-Fits (arr vs) from h = elim h [ ]
ne-Fits v from h = one-Fits ne v from tt refl

pub Matchable-Plain : (v : Value) → Matchable v → Plain v
Matchable-Plain (obj fs) h = tt
Matchable-Plain v h = elim h [ ]

pub Suits-Fits : (op : AdapterOperator) (v : Value) (from : ℕ) → Suits op v → Fits op v from
unfolding value_for_operator
Suits-Fits include v from h = some-Fits v from h
Suits-Fits eq v from h = eq-Fits v from h
Suits-Fits ne v from h = ne-Fits v from h
Suits-Fits matches v from h = one-Fits matches v from (Matchable-Plain v h) refl
Suits-Fits and v from h = elim h [ ]
Suits-Fits or v from h = elim h [ ]
Suits-Fits op_not v from h = elim h [ ]
Suits-Fits op v from h = one-Fits op v from h refl

pub placeholders-comparison :
    (left operator : String) (sql : Sql)
    → placeholders (comparison left operator sql) ≡ placeholders sql
unfolding placeholders
placeholders-comparison left operator [] = refl
placeholders-comparison left operator (p ∷ ps) = refl

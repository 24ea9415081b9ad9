-- ===== src/MsSql/Filter/Ready.antt =====
-- What the SQL of a filter is to refer to: its values in order, the n-th under the name of its field
-- and n.
use velo_external_db.Base.{ℕ, ◌+◌, ok, err, List, [], ◌∷◌, ◌++◌, length}
use velo_external_db.Commons.Values.{Value, str, Item}
use velo_external_db.Commons.Operators.{
  AdapterOperator, string_begins, string_ends, string_contains, and, or, not as op_not, urlized,
  matches,
}
use velo_external_db.Commons.Runtime.{Runtime}
use velo_external_db.Types.{AdapterFilter, empty, single, multi, Filters, done, also}
use velo_external_db.Postgres.Operators.{parameters_of}
use velo_external_db.Postgres.Filter.{match_of, value_for_string_operator}
use velo_external_db.MySql.Operators.{urlized_pattern}
use velo_external_db.MySql.Filter.Ready.{TakesFlat, Says}
use velo_external_db.MsSql.Sql.{TsqlString}
use velo_external_db.MsSql.Filter.{entries_from}

abbrev mutual
  pub Ready : AdapterFilter → Type 0
  Ready empty = Unit
  Ready (single op f v) = TakesFlat op v
  Ready (multi and fs) = EachReady fs
  Ready (multi or fs) = EachReady fs
  Ready (multi op_not (also f fs)) = Says f × Ready f
  Ready (multi op fs) = ⊥

  pub EachReady : Filters → Type 0
  EachReady done = Unit
  EachReady (also f fs) = Ready f × EachReady fs

module _ (r : Runtime) (l : TsqlString) where
  -- the values that an operator compares a field with
  unfoldable pub compared_with : AdapterOperator → Value → List Value
  unfolding value_for_string_operator urlized_pattern match_of parameters_of
  compared_with urlized v = elim (urlized_pattern v) [ ok s ↦ str s ∷ [] | err e ↦ [] ]
  compared_with matches v = elim (match_of r v) [ ok (b, s) ↦ str s ∷ [] | err e ↦ [] ]
  compared_with string_begins v = value_for_string_operator r string_begins v ∷ []
  compared_with string_ends v = value_for_string_operator r string_ends v ∷ []
  compared_with string_contains v = value_for_string_operator r string_contains v ∷ []
  compared_with op v = parameters_of v

  -- the names and values of a filter whose first value has a number
  unfoldable mutual
    unfolding compared_with

    pub bindings : AdapterFilter → ℕ → Item
    bindings empty from = []
    bindings (single op f v) from = entries_from r l f from (compared_with op v)
    bindings (multi op_not fs) from = first_bindings fs from
    bindings (multi op fs) from = all_bindings fs from

    pub all_bindings : Filters → ℕ → Item
    all_bindings done from = []
    all_bindings (also f fs) from =
        let here = bindings f from in here ++ all_bindings fs (from + length here)

    pub first_bindings : Filters → ℕ → Item
    first_bindings done from = []
    first_bindings (also f fs) from = bindings f from

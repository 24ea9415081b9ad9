-- ===== src/Tests/MsSql.antt =====
-- SQL of the SQL Server adapter at concrete inputs.
use Prim.Native.Char.{code}
use velo_external_db.Base.{
  if◌then◌else◌, eqb, String, none, some, List, [], ◌∷◌, ok, err, ◌≡◌, refl, ◌&◌, decimal, Distinct,
  not-includes_iff,
}
use velo_external_db.Commons.Values.{pos, num, str, arr, nil, cons, Item, keys}
use velo_external_db.Commons.Errors.{Result}
use velo_external_db.Commons.Operators.{gt, eq, include, and, not}
use velo_external_db.Types.{AdapterFilter, single, multi, done, also, max}
use velo_external_db.Converters.Validation.{Projection}
use velo_external_db.Postgres.Operators.{patch_true_false_value}
use velo_external_db.MsSql.Sql.{TsqlString, references, render, name_at, is_system_table}
use velo_external_db.MsSql.Sql.Words.{Words}
use velo_external_db.MsSql.Filter.{ParsedFilter, transform, parse_field}
use velo_external_db.MsSql.Filter.Ready.{bindings}
use velo_external_db.MsSql.Filter.Binding.{transform-bindings}
use velo_external_db.MsSql.Statements.{Statement, aggregate}
use velo_external_db.MsSql.Statements.Shared.{where_value_lost}
use velo_external_db.Tests.World.{runtime}

abbrev double_brackets : String → String
double_brackets String.[] = ""
double_brackets (String.◌∷◌ c s) =
    let rest = double_brackets s in
    if eqb (code c) b']' then String.◌∷◌ c (String.◌∷◌ c rest) else String.◌∷◌ c rest

abbrev quoting : TsqlString
quoting = record {
  escape_id = λ s. "[" & double_brackets s & "]";
  escape = λ s. "'" & s & "'";
  escape_number = decimal;
}

abbrev wanted : AdapterFilter
wanted = multi and (
    also (single include "age" (arr (cons (num (pos 1)) (cons (num (pos 2)) nil))))
      (also (multi not (also (single eq "name" (str "x")) done)) done))

abbrev sql_text : Result ParsedFilter → String
sql_text (ok p) = render p.filter_expr
sql_text (err e) = "error"

wanted_text :
    sql_text (transform runtime quoting wanted)
    ≡ "WHERE ([age] IN (@age0, @age1) AND NOT ([name] = @name2))"
unfolding transform render decimal parse_field
wanted_text = refl

abbrev names : List String
names = "age0" ∷ "age1" ∷ "name2" ∷ []

abbrev names_Distinct : Distinct names
names_Distinct = (
  (not-includes_iff ("age1" ∷ "name2" ∷ []) "age0").0 refl,
  ((not-includes_iff ("name2" ∷ []) "age1").0 refl, ((not-includes_iff [] "name2").0 refl, tt)),
)

transform-bindings_example :
    (p : ParsedFilter) × (transform runtime quoting wanted ≡ ok p)
    × (references p.filter_expr ≡ keys (bindings runtime quoting wanted 0))
    × (p.parameters ≡ bindings runtime quoting wanted 0)
unfolding bindings name_at decimal
transform-bindings_example =
    transform-bindings runtime quoting wanted (tt, ((tt, tt), tt)) names_Distinct

abbrev one_item : Item
one_item = ("_id", str "1") ∷ ("age", num (pos 7)) ∷ []

abbrev other_item : Item
other_item = ("_id", str "2") ∷ []

abbrev inserted_Distinct : Distinct ("_id" ∷ "age" ∷ "x_id1" ∷ [])
inserted_Distinct = (
  (not-includes_iff ("age" ∷ "x_id1" ∷ []) "_id").0 refl,
  ((not-includes_iff ("x_id1" ∷ []) "age").0 refl, ((not-includes_iff [] "x_id1").0 refl, tt)),
)

abbrev totals : List Projection
totals =
    record { name = "name"; alias = none; function = none }
    ∷ record { name = "age"; alias = some "total"; function = some max }
    ∷ []

where_value_lost_example :
    (st : Statement) × (aggregate runtime quoting "stock"
        (single eq "total" (num (pos 5)))
        (record { projection = totals; post_filter = single gt "total" (num (pos 100)) })
        []
        0
        50
      ≡ ok st)
    × (references st.sql ≡ name_at quoting "total" 0 ∷ name_at quoting "total" 0 ∷ [])
    × (st.parameters ≡ (name_at quoting "total" 0, patch_true_false_value (num (pos 100))) ∷ [])
unfolding is_system_table
where_value_lost_example =
    where_value_lost runtime quoting "stock" "total" (num (pos 5)) (num (pos 100)) totals [] 0 50
      (refl, refl) tt tt

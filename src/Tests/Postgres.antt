-- ===== src/Tests/Postgres.antt =====
-- SQL of the Postgres adapter at concrete inputs.
use velo_external_db.Base.{
  false, ◌&◌, String, true, Option, none, some, [], ◌∷◌, ok, err, ◌≡◌, refl, decimal,
}
use velo_external_db.Commons.Values.{ℤ, pos, num, str, arr, nil, cons}
use velo_external_db.Commons.Errors.{Result}
use velo_external_db.Commons.Operators.{gt, eq, include, and, not}
use velo_external_db.Types.{AdapterFilter, single, multi, done, also, max}
use velo_external_db.Converters.Validation.{Aggregation}
use velo_external_db.Postgres.Sql.{render, escape_identifier}
use velo_external_db.Postgres.Sql.Quoted.{read_identifier, read-escape_identifier}
use velo_external_db.Postgres.Operators.{ParsedFilter}
use velo_external_db.Postgres.Filter.{transform, parse_field}
use velo_external_db.Postgres.Filter.Bindable.{Binds, Bindable}
use velo_external_db.Postgres.Filter.Binding.{transform-Binds}
use velo_external_db.Postgres.Statements.{
  Statement, find, count, aggregate, insert, update_one, delete,
}
use velo_external_db.Postgres.Statements.Complete.{Complete, reads_Complete}
use velo_external_db.Postgres.Statements.Writes.{writes_Complete}
use velo_external_db.Tests.World.{runtime, column, known}

abbrev wanted : AdapterFilter
wanted = multi and (
    also (single include "age" (arr (cons (num (pos 1)) (cons (num (pos 2)) nil))))
      (also (multi not (also (single eq "na\"me" (str "x")) done)) done))

abbrev sql_text : Result ParsedFilter → String
sql_text (ok p) = render p.filter_expr
sql_text (err e) = "error"

wanted_text :
    sql_text (transform runtime wanted) ≡ "WHERE (\"age\" IN ($1, $2) AND NOT (\"na\"\"me\" = $3))"
unfolding transform render decimal parse_field
wanted_text = refl

wanted-Bindable : Bindable wanted
wanted-Bindable = ((refl, tt), (((refl, tt), tt), tt))

transform-Binds_example : (p : ParsedFilter) × (transform runtime wanted ≡ ok p) × Binds p 1
transform-Binds_example = transform-Binds runtime wanted wanted-Bindable

abbrev pub moment : Option ℤ → String
moment t = "1970-01-01 00:00:00"

abbrev oldest : Aggregation
oldest = record {
  projection =
      record { name = "name"; alias = none; function = none }
      ∷ record { name = "age"; alias = some "oldest"; function = some max }
      ∷ [];
  post_filter = single gt "oldest" (num (pos 17));
}

reads_Complete_example :
    ((st : Statement) × (find runtime moment "stock" wanted [] 0 50 ("_id" ∷ []) ≡ ok st)
      × Complete st)
    × ((st : Statement) × (count runtime moment "stock" wanted ≡ ok st) × Complete st)
    × ((st : Statement) × (aggregate runtime moment "stock" wanted oldest [] 0 50 ≡ ok st)
        × Complete st)
reads_Complete_example =
    reads_Complete runtime moment "stock" wanted oldest [] 0 50 ("_id" ∷ []) wanted-Bindable
      (refl, tt)

writes_Complete_example :
    Complete (
      insert runtime moment "stock"
        (known ∷ known ∷ [])
        (column "_id" "text" ∷ column "age" "number" ∷ [])
        true)
    × Complete (update_one runtime moment "stock" ("age" ∷ []) known)
    × Complete (delete runtime moment "stock" ("1" ∷ "2" ∷ []))
writes_Complete_example =
    writes_Complete runtime moment "stock" (known ∷ known ∷ [])
      (column "_id" "text" ∷ column "age" "number" ∷ []) true ("age" ∷ []) known ("1" ∷ "2" ∷ [])
      (refl, (refl, tt))

read-escape_identifier_example :
    (quoted : String) × (escape_identifier "na\"me" ≡ "\"" & quoted)
    × (read_identifier false (quoted & " = $1") ≡ some ("na\"me", " = $1"))
read-escape_identifier_example = read-escape_identifier "na\"me" " = $1" refl refl

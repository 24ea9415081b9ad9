-- ===== src/Tests/MySql.antt =====
-- SQL of the MySQL adapter at concrete inputs.
use velo_external_db.Base.{
  lower, String, true, none, some, [], ◌∷◌, ok, err, ◌≡◌, ◌∙◌, refl, ◌&◌, arith,
}
use velo_external_db.Commons.Values.{pos, num, str, arr, nil, cons}
use velo_external_db.Commons.Errors.{Error, Result}
use velo_external_db.Commons.Operators.{gt, eq, include, and, or, not, urlized}
use velo_external_db.Types.{AdapterFilter, empty, single, multi, Filters, done, also, max}
use velo_external_db.Converters.Validation.{Aggregation}
use velo_external_db.Postgres.Statements.{update_fields_for}
use velo_external_db.MySql.Schema as MySqlSchema
use velo_external_db.MySql.Schema.ReadBack.{created_type_read}
use velo_external_db.MySql.Text.{question_marks, question_marks-append}
use velo_external_db.MySql.Operators.{ParsedFilter}
use velo_external_db.MySql.Filter.{transform, parse_field}
use velo_external_db.MySql.Filter.Balance.{Even, transform-Even}
use velo_external_db.MySql.Filter.EmptyParts.{empty_part_fails}
use velo_external_db.MySql.Statements.{Statement, find, count, aggregate, insert, update, delete}
use velo_external_db.MySql.Statements.Balance.{Filled, reads_Filled}
use velo_external_db.MySql.Statements.Writes.{writes_Filled}
use velo_external_db.Tests.World.{runtime, column, known}
use velo_external_db.Tests.Postgres.{moment}

abbrev quote : String → String
quote s = "`" & s & "`"

abbrev quoted : (f : String) → question_marks (quote f) ≡ question_marks f
unfolding question_marks
quoted f = question_marks-append "`" (f & "`") ∙ omega (arith, question_marks-append f "`")

abbrev parts : Filters
parts = also (single include "age" (arr (cons (num (pos 1)) (cons (num (pos 2)) nil)))) (
    also (multi not (also (single eq "at.city" (str "x")) done))
      (also (single urlized "title" (arr (cons (str "Big") (cons (str "Cat") nil)))) done))

abbrev wanted : AdapterFilter
wanted = multi and parts

abbrev sql_text : Result ParsedFilter → String
sql_text (ok p) = p.filter_expr
sql_text (err e) = "error"

wanted_text :
    sql_text (transform runtime quote wanted)
    ≡ "WHERE (`age` IN (?, ?) AND NOT (`at` ->> '$.city' = ?) AND LOWER(`title`) RLIKE ?)"
unfolding transform parse_field
wanted_text = refl

transform-Even_example : (p : ParsedFilter) × (transform runtime quote wanted ≡ ok p) × Even p
unfolding question_marks
transform-Even_example =
    transform-Even runtime quote quoted wanted
      (tt, (refl, tt), (tt, (tt, (refl, tt)), (tt, (refl, (tt, (tt, tt))), tt)))

abbrev oldest : Aggregation
oldest = record {
  projection =
      record { name = "name"; alias = none; function = none }
      ∷ record { name = "age"; alias = some "oldest"; function = some max }
      ∷ [];
  post_filter = single gt "oldest" (num (pos 17));
}

reads_Filled_example :
    ((st : Statement) × (find runtime quote moment "stock" wanted [] 0 50 ("_id" ∷ []) ≡ ok st)
      × Filled st)
    × ((st : Statement) × (count runtime quote moment "stock" wanted ≡ ok st) × Filled st)
    × ((st : Statement) × (aggregate runtime quote moment "stock" wanted oldest [] 0 50 ≡ ok st)
        × Filled st)
unfolding question_marks
reads_Filled_example =
    reads_Filled runtime quote moment quoted "stock" wanted oldest [] 0 50 ("_id" ∷ []) (refl, refl)
      (tt, (refl, tt), (tt, (tt, (refl, tt)), (tt, (refl, (tt, (tt, tt))), tt))) (refl, tt)
      ((refl, refl), ((refl, refl), tt)) tt (refl, tt)

writes_Filled_example :
    ((st : Statement) × (insert runtime quote moment "stock"
          (known ∷ [])
          (column "_id" "text" ∷ column "age" "number" ∷ [])
          true
        ≡ ok st)
      × Filled st)
    × ((st : Statement) × (update runtime quote moment "stock" (known ∷ known ∷ []) ≡ ok st)
        × Filled st)
    × ((st : Statement) × (delete runtime quote moment "stock" ("1" ∷ "2" ∷ []) ≡ ok st)
        × Filled st)
unfolding question_marks update_fields_for
writes_Filled_example =
    writes_Filled runtime quote moment quoted "stock" (known ∷ [])
      (column "_id" "text" ∷ column "age" "number" ∷ []) true known ("1" ∷ "2" ∷ []) (refl, refl)
      (refl, (refl, tt)) (refl, tt)

empty_part_fails_example :
    ((e : Error) × (transform runtime quote
          (multi and (also (single gt "age" (num (pos 1))) (also empty done)))
        ≡ err e))
    × ((e : Error) × (transform runtime quote
            (multi or (also (single gt "age" (num (pos 1))) (also empty done)))
          ≡ err e))
empty_part_fails_example =
    empty_part_fails runtime quote (also (single gt "age" (num (pos 1))) (also empty done)) tt

float_column : MySqlSchema.db_type "Number" (some "float") (some 7) ≡ ok "FLOAT(15,2)"
unfolding MySqlSchema.db_type lower
float_column = refl

created_type_read_example : MySqlSchema.translate_type "FLOAT(15,2)" ≡ lower "Number"
unfolding lower
created_type_read_example =
    created_type_read "Number" (some "float") (some 7) "FLOAT(15,2)" refl refl float_column

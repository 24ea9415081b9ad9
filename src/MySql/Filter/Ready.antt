-- ===== src/MySql/Filter/Ready.antt =====
-- The filters that the MySQL adapter turns into SQL, and when SQL and parameters agree.
use velo_external_db.Base.{String, ◌≡◌, Bool, true, false, List, All, has_char, length}
use velo_external_db.Commons.Values.{Value, str, arr, values}
use velo_external_db.Commons.Operators.{AdapterOperator, and, or, not as op_not, urlized}
use velo_external_db.Types.{AdapterFilter, empty, single, multi, Filters, done, also}
use velo_external_db.Postgres.Filter.Bindable.{Suits}
use velo_external_db.MySql.Text.{question_marks}

-- As many question marks as parameters.
abbrev pub Balanced : String → List Value → Type 0
Balanced sql parameters = question_marks sql ≡ length parameters

abbrev pub IsText : Value → Type 0
IsText (str s) = Unit
IsText v = ⊥

abbrev pub Texts : Value → Type 0
Texts (arr vs) = All IsText (values vs)
Texts v = ⊥

-- The value that an operator takes, for a field whose name has no dot.
abbrev pub TakesFlat : AdapterOperator → Value → Type 0
TakesFlat urlized v = Texts v
TakesFlat op v = Suits op v

-- The same, where it is said whether the name has a dot.
abbrev pub TakesAt : Bool → AdapterOperator → Value → Type 0
TakesAt true op v = Suits op v
TakesAt false op v = TakesFlat op v

-- The name of the field has no question mark, and the operator takes the value.
abbrev pub Takes : AdapterOperator → String → Value → Type 0
Takes op f v = (question_marks f ≡ 0) × TakesAt (has_char b'.' f) op v

-- A filter that becomes SQL: one that says something.
abbrev pub Says : AdapterFilter → Type 0
Says empty = ⊥
Says f = Unit

abbrev mutual
  pub Ready : AdapterFilter → Type 0
  Ready empty = Unit
  Ready (single op f v) = Takes op f v
  Ready (multi and fs) = EachReady fs
  Ready (multi or fs) = EachReady fs
  Ready (multi op_not (also f fs)) = Says f × Ready f
  Ready (multi op fs) = ⊥

  pub EachReady : Filters → Type 0
  EachReady done = Unit
  EachReady (also f fs) = Says f × Ready f × EachReady fs

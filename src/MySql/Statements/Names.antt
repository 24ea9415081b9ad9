-- ===== src/MySql/Statements/Names.antt =====
-- The clauses that are made of names only have no question marks.
use velo_external_db.Base.{
  ◌+◌, String, ◌≡◌, refl, ◌∙◌, inl, inr, List, [], ◌∷◌, ◌++◌, map, ◌==◌, All, flat_map, join, upper,
  Bool-cases, Option-cases, All-append, arith,
}
use velo_external_db.Commons.Values.{Value, str}
use velo_external_db.Commons.Errors.{or_empty}
use velo_external_db.Types.{Sort, AdapterFunction, avg, max, min, sum, count}
use velo_external_db.Converters.Validation.{Projection}
use velo_external_db.Postgres.Operators.{adapter_function_to_sql}
use velo_external_db.Postgres.Clauses.{direction_for, extract_group_by_names, name_of_group}
use velo_external_db.MySql.Text.{
  question_marks, question_marks-append, question_marks-join, all_marks,
}
use velo_external_db.MySql.Operators.{escape_id}
use velo_external_db.MySql.Filter.Values.{escape_id-marks}
use velo_external_db.MySql.Clauses.{
  parse_sort, sort_on, sort_expr, order_by, select_fields_for, function_field,
  create_fields_statement_array,
}

abbrev pub Unmarked : String → Type 0
Unmarked s = question_marks s ≡ 0

abbrev pub NameUnmarked : Value → Type 0
NameUnmarked (str f) = Unmarked f
NameUnmarked v = Unit

abbrev pub SortUnmarked : Sort → Type 0
SortUnmarked s = NameUnmarked s.field_name

abbrev pub ProjectionUnmarked : Projection → Type 0
ProjectionUnmarked p = Unmarked p.name × Unmarked (or_empty p.alias)

all_marks-append : (ss ts : List String) → all_marks (ss ++ ts) ≡ all_marks ss + all_marks ts
all_marks-append [] ts = omega arith
all_marks-append (s ∷ ss) ts = omega (arith, all_marks-append ss ts)

direction-marks : (d : String) → Unmarked (direction_for d)
unfolding question_marks
direction-marks d = elim (Bool-cases (d == "")) [
  | inl e ↦ rw e refl
  | inr e ↦ elim (Bool-cases (upper d == "ASC")) [ inl k ↦ rw (e, k) refl | inr k ↦ rw (e, k) refl ]
]

function-marks : (f : AdapterFunction) → Unmarked (adapter_function_to_sql f)
unfolding adapter_function_to_sql question_marks
function-marks avg = refl
function-marks max = refl
function-marks min = refl
function-marks sum = refl
function-marks count = refl

sort_expr-marks : (es : List String) → all_marks es ≡ 0 → Unmarked (sort_expr es)
unfolding question_marks
sort_expr-marks [] h = refl
sort_expr-marks (e ∷ es) h =
    rw question_marks-append (omega (arith, question_marks-join ", " (e ∷ es) refl, h))

module _ (quote : String → String)
    (quoted : (f : String) → question_marks (quote f) ≡ question_marks f) where
  names-marks :
      (names : List String) → All Unmarked names → all_marks (map (escape_id quote) names) ≡ 0
  names-marks [] h = refl
  names-marks (f ∷ fs) (h, hs) = omega (arith, escape_id-marks quote quoted f h, names-marks fs hs)

  pub names-Unmarked :
      (names : List String)
      → All Unmarked names
      → Unmarked (join ", " (map (escape_id quote) names))
  unfolding question_marks
  names-Unmarked names h =
      question_marks-join ", " (map (escape_id quote) names) refl ∙ names-marks names h

  pub select_fields_for-Unmarked :
      (names : List String) → All Unmarked names → Unmarked (select_fields_for quote names)
  unfolding select_fields_for
  select_fields_for-Unmarked names h = names-Unmarked names h

  sort_on-marks : (v : Value) (d : String) → NameUnmarked v → all_marks (sort_on quote v d) ≡ 0
  unfolding question_marks
  sort_on-marks (str f) d h =
      simp (question_marks-append, escape_id-marks quote quoted f h, direction-marks)
  sort_on-marks v d h = refl

  sorts-marks :
      (sort : List Sort) → All SortUnmarked sort → all_marks (flat_map (parse_sort quote) sort) ≡ 0
  unfolding parse_sort
  sorts-marks [] h = refl
  sorts-marks (s ∷ ss) (h, hs) =
      all_marks-append (parse_sort quote s) (flat_map (parse_sort quote) ss)
      ∙ omega (arith, sort_on-marks s.field_name s.direction h, sorts-marks ss hs)

  pub order_by-Unmarked :
      (sort : List Sort) → All SortUnmarked sort → Unmarked (order_by quote sort)
  unfolding order_by
  order_by-Unmarked sort h = sort_expr-marks (flat_map (parse_sort quote) sort) (sorts-marks sort h)

  name_of_group-Unmarked : (p : Projection) → ProjectionUnmarked p → All Unmarked (name_of_group p)
  name_of_group-Unmarked p (h, k) = elim (Option-cases p.function) [
    | inl e ↦ rw e (h, tt)
    | inr (f, e) ↦ rw e tt
  ]

  pub groups-Unmarked :
      (ps : List Projection) → All ProjectionUnmarked ps → All Unmarked (extract_group_by_names ps)
  unfolding extract_group_by_names
  groups-Unmarked [] h = tt
  groups-Unmarked (p ∷ ps) (h, hs) =
      All-append Unmarked (name_of_group p) (flat_map name_of_group ps) (name_of_group-Unmarked p h)
        (groups-Unmarked ps hs)

  function_field-marks :
      (p : Projection) → ProjectionUnmarked p → all_marks (function_field quote p) ≡ 0
  unfolding question_marks
  function_field-marks p (h, k) = elim (Option-cases p.function) [
    | inl e ↦ rw e refl
    | inr (f, e) ↦ rw e (
        simp (
          question_marks-append,
          function-marks,
          escape_id-marks quote quoted p.name h,
          escape_id-marks quote quoted (or_empty p.alias) k,
        ))
  ]

  functions-marks :
      (ps : List Projection)
      → All ProjectionUnmarked ps
      → all_marks (flat_map (function_field quote) ps) ≡ 0
  functions-marks [] h = refl
  functions-marks (p ∷ ps) (h, hs) =
      all_marks-append (function_field quote p) (flat_map (function_field quote) ps)
      ∙ omega (arith, function_field-marks p h, functions-marks ps hs)

  pub fields-Unmarked :
      (ps : List Projection)
      → All ProjectionUnmarked ps
      → Unmarked (join ", " (create_fields_statement_array quote ps))
  unfolding create_fields_statement_array question_marks
  fields-Unmarked ps h =
      question_marks-join ", " (create_fields_statement_array quote ps) refl
      ∙ (all_marks-append (map (escape_id quote) (extract_group_by_names ps))
            (flat_map (function_field quote) ps)
          ∙ omega (
            arith,
            names-marks (extract_group_by_names ps) (groups-Unmarked ps h),
            functions-marks ps h,
          ))

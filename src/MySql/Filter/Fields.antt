-- ===== src/MySql/Filter/Fields.antt =====
-- Question marks and parameters of a filter on one field.
use velo_external_db.Base.{
  String, ◌≡◌, refl, ◌∙◌, ◌⊎◌, inl, inr, Bool, true, false, not, ◌&&◌, List, [], ◌∷◌, ok, All,
  traverse, join, lower, ◌&◌, has_char, before_char, after_char, Bool-cases, arith,
}
use velo_external_db.Commons.Values.{Value, str, arr, values, is_object}
use velo_external_db.Commons.Dates.{is_date}
use velo_external_db.Commons.Errors.{Result}
use velo_external_db.Commons.Operators.{
  AdapterOperator, eq, string_begins, string_ends, string_contains, and, or, not as op_not, urlized,
  matches,
}
use velo_external_db.Commons.Runtime.{Runtime}
use velo_external_db.Types.{single}
use velo_external_db.Postgres.Filter.Bindable.{Suits, NotArray, Matchable}
use velo_external_db.Postgres.Filter.Fields.{match-returns}
use velo_external_db.MySql.Text.{
  question_marks, question_marks-append, before_char-marks_le, after_char-marks_le,
}
use velo_external_db.MySql.Operators.{ParsedFilter, escape_id, compared, urlized_pattern, lowered}
use velo_external_db.MySql.Filter.{
  parse_nested, parse_urlized, matched, parse_matches, parse_json, parse_comparison, parse_text,
  parse_field, parse_filter, lower_if,
}
use velo_external_db.MySql.Filter.Ready.{Balanced, IsText, Texts, TakesFlat, Takes}
use velo_external_db.MySql.Filter.Values.{Fits, Suits-Fits, compared-marks, escape_id-marks}

texts_lowered :
    (vs : List Value) → All IsText vs → (ss : List String) × (traverse lowered vs ≡ ok ss)
texts_lowered [] h = ([], refl)
texts_lowered (str s ∷ vs) (h, hs) = let (ss, e) = texts_lowered vs hs in (lower s ∷ ss, rw e refl)
texts_lowered (v ∷ vs) (h, hs) = elim h [ ]

pub urlized_pattern-Texts : (v : Value) → Texts v → (s : String) × (urlized_pattern v ≡ ok s)
unfolding urlized_pattern
urlized_pattern-Texts (arr vs) h =
    let (ss, e) = texts_lowered (values vs) h in (join "[- ]" ss, rw e refl)
urlized_pattern-Texts v h = elim h [ ]

lower_if-marks : (b : Bool) → question_marks (lower_if b) ≡ 0
unfolding question_marks
lower_if-marks true = refl
lower_if-marks false = refl

-- The result of a parser is one part, whose question marks have their parameters.
abbrev pub Parsed : Result (List ParsedFilter) → Type 0
Parsed res = (p : ParsedFilter) × (res ≡ ok (p ∷ [])) × Balanced p.filter_expr p.parameters

module _ (r : Runtime) (quote : String → String)
    (quoted : (f : String) → question_marks (quote f) ≡ question_marks f) where
  nested-Parsed :
      (op : AdapterOperator) (f : String) (v : Value)
      → question_marks f ≡ 0
      → Fits op v
      → Parsed (parse_nested r quote op f v)
  unfolding parse_nested question_marks
  nested-Parsed op f v h (sql, e, b) =
      let column = escape_id quote (before_char b'.' f) in
      let path = after_char b'.' f in
      let left = column & " ->> '$." & path & "'" in
      let first : question_marks (before_char b'.' f) ≡ 0 =
        omega (arith, before_char-marks_le b'.' f, h) in
      let last : question_marks path ≡ 0 = omega (arith, after_char-marks_le b'.' f, h) in
      let silent : question_marks left ≡ 0 =
        rw
          (
            question_marks-append,
            question_marks-append,
            question_marks-append,
            escape_id-marks quote quoted (before_char b'.' f) first,
            last,
          )
          refl in
      (compared left op v sql, rw e refl, compared-marks left op v sql ∙ omega (arith, silent, b))

  comparison-Parsed :
      (op : AdapterOperator) (f : String) (v : Value)
      → question_marks f ≡ 0
      → Fits op v
      → Parsed (parse_comparison r quote op f v)
  unfolding parse_comparison
  comparison-Parsed op f v h (sql, e, b) =
      let left = escape_id quote f in
      (
        compared left op v sql,
        rw e refl,
        compared-marks left op v sql ∙ omega (arith, escape_id-marks quote quoted f h, b),
      )

  urlized-Parsed :
      (f : String) (v : Value) → question_marks f ≡ 0 → Texts v → Parsed (parse_urlized r quote f v)
  unfolding parse_urlized question_marks
  urlized-Parsed f v h k =
      let (s, e) = urlized_pattern-Texts v k in
      (
        record {
          filter_expr = "LOWER(" & escape_id quote f & ") RLIKE ?";
          parameters = str s ∷ [];
        },
        rw e refl,
        rw (question_marks-append, question_marks-append, escape_id-marks quote quoted f h) refl,
      )

  matched-marks :
      (f : String) (b : Bool) (s : String)
      → question_marks f ≡ 0
      → question_marks (matched r quote f (b, s)).filter_expr ≡ 1
  unfolding matched question_marks
  matched-marks f true s h = simp (question_marks-append, escape_id-marks quote quoted f h)
  matched-marks f false s h = simp (question_marks-append, escape_id-marks quote quoted f h)

  matches-Parsed :
      (f : String) (v : Value)
      → question_marks f ≡ 0
      → Matchable v
      → Parsed (parse_matches r quote f v)
  unfolding parse_matches matched
  matches-Parsed f v h k =
      let (b, s, e) = match-returns r v k in
      (matched r quote f (b, s), rw e refl, matched-marks f b s h)

  json-Parsed : (f : String) (v : Value) → question_marks f ≡ 0 → Parsed (parse_json r quote f v)
  unfolding parse_json question_marks
  json-Parsed f v h = (
    _,
    refl,
    rw (question_marks-append, question_marks-append, escape_id-marks quote quoted f h) refl,
  )

  text-Parsed :
      (op : AdapterOperator) (f : String) (v : Value)
      → question_marks f ≡ 0
      → Parsed (parse_text r quote op f v)
  unfolding parse_text question_marks
  text-Parsed op f v h =
      (_, refl, rw (question_marks-append, escape_id-marks quote quoted f h) refl)

  eq-Parsed :
      (f : String) (v : Value)
      → question_marks f ≡ 0
      → has_char b'.' f ≡ false
      → NotArray v
      → Parsed (parse_field r quote eq f v)
  unfolding parse_field
  eq-Parsed f v h e k = elim (Bool-cases (is_object v && not (is_date v))) [
    | inl json ↦ rw (e, json, parse_field) (json-Parsed f v h)
    | inr other ↦ rw (e, other, parse_field) (comparison-Parsed eq f v h (Suits-Fits eq v k))
  ]

  flat-Parsed :
      (op : AdapterOperator) (f : String) (v : Value)
      → question_marks f ≡ 0
      → has_char b'.' f ≡ false
      → TakesFlat op v
      → Parsed (parse_field r quote op f v)
  unfolding parse_field
  flat-Parsed and f v h e k = elim k [ ]
  flat-Parsed or f v h e k = elim k [ ]
  flat-Parsed op_not f v h e k = elim k [ ]
  flat-Parsed urlized f v h e k = rw (e, parse_field) (urlized-Parsed f v h k)
  flat-Parsed matches f v h e k = rw (e, parse_field) (matches-Parsed f v h k)
  flat-Parsed eq f v h e k = eq-Parsed f v h e k
  flat-Parsed string_begins f v h e k = rw (e, parse_field) (text-Parsed string_begins f v h)
  flat-Parsed string_ends f v h e k = rw (e, parse_field) (text-Parsed string_ends f v h)
  flat-Parsed string_contains f v h e k = rw (e, parse_field) (text-Parsed string_contains f v h)
  flat-Parsed op f v h e k = rw (e, parse_field) (comparison-Parsed op f v h (Suits-Fits op v k))

  field-Parsed :
      (op : AdapterOperator) (f : String) (v : Value)
      → Takes op f v
      → Parsed (parse_field r quote op f v)
  unfolding parse_field
  field-Parsed op f v (h, k) = elim (Bool-cases (has_char b'.' f)) [
    | inl e ↦ rw (e, parse_field) (nested-Parsed op f v h (Suits-Fits op v (rw e at k)))
    | inr e ↦ flat-Parsed op f v h e (rw e at k)
  ]

  Takes-Suits :
      (op : AdapterOperator) (f : String) (v : Value) → Takes op f v → Suits op v ⊎ TakesFlat op v
  Takes-Suits op f v (h, k) = elim (Bool-cases (has_char b'.' f)) [
    | inl e ↦ inl (rw e at k)
    | inr e ↦ inr (rw e at k)
  ]

  pub single-Parsed :
      (op : AdapterOperator) (f : String) (v : Value)
      → Takes op f v
      → Parsed (parse_filter r quote (single op f v))
  unfolding parse_filter
  single-Parsed and f v h = elim (Takes-Suits and f v h) [ inl k ↦ elim k [ ] | inr k ↦ elim k [ ] ]
  single-Parsed or f v h = elim (Takes-Suits or f v h) [ inl k ↦ elim k [ ] | inr k ↦ elim k [ ] ]
  single-Parsed op_not f v h = elim (Takes-Suits op_not f v h) [
    | inl k ↦ elim k [ ]
    | inr k ↦ elim k [ ]
  ]
  single-Parsed op f v h = field-Parsed op f v h

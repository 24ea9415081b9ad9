-- ===== src/MySql/Filter/Values.antt =====
-- The SQL of a value and of a comparison: as many question marks as the value has parameters.
use velo_external_db.Base.{
  ℕ, suc, ◌+◌, String, ◌≡◌, refl, sym, ◌∙◌, inl, inr, ok, length, ◌&◌, ◌==◌, Bool-cases, arith,
}
use velo_external_db.Commons.Values.{Value, undefined, null, arr, values, cons, is_null}
use velo_external_db.Commons.Operators.{
  AdapterOperator, eq, include, ne, and, or, not as op_not, matches,
}
use velo_external_db.Postgres.Operators.{parameters_of}
use velo_external_db.Postgres.Filter.Bindable.{
  Suits, Plain, NotArray, NonEmptyArray, Matchable-Plain, one_parameter,
}
use velo_external_db.MySql.Text.{
  question_marks, question_marks-append, question_marks-trim, all_marks, question_marks-join,
}
use velo_external_db.MySql.Operators.{
  repeated, wild_card_with, escape_id, value_for_operator, adapter_operator_to_my_sql_operator,
  compared,
}
use velo_external_db.MySql.Filter.Ready.{Balanced}

-- The SQL of a value has a question mark for each of its parameters.
abbrev pub Fits : AdapterOperator → Value → Type 0
Fits op v = (sql : String) × (value_for_operator v op ≡ ok sql) × Balanced sql (parameters_of v)

one-Fits :
    (op : AdapterOperator) (v : Value) → Plain v → value_for_operator v op ≡ ok "?" → Fits op v
unfolding question_marks
one-Fits op v h e = ("?", e, sym (one_parameter v h))

repeated-marks : (n : ℕ) → all_marks (repeated n "?") ≡ n
unfolding question_marks
repeated-marks ℕ.zero = refl
repeated-marks (suc n) = omega (arith, repeated-marks n)

pub wild_cards-marks : (n : ℕ) → question_marks (wild_card_with n "?") ≡ n
unfolding wild_card_with question_marks
wild_cards-marks n = question_marks-join ", " (repeated n "?") refl ∙ repeated-marks n

some-Fits : (v : Value) → NonEmptyArray v → Fits include v
unfolding value_for_operator parameters_of
some-Fits (arr (cons v vs)) h =
    let n = length (values vs) in
    (
      "(" & wild_card_with (suc n) "?" & ")",
      refl,
      rw (question_marks-append, question_marks-append, wild_cards-marks)
          (unfold question_marks in omega arith),
    )
some-Fits v h = elim h [ ]

eq-Fits : (v : Value) → NotArray v → Fits eq v
unfolding value_for_operator parameters_of is_null question_marks
eq-Fits undefined h = ("", refl, refl)
eq-Fits null h = ("", refl, refl)
eq-Fits (arr vs) h = elim h [ ]
eq-Fits v h = one-Fits eq v tt refl

ne-Fits : (v : Value) → NotArray v → Fits ne v
unfolding value_for_operator parameters_of is_null question_marks
ne-Fits undefined h = ("", refl, refl)
ne-Fits null h = ("", refl, refl)
ne-Fits (arr vs) h = elim h [ ]
ne-Fits v h = one-Fits ne v tt refl

pub Suits-Fits : (op : AdapterOperator) (v : Value) → Suits op v → Fits op v
unfolding value_for_operator
Suits-Fits include v h = some-Fits v h
Suits-Fits eq v h = eq-Fits v h
Suits-Fits ne v h = ne-Fits v h
Suits-Fits matches v h = one-Fits matches v (Matchable-Plain v h) refl
Suits-Fits and v h = elim h [ ]
Suits-Fits or v h = elim h [ ]
Suits-Fits op_not v h = elim h [ ]
Suits-Fits op v h = one-Fits op v h refl

operator-marks :
    (op : AdapterOperator) (v : Value)
    → question_marks (adapter_operator_to_my_sql_operator op v) ≡ 0
unfolding adapter_operator_to_my_sql_operator question_marks
operator-marks eq v = elim (Bool-cases (is_null v)) [ inl e ↦ rw e refl | inr e ↦ rw e refl ]
operator-marks ne v = elim (Bool-cases (is_null v)) [ inl e ↦ rw e refl | inr e ↦ rw e refl ]
operator-marks op v = refl

-- A comparison has the question marks of its two sides.
pub compared-marks :
    (left : String) (op : AdapterOperator) (v : Value) (sql : String)
    → question_marks (compared left op v sql).filter_expr ≡ question_marks left + question_marks sql
unfolding compared question_marks
compared-marks left op v sql =
    let o = adapter_operator_to_my_sql_operator op v in
    question_marks-trim (left & " " & o & " " & sql)
    ∙ rw
        (
          question_marks-append, question_marks-append, question_marks-append,
          question_marks-append, operator-marks,
        )
        (omega arith)

-- A quotation that adds no question mark.
module _ (quote : String → String)
    (quoted : (f : String) → question_marks (quote f) ≡ question_marks f) where
  pub escape_id-marks : (f : String) → question_marks f ≡ 0 → question_marks (escape_id quote f) ≡ 0
  unfolding escape_id question_marks
  escape_id-marks f h = elim (Bool-cases (f == "*")) [
    | inl e ↦ rw e refl
    | inr e ↦ rw e (quoted f ∙ h)
  ]

-- ===== src/MySql/Statements/Balance.antt =====
-- Every statement has exactly the parameters that its question marks ask for.
use velo_external_db.Base.{
  ℕ, String, ◌≡◌, refl, sym, ◌∙◌, inl, inr, false, Option, List, [], ◌∷◌, ◌++◌, ok, ◌==◌, All,
  has_char, length, length-append, Bool-cases, eq_iff, ap, arith,
}
use velo_external_db.Commons.Values.{ℤ}
use velo_external_db.Commons.Runtime.{Runtime}
use velo_external_db.Types.{AdapterFilter, Sort}
use velo_external_db.Converters.Validation.{Aggregation}
use velo_external_db.MySql.Text.{question_marks, question_marks-append}
use velo_external_db.MySql.Operators.{ParsedFilter}
use velo_external_db.MySql.Filter.Ready.{Ready}
use velo_external_db.MySql.Filter.Balance.{Even, filter-Done, transform-Even}
use velo_external_db.MySql.Clauses.{
  parse_aggregation, parsed_aggregation, extract_filter_expr_and_params, ParsedAggregation,
}
use velo_external_db.MySql.Statements.{
  Statement, escape_table, counted, find, find_statement, count, count_statement, aggregate,
  aggregate_statement,
}
use velo_external_db.MySql.Statements.Names.{
  Unmarked, SortUnmarked, ProjectionUnmarked, names-Unmarked, select_fields_for-Unmarked,
  order_by-Unmarked, groups-Unmarked, fields-Unmarked,
}

-- As many question marks as parameters.
abbrev pub Filled : Statement → Type 0
Filled st = question_marks st.sql ≡ length st.parameters

-- A name of a collection that is accepted, and has no question mark.
abbrev pub TableName : String → Type 0
TableName t = (has_char b'.' t ≡ false) × Unmarked t

extracted-Even : (p : ParsedFilter) → Even p → Even (extract_filter_expr_and_params (p ∷ []))
unfolding extract_filter_expr_and_params question_marks
extracted-Even p h = elim (Bool-cases (p.filter_expr == "")) [
  | inl e ↦
      let blank : p.filter_expr ≡ "" = (eq_iff p.filter_expr "").0 e in
      rw e (sym (ap question_marks blank) ∙ h)
  | inr e ↦ rw e (rw question_marks-append (omega (arith, h)))
]

module _ (r : Runtime) (quote : String → String) (moment : Option ℤ → String)
    (quoted : (f : String) → question_marks (quote f) ≡ question_marks f) where
  find-Filled :
      (table : String) (sort : List Sort) (skip limit : ℕ) (projection : List String)
      (p : ParsedFilter)
      → Unmarked table
      → All SortUnmarked sort
      → All Unmarked projection
      → Even p
      → Filled (find_statement r quote moment table sort skip limit projection p)
  unfolding find_statement question_marks
  find-Filled table sort skip limit projection p t s c h =
      simp
        (
          question_marks-append,
          select_fields_for-Unmarked quote quoted projection c,
          t,
          order_by-Unmarked quote quoted sort s,
        )
        (omega (arith, h, length-append p.parameters (counted skip ∷ counted limit ∷ [])))

  having-Filled :
      (a : Aggregation)
      → Ready a.post_filter
      → All ProjectionUnmarked a.projection
      → (g : ParsedAggregation) × (parse_aggregation quote r a ≡ ok g)
        × (question_marks g.having_filter ≡ length g.parameters)
        × Unmarked g.fields_statement
        × All Unmarked g.group_by_columns
  unfolding parse_aggregation parsed_aggregation question_marks extract_filter_expr_and_params
  having-Filled a h k =
      let fields = fields-Unmarked quote quoted a.projection k in
      let groups = groups-Unmarked quote quoted a.projection k in
      elim (filter-Done r quote quoted a.post_filter h) [
        | inl e ↦ (parsed_aggregation quote a [], rw e refl, refl, fields, groups)
        | inr (p, e, b) ↦
            (parsed_aggregation quote a (p ∷ []), rw e refl, extracted-Even p b, fields, groups)
      ]

  aggregate-Filled :
      (table : String) (sort : List Sort) (skip limit : ℕ) (p : ParsedFilter)
      (g : ParsedAggregation)
      → Unmarked table
      → All SortUnmarked sort
      → Even p
      → question_marks g.having_filter ≡ length g.parameters
      → Unmarked g.fields_statement
      → All Unmarked g.group_by_columns
      → Filled (aggregate_statement r quote moment table sort skip limit p g)
  unfolding aggregate_statement question_marks
  aggregate-Filled table sort skip limit p g t s h h' c k =
      let page = counted skip ∷ counted limit ∷ [] in
      simp
        (
          question_marks-append,
          t,
          c,
          names-Unmarked quote quoted g.group_by_columns k,
          order_by-Unmarked quote quoted sort s,
        )
        (omega (
          arith,
          h,
          h',
          length-append p.parameters (g.parameters ++ page),
          length-append g.parameters page,
        ))

  pub escape_table-eq : (t : String) → TableName t → escape_table r quote moment t ≡ ok (quote t)
  unfolding escape_table
  escape_table-eq t (e, h) = rw e refl

  -- For every filter and final filter whose operators have values that they take and whose logical
  -- parts are not empty, where no name of the collection, the filters, the sort or the projections has
  -- a question mark, the collection's name has no dot, and the quotation of names adds no question
  -- mark, the query, the count and the aggregation are built, each with exactly as many question marks
  -- as parameters.
  pub reads_Filled :
      (name : String) (f : AdapterFilter) (a : Aggregation) (sort : List Sort) (skip limit : ℕ)
      (projection : List String)
      → TableName name
      → Ready f
      → Ready a.post_filter
      → All ProjectionUnmarked a.projection
      → All SortUnmarked sort
      → All Unmarked projection
      → ((st : Statement) × (find r quote moment name f sort skip limit projection ≡ ok st)
          × Filled st)
        × ((st : Statement) × (count r quote moment name f ≡ ok st) × Filled st)
        × ((st : Statement) × (aggregate r quote moment name f a sort skip limit ≡ ok st)
            × Filled st)
  unfolding find count count_statement aggregate question_marks
  reads_Filled name f a sort skip limit projection t h k g s c =
      let (p, e, b) = transform-Even r quote quoted f h in
      let (y, e', b', fs, gs) = having-Filled a k g in
      let named = escape_table-eq name t in
      let table : Unmarked (quote name) = quoted name ∙ t.1 in
      (
        (
          find_statement r quote moment (quote name) sort skip limit projection p,
          rw (e, named) refl,
          find-Filled (quote name) sort skip limit projection p table s c b,
        ),
        (
          count_statement r quote moment (quote name) p,
          rw (e, named) refl,
          simp (question_marks-append, table) (omega (arith, b)),
        ),
        (
          aggregate_statement r quote moment (quote name) sort skip limit p y,
          rw (e, e', named) refl,
          aggregate-Filled (quote name) sort skip limit p y table s b b' fs gs,
        ),
      )

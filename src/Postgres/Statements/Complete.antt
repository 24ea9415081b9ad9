-- ===== src/Postgres/Statements/Complete.antt =====
-- Every statement has exactly the parameters that its placeholders ask for.
use velo_external_db.Base.{
  ℕ, ◌+◌, String, ◌≡◌, refl, sym, ap, ◌∙◌, subst, inl, inr, Option, List, [], ◌∷◌, ◌++◌, map, ok,
  ◌&◌, length, length-append, join, arith,
}
use velo_external_db.Commons.Values.{ℤ, Value}
use velo_external_db.Commons.Runtime.{Runtime}
use velo_external_db.Types.{AdapterFilter, Sort}
use velo_external_db.Converters.Validation.{Aggregation}
use velo_external_db.Postgres.Sql.{text, Sql, escape_identifier}
use velo_external_db.Postgres.Sql.Placeholders.{placeholders, range, placeholders-append, range-add}
use velo_external_db.Postgres.Operators.{ParsedFilter}
use velo_external_db.Postgres.Filter.Bindable.{Binds, Bindable}
use velo_external_db.Postgres.Filter.Binding.{filter-Done, transform-Binds}
use velo_external_db.Postgres.Clauses.{
  order_by, alias_to_function, extract_filter_expr_and_params, parse_aggregation,
  parsed_aggregation, having, ParsedAggregation,
}
use velo_external_db.Postgres.Statements.{
  Statement, paging, counted, find, find_statement, count, count_statement, aggregate,
  aggregate_statement,
}

-- The placeholders of an SQL text are `n` numbers from `from` on.
abbrev pub Numbered : Sql → ℕ → ℕ → Type 0
Numbered s from n = placeholders s ≡ range from n

-- The placeholders of a statement are $1, $2, ... in order, one for each parameter.
abbrev pub Complete : Statement → Type 0
Complete st = Numbered st.sql 1 (length st.parameters)

pub append-Numbered :
    (s t : Sql) (from n m : ℕ)
    → Numbered s from n
    → Numbered t (from + n) m
    → Numbered (s ++ t) from (n + m)
append-Numbered s t from n m h k =
    placeholders-append s t
    ∙ (ap (λ x. x ++ placeholders t) h ∙ (ap (λ x. range from n ++ x) k ∙ sym (range-add from n m)))

paging-Numbered :
    (r : Runtime) (moment : Option ℤ → String) (x : String) (o : ℕ)
    → Numbered (text x ∷ paging r moment o) o 2
unfolding placeholders range
paging-Numbered r moment x o = ap (λ k. o ∷ k ∷ []) (omega arith)

-- A bound clause with its page.
paged-Numbered :
    (r : Runtime) (moment : Option ℤ → String) (p : ParsedFilter) (x : String) (from : ℕ)
    (a b : Value)
    → Binds p from
    → Numbered
        (p.filter_expr ++ text x ∷ paging r moment p.offset)
        from
        (length (p.parameters ++ a ∷ b ∷ []))
paged-Numbered r moment p x from a b (e, h) =
    let n = length p.parameters in
    let total : n + 2 ≡ length (p.parameters ++ a ∷ b ∷ []) =
      sym (length-append p.parameters (a ∷ b ∷ [])) in
    subst (λ k. Numbered (p.filter_expr ++ text x ∷ paging r moment p.offset) from k) total
      (append-Numbered p.filter_expr (text x ∷ paging r moment p.offset) from n 2 h (
        subst (λ o. Numbered (text x ∷ paging r moment p.offset) o 2) e
          (paging-Numbered r moment x p.offset)))

placeholders-having : (s : Sql) → placeholders (having s) ≡ placeholders s
unfolding placeholders
placeholders-having [] = refl
placeholders-having (p ∷ ps) = refl

module _ (r : Runtime) (moment : Option ℤ → String) where
  having_nothing :
      (a : Aggregation) (from : ℕ) → Binds (parsed_aggregation a from []).having_filter from
  unfolding parsed_aggregation extract_filter_expr_and_params placeholders range
  having_nothing a from = (omega arith, refl)

  having_one :
      (a : Aggregation) (from : ℕ) (p : ParsedFilter)
      → Binds p from
      → Binds (parsed_aggregation a from (p ∷ [])).having_filter from
  unfolding parsed_aggregation extract_filter_expr_and_params placeholders
  having_one a from p (e, h) = (e, placeholders-having p.filter_expr ∙ h)

  having-Binds :
      (a : Aggregation) (from : ℕ)
      → Bindable a.post_filter
      → (g : ParsedAggregation) × (parse_aggregation r a from ≡ ok g) × Binds g.having_filter from
  unfolding parse_aggregation
  having-Binds a from h =
      elim (filter-Done r (alias_to_function a.projection []) a.post_filter from h) [
        | inl (e, silent) ↦ (parsed_aggregation a from [], rw e refl, having_nothing a from)
        | inr (p, e, b) ↦ (parsed_aggregation a from (p ∷ []), rw e refl, having_one a from p b)
      ]

  find-Complete :
      (name : String) (sort : List Sort) (skip limit : ℕ) (projection : List String)
      (p : ParsedFilter)
      → Binds p 1
      → Complete (find_statement r moment name sort skip limit projection p)
  unfolding find_statement placeholders
  find-Complete name sort skip limit projection p b =
      paged-Numbered r moment p (" " & order_by sort) 1 (counted r moment skip)
        (counted r moment limit) b

  aggregate-Complete :
      (name : String) (sort : List Sort) (skip limit : ℕ) (p : ParsedFilter) (g : ParsedAggregation)
      → Binds p 1
      → Binds g.having_filter p.offset
      → Complete (aggregate_statement r moment name sort skip limit p g)
  unfolding aggregate_statement placeholders
  aggregate-Complete name sort skip limit p g (e, b) b' =
      let page = counted r moment skip ∷ counted r moment limit ∷ [] in
      let n = length p.parameters in
      let m = length (g.having_filter.parameters ++ page) in
      let group =
        text (" GROUP BY " & join ", " (map escape_identifier g.group_by_columns) & " ") in
      let after =
        g.having_filter.filter_expr
        ++ text (" " & order_by sort) ∷ paging r moment g.having_filter.offset in
      let tail : Numbered after p.offset m =
        paged-Numbered r moment g.having_filter (" " & order_by sort) p.offset
          (counted r moment skip) (counted r moment limit) b' in
      append-Numbered p.filter_expr (group ∷ after) 1 n m b (subst (λ o. Numbered after o m) e tail)
      ∙ ap (range 1) (sym (length-append p.parameters (g.having_filter.parameters ++ page)))

  -- For every filter whose operators have values that they take, whose negations negate something
  -- and whose paths of nested fields have no quote, and every such final filter, the query, the
  -- count and the aggregation are built, each complete with its parameters, whatever the sort, the
  -- page and the projection.
  pub reads_Complete :
      (name : String) (f : AdapterFilter) (a : Aggregation) (sort : List Sort) (skip limit : ℕ)
      (projection : List String)
      → Bindable f
      → Bindable a.post_filter
      → ((st : Statement) × (find r moment name f sort skip limit projection ≡ ok st) × Complete st)
        × ((st : Statement) × (count r moment name f ≡ ok st) × Complete st)
        × ((st : Statement) × (aggregate r moment name f a sort skip limit ≡ ok st) × Complete st)
  unfolding find count count_statement aggregate placeholders
  reads_Complete name f a sort skip limit projection h k =
      let (p, e, b) = transform-Binds r f h in
      let (g, e', b') = having-Binds a p.offset k in
      (
        (
          find_statement r moment name sort skip limit projection p,
          rw e refl,
          find-Complete name sort skip limit projection p b,
        ),
        (count_statement r moment name p, rw e refl, b.1),
        (
          aggregate_statement r moment name sort skip limit p g,
          rw (e, e') refl,
          aggregate-Complete name sort skip limit p g b b',
        ),
      )

-- ===== src/MsSql/Statements/Shared.antt =====
-- What an aggregation of two filters sends.
use velo_external_db.Base.{
  ℕ, String, ◌≡◌, refl, sym, ap, ◌∙◌, List, [], ◌∷◌, ◌++◌, map, ok, Distinct, subst, eq_refl, ◌&◌,
  join,
}
use velo_external_db.Commons.Values.{
  Value, undefined, null, bool, num, frac, str, date, obj, arr, put, Item, keys,
}
use velo_external_db.Commons.Operators.{eq, gt}
use velo_external_db.Commons.Runtime.{Runtime}
use velo_external_db.Types.{AdapterFilter, single, Sort}
use velo_external_db.Converters.Validation.{Projection, Aggregation}
use velo_external_db.Postgres.Operators.{parameters_of, patch_true_false_value}
use velo_external_db.Postgres.Filter.Bindable.{Plain, NotArray}
use velo_external_db.MySql.Clauses.{order_by}
use velo_external_db.MySql.Filter.Ready.{Says}
use velo_external_db.MsSql.Sql.{TsqlString, text, Sql, references, assign, escape_id, name_at}
use velo_external_db.MsSql.Sql.Words.{Words}
use velo_external_db.MsSql.Filter.{entries_from}
use velo_external_db.MsSql.Filter.Assigned.{assign-eq}
use velo_external_db.MsSql.Filter.Ready.{Ready, bindings, compared_with}
use velo_external_db.MsSql.Filter.Values.{
  references-append, references-before_text, parameters_of-Plain,
}
use velo_external_db.MsSql.Filter.Binding.{filter-Part, transform-bindings}
use velo_external_db.MsSql.Statements.{
  Statement, ParsedAggregation, paging_query_for, having, alias_to_function,
  extract_filter_expr_and_params, parsed_aggregation, parse_aggregation, aggregate,
  aggregate_statement,
}
use velo_external_db.MsSql.Statements.Named.{TableName, escape_table-eq}

references-having : (s : Sql) → references (having s) ≡ references s
unfolding references
references-having [] = refl
references-having (p ∷ ps) = refl

Plain-NotArray : (v : Value) → Plain v → NotArray v
Plain-NotArray (arr vs) h = elim h [ ]
Plain-NotArray undefined h = tt
Plain-NotArray null h = tt
Plain-NotArray (bool b) h = tt
Plain-NotArray (num n) h = tt
Plain-NotArray (frac t) h = tt
Plain-NotArray (str s) h = tt
Plain-NotArray (date t) h = tt
Plain-NotArray (obj fs) h = tt

module _ (r : Runtime) (l : TsqlString) where
  having-Part :
      (a : Aggregation)
      → Says a.post_filter
      → Ready a.post_filter
      → Distinct (keys (bindings r l a.post_filter 0))
      → (g : ParsedAggregation) × (parse_aggregation r l a ≡ ok g)
        × (references g.having_filter.filter_expr ≡ keys (bindings r l a.post_filter 0))
        × (g.having_filter.parameters ≡ bindings r l a.post_filter 0)
  unfolding parse_aggregation parsed_aggregation extract_filter_expr_and_params references
  having-Part a s h d =
      let (p, e, n, b) =
        filter-Part r l (alias_to_function r l a.projection []) a.post_filter 0 s h d in
      (parsed_aggregation r l a (p ∷ []), rw e refl, references-having p.filter_expr ∙ n, b)

  -- the pieces of an aggregation, and its parameters
  aggregate_pieces :
      (name : String) (f : AdapterFilter) (a : Aggregation) (sort : List Sort) (skip limit : ℕ)
      → TableName name
      → Says a.post_filter
      → Ready f
      → Ready a.post_filter
      → Distinct (keys (bindings r l f 0))
      → Distinct (keys (bindings r l a.post_filter 0))
      → (st : Statement) × (aggregate r l name f a sort skip limit ≡ ok st)
        × (references st.sql ≡ keys (bindings r l f 0) ++ keys (bindings r l a.post_filter 0))
        × (st.parameters ≡ assign (bindings r l f 0) (bindings r l a.post_filter 0))
  unfolding aggregate aggregate_statement references
  aggregate_pieces name f a sort skip limit t s h k d d' =
      let (p, e, n, b) = transform-bindings r l f h d in
      let (g, e', n', b') = having-Part a s k d' in
      let after =
        text (" " & order_by l.escape_id sort & " " & paging_query_for r l skip limit) ∷ [] in
      let group = text (" GROUP BY " & join ", " (map (escape_id l) g.group_by_columns) & " ") in
      (
        aggregate_statement r l (escape_id l name) sort skip limit p g,
        rw (e, e', escape_table-eq r l name t) refl,
        references-append p.filter_expr (group ∷ (g.having_filter.filter_expr ++ after))
            ∙ (ap (λ x. x ++ references (g.having_filter.filter_expr ++ after)) n
                ∙ ap (λ x. keys (bindings r l f 0) ++ x)
                    (references-before_text g.having_filter.filter_expr _ ∙ n')),
        ap (λ x. assign (assign [] x) g.having_filter.parameters) b
            ∙ (ap (λ x. assign x g.having_filter.parameters) (assign-eq [] (bindings r l f 0) d)
                ∙ ap (assign (bindings r l f 0)) b'),
      )

  one_binding :
      (x : String) (v : Value) (vs : List Value)
      → vs ≡ patch_true_false_value v ∷ []
      → entries_from r l x 0 vs ≡ (name_at l x 0, patch_true_false_value v) ∷ []
  one_binding x v vs e = ap (entries_from r l x 0) e

  eq_binding :
      (x : String) (v : Value)
      → Plain v
      → bindings r l (single eq x v) 0 ≡ (name_at l x 0, patch_true_false_value v) ∷ []
  unfolding bindings compared_with
  eq_binding x v h = one_binding x v (parameters_of v) (parameters_of-Plain r l v h)

  gt_binding :
      (x : String) (v : Value)
      → Plain v
      → bindings r l (single gt x v) 0 ≡ (name_at l x 0, patch_true_false_value v) ∷ []
  unfolding bindings compared_with
  gt_binding x v h = one_binding x v (parameters_of v) (parameters_of-Plain r l v h)

  one_name-Distinct : (n : String) (v : Value) (b : Item) → b ≡ (n, v) ∷ [] → Distinct (keys b)
  one_name-Distinct n v b e = subst (λ x. Distinct (keys x)) (sym e) ((λ i. i), tt)

  assign-same : (n : String) (v w : Value) → assign ((n, v) ∷ []) ((n, w) ∷ []) ≡ (n, w) ∷ []
  unfolding put
  assign-same n v w = rw (eq_refl n) refl

  -- For an aggregation that filters a field by equality with a value, and filters an alias of the same
  -- name by being greater than a value, both of them neither missing nor an array, both conditions
  -- refer to the same name, and the only parameter is the value of the final filter: the value of the
  -- filter is lost.
  pub where_value_lost :
      (name : String) (x : String) (v w : Value) (projection : List Projection) (sort : List Sort)
      (skip limit : ℕ)
      → TableName name
      → Plain v
      → Plain w
      → (st : Statement) × (aggregate r l name
            (single eq x v)
            (record { projection = projection; post_filter = single gt x w })
            sort
            skip
            limit
          ≡ ok st)
        × (references st.sql ≡ name_at l x 0 ∷ name_at l x 0 ∷ [])
        × (st.parameters ≡ (name_at l x 0, patch_true_false_value w) ∷ [])
  where_value_lost name x v w projection sort skip limit t h k =
      let n = name_at l x 0 in
      let first = eq_binding x v h in
      let second = gt_binding x w k in
      let (st, e, ns, b) =
        aggregate_pieces name (single eq x v)
          (record { projection = projection; post_filter = single gt x w }) sort skip limit t tt
          (Plain-NotArray v h) k
          (one_name-Distinct n (patch_true_false_value v) (bindings r l (single eq x v) 0) first)
          (one_name-Distinct n (patch_true_false_value w) (bindings r l (single gt x w) 0)
            second) in
      (
        st,
        e,
        ns
            ∙ (ap (λ b. keys b ++ keys (bindings r l (single gt x w) 0)) first
                ∙ ap (λ b. n ∷ keys b) second),
        b
            ∙ (ap (λ b. assign b (bindings r l (single gt x w) 0)) first
                ∙ (ap (assign ((n, patch_true_false_value v) ∷ [])) second
                    ∙ assign-same n (patch_true_false_value v) (patch_true_false_value w))),
      )

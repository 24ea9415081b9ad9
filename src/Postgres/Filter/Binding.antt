-- ===== src/Postgres/Filter/Binding.antt =====
-- Every placeholder of a filter's SQL has its parameter: the placeholders are numbered on from the
-- offset that the parser was given, one for each parameter, in order.
use velo_external_db.Base.{
  ℕ, ◌+◌, String, ◌≡◌, refl, sym, ap, ◌∙◌, inl, inr, List, [], ◌∷◌, ◌++◌, map, ok, length,
  length-append, flat_map, arith,
}
use velo_external_db.Commons.Values.{Value}
use velo_external_db.Commons.Operators.{and, or, not as op_not}
use velo_external_db.Commons.Runtime.{Runtime}
use velo_external_db.Types.{AdapterFilter, empty, single, multi, Filters, done, also}
use velo_external_db.Postgres.Sql.{text, join_sql}
use velo_external_db.Postgres.Sql.Placeholders.{
  placeholders, range, placeholders-before_text, placeholders-join_sql, range-add,
}
use velo_external_db.Postgres.Operators.{ParsedFilter, Inline, joined, negated, where_clause}
use velo_external_db.Postgres.Filter.{parse_filter, parse_each, transform}
use velo_external_db.Postgres.Filter.Bindable.{Binds, Bindable, EachBindable}
use velo_external_db.Postgres.Filter.Fields.{Parsed, Done, single-Done}

-- Parts one after the other, from an offset to an offset.
abbrev Chain : List ParsedFilter → ℕ → ℕ → Type 0
Chain [] from after = from ≡ after
Chain (p ∷ ps) from after = Binds p from × Chain ps p.offset after

abbrev all_parameters : List ParsedFilter → List Value
all_parameters ps = flat_map (λ p. p.parameters) ps

-- Parts in a chain bind together.
Chain-Binds :
    (ps : List ParsedFilter) (from after : ℕ)
    → Chain ps from after
    → (after ≡ from + length (all_parameters ps))
      × (flat_map placeholders (map (λ p. p.filter_expr) ps)
          ≡ range from (length (all_parameters ps)))
unfolding range
Chain-Binds [] from after h = (omega arith, refl)
Chain-Binds (p ∷ ps) from after ((e, b), h) =
    let (e', b') = Chain-Binds ps p.offset after h in
    let n = length p.parameters in
    let m = length (all_parameters ps) in
    let total : length (all_parameters (p ∷ ps)) ≡ n + m =
      length-append p.parameters (all_parameters ps) in
    (
      omega arith,
      ap (λ x. x ++ flat_map placeholders (map (λ q. q.filter_expr) ps)) b
          ∙ (ap (λ x. range from n ++ x) (b' ∙ ap (λ k. range k m) e)
              ∙ (sym (range-add from n m) ∙ ap (range from) (sym total))),
    )

joined-Binds :
    (separator : String) (ps : List ParsedFilter) (from after : ℕ)
    → Chain ps from after
    → Binds (joined separator ps after) from
unfolding placeholders
joined-Binds separator ps from after h =
    let (e, b) = Chain-Binds ps from after h in
    (
      e,
      placeholders-before_text (join_sql separator (map (λ p. p.filter_expr) ps)) ")"
          ∙ (placeholders-join_sql separator (map (λ p. p.filter_expr) ps) ∙ b),
    )

module _ (r : Runtime) where
  negated-Parsed :
      (p : ParsedFilter) (from : ℕ) → Binds p from → Parsed r (negated (p ∷ []) from) from
  unfolding placeholders
  negated-Parsed p from (e, b) = (
    record {
      filter_expr = text "NOT (" ∷ (p.filter_expr ++ text ")" ∷ []);
      offset = p.offset;
      parameters = p.parameters;
    },
    refl,
    (e, placeholders-before_text p.filter_expr ")" ∙ b),
  )

  mutual
    unfolding parse_filter

    pub filter-Done :
        (inline : Inline) (f : AdapterFilter) (from : ℕ)
        → Bindable f
        → Done r f (parse_filter r inline f from) from
    filter-Done inline empty from h = inl (refl, λ y. y)
    filter-Done inline (single op f v) from (q, h) = single-Done r inline op f v from h
    filter-Done inline (multi and fs) from h =
        let (ps, after, e, c) = each-Chain inline fs from h in
        inr (joined " AND " ps after, rw e refl, joined-Binds " AND " ps from after c)
    filter-Done inline (multi or fs) from h =
        let (ps, after, e, c) = each-Chain inline fs from h in
        inr (joined " OR " ps after, rw e refl, joined-Binds " OR " ps from after c)
    filter-Done inline (multi op_not (also f fs)) from (h, y) = elim (filter-Done inline f from h) [
      | inl (e, silent) ↦ absurd (silent y)
      | inr (p, e, b) ↦ inr (rw e (negated-Parsed p from b))
    ]
    filter-Done inline (multi op fs) from h = elim h [ ]

    each-Chain :
        (inline : Inline) (fs : Filters) (from : ℕ)
        → EachBindable fs
        → (ps : List ParsedFilter) × (after : ℕ) × (parse_each r inline fs from ≡ ok (ps, after))
          × Chain ps from after
    each-Chain inline done from h = ([], from, refl, refl)
    each-Chain inline (also f fs) from (h, hs) = elim (filter-Done inline f from h) [
      | inl (e, silent) ↦
          let (ps, after, e', c) = each-Chain inline fs from hs in (ps, after, rw (e, e') refl, c)
      | inr (p, e, b) ↦
          let (ps, after, e', c) = each-Chain inline fs p.offset hs in
          (p ∷ ps, after, rw (e, e') refl, (b, c))
    ]

  -- For every filter whose operators have values that they take, whose negations negate something
  -- and whose paths of nested fields have no quote, the WHERE clause is built, and its placeholders
  -- are $1, $2, ... in order, one for each of its parameters; the offset that is returned is the
  -- number of the next one.
  pub transform-Binds :
      (f : AdapterFilter) → Bindable f → (p : ParsedFilter) × (transform r f ≡ ok p) × Binds p 1
  unfolding transform placeholders range
  transform-Binds f h = elim (filter-Done [] f 1 h) [
    | inl (e, silent) ↦ (where_clause [], rw e refl, (refl, refl))
    | inr (p, e, b) ↦ (where_clause (p ∷ []), rw e refl, b)
  ]

-- ===== src/MySql/Filter/Balance.antt =====
-- The SQL of a filter has a question mark for each parameter.
use velo_external_db.Base.{
  String, ◌≡◌, refl, ◌⊎◌, inl, inr, List, [], ◌∷◌, map, ok, length, length-append, flat_map, ◌&◌,
  arith, All,
}
use velo_external_db.Commons.Operators.{and, or, not as op_not}
use velo_external_db.Commons.Runtime.{Runtime}
use velo_external_db.Types.{AdapterFilter, empty, single, multi, Filters, done, also}
use velo_external_db.MySql.Text.{
  question_marks, question_marks-append, question_marks-join, all_marks,
}
use velo_external_db.MySql.Operators.{ParsedFilter, firsts, joined, negated, where_clause}
use velo_external_db.MySql.Filter.{parse_filter, parse_each, transform}
use velo_external_db.MySql.Filter.Ready.{Balanced, Says, Ready, EachReady}
use velo_external_db.MySql.Filter.Fields.{Parsed, single-Parsed}

abbrev pub Even : ParsedFilter → Type 0
Even p = Balanced p.filter_expr p.parameters

all_marks-Even :
    (ps : List ParsedFilter)
    → All Even ps
    → all_marks (map (λ p. p.filter_expr) ps) ≡ length (flat_map (λ p. p.parameters) ps)
all_marks-Even [] h = refl
all_marks-Even (p ∷ ps) (h, hs) =
    omega
      (arith, h, all_marks-Even ps hs, length-append p.parameters (flat_map (λ q. q.parameters) ps))

joined-Even :
    (separator : String) (ps : List ParsedFilter)
    → question_marks separator ≡ 0
    → All Even ps
    → Even (joined separator ps)
unfolding question_marks
joined-Even separator ps h k =
    rw (question_marks-append, question_marks-append)
      (omega
        (arith, question_marks-join separator (map (λ p. p.filter_expr) ps) h, all_marks-Even ps k))

module _ (r : Runtime) (quote : String → String)
    (quoted : (f : String) → question_marks (quote f) ≡ question_marks f) where
  negated-Parsed : (p : ParsedFilter) → Even p → Parsed (negated (p ∷ []))
  unfolding question_marks
  negated-Parsed p h = (
    record { filter_expr = "NOT (" & p.filter_expr & ")"; parameters = p.parameters },
    refl,
    rw (question_marks-append, question_marks-append) (omega (arith, h)),
  )

  mutual
    unfolding parse_filter question_marks

    pub filter-Parsed : (f : AdapterFilter) → Says f → Ready f → Parsed (parse_filter r quote f)
    filter-Parsed empty s h = elim s [ ]
    filter-Parsed (single op f v) s h = single-Parsed r quote quoted op f v h
    filter-Parsed (multi and fs) s h =
        let (res, ps, e, e', k) = each-Parsed fs h in
        (joined " AND " ps, rw (e, e') refl, joined-Even " AND " ps refl k)
    filter-Parsed (multi or fs) s h =
        let (res, ps, e, e', k) = each-Parsed fs h in
        (joined " OR " ps, rw (e, e') refl, joined-Even " OR " ps refl k)
    filter-Parsed (multi op_not (also f fs)) s (y, h) =
        let (p, e, k) = filter-Parsed f y h in rw e (negated-Parsed p k)
    filter-Parsed (multi op fs) s h = elim h [ ]

    each-Parsed :
        (fs : Filters)
        → EachReady fs
        → (res : List (List ParsedFilter)) × (ps : List ParsedFilter) × (parse_each r quote fs
            ≡ ok res)
          × (firsts res ≡ ok ps)
          × All Even ps
    each-Parsed done h = ([], [], refl, refl, tt)
    each-Parsed (also f fs) (y, h, hs) =
        let (p, e, k) = filter-Parsed f y h in
        let (res, ps, e', e'', ks) = each-Parsed fs hs in
        ((p ∷ []) ∷ res, p ∷ ps, rw (e, e') refl, rw e'' refl, (k, ks))

  -- Nothing, or one part.
  pub filter-Done :
      (f : AdapterFilter)
      → Ready f
      → (parse_filter r quote f ≡ ok []) ⊎ Parsed (parse_filter r quote f)
  unfolding parse_filter
  filter-Done empty h = inl refl
  filter-Done (single op f v) h = inr (filter-Parsed (single op f v) tt h)
  filter-Done (multi op fs) h = inr (filter-Parsed (multi op fs) tt h)

  -- For every filter whose operators have values that they take, on names without a question mark,
  -- and whose conjunctions, disjunctions and negations have no empty parts, and for a quotation of
  -- names that adds no question mark, the WHERE clause is built, with exactly as many question marks
  -- as parameters.
  pub transform-Even :
      (f : AdapterFilter) → Ready f → (p : ParsedFilter) × (transform r quote f ≡ ok p) × Even p
  unfolding transform question_marks
  transform-Even f h = elim (filter-Done f h) [
    | inl e ↦ (where_clause [], rw e refl, refl)
    | inr (p, e, k) ↦
        (where_clause (p ∷ []), rw e refl, rw question_marks-append (omega (arith, k)))
  ]

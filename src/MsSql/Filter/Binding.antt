-- ===== src/MsSql/Filter/Binding.antt =====
-- Every name in the SQL of a filter has the value that the filter has at its place.
use velo_external_db.Base.{
  ℕ, ◌+◌, String, ◌≡◌, refl, sym, ap, ◌∙◌, subst, List, [], ◌∷◌, ◌++◌, map, ok, ◌>>=◌, length,
  length-append, flat_map, append-nil, append_assoc, Distinct, arith,
}
use velo_external_db.Commons.Values.{Item, keys}
use velo_external_db.Commons.Operators.{and, or, not as op_not}
use velo_external_db.Commons.Runtime.{Runtime}
use velo_external_db.Types.{AdapterFilter, empty, single, multi, Filters, done, also}
use velo_external_db.Postgres.Operators.{Inline}
use velo_external_db.MySql.Filter.Ready.{Says}
use velo_external_db.MsSql.Sql.{TsqlString, text, references, join_sql, assign}
use velo_external_db.MsSql.Filter.{
  ParsedFilter, Parts, parse_filter, parse_each, assign_all, joined, negated, where_clause,
  transform,
}
use velo_external_db.MsSql.Filter.Assigned.{assign-eq, keys-append, Distinct-left, Distinct-right}
use velo_external_db.MsSql.Filter.Ready.{Ready, EachReady, bindings, all_bindings}
use velo_external_db.MsSql.Filter.Values.{references-before_text, references-join_sql, at, Part}
use velo_external_db.MsSql.Filter.Naming.{single-Part}

-- Parts together name their bindings, and send them after others.
abbrev Together : List ParsedFilter → Item → Type 0
Together ps bs =
    (flat_map references (map (λ p. p.filter_expr) ps) ≡ keys bs)
    × ((o : Item) → Distinct (keys o ++ keys bs) → assign_all o ps ≡ o ++ bs)

Together-cons :
    (p : ParsedFilter) (ps : List ParsedFilter) (b bs : Item)
    → references p.filter_expr ≡ keys b
    → p.parameters ≡ b
    → Together ps bs
    → Together (p ∷ ps) (b ++ bs)
Together-cons p ps b bs n e (ns, es) = (
  ap (λ x. x ++ flat_map references (map (λ q. q.filter_expr) ps)) n
      ∙ (ap (λ x. keys b ++ x) ns ∙ sym (keys-append b bs)),
  λ o d.
      let apart : Distinct ((keys o ++ keys b) ++ keys bs) =
        subst Distinct
          (ap (λ x. keys o ++ x) (keys-append b bs)
            ∙ sym (append_assoc (keys o) (keys b) (keys bs)))
          d in
      let here : assign o p.parameters ≡ o ++ b =
        ap (assign o) e ∙ assign-eq o b (Distinct-left (keys o ++ keys b) (keys bs) apart) in
      let later : Distinct (keys (o ++ b) ++ keys bs) =
        subst Distinct (ap (λ x. x ++ keys bs) (sym (keys-append o b))) apart in
      ap (λ x. assign_all x ps) here ∙ (es (o ++ b) later ∙ append_assoc o b bs),
)

joined-Part :
    (separator : String) (ps : List ParsedFilter) (bs : Item)
    → Together ps bs
    → Distinct (keys bs)
    → (references (joined separator ps).filter_expr ≡ keys bs)
      × ((joined separator ps).parameters ≡ bs)
unfolding references
joined-Part separator ps bs (n, e) d =
    let parts = map (λ p. p.filter_expr) ps in
    (
      references-before_text (join_sql separator parts) ")"
          ∙ (references-join_sql separator parts ∙ n),
      e [] d,
    )

module _ (r : Runtime) (l : TsqlString) where
  negated-Part :
      (p : ParsedFilter) (k : ℕ) (bs : Item)
      → references p.filter_expr ≡ keys bs
      → p.parameters ≡ bs
      → Part r l (negated (p ∷ []) >>= λ part. ok (part, at (k + length bs))) k bs
  unfolding references
  negated-Part p k bs n e = (
    record {
      filter_expr = text "NOT (" ∷ (p.filter_expr ++ text ")" ∷ []);
      parameters = p.parameters;
    },
    refl,
    references-before_text p.filter_expr ")" ∙ n,
    e,
  )

  -- The parts of several filters.
  abbrev Sequence : Parts → ℕ → Item → Type 0
  Sequence res k bs =
      (ps : List ParsedFilter) × (res ≡ ok (ps, at (k + length bs))) × Together ps bs

  step-Sequence :
      (inline : Inline) (f : AdapterFilter) (fs : Filters) (k : ℕ)
      → Part r l (parse_filter r l inline f (at k)) k (bindings r l f k)
      → Sequence
          (parse_each r l inline fs (at (k + length (bindings r l f k))))
          (k + length (bindings r l f k))
          (all_bindings r l fs (k + length (bindings r l f k)))
      → Sequence (parse_each r l inline (also f fs) (at k)) k (all_bindings r l (also f fs) k)
  unfolding parse_filter bindings
  step-Sequence inline f fs k (p, e, n, s) (ps, es, t) =
      let here = bindings r l f k in
      let rest = all_bindings r l fs (k + length here) in
      let total : k + length here + length rest ≡ k + length (here ++ rest) =
        omega (arith, length-append here rest) in
      (p ∷ ps, rw (e, es) (ap (λ m. ok (p ∷ ps, at m)) total), Together-cons p ps here rest n s t)

  -- Distinct names of all are distinct names of the first, and of the rest.
  front :
      (f : AdapterFilter) (fs : Filters) (k : ℕ)
      → Distinct (keys (all_bindings r l (also f fs) k))
      → Distinct (keys (bindings r l f k))
  unfolding bindings
  front f fs k d =
      let here = bindings r l f k in
      let rest = all_bindings r l fs (k + length here) in
      Distinct-left (keys here) (keys rest) (subst Distinct (keys-append here rest) d)

  back :
      (f : AdapterFilter) (fs : Filters) (k : ℕ)
      → Distinct (keys (all_bindings r l (also f fs) k))
      → Distinct (keys (all_bindings r l fs (k + length (bindings r l f k))))
  unfolding bindings
  back f fs k d =
      let here = bindings r l f k in
      let rest = all_bindings r l fs (k + length here) in
      Distinct-right (keys here) (keys rest) (subst Distinct (keys-append here rest) d)

  mutual
    unfolding parse_filter bindings

    pub filter-Part :
        (inline : Inline) (f : AdapterFilter) (k : ℕ)
        → Says f
        → Ready f
        → Distinct (keys (bindings r l f k))
        → Part r l (parse_filter r l inline f (at k)) k (bindings r l f k)
    filter-Part inline empty k s h d = elim s [ ]
    filter-Part inline (single op f v) k s h d = single-Part r l inline op f v k h d
    filter-Part inline (multi and fs) k s h d =
        let (ps, e, t) = each-Sequence inline fs k h d in
        let (n, b) = joined-Part " AND " ps (all_bindings r l fs k) t d in
        (joined " AND " ps, rw e refl, n, b)
    filter-Part inline (multi or fs) k s h d =
        let (ps, e, t) = each-Sequence inline fs k h d in
        let (n, b) = joined-Part " OR " ps (all_bindings r l fs k) t d in
        (joined " OR " ps, rw e refl, n, b)
    filter-Part inline (multi op_not (also f fs)) k s (y, h) d =
        let (p, e, n, b) = filter-Part inline f k y h d in
        rw e (negated-Part p k (bindings r l f k) n b)
    filter-Part inline (multi op fs) k s h d = elim h [ ]

    each-Sequence :
        (inline : Inline) (fs : Filters) (k : ℕ)
        → EachReady fs
        → Distinct (keys (all_bindings r l fs k))
        → Sequence (parse_each r l inline fs (at k)) k (all_bindings r l fs k)
    each-Sequence inline done k h d =
        ([], ap (λ m. ok ([], at m)) (omega arith), (refl, λ o e. sym (append-nil o)))
    each-Sequence inline (also empty fs) k (h, hs) d =
        let same : k + 0 ≡ k = omega arith in
        let (ps, e, t) = each-Sequence inline fs k hs (rw same at d) in rw same (ps, rw e refl, t)
    each-Sequence inline (also (single op f v) fs) k (h, hs) d =
        step-Sequence inline (single op f v) fs k
          (filter-Part inline (single op f v) k tt h (front (single op f v) fs k d))
          (each-Sequence inline fs _ hs (back (single op f v) fs k d))
    each-Sequence inline (also (multi op gs) fs) k (h, hs) d =
        step-Sequence inline (multi op gs) fs k
          (filter-Part inline (multi op gs) k tt h (front (multi op gs) fs k d))
          (each-Sequence inline fs _ hs (back (multi op gs) fs k d))

  -- For every filter whose operators have values that they take and whose negations negate something,
  -- where the names that its values get, each after its field and its number, are distinct, the WHERE
  -- clause is built; its SQL refers to exactly these names, in the order of the values, and its
  -- parameters are the values under these names.
  pub transform-bindings :
      (f : AdapterFilter)
      → Ready f
      → Distinct (keys (bindings r l f 0))
      → (p : ParsedFilter) × (transform r l f ≡ ok p)
        × (references p.filter_expr ≡ keys (bindings r l f 0))
        × (p.parameters ≡ bindings r l f 0)
  unfolding transform parse_filter bindings references
  transform-bindings empty h d = (where_clause [], refl, refl, refl)
  transform-bindings (single op f v) h d =
      let (p, e, n, b) = filter-Part [] (single op f v) 0 tt h d in
      (where_clause (p ∷ []), rw e refl, n, b)
  transform-bindings (multi op fs) h d =
      let (p, e, n, b) = filter-Part [] (multi op fs) 0 tt h d in
      (where_clause (p ∷ []), rw e refl, n, b)

-- ===== src/Converters/Validation/Sound.antt =====
-- query_validator.ts against a description of the filters that a schema admits.
use velo_external_db.Base.{
  String, false, ◌≡◌, refl, ◌≢◌, ◌↔◌, ◌⊎◌, inl, inr, Option, List, [], ◌∷◌, ◌++◌, map, ok, ◌==◌,
  eq_iff, Listed, includes_iff, before_char, All, All-append, All-left, All-right, Bool-cases,
  >>=-eq-ok, arith, ok-injective, guard-eq-ok, sym, subst,
}
use velo_external_db.Commons.Errors.{Result}
use velo_external_db.Commons.Operators.{AdapterOperator}
use velo_external_db.Types.{AdapterFilter, empty, single, multi, Filters, done, also}
use velo_external_db.Converters.Validation.Unnamed.{
  admits_iff, Allows, Passes, SpelledOut, SpelledOut-iff,
}
use velo_external_db.Converters.Validation.{
  known, admits, TypedField, FieldOperator, field_names, extract_fields_and_operators, extract_each,
  non_existent, validate_fields_exists, field_type_for, query_adapter_operators_for,
  validate_operator, validate_operators, validate_filter,
}

pub validate_fields_exists_iff :
    (names query : List String) (coll : Option String)
    → (validate_fields_exists names query coll ≡ ok tt) ↔ All (λ n. Listed n names) query
unfolding validate_fields_exists non_existent
validate_fields_exists_iff names [] coll = (λ h. tt, λ h. refl)
validate_fields_exists_iff names (n ∷ ns) coll =
    let (to, from) = validate_fields_exists_iff names ns coll in
    let (find, found) = includes_iff names n in
    (λ h. ground (arith, to, find), λ (p, h). ground (arith, from h, found p))

-- The filter names only fields of the schema, by the first part of their path, with operators that
-- their types allow. A filter on the field "" is read as the filters that its value spells out.
abbrev mutual
  pub Queryable : List TypedField → AdapterFilter → Type 0
  Queryable fields empty = Unit
  Queryable fields (single op f v) =
      ((f ≡ "") × SpelledOut fields v)
      ⊎ ((f ≢ "") × Passes fields (record { name = before_char b'.' f; operator = known op }))
  Queryable fields (multi op fs) = EachQueryable fields fs

  pub EachQueryable : List TypedField → Filters → Type 0
  EachQueryable fields done = Unit
  EachQueryable fields (also f fs) = Queryable fields f × EachQueryable fields fs

module _ (fields : List TypedField) where
  validate_operator-Allows :
      (lo : FieldOperator) → validate_operator fields lo ≡ ok tt → Allows fields lo
  unfolding validate_operator
  validate_operator-Allows lo h =
      let (t, e, h') = >>=-eq-ok (field_type_for lo.name fields) _ h in
      let (ops, e', h'') = >>=-eq-ok (query_adapter_operators_for t) _ h' in
      (t, ops, e, e', (admits_iff ops lo.operator).0 (guard-eq-ok (admits ops lo.operator) _ h''))

  Allows-validate_operator :
      (lo : FieldOperator) → Allows fields lo → validate_operator fields lo ≡ ok tt
  unfolding validate_operator
  Allows-validate_operator lo (t, ops, e, e', h) = rw (e, e', (admits_iff ops lo.operator).1 h)

  validate_operators-All :
      (los : List FieldOperator) → validate_operators fields los ≡ ok tt → All (Allows fields) los
  unfolding validate_operators
  validate_operators-All [] h = tt
  validate_operators-All (lo ∷ los) h =
      let (u, e, h') = >>=-eq-ok (validate_operator fields lo) _ h in
      (validate_operator-Allows lo e, validate_operators-All los h')

  All-validate_operators :
      (los : List FieldOperator) → All (Allows fields) los → validate_operators fields los ≡ ok tt
  unfolding validate_operators
  All-validate_operators [] h = refl
  All-validate_operators (lo ∷ los) (p, h) =
      rw (Allows-validate_operator lo p) (All-validate_operators los h)

  names_Listed :
      (los : List FieldOperator)
      → All (λ n. Listed n (field_names fields)) (map (λ lo. lo.name) los)
      → All (Allows fields) los
      → All (Passes fields) los
  names_Listed [] h k = tt
  names_Listed (lo ∷ los) (p, h) (q, k) = ((p, q), names_Listed los h k)

  Passes-names :
      (los : List FieldOperator)
      → All (Passes fields) los
      → All (λ n. Listed n (field_names fields)) (map (λ lo. lo.name) los)
  Passes-names [] h = tt
  Passes-names (lo ∷ los) ((p, _), h) = (p, Passes-names los h)

  Passes-Allows : (los : List FieldOperator) → All (Passes fields) los → All (Allows fields) los
  Passes-Allows [] h = tt
  Passes-Allows (lo ∷ los) ((_, q), h) = (q, Passes-Allows los h)

  single-Passes :
      (op : AdapterOperator) (f : String) (los : List FieldOperator)
      → (f == "") ≡ false
      → ◌≡◌ {A = Result (List FieldOperator)}
          (ok (record { name = before_char b'.' f; operator = known op } ∷ []))
          (ok los)
      → All (Passes fields) los
      → (f ≢ "") × Passes fields (record { name = before_char b'.' f; operator = known op })
  single-Passes op f los named e h =
      let (p, rest) = subst (All (Passes fields)) (sym (ok-injective e)) h in
      (λ (k : f ≡ ""). ground (arith, eq_iff f ""), p)

  mutual
    unfolding extract_fields_and_operators

    extract-Queryable :
        (f : AdapterFilter) (los : List FieldOperator)
        → extract_fields_and_operators f ≡ ok los
        → All (Passes fields) los
        → Queryable fields f
    extract-Queryable empty los e h = tt
    extract-Queryable (single op f v) los e h = elim (Bool-cases (f == "")) [
      | inl unnamed ↦ inl (
        (eq_iff f "").0 unnamed,
        (SpelledOut-iff fields v).0 (los, rw (unnamed, extract_fields_and_operators) at e, h),
      )
      | inr named ↦ inr (single-Passes op f los named (rw (named) at e) h)
    ]
    extract-Queryable (multi op fs) los e h = extract_each-Queryable fs los e h

    extract_each-Queryable :
        (fs : Filters) (los : List FieldOperator)
        → extract_each fs ≡ ok los
        → All (Passes fields) los
        → EachQueryable fields fs
    extract_each-Queryable done los e h = tt
    extract_each-Queryable (also f fs) los e h =
        let (here, e1, e') = >>=-eq-ok (extract_fields_and_operators f) _ e in
        let (rest, e2, e'') = >>=-eq-ok (extract_each fs) _ e' in
        let p : All (Passes fields) (here ++ rest) =
          subst (All (Passes fields)) (sym (ok-injective e'')) h in
        (
          extract-Queryable f here e1 (All-left (Passes fields) here rest p),
          extract_each-Queryable fs rest e2 (All-right (Passes fields) here rest p),
        )

  mutual
    unfolding extract_fields_and_operators

    Queryable-extract :
        (f : AdapterFilter)
        → Queryable fields f
        → (los : List FieldOperator) × (extract_fields_and_operators f ≡ ok los)
          × All (Passes fields) los
    Queryable-extract empty h = ([], refl, tt)
    Queryable-extract (single op f v) h = elim h [
      | inl (unnamed, spelled) ↦
          let (los, e, p) = (SpelledOut-iff fields v).1 spelled in
          (los, rw (unnamed, extract_fields_and_operators) e, p)
      | inr (named, passes) ↦ (
        record { name = before_char b'.' f; operator = known op } ∷ [],
        ground (arith, eq_iff f ""),
        (passes, tt),
      )
    ]
    Queryable-extract (multi op fs) h = EachQueryable-extract fs h

    EachQueryable-extract :
        (fs : Filters)
        → EachQueryable fields fs
        → (los : List FieldOperator) × (extract_each fs ≡ ok los) × All (Passes fields) los
    EachQueryable-extract done h = ([], refl, tt)
    EachQueryable-extract (also f fs) (h, hs) =
        let (here, e1, p1) = Queryable-extract f h in
        let (rest, e2, p2) = EachQueryable-extract fs hs in
        (here ++ rest, rw (e1, e2), All-append (Passes fields) here rest p1 p2)

-- The validator accepts a filter exactly when it is queryable: every field that it names, by the
-- first part of its path, is in the schema, with a type that allows the operator; a filter on the
-- field "" is read as the filters that its value spells out.
pub validate_filter_iff :
    (fields : List TypedField) (f : AdapterFilter) (coll : Option String)
    → (validate_filter fields f coll ≡ ok tt) ↔ Queryable fields f
unfolding validate_filter
validate_filter_iff fields f coll = (to, from)
  where
    to : validate_filter fields f coll ≡ ok tt → Queryable fields f
    to h =
        let (los, e, h') = >>=-eq-ok (extract_fields_and_operators f) _ h in
        let (u, e', h'') =
          >>=-eq-ok (validate_fields_exists (field_names fields) (map (λ lo. lo.name) los) coll) _
            h' in
        extract-Queryable fields f los e (
          names_Listed fields los
            ((validate_fields_exists_iff (field_names fields) (map (λ lo. lo.name) los) coll).0 e')
            (validate_operators-All fields los h''))

    from : Queryable fields f → validate_filter fields f coll ≡ ok tt
    from q =
        let (los, e, p) = Queryable-extract fields f q in
        rw
          (
            e,
            (validate_fields_exists_iff (field_names fields) (map (λ lo. lo.name) los) coll).1
                (Passes-names fields los p),
          )
          (All-validate_operators fields los (Passes-Allows fields los p))

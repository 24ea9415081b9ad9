-- ===== src/Converters/Validation/Unnamed.antt =====
-- What the validator wants of a field and its operator, and of a filter on the field "".
use velo_external_db.Base.{
  String, true, false, ◌≡◌, refl, sym, subst, ◌↔◌, ◌⊎◌, inl, inr, Option, List, [], ◌++◌, ok, ◌==◌,
  Listed, before_char, All, All-append, All-left, All-right, Bool-cases, >>=-eq-ok, ok-injective,
}
use velo_external_db.Commons.Values.{
  Value, str, arr, obj, Items, nil, cons, Fields, end, field, entries, get, is_truthy,
}
use velo_external_db.Commons.Errors.{Result}
use velo_external_db.Commons.Operators.{AdapterOperator, has_operator_iff, Allowed}
use velo_external_db.Converters.Validation.{
  TypedField, FieldOperator, ReadOperator, known, other, read_operator, admits, field_names,
  field_type_for, query_adapter_operators_for, extract_value, extract_elements, extract_element,
  extract_member, named_element,
}

-- An operator of the adapter that a type allows.
abbrev pub Admitted : ReadOperator → List AdapterOperator → Type 0
Admitted (known op) ops = Allowed op ops
Admitted (other v) ops = ⊥

pub admits_iff :
    (ops : List AdapterOperator) (o : ReadOperator) → (admits ops o ≡ true) ↔ Admitted o ops
admits_iff ops (known op) = has_operator_iff ops op
admits_iff ops (other v) = (λ h. cc, λ h. elim h [ ])

-- The schema has a field of that name, and the type of the first such field allows the operator.
abbrev pub Allows : List TypedField → FieldOperator → Type 0
Allows fields lo =
    (t : Option String) × (ops : List AdapterOperator) × (field_type_for lo.name fields ≡ ok t)
    × (query_adapter_operators_for t ≡ ok ops)
    × Admitted lo.operator ops

-- What the validator wants of one field and operator.
abbrev pub Passes : List TypedField → FieldOperator → Type 0
Passes fields lo = Listed lo.name (field_names fields) × Allows fields lo

-- A name that is a text, of a field whose type allows the operator
abbrev Named : List TypedField → Value → Value → Type 0
Named fields (str s) op =
    Passes fields (record { name = before_char b'.' s; operator = read_operator op })
Named fields v op = ⊥

-- A value spells out filters if it is a list of objects: each names a field, with an operator, or
-- has such a list itself for its `value`.
abbrev mutual
  pub SpelledOut : List TypedField → Value → Type 0
  SpelledOut fields (arr vs) = EachSpelled fields vs
  SpelledOut fields v = ⊥

  EachSpelled : List TypedField → Items → Type 0
  EachSpelled fields nil = Unit
  EachSpelled fields (cons v vs) = Spelled fields v × EachSpelled fields vs

  Spelled : List TypedField → Value → Type 0
  Spelled fields (obj fs) =
      ((is_truthy (get "fieldName" (entries fs)) ≡ true)
        × Named fields (get "fieldName" (entries fs)) (get "operator" (entries fs)))
      ⊎ ((is_truthy (get "fieldName" (entries fs)) ≡ false) × SpelledBelow fields fs)
  Spelled fields v = ⊥

  SpelledBelow : List TypedField → Fields → Type 0
  SpelledBelow fields end = ⊥
  SpelledBelow fields (field k v fs) =
      (((k == "value") ≡ true) × SpelledOut fields v)
      ⊎ (((k == "value") ≡ false) × SpelledBelow fields fs)

module _ (fields : List TypedField) where
  -- What is extracted passes.
  abbrev pub Good : Result (List FieldOperator) → Type 0
  Good res = (los : List FieldOperator) × (res ≡ ok los) × All (Passes fields) los

  Named-iff : (name op : Value) → Good (named_element name op) ↔ Named fields name op
  Named-iff (str s) op = (
    λ (los, e, h). (subst (All (Passes fields)) (sym (ok-injective e)) h).0,
    λ p. (_, refl, (p, tt)),
  )
  Named-iff v op = (λ (los, e, h). cc, λ p. elim p [ ])

  mutual
    unfolding extract_value

    pub SpelledOut-iff : (v : Value) → Good (extract_value v) ↔ SpelledOut fields v
    SpelledOut-iff (arr vs) = EachSpelled-iff vs
    SpelledOut-iff v = (λ (los, e, h). cc, λ p. elim p [ ])

    EachSpelled-iff : (vs : Items) → Good (extract_elements vs) ↔ EachSpelled fields vs
    EachSpelled-iff nil = (λ h. tt, λ p. ([], refl, tt))
    EachSpelled-iff (cons v vs) =
        let (to, from) = Spelled-iff v in
        let (to', from') = EachSpelled-iff vs in
        (
          λ (los, e, h).
              let (here, e1, e') = >>=-eq-ok (extract_element v) _ e in
              let (rest, e2, e'') = >>=-eq-ok (extract_elements vs) _ e' in
              let p : All (Passes fields) (here ++ rest) =
                subst (All (Passes fields)) (sym (ok-injective e'')) h in
              (
                to (here, e1, All-left (Passes fields) here rest p),
                to' (rest, e2, All-right (Passes fields) here rest p),
              ),
          λ (p, q).
              let (here, e1, h1) = from p in
              let (rest, e2, h2) = from' q in
              (here ++ rest, rw (e1, e2) refl, All-append (Passes fields) here rest h1 h2),
        )

    Spelled-iff : (v : Value) → Good (extract_element v) ↔ Spelled fields v
    Spelled-iff (obj fs) =
        let name = get "fieldName" (entries fs) in
        let (to, from) = Named-iff name (get "operator" (entries fs)) in
        let (to', from') = SpelledBelow-iff fs in
        elim (Bool-cases (is_truthy name)) [
          | inl t ↦ rw t (λ g. inl (refl, to g), elim [ inl (u, p) ↦ from p | inr (u, p) ↦ cc ])
          | inr t ↦ rw t (λ g. inr (refl, to' g), elim [ inl (u, p) ↦ cc | inr (u, p) ↦ from' p ])
        ]
    Spelled-iff v = (λ (los, e, h). cc, λ p. elim p [ ])

    SpelledBelow-iff : (fs : Fields) → Good (extract_member fs) ↔ SpelledBelow fields fs
    SpelledBelow-iff end = (λ (los, e, h). cc, λ p. elim p [ ])
    SpelledBelow-iff (field k v fs) =
        let (to, from) = SpelledOut-iff v in
        let (to', from') = SpelledBelow-iff fs in
        elim (Bool-cases (k == "value")) [
          | inl t ↦ rw t (λ g. inl (refl, to g), elim [ inl (u, p) ↦ from p | inr (u, p) ↦ cc ])
          | inr t ↦ rw t (λ g. inr (refl, to' g), elim [ inl (u, p) ↦ cc | inr (u, p) ↦ from' p ])
        ]

-- ===== src/MsSql/Filter/Values.antt =====
-- The names in the SQL of one value, and the entries that are sent for it.
use velo_external_db.Base.{
  ℕ, suc, ◌+◌, String, ◌≡◌, refl, sym, ap, ◌∙◌, List, [], ◌∷◌, ◌++◌, ok, length, flat_map,
  append-nil, Distinct, arith,
}
use velo_external_db.Commons.Values.{
  Value, undefined, null, arr, cons, values, Item, put, keys, is_null,
}
use velo_external_db.Commons.Operators.{AdapterOperator, eq, include, ne}
use velo_external_db.Commons.Runtime.{Runtime}
use velo_external_db.Postgres.Operators.{parameters_of, patch_true_false_value}
use velo_external_db.Postgres.Filter.Bindable.{Plain, NotArray, NonEmptyArray}
use velo_external_db.MsSql.Sql.{
  TsqlString, Sql, text, reference, references, join_sql, assign, name_at,
}
use velo_external_db.MsSql.Filter.{
  Counter, ParsedFilter, Parts, names_from, entries_from, value_for_operator, parameters_for,
  comparison, finish,
}
use velo_external_db.MsSql.Filter.Assigned.{assign-eq}

pub references-append : (s t : Sql) → references (s ++ t) ≡ references s ++ references t
unfolding references
references-append [] t = refl
references-append (text x ∷ s) t = references-append s t
references-append (reference n ∷ s) t = ap (◌∷◌ n) (references-append s t)

pub references-before_text : (s : Sql) (x : String) → references (s ++ text x ∷ []) ≡ references s
unfolding references
references-before_text s x = references-append s (text x ∷ []) ∙ append-nil (references s)

pub references-join_sql :
    (separator : String) (ss : List Sql)
    → references (join_sql separator ss) ≡ flat_map references ss
unfolding references
references-join_sql separator [] = refl
references-join_sql separator (s ∷ []) = sym (append-nil (references s))
references-join_sql separator (s ∷ t ∷ ts) =
    references-append s (text separator ∷ join_sql separator (t ∷ ts))
    ∙ ap (λ x. references s ++ x) (references-join_sql separator (t ∷ ts))

pub references-comparison :
    (left operator : String) (sql : Sql)
    → references (comparison left operator sql) ≡ references sql
unfolding references
references-comparison left operator [] = refl
references-comparison left operator (p ∷ ps) = refl

-- Both counters at one number.
abbrev pub at : ℕ → Counter
at k = record { param_counter = k; value_counter = k }

module _ (r : Runtime) (l : TsqlString) where
  names_from-entries :
      (f : String) (from : ℕ) (vs : List Value)
      → flat_map references (names_from r l f from (length vs)) ≡ keys (entries_from r l f from vs)
  unfolding references
  names_from-entries f from [] = refl
  names_from-entries f from (v ∷ vs) =
      ap (◌∷◌ (name_at l f from)) (names_from-entries f (suc from) vs)

  pub length-entries_from :
      (f : String) (from : ℕ) (vs : List Value) → length (entries_from r l f from vs) ≡ length vs
  length-entries_from f from [] = refl
  length-entries_from f from (v ∷ vs) = ap suc (length-entries_from f (suc from) vs)

  -- The SQL of a value names as many values as are given.
  abbrev pub Names : AdapterOperator → String → Value → ℕ → List Value → Type 0
  Names op f v k vs =
      (sql : Sql) × (value_for_operator r l f v op (at k)
        ≡ ok (sql, record { param_counter = k; value_counter = k + length vs }))
      × (references sql ≡ keys (entries_from r l f k vs))

  pub one-Names :
      (op : AdapterOperator) (f : String) (v : Value) (k : ℕ) (x : Value)
      → value_for_operator r l f v op (at k)
        ≡ ok (reference (name_at l f k) ∷ [], record { param_counter = k; value_counter = k + 1 })
      → Names op f v k (x ∷ [])
  unfolding references
  one-Names op f v k x e = (reference (name_at l f k) ∷ [], e, refl)

  null-Names :
      (op : AdapterOperator) (f : String) (v : Value) (k : ℕ)
      → value_for_operator r l f v op (at k) ≡ ok ([], at k)
      → Names op f v k []
  unfolding references
  null-Names op f v k e = let same : k + 0 ≡ k = omega arith in ([], rw same e, refl)

  pub some-Names :
      (f : String) (v : Value) (k : ℕ) → NonEmptyArray v → Names include f v k (parameters_of v)
  unfolding value_for_operator parameters_of references
  some-Names f (arr (cons v vs)) k h =
      let list = join_sql ", " (names_from r l f k (length (v ∷ values vs))) in
      (
        text "(" ∷ (list ++ text ")" ∷ []),
        refl,
        references-before_text list ")"
            ∙ (references-join_sql ", " (names_from r l f k (length (v ∷ values vs)))
                ∙ names_from-entries f k (v ∷ values vs)),
      )
  some-Names f v k h = elim h [ ]

  pub parameters_of-Plain : (v : Value) → Plain v → parameters_of v ≡ patch_true_false_value v ∷ []
  unfolding parameters_of
  parameters_of-Plain undefined h = elim h [ ]
  parameters_of-Plain null h = elim h [ ]
  parameters_of-Plain (arr vs) h = elim h [ ]
  parameters_of-Plain v h = refl

  pub unary-Names :
      (op : AdapterOperator) (f : String) (v : Value) (k : ℕ)
      → Plain v
      → value_for_operator r l f v op (at k)
        ≡ ok (reference (name_at l f k) ∷ [], record { param_counter = k; value_counter = k + 1 })
      → Names op f v k (parameters_of v)
  unary-Names op f v k h e =
      rw (parameters_of-Plain v h) (one-Names op f v k (patch_true_false_value v) e)

  pub eq-Names : (f : String) (v : Value) (k : ℕ) → NotArray v → Names eq f v k (parameters_of v)
  unfolding value_for_operator parameters_of is_null
  eq-Names f undefined k h = null-Names eq f undefined k refl
  eq-Names f null k h = null-Names eq f null k refl
  eq-Names f (arr vs) k h = elim h [ ]
  eq-Names f v k h = unary-Names eq f v k tt refl

  pub ne-Names : (f : String) (v : Value) (k : ℕ) → NotArray v → Names ne f v k (parameters_of v)
  unfolding value_for_operator parameters_of is_null
  ne-Names f undefined k h = null-Names ne f undefined k refl
  ne-Names f null k h = null-Names ne f null k refl
  ne-Names f (arr vs) k h = elim h [ ]
  ne-Names f v k h = unary-Names ne f v k tt refl

  -- What is sent for a value is its entries.
  sent-eq :
      (f : String) (v : Value) (k m : ℕ)
      → parameters_for r l f v (record { param_counter = k; value_counter = m }) ≡ (
        assign [] (entries_from r l f k (parameters_of v)),
        record { param_counter = k + length (parameters_of v); value_counter = m },
      )
  unfolding parameters_for parameters_of put
  sent-eq f undefined k m =
      ap (λ n. ([], record { param_counter = n; value_counter = m })) (omega arith)
  sent-eq f null k m = ap (λ n. ([], record { param_counter = n; value_counter = m })) (omega arith)
  sent-eq f (arr vs) k m = refl
  sent-eq f v k m = refl

  -- The result of a parser is one part, which names its bindings, and sends them.
  abbrev pub Part : Parts → ℕ → Item → Type 0
  Part res k bs =
      (p : ParsedFilter) × (res ≡ ok (p ∷ [], at (k + length bs)))
      × (references p.filter_expr ≡ keys bs)
      × (p.parameters ≡ bs)

  pub finish-Part :
      (shape : Sql → Sql) (f : String) (sent : Value) (k : ℕ) (sql : Sql)
      → references (shape sql) ≡ keys (entries_from r l f k (parameters_of sent))
      → Distinct (keys (entries_from r l f k (parameters_of sent)))
      → Part
          (finish r l shape f sent
            (sql, record { param_counter = k; value_counter = k + length (parameters_of sent) }))
          k
          (entries_from r l f k (parameters_of sent))
  finish-Part shape f sent k sql e d =
      let vs = parameters_of sent in
      let bs = entries_from r l f k vs in
      (
        record { filter_expr = shape sql; parameters = assign [] bs },
        rw (sent-eq f sent k (k + length vs), length-entries_from f k vs) refl,
        e,
        assign-eq [] bs d,
      )

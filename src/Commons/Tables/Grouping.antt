-- ===== src/Commons/Tables/Grouping.antt =====
-- The groups are the rows of each table, in order.
use velo_external_db.Base.{
  String, ◌≡◌, refl, sym, ap, ◌∙◌, subst, inl, inr, ◌⊎◌, Bool, true, false, List, [], ◌∷◌, ◌++◌,
  map, filter, ◌==◌, Bool-cases, eq_iff, Listed, if◌then◌else◌, Distinct, append_assoc, append-nil,
}
use velo_external_db.Commons.Tables.{Row, Tables, add_row, add_rows, parse_table_data}

-- the rows of the first group of a name
abbrev pub rows_of : String → Tables → List Row
rows_of k [] = []
rows_of k ((name, rows) ∷ tables) = if name == k then rows else rows_of k tables

abbrev pub table_names : Tables → List String
table_names tables = map (λ t. t.0) tables

abbrev pub of_table : String → Row → Bool
of_table k r = r.table_name == k

other_table :
    (name table k : String) → (name == table) ≡ false → (name == k) ≡ true → (table == k) ≡ false
other_table name table k e f = elim (Bool-cases (table == k)) [
  | inl h ↦
      let a : name ≡ k = (eq_iff name k).0 f in
      let b : table ≡ k = (eq_iff table k).0 h in
      let found : (name == table) ≡ true = (eq_iff name table).1 (a ∙ sym b) in cc
  | inr h ↦ h
]

rows_of-add_row :
    (k : String) (tables : Tables) (r : Row)
    → rows_of k (add_row tables r) ≡ rows_of k tables ++ filter (of_table k) (r ∷ [])
unfolding add_row
rows_of-add_row k [] r = refl
rows_of-add_row k ((name, rows) ∷ tables) r = elim (Bool-cases (name == r.table_name)) [
  | inl e ↦
      let same : name ≡ r.table_name = (eq_iff name r.table_name).0 e in
      elim (Bool-cases (name == k)) [
        | inl f ↦
            let g : (r.table_name == k) ≡ true = subst (λ x. (x == k) ≡ true) same f in
            rw (e, f, g) refl
        | inr f ↦
            let g : (r.table_name == k) ≡ false = subst (λ x. (x == k) ≡ false) same f in
            rw (e, f, g) (sym (append-nil (rows_of k tables)))
      ]
  | inr e ↦ elim (Bool-cases (name == k)) [
    | inl f ↦
        let g : (r.table_name == k) ≡ false = other_table name r.table_name k e f in
        rw (e, f, g) (sym (append-nil rows))
    | inr f ↦ rw (e, f) (rows_of-add_row k tables r)
  ]
]

filter-first :
    (k : String) (r : Row) (rs : List Row)
    → filter (of_table k) (r ∷ rs) ≡ filter (of_table k) (r ∷ []) ++ filter (of_table k) rs
filter-first k r rs = elim (Bool-cases (r.table_name == k)) [
  | inl e ↦ rw e refl
  | inr e ↦ rw e refl
]

rows_of-add_rows :
    (k : String) (tables : Tables) (rs : List Row)
    → rows_of k (add_rows tables rs) ≡ rows_of k tables ++ filter (of_table k) rs
rows_of-add_rows k tables [] = sym (append-nil (rows_of k tables))
rows_of-add_rows k tables (r ∷ rs) =
    rows_of-add_rows k (add_row tables r) rs
    ∙ (ap (λ x. x ++ filter (of_table k) rs) (rows_of-add_row k tables r)
        ∙ (append_assoc (rows_of k tables) (filter (of_table k) (r ∷ [])) (filter (of_table k) rs)
            ∙ ap (λ x. rows_of k tables ++ x) (sym (filter-first k r rs))))

-- a row adds the name of its table, at most
Listed-add_row :
    (n : String) (tables : Tables) (r : Row)
    → Listed n (table_names (add_row tables r))
    → (r.table_name ≡ n) ⊎ Listed n (table_names tables)
unfolding add_row
Listed-add_row n [] r h = h
Listed-add_row n ((name, rows) ∷ tables) r h = elim (Bool-cases (name == r.table_name)) [
  | inl e ↦ let kept : Listed n (name ∷ table_names tables) = rw e at h in inr kept
  | inr e ↦
      let there : Listed n (name ∷ table_names (add_row tables r)) = rw e at h in
      elim there [
        | inl first ↦ inr (inl first)
        | inr later ↦ elim (Listed-add_row n tables r later) [
          | inl new ↦ inl new
          | inr old ↦ inr (inr old)
        ]
      ]
]

add_row-Distinct :
    (tables : Tables) (r : Row)
    → Distinct (table_names tables)
    → Distinct (table_names (add_row tables r))
unfolding add_row
add_row-Distinct [] r d = (λ h. h, tt)
add_row-Distinct ((name, rows) ∷ tables) r (fresh, d) = elim (Bool-cases (name == r.table_name)) [
  | inl e ↦ rw e (fresh, d)
  | inr e ↦ rw e (
    λ h. elim (Listed-add_row name tables r h) [
      | inl same ↦
          let found : (name == r.table_name) ≡ true = (eq_iff name r.table_name).1 (sym same) in cc
      | inr old ↦ fresh old
    ],
    add_row-Distinct tables r d,
  )
]

add_rows-Distinct :
    (tables : Tables) (rs : List Row)
    → Distinct (table_names tables)
    → Distinct (table_names (add_rows tables rs))
add_rows-Distinct tables [] d = d
add_rows-Distinct tables (r ∷ rs) d =
    add_rows-Distinct (add_row tables r) rs (add_row-Distinct tables r d)

-- No table has two groups, and the group of a table is its rows, in order.
pub parse_table_data_lem :
    (rows : List Row)
    → Distinct (table_names (parse_table_data rows))
      × ((k : String) → rows_of k (parse_table_data rows) ≡ filter (of_table k) rows)
unfolding parse_table_data
parse_table_data_lem rows = (add_rows-Distinct [] rows tt, λ k. rows_of-add_rows k [] rows)

-- ===== src/Postgres/Provider/Listing.antt =====
-- The tables that are listed.
use velo_external_db.Base.{
  String, ◌≡◌, refl, sym, ap, ◌∙◌, subst, inl, inr, Bool-cases, List, [], ◌∷◌, map, filter, ok,
  ◌==◌, Distinct, if◌then◌else◌,
}
use velo_external_db.Types.{ResponseField}
use velo_external_db.Service.Storage.{Table}
use velo_external_db.Commons.Tables.{Row, Tables, parse_table_data}
use velo_external_db.Commons.Tables.Grouping.{rows_of, table_names, of_table, parse_table_data_lem}
use velo_external_db.Postgres.Provider.{
  Pool, list, list_rows, table_of, append_additional_row_details,
}

abbrev pub ids : List Table → List String
ids tables = map (λ t. t.id) tables

-- the fields of the first table of a name
abbrev pub fields_of : String → List Table → List ResponseField
fields_of k [] = []
fields_of k (t ∷ tables) = if t.id == k then t.fields else fields_of k tables

ids-table_of : (groups : Tables) → ids (map table_of groups) ≡ table_names groups
ids-table_of [] = refl
ids-table_of (g ∷ groups) = ap (λ x. g.0 ∷ x) (ids-table_of groups)

fields_of-table_of :
    (k : String) (groups : Tables)
    → fields_of k (map table_of groups) ≡ map append_additional_row_details (rows_of k groups)
fields_of-table_of k [] = refl
fields_of-table_of k ((name, rows) ∷ groups) = elim (Bool-cases (name == k)) [
  | inl e ↦ rw e refl
  | inr e ↦ rw e (fields_of-table_of k groups)
]

module _ {S : Type 0} (pool : Pool S) where
  -- When the pool answers the query of all columns with rows, the tables that are listed have
  -- distinct names, and the fields of the table of a name are the rows of that name, in order, with
  -- their types and capabilities.
  pub list_lem :
      (s after : S) (rows : List Row)
      → pool.query list_rows ("public" ∷ []) s ≡ (ok rows, after)
      → (tables : List Table) × (list pool s ≡ (ok tables, after))
        × Distinct (ids tables)
        × ((k : String)
            → fields_of k tables ≡ map append_additional_row_details (filter (of_table k) rows))
  unfolding list
  list_lem s after rows h =
      let (distinct, groups) = parse_table_data_lem rows in
      let found = parse_table_data rows in
      (
        map table_of found,
        rw h refl,
        subst Distinct (sym (ids-table_of found)) distinct,
        λ k. fields_of-table_of k found ∙ ap (map append_additional_row_details) (groups k),
      )

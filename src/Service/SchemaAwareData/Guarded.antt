-- ===== src/Service/SchemaAwareData/Guarded.antt =====
-- A filter that the schema does not admit never reaches the storage.
use velo_external_db.Base.{
  ℕ, String, Bool, ◌≡◌, refl, inl, inr, some, List, map, ok, err, Outcome-cases,
}
use velo_external_db.Commons.Errors.{Error}
use velo_external_db.Commons.Effects.{◌>>=◌}
use velo_external_db.Commons.Runtime.{Runtime}
use velo_external_db.Types.{AdapterFilter, Sort, ResponseField}
use velo_external_db.Converters.Validation.{typed}
use velo_external_db.Converters.Validation as Validator
use velo_external_db.Converters.Validation.Sound.{validate_filter_iff, Queryable}
use velo_external_db.Service.Storage.{SchemaProvider, DataProvider, NodeCache}
use velo_external_db.Service.SchemaInformation.{schema_fields_for}
use velo_external_db.Service.SchemaAwareData.{find, count, validate_filter}

module _ {S C : Type 0} (r : Runtime) (provider : SchemaProvider S) (cache : NodeCache C)
    (storage : DataProvider S) where
  refused :
      (fields : List ResponseField) (f : AdapterFilter) (name : String)
      → ¬ Queryable (map typed fields) f
      → (e : Error) × (Validator.validate_filter (map typed fields) f (some name) ≡ err e)
  refused fields f name bad =
      elim (Outcome-cases (Validator.validate_filter (map typed fields) f (some name))) [
        | inl (u, e) ↦ absurd (bad ((validate_filter_iff (map typed fields) f (some name)).0 e))
        | inr failed ↦ failed
      ]

  -- When the schema of a collection is found and does not admit a filter, a query and a count with
  -- that filter end in an error, in the state that the look-up of the schema left: the storage is
  -- not asked.
  pub unqueryable_stops :
      (name : String) (f : AdapterFilter) (sort : List Sort) (skip limit : ℕ)
      (projection : List String) (total : Bool) (w w' : S × C) (fields : List ResponseField)
      → schema_fields_for provider cache name w ≡ (ok fields, w')
      → ¬ Queryable (map typed fields) f
      → ((e : Error) × (find r provider cache storage name f sort skip limit projection total w
            ≡ (err e, w')))
        × ((e : Error) × (count r provider cache storage name f w ≡ (err e, w')))
  unfolding find count validate_filter ◌>>=◌
  unqueryable_stops name f sort skip limit projection total w w' fields found bad =
      let (e, failed) = refused fields f name bad in
      ((e, rw (found, failed) refl), (e, rw (found, failed) refl))

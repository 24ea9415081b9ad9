-- ===== src/Postgres/Provider/Guarded.antt =====
-- System columns are not changed.
use velo_external_db.Base.{String, ◌≡◌, refl, err, Listed, includes_iff}
use velo_external_db.Commons.Errors.{Error, cannot_modify_system_field}
use velo_external_db.Commons.Effects.{◌>>=◌}
use velo_external_db.Commons.Schema.{system_field_names, validate_system_fields}
use velo_external_db.Types.{InputField}
use velo_external_db.Postgres.Provider.{Pool, add_column, change_column_type, remove_column}

abbrev pub refusal : Error
refusal = cannot_modify_system_field "Cannot modify system field"

refused :
    (name : String) → Listed name system_field_names → validate_system_fields name ≡ err refusal
unfolding validate_system_fields
refused name h = rw ((includes_iff system_field_names name).1 h) refl

module _ {S : Type 0} (pool : Pool S) where
  -- Whatever the pool does, adding, changing and removing a column with the name of a system field end
  -- in an error, in the same state: no statement is run.
  pub system_columns_stay :
      (collection_name : String) (column : InputField) (s : S)
      → Listed column.name system_field_names
      → (add_column pool collection_name column s ≡ (err refusal, s))
        × (change_column_type pool collection_name column s ≡ (err refusal, s))
        × (remove_column pool collection_name column.name s ≡ (err refusal, s))
  unfolding add_column change_column_type remove_column ◌>>=◌
  system_columns_stay collection_name column s h =
      let e = refused column.name h in (rw e refl, rw e refl, rw e refl)

-- ===== src/Service/SchemaInformation.antt =====
-- schema_information.ts: the schemas of the collections, read through a cache. The state is that of
-- the database and that of the cache.
pub mod Coherence
use velo_external_db.Base.{String, Option, none, some, List, [], ◌∷◌, ok}
use velo_external_db.Commons.Errors.{collection_does_not_exist, type_error}
use velo_external_db.Commons.Effects.{Exec, pure, throw, ◌>>=◌, ◌>>◌}
use velo_external_db.Types.{ResponseField}
use velo_external_db.Service.Storage.{Table, SchemaProvider, NodeCache}

module _ {S C : Type 0} where
  -- A call of the adapter leaves the cache alone.
  abbrev pub on_store : {A : Type 0} → Exec S A → Exec (S × C) A
  on_store m w = ((m w.0).0, ((m w.0).1, w.1))

  abbrev pub cached : (cache : NodeCache C) → String → Exec (S × C) (Option Table)
  cached cache name w = (ok (cache.get name w.1), w)

  abbrev pub change_cache : (C → C) → Exec (S × C) (Unit {0})
  change_cache f w = (ok tt, (w.0, f w.1))

module _ {S C : Type 0} (provider : SchemaProvider S) (cache : NodeCache C) where
  abbrev keep : String → Option Table → Exec (S × C) (Unit {0})
  keep collection_name none =
      throw (collection_does_not_exist "Collection does not exists" collection_name)
  keep collection_name (some t) = change_cache (cache.set collection_name t)

  unfoldable pub update : String → Exec (S × C) (Unit {0})
  update collection_name = do
    collection ← on_store (provider.describe_collection collection_name)
    keep collection_name collection

  or_update : String → Option Table → Exec (S × C) (Option Table)
  unfolding update
  or_update collection_name none = update collection_name >> cached cache collection_name
  or_update collection_name (some t) = pure (some t)

  -- `none` is `undefined`: the cache may have dropped the entry at once.
  unfoldable pub schema_for : String → Exec (S × C) (Option Table)
  unfolding or_update
  schema_for collection_name = do
    schema ← cached cache collection_name
    or_update collection_name schema

  abbrev fields_of : Option Table → Exec (S × C) (List ResponseField)
  fields_of none = throw (type_error "Cannot read properties of undefined (reading 'fields')")
  fields_of (some t) = pure t.fields

  unfoldable pub schema_fields_for : String → Exec (S × C) (List ResponseField)
  unfolding schema_for
  schema_fields_for collection_name = do schema ← schema_for collection_name; fields_of schema

  unfoldable pub set_all : List Table → C → C
  set_all [] c = c
  set_all (t ∷ ts) c = set_all ts (cache.set t.id t c)

  unfoldable pub clear : Exec (S × C) (Unit {0})
  clear = change_cache cache.flush_all

  unfoldable pub refresh : Exec (S × C) (Unit {0})
  unfolding clear set_all
  refresh = clear >> (on_store provider.list >>= λ schema. change_cache (set_all schema))

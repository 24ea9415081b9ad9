-- ===== src/Service/SchemaAwareData.antt =====
-- service/schema_aware_data.ts: the data service behind the validator and the item transformer. The
-- state is that of the database and that of the cache. `draws` is the number of identifiers and
-- times that were drawn before.
pub mod Guarded
pub mod Projection
use velo_external_db.Base.{
  ℕ, String, Bool, true, false, not, Option, none, some, List, [], ◌∷◌, map, ok, ◌==◌, any, filter,
  includes, if◌then◌else◌,
}
use velo_external_db.Commons.Values.{Item}
use velo_external_db.Commons.Errors.{Error, Result, type_error}
use velo_external_db.Commons.Effects.{Exec, pure, lift, throw, ◌>>=◌, ◌>>◌}
use velo_external_db.Commons.Runtime.{Runtime}
use velo_external_db.Types.{AdapterFilter, Sort, ResponseField}
use velo_external_db.Converters.Validation.{Aggregation, TypedField, typed}
use velo_external_db.Converters.Validation as Validator
use velo_external_db.Converters.Items.{
  patch_items, prepare_items_for_insert, prepare_items_for_update,
}
use velo_external_db.Service.Storage.{Table, SchemaProvider, DataProvider, NodeCache}
use velo_external_db.Service.SchemaInformation.{on_store, schema_fields_for}
use velo_external_db.Service.Data.{Found, ItemAnswer}
use velo_external_db.Service.Data as Data

abbrev pub field_names : List ResponseField → List String
field_names fields = map (λ f. f.field) fields

-- `Array.from(new Set(names))`: the first of each name
unfoldable pub unique : List String → List String
unique [] = []
unique (n ∷ ns) = n ∷ filter (λ m. not (m == n)) (unique ns)

-- an empty projection stands for all fields
abbrev pub or_all : List String → List ResponseField → List String
or_all [] fields = field_names fields
or_all (n ∷ ns) fields = n ∷ ns

-- the projection for the fields of a schema
unfoldable pub projection_on : List String → List ResponseField → List String
unfolding unique
projection_on projection fields =
    if any (λ f. f.field == "_id") fields
    then unique ("_id" ∷ or_all projection fields)
    else or_all projection fields

module _ {S C : Type 0} (r : Runtime) (provider : SchemaProvider S) (cache : NodeCache C)
    (storage : DataProvider S) where
  -- `projectionFor`
  unfoldable pub projection_for : String → List String → Exec (S × C) (List String)
  unfolding projection_on schema_fields_for
  projection_for collection_name projection = do
    fields ← schema_fields_for provider cache collection_name
    pure (projection_on projection fields)

  unfoldable pub validate_filter : String → AdapterFilter → Exec (S × C) (Unit {0})
  unfolding schema_fields_for
  validate_filter collection_name f = do
    fields ← schema_fields_for provider cache collection_name
    lift (Validator.validate_filter (map typed fields) f (some collection_name))

  unfoldable pub validate_get_by_id : String → String → Exec (S × C) (Unit {0})
  unfolding schema_fields_for
  validate_get_by_id collection_name item_id = do
    fields ← schema_fields_for provider cache collection_name
    lift (Validator.validate_get_by_id (map typed fields) item_id)

  unfoldable pub validate_aggregation : String → Aggregation → Exec (S × C) (Unit {0})
  unfolding schema_fields_for
  validate_aggregation collection_name aggregation = do
    fields ← schema_fields_for provider cache collection_name
    lift (Validator.validate_aggregation (map typed fields) aggregation)

  -- the items are patched as the schema says
  abbrev patched : List ResponseField → Found → Found
  patched fields found = record {
    items = patch_items r found.items fields;
    total_count = found.total_count;
  }

  unfoldable pub find :
      String → AdapterFilter → List Sort → ℕ → ℕ → List String → Bool → Exec (S × C) Found
  unfolding projection_for Data.find patch_items schema_fields_for
  find collection_name f sort skip limit asked return_total_count = do
    fields ← schema_fields_for provider cache collection_name
    lift (Validator.validate_filter (map typed fields) f (some collection_name))
    projection ← projection_for collection_name asked
    lift (Validator.validate_projection (map typed fields) projection)
    found ←
        on_store
          (Data.find r storage collection_name f sort skip limit projection return_total_count)
    pure (patched fields found)

  -- `validateProjection` is not awaited here: it looks the schema up again, and what it throws is
  -- lost.
  abbrev looked_up_again : String → Exec (S × C) (Unit {0})
  looked_up_again collection_name w =
      (ok tt, (schema_fields_for provider cache collection_name w).1)

  unfoldable pub count : String → AdapterFilter → Exec (S × C) ℕ
  unfolding validate_filter Data.count
  count collection_name f = do
    validate_filter collection_name f
    on_store (Data.count r storage collection_name f)

  unfoldable pub get_by_id : String → String → List String → Exec (S × C) (Option Item)
  unfolding validate_get_by_id projection_for Data.get_by_id schema_fields_for
  get_by_id collection_name item_id asked = do
    validate_get_by_id collection_name item_id
    projection ← projection_for collection_name asked
    looked_up_again collection_name
    on_store (Data.get_by_id r storage collection_name item_id projection)

  -- what an insert does with the prepared items
  abbrev with_prepared :
      {A : Type 0}
      → (List Item → Option (List ResponseField) → Exec S A)
      → String
      → List Item
      → ℕ
      → Exec (S × C) A
  with_prepared run collection_name items draws = do
    fields ← schema_fields_for provider cache collection_name
    on_store (run (prepare_items_for_insert r items fields draws).0 (some fields))

  unfoldable pub bulk_insert : String → List Item → ℕ → Exec (S × C) (List ItemAnswer)
  unfolding Data.bulk_insert prepare_items_for_insert schema_fields_for
  bulk_insert collection_name items draws =
      with_prepared (Data.bulk_insert r storage collection_name) collection_name items draws

  unfoldable pub bulk_upsert : String → List Item → ℕ → Exec (S × C) (List Item)
  unfolding Data.bulk_upsert prepare_items_for_insert schema_fields_for
  bulk_upsert collection_name items draws =
      with_prepared (Data.bulk_upsert r storage collection_name) collection_name items draws

  -- `prepared[0]`, of a list that was made from one item
  abbrev first_of : Item → List Item → Item
  first_of i [] = i
  first_of i (p ∷ ps) = p

  unfoldable pub insert : String → Item → ℕ → Exec (S × C) (Option ItemAnswer)
  unfolding Data.insert prepare_items_for_insert schema_fields_for
  insert collection_name i draws =
      with_prepared
        (λ prepared fields. Data.insert r storage collection_name (first_of i prepared) fields)
        collection_name (i ∷ []) draws

  -- `prepareItemsForUpdate`
  unfoldable pub prepared_for_update : String → List Item → Exec (S × C) (List Item)
  unfolding prepare_items_for_update schema_fields_for
  prepared_for_update collection_name items = do
    fields ← schema_fields_for provider cache collection_name
    pure (prepare_items_for_update r items fields)

  unfoldable pub update : String → Item → Exec (S × C) (Option ItemAnswer)
  unfolding prepared_for_update Data.update
  update collection_name i = do
    prepared ← prepared_for_update collection_name (i ∷ [])
    on_store (Data.update r storage collection_name (first_of i prepared))

  unfoldable pub bulk_update : String → List Item → Exec (S × C) (List ItemAnswer)
  unfolding prepared_for_update Data.bulk_update
  bulk_update collection_name items = do
    prepared ← prepared_for_update collection_name items
    on_store (Data.bulk_update r storage collection_name prepared)

  unfoldable pub delete : String → String → Exec (S × C) (Option ItemAnswer)
  unfolding projection_for Data.delete
  delete collection_name item_id = do
    projection ← projection_for collection_name []
    on_store (Data.delete r storage collection_name item_id projection)

  unfoldable pub bulk_delete : String → List String → Exec (S × C) (List ItemAnswer)
  unfolding projection_for Data.bulk_delete
  bulk_delete collection_name item_ids = do
    projection ← projection_for collection_name []
    on_store (Data.bulk_delete r storage collection_name item_ids projection)

  unfoldable pub truncate : String → Exec (S × C) (Unit {0})
  unfolding Data.truncate
  truncate collection_name = on_store (Data.truncate r storage collection_name)

  -- An empty aggregation is a plain query of all fields.
  unfoldable pub aggregate :
      String → AdapterFilter → Option Aggregation → List Sort → ℕ → ℕ → Bool → Exec (S × C) Found
  unfolding find validate_aggregation validate_filter Data.aggregate
  aggregate collection_name f none sort skip limit return_total_count =
      find collection_name f sort skip limit [] return_total_count
  aggregate collection_name f (some aggregation) sort skip limit return_total_count = do
    validate_aggregation collection_name aggregation
    validate_filter collection_name f
    on_store
        (Data.aggregate r storage collection_name f aggregation sort skip limit return_total_count)

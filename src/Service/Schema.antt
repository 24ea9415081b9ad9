-- ===== src/Service/Schema.antt =====
-- service/schema.ts: collections as a client sees them. The columns of an update are added, then
-- removed, then changed, each group by `Promise.all`; the cache is refreshed at the end.
pub mod Fresh
pub mod Groups
pub mod Columns
use velo_external_db.Base.{
  String, Bool, true, false, Option, none, some, List, [], ◌∷◌, map, ok, err, ◌>>=◌ as and_then,
  ◌&◌, includes, traverse, if◌then◌else◌, length,
}
use velo_external_db.Commons.Errors.{
  Result, Error, invalid_request, unsupported_schema_operation, other_error, type_error,
}
use velo_external_db.Commons.Schema.{primary_key_field_name}
use velo_external_db.Commons.Effects.{Exec, pure, throw, lift, promise_all, ◌>>=◌, ◌>>◌}
use velo_external_db.Types.{ResponseField, InputField, ColumnCapabilities}
use velo_external_db.Schemas.FieldTypes.{WixType, field_type_to_wix_data_enum}
use velo_external_db.Schemas.Operations.{
  QueryOperator, queries_to_wix_data_query_operators, data_operations_to_wix_data_query_operators,
  paging_mode_to_wix_data_paging_mode,
}
use velo_external_db.Schemas.Columns.{
  WixField, Difference, names_in_request, wix_format_fields_to_input_fields,
  response_field_to_wix_format, compare_columns_in_db_and_request,
}
use velo_external_db.Service.Storage.{CollectionCapabilities, Table, SchemaProvider, NodeCache}
use velo_external_db.Service.SchemaInformation.{on_store, schema_for, refresh}

-- `Collection` of spi-model/collection.ts, as far as a request's is read
pub record Collection : Type 0 where
  pub id : String
  pub fields : List WixField

-- `Field` and `Collection`, as a client is sent them
pub record SpiField : Type 0 where
  pub key : String
  pub type : WixType
  pub sortable : Option Bool
  pub query_operators : Option (List QueryOperator)

pub record SpiCollection : Type 0 where
  pub id : String
  pub fields : List SpiField
  pub data_operations : Option (List String)
  pub paging_mode : String

pub record DeletedCollection : Type 0 where
  pub id : String
  pub fields : List (String × WixType)
  pub paging_mode : String

-- one element of `formatFields`
unfoldable pub format_field : ResponseField → Result SpiField
unfolding field_type_to_wix_data_enum queries_to_wix_data_query_operators
format_field f = and_then (field_type_to_wix_data_enum f.type) λ t. elim f.capabilities [
  | none ↦ ok (record { key = f.field; type = t; sortable = none; query_operators = none })
  | some c ↦ and_then (queries_to_wix_data_query_operators c.column_query_operators) λ ops.
      ok
        (record { key = f.field; type = t; sortable = some c.sortable; query_operators = some ops })
]

unfoldable pub format_collection : Table → Result SpiCollection
unfolding format_field data_operations_to_wix_data_query_operators
    paging_mode_to_wix_data_paging_mode
format_collection t = and_then (traverse format_field t.fields) λ fields. elim t.capabilities [
  | none ↦ err (type_error "Cannot read properties of undefined (reading 'pagingMode')")
  | some c ↦ ok (record {
    id = t.id;
    fields = fields;
    data_operations = some (map data_operations_to_wix_data_query_operators c.data_operations);
    paging_mode = paging_mode_to_wix_data_paging_mode c.paging_mode;
  })
]

unfoldable pub validate_fields : List WixField → Result (Unit {0})
validate_fields fields =
    if includes (names_in_request fields) primary_key_field_name
    then ok tt
    else err (invalid_request "_id field is missing")

module _ {S C : Type 0} (provider : SchemaProvider S) (cache : NodeCache C) where
  -- `validateOperation`
  unfoldable pub validate_operation : String → String → Result (Unit {0})
  validate_operation collection_name operation_name =
      if includes provider.supported_operations operation_name
      then ok tt
      else err (
          unsupported_schema_operation
            ("Your database doesn't support " & operation_name & " operation") collection_name
            operation_name)

  unfoldable pub create : Collection → Exec (S × C) Collection
  unfolding validate_fields wix_format_fields_to_input_fields refresh
  create collection = do
    lift (validate_fields collection.fields)
    columns ← lift (wix_format_fields_to_input_fields collection.fields)
    on_store (provider.create collection.id columns)
    refresh provider cache
    pure collection

  -- `if (columns.length > 0) await this.validateOperation(...)`
  abbrev validate_if_any : {A : Type 0} → String → String → List A → Result (Unit {0})
  validate_if_any collection_name operation_name [] = ok tt
  validate_if_any collection_name operation_name (c ∷ cs) =
      validate_operation collection_name operation_name

  -- the columns that the adapter describes
  abbrev columns_of : Option Table → Result (List ResponseField)
  columns_of none = err (type_error "Cannot destructure property 'fields' of undefined")
  columns_of (some t) = ok t.fields

  -- the three groups of changes
  unfoldable pub add_columns : String → List InputField → Exec (S × C) (Unit {0})
  unfolding validate_operation
  add_columns id columns = do
    lift (validate_if_any id "addColumn" columns)
    done ← promise_all (λ column. on_store (provider.add_column id column)) columns
    pure tt

  unfoldable pub remove_columns : String → List String → Exec (S × C) (Unit {0})
  unfolding validate_operation
  remove_columns id columns = do
    lift (validate_if_any id "removeColumn" columns)
    done ← promise_all (λ column. on_store (provider.remove_column id column)) columns
    pure tt

  unfoldable pub change_columns :
      (String → InputField → Exec S (Unit {0})) → String → List InputField → Exec (S × C) (Unit {0})
  unfolding validate_operation
  change_columns change id columns = do
    lift (validate_if_any id "changeColumnType" columns)
    done ← promise_all (λ column. on_store (change id column)) columns
    pure tt

  -- `update`, where the adapter has `changeColumnType`
  unfoldable pub update_with :
      (String → InputField → Exec S (Unit {0})) → Collection → Exec (S × C) Collection
  unfolding add_columns remove_columns change_columns compare_columns_in_db_and_request refresh
  update_with change collection = do
    described ← on_store (provider.describe_collection collection.id)
    in_db ← lift (columns_of described)
    difference ← lift (compare_columns_in_db_and_request in_db collection.fields)
    add_columns collection.id difference.columns_to_add
    remove_columns collection.id difference.columns_to_remove
    change_columns change collection.id difference.columns_to_change_type
    refresh provider cache
    pure collection

  abbrev update_by :
      Option (String → InputField → Exec S (Unit {0})) → Collection → Exec (S × C) Collection
  update_by none collection =
      throw (other_error "Your storage does not support the new collection capabilities API" none)
  update_by (some change) collection = update_with change collection

  unfoldable pub update : Collection → Exec (S × C) Collection
  unfolding validate_operation update_with
  update collection = do
    lift (validate_operation collection.id "createCollection")
    update_by provider.change_column_type collection

  unfoldable pub delete : String → Exec (S × C) DeletedCollection
  unfolding refresh response_field_to_wix_format
  delete collection_id = do
    described ← on_store (provider.describe_collection collection_id)
    fields ← lift (columns_of described)
    on_store (provider.drop collection_id)
    refresh provider cache
    formatted ← lift (traverse response_field_to_wix_format fields)
    pure (record { id = collection_id; fields = formatted; paging_mode = "OFFSET" })

  -- a schema that the cache has dropped is `undefined`
  abbrev format_known : Option Table → Result SpiCollection
  format_known none = err (type_error "Cannot read properties of undefined (reading 'id')")
  format_known (some t) = format_collection t

  unfoldable pub list : List String → Exec (S × C) (List SpiCollection)
  unfolding format_collection schema_for
  list [] = do collections ← on_store provider.list; lift (traverse format_collection collections)
  list (n ∷ ns) = do
    collections ← promise_all (schema_for provider cache) (n ∷ ns)
    lift (traverse format_known collections)

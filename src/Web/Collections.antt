-- ===== src/Web/Collections.antt =====
-- The handlers of router.ts for collections and for indexes. The hooks of a handler change its request
-- before the service is asked, and the answer of the service after it.
pub mod Fresh
use velo_external_db.Base.{String, List}
use velo_external_db.Commons.Effects.{Exec, ◌>>=◌}
use velo_external_db.Service.Schema.{SpiCollection}
use velo_external_db.Service.Storage.{SchemaProvider, NodeCache}
use velo_external_db.Service.Schema.{Collection, DeletedCollection}
use velo_external_db.Service.Schema as Schema
use velo_external_db.Web.Hooks.{
  HookTable, SchemaAction, before_get, after_get, before_create, after_create, before_update,
  after_update, before_delete, after_delete, execute_schema_hooks_for,
}

module _ {S C : Type 0} (provider : SchemaProvider S) (cache : NodeCache C) where
  -- the hooks before an action, the action, and the hooks after it
  abbrev pub with_schema_hooks :
      {P Q : Type 0}
      → HookTable (S × C) P
      → HookTable (S × C) Q
      → SchemaAction
      → SchemaAction
      → (P → Exec (S × C) Q)
      → P
      → Exec (S × C) Q
  with_schema_hooks before after first last action payload = do
    request ← execute_schema_hooks_for before first payload
    found ← action request
    execute_schema_hooks_for after last found

  -- `/v3/collections/get`
  unfoldable pub get_collections :
      HookTable (S × C) (List String)
      → HookTable (S × C) (List SpiCollection)
      → List String
      → Exec (S × C) (List SpiCollection)
  unfolding execute_schema_hooks_for Schema.list
  get_collections before after collection_ids =
      with_schema_hooks before after SchemaAction.before_get SchemaAction.after_get
        (Schema.list provider cache) collection_ids

  -- `/v3/collections/create`
  unfoldable pub create_collection :
      HookTable (S × C) Collection
      → HookTable (S × C) Collection
      → Collection
      → Exec (S × C) Collection
  unfolding execute_schema_hooks_for Schema.create
  create_collection before after collection =
      with_schema_hooks before after SchemaAction.before_create SchemaAction.after_create
        (Schema.create provider cache) collection

  -- `/v3/collections/update`
  unfoldable pub update_collection :
      HookTable (S × C) Collection
      → HookTable (S × C) Collection
      → Collection
      → Exec (S × C) Collection
  unfolding execute_schema_hooks_for Schema.update
  update_collection before after collection =
      with_schema_hooks before after SchemaAction.before_update SchemaAction.after_update
        (Schema.update provider cache) collection

  -- `/v3/collections/delete`
  unfoldable pub delete_collection :
      HookTable (S × C) String
      → HookTable (S × C) DeletedCollection
      → String
      → Exec (S × C) DeletedCollection
  unfolding execute_schema_hooks_for Schema.delete
  delete_collection before after collection_id =
      with_schema_hooks before after SchemaAction.before_delete SchemaAction.after_delete
        (Schema.delete provider cache) collection_id

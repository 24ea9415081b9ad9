-- ===== src/Tests/Services.antt =====
-- Services, hooks and permissions at concrete inputs.
use velo_external_db.Base.{
  false, String, none, some, [], ◌∷◌, ok, err, ◌≡◌, refl, inl, ◌⊎◌, ◌↔◌, Listed,
}
use velo_external_db.Commons.Errors.{unauthorized, unrecognized}
use velo_external_db.Commons.Effects.{Returns, pure, throw, ◌>>=◌}
use velo_external_db.Schemas.FieldTypes.{WixType}
use velo_external_db.Service.Storage.{Table}
use velo_external_db.Service.SchemaInformation.{refresh, schema_for}
use velo_external_db.Service.SchemaInformation.Coherence.{
  Coherent, FoundIn, refresh-Coherent, schema_for-Coherent,
}
use velo_external_db.Service.Schema.{Collection, create, update, delete}
use velo_external_db.Service.Schema.Fresh.{schema_changes_leave_fresh}
use velo_external_db.Web.Errors.{error_middleware, unknown_error_code, internal, status_of}
use velo_external_db.Service.Schema.{DeletedCollection}
use velo_external_db.Web.Collections.{create_collection, update_collection, delete_collection}
use velo_external_db.Web.Collections.Fresh.{Quiet, collection_requests_leave_fresh}
use velo_external_db.Web.Hooks.{
  SchemaAction, execute_schema_hooks_for, HookTable, before_query, execute_data_hooks_for,
}
use velo_external_db.Web.Hooks.Laws.{HasStatus, hook_errors_are_unknown}
use velo_external_db.Security.Roles.{policies_for, authorize_read, authorize_write}
use velo_external_db.Security.Roles.Access.{unlisted_iff, administrators}
use velo_external_db.Tests.World.{provider, cache, Database, Cache, table_of, describes, column}

abbrev stock : Table
stock = record { id = "stock"; fields = column "_id" "text" ∷ []; capabilities = none }

abbrev stale : Database × Cache
stale = (some stock, ("gone", stock) ∷ [])

refresh-Coherent_example :
    Coherent provider cache table_of (refresh provider cache stale).1
    × ((refresh provider cache stale).1.0 ≡ stale.0)
refresh-Coherent_example = refresh-Coherent provider cache table_of describes stale

abbrev cold : Database × Cache
cold = (some stock, [])

schema_for-Coherent_example :
    Coherent provider cache table_of (schema_for provider cache "stock" cold).1
    × ((schema_for provider cache "stock" cold).1.0 ≡ cold.0)
    × Returns (FoundIn (table_of cold.0 "stock")) (schema_for provider cache "stock" cold).0
schema_for-Coherent_example =
    schema_for-Coherent provider cache table_of describes "stock" cold (λ k t h. cc)

abbrev wanted : Collection
wanted = record {
  id = "stock";
  fields = record { key = "_id"; type = WixType.text; encrypted = false } ∷ [];
}

schema_changes_leave_fresh_example :
    Returns
      (λ _. Coherent provider cache table_of (create provider cache wanted stale).1)
      (create provider cache wanted stale).0
    × Returns
        (λ _. Coherent provider cache table_of (update provider cache wanted stale).1)
        (update provider cache wanted stale).0
    × Returns
        (λ _. Coherent provider cache table_of (delete provider cache "stock" stale).1)
        (delete provider cache "stock" stale).0
schema_changes_leave_fresh_example =
    schema_changes_leave_fresh provider cache table_of describes stale wanted "stock"

abbrev renaming : HookTable (Database × Cache) Collection
renaming = ("beforeAll", λ c. pure (some (record { id = "stock"; fields = c.fields }))) ∷ []

abbrev no_hooks : {P : Type 0} → HookTable (Database × Cache) P
no_hooks = []

after_create-Quiet : Quiet (no_hooks {P = Collection}) SchemaAction.after_create
unfolding execute_schema_hooks_for ◌>>=◌
after_create-Quiet p w = refl

after_update-Quiet : Quiet (no_hooks {P = Collection}) SchemaAction.after_update
unfolding execute_schema_hooks_for ◌>>=◌
after_update-Quiet p w = refl

after_delete-Quiet : Quiet (no_hooks {P = DeletedCollection}) SchemaAction.after_delete
unfolding execute_schema_hooks_for ◌>>=◌
after_delete-Quiet p w = refl

collection_requests_leave_fresh_example :
    Returns
      (λ _.
        Coherent provider cache table_of
          (create_collection provider cache renaming [] wanted stale).1)
      (create_collection provider cache renaming [] wanted stale).0
    × Returns
        (λ _.
          Coherent provider cache table_of
            (update_collection provider cache renaming [] wanted stale).1)
        (update_collection provider cache renaming [] wanted stale).0
    × Returns
        (λ _.
          Coherent provider cache table_of (delete_collection provider cache [] [] "stock" stale).1)
        (delete_collection provider cache [] [] "stock" stale).0
collection_requests_leave_fresh_example =
    collection_requests_leave_fresh provider cache table_of describes renaming [] [] [] stale wanted
      "stock" after_create-Quiet after_update-Quiet after_delete-Quiet

abbrev hooks : HookTable (Unit {0}) String
hooks = ("beforeRead", λ payload. throw (unauthorized "no")) ∷ []

hook-throws :
    (execute_data_hooks_for hooks before_query "payload" tt).0
    ≡ err (unrecognized "Unrecognized Error: no")
unfolding execute_data_hooks_for ◌>>=◌
hook-throws = refl

hook_errors_are_unknown_example :
    (((error_middleware (unrecognized "Unrecognized Error: no")).1 ≡ unknown_error_code)
      × (((error_middleware (unrecognized "Unrecognized Error: no")).0 ≡ internal)
          ⊎ (some (error_middleware (unrecognized "Unrecognized Error: no")).0
              ≡ status_of (unrecognized "Unrecognized Error: no"))))
    ⊎ HasStatus (unrecognized "Unrecognized Error: no")
hook_errors_are_unknown_example =
    hook_errors_are_unknown hooks before_query SchemaAction.before_get "payload" tt
      (unrecognized "Unrecognized Error: no") (inl hook-throws)

unlisted_iff_example :
    ((authorize_read [] "stock" "MEMBER" ≡ ok tt) ↔ Listed "MEMBER" administrators)
    × ((authorize_write [] "stock" "MEMBER" ≡ ok tt) ↔ Listed "MEMBER" administrators)
unlisted_iff_example = unlisted_iff [] "stock" "MEMBER" (unfold policies_for in refl)

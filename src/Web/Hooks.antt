-- ===== src/Web/Hooks.antt =====
-- data_hooks_utils.ts, schema_hooks_utils.ts and the hooks of router.ts. A hook is a function of the
-- payload over the store `S`; a result that is falsy keeps the payload, and is `none` here.
pub mod Laws
use velo_external_db.Base.{
  ℕ, String, Option, none, some, List, [], ◌∷◌, ok, err, ◌==◌, if◌then◌else◌,
}
use velo_external_db.Commons.Errors.{Error, Result, other_error, new_unrecognized}
use velo_external_db.Commons.Effects.{Exec, pure, proceed, ◌>>=◌}
use velo_external_db.Web.Errors.{message_of, status_of}

pub data DataAction : Type 0 where
  before_query after_query before_count after_count before_aggregate after_aggregate : DataAction
  before_insert after_insert before_update after_update before_remove after_remove : DataAction
  before_truncate after_truncate : DataAction

-- `DataHooksForAction`
unfoldable pub data_hooks_for_action : DataAction → List String
data_hooks_for_action before_query = "beforeAll" ∷ "beforeRead" ∷ "beforeQuery" ∷ []
data_hooks_for_action after_query = "afterAll" ∷ "afterRead" ∷ "afterQuery" ∷ []
data_hooks_for_action before_count = "beforeAll" ∷ "beforeRead" ∷ "beforeCount" ∷ []
data_hooks_for_action after_count = "afterAll" ∷ "afterRead" ∷ "afterCount" ∷ []
data_hooks_for_action before_aggregate = "beforeAll" ∷ "beforeRead" ∷ "beforeAggregate" ∷ []
data_hooks_for_action after_aggregate = "afterAll" ∷ "afterRead" ∷ "afterAggregate" ∷ []
data_hooks_for_action before_insert = "beforeAll" ∷ "beforeWrite" ∷ "beforeInsert" ∷ []
data_hooks_for_action after_insert = "afterAll" ∷ "afterWrite" ∷ "afterInsert" ∷ []
data_hooks_for_action before_update = "beforeAll" ∷ "beforeWrite" ∷ "beforeUpdate" ∷ []
data_hooks_for_action after_update = "afterAll" ∷ "afterWrite" ∷ "afterUpdate" ∷ []
data_hooks_for_action before_remove = "beforeAll" ∷ "beforeWrite" ∷ "beforeRemove" ∷ []
data_hooks_for_action after_remove = "afterAll" ∷ "afterWrite" ∷ "afterRemove" ∷ []
data_hooks_for_action before_truncate = "beforeAll" ∷ "beforeWrite" ∷ "beforeTruncate" ∷ []
data_hooks_for_action after_truncate = "afterAll" ∷ "afterWrite" ∷ "afterTruncate" ∷ []

pub data SchemaAction : Type 0 where
  before_get after_get before_create after_create before_update after_update : SchemaAction
  before_delete after_delete : SchemaAction

-- `SchemaHooksForAction`
unfoldable pub schema_hooks_for_action : SchemaAction → List String
schema_hooks_for_action SchemaAction.before_get = "beforeAll" ∷ "beforeRead" ∷ "beforeGet" ∷ []
schema_hooks_for_action SchemaAction.after_get = "afterAll" ∷ "afterRead" ∷ "afterGet" ∷ []
schema_hooks_for_action SchemaAction.before_create =
    "beforeAll" ∷ "beforeWrite" ∷ "beforeCreate" ∷ []
schema_hooks_for_action SchemaAction.after_create = "afterAll" ∷ "afterWrite" ∷ "afterCreate" ∷ []
schema_hooks_for_action SchemaAction.before_update =
    "beforeAll" ∷ "beforeWrite" ∷ "beforeUpdate" ∷ []
schema_hooks_for_action SchemaAction.after_update = "afterAll" ∷ "afterWrite" ∷ "afterUpdate" ∷ []
schema_hooks_for_action SchemaAction.before_delete =
    "beforeAll" ∷ "beforeWrite" ∷ "beforeDelete" ∷ []
schema_hooks_for_action SchemaAction.after_delete = "afterAll" ∷ "afterWrite" ∷ "afterDelete" ∷ []

-- A table of hooks on a payload `P`, by name.
abbrev pub HookTable : Type 0 → Type 0 → Type 0
HookTable S P = List (String × (P → Exec S (Option P)))

-- an error with a (non-zero) status passes, and any other becomes an `UnrecognizedError`
abbrev by_status : Option ℕ → Error → Error
by_status none e = new_unrecognized (message_of e)
by_status (some ℕ.zero) e = new_unrecognized (message_of e)
by_status (some (ℕ.suc n)) e = e

unfoldable pub rethrown : Error → Error
rethrown e = by_status (status_of e) e

abbrev pub after_hook : {P : Type 0} → P → Result (Option P) → Result P
after_hook payload (ok none) = ok payload
after_hook payload (ok (some changed)) = ok changed
after_hook payload (err e) = err (rethrown e)

abbrev pub run_hook : {S P : Type 0} → Option (P → Exec S (Option P)) → P → Exec S P
run_hook none payload s = (ok payload, s)
run_hook (some hook) payload s = (after_hook payload (hook payload s).0, (hook payload s).1)

module _ {S P : Type 0} where
  unfoldable pub find_hook : String → HookTable S P → Option (P → Exec S (Option P))
  find_hook name [] = none
  find_hook name ((k, hook) ∷ hooks) = if k == name then some hook else find_hook name hooks

  -- `executeHook`
  unfoldable pub execute_hook : HookTable S P → String → P → Exec S P
  unfolding find_hook rethrown
  execute_hook hooks action_name payload = run_hook (find_hook action_name hooks) payload

  -- the reduction of `executeDataHooksFor` and `executeSchemaHooksFor`
  unfoldable pub execute_hooks : HookTable S P → List String → P → Exec S P
  unfolding execute_hook
  execute_hooks hooks [] payload = pure payload
  execute_hooks hooks (name ∷ names) payload =
      execute_hook hooks name payload >>= λ p. execute_hooks hooks names p

  unfoldable pub execute_data_hooks_for : HookTable S P → DataAction → P → Exec S P
  unfolding execute_hooks data_hooks_for_action
  execute_data_hooks_for hooks action payload =
      execute_hooks hooks (data_hooks_for_action action) payload

  unfoldable pub execute_schema_hooks_for : HookTable S P → SchemaAction → P → Exec S P
  unfolding execute_hooks schema_hooks_for_action
  execute_schema_hooks_for hooks action payload =
      execute_hooks hooks (schema_hooks_for_action action) payload

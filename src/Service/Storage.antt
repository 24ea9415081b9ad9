-- ===== src/Service/Storage.antt =====
-- What the services ask of an adapter and of the cache (`ISchemaProvider` and `IDataProvider` of
-- velo-external-db-types; `NodeCache` of the package node-cache). `S` is the state of the database
-- and `C` that of the cache.
use velo_external_db.Base.{ℕ, String, Bool, Option, none, some, List, ◌≡◌, ◌⊎◌}
use velo_external_db.Commons.Values.{Item}
use velo_external_db.Commons.Effects.{Exec}
use velo_external_db.Types.{ResponseField, InputField, AdapterFilter, Sort}
use velo_external_db.Schemas.Operations.{DataOperation, PagingMode}
use velo_external_db.Converters.Validation.{Aggregation}

pub record CollectionCapabilities : Type 0 where
  pub data_operations : List DataOperation
  pub paging_mode : PagingMode

pub record Table : Type 0 where
  pub id : String
  pub fields : List ResponseField
  pub capabilities : Option CollectionCapabilities

pub record SchemaProvider (S : Type 0) : Type 0 where
  pub supported_operations : List String
  pub list : Exec S (List Table)
  pub create : String → List InputField → Exec S (Unit {0})
  pub add_column : String → InputField → Exec S (Unit {0})
  pub remove_column : String → String → Exec S (Unit {0})
  -- `none`: the adapter has no such method
  pub change_column_type : Option (String → InputField → Exec S (Unit {0}))
  pub describe_collection : String → Exec S (Option Table)
  pub drop : String → Exec S (Unit {0})

pub record DataProvider (S : Type 0) : Type 0 where
  pub find : String → AdapterFilter → List Sort → ℕ → ℕ → List String → Exec S (List Item)
  pub count : String → AdapterFilter → Exec S ℕ
  pub insert : String → List Item → Option (List ResponseField) → Bool → Exec S ℕ
  pub update : String → List Item → Exec S ℕ
  pub delete : String → List String → Exec S ℕ
  pub truncate : String → Exec S (Unit {0})
  -- `none`: the adapter has no such method
  pub aggregate :
      Option (String → AdapterFilter → Aggregation → List Sort → ℕ → ℕ → Exec S (List Item))

-- The cache: `set` has the time to live of five minutes. What it holds is what was set since it was
-- last flushed, unless it has expired, which may happen at any time.
pub record NodeCache (C : Type 0) : Type 0 where
  pub get : String → C → Option Table
  pub set : String → Table → C → C
  pub flush_all : C → C
  pub get-flush_all : (k : String) (c : C) → get k (flush_all c) ≡ none
  pub get-set :
      (k j : String) (v t : Table) (c : C)
      → get j (set k v c) ≡ some t
      → ((j ≡ k) × (t ≡ v)) ⊎ (get j c ≡ some t)

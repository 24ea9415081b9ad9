-- ===== src/Service/Indexes.antt =====
-- service/indexing.ts and service/operation.ts: indexes between the client and the adapter, and the
-- state of the connection.
pub mod RoundTrip
use velo_external_db.Base.{String, Bool, Option, none, some, List, [], ◌∷◌, map, ok, err}
use velo_external_db.Commons.Values.{Value}
use velo_external_db.Commons.Errors.{Result, type_error}
use velo_external_db.Commons.Effects.{Exec, pure, lift, ◌>>=◌, ◌>>◌}

pub data Order : Type 0 where
  asc desc : Order

-- `DomainIndexStatus`
pub data DomainIndexStatus : Type 0 where
  active building failed : DomainIndexStatus

-- `IndexStatus` of spi-model/indexing.ts
pub data IndexStatus : Type 0 where
  unknown building active dropping dropped failed invalid : IndexStatus

-- `DomainIndex`
pub record DomainIndex : Type 0 where
  pub name : String
  pub columns : List String
  pub is_unique : Bool
  pub case_insensitive : Bool
  pub order : Order
  pub status : Option DomainIndexStatus
  pub error : Option Value

-- why an index has failed
pub record ApplicationError : Type 0 where
  pub code : String
  pub error_message : String
  pub details : Value

-- `IndexField` and `Index` of spi-model/indexing.ts
pub record IndexField : Type 0 where
  pub path : String
  pub order : Order

pub record SpiIndex : Type 0 where
  pub name : String
  pub fields : List IndexField
  pub unique : Bool
  pub case_insensitive : Bool
  pub status : Option IndexStatus
  pub failure : Option ApplicationError

-- `IndexStatus[status]`; of `undefined` it is `undefined`
abbrev pub index_status : Option DomainIndexStatus → Option IndexStatus
index_status none = none
index_status (some DomainIndexStatus.active) = some IndexStatus.active
index_status (some DomainIndexStatus.building) = some IndexStatus.building
index_status (some DomainIndexStatus.failed) = some IndexStatus.failed

abbrev pub index_field : Order → String → IndexField
index_field order column = record { path = column; order = order }

unfoldable pub domain_index_to_spi_index : DomainIndex → SpiIndex
domain_index_to_spi_index index = record {
  name = index.name;
  fields = map (index_field index.order) index.columns;
  unique = index.is_unique;
  case_insensitive = index.case_insensitive;
  status = index_status index.status;
  failure = none;
}

-- `spiIndex.fields[0].order`
abbrev pub first_order : List IndexField → Result Order
first_order [] = err (type_error "Cannot read properties of undefined (reading 'order')")
first_order (f ∷ fs) = ok f.order

abbrev pub with_order : SpiIndex → Order → DomainIndex
with_order index order = record {
  name = index.name;
  columns = map (λ f. f.path) index.fields;
  is_unique = index.unique;
  case_insensitive = index.case_insensitive;
  order = order;
  status = none;
  error = none;
}

abbrev ordered : SpiIndex → Result Order → Result DomainIndex
ordered index (ok order) = ok (with_order index order)
ordered index (err e) = err e

unfoldable pub spi_index_to_domain_index : SpiIndex → Result DomainIndex
spi_index_to_domain_index index = ordered index (first_order index.fields)

-- `IIndexProvider`, over the state of the database
pub record IndexProvider (S : Type 0) : Type 0 where
  pub list : String → Exec S (List DomainIndex)
  pub create : String → DomainIndex → Exec S DomainIndex
  pub remove : String → String → Exec S (Unit {0})

module _ {S : Type 0} (storage : IndexProvider S) where
  unfoldable pub list : String → Exec S (List SpiIndex)
  unfolding domain_index_to_spi_index
  list collection_name = do
    indexes ← storage.list collection_name
    pure (map domain_index_to_spi_index indexes)

  unfoldable pub create : String → SpiIndex → Exec S SpiIndex
  unfolding spi_index_to_domain_index domain_index_to_spi_index
  create collection_name index = do
    domain_index ← lift (spi_index_to_domain_index index)
    created ← storage.create collection_name domain_index
    pure (domain_index_to_spi_index created)

  unfoldable pub remove : String → String → Exec S (Unit {0})
  remove collection_name index_name = storage.remove collection_name index_name

-- What the adapter says of its connection: whether it is valid, and the message of the error.
pub data Connection : Type 0 where
  valid : Connection
  broken : String → Connection

pub data ConnectionStatus : Type 0 where
  status error : String → ConnectionStatus

abbrev status_of : Connection → ConnectionStatus
status_of valid = status "Connected to database successfully"
status_of (broken message) = error message

-- `validateConnection` and `connectionStatus` of the operation service
unfoldable pub connection_status : {S : Type 0} → Exec S Connection → Exec S ConnectionStatus
connection_status validate_connection = do
  connection ← validate_connection
  pure (status_of connection)

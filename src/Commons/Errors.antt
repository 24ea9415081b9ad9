-- ===== src/Commons/Errors.antt =====
-- libs/velo-external-db-commons/src/libs/errors.ts: one constructor for each class, and
-- `other_error` for whatever else is thrown (a TypeError, a plain Error, a driver's error), with
-- its message and its `status`.
use velo_external_db.Base.{ℕ, String, Option, none, some, Outcome, ◌&◌}

pub data Error : Type 0 where
  -- message
  unauthorized cannot_modify_system_field invalid_query invalid_request : String → Error
  db_connection item_not_found unsupported_database unrecognized : String → Error
  index_already_exists index_does_not_exist : String → Error
  -- message and collection
  collection_does_not_exist collection_already_exists : String → String → Error
  -- message, collection, and field, item or operation
  field_already_exists item_already_exists item_does_not_exist : String → String → String → Error
  field_does_not_exist unsupported_schema_operation : String → String → String → Error
  collection_change_not_supported : String → String → String → Error
  other_error : String → Option ℕ → Error
  -- an error of a class above on which a status was set
  with_status : ℕ → Error → Error

abbrev pub Result {ℓ} : Type ℓ → Type ℓ
Result A = Outcome Error A

-- `name ?? ''`
abbrev pub or_empty : Option String → String
or_empty none = ""
or_empty (some s) = s

abbrev pub new_unrecognized : String → Error
new_unrecognized message = unrecognized ("Unrecognized Error: " & message)

-- A TypeError of the engine, with its message.
abbrev pub type_error : String → Error
type_error message = other_error message none

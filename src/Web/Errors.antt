-- ===== src/Web/Errors.antt =====
-- web/domain-to-spi-error-translator.ts and spi-model/errors.ts: what a client is told of an error.
use velo_external_db.Base.{ℕ, String, Option, none, some, List, [], ◌∷◌}
use velo_external_db.Commons.Errors.{
  Error, unauthorized, cannot_modify_system_field, invalid_query, invalid_request, db_connection,
  item_not_found, unsupported_database, unrecognized, index_already_exists, index_does_not_exist,
  collection_does_not_exist, collection_already_exists, field_already_exists, item_already_exists,
  item_does_not_exist, field_does_not_exist, unsupported_schema_operation,
  collection_change_not_supported, other_error, with_status,
}

-- `ErrorCodes`
pub data ErrorCode : Type 0 where
  item_already_exists_code item_not_found_code collection_already_exists_code : ErrorCode
  collection_not_found_code reference_already_exists_code reference_not_found_code : ErrorCode
  validation_error_code collection_change_not_supported_code : ErrorCode
  field_doesnt_exist_code field_already_exists_code unauthorized_code : ErrorCode
  unsupported_operation_code unknown_error_code : ErrorCode

-- `HttpStatusCode`
abbrev pub unauthenticated : ℕ
unauthenticated = 401

abbrev pub invalid_argument : ℕ
invalid_argument = 400

abbrev pub not_found : ℕ
not_found = 404

abbrev pub already_exists : ℕ
already_exists = 409

abbrev pub internal : ℕ
internal = 500

-- A `BaseWixError`: `data` holds names and texts.
pub record WixError : Type 0 where
  pub message : String
  pub http_code : ℕ
  pub error_code : ErrorCode
  pub payload : List (String × String)

abbrev collection_not_found_error : String → String → WixError
collection_not_found_error collection_name message = record {
  message = message;
  http_code = not_found;
  error_code = collection_not_found_code;
  payload = ("collectionId", collection_name) ∷ [];
}

abbrev collection_already_exists_error : String → String → WixError
collection_already_exists_error collection_name message = record {
  message = message;
  http_code = already_exists;
  error_code = collection_already_exists_code;
  payload = ("collectionId", collection_name) ∷ [];
}

abbrev item_not_found_error : String → String → WixError
item_not_found_error item_id message = record {
  message = message;
  http_code = not_found;
  error_code = item_not_found_code;
  payload = ("itemId", item_id) ∷ [];
}

abbrev item_already_exists_error : String → String → WixError
item_already_exists_error item_id message = record {
  message = message;
  http_code = already_exists;
  error_code = item_already_exists_code;
  payload = ("itemId", item_id) ∷ [];
}

-- its `data.errors` has this one entry
abbrev collection_change_not_supported_error : String → String → WixError
collection_change_not_supported_error field_key message = record {
  message = message;
  http_code = invalid_argument;
  error_code = collection_change_not_supported_code;
  payload = ("fieldKey", field_key) ∷ ("message", message) ∷ [];
}

abbrev status_or_internal : Option ℕ → ℕ
status_or_internal none = internal
status_or_internal (some code) = code

abbrev unknown_error : String → Option ℕ → WixError
unknown_error message http_code = record {
  message = message;
  http_code = status_or_internal http_code;
  error_code = unknown_error_code;
  payload = ("description", message) ∷ [];
}

abbrev field_does_not_exist_error : String → String → String → WixError
field_does_not_exist_error collection_name property_name message = record {
  message = message;
  http_code = invalid_argument;
  error_code = field_doesnt_exist_code;
  payload = ("collectionId", collection_name) ∷ ("propertyName", property_name) ∷ [];
}

abbrev unauthorized_error : String → WixError
unauthorized_error message = record {
  message = message;
  http_code = unauthenticated;
  error_code = unauthorized_code;
  payload = ("description", message) ∷ [];
}

abbrev field_already_exists_error : String → String → String → WixError
field_already_exists_error collection_name field_name message = record {
  message = message;
  http_code = already_exists;
  error_code = field_already_exists_code;
  payload = ("collectionId", collection_name) ∷ ("fieldName", field_name) ∷ [];
}

abbrev unsupported_operation_error : String → String → String → WixError
unsupported_operation_error collection_name operation message = record {
  message = message;
  http_code = invalid_argument;
  error_code = unsupported_operation_code;
  payload = ("collectionId", collection_name) ∷ ("operation", operation) ∷ [];
}

-- the message of an error of the domain
abbrev pub message_of : Error → String
message_of (unauthorized m) = m
message_of (cannot_modify_system_field m) = m
message_of (invalid_query m) = m
message_of (invalid_request m) = m
message_of (db_connection m) = m
message_of (item_not_found m) = m
message_of (unsupported_database m) = m
message_of (unrecognized m) = m
message_of (index_already_exists m) = m
message_of (index_does_not_exist m) = m
message_of (collection_does_not_exist m c) = m
message_of (collection_already_exists m c) = m
message_of (field_already_exists m c f) = m
message_of (item_already_exists m c i) = m
message_of (item_does_not_exist m c i) = m
message_of (field_does_not_exist m c f) = m
message_of (unsupported_schema_operation m c o) = m
message_of (collection_change_not_supported m c f) = m
message_of (other_error m status) = m
message_of (with_status n e) = message_of e

abbrev pub status_of : Error → Option ℕ
status_of (other_error m status) = status
status_of (with_status n e) = some n
status_of _ = none

-- the cases on the class of an error, for the status that it has
abbrev spi_error : Error → Option ℕ → WixError
spi_error (item_already_exists m c i) status = item_already_exists_error i m
spi_error (collection_does_not_exist m c) status = collection_not_found_error c m
spi_error (field_already_exists m c f) status = field_already_exists_error c f m
spi_error (field_does_not_exist m c f) status = field_does_not_exist_error c f m
spi_error (unsupported_schema_operation m c o) status = unsupported_operation_error c o m
spi_error (collection_already_exists m c) status = collection_already_exists_error c m
spi_error (item_does_not_exist m c i) status = item_not_found_error i m
spi_error (collection_change_not_supported m c f) status = collection_change_not_supported_error f m
spi_error (unauthorized m) status = unauthorized_error m
spi_error (with_status n e) status = spi_error e status
spi_error e status = unknown_error (message_of e) status

-- `domainToSpiErrorTranslator`
unfoldable pub domain_to_spi_error_translator : Error → WixError
domain_to_spi_error_translator e = spi_error e (status_of e)

-- `domainToSpiErrorObjectTranslator`: code, message and data
unfoldable pub domain_to_spi_error_object_translator :
    Error → ErrorCode × String × List (String × String)
unfolding domain_to_spi_error_translator
domain_to_spi_error_object_translator e =
    let error = domain_to_spi_error_translator e in (error.error_code, error.message, error.payload)

-- `errorMiddleware`: the status of the response, and the code and data that it sends
unfoldable pub error_middleware : Error → ℕ × ErrorCode × List (String × String)
unfolding domain_to_spi_error_translator
error_middleware e =
    let error = domain_to_spi_error_translator e in
    (error.http_code, error.error_code, error.payload)

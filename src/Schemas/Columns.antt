-- ===== src/Schemas/Columns.antt =====
-- schema_utils.ts: columns of a request as the adapters want them, and the difference between a
-- collection's columns and those of a request.
pub mod Names
use velo_external_db.Base.{
  ℕ, String, Bool, false, not, Option, none, some, List, [], ◌∷◌, map, ok, ◌>>=◌, ◌==◌, filter,
  find, includes, traverse, if◌then◌else◌,
}
use velo_external_db.Commons.Errors.{Result}
use velo_external_db.Commons.Schema.{primary_key_field_name, fields_with_precision}
use velo_external_db.Types.{ResponseField, InputField}
use velo_external_db.Schemas.FieldTypes.{
  WixType, field_type_to_wix_data_enum, wix_data_enum_to_field_type, field_type_to_subtype,
}

-- `Field` of spi-model/collection.ts, as far as a request's is read
pub record WixField : Type 0 where
  pub key : String
  pub type : WixType
  pub encrypted : Bool

unfoldable pub field_key_to_precision : String → Option ℕ
field_key_to_precision key = if includes fields_with_precision key then some 255 else none

unfoldable pub encrypted_input_field : String → InputField
encrypted_input_field name = record {
  name = name;
  type = "object";
  subtype = none;
  precision = none;
  is_primary = none;
}

unfoldable pub non_encrypted_input_field : WixField → Result InputField
unfolding field_key_to_precision wix_data_enum_to_field_type field_type_to_subtype
non_encrypted_input_field f = do
  type ← wix_data_enum_to_field_type f.type
  subtype ← field_type_to_subtype f.type
  ok (record {
    name = f.key;
    type = type;
    subtype = some subtype;
    precision = field_key_to_precision f.key;
    is_primary = some (f.key == primary_key_field_name);
  })

unfoldable pub wix_format_field_to_input_fields : WixField → Result InputField
unfolding encrypted_input_field non_encrypted_input_field
wix_format_field_to_input_fields f =
    if f.encrypted then ok (encrypted_input_field f.key) else non_encrypted_input_field f

-- `WixFormatFieldsToInputFields`
unfoldable pub wix_format_fields_to_input_fields : List WixField → Result (List InputField)
unfolding wix_format_field_to_input_fields
wix_format_fields_to_input_fields fields = traverse wix_format_field_to_input_fields fields

-- one element of `responseFieldToWixFormat`: key and type
unfoldable pub response_field_to_wix_format : ResponseField → Result (String × WixType)
unfolding field_type_to_wix_data_enum
response_field_to_wix_format f = do t ← field_type_to_wix_data_enum f.type; ok (f.field, t)

pub record Difference : Type 0 where
  pub columns_to_add : List InputField
  pub columns_to_remove : List String
  pub columns_to_change_type : List InputField

abbrev pub names_in_db : List ResponseField → List String
names_in_db = map (λ f. f.field)

abbrev pub names_in_request : List WixField → List String
names_in_request = map (λ f. f.key)

-- `columnsInRequest.filter(f => fieldInDb && fieldInDb.type !== wixDataEnumToFieldType(f.type))`
unfoldable pub is_changed : List ResponseField → WixField → Result Bool
unfolding wix_data_enum_to_field_type
is_changed in_db f = elim (find (λ c. c.field == f.key) in_db) [
  | none ↦ ok false
  | some c ↦ do t ← wix_data_enum_to_field_type f.type; ok (not (c.type == t))
]

unfoldable pub changed : List ResponseField → List WixField → Result (List WixField)
unfolding is_changed
changed in_db [] = ok []
changed in_db (f ∷ fs) = do
  differs ← is_changed in_db f
  rest ← changed in_db fs
  ok (if differs then f ∷ rest else rest)

unfoldable pub added : List ResponseField → List WixField → List WixField
added in_db in_request = filter (λ f. not (includes (names_in_db in_db) f.key)) in_request

unfoldable pub removed : List ResponseField → List WixField → List String
removed in_db in_request =
    map (λ c. c.field) (filter (λ c. not (includes (names_in_request in_request) c.field)) in_db)

unfoldable pub compare_columns_in_db_and_request :
    List ResponseField → List WixField → Result Difference
unfolding added removed changed wix_format_fields_to_input_fields
compare_columns_in_db_and_request in_db in_request = do
  to_add ← wix_format_fields_to_input_fields (added in_db in_request)
  differing ← changed in_db in_request
  to_change ← wix_format_fields_to_input_fields differing
  ok (record {
    columns_to_add = to_add;
    columns_to_remove = removed in_db in_request;
    columns_to_change_type = to_change;
  })

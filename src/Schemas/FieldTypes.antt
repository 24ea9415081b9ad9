-- ===== src/Schemas/FieldTypes.antt =====
-- schema_utils.ts: the field types of a request (`FieldType` of spi-model/collection.ts) and the
-- texts that the adapters use for them.
pub mod ThereAndBack
use velo_external_db.Base.{
  String, Bool, true, false, ◌≡◌, refl, ok, err, ◌>>=◌, ◌==◌, ◌&◌, if◌then◌else◌,
}
use velo_external_db.Commons.Errors.{Result, Error, other_error}
use velo_external_db.Base.{Option, none, some, List, [], ◌∷◌, includes}

pub data WixType : Type 0 where
  text number date data_time image boolean document url rich_text video : WixType
  any array_string array_document audio time language rich_content media_gallery : WixType
  address page_link reference multi_reference object array : WixType
  timestamp json long_text single_reference : WixType

-- the value of the enumeration
abbrev pub wix_type_name : WixType → String
wix_type_name text = "TEXT"
wix_type_name number = "NUMBER"
wix_type_name date = "DATE"
wix_type_name data_time = "DATETIME"
wix_type_name image = "IMAGE"
wix_type_name boolean = "BOOLEAN"
wix_type_name document = "DOCUMENT"
wix_type_name url = "URL"
wix_type_name rich_text = "RICH_TEXT"
wix_type_name video = "VIDEO"
wix_type_name any = "ANY"
wix_type_name array_string = "ARRAY_STRING"
wix_type_name array_document = "ARRAY_DOCUMENT"
wix_type_name audio = "AUDIO"
wix_type_name time = "TIME"
wix_type_name language = "LANGUAGE"
wix_type_name rich_content = "RICH_CONTENT"
wix_type_name media_gallery = "MEDIA_GALLERY"
wix_type_name address = "ADDRESS"
wix_type_name page_link = "PAGE_LINK"
wix_type_name reference = "REFERENCE"
wix_type_name multi_reference = "MULTI_REFERENCE"
wix_type_name object = "OBJECT"
wix_type_name array = "ARRAY"
wix_type_name timestamp = "TIMESTAMP"
wix_type_name json = "JSON"
wix_type_name long_text = "LONG_TEXT"
wix_type_name single_reference = "SINGLE_REFERENCE"

abbrev plain_error : String → Error
plain_error message = other_error message none

-- `fieldTypeToWixDataEnum`
unfoldable pub field_type_to_wix_data_enum : String → Result WixType
field_type_to_wix_data_enum t =
    if t == "text"
    then ok text
    else if t == "longText"
    then ok text
    else if t == "number"
    then ok number
    else if t == "boolean"
    then ok boolean
    else if t == "object"
    then ok object
    else if t == "datetime"
    then ok data_time
    else if t == "singleReference"
    then ok single_reference
    else if t == "multiReference"
    then ok multi_reference
    else if t == "time"
    then ok time
    else if t == "date"
    then ok date
    else err (plain_error (t & " - Unsupported field type"))

abbrev unsupported : WixType → Result String
unsupported t = err (plain_error ("Unsupported field type: " & wix_type_name t))

-- `wixDataEnumToFieldType`
unfoldable pub wix_data_enum_to_field_type : WixType → Result String
wix_data_enum_to_field_type text = ok "text"
wix_data_enum_to_field_type url = ok "text"
wix_data_enum_to_field_type rich_text = ok "text"
wix_data_enum_to_field_type language = ok "text"
wix_data_enum_to_field_type image = ok "text"
wix_data_enum_to_field_type video = ok "text"
wix_data_enum_to_field_type document = ok "text"
wix_data_enum_to_field_type audio = ok "text"
wix_data_enum_to_field_type number = ok "number"
wix_data_enum_to_field_type time = ok "datetime"
wix_data_enum_to_field_type date = ok "datetime"
wix_data_enum_to_field_type data_time = ok "datetime"
wix_data_enum_to_field_type boolean = ok "boolean"
wix_data_enum_to_field_type any = ok "object"
wix_data_enum_to_field_type array_string = ok "object"
wix_data_enum_to_field_type array_document = ok "object"
wix_data_enum_to_field_type media_gallery = ok "object"
wix_data_enum_to_field_type address = ok "object"
wix_data_enum_to_field_type page_link = ok "object"
wix_data_enum_to_field_type reference = ok "object"
wix_data_enum_to_field_type object = ok "object"
wix_data_enum_to_field_type array = ok "object"
wix_data_enum_to_field_type rich_content = ok "object"
wix_data_enum_to_field_type multi_reference = unsupported multi_reference
wix_data_enum_to_field_type timestamp = unsupported timestamp
wix_data_enum_to_field_type json = unsupported json
wix_data_enum_to_field_type long_text = unsupported long_text
wix_data_enum_to_field_type single_reference = unsupported single_reference

-- `fieldTypeToSubtype`
unfoldable pub field_type_to_subtype : WixType → Result String
field_type_to_subtype text = ok "string"
field_type_to_subtype url = ok "string"
field_type_to_subtype rich_text = ok "string"
field_type_to_subtype language = ok "language"
field_type_to_subtype number = ok "float"
field_type_to_subtype date = ok "date"
field_type_to_subtype data_time = ok "datetime"
field_type_to_subtype time = ok "time"
field_type_to_subtype boolean = ok "boolean"
field_type_to_subtype image = ok "image"
field_type_to_subtype document = ok "document"
field_type_to_subtype video = ok "video"
field_type_to_subtype any = ok "any"
field_type_to_subtype array_string = ok "arrayString"
field_type_to_subtype array_document = ok "arrayDocument"
field_type_to_subtype audio = ok "audio"
field_type_to_subtype rich_content = ok "richContent"
field_type_to_subtype media_gallery = ok "mediaGallery"
field_type_to_subtype address = ok "address"
field_type_to_subtype page_link = ok "pageLink"
field_type_to_subtype reference = ok "reference"
field_type_to_subtype object = ok "object"
field_type_to_subtype array = ok "array"
field_type_to_subtype multi_reference = unsupported multi_reference
field_type_to_subtype timestamp = unsupported timestamp
field_type_to_subtype json = unsupported json
field_type_to_subtype long_text = unsupported long_text
field_type_to_subtype single_reference = unsupported single_reference

-- What becomes of an adapter's type that goes out to a client and comes back.
abbrev pub there_and_back : String → Result String
there_and_back t = do w ← field_type_to_wix_data_enum t; wix_data_enum_to_field_type w

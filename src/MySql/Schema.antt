-- ===== src/MySql/Schema.antt =====
-- sql_schema_translator.ts of the MySQL adapter: the types of columns, between the adapter and the
-- database. A precision is a number, as fieldKeyToPrecision of schema_utils.ts gives it, or
-- missing; the texts that the type of the field admits too are not modelled.
pub mod ReadBack
use velo_external_db.Base.{
  ℕ, zero, suc, String, Option, none, some, List, [], ◌∷◌, ok, err, ◌&◌, lower, before_char,
  decimal,
}
use velo_external_db.Commons.Errors.{Result, other_error}
use velo_external_db.Types.{InputField}
use velo_external_db.Postgres.Schema.{case_of, or_text, type_key}
use velo_external_db.MySql.Operators.{escape_id}

-- the cases of `translateType`
abbrev pub reported_types : List (String × String)
reported_types =
    ("int", "number")
    ∷ ("integer", "number")
    ∷ ("bigint", "number")
    ∷ ("smallint", "number")
    ∷ ("float", "number")
    ∷ ("double", "number")
    ∷ ("decimal", "number")
    ∷ ("year", "number")
    ∷ ("date", "date")
    ∷ ("datetime", "datetime")
    ∷ ("timestamp", "datetime")
    ∷ ("time", "time")
    ∷ ("varchar", "text")
    ∷ ("text", "text")
    ∷ ("mediumtext", "text")
    ∷ ("longtext", "text")
    ∷ ("tinyint", "boolean")
    ∷ ("bit", "boolean")
    ∷ ("boolean", "boolean")
    ∷ ("bool", "boolean")
    ∷ ("json", "object")
    ∷ []

-- `translateType`
unfoldable pub translate_type : String → String
unfolding lower
translate_type db_type = or_text (case_of (before_char b'(' (lower db_type)) reported_types)

-- A type whose text is given, one that is followed by its precision, and one that may have a length.
pub data ColumnType : Type 0 where
  plain scaled : String → ColumnType
  sized : ColumnType

-- the cases of `dbType`
abbrev pub created_types : List (String × ColumnType)
created_types =
    ("number_int", plain "INT")
    ∷ ("number_bigint", plain "BIGINT")
    ∷ ("number_float", scaled "FLOAT")
    ∷ ("number_double", scaled "DOUBLE")
    ∷ ("number_decimal", scaled "DECIMAL")
    ∷ ("datetime_date", plain "DATE")
    ∷ ("datetime_time", plain "TIME")
    ∷ ("datetime_year", plain "YEAR")
    ∷ ("datetime_datetime", plain "DATETIME")
    ∷ ("datetime_timestamp", plain "TIMESTAMP DEFAULT CURRENT_TIMESTAMP")
    ∷ ("text_string", sized)
    ∷ ("text_image", sized)
    ∷ ("text_video", sized)
    ∷ ("text_audio", sized)
    ∷ ("text_document", sized)
    ∷ ("text_small", plain "TEXT")
    ∷ ("text_language", plain "TEXT")
    ∷ ("text_medium", plain "MEDIUMTEXT")
    ∷ ("text_large", plain "LONGTEXT")
    ∷ ("boolean_", plain "BOOLEAN")
    ∷ ("boolean_boolean", plain "BOOLEAN")
    ∷ ("object_", plain "JSON")
    ∷ ("object_object", plain "JSON")
    ∷ ("object_any", plain "JSON")
    ∷ ("object_mediagallery", plain "JSON")
    ∷ ("object_address", plain "JSON")
    ∷ ("object_pagelink", plain "JSON")
    ∷ ("object_reference", plain "JSON")
    ∷ ("object_multireference", plain "JSON")
    ∷ ("object_arraystring", plain "JSON")
    ∷ ("object_arraydocument", plain "JSON")
    ∷ ("object_array", plain "JSON")
    ∷ ("object_richcontent", plain "JSON")
    ∷ []

-- `parsePrecision` of a number or `undefined`: these have no `split`, so its `catch` answers
unfoldable pub parse_precision : Option ℕ → String
parse_precision precision = "(15,2)"

-- `parseLength` of a number
unfoldable pub parse_length : ℕ → String
parse_length zero = "(2048)"
parse_length (suc n) = "(" & decimal (suc n) & ")"

abbrev pub column_text : ColumnType → Option ℕ → String
column_text (plain text) precision = text
column_text (scaled name) precision = name & parse_precision precision
column_text sized none = "TEXT"
column_text sized (some zero) = "TEXT"
column_text sized (some (suc n)) = "VARCHAR" & parse_length (suc n)

abbrev pub created : String → Option ℕ → Option ColumnType → Result String
created key precision none = err (other_error key none)
created key precision (some type) = ok (column_text type precision)

unfoldable pub db_type : String → Option String → Option ℕ → Result String
unfolding lower parse_precision parse_length
db_type type subtype precision =
    let key = type_key type subtype in created key precision (case_of key created_types)

unfoldable pub db_type_for : InputField → Result String
unfolding db_type
db_type_for f = db_type f.type f.subtype f.precision

abbrev with_name : (String → String) → String → Result String → Result String
with_name quote name (ok type) = ok (escape_id quote name & " " & type)
with_name quote name (err e) = err e

unfoldable pub column_to_db_column_sql : (String → String) → InputField → Result String
unfolding db_type_for escape_id
column_to_db_column_sql quote f = with_name quote f.name (db_type_for f)

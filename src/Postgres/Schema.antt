-- ===== src/Postgres/Schema.antt =====
-- sql_schema_translator.ts of the Postgres adapter: the types of columns, between the adapter and
-- the database. A precision is a number, as fieldKeyToPrecision of schema_utils.ts gives it, or
-- missing; the texts that the type of the field admits too are not modelled.
pub mod Types
use velo_external_db.Base.{
  ℕ, zero, suc, String, Option, none, some, List, [], ◌∷◌, ok, err, ◌==◌, ◌&◌, lower, before_char,
  decimal, if◌then◌else◌,
}
use velo_external_db.Commons.Errors.{Result, or_empty, other_error}
use velo_external_db.Types.{InputField}
use velo_external_db.Postgres.Sql.{escape_identifier}

-- the cases of a `switch` on texts, the first that fits
abbrev pub case_of : {A : Type 0} → String → List (String × A) → Option A
case_of key [] = none
case_of key ((k, a) ∷ cases) = if k == key then some a else case_of key cases

-- the cases of `translateType`: what the database calls a type, and what the adapter calls it
abbrev pub reported_types : List (String × String)
reported_types =
    ("int", "number")
    ∷ ("int2", "number")
    ∷ ("int4", "number")
    ∷ ("int8", "number")
    ∷ ("smallint", "number")
    ∷ ("integer", "number")
    ∷ ("bigint", "number")
    ∷ ("serial", "number")
    ∷ ("smallserial", "number")
    ∷ ("bigserial", "number")
    ∷ ("decimal", "number")
    ∷ ("numeric", "number")
    ∷ ("real", "number")
    ∷ ("double precision", "number")
    ∷ ("float4", "number")
    ∷ ("float8", "number")
    ∷ ("oid", "number")
    ∷ ("money", "number")
    ∷ ("date", "date")
    ∷ ("time", "time")
    ∷ ("timestamp", "datetime")
    ∷ ("timez", "datetime")
    ∷ ("timestamptz", "datetime")
    ∷ ("character", "text")
    ∷ ("character varying", "text")
    ∷ ("varchar", "text")
    ∷ ("char", "text")
    ∷ ("text", "text")
    ∷ ("bool", "boolean")
    ∷ ("boolean", "boolean")
    ∷ ("bit", "boolean")
    ∷ ("json", "object")
    ∷ []

abbrev pub or_text : Option String → String
or_text none = "text"
or_text (some type) = type

-- `translateType`
unfoldable pub translate_type : String → String
unfolding lower
translate_type db_type = or_text (case_of (before_char b'(' (lower db_type)) reported_types)

-- A type whose text is given, or one that may have a length.
pub data ColumnType : Type 0 where
  plain : String → ColumnType
  sized : ColumnType

-- the cases of `dbType`
abbrev pub created_types : List (String × ColumnType)
created_types =
    ("number_int", plain "integer")
    ∷ ("number_bigint", plain "bigint")
    ∷ ("number_float", plain "decimal")
    ∷ ("number_double", plain "double precision")
    ∷ ("number_decimal", plain "real")
    ∷ ("datetime_date", plain "date")
    ∷ ("datetime_time", plain "time")
    ∷ ("datetime_timestamp", plain "timestamp")
    ∷ ("datetime_datetime", plain "timestamp")
    ∷ ("text_string", sized)
    ∷ ("text_image", sized)
    ∷ ("text_video", sized)
    ∷ ("text_audio", sized)
    ∷ ("text_document", sized)
    ∷ ("text_small", plain "text")
    ∷ ("text_medium", plain "text")
    ∷ ("text_large", plain "text")
    ∷ ("text_language", plain "text")
    ∷ ("boolean_", plain "boolean")
    ∷ ("boolean_boolean", plain "boolean")
    ∷ ("object_", plain "json")
    ∷ ("object_object", plain "json")
    ∷ ("object_any", plain "json")
    ∷ ("object_mediagallery", plain "json")
    ∷ ("object_address", plain "json")
    ∷ ("object_pagelink", plain "json")
    ∷ ("object_reference", plain "json")
    ∷ ("object_multireference", plain "json")
    ∷ ("object_arraystring", plain "json")
    ∷ ("object_arraydocument", plain "json")
    ∷ ("object_array", plain "json")
    ∷ ("object_richcontent", plain "json")
    ∷ []

-- `parseLength`, of a precision that is a number
unfoldable pub parse_length : ℕ → String
parse_length zero = "(2048)"
parse_length (suc n) = "(" & decimal (suc n) & ")"

abbrev pub column_text : ColumnType → Option ℕ → String
column_text (plain text) precision = text
column_text sized none = "text"
column_text sized (some zero) = "text"
column_text sized (some (suc n)) = "varchar" & parse_length (suc n)

abbrev pub created : String → Option ℕ → Option ColumnType → Result String
created key precision none = err (other_error ("Unknow type " & key) none)
created key precision (some type) = ok (column_text type precision)

abbrev pub type_key : String → Option String → String
type_key type subtype = lower type & "_" & lower (or_empty subtype)

unfoldable pub db_type : String → Option String → Option ℕ → Result String
unfolding lower parse_length
db_type type subtype precision =
    let key = type_key type subtype in created key precision (case_of key created_types)

unfoldable pub db_type_for : InputField → Result String
unfolding db_type
db_type_for f = db_type f.type f.subtype f.precision

abbrev with_name : String → Result String → Result String
with_name name (ok type) = ok (escape_identifier name & " " & type)
with_name name (err e) = err e

unfoldable pub column_to_db_column_sql : InputField → Result String
unfolding db_type_for escape_identifier
column_to_db_column_sql f = with_name f.name (db_type_for f)

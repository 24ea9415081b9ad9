-- ===== src/Commons/Schema.antt =====
-- schema_commons.ts: system fields, and the operators that a field's type allows.
use velo_external_db.Base.{
  String, Option, none, some, List, [], ◌∷◌, ok, err, ◌==◌, includes, if◌then◌else◌,
}
use velo_external_db.Commons.Errors.{Result, cannot_modify_system_field}

abbrev pub primary_key_field_name : String
primary_key_field_name = "_id"

-- The names of `SystemFields`.
abbrev pub system_field_names : List String
system_field_names = primary_key_field_name ∷ "_createdDate" ∷ "_updatedDate" ∷ "_owner" ∷ []

abbrev pub fields_with_precision : List String
fields_with_precision = "_id" ∷ "_owner" ∷ []

abbrev text_operators : List String
text_operators =
    "eq" ∷ "ne" ∷ "contains" ∷ "startsWith" ∷ "endsWith" ∷ "hasSome" ∷ "matches" ∷ "gt" ∷ "gte"
    ∷ "lt" ∷ "lte" ∷ []

-- `QueryOperatorsByFieldType[type]`; `none` is `undefined`.
unfoldable pub query_operators_by_field_type : String → Option (List String)
query_operators_by_field_type type =
    if type == "number"
    then some ("eq" ∷ "ne" ∷ "gt" ∷ "gte" ∷ "lt" ∷ "lte" ∷ "hasSome" ∷ [])
    else if type == "text"
    then some text_operators
    else if type == "boolean"
    then some ("eq" ∷ [])
    else if type == "url"
    then some ("eq" ∷ "ne" ∷ "contains" ∷ "hasSome" ∷ [])
    else if type == "datetime"
    then some ("eq" ∷ "ne" ∷ "gt" ∷ "gte" ∷ "lt" ∷ "lte" ∷ [])
    else if type == "image"
    then some []
    else if type == "object"
    then some text_operators
    else none

unfoldable pub validate_system_fields : String → Result (Unit {0})
validate_system_fields column_name =
    if includes system_field_names column_name
    then err (cannot_modify_system_field "Cannot modify system field")
    else ok tt

-- ===== src/Converters/Validation.antt =====
-- query_validator.ts and query_validator_utils.ts: which filters, projections and aggregations a
-- schema admits.
pub mod Unnamed
pub mod Sound
use velo_external_db.Base.{
  ℕ, String, Bool, true, false, not, ◌||◌, ◌&&◌, Option, none, some, List, [], ◌∷◌, ◌++◌, map, ok,
  err, ◌>>=◌, ◌>>◌, ◌==◌, ◌&◌, all, any, filter, find, flat_map, includes, join, codes, eqb, leb,
  before_char, traverse, if◌then◌else◌,
}
use velo_external_db.Commons.Values.{
  Value, bool, num, frac, undefined, null, arr, obj, str, Items, nil, cons, Fields, end, field,
  entries, get, is_truthy,
}
use velo_external_db.Commons.Errors.{
  Error, Result, invalid_query, field_does_not_exist, or_empty, type_error,
}
use velo_external_db.Commons.Operators.{
  AdapterOperator, operator_name, has_operator, eq, gt, gte, include, lt, lte, ne, string_begins,
  string_ends, string_contains, and, or, not as op_not, urlized, matches,
}
use velo_external_db.Commons.Text.{int_text}
use velo_external_db.Commons.Schema.{query_operators_by_field_type}
use velo_external_db.Types.{
  AdapterFilter, empty, single, multi, Filters, done, also, AdapterFunction, ResponseField,
}
use velo_external_db.Converters.Filter.{wix_operator_to_adapter_operator}

-- A field as the validator reads it: its type is `undefined` where an alias names no field.
pub record TypedField : Type 0 where
  pub field : String
  pub type : Option String

abbrev pub typed : ResponseField → TypedField
typed f = record { field = f.field; type = some f.type }

-- An operator as the validator reads it: one of the adapter's, or any other value.
pub data ReadOperator : Type 0 where
  known : AdapterOperator → ReadOperator
  other : Value → ReadOperator

pub record FieldOperator : Type 0 where
  pub name : String
  pub operator : ReadOperator

-- the operators of the adapter, by name
abbrev adapter_operators : List AdapterOperator
adapter_operators =
    eq ∷ gt ∷ gte ∷ include ∷ lt ∷ lte ∷ ne ∷ string_begins ∷ string_ends ∷ string_contains ∷ and
    ∷ or ∷ op_not ∷ urlized ∷ matches ∷ []

abbrev named_operator : String → List AdapterOperator → ReadOperator
named_operator s [] = other (str s)
named_operator s (op ∷ ops) =
    let rest = named_operator s ops in if operator_name op == s then known op else rest

abbrev pub read_operator : Value → ReadOperator
read_operator (str s) = named_operator s adapter_operators
read_operator v = other v

-- `ops.includes(operator)`
abbrev pub admits : List AdapterOperator → ReadOperator → Bool
admits ops (known op) = has_operator ops op
admits ops (other v) = false

-- an operator in a message; the text of an array or a date, whose elements and locale it takes, is
-- left out
abbrev operator_text : ReadOperator → String
operator_text (known op) = operator_name op
operator_text (other (str s)) = s
operator_text (other undefined) = "undefined"
operator_text (other null) = "null"
operator_text (other (bool true)) = "true"
operator_text (other (bool false)) = "false"
operator_text (other (num n)) = int_text n
operator_text (other (frac t)) = t
operator_text (other (obj fs)) = "[object Object]"
operator_text (other v) = ""

-- One entry of an aggregation's projection.
pub record Projection : Type 0 where
  pub name : String
  pub alias : Option String
  pub function : Option AdapterFunction

pub record Aggregation : Type 0 where
  pub projection : List Projection
  pub post_filter : AdapterFilter

-- `queryAdapterOperatorsFor`; a type that the table lacks is a TypeError.
unfoldable pub query_adapter_operators_for : Option String → Result (List AdapterOperator)
unfolding query_operators_by_field_type wix_operator_to_adapter_operator
query_adapter_operators_for none =
    err (type_error "Cannot read properties of undefined (reading 'map')")
query_adapter_operators_for (some type) = elim (query_operators_by_field_type type) [
  | none ↦ err (type_error "Cannot read properties of undefined (reading 'map')")
  | some ops ↦ traverse (λ op. wix_operator_to_adapter_operator ("$" & op)) ops
]

-- the first part of a path, of a name that is a text
abbrev pub first_part : Value → Result String
first_part (str s) = ok (before_char b'.' s)
first_part v = err (type_error "filter.fieldName.split is not a function")

abbrev pub named_element : Value → Value → Result (List FieldOperator)
named_element field_name op = do
  name ← first_part field_name
  ok (record { name = name; operator = read_operator op } ∷ [])

-- `extractFieldsAndOperators` of what a filter on the field "" has for its value: it is read as the
-- list of filters that a logical operator has, whatever its elements are.
unfoldable mutual
  unfolding get is_truthy

  -- `filter.value.map(...).flat()`
  pub extract_value : Value → Result (List FieldOperator)
  extract_value (arr vs) = extract_elements vs
  extract_value undefined = err (type_error "Cannot read properties of undefined (reading 'map')")
  extract_value null = err (type_error "Cannot read properties of null (reading 'map')")
  extract_value v = err (type_error "filter.value.map is not a function")

  pub extract_elements : Items → Result (List FieldOperator)
  extract_elements nil = ok []
  extract_elements (cons v vs) = do
    here ← extract_element v
    rest ← extract_elements vs
    ok (here ++ rest)

  pub extract_element : Value → Result (List FieldOperator)
  extract_element undefined =
      err (type_error "Cannot read properties of undefined (reading 'fieldName')")
  extract_element null = err (type_error "Cannot read properties of null (reading 'fieldName')")
  extract_element (obj fs) =
      let below = extract_member fs in
      let field_name = get "fieldName" (entries fs) in
      if is_truthy field_name then named_element field_name (get "operator" (entries fs)) else below
  extract_element v = err (type_error "Cannot read properties of undefined (reading 'map')")

  -- the first entry `value` of an object
  pub extract_member : Fields → Result (List FieldOperator)
  extract_member end = err (type_error "Cannot read properties of undefined (reading 'map')")
  extract_member (field k v fs) =
      let here = extract_value v in
      let below = extract_member fs in if k == "value" then here else below

-- `extractFieldsAndOperators`
unfoldable mutual
  unfolding extract_value

  pub extract_fields_and_operators : AdapterFilter → Result (List FieldOperator)
  extract_fields_and_operators empty = ok []
  extract_fields_and_operators (single op field_name v) =
      if field_name == ""
      then extract_value v
      else ok (record { name = before_char b'.' field_name; operator = known op } ∷ [])
  extract_fields_and_operators (multi op fs) = extract_each fs

  pub extract_each : Filters → Result (List FieldOperator)
  extract_each done = ok []
  extract_each (also f fs) = do
    here ← extract_fields_and_operators f
    rest ← extract_each fs
    ok (here ++ rest)

-- the characters that `\s` matches
is_space : ℕ → Bool
is_space c =
    leb 9 c && leb c 13
    || any (eqb c) (32 ∷ 160 ∷ 0x1680 ∷ 0x2028 ∷ 0x2029 ∷ 0x202f ∷ 0x205f ∷ 0x3000 ∷ 0xfeff ∷ [])
    || leb 0x2000 c && leb c 0x200a

unfoldable pub is_blank : String → Bool
unfolding is_space
is_blank s = all is_space (codes s)

-- The names of `query_fields` that are not in `all_fields`.
unfoldable pub non_existent : List String → List String → List String
non_existent all_fields query_fields = filter (λ f. not (includes all_fields f)) query_fields

abbrev pub exist_or_throw : List String → Option String → Result (Unit {0})
exist_or_throw [] collection_name = ok tt
exist_or_throw (f ∷ fs) collection_name = err (
    field_does_not_exist ("fields [" & join ", " (f ∷ fs) & "] don't exist")
      (or_empty collection_name) f)

unfoldable pub validate_fields_exists :
    List String → List String → Option String → Result (Unit {0})
unfolding non_existent
validate_fields_exists all_fields query_fields collection_name =
    exist_or_throw (non_existent all_fields query_fields) collection_name

-- `fieldTypeFor`: the type of the first field of that name
unfoldable pub field_type_for : String → List TypedField → Result (Option String)
field_type_for name fields = elim (find (λ f. f.field == name) fields) [
  | none ↦ err (type_error "Cannot read properties of undefined (reading 'type')")
  | some f ↦ ok f.type
]

-- how a template literal prints a type
abbrev type_text : Option String → String
type_text none = "undefined"
type_text (some t) = t

unfoldable pub validate_operator : List TypedField → FieldOperator → Result (Unit {0})
unfolding field_type_for query_adapter_operators_for
validate_operator fields f = do
  type ← field_type_for f.name fields
  ops ← query_adapter_operators_for type
  if admits ops f.operator
      then ok tt
      else err (
          invalid_query (
            "data type " & type_text type & " doesn't allow operator: " & operator_text f.operator))

unfoldable pub validate_operators : List TypedField → List FieldOperator → Result (Unit {0})
validate_operators fields [] = ok tt
validate_operators fields (f ∷ fs) = do validate_operator fields f; validate_operators fields fs

abbrev pub field_names : List TypedField → List String
field_names fields = map (λ f. f.field) fields

unfoldable pub validate_filter : List TypedField → AdapterFilter → Option String → Result (Unit {0})
unfolding extract_fields_and_operators validate_fields_exists validate_operators
validate_filter fields f collection_name = do
  los ← extract_fields_and_operators f
  validate_fields_exists (field_names fields) (map (λ lo. lo.name) los) collection_name
  validate_operators fields los

unfoldable pub validate_get_by_id : List TypedField → String → Result (Unit {0})
unfolding is_blank validate_fields_exists
validate_get_by_id fields item_id =
    if is_blank item_id
    then err (invalid_query "A value must be provided for itemId")
    else validate_fields_exists (field_names fields) ("_id" ∷ []) none

unfoldable pub validate_projection : List TypedField → List String → Result (Unit {0})
unfolding validate_fields_exists
validate_projection fields projection = validate_fields_exists (field_names fields) projection none

-- `fields.find(f => f.field === name)?.type`
abbrev type_of_field : List TypedField → String → Option String
type_of_field fields name = elim (find (λ f. f.field == name) fields) [
  | none ↦ none
  | some f ↦ f.type
]

-- The field that an entry of the projection adds: a non-empty alias of anything but `*`.
abbrev pub alias_field : List TypedField → Projection → List TypedField
alias_field fields p = elim p.alias [
  | none ↦ []
  | some alias ↦
      if p.name == "*" || alias == ""
      then []
      else record { field = alias; type = type_of_field fields p.name } ∷ []
]

unfoldable pub fields_with_aliases : List TypedField → List Projection → List TypedField
fields_with_aliases fields projection = fields ++ flat_map (alias_field fields) projection

abbrev pub names_of_projection : Projection → List String
names_of_projection p =
    if p.name == "*"
    then []
    else elim p.alias [ none ↦ p.name ∷ [] | some alias ↦ p.name ∷ alias ∷ [] ]

unfoldable pub projection_fields : List Projection → List String
projection_fields projection = flat_map names_of_projection projection

unfoldable pub validate_aggregation : List TypedField → Aggregation → Result (Unit {0})
unfolding fields_with_aliases projection_fields validate_filter validate_fields_exists
validate_aggregation fields aggregation = do
  let all_fields = fields_with_aliases fields aggregation.projection
  validate_filter all_fields aggregation.post_filter none
  validate_fields_exists (field_names all_fields) (projection_fields aggregation.projection) none

-- ===== src/Tests/PostgresSchema.antt =====
-- Column types and the schema provider of the Postgres adapter at concrete inputs.
use text.Mathlib.TextLemmas.{cons-append}
use velo_external_db.Commons.Tables.{Row}
use velo_external_db.Commons.Tables.Grouping.{of_table}
use velo_external_db.Service.Storage.{Table}
use velo_external_db.Postgres.Provider.Listing.{ids, fields_of, list_lem}
use velo_external_db.Base.{
  map, filter, Distinct, List, ◌∷◌, [], Bool, eq_iff, decimal, before_char, if◌then◌else◌, ℕ, zero,
  suc, String, ◌≡◌, refl, Option, none, some, [], ok, err, inl, inr, lower, ◌==◌, ◌&◌,
}
use velo_external_db.Types.{InputField}
use velo_external_db.Postgres.Schema.{translate_type, case_of, parse_length, db_type}
use velo_external_db.Postgres.Schema.Types.{
  before_char-append, case_of-all, names_of_types, Calls, created_type_reported,
}
use velo_external_db.Postgres.Provider.{
  list, append_additional_row_details, Pool, extract_duplicated_item, add_column,
  change_column_type, remove_column,
}
use velo_external_db.Postgres.Provider.Guarded.{refusal, system_columns_stay}

abbrev or_varchar : Option String → String
or_varchar none = "varchar"
or_varchar (some name) = name

-- a type with a length is called without it
abbrev udt : String → String
udt text =
    if before_char b'(' text == "varchar"
    then "varchar"
    else or_varchar (case_of text names_of_types)

before_char-sized : (t : String) → before_char b'(' ("varchar" & "(" & t) ≡ "varchar"
before_char-sized t = before_char-append b'(' "varchar" ("(" & t) refl (rw cons-append refl)

udt-sized : (n : ℕ) → udt ("varchar" & parse_length n) ≡ "varchar"
unfolding parse_length
udt-sized zero = refl
udt-sized (suc n) = rw (before_char-sized (decimal (suc n) & ")")) refl

abbrev listed : String × String → Bool
listed (text, name) = udt text == name

udt-named : (text name : String) → case_of text names_of_types ≡ some name → udt text ≡ name
udt-named text name e =
    (eq_iff (udt text) name).0 (case_of-all listed names_of_types text name refl e)

udt-Calls : Calls udt
udt-Calls = (udt-named, udt-sized)

sized_type : db_type "Text" (some "string") (some 40) ≡ ok "varchar(40)"
unfolding db_type decimal
sized_type = refl

created_type_reported_example : translate_type (udt "varchar(40)") ≡ lower "Text"
unfolding lower
created_type_reported_example =
    created_type_reported udt "Text" (some "string") (some 40) "varchar(40)" udt-Calls refl refl
      sized_type

duplicated_item : extract_duplicated_item (some "Key (_id)=(a) b) already exists.") ≡ "a) b"
unfolding extract_duplicated_item
duplicated_item = refl

-- a pool that counts the statements
abbrev counting : Pool ℕ
counting = record { query = λ sql parameters n. (ok [], suc n) }

abbrev owner : InputField
owner = record {
  name = "_owner";
  type = "text";
  subtype = none;
  precision = none;
  is_primary = none;
}

system_columns_stay_example :
    (add_column counting "stock" owner 0 ≡ (err refusal, 0))
    × (change_column_type counting "stock" owner 0 ≡ (err refusal, 0))
    × (remove_column counting "stock" "_owner" 0 ≡ (err refusal, 0))
system_columns_stay_example =
    system_columns_stay counting "stock" owner 0 (inr (inr (inr (inl refl))))

abbrev rows : List Row
rows =
    record { table_name = "a"; field = "_id"; type = "varchar" }
    ∷ record { table_name = "b"; field = "age"; type = "int4" }
    ∷ record { table_name = "a"; field = "at"; type = "date" }
    ∷ []

abbrev catalogue : Pool ℕ
catalogue = record { query = λ sql parameters n. (ok rows, suc n) }

list_lem_example :
    (tables : List Table) × (list catalogue 0 ≡ (ok tables, 1))
    × Distinct (ids tables)
    × ((k : String)
        → fields_of k tables ≡ map append_additional_row_details (filter (of_table k) rows))
list_lem_example = list_lem catalogue 0 1 rows refl

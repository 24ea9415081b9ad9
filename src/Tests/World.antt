-- ===== src/Tests/World.antt =====
-- A calendar, a runtime, a cache and a database of one collection, for the examples.
use velo_external_db.Base.{
  ℕ, String, false, Option, none, some, List, [], ◌∷◌, ◌++◌, map, ok, err, ◌≡◌, refl, ◌⊎◌, inl, inr,
  ◌==◌, eq_iff, eq_refl, filter, not, Bool-cases, decimal, if◌then◌else◌,
}
use velo_external_db.Commons.Values.{ℤ, pos, Value, num, date, str, Item}
use velo_external_db.Commons.Dates.{Calendar}
use velo_external_db.Commons.Runtime.{Runtime}
use velo_external_db.Commons.Errors.{Result, other_error}
use velo_external_db.Commons.Effects.{Exec}
use velo_external_db.Types.{ResponseField, InputField}
use velo_external_db.Service.Storage.{Table, SchemaProvider, DataProvider, NodeCache}
use velo_external_db.Service.SchemaInformation.Coherence.{Describes}

abbrev time_of : Value → Option ℤ
time_of (num n) = some n
time_of (date t) = t
time_of (str s) = some (pos 0)
time_of v = none

abbrev pub epoch : Calendar
epoch = record { of_value = time_of; to_iso = λ t. "1970-01-01T00:00:00.000Z" }

abbrev pub runtime : Runtime
runtime = record {
  calendar = epoch;
  uuid = decimal;
  now = pos;
  json_parse = some;
  json_stringify = λ v. "{}";
  sha1_base64 = λ s. s;
  date_text = λ t. "Thu Jan 01 1970";
}

abbrev pub column : String → String → ResponseField
column name type = record {
  field = name;
  type = type;
  subtype = none;
  precision = none;
  is_primary = false;
  capabilities = none;
}

abbrev pub Cache : Type 0
Cache = List (String × Table)

abbrev cached_table : String → Cache → Option Table
cached_table k [] = none
cached_table k ((j, t) ∷ c) = if j == k then some t else cached_table k c

pub cached_table-set :
    (k j : String) (v t : Table) (c : Cache)
    → cached_table j ((k, v) ∷ c) ≡ some t
    → ((j ≡ k) × (t ≡ v)) ⊎ (cached_table j c ≡ some t)
cached_table-set k j v t c h = elim (Bool-cases (k == j)) [
  | inl e ↦
      let same : k ≡ j = (eq_iff k j).0 e in let it : some v ≡ some t = rw e at h in inl (cc, cc)
  | inr e ↦ inr (rw e at h)
]

abbrev pub cache : NodeCache Cache
cache = record {
  get = cached_table;
  set = λ k t c. (k, t) ∷ c;
  flush_all = λ c. [];
  get-flush_all = λ k c. refl;
  get-set = cached_table-set;
}

abbrev pub Database : Type 0
Database = Option Table

abbrev pub table_of : Database → String → Option Table
table_of none name = none
table_of (some t) name = if t.id == name then some t else none

abbrev tables : Database → List Table
tables none = []
tables (some t) = t ∷ []

abbrev pub created : InputField → ResponseField
created f = column f.name f.type

-- a change of the columns of a collection
abbrev pub change_fields :
    (List ResponseField → List ResponseField) → String → Exec Database (Unit {0})
change_fields f name none = (err (other_error "no collection" none), none)
change_fields f name (some t) =
    if t.id == name
    then (ok tt, some (record { id = t.id; fields = f t.fields; capabilities = t.capabilities }))
    else (err (other_error "no collection" none), some t)

abbrev pub without : String → List ResponseField → List ResponseField
without c fs = filter (λ g. not (g.field == c)) fs

abbrev pub retyped : InputField → List ResponseField → List ResponseField
retyped f fs = map (λ g. if g.field == f.name then created f else g) fs

abbrev pub provider : SchemaProvider Database
provider = record {
  supported_operations =
      "createCollection" ∷ "addColumn" ∷ "removeColumn" ∷ "changeColumnType" ∷ [];
  list = λ s. (ok (tables s), s);
  create = λ name columns s.
      (ok tt, some (record { id = name; fields = map created columns; capabilities = none }));
  add_column = λ name f. change_fields (λ fs. fs ++ created f ∷ []) name;
  remove_column = λ name c. change_fields (without c) name;
  change_column_type = some (λ name f. change_fields (retyped f) name);
  describe_collection = λ name s. (ok (table_of s name), s);
  drop = λ name s. (ok tt, none);
}

pub describes : Describes provider table_of
describes = record {
  describe = λ name s. inl refl;
  list_all = elim [
    | none ↦ inl ([], refl, tt)
    | some t ↦ inl (t ∷ [], refl, (rw (eq_refl t.id), tt))
  ];
}

abbrev pub known : Item
known = ("_id", str "1") ∷ ("age", num (pos 4)) ∷ []

-- A storage that has one item, and takes every item but one without entries.
abbrev taken : List Item → Database → Result ℕ × Database
taken ([] ∷ is) s = (err (other_error "no entries" none), s)
taken is s = (ok 1, s)

abbrev pub storage : DataProvider Database
storage = record {
  find = λ name f sort skip limit projection s. (ok (known ∷ []), s);
  count = λ name f s. (ok 1, s);
  insert = λ name is fields upsert. taken is;
  update = λ name is. taken is;
  delete = λ name ids s. (ok 1, s);
  truncate = λ name s. (ok tt, s);
  aggregate = none;
}

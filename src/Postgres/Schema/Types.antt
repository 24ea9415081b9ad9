-- ===== src/Postgres/Schema/Types.antt =====
-- The type that is reported of a column that was created.
use Prim.Native.Char.{code}
use text.Mathlib.TextLemmas.{cons-append, nil-append}
use velo_external_db.Base.{
  eqb, ℕ, zero, suc, String, ◌≡◌, refl, sym, ap, ◌∙◌, subst, inl, inr, Bool, true, false, ◌||◌,
  ◌&&◌, Option, none, some, List, [], ◌∷◌, ok, ◌==◌, ◌&◌, lower, before_char, has_char, all,
  Bool-cases, Option-cases, eq_iff, ok-injective,
}
use velo_external_db.Commons.Errors.{or_empty}
use velo_external_db.Postgres.Schema.{
  translate_type, ColumnType, plain, sized, created_types, case_of, column_text, type_key, db_type,
  parse_length,
}

-- What Postgres calls the types under which columns are created (`udt_name`).
abbrev pub names_of_types : List (String × String)
names_of_types =
    ("integer", "int4")
    ∷ ("bigint", "int8")
    ∷ ("decimal", "numeric")
    ∷ ("double precision", "float8")
    ∷ ("real", "float4")
    ∷ ("timestamp", "timestamp")
    ∷ ("text", "text")
    ∷ ("boolean", "bool")
    ∷ ("json", "json")
    ∷ []

-- A database that calls them so, and a text of limited length `varchar`.
abbrev pub Calls : (String → String) → Type 0
Calls udt =
    ((text name : String) → case_of text names_of_types ≡ some name → udt text ≡ name)
    × ((n : ℕ) → udt ("varchar" & parse_length n) ≡ "varchar")

abbrev pub without_zone : String → Bool
without_zone key = key == "datetime_date" || key == "datetime_time"

abbrev called : Option String → String → Bool
called none type = false
called (some name) type = translate_type name == type

-- the name of a created type is reported as the first part of its key
abbrev fits : String × ColumnType → Bool
fits (key, plain text) =
    without_zone key || called (case_of text names_of_types) (before_char b'_' key)
fits (key, sized) =
    called (some "text") (before_char b'_' key) && called (some "varchar") (before_char b'_' key)

all_types_fit : all fits created_types ≡ true
unfolding translate_type lower
all_types_fit = refl

and_true : (a b : Bool) → (a && b) ≡ true → (a ≡ true) × (b ≡ true)
and_true true b h = (refl, h)
and_true false b h = cc

-- A case that is found satisfies what all cases do.
pub case_of-all :
    {A : Type 0} (p : String × A → Bool) (cases : List (String × A)) (key : String) (a : A)
    → all p cases ≡ true
    → case_of key cases ≡ some a
    → p (key, a) ≡ true
case_of-all p [] key a h e = cc
case_of-all {A} p ((k, b) ∷ cases) key a h e =
    let (here, rest) = and_true (p (k, b)) (all p cases) h in
    elim (Bool-cases (k == key)) [
      | inl found ↦
          let first : some b ≡ some a = rw found at e in
          let same : b ≡ a = cc in
          let named : k ≡ key = (eq_iff k key).0 found in
          subst (λ x. p (x, a) ≡ true) named (subst (λ x. p (k, x) ≡ true) same here)
      | inr other ↦ case_of-all p cases key a rest (rw other at e)
    ]

called-eq :
    (name : Option String) (type : String)
    → called name type ≡ true
    → (n : String) × (name ≡ some n) × (translate_type n ≡ type)
called-eq none type h = cc
called-eq (some n) type h = (n, refl, (eq_iff (translate_type n) type).0 h)

-- A text that goes on with the character that it ends at.
pub before_char-append :
    (b : ℕ) (s rest : String)
    → has_char b s ≡ false
    → before_char b rest ≡ ""
    → before_char b (s & rest) ≡ s
before_char-append b String.[] rest h e = rw nil-append e
before_char-append b (String.◌∷◌ c s) rest h e = elim (Bool-cases (eqb (code c) b)) [
  | inl same ↦ let bad : true ≡ false = rw same at h in cc
  | inr other ↦
      let later : has_char b s ≡ false = rw other at h in
      rw cons-append (rw other (ap (String.◌∷◌ c) (before_char-append b s rest later e)))
]

pub before_char-underscore : (t : String) → before_char b'_' ("_" & t) ≡ ""
before_char-underscore t = rw cons-append refl

text_reported :
    (udt : String → String) (key text : String)
    → Calls udt
    → without_zone key ≡ false
    → fits (key, plain text) ≡ true
    → translate_type (udt text) ≡ before_char b'_' key
text_reported udt key text (names, sizes) z h =
    let (n, e, t) = called-eq (case_of text names_of_types) (before_char b'_' key) (rw z at h) in
    ap translate_type (names text n e) ∙ t

text_fits : (key : String) → fits (key, sized) ≡ true → translate_type "text" ≡ before_char b'_' key
text_fits key h = (eq_iff (translate_type "text") (before_char b'_' key)).0 (and_true _ _ h).0

varchar_fits :
    (key : String) → fits (key, sized) ≡ true → translate_type "varchar" ≡ before_char b'_' key
varchar_fits key h = (eq_iff (translate_type "varchar") (before_char b'_' key)).0 (and_true _ _ h).1

column_reported :
    (udt : String → String) (key : String) (type : ColumnType) (precision : Option ℕ)
    → Calls udt
    → without_zone key ≡ false
    → fits (key, type) ≡ true
    → translate_type (udt (column_text type precision)) ≡ before_char b'_' key
column_reported udt key (plain text) precision c z h = text_reported udt key text c z h
column_reported udt key sized none (names, sizes) z h =
    ap translate_type (names "text" "text" refl) ∙ text_fits key h
column_reported udt key sized (some zero) (names, sizes) z h =
    ap translate_type (names "text" "text" refl) ∙ text_fits key h
column_reported udt key sized (some (suc n)) (names, sizes) z h =
    ap translate_type (sizes (suc n)) ∙ varchar_fits key h

-- For a database that calls its types as Postgres does, every column that is created, unless its
-- subtype is a date or a time alone, is reported with the type that was asked for, in lower case, if
-- that type has no underscore.
pub created_type_reported :
    (udt : String → String) (type : String) (subtype : Option String) (precision : Option ℕ)
    (sql : String)
    → Calls udt
    → has_char b'_' (lower type) ≡ false
    → without_zone (type_key type subtype) ≡ false
    → db_type type subtype precision ≡ ok sql
    → translate_type (udt sql) ≡ lower type
unfolding db_type
created_type_reported udt type subtype precision sql c u z h =
    let key = type_key type subtype in
    elim (Option-cases (case_of key created_types)) [
      | inl e ↦ let bad = rw e at h in cc
      | inr (found, e) ↦
          let made : ok (column_text found precision) ≡ ok sql = rw e at h in
          ap (λ x. translate_type (udt x)) (sym (ok-injective made))
          ∙ (column_reported udt key found precision c z
                (case_of-all fits created_types key found all_types_fit e)
              ∙ before_char-append b'_' (lower type) ("_" & lower (or_empty subtype)) u
                  (before_char-underscore (lower (or_empty subtype))))
    ]

-- ===== src/MySql/Schema/ReadBack.antt =====
-- The type that is read in the SQL of a column.
use text.Mathlib.TextLemmas.{cons-append, nil-append}
use text.Mathlib.TextLemmas as Text
use velo_external_db.Base.{
  ℕ, zero, suc, String, ◌≡◌, refl, sym, ap, ◌∙◌, inl, inr, Bool, true, false, ◌||◌, ◌&&◌, Option,
  none, some, ok, ◌==◌, ◌&◌, lower, before_char, has_char, all, decimal, Option-cases, eq_iff,
  ok-injective,
}
use velo_external_db.Commons.Errors.{or_empty}
use velo_external_db.Postgres.Schema.{case_of, type_key, or_text}
use velo_external_db.Postgres.Schema.Types.{case_of-all, before_char-append, before_char-underscore}
use velo_external_db.MySql.Schema.{
  reported_types, translate_type, ColumnType, plain, scaled, sized, created_types, column_text,
  db_type, parse_length, parse_precision,
}

-- A moment that is not of the type datetime when it is read, or that has a default.
abbrev pub other_moment : String → Bool
other_moment key =
    key == "datetime_date"
    || key == "datetime_time"
    || key == "datetime_year"
    || key == "datetime_timestamp"

abbrev reads : String → String → Bool
reads text key = translate_type text == before_char b'_' key

abbrev fits : String × ColumnType → Bool
fits (key, plain text) = other_moment key || reads text key
fits (key, scaled name) = reads (name & "(15,2)") key
fits (key, sized) = reads "TEXT" key && reads "VARCHAR" key

all_types_fit : all fits created_types ≡ true
unfolding translate_type lower
all_types_fit = refl

first_true : (a b : Bool) → (a && b) ≡ true → a ≡ true
first_true true b h = refl
first_true false b h = cc

lower-append : (s t : String) → lower (s & t) ≡ lower s & lower t
unfolding lower
lower-append String.[] t = ap lower (nil-append t) ∙ sym (nil-append (lower t))
lower-append (String.◌∷◌ c s) t =
    rw cons-append (rw (lower-append s t) (sym (Text.append_assoc _ (lower s) (lower t))))

lower-open : (t : String) → before_char b'(' (lower ("(" & t)) ≡ ""
unfolding lower
lower-open t = rw cons-append (rw cons-append refl)

sized_text : (t : String) → translate_type ("VARCHAR" & ("(" & t)) ≡ "text"
unfolding translate_type lower
sized_text t =
    let name : before_char b'(' (lower ("VARCHAR" & ("(" & t))) ≡ "varchar" =
      ap (before_char b'(') (lower-append "VARCHAR" ("(" & t))
      ∙ before_char-append b'(' "varchar" (lower ("(" & t)) refl (lower-open t) in
    ap (λ x. or_text (case_of x reported_types)) name

text_key : (key : String) → fits (key, sized) ≡ true → "text" ≡ before_char b'_' key
unfolding translate_type lower
text_key key h = (eq_iff "text" (before_char b'_' key)).0 (first_true _ _ h)

read_column :
    (key : String) (type : ColumnType) (precision : Option ℕ)
    → other_moment key ≡ false
    → fits (key, type) ≡ true
    → translate_type (column_text type precision) ≡ before_char b'_' key
unfolding parse_precision parse_length
read_column key (plain text) precision z h =
    let read : reads text key ≡ true = rw z at h in
    (eq_iff (translate_type text) (before_char b'_' key)).0 read
read_column key (scaled name) precision z h =
    (eq_iff (translate_type (name & "(15,2)")) (before_char b'_' key)).0 h
read_column key sized none z h =
    (eq_iff (translate_type "TEXT") (before_char b'_' key)).0 (first_true _ _ h)
read_column key sized (some zero) z h =
    (eq_iff (translate_type "TEXT") (before_char b'_' key)).0 (first_true _ _ h)
read_column key sized (some (suc n)) z h = sized_text (decimal (suc n) & ")") ∙ text_key key h

-- Every column that the MySQL adapter creates, unless it is a date, a time, a year or a timestamp, has
-- an SQL type that the adapter reads as the type that was asked for, in lower case, if that type has
-- no underscore.
pub created_type_read :
    (type : String) (subtype : Option String) (precision : Option ℕ) (sql : String)
    → has_char b'_' (lower type) ≡ false
    → other_moment (type_key type subtype) ≡ false
    → db_type type subtype precision ≡ ok sql
    → translate_type sql ≡ lower type
unfolding db_type
created_type_read type subtype precision sql u z h =
    let key = type_key type subtype in
    elim (Option-cases (case_of key created_types)) [
      | inl e ↦ let bad = rw e at h in cc
      | inr (found, e) ↦
          let made : ok (column_text found precision) ≡ ok sql = rw e at h in
          ap translate_type (sym (ok-injective made))
          ∙ (read_column key found precision z
                (case_of-all fits created_types key found all_types_fit e)
              ∙ before_char-append b'_' (lower type) ("_" & lower (or_empty subtype)) u
                  (before_char-underscore (lower (or_empty subtype))))
    ]

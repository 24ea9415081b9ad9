-- ===== src/MsSql/Filter/Naming.antt =====
-- Every name in the SQL of a filter has the value that the filter has at its place.
use velo_external_db.Base.{◌&◌, ℕ, ◌+◌, String, ◌≡◌, refl, ◌∙◌, subst, [], ◌∷◌, ok, Distinct}
use velo_external_db.Commons.Values.{Value, str, keys}
use velo_external_db.Commons.Operators.{
  AdapterOperator, eq, include, ne, string_begins, string_ends, string_contains, and, or,
  not as op_not, urlized, matches,
}
use velo_external_db.Commons.Runtime.{Runtime}
use velo_external_db.Types.{single}
use velo_external_db.Postgres.Operators.{parameters_of, Inline}
use velo_external_db.Postgres.Filter.{value_for_string_operator}
use velo_external_db.Postgres.Filter.Bindable.{Matchable}
use velo_external_db.Postgres.Filter.Fields.{match-returns}
use velo_external_db.MySql.Operators.{adapter_operator_to_my_sql_operator}
use velo_external_db.MySql.Filter.Ready.{Texts, TakesFlat}
use velo_external_db.MySql.Filter.Fields.{urlized_pattern-Texts}
use velo_external_db.MsSql.Sql.{TsqlString, text, reference, references, name_at, escape_id}
use velo_external_db.MsSql.Filter.{
  entries_from, value_for_operator, comparison, parse_comparison, parse_text, parse_urlized,
  parse_matches, parse_field, parse_filter, match_sql, inline_variable_if_needed,
}
use velo_external_db.MsSql.Filter.Values.{
  references-comparison, at, Names, one-Names, some-Names, unary-Names, eq-Names, ne-Names, Part,
  finish-Part,
}
use velo_external_db.MsSql.Filter.Ready.{compared_with, bindings}

module _ (r : Runtime) (l : TsqlString) where
  comparison-Part :
      (inline : Inline) (op : AdapterOperator) (f : String) (v : Value) (k : ℕ)
      → Names r l op f v k (parameters_of v)
      → Distinct (keys (entries_from r l f k (parameters_of v)))
      → Part r l
          (parse_comparison r l inline op f v (at k))
          k
          (entries_from r l f k (parameters_of v))
  unfolding parse_comparison
  comparison-Part inline op f v k (sql, e, n) d =
      let left = inline_variable_if_needed r l f inline in
      let o = adapter_operator_to_my_sql_operator op v in
      rw e (finish-Part r l (comparison left o) f v k sql (references-comparison left o sql ∙ n) d)

  -- the entry of one text
  text-Part :
      (inline : Inline) (op : AdapterOperator) (f : String) (v : Value) (k : ℕ) (s : String)
      → Names r l op f v k (str s ∷ [])
      → value_for_string_operator r op v ≡ str s
      → Part r l (parse_text r l inline op f v (at k)) k (entries_from r l f k (str s ∷ []))
  unfolding parse_text parameters_of
  text-Part inline op f v k s (sql, e, n) m =
      let left = inline_variable_if_needed r l f inline in
      rw (e, m)
        (finish-Part r l (comparison left "LIKE") f (str s) k sql
          (references-comparison left "LIKE" sql ∙ n) ((λ x. x), tt))

  one_text :
      (inline : Inline) (op : AdapterOperator) (f : String) (v : Value) (k : ℕ) {s : String}
      → value_for_string_operator r op v ≡ str s
      → value_for_operator r l f v op (at k)
        ≡ ok (reference (name_at l f k) ∷ [], record { param_counter = k; value_counter = k + 1 })
      → Part r l (parse_text r l inline op f v (at k)) k (entries_from r l f k (str s ∷ []))
  one_text inline op f v k {s} m e =
      text-Part inline op f v k s (one-Names r l op f v k (str s) e) m

  urlized-Part :
      (f : String) (v : Value) (k : ℕ)
      → Texts v
      → Part r l
          (parse_urlized r l f v (at k))
          k
          (entries_from r l f k (compared_with r l urlized v))
  unfolding parse_urlized value_for_operator compared_with parameters_of references
  urlized-Part f v k h =
      let (s, e) = urlized_pattern-Texts v h in
      rw (e, compared_with)
        (finish-Part r l (λ sql. text ("LOWER(" & escape_id l f & ") LIKE ") ∷ sql) f (str s) k
          (reference (name_at l f k) ∷ []) refl ((λ x. x), tt))

  matches-Part :
      (f : String) (v : Value) (k : ℕ)
      → Matchable v
      → Part r l
          (parse_matches r l matches f v (at k))
          k
          (entries_from r l f k (compared_with r l matches v))
  unfolding parse_matches value_for_operator compared_with parameters_of references
  matches-Part f v k h =
      let (b, s, e) = match-returns r v h in
      rw (e, compared_with)
        (finish-Part r l (match_sql r l f b) f (str s) k (reference (name_at l f k) ∷ []) refl
          ((λ x. x), tt))

  -- the values of a comparison, and of a match
  comparison_values :
      (inline : Inline) (op : AdapterOperator) (f : String) (v : Value) (k : ℕ)
      → Names r l op f v k (parameters_of v)
      → parameters_of v ≡ compared_with r l op v
      → Distinct (keys (entries_from r l f k (compared_with r l op v)))
      → Part r l
          (parse_comparison r l inline op f v (at k))
          k
          (entries_from r l f k (compared_with r l op v))
  comparison_values inline op f v k n e =
      subst
        (λ vs.
          Distinct (keys (entries_from r l f k vs))
          → Part r l (parse_comparison r l inline op f v (at k)) k (entries_from r l f k vs))
        e (comparison-Part inline op f v k n)

  field-Part :
      (inline : Inline) (op : AdapterOperator) (f : String) (v : Value) (k : ℕ)
      → TakesFlat op v
      → Distinct (keys (entries_from r l f k (compared_with r l op v)))
      → Part r l
          (parse_field r l inline op f v (at k))
          k
          (entries_from r l f k (compared_with r l op v))
  unfolding parse_field compared_with value_for_operator value_for_string_operator
  field-Part inline and f v k h d = elim h [ ]
  field-Part inline or f v k h d = elim h [ ]
  field-Part inline op_not f v k h d = elim h [ ]
  field-Part inline urlized f v k h d = urlized-Part f v k h
  field-Part inline matches f v k h d = matches-Part f v k h
  field-Part inline string_begins f v k h d = one_text inline string_begins f v k refl refl
  field-Part inline string_ends f v k h d = one_text inline string_ends f v k refl refl
  field-Part inline string_contains f v k h d = one_text inline string_contains f v k refl refl
  field-Part inline include f v k h d =
      comparison_values inline include f v k (some-Names r l f v k h) refl d
  field-Part inline eq f v k h d = comparison_values inline eq f v k (eq-Names r l f v k h) refl d
  field-Part inline ne f v k h d = comparison_values inline ne f v k (ne-Names r l f v k h) refl d
  field-Part inline op f v k h d =
      comparison_values inline op f v k (unary-Names r l op f v k h refl) refl d

  pub single-Part :
      (inline : Inline) (op : AdapterOperator) (f : String) (v : Value) (k : ℕ)
      → TakesFlat op v
      → Distinct (keys (bindings r l (single op f v) k))
      → Part r l (parse_filter r l inline (single op f v) (at k)) k (bindings r l (single op f v) k)
  unfolding parse_filter bindings
  single-Part inline and f v k h d = elim h [ ]
  single-Part inline or f v k h d = elim h [ ]
  single-Part inline op_not f v k h d = elim h [ ]
  single-Part inline op f v k h d = field-Part inline op f v k h d

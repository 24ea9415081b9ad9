-- ===== src/Postgres/Filter/Fields.antt =====
-- The placeholders of a filter on one field.
use velo_external_db.Base.{
  ℕ, ◌+◌, String, ◌≡◌, refl, ◌∙◌, ◌⊎◌, inl, inr, Bool, true, false, not, ◌&&◌, List, [], ◌∷◌, ok,
  length, has_char, traverse, join, Bool-cases, All, ◌&◌, before_char, after_char,
}
use velo_external_db.Commons.Values.{Value, arr, obj, values, entries, get, is_object, is_truthy}
use velo_external_db.Commons.Dates.{is_date}
use velo_external_db.Commons.Errors.{Result}
use velo_external_db.Commons.Operators.{
  AdapterOperator, eq, string_begins, string_ends, string_contains, and, or, not as op_not, urlized,
  matches,
}
use velo_external_db.Commons.Runtime.{Runtime}
use velo_external_db.Commons.Text.{text_of, template_text}
use velo_external_db.Types.{AdapterFilter, single}
use velo_external_db.Postgres.Sql.{escape_identifier}
use velo_external_db.Postgres.Sql.Placeholders.{placeholders, range}
use velo_external_db.Postgres.Operators.{
  ParsedFilter, Inline, parameters_of, compared, matched, inline_variable_if_needed,
}
use velo_external_db.Postgres.Filter.{
  spec_item_to_regex, spec_array_to_regex, match_of, parse_nested, parse_matches, parse_json,
  parse_comparison, parse_text, parse_field, parse_filter,
}
use velo_external_db.Postgres.Filter.Bindable.{
  Binds, NotArray, SpecItem, SpecArray, Matchable, Suits, Yields, Fits, Suits-Fits,
  placeholders-comparison,
}

module _ (r : Runtime) where
  SpecItem-returns : (v : Value) → SpecItem v → (s : String) × (spec_item_to_regex r v ≡ ok s)
  unfolding spec_item_to_regex
  SpecItem-returns (obj fs) (inl e) = (text_of r (get "value" (entries fs)), rw e refl)
  SpecItem-returns (obj fs) (inr e) =
      ("[" & template_text r (get "value" (entries fs)) & "]", rw e refl)
  SpecItem-returns v h = elim h [ ]

  spec_items-return :
      (vs : List Value)
      → All SpecItem vs
      → (ss : List String) × (traverse (spec_item_to_regex r) vs ≡ ok ss)
  spec_items-return [] h = ([], refl)
  spec_items-return (v ∷ vs) (h, hs) =
      let (s, e) = SpecItem-returns v h in
      let (ss, es) = spec_items-return vs hs in (s ∷ ss, rw (e, es) refl)

  SpecArray-returns : (v : Value) → SpecArray v → (s : String) × (spec_array_to_regex r v ≡ ok s)
  unfolding spec_array_to_regex
  SpecArray-returns (arr vs) h =
      let (ss, e) = spec_items-return (values vs) h in (join "" ss, rw e refl)
  SpecArray-returns v h = elim h [ ]

  pub match-returns :
      (v : Value) → Matchable v → (b : Bool) × (s : String) × (match_of r v ≡ ok (b, s))
  unfolding match_of
  match-returns (obj fs) h =
      let (s, e) = SpecArray-returns (get "spec" (entries fs)) h in
      (is_truthy (get "ignoreCase" (entries fs)), s, rw e refl)
  match-returns v h = elim h [ ]

  -- The result of a parser is one part, which binds.
  abbrev pub Parsed : Result (List ParsedFilter) → ℕ → Type 0
  Parsed res from = (p : ParsedFilter) × (res ≡ ok (p ∷ [])) × Binds p from

  nested-Parsed :
      (op : AdapterOperator) (f : String) (v : Value) (from : ℕ)
      → Fits op v from
      → Parsed (parse_nested r op f v from) from
  unfolding parse_nested
  nested-Parsed op f v from (sql, e, b) =
      let left = escape_identifier (before_char b'.' f) & " ->> '" & after_char b'.' f & "'" in
      (
        compared left op v (sql, from + length (parameters_of v)),
        rw e refl,
        (refl, placeholders-comparison left _ sql ∙ b),
      )

  comparison-Parsed :
      (inline : Inline) (op : AdapterOperator) (f : String) (v : Value) (from : ℕ)
      → Fits op v from
      → Parsed (parse_comparison r inline op f v from) from
  unfolding parse_comparison
  comparison-Parsed inline op f v from (sql, e, b) =
      let left = inline_variable_if_needed f inline in
      (
        compared left op v (sql, from + length (parameters_of v)),
        rw e refl,
        (refl, placeholders-comparison left _ sql ∙ b),
      )

  matches-Parsed :
      (f : String) (v : Value) (from : ℕ) → Matchable v → Parsed (parse_matches r f v from) from
  unfolding parse_matches placeholders range
  matches-Parsed f v from h =
      let (b, s, e) = match-returns v h in (matched f from (b, s), rw e refl, (refl, refl))

  json-Parsed : (f : String) (v : Value) (from : ℕ) → Parsed (parse_json r f v from) from
  unfolding parse_json placeholders range
  json-Parsed f v from = (_, refl, (refl, refl))

  text-Parsed :
      (inline : Inline) (op : AdapterOperator) (f : String) (v : Value) (from : ℕ)
      → Parsed (parse_text r inline op f v from) from
  unfolding parse_text placeholders range
  text-Parsed inline op f v from = (_, refl, (refl, refl))

  -- The result of a parser is nothing, for a filter that says nothing, or one part, which binds.
  abbrev pub Done : AdapterFilter → Result (List ParsedFilter) → ℕ → Type 0
  Done f res from = ((res ≡ ok []) × ¬ Yields f) ⊎ Parsed res from

  dotted-Parsed :
      (inline : Inline) (op : AdapterOperator) (f : String) (v : Value) (from : ℕ)
      → has_char b'.' f ≡ true
      → Suits op v
      → Parsed (parse_field r inline op f v from) from
  unfolding parse_field
  dotted-Parsed inline op f v from e h =
      rw (e, parse_field) (nested-Parsed op f v from (Suits-Fits op v from h))

  eq-Parsed :
      (inline : Inline) (f : String) (v : Value) (from : ℕ)
      → has_char b'.' f ≡ false
      → NotArray v
      → Parsed (parse_field r inline eq f v from) from
  unfolding parse_field
  eq-Parsed inline f v from e h = elim (Bool-cases (is_object v && not (is_date v))) [
    | inl json ↦ rw (e, json, parse_field) (json-Parsed f v from)
    | inr other ↦
        rw (e, other, parse_field) (comparison-Parsed inline eq f v from (Suits-Fits eq v from h))
  ]

  undotted-Done :
      (inline : Inline) (op : AdapterOperator) (f : String) (v : Value) (from : ℕ)
      → has_char b'.' f ≡ false
      → Suits op v
      → Done (single op f v) (parse_field r inline op f v from) from
  unfolding parse_field
  undotted-Done inline and f v from e h = elim h [ ]
  undotted-Done inline or f v from e h = elim h [ ]
  undotted-Done inline op_not f v from e h = elim h [ ]
  undotted-Done inline urlized f v from e h = inl (rw (e, parse_field) refl, λ y. y)
  undotted-Done inline matches f v from e h = inr (rw (e, parse_field) (matches-Parsed f v from h))
  undotted-Done inline eq f v from e h = inr (eq-Parsed inline f v from e h)
  undotted-Done inline string_begins f v from e h =
      inr (rw (e, parse_field) (text-Parsed inline string_begins f v from))
  undotted-Done inline string_ends f v from e h =
      inr (rw (e, parse_field) (text-Parsed inline string_ends f v from))
  undotted-Done inline string_contains f v from e h =
      inr (rw (e, parse_field) (text-Parsed inline string_contains f v from))
  undotted-Done inline op f v from e h =
      inr (rw (e, parse_field) (comparison-Parsed inline op f v from (Suits-Fits op v from h)))

  field-Done :
      (inline : Inline) (op : AdapterOperator) (f : String) (v : Value) (from : ℕ)
      → Suits op v
      → Done (single op f v) (parse_field r inline op f v from) from
  field-Done inline op f v from h = elim (Bool-cases (has_char b'.' f)) [
    | inl e ↦ inr (dotted-Parsed inline op f v from e h)
    | inr e ↦ undotted-Done inline op f v from e h
  ]

  pub single-Done :
      (inline : Inline) (op : AdapterOperator) (f : String) (v : Value) (from : ℕ)
      → Suits op v
      → Done (single op f v) (parse_filter r inline (single op f v) from) from
  unfolding parse_filter
  single-Done inline and f v from h = elim h [ ]
  single-Done inline or f v from h = elim h [ ]
  single-Done inline op_not f v from h = elim h [ ]
  single-Done inline op f v from h = field-Done inline op f v from h

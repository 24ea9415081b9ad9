-- ===== src/MySql/Filter/EmptyParts.antt =====
-- A conjunction or disjunction with an empty part.
use velo_external_db.Base.{String, ◌≡◌, refl, ◌⊎◌, inl, inr, List, [], ◌∷◌, ok, err, Outcome-cases}
use velo_external_db.Commons.Errors.{Error}
use velo_external_db.Commons.Operators.{and, or}
use velo_external_db.Commons.Runtime.{Runtime}
use velo_external_db.Types.{AdapterFilter, empty, single, multi, Filters, done, also}
use velo_external_db.MySql.Operators.{ParsedFilter, firsts}
use velo_external_db.MySql.Filter.{parse_filter, parse_each, transform}

abbrev pub HasEmpty : Filters → Type 0
HasEmpty done = ⊥
HasEmpty (also empty fs) = Unit
HasEmpty (also f fs) = HasEmpty fs

module _ (r : Runtime) (quote : String → String) where
  -- The parts are not all parsed, or one of them has no first element.
  abbrev Stops : Filters → Type 0
  Stops fs =
      ((e : Error) × (parse_each r quote fs ≡ err e))
      ⊎ ((ps : List (List ParsedFilter)) × (e : Error) × (parse_each r quote fs ≡ ok ps)
          × (firsts ps ≡ err e))

  empty-Stops : (fs : Filters) → Stops (also empty fs)
  unfolding parse_filter
  empty-Stops fs = elim (Outcome-cases (parse_each r quote fs)) [
    | inl (ps, e) ↦ inr ([] ∷ ps, _, rw e refl, refl)
    | inr (x, e) ↦ inl (x, rw e refl)
  ]

  later-Stops : (f : AdapterFilter) (fs : Filters) → Stops fs → Stops (also f fs)
  unfolding parse_filter
  later-Stops f fs h = elim (Outcome-cases (parse_filter r quote f)) [
    | inr (x, e) ↦ inl (x, rw e refl)
    | inl ([], e) ↦ elim h [
      | inl (y, k) ↦ inl (y, rw (e, k) refl)
      | inr (ps, y, k, s) ↦ inr ([] ∷ ps, _, rw (e, k) refl, refl)
    ]
    | inl (p ∷ qs, e) ↦ elim h [
      | inl (y, k) ↦ inl (y, rw (e, k) refl)
      | inr (ps, y, k, s) ↦ inr ((p ∷ qs) ∷ ps, y, rw (e, k) refl, rw s refl)
    ]
  ]

  parts-Stop : (fs : Filters) → HasEmpty fs → Stops fs
  parts-Stop done h = elim h [ ]
  parts-Stop (also empty fs) h = empty-Stops fs
  parts-Stop (also (single op f v) fs) h = later-Stops (single op f v) fs (parts-Stop fs h)
  parts-Stop (also (multi op gs) fs) h = later-Stops (multi op gs) fs (parts-Stop fs h)

  -- A conjunction and a disjunction of which a part is the empty filter end in an error, whatever
  -- their other parts are.
  pub empty_part_fails :
      (fs : Filters)
      → HasEmpty fs
      → ((e : Error) × (transform r quote (multi and fs) ≡ err e))
        × ((e : Error) × (transform r quote (multi or fs) ≡ err e))
  unfolding transform parse_filter
  empty_part_fails fs h = elim (parts-Stop fs h) [
    | inl (e, k) ↦ ((e, rw k refl), (e, rw k refl))
    | inr (ps, e, k, s) ↦ ((e, rw (k, s) refl), (e, rw (k, s) refl))
  ]

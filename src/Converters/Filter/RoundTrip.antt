-- ===== src/Converters/Filter/RoundTrip.antt =====
-- filter_transformer.ts against a printer of adapter filters.
use velo_external_db.Base.{String, ◌≡◌, refl, true, false, ok}
use velo_external_db.Commons.Values.{Value, arr, obj, Items, nil, cons, end, field}
use velo_external_db.Commons.Dates.{Calendar, patch_velo_date_value}
use velo_external_db.Commons.Operators.{
  AdapterOperator, eq, gt, gte, include, lt, lte, ne, string_begins, string_ends, string_contains,
  and, or, not as op_not, urlized, matches,
}
use velo_external_db.Types.{AdapterFilter, empty, single, multi, Filters, done, also}
use velo_external_db.Converters.Filter.{
  wix_operator_to_adapter_operator, is_multiple_field_operator, is_operator,
  value_and_operator_from_filter, transform_single, transform, transform_items,
}

-- The name of an operator in a request.
abbrev pub wix_name : AdapterOperator → String
wix_name eq = "$eq"
wix_name gt = "$gt"
wix_name gte = "$gte"
wix_name include = "$hasSome"
wix_name lt = "$lt"
wix_name lte = "$lte"
wix_name ne = "$ne"
wix_name string_begins = "$startsWith"
wix_name string_ends = "$endsWith"
wix_name string_contains = "$contains"
wix_name and = "$and"
wix_name or = "$or"
wix_name op_not = "$not"
wix_name urlized = "$urlized"
wix_name matches = "$matches"

-- The filter of a request that stands for an adapter's filter.
unfoldable mutual
  pub print : AdapterFilter → Value
  print empty = obj end
  print (single op f v) = obj (field f (obj (field (wix_name op) v end)) end)
  print (multi op fs) = obj (field (wix_name op) (arr (print_items fs)) end)

  pub print_items : Filters → Items
  print_items done = nil
  print_items (also f fs) = cons (print f) (print_items fs)

-- What a request can say: a field is not named like a logical operator, a value is not a packed
-- date, and only the logical operators take filters.
abbrev mutual
  pub Printable : Calendar → AdapterFilter → Type 0
  Printable c empty = Unit
  Printable c (single op f v) =
      (is_multiple_field_operator f ≡ false) × (patch_velo_date_value c v ≡ v)
  Printable c (multi op fs) = (is_multiple_field_operator (wix_name op) ≡ true) × EachPrintable c fs

  pub EachPrintable : Calendar → Filters → Type 0
  EachPrintable c done = Unit
  EachPrintable c (also f fs) = Printable c f × EachPrintable c fs

wix_operator-wix_name :
    (op : AdapterOperator) → wix_operator_to_adapter_operator (wix_name op) ≡ ok op
unfolding wix_operator_to_adapter_operator
wix_operator-wix_name = elim [
  | eq ↦ refl
  | gt ↦ refl
  | gte ↦ refl
  | include ↦ refl
  | lt ↦ refl
  | lte ↦ refl
  | ne ↦ refl
  | string_begins ↦ refl
  | string_ends ↦ refl
  | string_contains ↦ refl
  | and ↦ refl
  | or ↦ refl
  | op_not ↦ refl
  | urlized ↦ refl
  | matches ↦ refl
]

is_operator-wix_name : (op : AdapterOperator) → is_operator (wix_name op) ≡ true
unfolding is_operator
is_operator-wix_name = elim [
  | eq ↦ refl
  | gt ↦ refl
  | gte ↦ refl
  | include ↦ refl
  | lt ↦ refl
  | lte ↦ refl
  | ne ↦ refl
  | string_begins ↦ refl
  | string_ends ↦ refl
  | string_contains ↦ refl
  | and ↦ refl
  | or ↦ refl
  | op_not ↦ refl
  | urlized ↦ refl
  | matches ↦ refl
]

module _ (c : Calendar) where
  transform_single-print :
      (op : AdapterOperator) (f : String) (v : Value)
      → patch_velo_date_value c v ≡ v
      → transform_single c f (obj (field (wix_name op) v end)) ≡ ok (single op f v)
  unfolding transform_single value_and_operator_from_filter
  transform_single-print op f v e = rw (is_operator-wix_name op, wix_operator-wix_name op, e)

  mutual
    unfolding transform print

    transform-print_filter : (f : AdapterFilter) → Printable c f → transform c (print f) ≡ ok f
    transform-print_filter empty h = refl
    transform-print_filter (single op f v) (plain, e) = rw (plain, transform_single-print op f v e)
    transform-print_filter (multi op fs) (several, h) =
        rw (several, wix_operator-wix_name op, transform_items-print fs h)

    transform_items-print :
        (fs : Filters) → EachPrintable c fs → transform_items c (print_items fs) ≡ ok fs
    transform_items-print done h = refl
    transform_items-print (also f fs) (h, hs) =
        rw (transform-print_filter f h, transform_items-print fs hs)

-- For every calendar and every adapter filter that a request can say, transforming the request's
-- filter that stands for it gives it back, whatever its operators, nesting and values.
pub transform-print :
    (c : Calendar) (f : AdapterFilter) → Printable c f → transform c (print f) ≡ ok f
transform-print c f h = transform-print_filter c f h

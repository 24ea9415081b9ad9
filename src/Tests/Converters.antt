-- ===== src/Tests/Converters.antt =====
-- Converters at concrete inputs.
use velo_external_db.Base.{
  String, true, false, none, List, [], ◌∷◌, ok, ◌≡◌, refl, inl, inr, ◌↔◌, ◌≢◌, decimal, Listed,
  Distinct, All, eq_iff, arith,
}
use velo_external_db.Commons.Values.{
  pos, bool, num, str, Item, get, null, keys, has_key, put, is_truthy,
}
use velo_external_db.Commons.Operators.{gt, eq, and, not}
use velo_external_db.Types.{AdapterFilter, single, multi, done, also, ResponseField}
use velo_external_db.Converters.Filter.{transform, is_multiple_field_operator}
use velo_external_db.Commons.Dates.{patch_velo_date_value}
use velo_external_db.Converters.Filter.RoundTrip.{transform-print, print}
use velo_external_db.Converters.Validation.{TypedField, typed, validate_filter}
use velo_external_db.Converters.Validation.Sound.{validate_filter_iff, Queryable}
use velo_external_db.Converters.Items.{prepare_for_insert, prepare_for_update, unpack_date}
use velo_external_db.Converters.Items.Inserted.{
  names, InsertedAt, keys-prepare_for_insert, get-prepare_for_insert, falsy-prepare_for_insert,
}
use velo_external_db.Converters.Items.Updated.{prepare_for_update_lem, given}
use velo_external_db.Converters.WixData.{as_wix_data}
use velo_external_db.Converters.WixData.Idempotent.{as_wix_data_idempotent}
use velo_external_db.Schemas.FieldTypes.{there_and_back}
use velo_external_db.Schemas.FieldTypes.ThereAndBack.{there_and_back_iff, lasting}
use velo_external_db.Tests.World.{epoch, runtime, column}

abbrev adult : AdapterFilter
adult = multi and (
    also (single gt "age" (num (pos 17)))
      (also (multi not (also (single eq "name" (str "x")) done)) done))

transform-print_example : transform epoch (print adult) ≡ ok adult
unfolding is_multiple_field_operator patch_velo_date_value
transform-print_example =
    transform-print epoch adult (refl, ((refl, refl), ((refl, ((refl, refl), tt)), tt)))

abbrev typed_fields : List TypedField
typed_fields = typed (column "age" "number") ∷ typed (column "name" "text") ∷ []

validate_filter_iff_example :
    (validate_filter typed_fields adult none ≡ ok tt) ↔ Queryable typed_fields adult
validate_filter_iff_example = validate_filter_iff typed_fields adult none

abbrev fields : List ResponseField
fields = column "_id" "text" ∷ column "active" "boolean" ∷ []

abbrev inactive : Item
inactive = ("other", str "x") ∷ ("active", bool false) ∷ []

active-ne-id : ◌≢◌ {A = String} "active" "_id"
active-ne-id h = ground (arith, eq_iff "active" "_id")

fields-Distinct : Distinct (names fields)
fields-Distinct = (elim [ inl e ↦ active-ne-id e | inr n ↦ n ], (λ n. n, tt))

inactive_falsy : is_truthy (get "active" inactive) ≡ false
unfolding is_truthy get
inactive_falsy = refl

keys-prepare_for_insert_example :
    Distinct (keys (prepare_for_insert runtime inactive fields 4).0)
    × ((k : String)
        → Listed k (keys (prepare_for_insert runtime inactive fields 4).0)
          ↔ Listed k (names fields))
keys-prepare_for_insert_example = keys-prepare_for_insert runtime inactive fields 4 fields-Distinct

get-prepare_for_insert_example :
    All (InsertedAt runtime inactive (prepare_for_insert runtime inactive fields 4).0) fields
get-prepare_for_insert_example = get-prepare_for_insert runtime inactive fields 4 fields-Distinct

falsy-prepare_for_insert_example :
    get "active" (prepare_for_insert runtime inactive fields 4).0 ≡ null
falsy-prepare_for_insert_example =
    falsy-prepare_for_insert runtime inactive fields 4 (column "active" "boolean") fields-Distinct
      (inr (inl refl)) inactive_falsy refl refl

prepare_for_update_example :
    ((k : String)
      → Listed k (keys (prepare_for_update runtime inactive fields))
        ↔ Listed k (given inactive fields))
    × All
        (λ f.
          get f.field (prepare_for_update runtime inactive fields)
          ≡ unpack_date runtime (get f.field inactive))
        fields
prepare_for_update_example = prepare_for_update_lem runtime inactive fields fields-Distinct

abbrev packed : Item
packed = ("age", num (pos 4)) ∷ ("_id", str "4") ∷ []

abbrev plain : Item
plain = ("age", num (pos 4)) ∷ []

as_wix_data-plain : as_wix_data runtime plain ≡ ok packed
unfolding as_wix_data has_key put decimal
as_wix_data-plain = refl

as_wix_data_idempotent_example :
    (has_key "_id" packed ≡ true) × (as_wix_data runtime packed ≡ ok packed)
as_wix_data_idempotent_example = as_wix_data_idempotent runtime plain packed as_wix_data-plain

there_and_back_iff_example : (there_and_back "date" ≡ ok "date") ↔ Listed "date" lasting
there_and_back_iff_example = there_and_back_iff "date"

-- ===== src/Converters/Items.antt =====
-- item_transformer.js: items on their way into and out of a storage. A loop over the fields of a
-- schema carries the item that it builds and the number of draws made from the environment.
-- `in` is asked of own keys only: a field named like a member of Object.prototype is not modelled.
pub mod Inserted
pub mod Updated
use velo_external_db.Base.{
  ℕ, zero, ◌+◌, String, Bool, true, false, not, ◌&&◌, ◌||◌, Option, none, some, List, [], ◌∷◌, map,
  ◌==◌, filter, if◌then◌else◌,
}
use velo_external_db.Commons.Values.{
  ℤ, pos, negsuc, Value, undefined, null, bool, num, frac, str, date, arr, obj, Item, entries, get,
  has_key, put, is_truthy,
}
use velo_external_db.Commons.Dates.{new_date}
use velo_external_db.Commons.Runtime.{Runtime}
use velo_external_db.Types.{ResponseField}

-- `booleanValueFor`
unfoldable pub boolean_value_for : Value → Value
boolean_value_for (str s) =
    if s == "true" || s == "1"
    then bool true
    else if s == "false" || s == "0"
    then bool false
    else str s
boolean_value_for (num (pos zero)) = bool false
boolean_value_for (num (pos (ℕ.suc zero))) = bool true
boolean_value_for v = v

-- `patchBoolean`, given the fields that are Boolean
unfoldable pub patch_boolean : Item → List ResponseField → Item
unfolding boolean_value_for
patch_boolean item [] = item
patch_boolean item (f ∷ fs) =
    patch_boolean
      (if has_key f.field item
        then put f.field (boolean_value_for (get f.field item)) item
        else item)
      fs

unfoldable pub patch_items_boolean_fields : List Item → List ResponseField → List Item
unfolding patch_boolean
patch_items_boolean_fields items fields = map (λ i. patch_boolean i fields) items

-- `typeof value !== 'object'`
unfoldable pub is_not_object : Value → Bool
is_not_object null = false
is_not_object (date t) = false
is_not_object (arr vs) = false
is_not_object (obj fs) = false
is_not_object v = true

abbrev of_type : String → List ResponseField → List ResponseField
of_type type fields = filter (λ f. f.type == type) fields

module _ (r : Runtime) where
  -- one round of `patchObject`
  abbrev patch_field : String → Item → Item
  patch_field key item =
      if is_not_object (get key item)
      then elim (r.json_parse (get key item)) [ none ↦ item | some v ↦ put key v item ]
      else item

  -- `patchObject`
  unfoldable pub patch_object : Item → List ResponseField → Item
  unfolding is_not_object
  patch_object item [] = item
  patch_object item (f ∷ fs) =
      patch_object (if f.type == "object" then patch_field f.field item else item) fs

  unfoldable pub patch_item : List ResponseField → Item → Item
  unfolding patch_boolean patch_object
  patch_item fields item =
      patch_object (patch_boolean item (of_type "boolean" fields)) (of_type "object" fields)

  unfoldable pub patch_items : List Item → List ResponseField → List Item
  unfolding patch_item
  patch_items items fields = map (patch_item fields) items

  -- `defaultValueFor` at the n-th draw, and the number of draws after it
  unfoldable pub default_value_for : ResponseField → ℕ → Value × ℕ
  default_value_for f n =
      if f.type == "text"
      then (if f.is_primary || f.field == "_id" then (str (r.uuid n), n + 1) else (null, n))
      else if f.type == "datetime"
      then (if f.field == "_createdDate" || f.field == "_updatedDate"
          then (date (some (r.now n)), n + 1)
          else (null, n))
      else (null, n)

  unfoldable pub unpack_date : Value → Value
  unfolding new_date
  unpack_date (obj fs) =
      if has_key "$date" (entries fs)
      then new_date r.calendar (get "$date" (entries fs))
      else obj fs
  unpack_date v = v

  -- `unpackDates`
  unfoldable pub unpack_dates : Item → Item
  unfolding unpack_date
  unpack_dates [] = []
  unpack_dates ((k, v) ∷ kvs) = (k, unpack_date v) ∷ unpack_dates kvs

  -- `item[f.field] || defaultValueFor(f)`
  unfoldable pub value_or_default : Item → ResponseField → ℕ → Value × ℕ
  unfolding is_truthy default_value_for
  value_or_default item f n =
      if is_truthy (get f.field item) then (get f.field item, n) else default_value_for f n

  unfoldable pub insert_fields : Item → List ResponseField → Item → ℕ → Item × ℕ
  unfolding value_or_default
  insert_fields item [] built n = (built, n)
  insert_fields item (f ∷ fs) built n =
      let (v, n') = value_or_default item f n in insert_fields item fs (put f.field v built) n'

  unfoldable pub prepare_for_insert : Item → List ResponseField → ℕ → Item × ℕ
  unfolding insert_fields unpack_dates
  prepare_for_insert item fields n =
      let (built, n') = insert_fields item fields [] n in (unpack_dates built, n')

  unfoldable pub prepare_items_for_insert : List Item → List ResponseField → ℕ → List Item × ℕ
  unfolding prepare_for_insert
  prepare_items_for_insert [] fields n = ([], n)
  prepare_items_for_insert (i ∷ is) fields n =
      let (prepared, n') = prepare_for_insert i fields n in
      let (rest, n'') = prepare_items_for_insert is fields n' in (prepared ∷ rest, n'')

  unfoldable pub update_fields : Item → List ResponseField → Item → Item
  update_fields item [] built = built
  update_fields item (f ∷ fs) built =
      update_fields item fs
        (if has_key f.field item then put f.field (get f.field item) built else built)

  unfoldable pub prepare_for_update : Item → List ResponseField → Item
  unfolding update_fields unpack_dates
  prepare_for_update item fields = unpack_dates (update_fields item fields [])

  unfoldable pub prepare_items_for_update : List Item → List ResponseField → List Item
  unfolding prepare_for_update
  prepare_items_for_update items fields = map (λ i. prepare_for_update i fields) items

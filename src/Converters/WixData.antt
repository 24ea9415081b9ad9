-- ===== src/Converters/WixData.antt =====
-- data_utils.ts: items as they leave the server, with packed dates and an `_id`.
pub mod Idempotent
use velo_external_db.Base.{
  ℕ, String, Bool, true, false, not, ◌&&◌, ◌||◌, Option, none, some, List, [], ◌∷◌, ◌++◌, ok, err,
  ◌>>=◌, ◌&◌, decimal, leb, if◌then◌else◌,
}
use Prim.Native.Char.{code}
use velo_external_db.Commons.Values.{
  ℤ, pos, negsuc, Value, undefined, null, bool, num, frac, str, date, arr, obj, Items, nil, cons,
  Fields, end, field, Item, put, has_key,
}
use velo_external_db.Commons.Dates.{is_date}
use velo_external_db.Commons.Errors.{Result, Error, other_error}
use velo_external_db.Commons.Runtime.{Runtime}
use velo_external_db.Commons.Text.{text_of}

is_alphanumeric : ℕ → Bool
is_alphanumeric c = leb b'a' c && leb c b'z' || leb b'A' c && leb c b'Z' || leb b'0' c && leb c b'9'

-- `str.replace(/[^a-zA-Z0-9]/g, '-')`
unfoldable pub replace_non_alphanumeric : String → String
unfolding is_alphanumeric
replace_non_alphanumeric String.[] = ""
replace_non_alphanumeric (String.◌∷◌ c s) =
    let rest = replace_non_alphanumeric s in
    if is_alphanumeric (code c) then String.◌∷◌ c rest else "-" & rest

module _ (r : Runtime) where
  -- `Object.values(item).join('')`
  fields_concat : Item → String
  unfolding text_of
  fields_concat [] = ""
  fields_concat ((k, v) ∷ kvs) = text_of r v & fields_concat kvs

  unfoldable pub generate_ids_if_needed : Item → Item
  unfolding fields_concat replace_non_alphanumeric
  generate_ids_if_needed item =
      if has_key "_id" item
      then item
      else put "_id" (str (replace_non_alphanumeric (r.sha1_base64 (fields_concat item)))) item

  -- `{ $date: new Date(v).toISOString() }`; an invalid date is a RangeError.
  abbrev pub packed_date : Option ℤ → Result Value
  packed_date none = err (other_error "Invalid time value" none)
  packed_date (some t) = ok (obj (field "$date" (str (r.calendar.to_iso t)) end))

  unfoldable pub pack_date : Value → Result Value
  unfolding is_date
  pack_date v = if is_date v then packed_date (r.calendar.of_value v) else ok v

  unfoldable pub pack_dates : Item → Result Item
  unfolding pack_date
  pack_dates [] = ok []
  pack_dates ((k, v) ∷ kvs) = do w ← pack_date v; rest ← pack_dates kvs; ok ((k, w) ∷ rest)

  unfoldable pub as_wix_data : Item → Result Item
  unfolding pack_dates generate_ids_if_needed
  as_wix_data item = do packed ← pack_dates item; ok (generate_ids_if_needed packed)

-- ===== src/Commons/Dates.antt =====
-- Dates. The calendar of JavaScript's `Date` is a parameter: `of_value v` is the time value of
-- `new Date(v)`, `none` if that is an invalid date, and `to_iso` is `toISOString`.
use velo_external_db.Base.{String, Bool, true, false, ◌&&◌, Option, if◌then◌else◌}
use velo_external_db.Commons.Values.{
  ℤ, Value, undefined, null, bool, num, frac, str, date, arr, obj, entries, get, is_object,
}
use velo_external_db.Commons.Iso.{is_iso}

pub record Calendar : Type 0 where
  pub of_value : Value → Option ℤ
  pub to_iso : ℤ → String

-- `isDate`
unfoldable pub is_date : Value → Bool
is_date (date t) = true
is_date (str s) = is_iso s
is_date undefined = false
is_date null = false
is_date (bool b) = false
is_date (num n) = false
is_date (frac t) = false
is_date (arr vs) = false
is_date (obj fs) = false

-- `value.$date` of an object; only a plain object has that property.
unfoldable pub date_property : Value → Value
date_property (obj fs) = get "$date" (entries fs)
date_property undefined = undefined
date_property null = undefined
date_property (bool b) = undefined
date_property (num n) = undefined
date_property (frac t) = undefined
date_property (str s) = undefined
date_property (date t) = undefined
date_property (arr vs) = undefined

module _ (c : Calendar) where
  -- `new Date(value)`
  unfoldable pub new_date : Value → Value
  new_date v = date (c.of_value v)

  unfoldable pub patch_velo_date_value : Value → Value
  unfolding is_date date_property is_object new_date
  patch_velo_date_value v =
      if is_object v && is_date (date_property v) then new_date (date_property v) else v

-- ===== src/Commons/Values.antt =====
-- The JavaScript values that pass through the program, and what data_commons.ts tests of them.
-- An object is its list of own entries in order; JavaScript's rule that keys which are integers
-- come first in that order is not modelled. A number is an integer, or a finite number that is not
-- an integer, given by its decimal text. A `Date` is its time value, `none` for an invalid date.
pub mod Laws
use velo_external_db.Base.{
  ℕ, String, Bool, true, false, not, Option, List, [], ◌∷◌, ◌==◌, if◌then◌else◌,
}

-- `negsuc n` is -(n + 1).
pub data ℤ : Type 0 where
  pos negsuc : ℕ → ℤ

mutual
  pub data Value : Type 0 where
    undefined null : Value
    bool : Bool → Value
    num : ℤ → Value
    frac str : String → Value
    date : Option ℤ → Value
    obj : Fields → Value
    arr : Items → Value

  pub data Fields : Type 0 where
    end : Fields
    field : String → Value → Fields → Fields

  pub data Items : Type 0 where
    nil : Items
    cons : Value → Items → Items

-- An item: the entries of an object.
abbrev pub Item : Type 0
Item = List (String × Value)

abbrev pub entries : Fields → Item
entries end = []
entries (field k v fs) = (k, v) ∷ entries fs

abbrev pub of_entries : Item → Fields
of_entries [] = end
of_entries ((k, v) ∷ kvs) = field k v (of_entries kvs)

abbrev pub values : Items → List Value
values nil = []
values (cons v vs) = v ∷ values vs

-- A value as a condition.
unfoldable pub is_truthy : Value → Bool
is_truthy undefined = false
is_truthy null = false
is_truthy (bool b) = b
is_truthy (num (pos ℕ.zero)) = false
is_truthy (num n) = true
is_truthy (frac t) = true
is_truthy (str s) = not (s == "")
is_truthy (date t) = true
is_truthy (arr vs) = true
is_truthy (obj fs) = true

-- `typeof o === 'object' && o !== null`
unfoldable pub is_object : Value → Bool
is_object (date t) = true
is_object (arr vs) = true
is_object (obj fs) = true
is_object undefined = false
is_object null = false
is_object (bool b) = false
is_object (num n) = false
is_object (frac t) = false
is_object (str s) = false

-- `value === null || value === undefined`
unfoldable pub is_null : Value → Bool
is_null undefined = true
is_null null = true
is_null (bool b) = false
is_null (num n) = false
is_null (frac t) = false
is_null (str s) = false
is_null (date t) = false
is_null (arr vs) = false
is_null (obj fs) = false

-- `item[key]`
unfoldable pub get : String → Item → Value
get key [] = undefined
get key ((k, v) ∷ kvs) = if k == key then v else get key kvs

-- `key in item`, for an own key
unfoldable pub has_key : String → Item → Bool
has_key key [] = false
has_key key ((k, v) ∷ kvs) = if k == key then true else has_key key kvs

-- `item[key] = v`, and `{ ...item, [key]: v }`: an old key keeps its place.
unfoldable pub put : String → Value → Item → Item
put key v [] = (key, v) ∷ []
put key v ((k, w) ∷ kvs) = if k == key then (key, v) ∷ kvs else (k, w) ∷ put key v kvs

-- `Object.keys(item)`
abbrev pub keys : Item → List String
keys [] = []
keys ((k, v) ∷ kvs) = k ∷ keys kvs

-- ===== src/Service/Data/Answers.antt =====
-- What the data service answers about each item.
use velo_external_db.Base.{
  ℕ, suc, String, ◌≡◌, refl, ap, Option, none, some, List, [], ◌∷◌, ok, err, ◌>>=◌ as and_then,
  length,
}
use velo_external_db.Commons.Values.{Item}
use velo_external_db.Commons.Errors.{Result}
use velo_external_db.Commons.Effects.{proceed, promise_all, ◌>>=◌}
use velo_external_db.Commons.Runtime.{Runtime}
use velo_external_db.Types.{ResponseField}
use velo_external_db.Converters.WixData.{as_wix_data}
use velo_external_db.Converters.WixData.Idempotent.{as_wix_data_idempotent}
use velo_external_db.Service.Storage.{DataProvider}
use velo_external_db.Service.Data.{
  answered, not_there, first_packed, packed_again, get_by_id_filter_for, get_by_id, insert_one,
  bulk_insert, update_one, bulk_update, look_up,
}

-- Every call returns: there is one result for each argument.
abbrev pub Answered : {S A : Type 0} → Result (List A) × S → ℕ → Type 0
Answered {S} {A} res n = (as' : List A) × (s : S) × (res ≡ (ok as', s)) × (length as' ≡ n)

all-Answered :
    {S A B : Type 0} (f : A → S → B × S) (xs : List A) (s : S)
    → Answered (promise_all (λ x t. (ok (f x t).0, (f x t).1)) xs s) (length xs)
unfolding promise_all
all-Answered f [] s = ([], s, refl, refl)
all-Answered f (x ∷ xs) s =
    let (as', s', e, n) = all-Answered f xs (f x s).1 in ((f x s).0 ∷ as', s', rw e refl, ap suc n)

module _ {S : Type 0} (r : Runtime) (storage : DataProvider S) where
  -- Whatever the storage does, errors included, `bulkInsert` and `bulkUpdate` return, with exactly
  -- one answer for each item.
  pub bulk_answers :
      (name : String) (items : List Item) (fields : Option (List ResponseField)) (s : S)
      → Answered (bulk_insert r storage name items fields s) (length items)
        × Answered (bulk_update r storage name items s) (length items)
  unfolding bulk_insert bulk_update insert_one update_one
  bulk_answers name items fields s = (all-Answered _ items s, all-Answered _ items s)

  -- what is answered about an item that is to be deleted, if it is there as `i`
  abbrev pub deleted : String → String → Option Item → Result Item
  deleted name id none = err (not_there name id)
  deleted name id (some i) = ok i

  packed_twice :
      (name id : String) (found : Result (List Item)) (s : S)
      → and_then
          (proceed found s (λ is t. (first_packed r storage is, t))).0
          (packed_again r storage name id)
        ≡ and_then (proceed found s (λ is t. (first_packed r storage is, t))).0 (deleted name id)
  packed_twice name id (err e) s = refl
  packed_twice name id (ok []) s = refl
  packed_twice name id (ok (i ∷ is)) s = packed (as_wix_data r i) refl
    where
      packed :
          (p : Result Item)
          → as_wix_data r i ≡ p
          → and_then (and_then p (λ q. ok (some q))) (packed_again r storage name id)
            ≡ and_then (and_then p (λ q. ok (some q))) (deleted name id)
      packed (err e) h = refl
      packed (ok w) h = (as_wix_data_idempotent r i w h).1

  -- `bulkDelete` answers about an item with what `getById` found, as it is: packing it once more
  -- changes nothing.
  pub look_up_lem :
      (name id : String) (projection : List String) (s : S)
      → look_up r storage name projection id s ≡ (
        ok (answered (and_then (get_by_id r storage name id projection s).0 (deleted name id))),
        (get_by_id r storage name id projection s).1,
      )
  unfolding look_up get_by_id get_by_id_filter_for ◌>>=◌
  look_up_lem name id projection s =
      let res = storage.find name (get_by_id_filter_for id) [] 0 1 projection s in
      ap (λ x. (ok (answered x), (get_by_id r storage name id projection s).1))
        (packed_twice name id res.0 res.1)

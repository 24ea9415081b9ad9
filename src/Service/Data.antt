-- ===== src/Service/Data.antt =====
-- service/data.ts: items between the schema-aware service and the adapter of a storage. Calls that
-- are started together run one after the other, in the order in which they are started. A sort or a
-- projection that is no list is an empty one.
pub mod Answers
use velo_external_db.Base.{
  ℕ, String, Bool, true, false, Option, none, some, List, [], ◌∷◌, ok, err, traverse,
  ◌>>=◌ as and_then, ◌&◌, eqb, if◌then◌else◌,
}
use velo_external_db.Commons.Values.{Value, str, Item, get}
use velo_external_db.Commons.Errors.{Error, Result, item_does_not_exist}
use velo_external_db.Commons.Effects.{Exec, pure, lift, promise_all, ◌>>=◌, ◌>>◌}
use velo_external_db.Commons.Operators.{eq}
use velo_external_db.Commons.Runtime.{Runtime}
use velo_external_db.Commons.Text.{template_text, text_of}
use velo_external_db.Types.{AdapterFilter, single, Sort, ResponseField}
use velo_external_db.Converters.Validation.{Aggregation}
use velo_external_db.Converters.WixData.{as_wix_data}
use velo_external_db.Service.Storage.{DataProvider}
use velo_external_db.Web.Errors.{ErrorCode, domain_to_spi_error_object_translator}

-- `{ item }` or `{ error }`, as an answer about one item
pub data ItemAnswer : Type 0 where
  item : Item → ItemAnswer
  error : ErrorCode × String × List (String × String) → ItemAnswer

pub record Found : Type 0 where
  pub items : List Item
  pub total_count : Option ℕ

unfoldable pub get_by_id_filter_for : String → AdapterFilter
get_by_id_filter_for item_id = single eq "_id" (str item_id)

-- `.catch(e => domainToSpiErrorObjectTranslator(e))`
abbrev pub answered : Result Item → ItemAnswer
answered (ok i) = item i
answered (err e) = error (domain_to_spi_error_object_translator e)

abbrev pub not_there : String → String → Error
not_there collection_name item_id =
    item_does_not_exist ("Item doesn't exists: " & item_id) collection_name item_id

module _ {S : Type 0} (r : Runtime) (storage : DataProvider S) where
  -- a count that is started only if it is asked for
  abbrev pub count_if : Bool → String → AdapterFilter → Exec S (Option ℕ)
  count_if true collection_name filter = do n ← storage.count collection_name filter; pure (some n)
  count_if false collection_name filter = pure none

  -- the items are awaited and packed first, then the count
  abbrev pub found : Result (List Item) → Result (Option ℕ) → Result Found
  found items total = and_then items λ is.
      and_then (traverse (as_wix_data r) is)
        λ packed. and_then total λ n. ok (record { items = packed; total_count = n })

  unfoldable pub find :
      String → AdapterFilter → List Sort → ℕ → ℕ → List String → Bool → Exec S Found
  unfolding as_wix_data
  find collection_name filter sort skip limit projection return_total_count s =
      let (items, s') = storage.find collection_name filter sort skip limit projection s in
      let (total, s'') = count_if return_total_count collection_name filter s' in
      (found items total, s'')

  -- `item[0] ? asWixDataItem(item[0]) : { item: null }`
  abbrev first_packed : List Item → Result (Option Item)
  first_packed [] = ok none
  first_packed (i ∷ is) = and_then (as_wix_data r i) λ packed. ok (some packed)

  unfoldable pub get_by_id : String → String → List String → Exec S (Option Item)
  unfolding as_wix_data get_by_id_filter_for
  get_by_id collection_name item_id projection = do
    items ← storage.find collection_name (get_by_id_filter_for item_id) [] 0 1 projection
    lift (first_packed items)

  unfoldable pub count : String → AdapterFilter → Exec S ℕ
  count collection_name filter = storage.count collection_name filter

  -- one item of `bulkInsert`
  unfoldable pub insert_one : String → Option (List ResponseField) → Item → Exec S ItemAnswer
  unfolding as_wix_data
  insert_one collection_name fields i s =
      let (done, s') = storage.insert collection_name (i ∷ []) fields false s in
      (ok (answered (and_then done λ _. as_wix_data r i)), s')

  unfoldable pub bulk_insert :
      String → List Item → Option (List ResponseField) → Exec S (List ItemAnswer)
  unfolding insert_one promise_all
  bulk_insert collection_name items fields = promise_all (insert_one collection_name fields) items

  -- `resp.items[0]`
  abbrev first_answer : List ItemAnswer → Option ItemAnswer
  first_answer [] = none
  first_answer (a ∷ as') = some a

  unfoldable pub insert : String → Item → Option (List ResponseField) → Exec S (Option ItemAnswer)
  unfolding bulk_insert
  insert collection_name i fields = do
    answers ← bulk_insert collection_name (i ∷ []) fields
    pure (first_answer answers)

  unfoldable pub bulk_upsert : String → List Item → Option (List ResponseField) → Exec S (List Item)
  unfolding as_wix_data
  bulk_upsert collection_name items fields = do
    n ← storage.insert collection_name items fields true
    lift (traverse (as_wix_data r) items)

  -- one affected row, or the item is not there; `itemId ?? ''` is what an array prints of it
  abbrev updated : String → Item → ℕ → Result Item
  updated collection_name i affected_rows =
      if eqb affected_rows 1
      then as_wix_data r i
      else err (
          item_does_not_exist ("Item doesn't exists: " & template_text r (get "_id" i))
            collection_name (text_of r (get "_id" i)))

  unfoldable pub update_one : String → Item → Exec S ItemAnswer
  unfolding as_wix_data template_text text_of
  update_one collection_name i s =
      let (affected, s') = storage.update collection_name (i ∷ []) s in
      (ok (answered (and_then affected (updated collection_name i))), s')

  unfoldable pub bulk_update : String → List Item → Exec S (List ItemAnswer)
  unfolding update_one promise_all
  bulk_update collection_name items = promise_all (update_one collection_name) items

  unfoldable pub update : String → Item → Exec S (Option ItemAnswer)
  unfolding bulk_update
  update collection_name i = do
    answers ← bulk_update collection_name (i ∷ [])
    pure (first_answer answers)

  -- An item that was found is packed once more.
  abbrev packed_again : String → String → Option Item → Result Item
  packed_again collection_name item_id none = err (not_there collection_name item_id)
  packed_again collection_name item_id (some i) = as_wix_data r i

  unfoldable pub look_up : String → List String → String → Exec S ItemAnswer
  unfolding get_by_id
  look_up collection_name fields item_id s =
      let (i, s') = get_by_id collection_name item_id fields s in
      (ok (answered (and_then i (packed_again collection_name item_id))), s')

  unfoldable pub bulk_delete : String → List String → List String → Exec S (List ItemAnswer)
  unfolding look_up promise_all
  bulk_delete collection_name item_ids fields = do
    items ← promise_all (look_up collection_name fields) item_ids
    n ← storage.delete collection_name item_ids
    pure items

  unfoldable pub delete : String → String → List String → Exec S (Option ItemAnswer)
  unfolding bulk_delete
  delete collection_name item_id fields = do
    answers ← bulk_delete collection_name (item_id ∷ []) fields
    pure (first_answer answers)

  unfoldable pub truncate : String → Exec S (Unit {0})
  truncate collection_name = storage.truncate collection_name

  -- `(await this.storage.aggregate?.(...)) || []`
  abbrev aggregated :
      Option (String → AdapterFilter → Aggregation → List Sort → ℕ → ℕ → Exec S (List Item))
      → String
      → AdapterFilter
      → Aggregation
      → List Sort
      → ℕ
      → ℕ
      → Exec S (List Item)
  aggregated none collection_name filter aggregation sort skip limit = pure []
  aggregated (some f) collection_name filter aggregation sort skip limit =
      f collection_name filter aggregation sort skip limit

  -- the count is started first
  unfoldable pub aggregate :
      String → AdapterFilter → Aggregation → List Sort → ℕ → ℕ → Bool → Exec S Found
  unfolding as_wix_data
  aggregate collection_name filter aggregation sort skip limit return_total_count s =
      let (total, s') = count_if return_total_count collection_name filter s in
      let (items, s'') =
        aggregated storage.aggregate collection_name filter aggregation sort skip limit s' in
      (found items total, s'')

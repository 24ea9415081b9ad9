-- ===== src/Web/Router.antt =====
-- The handlers of router.ts for items. A hook of one payload is taken from the table for payloads of
-- its type; the request of a client is read into the type that the handler takes.
pub mod Paging
pub mod Stopped
use velo_external_db.Base.{ℕ, String, Bool, Option, none, some, List, [], ◌∷◌, length, ok, err}
use velo_external_db.Commons.Values.{Value, str, obj, arr, field, end, cons, nil, Item}
use velo_external_db.Commons.Errors.{Error, Result}
use velo_external_db.Commons.Effects.{Exec, pure, lift, ◌>>=◌, ◌>>◌}
use velo_external_db.Commons.Runtime.{Runtime}
use velo_external_db.Types.{AdapterFilter, Sort}
use velo_external_db.Converters.Filter.{transform, transform_sort}
use velo_external_db.Converters.Aggregation.{GroupedOperations}
use velo_external_db.Converters.Aggregation as AggregationTransformer
use velo_external_db.Service.Storage.{SchemaProvider, DataProvider, NodeCache}
use velo_external_db.Service.Data.{Found, ItemAnswer}
use velo_external_db.Service.SchemaAwareData as SchemaAware
use velo_external_db.Web.Errors.{ErrorCode, error_middleware}
use velo_external_db.Web.Hooks.{
  HookTable, DataAction, before_query, after_query, before_count, after_count, before_aggregate,
  after_aggregate, before_insert, after_insert, before_update, after_update, before_remove,
  after_remove, before_truncate, after_truncate, execute_data_hooks_for,
}

-- `Paging`
pub record Page : Type 0 where
  pub offset : ℕ
  pub limit : ℕ

pub record QueryRequest : Type 0 where
  pub collection_id : String
  pub filter : Value
  pub sort : Option Value
  pub paging : Option Page
  pub fields : List String
  pub return_total_count : Bool

pub record CountRequest : Type 0 where
  pub collection_id : String
  pub filter : Value

pub record AggregateRequest : Type 0 where
  pub collection_id : String
  pub initial_filter : Value
  pub aggregation : Option GroupedOperations
  pub final_filter : Value
  pub sort : Value
  pub paging : Option Page
  pub return_total_count : Bool

-- `InsertRequest` and `UpdateRequest`
pub record ItemsRequest : Type 0 where
  pub collection_id : String
  pub items : List Item

pub record RemoveRequest : Type 0 where
  pub collection_id : String
  pub item_ids : List String

-- The items of a query or an aggregation, with the metadata of their page.
pub record ItemsResponse : Type 0 where
  pub items : List Item
  pub count : ℕ
  pub offset : ℕ
  pub total : Option ℕ

pub data Response (A : Type 0) : Type 0 where
  json : A → Response A
  error : ℕ × ErrorCode × List (String × String) → Response A

abbrev pub responded : {A : Type 0} → Result A → Response A
responded (ok a) = json a
responded (err e) = error (error_middleware e)

-- `try { ... } catch (e) { next(e) }`, with the middleware that the error comes to
unfoldable pub handled : {W A : Type 0} → Exec W A → W → Response A × W
unfolding error_middleware
handled handler w = (responded (handler w).0, (handler w).1)

-- `paging ? paging.offset : 0` and `paging ? paging.limit : 50`
unfoldable pub offset_of : Option Page → ℕ
offset_of none = 0
offset_of (some p) = p.offset

unfoldable pub limit_of : Option Page → ℕ
limit_of none = 50
limit_of (some p) = p.limit

-- `query.sort ? query.sort : [{ fieldName: '_id', order: 'ASC' }]`
unfoldable pub sort_of : Option Value → Value
sort_of none = arr (cons (obj (field "fieldName" (str "_id") (field "order" (str "ASC") end))) nil)
sort_of (some v) = v

abbrev pub page_of : Option Page → Found → ItemsResponse
page_of paging found = record {
  items = found.items;
  count = length found.items;
  offset = offset_of paging;
  total = found.total_count;
}

module _ {S C : Type 0} (r : Runtime) (provider : SchemaProvider S) (cache : NodeCache C)
    (storage : DataProvider S) where
  -- the hooks before an action, the action, and the hooks after it
  abbrev pub with_hooks :
      {P Q : Type 0}
      → HookTable (S × C) P
      → HookTable (S × C) Q
      → DataAction
      → DataAction
      → (P → Exec (S × C) Q)
      → P
      → Exec (S × C) Q
  with_hooks before after first last action payload = do
    request ← execute_data_hooks_for before first payload
    data_found ← action request
    execute_data_hooks_for after last data_found

  -- what the query asks of the service
  unfoldable pub run_query : QueryRequest → Exec (S × C) Found
  unfolding transform transform_sort sort_of offset_of limit_of SchemaAware.find
  run_query request = do
    filter ← lift (transform r.calendar request.filter)
    sort ← lift (transform_sort (sort_of request.sort))
    SchemaAware.find r provider cache storage request.collection_id filter sort
        (offset_of request.paging) (limit_of request.paging) request.fields
        request.return_total_count

  -- `/v3/items/query`
  unfoldable pub query_items :
      HookTable (S × C) QueryRequest
      → HookTable (S × C) Found
      → QueryRequest
      → Exec (S × C) ItemsResponse
  unfolding execute_data_hooks_for run_query
  query_items before after payload = do
    request ← execute_data_hooks_for before before_query payload
    data_found ← run_query request
    answer ← execute_data_hooks_for after after_query data_found
    pure (page_of request.paging answer)

  unfoldable pub run_count : CountRequest → Exec (S × C) ℕ
  unfolding transform SchemaAware.count
  run_count request = do
    filter ← lift (transform r.calendar request.filter)
    SchemaAware.count r provider cache storage request.collection_id filter

  -- `/v3/items/count`
  unfoldable pub count_items :
      HookTable (S × C) CountRequest → HookTable (S × C) ℕ → CountRequest → Exec (S × C) ℕ
  unfolding execute_data_hooks_for run_count
  count_items before after payload =
      with_hooks before after before_count after_count run_count payload

  -- `/v3/items/insert`; `draws` is the number of identifiers and times drawn before
  unfoldable pub insert_items :
      HookTable (S × C) ItemsRequest
      → HookTable (S × C) (List ItemAnswer)
      → ℕ
      → ItemsRequest
      → Exec (S × C) (List ItemAnswer)
  unfolding execute_data_hooks_for SchemaAware.bulk_insert
  insert_items before after draws payload =
      with_hooks before after before_insert after_insert
        (λ request.
          SchemaAware.bulk_insert r provider cache storage request.collection_id request.items
            draws)
        payload

  -- `/v3/items/update`
  unfoldable pub update_items :
      HookTable (S × C) ItemsRequest
      → HookTable (S × C) (List ItemAnswer)
      → ItemsRequest
      → Exec (S × C) (List ItemAnswer)
  unfolding execute_data_hooks_for SchemaAware.bulk_update
  update_items before after payload =
      with_hooks before after before_update after_update
        (λ request.
          SchemaAware.bulk_update r provider cache storage request.collection_id request.items)
        payload

  -- `/v3/items/remove`
  unfoldable pub remove_items :
      HookTable (S × C) RemoveRequest
      → HookTable (S × C) (List ItemAnswer)
      → RemoveRequest
      → Exec (S × C) (List ItemAnswer)
  unfolding execute_data_hooks_for SchemaAware.bulk_delete
  remove_items before after payload =
      with_hooks before after before_remove after_remove
        (λ request.
          SchemaAware.bulk_delete r provider cache storage request.collection_id request.item_ids)
        payload

  unfoldable pub run_aggregate : AggregateRequest → Exec (S × C) Found
  unfolding transform AggregationTransformer.transform transform_sort offset_of limit_of
      SchemaAware.aggregate
  run_aggregate request = do
    filter ← lift (transform r.calendar request.initial_filter)
    aggregation ←
        lift (AggregationTransformer.transform r.calendar request.aggregation request.final_filter)
    sort ← lift (transform_sort request.sort)
    SchemaAware.aggregate r provider cache storage request.collection_id filter aggregation sort
        (offset_of request.paging) (limit_of request.paging) request.return_total_count

  -- `/v3/items/aggregate`
  unfoldable pub aggregate_items :
      HookTable (S × C) AggregateRequest
      → HookTable (S × C) Found
      → AggregateRequest
      → Exec (S × C) ItemsResponse
  unfolding execute_data_hooks_for run_aggregate
  aggregate_items before after payload = do
    request ← execute_data_hooks_for before before_aggregate payload
    data_found ← run_aggregate request
    answer ← execute_data_hooks_for after after_aggregate data_found
    pure (page_of request.paging answer)

  -- `/v3/items/truncate`, whose answer is empty whatever the hooks make of it
  unfoldable pub truncate_items :
      HookTable (S × C) String → HookTable (S × C) (Unit {0}) → String → Exec (S × C) (Unit {0})
  unfolding execute_data_hooks_for SchemaAware.truncate
  truncate_items before after payload = do
    collection_id ← execute_data_hooks_for before before_truncate payload
    SchemaAware.truncate r provider cache storage collection_id
    execute_data_hooks_for after after_truncate tt
    pure tt

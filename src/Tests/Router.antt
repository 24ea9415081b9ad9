-- ===== src/Tests/Router.antt =====
-- Aggregations, indexes and the handlers of the router at concrete inputs.
use velo_external_db.Base.{
  Option, ℕ, ◌≤◌, false, true, none, some, List, [], ◌∷◌, map, ok, length, ◌≡◌, refl, ◌↔◌, inl, inr,
  arith, subst, ok-injective,
}
use velo_external_db.Commons.Values.{str, undefined, obj, end, Item}
use velo_external_db.Commons.Errors.{Error, other_error}
use velo_external_db.Commons.Effects.{Exec, Returns, throw, ◌>>=◌}
use velo_external_db.Converters.Validation.{Aggregation, typed, validate_aggregation}
use velo_external_db.Converters.Aggregation.{GroupedOperations, transform}
use velo_external_db.Converters.Aggregation.Valid.{aggregation_passes}
use velo_external_db.Service.Storage.{DataProvider}
use velo_external_db.Service.Indexes.{
  failed, asc, desc, SpiIndex, DomainIndex, spi_index_to_domain_index, domain_index_to_spi_index,
}
use velo_external_db.Service.Indexes.RoundTrip.{
  ThereAndBack, Uniform, ThereAndBack-Uniform, back_and_there,
}
use velo_external_db.Web.Errors.{error_middleware}
use velo_external_db.Web.Hooks.{
  HookTable, execute_hooks, execute_hook, find_hook, data_hooks_for_action, rethrown,
}
use velo_external_db.Web.Router.{QueryRequest, ItemsRequest, query_items, error}
use velo_external_db.Web.Router.Paging.{Limits, PageOf, page_bounds}
use velo_external_db.Web.Router.Stopped.{failed_hook_stops, respond, insertion}
use velo_external_db.Tests.World.{epoch, runtime, provider, cache, storage, Database, Cache, known}
use velo_external_db.Tests.DataServices.{fields, stock}

abbrev ages : GroupedOperations
ages = record {
  grouping_fields = "_id" ∷ [];
  operations =
      record { result_field_name = "oldest"; calculate = some ("max", "age") }
      ∷ record { result_field_name = "many"; calculate = some ("count", "") }
      ∷ [];
}

aggregation_passes_example :
    (g : Aggregation) × (transform epoch (some ages) undefined ≡ ok (some g))
    × (validate_aggregation (map typed fields) g ≡ ok tt)
aggregation_passes_example =
    aggregation_passes epoch (map typed fields) ages
      ((inl refl, tt), (inr (inr (inl refl), inr (inl refl)), (inl refl, tt)))

abbrev by_age : SpiIndex
by_age = record {
  name = "by_age";
  fields = record { path = "age"; order = desc } ∷ record { path = "name"; order = asc } ∷ [];
  unique = false;
  case_insensitive = true;
  status = none;
  failure = none;
}

ThereAndBack-Uniform_example :
    ThereAndBack by_age ↔ Uniform by_age.fields by_age.status by_age.failure
ThereAndBack-Uniform_example = ThereAndBack-Uniform by_age

abbrev domain_index : DomainIndex
domain_index = record {
  name = "by_age";
  columns = "age" ∷ "name" ∷ [];
  is_unique = false;
  case_insensitive = true;
  order = desc;
  status = none;
  error = none;
}

abbrev failed_index : DomainIndex
failed_index = record {
  name = "by_age";
  columns = "age" ∷ "name" ∷ [];
  is_unique = false;
  case_insensitive = true;
  order = desc;
  status = some failed;
  error = some (str "disk full");
}

back_and_there_example :
    spi_index_to_domain_index (domain_index_to_spi_index failed_index) ≡ ok domain_index
back_and_there_example = back_and_there failed_index "age" ("name" ∷ []) refl

abbrev first_item : ℕ → List Item
first_item ℕ.zero = []
first_item (ℕ.suc n) = known ∷ []

abbrev limited : DataProvider Database
limited = record {
  find = λ name f sort skip limit projection s. (ok (first_item limit), s);
  count = storage.count;
  insert = storage.insert;
  update = storage.update;
  delete = storage.delete;
  truncate = storage.truncate;
  aggregate = none;
}

first_item-length : (limit : ℕ) → length (first_item limit) ≤ limit
first_item-length ℕ.zero = omega arith
first_item-length (ℕ.suc n) = omega arith

abbrev limited_Limits : Limits limited
limited_Limits name f sort skip limit projection s items h =
    subst (λ is. length is ≤ limit) (ok-injective h) (first_item-length limit)

abbrev all_items : QueryRequest
all_items = record {
  collection_id = "stock";
  filter = obj end;
  sort = none;
  paging = none;
  fields = [];
  return_total_count = false;
}

page_bounds_example :
    Returns
      (λ page. (page.count ≡ length page.items) × PageOf all_items.paging page)
      (query_items runtime provider cache limited [] [] all_items (some stock, [])).0
page_bounds_example =
    page_bounds runtime provider cache limited limited_Limits all_items (some stock, [])

abbrev World : Type 0
World = Database × Cache

abbrev refuse : ItemsRequest → Exec World (Option ItemsRequest)
refuse p = throw (other_error "refused" (some 400))

abbrev refusing : HookTable World ItemsRequest
refusing = ("beforeWrite", refuse) ∷ []

abbrev refused : Error
refused = other_error "refused" (some 400)

abbrev sent : ItemsRequest
sent = record { collection_id = "stock"; items = known ∷ [] }

failed_hook_stops_example :
    respond runtime provider cache storage insertion refusing [] 0 sent (some stock, [])
    ≡ (error (error_middleware (rethrown refused)), (some stock, []))
unfolding execute_hooks execute_hook find_hook data_hooks_for_action ◌>>=◌
failed_hook_stops_example =
    failed_hook_stops runtime provider cache storage insertion refusing [] 0 ("beforeAll" ∷ [])
      ("beforeInsert" ∷ []) "beforeWrite" refuse sent sent refused (some stock, []) (some stock, [])
      (some stock, []) refl refl refl refl

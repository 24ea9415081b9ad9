-- ===== src/Web/Router/Paging.antt =====
-- The pages of a query: a page has at most as many items as its limit, or 50.
use velo_external_db.Base.{
  ℕ, suc, ◌≤◌, String, Bool, ◌≡◌, refl, sym, ap, ◌∙◌, subst, Option, none, some, List, [], ◌∷◌, ok,
  err, length, length-map, traverse, ok-injective, arith,
}
use velo_external_db.Base.{>>=-eq-ok}
use velo_external_db.Commons.Values.{Item}
use velo_external_db.Commons.Errors.{Result}
use velo_external_db.Commons.Effects.{Returns, Returns-ok, ◌>>=◌, >>=-ok, proceed-ok}
use velo_external_db.Commons.Runtime.{Runtime}
use velo_external_db.Types.{AdapterFilter, Sort}
use velo_external_db.Converters.WixData.{as_wix_data}
use velo_external_db.Converters.Items.{patch_items, patch_item}
use velo_external_db.Service.Storage.{SchemaProvider, DataProvider, NodeCache}
use velo_external_db.Service.Data.{Found}
use velo_external_db.Service.Data as Data
use velo_external_db.Service.SchemaAwareData as SchemaAware
use velo_external_db.Web.Hooks.{
  data_hooks_for_action, find_hook, execute_hook, execute_hooks, execute_data_hooks_for,
}
use velo_external_db.Web.Router.{
  Page, QueryRequest, ItemsResponse, limit_of, offset_of, page_of, run_query, query_items,
}

-- The adapter gives at most as many items as it is asked for.
abbrev pub Limits : {S : Type 0} → DataProvider S → Type 0
Limits {S} storage =
    (name : String) (f : AdapterFilter) (sort : List Sort) (skip limit : ℕ)
    (projection : List String) (s : S) (items : List Item)
    → (storage.find name f sort skip limit projection s).0 ≡ ok items
    → length items ≤ limit

-- The page that was asked for, or at most 50 items from the first one.
abbrev pub PageOf : Option Page → ItemsResponse → Type 0
PageOf none page = (page.count ≤ 50) × (page.offset ≡ 0)
PageOf (some p) page = (page.count ≤ p.limit) × (page.offset ≡ p.offset)

limits-PageOf :
    (paging : Option Page) (page : ItemsResponse)
    → page.count ≤ limit_of paging
    → page.offset ≡ offset_of paging
    → PageOf paging page
unfolding limit_of offset_of
limits-PageOf none page h e = (h, e)
limits-PageOf (some p) page h e = (h, e)

length-traverse :
    {A B : Type 0} (f : A → Result B) (xs : List A) (ys : List B)
    → traverse f xs ≡ ok ys
    → length ys ≡ length xs
length-traverse f [] ys h = sym (ap length (ok-injective h))
length-traverse f (x ∷ xs) ys h =
    let (y, e, rest) = >>=-eq-ok (f x) _ h in
    let (zs, e', whole) = >>=-eq-ok (traverse f xs) _ rest in
    sym (ap length (ok-injective whole)) ∙ ap suc (length-traverse f xs zs e')

found-length :
    {S : Type 0} (r : Runtime) (storage : DataProvider S) (items : Result (List Item))
    (total : Result (Option ℕ)) (f : Found)
    → Data.found r storage items total ≡ ok f
    → (raw : List Item) × (items ≡ ok raw) × (length f.items ≡ length raw)
found-length r storage (err e) total f h = cc
found-length r storage (ok raw) (ok n) f h =
    let (packed, e, whole) = >>=-eq-ok (traverse (as_wix_data r) raw) _ h in
    (
      raw,
      refl,
      sym (ap (λ x. length x.items) (ok-injective whole))
          ∙ length-traverse (as_wix_data r) raw packed e,
    )
found-length r storage (ok raw) (err x) f h =
    let (packed, e, whole) = >>=-eq-ok (traverse (as_wix_data r) raw) _ h in cc

module _ {S C : Type 0} (r : Runtime) (provider : SchemaProvider S) (cache : NodeCache C)
    (storage : DataProvider S) (limits : Limits storage) where
  data-limit :
      (name : String) (f : AdapterFilter) (sort : List Sort) (skip limit : ℕ)
      (projection : List String) (total : Bool) (s : S) (found : Found)
      → (Data.find r storage name f sort skip limit projection total s).0 ≡ ok found
      → length found.items ≤ limit
  unfolding Data.find
  data-limit name f sort skip limit projection total s found h =
      let (raw, e, same) =
        found-length r storage (storage.find name f sort skip limit projection s).0
          (Data.count_if r storage total name f
            (storage.find name f sort skip limit projection s).1).0
          found h in
      omega (arith, limits name f sort skip limit projection s raw e, same)

  -- the query of the schema-aware service
  find-limit :
      (name : String) (f : AdapterFilter) (sort : List Sort) (skip limit : ℕ) (asked : List String)
      (total : Bool) (w : S × C) (found : Found)
      → (SchemaAware.find r provider cache storage name f sort skip limit asked total w).0
        ≡ ok found
      → length found.items ≤ limit
  unfolding SchemaAware.find patch_items
  find-limit name f sort skip limit asked total w found h =
      let (fields, e1, _, h1) = >>=-ok _ _ w h in
      let (u, e2, _, h2) = >>=-ok _ _ _ h1 in
      let (projection, e3, _, h3) = >>=-ok _ _ _ h2 in
      let (v, e4, _, h4) = >>=-ok _ _ _ h3 in
      let (raw, e5, _, h5) = >>=-ok _ _ _ h4 in
      subst (λ n. n ≤ limit)
        (sym (length-map (patch_item r fields) raw.items)
          ∙ ap (λ x. length x.items) (ok-injective h5))
        (data-limit name f sort skip limit projection total _ raw e5)

  run_query-limit :
      (q : QueryRequest) (w : S × C) (found : Found)
      → (run_query r provider cache storage q w).0 ≡ ok found
      → length found.items ≤ limit_of q.paging
  unfolding run_query
  run_query-limit q w found h =
      let (f, _, _, h1) = >>=-ok _ _ w h in
      let (sort, _, _, h2) = >>=-ok _ _ _ h1 in
      find-limit _ _ _ _ (limit_of q.paging) q.fields _ _ found h2

  -- without hooks a query is answered with what was found
  page_found :
      (q : QueryRequest) (w : S × C) (page : ItemsResponse)
      → (query_items r provider cache storage [] [] q w).0 ≡ ok page
      → (found : Found) × ((run_query r provider cache storage q w).0 ≡ ok found)
        × (page_of q.paging found ≡ page)
  unfolding query_items execute_data_hooks_for execute_hooks execute_hook find_hook
      data_hooks_for_action ◌>>=◌
  page_found q w page h =
      let asked = run_query r provider cache storage q w in
      let (found, e, same) = proceed-ok asked.0 asked.1 _ h in
      (found, e, ok-injective (sym (ap (λ x. x.0) same) ∙ h))

  -- If the adapter gives at most as many items as it is asked for, and there are no hooks, a query
  -- that returns gives a page whose count is the number of its items, and at most the limit of the
  -- request, or 50 if the request has no paging; its offset is that of the request, or 0.
  pub page_bounds :
      (q : QueryRequest) (w : S × C)
      → Returns
          (λ page. (page.count ≡ length page.items) × PageOf q.paging page)
          (query_items r provider cache storage [] [] q w).0
  page_bounds q w = Returns-ok _ (query_items r provider cache storage [] [] q w).0 λ page h.
      let (found, e, same) = page_found q w page h in
      (
        sym (ap (λ p. p.count) same) ∙ ap (λ p. length p.items) same,
        limits-PageOf q.paging page
            (subst (λ p. p.count ≤ limit_of q.paging) same (run_query-limit q w found e))
            (sym (ap (λ p. p.offset) same)),
      )

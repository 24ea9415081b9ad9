-- ===== src/Web/Payloads.antt =====
-- data_hooks_utils.ts and schema_hooks_utils.ts: what of the body of a request the hooks are given.
use velo_external_db.Base.{String, List, [], ◌∷◌, map, if◌then◌else◌}
use velo_external_db.Commons.Values.{Value, Item, arr, nil, cons, get, is_truthy}
use velo_external_db.Schemas.Operations.{
  DataOperation, query, count, aggregate, insert, update, remove,
}

-- `CollectionOperationSPI`
pub data CollectionOperation : Type 0 where
  get_collections create update_collection delete : CollectionOperation

-- the keys of the payload of an operation
unfoldable pub payload_keys : DataOperation → List String
payload_keys query =
    "collectionId" ∷ "query" ∷ "includeReferencedItems" ∷ "consistentRead" ∷ "returnTotalCount" ∷ []
payload_keys count = "collectionId" ∷ "filter" ∷ "consistentRead" ∷ []
payload_keys aggregate =
    "collectionId" ∷ "initialFilter" ∷ "aggregation" ∷ "finalFilter" ∷ "sort" ∷ "paging"
    ∷ "consistentRead" ∷ "returnTotalCount" ∷ []
payload_keys insert = "collectionId" ∷ "items" ∷ []
payload_keys update = "collectionId" ∷ "items" ∷ []
payload_keys remove = "collectionId" ∷ "itemIds" ∷ []
payload_keys operation = "collectionId" ∷ []

abbrev pub picked : List String → Item → Item
picked keys body = map (λ k. (k, get k body)) keys

-- `dataPayloadFor`
unfoldable pub data_payload_for : DataOperation → Item → Item
unfolding payload_keys get
data_payload_for operation body = picked (payload_keys operation) body

-- `schemaPayloadFor`
unfoldable pub schema_payload_for : CollectionOperation → Item → Item
unfolding get
schema_payload_for get_collections body = picked ("collectionIds" ∷ []) body
schema_payload_for create body = picked ("collection" ∷ []) body
schema_payload_for update_collection body = picked ("collection" ∷ []) body
schema_payload_for delete body = picked ("collectionId" ∷ []) body

-- `requestContextFor`, without the name of the operation: the identifiers of collections and the
-- metadata
unfoldable pub request_context_for : Item → Value × Value
unfolding get is_truthy
request_context_for body =
    let ids = get "collectionIds" body in
    (if is_truthy ids then ids else arr (cons (get "collectionId" body) nil), get "metadata" body)

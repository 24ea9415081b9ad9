-- ===== src/Tests/DataServices.antt =====
-- The data services at concrete inputs.
use velo_external_db.Base.{
  String, true, none, some, List, [], ◌∷◌, map, ok, err, ◌>>=◌ as and_then, ◌≡◌, refl, ◌↔◌, ◌⊎◌,
  inl, inr, Listed, Distinct, eq_iff, arith,
}
use velo_external_db.Commons.Values.{pos, num}
use velo_external_db.Commons.Errors.{Error}
use velo_external_db.Commons.Effects.{◌>>=◌}
use velo_external_db.Commons.Operators.{eq}
use velo_external_db.Types.{AdapterFilter, single, ResponseField}
use velo_external_db.Converters.Validation.{typed, validate_projection}
use velo_external_db.Converters.Validation.Sound.{Queryable}
use velo_external_db.Service.Storage.{Table}
use velo_external_db.Service.SchemaInformation.{schema_fields_for}
use velo_external_db.Service.Data.{answered, get_by_id, bulk_insert, bulk_update, look_up}
use velo_external_db.Service.Data.Answers.{Answered, deleted, bulk_answers, look_up_lem}
use velo_external_db.Service.SchemaAwareData.{or_all, projection_on, find, count}
use velo_external_db.Service.SchemaAwareData.Guarded.{unqueryable_stops}
use velo_external_db.Service.SchemaAwareData.Projection.{projection_on_lem}
use velo_external_db.Tests.World.{runtime, provider, cache, storage, Database, Cache, known, column}

abbrev pub fields : List ResponseField
fields = column "_id" "text" ∷ column "age" "number" ∷ []

abbrev pub stock : Table
stock = record { id = "stock"; fields = fields; capabilities = none }

bulk_answers_example :
    Answered (bulk_insert runtime storage "stock" (known ∷ [] ∷ []) (some fields) (some stock)) 2
    × Answered (bulk_update runtime storage "stock" (known ∷ [] ∷ []) (some stock)) 2
bulk_answers_example =
    bulk_answers runtime storage "stock" (known ∷ [] ∷ []) (some fields) (some stock)

look_up_example : look_up runtime storage "stock" [] "1" (some stock) ≡ (
  ok (
      answered (
        and_then
          (get_by_id runtime storage "stock" "1" [] (some stock)).0
          (deleted runtime storage "stock" "1"))),
  (get_by_id runtime storage "stock" "1" [] (some stock)).1,
)
look_up_example = look_up_lem runtime storage "stock" "1" [] (some stock)

projection_on_example :
    Distinct (projection_on ("age" ∷ []) fields)
    × (validate_projection (map typed fields) (projection_on ("age" ∷ []) fields) ≡ ok tt)
    × ((rest : List String) × (projection_on ("age" ∷ []) fields ≡ "_id" ∷ rest))
    × ((n : String)
        → Listed n (projection_on ("age" ∷ []) fields)
          ↔ (("_id" ≡ n) ⊎ Listed n (or_all ("age" ∷ []) fields)))
projection_on_example = projection_on_lem fields ("age" ∷ []) (inl refl) (inr (inl refl), tt)

abbrev world : Database × Cache
world = (some stock, [])

abbrev world' : Database × Cache
world' = (some stock, ("stock", stock) ∷ [])

schema_found : schema_fields_for provider cache "stock" world ≡ (ok fields, world')
unfolding schema_fields_for ◌>>=◌
schema_found = refl

abbrev by_name : AdapterFilter
by_name = single eq "name" (num (pos 1))

by_name_refused : ¬ Queryable (map typed fields) by_name
by_name_refused (inl (e, h)) = ground (arith, eq_iff "name" "")
by_name_refused (inr (named, (listed, allows))) = elim listed [
  | inl e ↦ ground (arith, eq_iff "_id" "name")
  | inr more ↦ elim more [ inl e ↦ ground (arith, eq_iff "age" "name") | inr l ↦ l ]
]

unqueryable_stops_example :
    ((e : Error) × (find runtime provider cache storage "stock" by_name [] 0 50 [] true world
        ≡ (err e, world')))
    × ((e : Error) × (count runtime provider cache storage "stock" by_name world ≡ (err e, world')))
unqueryable_stops_example =
    unqueryable_stops runtime provider cache storage "stock" by_name [] 0 50 [] true world world'
      fields schema_found by_name_refused

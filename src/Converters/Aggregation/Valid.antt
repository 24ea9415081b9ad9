-- ===== src/Converters/Aggregation/Valid.antt =====
-- Aggregations that the validator accepts.
use velo_external_db.Base.{
  String, true, false, ◌≡◌, refl, ◌⊎◌, inl, inr, Option, none, some, List, [], ◌∷◌, ◌++◌, map,
  map-append, ok, ◌==◌, eq_iff, All, All-append, flat_map, Listed, Listed-left, Listed-right,
  Bool-cases, Option-cases, subst, sym,
}
use velo_external_db.Commons.Values.{undefined}
use velo_external_db.Commons.Dates.{Calendar}
use velo_external_db.Types.{empty, AdapterFunction, avg, max, min, sum, count}
use velo_external_db.Converters.Filter.{transform as transform_filter}
use velo_external_db.Converters.Validation.{
  TypedField, Projection, Aggregation, field_names, validate_filter, validate_fields_exists,
  validate_aggregation, fields_with_aliases, alias_field, names_of_projection, projection_fields,
  extract_fields_and_operators, validate_operators,
}
use velo_external_db.Converters.Validation.Sound.{validate_fields_exists_iff}
use velo_external_db.Converters.Aggregation.{
  Operation, GroupedOperations, wix_function_to_adapter_function, projection_function_for,
  projection_of, operation_to_projection_functions, projection_field, alias_or, calculation,
  transform,
}

-- A function of the client, of a known field unless it counts.
abbrev pub OperationOn : List String → Option (String × String) → Type 0
OperationOn names none = ⊥
OperationOn names (some (f, field_name)) =
    (f ≡ "count")
    ⊎ ((f ≡ "average") ⊎ (f ≡ "max") ⊎ (f ≡ "min") ⊎ (f ≡ "sum")) × Listed field_name names

abbrev pub Known : List String → GroupedOperations → Type 0
Known names a =
    All (λ f. Listed f names) a.grouping_fields
    × All (λ o. OperationOn names o.calculate) a.operations

-- An alias that is empty is the name of the field.
abbrev AliasOf : String → Option String → Type 0
AliasOf name none = Unit
AliasOf name (some alias) = ((alias == "") ≡ false) ⊎ (alias ≡ name)

-- A projection that counts, or is of a known field.
abbrev Fine : List String → Projection → Type 0
Fine names p = (p.name ≡ "*") ⊎ (Listed p.name names × AliasOf p.name p.alias)

alias_or-AliasOf : (alias name : String) → AliasOf name (some (alias_or alias name))
alias_or-AliasOf alias name = elim (Bool-cases (alias == "")) [
  | inl e ↦ inr (rw e refl)
  | inr e ↦ inl (rw (e, e) refl)
]

function-Fine :
    (names : List String) (name alias : String) (f : AdapterFunction)
    → Listed name names
    → Fine names (projection_function_for name alias f)
unfolding projection_function_for
function-Fine names name alias count h = inl refl
function-Fine names name alias avg h = inr (h, alias_or-AliasOf alias name)
function-Fine names name alias max h = inr (h, alias_or-AliasOf alias name)
function-Fine names name alias min h = inr (h, alias_or-AliasOf alias name)
function-Fine names name alias sum h = inr (h, alias_or-AliasOf alias name)

calculation-Fine :
    (names : List String) (alias : String) (c : Option (String × String))
    → OperationOn names c
    → (p : Projection) × (calculation alias c ≡ ok p) × Fine names p
unfolding wix_function_to_adapter_function projection_function_for
calculation-Fine names alias none h = elim h [ ]
calculation-Fine names alias (some (f, name)) (inl e) =
    (projection_function_for name alias count, rw e refl, inl refl)
calculation-Fine names alias (some (f, name)) (inr (inl e, h)) =
    (projection_function_for name alias avg, rw e refl, function-Fine names name alias avg h)
calculation-Fine names alias (some (f, name)) (inr (inr (inl e), h)) =
    (projection_function_for name alias max, rw e refl, function-Fine names name alias max h)
calculation-Fine names alias (some (f, name)) (inr (inr (inr (inl e)), h)) =
    (projection_function_for name alias min, rw e refl, function-Fine names name alias min h)
calculation-Fine names alias (some (f, name)) (inr (inr (inr (inr e)), h)) =
    (projection_function_for name alias sum, rw e refl, function-Fine names name alias sum h)

operations-Fine :
    (names : List String) (os : List Operation)
    → All (λ o. OperationOn names o.calculate) os
    → (ps : List Projection) × (operation_to_projection_functions os ≡ ok ps) × All (Fine names) ps
unfolding operation_to_projection_functions projection_of
operations-Fine names [] h = ([], refl, tt)
operations-Fine names (o ∷ os) (h, hs) =
    let (p, e, k) = calculation-Fine names o.result_field_name o.calculate h in
    let (ps, es, ks) = operations-Fine names os hs in (p ∷ ps, rw (e, es) refl, (k, ks))

fields-Fine :
    (names fs : List String)
    → All (λ f. Listed f names) fs
    → All (Fine names) (map projection_field fs)
fields-Fine names [] h = tt
fields-Fine names (f ∷ fs) (h, hs) = (inr (h, tt), fields-Fine names fs hs)

-- The names of the first are among those of the second.
abbrev Within : List String → List String → Type 0
Within small big = (f : String) → Listed f small → Listed f big

module _ (fields : List TypedField) (all : List String)
    (known : Within (field_names fields) all) where
  -- the alias of a projection of a field that is not `*`
  alias-Listed :
      (p : Projection) (alias : String)
      → (p.name == "*") ≡ false
      → p.alias ≡ some alias
      → Listed p.name all
      → AliasOf p.name p.alias
      → Within (field_names (alias_field fields p)) all
      → Listed alias all
  alias-Listed p alias star e k h w = elim (subst (AliasOf p.name) e h) [
    | inr same ↦ subst (λ f. Listed f all) (sym same) k
    | inl filled ↦ w alias (rw (e, star, filled) (inl refl))
  ]

  projection-Listed :
      (p : Projection)
      → Fine (field_names fields) p
      → Within (field_names (alias_field fields p)) all
      → All (λ f. Listed f all) (names_of_projection p)
  projection-Listed p h w = elim (Bool-cases (p.name == "*")) [
    | inl star ↦ rw star tt
    | inr star ↦ elim h [
      | inl e ↦ let equal : (p.name == "*") ≡ true = (eq_iff p.name "*").1 e in cc
      | inr (k, named) ↦ elim (Option-cases p.alias) [
        | inl e ↦ rw (star, e) (known p.name k, tt)
        | inr (alias, e) ↦
            rw (star, e)
              (known p.name k, (alias-Listed p alias star e (known p.name k) named w, tt))
      ]
    ]
  ]

  projections-Listed :
      (ps : List Projection)
      → All (Fine (field_names fields)) ps
      → Within (field_names (flat_map (alias_field fields) ps)) all
      → All (λ f. Listed f all) (projection_fields ps)
  unfolding projection_fields
  projections-Listed [] h w = tt
  projections-Listed (p ∷ ps) (h, hs) w =
      let here = alias_field fields p in
      let later = flat_map (alias_field fields) ps in
      let apart = map-append (λ f. f.field) here later in
      All-append (λ f. Listed f all) (names_of_projection p) (flat_map names_of_projection ps)
        (projection-Listed p h (λ f k.
          w f (
            subst (Listed f) (sym apart) (Listed-left f (field_names here) (field_names later) k))))
        (projections-Listed ps hs (λ f k.
          w f (
            subst (Listed f) (sym apart)
              (Listed-right f (field_names here) (field_names later) k))))

-- For every aggregation whose grouping fields are known, whose operations are functions of the client
-- on known fields or counts, and that has no final filter, the aggregation of the adapter is built,
-- and the validator accepts it.
pub aggregation_passes :
    (c : Calendar) (fields : List TypedField) (a : GroupedOperations)
    → Known (field_names fields) a
    → (g : Aggregation) × (transform c (some a) undefined ≡ ok (some g))
      × (validate_aggregation fields g ≡ ok tt)
unfolding transform transform_filter validate_aggregation validate_filter
    extract_fields_and_operators validate_fields_exists validate_operators fields_with_aliases
aggregation_passes c fields a (h, k) =
    let names = field_names fields in
    let (ps, e, f) = operations-Fine names a.operations k in
    let projection = map projection_field a.grouping_fields ++ ps in
    let fine =
      All-append (Fine names) (map projection_field a.grouping_fields) ps
        (fields-Fine names a.grouping_fields h) f in
    let aliases = flat_map (alias_field fields) projection in
    let apart = map-append (λ f. f.field) fields aliases in
    let all = field_names (fields ++ aliases) in
    let listed =
      projections-Listed fields all
        (λ f i. subst (Listed f) (sym apart) (Listed-left f names (field_names aliases) i))
        projection fine
        (λ f i. subst (Listed f) (sym apart) (Listed-right f names (field_names aliases) i)) in
    (
      record { projection = projection; post_filter = empty },
      rw e refl,
      (validate_fields_exists_iff all (projection_fields projection) none).1 listed,
    )

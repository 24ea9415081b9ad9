-- ===== src/Service/SchemaAwareData/Projection.antt =====
-- The projection of a query.
use velo_external_db.Base.{
  String, Bool, true, false, not, ◌≡◌, refl, ◌≢◌, sym, ap, subst, ◌↔◌, ◌⊎◌, inl, inr, none, List,
  [], ◌∷◌, map, ok, ◌==◌, ◌||◌, eq_iff, eq_refl, any, filter, Listed, Distinct, All, Bool-cases,
  arith,
}
use velo_external_db.Types.{ResponseField}
use velo_external_db.Converters.Validation.{typed, validate_projection}
use velo_external_db.Converters.Validation as Validator
use velo_external_db.Converters.Validation.Sound.{validate_fields_exists_iff}
use velo_external_db.Service.SchemaAwareData.{field_names, unique, or_all, projection_on}

abbrev others : String → List String → List String
others k ns = filter (λ m. not (m == k)) ns

Listed-others : (n k : String) (ns : List String) → Listed n (others k ns) ↔ (Listed n ns × (n ≢ k))
Listed-others n k [] = (λ h. elim h [ ], λ h. h.0)
Listed-others n k (m ∷ ns) =
    let (to, from) = Listed-others n k ns in
    elim (Bool-cases (m == k)) [
      | inl e ↦ rw e (λ h. (inr (to h).0, (to h).1), λ (h, d). ground (arith, eq_iff m k, from))
      | inr e ↦ rw e (λ h. ground (arith, eq_iff m k, to), λ (h, d). ground (arith, from))
    ]

Listed-unique : (n : String) (ns : List String) → Listed n (unique ns) ↔ Listed n ns
unfolding unique
Listed-unique n [] = (λ h. h, λ h. h)
Listed-unique n (m ∷ ns) =
    let (to, from) = Listed-unique n ns in
    let (out, into) = Listed-others n m (unique ns) in
    (
      λ h. ground (arith, out, to),
      λ h. elim (Bool-cases (m == n)) [
        | inl e ↦ inl ((eq_iff m n).0 e)
        | inr e ↦
            let apart : ◌≢◌ {A = String} n m = λ k. ground (arith, eq_iff m n) in
            inr (into (elim h [ inl k ↦ absurd (apart (sym k)) | inr l ↦ from l ], apart))
      ],
    )

Distinct-others : (k : String) (ns : List String) → Distinct ns → Distinct (others k ns)
Distinct-others k [] h = tt
Distinct-others k (n ∷ ns) (new, h) = elim (Bool-cases (n == k)) [
  | inl e ↦ rw e (Distinct-others k ns h)
  | inr e ↦ rw e ((λ l. new ((Listed-others n k ns).0 l).0), Distinct-others k ns h)
]

unique-Distinct : (ns : List String) → Distinct (unique ns)
unfolding unique
unique-Distinct [] = tt
unique-Distinct (n ∷ ns) = (
  (λ l. ((Listed-others n n (unique ns)).0 l).1 refl),
  Distinct-others n (unique ns) (unique-Distinct ns),
)

or_true : (b : Bool) → (b || true) ≡ true
or_true true = refl
or_true false = refl

has_id :
    (fields : List ResponseField)
    → Listed "_id" (field_names fields)
    → any (λ f. f.field == "_id") fields ≡ true
has_id (f ∷ fs) (inl e) = rw e (rw (eq_refl "_id"))
has_id (f ∷ fs) (inr l) = rw (has_id fs l) (or_true (f.field == "_id"))
has_id [] l = elim l [ ]

Listed-each :
    (names ns : List String)
    → ((n : String) → Listed n ns → Listed n names)
    → All (λ n. Listed n names) ns
Listed-each names [] h = tt
Listed-each names (n ∷ ns) h = (h n (inl refl), Listed-each names ns (λ m l. h m (inr l)))

Listed-All :
    (names ns : List String) (n : String)
    → All (λ m. Listed m names) ns
    → Listed n ns
    → Listed n names
Listed-All names [] n h l = elim l [ ]
Listed-All names (m ∷ ns) n (p, h) (inl e) = subst (λ x. Listed x names) e p
Listed-All names (m ∷ ns) n (p, h) (inr l) = Listed-All names ns n h l

typed_names :
    (fields : List ResponseField) → Validator.field_names (map typed fields) ≡ field_names fields
typed_names [] = refl
typed_names (f ∷ fs) = ap (◌∷◌ f.field) (typed_names fs)

Listed-or_all :
    (fields : List ResponseField) (asked : List String) (n : String)
    → All (λ m. Listed m (field_names fields)) asked
    → Listed n (or_all asked fields)
    → Listed n (field_names fields)
Listed-or_all fields [] n h l = l
Listed-or_all fields (a ∷ as') n h l = Listed-All (field_names fields) (a ∷ as') n h l

valid_projection :
    (fields : List ResponseField) (ns : List String)
    → All (λ n. Listed n (field_names fields)) ns
    → validate_projection (map typed fields) ns ≡ ok tt
unfolding validate_projection
valid_projection fields ns h =
    (validate_fields_exists_iff (Validator.field_names (map typed fields)) ns none).1
      (subst (λ names. All (λ n. Listed n names) ns) (sym (typed_names fields)) h)

unique_first : (n : String) (ns : List String) → (rest : List String) × (unique (n ∷ ns) ≡ n ∷ rest)
unfolding unique
unique_first n ns = (others n (unique ns), refl)

-- For a schema that has `_id`, and a projection that names only its fields, the projection of the
-- query repeats no field, is valid, begins with `_id`, and has exactly `_id` and what was asked for;
-- an empty projection asks for every field.
pub projection_on_lem :
    (fields : List ResponseField) (asked : List String)
    → Listed "_id" (field_names fields)
    → All (λ n. Listed n (field_names fields)) asked
    → Distinct (projection_on asked fields)
      × (validate_projection (map typed fields) (projection_on asked fields) ≡ ok tt)
      × ((rest : List String) × (projection_on asked fields ≡ "_id" ∷ rest))
      × ((n : String)
          → Listed n (projection_on asked fields) ↔ (("_id" ≡ n) ⊎ Listed n (or_all asked fields)))
unfolding projection_on
projection_on_lem fields asked id known =
    let names = "_id" ∷ or_all asked fields in
    let each : (n : String) → Listed n (unique names) → Listed n (field_names fields) = λ n l.
      elim ((Listed-unique n names).0 l) [
        | inl e ↦ subst (λ x. Listed x (field_names fields)) e id
        | inr l' ↦ Listed-or_all fields asked n known l'
      ] in
    rw (has_id fields id) (
      unique-Distinct names,
      valid_projection fields (unique names) (Listed-each (field_names fields) (unique names) each),
      unique_first "_id" (or_all asked fields),
      λ n. Listed-unique n names,
    )

-- ===== src/Tests/Alters.antt =====
-- The database of one collection changes its columns as an adapter should.
use velo_external_db.Base.{
  String, false, ◌≡◌, refl, ◌≢◌, sym, ap, subst, ◌↔◌, ◌⊎◌, inl, inr, none, some, List, [], ◌∷◌,
  ◌++◌, ok, ◌==◌, eq_iff, Listed, Bool-cases, arith,
}
use velo_external_db.Commons.Effects.{Exec, Returns, ◌>>=◌, promise_all}
use mathlib.Core.Option.{some-injective}
use velo_external_db.Types.{ResponseField, InputField}
use velo_external_db.Schemas.Columns.{names_in_db, names_in_request}
use velo_external_db.Schemas.FieldTypes.{WixType}
use velo_external_db.Service.Storage.{Table}
use velo_external_db.Service.Schema.{Collection, update}
use velo_external_db.Service.Schema.Groups.{column_names, Alters}
use velo_external_db.Service.Schema.Columns.{update-columns}
use velo_external_db.Tests.World.{
  Database, Cache, table_of, provider, cache, describes, created, column, change_fields, without,
  retyped,
}

-- A change of fields that relates the names in a way relates those of the database so.
changed :
    (f : List ResponseField → List ResponseField) (P : List String → List String → Type 0)
    → ((fs : List ResponseField) → P (names_in_db (f fs)) (names_in_db fs))
    → (name : String) (s : Database)
    → Returns
        (λ _.
          P
            (column_names (table_of (change_fields f name s).1 name))
            (column_names (table_of s name)))
        (change_fields f name s).0
changed f P h name none = tt
changed f P h name (some t) = elim (Bool-cases (t.id == name)) [
  | inl e ↦ rw e (rw e (h t.fields))
  | inr e ↦ rw e tt
]

added-names :
    (f : InputField) (n : String) (fs : List ResponseField)
    → Listed n (names_in_db (fs ++ created f ∷ [])) ↔ ((f.name ≡ n) ⊎ Listed n (names_in_db fs))
added-names f n [] = (λ h. h, λ h. h)
added-names f n (g ∷ fs) =
    let (to, from) = added-names f n fs in
    (
      elim [ inl e ↦ inr (inl e) | inr l ↦ elim (to l) [ inl e ↦ inl e | inr k ↦ inr (inr k) ] ],
      elim [
        | inl e ↦ inr (from (inl e))
        | inr l ↦ elim l [ inl e ↦ inl e | inr k ↦ inr (from (inr k)) ]
      ],
    )

without-names :
    (c n : String) (fs : List ResponseField)
    → Listed n (names_in_db (without c fs)) ↔ (Listed n (names_in_db fs) × (c ≢ n))
without-names c n [] = (λ h. elim h [ ], λ h. h.0)
without-names c n (g ∷ fs) =
    let (to, from) = without-names c n fs in
    elim (Bool-cases (g.field == c)) [
      | inl e ↦
          rw e (λ h. (inr (to h).0, (to h).1), λ (h, d). ground (arith, eq_iff g.field c, from))
      | inr e ↦ rw e (
        elim [
          | inl k ↦ (inl k, λ (j : c ≡ n). ground (arith, eq_iff g.field c))
          | inr l ↦ (inr (to l).0, (to l).1)
        ],
        λ (h, d). elim h [ inl k ↦ inl k | inr l ↦ inr (from (l, d)) ],
      )
    ]

retyped-names :
    (f : InputField) (fs : List ResponseField) → names_in_db (retyped f fs) ≡ names_in_db fs
retyped-names f [] = refl
retyped-names f (g ∷ fs) = elim (Bool-cases (g.field == f.name)) [
  | inl e ↦
      let same : g.field ≡ f.name = (eq_iff g.field f.name).0 e in
      rw (e, same) (ap (◌∷◌ f.name) (retyped-names f fs))
  | inr e ↦ rw e (ap (◌∷◌ g.field) (retyped-names f fs))
]

kept :
    (change : String → InputField → Exec Database (Unit {0})) (name : String) (f : InputField)
    (s : Database) (n : String)
    → provider.change_column_type ≡ some change
    → Returns
        (λ _.
          Listed n (column_names (table_of (change name f s).1 name))
          ↔ Listed n (column_names (table_of s name)))
        (change name f s).0
kept change name f s n has =
    let same : (λ m g. change_fields (retyped g) m) ≡ change = some-injective _ _ has in
    subst
      (λ c.
        Returns
          (λ _.
            Listed n (column_names (table_of (c name f s).1 name))
            ↔ Listed n (column_names (table_of s name)))
          (c name f s).0)
      same
      (changed (retyped f) (λ after before. Listed n after ↔ Listed n before)
        (λ fs.
          let e = retyped-names f fs in
          (λ l. subst (Listed n) e l, λ l. subst (Listed n) (sym e) l))
        name s)

alters : Alters provider table_of
alters = record {
  adds = λ name f s n.
      changed (λ fs. fs ++ created f ∷ [])
        (λ after before. Listed n after ↔ ((f.name ≡ n) ⊎ Listed n before)) (added-names f n) name
        s;
  removes = λ name c s n.
      changed (without c) (λ after before. Listed n after ↔ (Listed n before × (c ≢ n)))
        (without-names c n) name s;
  keeps = λ change name f s n has. kept change name f s n has;
}

abbrev stock : Table
stock = record {
  id = "stock";
  fields = column "_id" "text" ∷ column "old" "text" ∷ [];
  capabilities = none;
}

abbrev wanted : Collection
wanted = record {
  id = "stock";
  fields =
      record { key = "_id"; type = WixType.text; encrypted = false }
      ∷ record { key = "age"; type = WixType.number; encrypted = false }
      ∷ [];
}

abbrev before : Database × Cache
before = (some stock, [])

updates : (update provider cache wanted before).0 ≡ ok wanted
unfolding update ◌>>=◌ promise_all
updates = refl

update-columns_example :
    Listed "age" (column_names (table_of (update provider cache wanted before).1.0 "stock"))
    ↔ Listed "age" (names_in_request wanted.fields)
update-columns_example =
    update-columns provider cache table_of describes alters wanted wanted before "age" updates

-- ===== src/Service/SchemaInformation/Coherence.antt =====
-- The cache of schemas never answers with a schema that the database does not have.
use velo_external_db.Base.{
  String, ◌≡◌, refl, sym, ◌∙◌, ap, subst, ◌⊎◌, inl, inr, Option, none, some, List, [], ◌∷◌, ok, err,
  All, Option-cases,
}
use velo_external_db.Commons.Errors.{Error, Result}
use velo_external_db.Commons.Effects.{proceed, Returns, ◌>>=◌}
use velo_external_db.Service.Storage.{Table, SchemaProvider, NodeCache}
use velo_external_db.Service.SchemaInformation.{cached, update, schema_for, set_all, clear, refresh}

-- The adapter describes the database: `view s name` is the collection of that name. A call that
-- describes leaves the database as it is, and may fail.
pub record Describes {S : Type 0} (provider : SchemaProvider S) (view : S → String → Option Table)
    : Type 0 where
  pub describe :
      (name : String) (s : S)
      → (provider.describe_collection name s ≡ (ok (view s name), s))
        ⊎ ((e : Error) × (provider.describe_collection name s ≡ (err e, s)))
  pub list_all :
      (s : S)
      → ((ts : List Table) × (provider.list s ≡ (ok ts, s)) × All (λ t. view s t.id ≡ some t) ts)
        ⊎ ((e : Error) × (provider.list s ≡ (err e, s)))

-- A schema that was found is what the database has.
abbrev pub FoundIn : Option Table → Option Table → Type 0
FoundIn v none = Unit
FoundIn v (some t) = v ≡ some t

module _ {S C : Type 0} (provider : SchemaProvider S) (cache : NodeCache C)
    (view : S → String → Option Table) where
  -- Every entry of the cache is what the database has.
  abbrev pub Coherent : S × C → Type 0
  Coherent w = (k : String) (t : Table) → cache.get k w.1 ≡ some t → view w.0 k ≡ some t

  Coherent-set :
      (s : S) (c : C) (k : String) (v : Table)
      → view s k ≡ some v
      → Coherent (s, c)
      → Coherent (s, cache.set k v c)
  Coherent-set s c k v e h j t found = elim (cache.get-set k j v t c found) [
    | inl (same, it) ↦ subst (λ x. view s x ≡ some t) (sym same) (e ∙ ap some (sym it))
    | inr old ↦ h j t old
  ]

  Coherent-flush : (s : S) (c : C) → Coherent (s, cache.flush_all c)
  Coherent-flush s c k t found = cc (cache.get-flush_all k c)

  Coherent-set_all :
      (s : S) (ts : List Table) (c : C)
      → All (λ t. view s t.id ≡ some t) ts
      → Coherent (s, c)
      → Coherent (s, set_all provider cache ts c)
  unfolding set_all
  Coherent-set_all s [] c h k = k
  Coherent-set_all s (t ∷ ts) c (p, h) k =
      Coherent-set_all s ts (cache.set t.id t c) h (Coherent-set s c t.id t p k)

  module _ (d : Describes provider view) where
    update-Coherent :
        (name : String) (w : S × C)
        → Coherent w
        → Coherent (update provider cache name w).1 × ((update provider cache name w).1.0 ≡ w.0)
    unfolding update ◌>>=◌
    update-Coherent name (s, c) h = elim (d.describe name s) [
      | inl e ↦ elim (Option-cases (view s name)) [
        | inl missing ↦ rw (e, update, missing) (h, refl)
        | inr (t, found) ↦ rw (e, update, found) (Coherent-set s c name t found h, refl)
      ]
      | inr (x, e) ↦ rw (e, update) (h, refl)
    ]

    -- For an adapter that describes its database, in calls that leave it as it is: whatever the
    -- cache held before, and whether or not the adapter fails, after `refresh` every entry of the
    -- cache is what the database has, and the database is as it was.
    pub refresh-Coherent :
        (w : S × C) → Coherent (refresh provider cache w).1 × ((refresh provider cache w).1.0 ≡ w.0)
    unfolding refresh clear ◌>>=◌
    refresh-Coherent (s, c) = elim (d.list_all s) [
      | inl (ts, e, h) ↦
          rw (e, refresh) (Coherent-set_all s ts (cache.flush_all c) h (Coherent-flush s c), refl)
      | inr (x, e) ↦ rw (e, refresh) (Coherent-flush s c, refl)
    ]

    FoundIn-cache :
        (name : String) (w : S × C) (s : S)
        → Coherent w
        → w.0 ≡ s
        → FoundIn (view s name) (cache.get name w.1)
    FoundIn-cache name w s h e = elim (Option-cases (cache.get name w.1)) [
      | inl missed ↦ rw missed tt
      | inr (t, found) ↦ rw found (subst (λ x. view x name ≡ some t) e (h name t found))
    ]

    read_after :
        (name : String) (r : Result (Unit {0})) (w : S × C) (s : S)
        → Coherent w
        → w.0 ≡ s
        → Coherent (proceed r w (λ _. cached cache name)).1
          × ((proceed r w (λ _. cached cache name)).1.0 ≡ s)
          × Returns (FoundIn (view s name)) (proceed r w (λ _. cached cache name)).0
    read_after name (ok u) w s h e = (h, e, FoundIn-cache name w s h e)
    read_after name (err x) w s h e = (h, e, tt)

    -- For an adapter that describes its database, in calls that leave it as it is: from a cache
    -- whose entries are what the database has, `schemaFor` keeps the cache so, leaves the database
    -- as it is, and a schema that it returns is the one that the database has.
    pub schema_for-Coherent :
        (name : String) (w : S × C)
        → Coherent w
        → Coherent (schema_for provider cache name w).1
          × ((schema_for provider cache name w).1.0 ≡ w.0)
          × Returns (FoundIn (view w.0 name)) (schema_for provider cache name w).0
    unfolding schema_for ◌>>=◌
    schema_for-Coherent name (s, c) h = elim (Option-cases (cache.get name c)) [
      | inl missed ↦ rw missed (
          let (h', e) = update-Coherent name (s, c) h in
          read_after name (update provider cache name (s, c)).0
            (update provider cache name (s, c)).1 s h' e)
      | inr (t, found) ↦ rw found (h, refl, h name t found)
    ]

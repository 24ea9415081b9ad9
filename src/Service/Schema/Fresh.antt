-- ===== src/Service/Schema/Fresh.antt =====
-- After a successful change of a collection the cache is fresh.
use velo_external_db.Base.{String, ◌≡◌, sym, ◌∙◌, ap, subst, Option, none, some, ok, err}
use velo_external_db.Commons.Errors.{Result}
use velo_external_db.Commons.Effects.{Exec, lift, proceed-ok, Returns, Returns-ok, ◌>>=◌, ◌>>◌}
use velo_external_db.Types.{InputField}
use velo_external_db.Service.Storage.{Table, SchemaProvider, NodeCache}
use velo_external_db.Service.SchemaInformation.{refresh}
use velo_external_db.Service.SchemaInformation.Coherence.{Describes, Coherent, refresh-Coherent}
use velo_external_db.Service.Schema.{Collection, create, update, update_with, update_by, delete}

-- The cache is coherent in the state that an action leaves if it returns.
module _ {S C : Type 0} (provider : SchemaProvider S) (cache : NodeCache C)
    (view : S → String → Option Table) where
  pub record LeavesFresh {A : Type 0} (m : Exec (S × C) A) : Type 0 where
    pub at : (w : S × C) (a : A) → (m w).0 ≡ ok a → Coherent provider cache view (m w).1

  pub LeavesFresh-bind :
      {A B : Type 0} (m : Exec (S × C) A) (f : A → Exec (S × C) B)
      → ((a : A) → LeavesFresh (f a))
      → LeavesFresh (m >>= f)
  unfolding ◌>>=◌
  LeavesFresh-bind m f h = record {
    at = λ w b e.
        let (a, ran, same) = proceed-ok (m w).0 (m w).1 f e in
        subst (λ x. Coherent provider cache view x.1) (sym same)
          ((h a).at (m w).1 b (sym (ap (λ x. x.0) same) ∙ e));
  }

  module _ (d : Describes provider view) where
    after_refresh : {A : Type 0} (r : Result A) → LeavesFresh (refresh provider cache >> lift r)
    unfolding ◌>>=◌
    after_refresh r = record {
      at = λ w a e.
          let (u, ran, same) =
            proceed-ok (refresh provider cache w).0 (refresh provider cache w).1 _ e in
          subst (λ x. Coherent provider cache view x.1) (sym same)
            ((refresh-Coherent provider cache view d w).0);
    }

    -- the same, where a pure step and its result follow
    after_refresh-lift :
        {A B : Type 0} (r : Result A) (f : A → B)
        → LeavesFresh (refresh provider cache >> (lift r >>= λ a. lift (ok (f a))))
    unfolding ◌>>=◌
    after_refresh-lift (ok a) f = after_refresh (ok (f a))
    after_refresh-lift (err e) f = after_refresh (err e)

    pub create-LeavesFresh : (c : Collection) → LeavesFresh (create provider cache c)
    unfolding create
    create-LeavesFresh c = search (LeavesFresh-bind, after_refresh)

    update_with-LeavesFresh :
        (change : String → InputField → Exec S (Unit {0})) (c : Collection)
        → LeavesFresh (update_with provider cache change c)
    unfolding update_with
    update_with-LeavesFresh change c = search (LeavesFresh-bind, after_refresh) depth 10

    update_by-LeavesFresh :
        (change : Option (String → InputField → Exec S (Unit {0}))) (c : Collection)
        → LeavesFresh (update_by provider cache change c)
    update_by-LeavesFresh none c = record { at = λ w a e. cc }
    update_by-LeavesFresh (some change) c = update_with-LeavesFresh change c

    pub update-LeavesFresh : (c : Collection) → LeavesFresh (update provider cache c)
    unfolding update
    update-LeavesFresh c = search (LeavesFresh-bind, update_by-LeavesFresh)

    pub delete-LeavesFresh : (id : String) → LeavesFresh (delete provider cache id)
    unfolding delete
    delete-LeavesFresh id = search (LeavesFresh-bind, after_refresh-lift) depth 8

    -- For an adapter that describes its database, if creating, updating or deleting a collection
    -- returns, then every entry of the cache is what the database has after it, whatever the cache
    -- held before.
    pub schema_changes_leave_fresh :
        (w : S × C) (c : Collection) (id : String)
        → Returns
            (λ _. Coherent provider cache view (create provider cache c w).1)
            (create provider cache c w).0
          × Returns
              (λ _. Coherent provider cache view (update provider cache c w).1)
              (update provider cache c w).0
          × Returns
              (λ _. Coherent provider cache view (delete provider cache id w).1)
              (delete provider cache id w).0
    schema_changes_leave_fresh w c id = (
      Returns-ok _ _ ((create-LeavesFresh c).at w),
      Returns-ok _ _ ((update-LeavesFresh c).at w),
      Returns-ok _ _ ((delete-LeavesFresh id).at w),
    )

-- ===== src/Web/Collections/Fresh.antt =====
-- After a request that changes a collection the cache is fresh.
use velo_external_db.Base.{String, ◌≡◌, sym, subst, ◌∙◌, ap, Option}
use velo_external_db.Commons.Effects.{Exec, Returns, Returns-ok, >>=-ok, ◌>>=◌}
use velo_external_db.Service.Storage.{Table, SchemaProvider, NodeCache}
use velo_external_db.Service.SchemaInformation.Coherence.{Describes, Coherent}
use velo_external_db.Service.Schema.{Collection, DeletedCollection}
use velo_external_db.Service.Schema.Fresh.{
  LeavesFresh, LeavesFresh-bind, create-LeavesFresh, update-LeavesFresh, delete-LeavesFresh,
}
use velo_external_db.Web.Hooks.{HookTable, SchemaAction, execute_schema_hooks_for}
use velo_external_db.Web.Collections.{create_collection, update_collection, delete_collection}

-- The hooks of an action leave the database and the cache as they are.
abbrev pub Quiet : {W P : Type 0} → HookTable W P → SchemaAction → Type 0
Quiet {W} {P} hooks action = (p : P) (w : W) → (execute_schema_hooks_for hooks action p w).1 ≡ w

module _ {S C : Type 0} (provider : SchemaProvider S) (cache : NodeCache C)
    (view : S → String → Option Table) where
  LeavesFresh-Quiet :
      {P : Type 0} (m : Exec (S × C) P) (hooks : HookTable (S × C) P) (action : SchemaAction)
      → Quiet hooks action
      → LeavesFresh provider cache view m
      → LeavesFresh provider cache view (m >>= execute_schema_hooks_for hooks action)
  LeavesFresh-Quiet m hooks action quiet fresh = record {
    at = λ w b e.
        let (a, ran, same, _) = >>=-ok m (execute_schema_hooks_for hooks action) w e in
        subst (λ x. Coherent provider cache view x) (sym (ap (λ x. x.1) same ∙ quiet a (m w).1))
          (fresh.at w a ran);
  }

  module _ (d : Describes provider view) where
    -- For an adapter that describes its database, if a request to create, to update or to delete a
    -- collection returns, and the hooks after it change neither the database nor the cache, then every
    -- entry of the cache is what the database has, whatever the cache held and whatever the hooks
    -- before the change do.
    pub collection_requests_leave_fresh :
        (before after : HookTable (S × C) Collection) (named : HookTable (S × C) String)
        (gone : HookTable (S × C) DeletedCollection) (w : S × C) (c : Collection) (id : String)
        → Quiet after SchemaAction.after_create
        → Quiet after SchemaAction.after_update
        → Quiet gone SchemaAction.after_delete
        → Returns
            (λ _.
              Coherent provider cache view (create_collection provider cache before after c w).1)
            (create_collection provider cache before after c w).0
          × Returns
              (λ _.
                Coherent provider cache view (update_collection provider cache before after c w).1)
              (update_collection provider cache before after c w).0
          × Returns
              (λ _.
                Coherent provider cache view (delete_collection provider cache named gone id w).1)
              (delete_collection provider cache named gone id w).0
    unfolding create_collection update_collection delete_collection
    collection_requests_leave_fresh before after named gone w c id q1 q2 q3 = (
      Returns-ok _ _ (
          (LeavesFresh-bind provider cache view _ _ (λ p.
              LeavesFresh-Quiet _ after SchemaAction.after_create q1
                (create-LeavesFresh provider cache view d p))).at
            w),
      Returns-ok _ _ (
          (LeavesFresh-bind provider cache view _ _ (λ p.
              LeavesFresh-Quiet _ after SchemaAction.after_update q2
                (update-LeavesFresh provider cache view d p))).at
            w),
      Returns-ok _ _ (
          (LeavesFresh-bind provider cache view _ _ (λ p.
              LeavesFresh-Quiet _ gone SchemaAction.after_delete q3
                (delete-LeavesFresh provider cache view d p))).at
            w),
    )

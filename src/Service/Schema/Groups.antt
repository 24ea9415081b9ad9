-- ===== src/Service/Schema/Groups.antt =====
-- Columns that are added, removed and changed, each group by `Promise.all`.
use velo_external_db.Base.{
  String, ◌≡◌, ◌≢◌, sym, ◌∙◌, subst, ◌↔◌, ◌⊎◌, inl, inr, Option, none, some, List, [], ◌∷◌, ok,
  Listed,
}
use velo_external_db.Commons.Errors.{Result}
use velo_external_db.Commons.Effects.{Exec, lift, Returns, promise_all, >>=-ok, promise_all-ok}
use velo_external_db.Types.{InputField}
use velo_external_db.Schemas.Columns.{names_in_db}
use velo_external_db.Schemas.Columns.Names.{names_in_input}
use velo_external_db.Service.Storage.{Table, SchemaProvider, NodeCache}
use velo_external_db.Service.SchemaInformation.{on_store}
use velo_external_db.Service.Schema.{validate_if_any, add_columns, remove_columns, change_columns}

-- The names of a collection's columns; a collection that is not there has none.
abbrev pub column_names : Option Table → List String
column_names none = []
column_names (some t) = names_in_db t.fields

-- A change of columns that succeeds adds, removes or keeps names, in one step: an adapter whose
-- change reads the columns and writes them later, so that another change may come between, as that of
-- Firestore, does not have this form.
pub record Alters {S : Type 0} (provider : SchemaProvider S) (view : S → String → Option Table)
    : Type 0 where
  pub adds :
      (name : String) (f : InputField) (s : S) (n : String)
      → Returns
          (λ _.
            Listed n (column_names (view (provider.add_column name f s).1 name))
            ↔ ((f.name ≡ n) ⊎ Listed n (column_names (view s name))))
          (provider.add_column name f s).0
  pub removes :
      (name c : String) (s : S) (n : String)
      → Returns
          (λ _.
            Listed n (column_names (view (provider.remove_column name c s).1 name))
            ↔ (Listed n (column_names (view s name)) × (c ≢ n)))
          (provider.remove_column name c s).0
  pub keeps :
      (change : String → InputField → Exec S (Unit {0})) (name : String) (f : InputField) (s : S)
      (n : String)
      → provider.change_column_type ≡ some change
      → Returns
          (λ _.
            Listed n (column_names (view (change name f s).1 name))
            ↔ Listed n (column_names (view s name)))
          (change name f s).0

module _ {S C : Type 0} (provider : SchemaProvider S) (cache : NodeCache C)
    (view : S → String → Option Table) (a : Alters provider view) where
  -- the column names of a collection in a state
  abbrev pub cols : String → S × C → List String
  cols id w = column_names (view w.0 id)

  adds-all :
      (id n : String) (fs : List InputField) (w : S × C) (us : List (Unit {0}))
      → (promise_all (λ f. on_store (provider.add_column id f)) fs w).0 ≡ ok us
      → Listed n (cols id (promise_all (λ f. on_store (provider.add_column id f)) fs w).1)
        ↔ (Listed n (names_in_input fs) ⊎ Listed n (cols id w))
  unfolding promise_all
  adds-all id n [] w us h = (inr, elim [ inl k ↦ elim k [ ] | inr k ↦ k ])
  adds-all id n (f ∷ fs) w us h =
      let one : S × C → Result (Unit {0}) × (S × C) = on_store (provider.add_column id f) in
      let (u, rest, here, there) =
        promise_all-ok (λ g. on_store (provider.add_column id g)) f fs w us h in
      let (to, from) = subst (Returns _) here (a.adds id f w.0 n) in
      let (to', from') = adds-all id n fs (one w).1 rest there in
      (
        λ l. elim (to' l) [
          | inl k ↦ inl (inr k)
          | inr k ↦ elim (to k) [ inl e ↦ inl (inl e) | inr old ↦ inr old ]
        ],
        elim [
          | inl k ↦ elim k [ inl e ↦ from' (inr (from (inl e))) | inr l ↦ from' (inl l) ]
          | inr old ↦ from' (inr (from (inr old)))
        ],
      )

  removes-all :
      (id n : String) (cs : List String) (w : S × C) (us : List (Unit {0}))
      → (promise_all (λ c. on_store (provider.remove_column id c)) cs w).0 ≡ ok us
      → Listed n (cols id (promise_all (λ c. on_store (provider.remove_column id c)) cs w).1)
        ↔ (Listed n (cols id w) × (¬ Listed n cs))
  unfolding promise_all
  removes-all id n [] w us h = (λ l. (l, λ k. k), λ l. l.0)
  removes-all id n (c ∷ cs) w us h =
      let one : S × C → Result (Unit {0}) × (S × C) = on_store (provider.remove_column id c) in
      let (u, rest, here, there) =
        promise_all-ok (λ g. on_store (provider.remove_column id g)) c cs w us h in
      let (to, from) = subst (Returns _) here (a.removes id c w.0 n) in
      let (to', from') = removes-all id n cs (one w).1 rest there in
      (
        λ l. ((to (to' l).0).0, elim [ inl e ↦ (to (to' l).0).1 e | inr k ↦ (to' l).1 k ]),
        λ (l, out). from' (from (l, λ e. out (inl e)), λ k. out (inr k)),
      )

  module _ (change : String → InputField → Exec S (Unit {0}))
      (has : provider.change_column_type ≡ some change) where
    keeps-all :
        (id n : String) (fs : List InputField) (w : S × C) (us : List (Unit {0}))
        → (promise_all (λ f. on_store (change id f)) fs w).0 ≡ ok us
        → Listed n (cols id (promise_all (λ f. on_store (change id f)) fs w).1)
          ↔ Listed n (cols id w)
    unfolding promise_all
    keeps-all id n [] w us h = (λ l. l, λ l. l)
    keeps-all id n (f ∷ fs) w us h =
        let one : S × C → Result (Unit {0}) × (S × C) = on_store (change id f) in
        let (u, rest, here, there) = promise_all-ok (λ g. on_store (change id g)) f fs w us h in
        let (to, from) = subst (Returns _) here (a.keeps change id f w.0 n has) in
        let (to', from') = keeps-all id n fs (one w).1 rest there in
        (λ l. to (to' l), λ l. from' (from l))

  pub add_columns-cols :
      (id n : String) (fs : List InputField) (w : S × C) (u : Unit)
      → (add_columns provider cache id fs w).0 ≡ ok u
      → Listed n (cols id (add_columns provider cache id fs w).1)
        ↔ (Listed n (names_in_input fs) ⊎ Listed n (cols id w))
  unfolding add_columns
  add_columns-cols id n fs w u h =
      let (u1, e1, same1, h1) =
        >>=-ok (lift (validate_if_any provider cache id "addColumn" fs)) _ w h in
      let (us, e2, same2, h2) =
        >>=-ok (promise_all (λ f. on_store (provider.add_column id f)) fs) _ w h1 in
      subst (λ x. Listed n (cols id x.1) ↔ (Listed n (names_in_input fs) ⊎ Listed n (cols id w)))
        (sym (same1 ∙ same2)) (adds-all id n fs w us e2)

  pub remove_columns-cols :
      (id n : String) (cs : List String) (w : S × C) (u : Unit)
      → (remove_columns provider cache id cs w).0 ≡ ok u
      → Listed n (cols id (remove_columns provider cache id cs w).1)
        ↔ (Listed n (cols id w) × (¬ Listed n cs))
  unfolding remove_columns
  remove_columns-cols id n cs w u h =
      let (u1, e1, same1, h1) =
        >>=-ok (lift (validate_if_any provider cache id "removeColumn" cs)) _ w h in
      let (us, e2, same2, h2) =
        >>=-ok (promise_all (λ c. on_store (provider.remove_column id c)) cs) _ w h1 in
      subst (λ x. Listed n (cols id x.1) ↔ (Listed n (cols id w) × (¬ Listed n cs)))
        (sym (same1 ∙ same2)) (removes-all id n cs w us e2)

  pub change_columns-cols :
      (change : String → InputField → Exec S (Unit {0}))
      → provider.change_column_type ≡ some change
      → (id n : String) (fs : List InputField) (w : S × C) (u : Unit)
      → (change_columns provider cache change id fs w).0 ≡ ok u
      → Listed n (cols id (change_columns provider cache change id fs w).1) ↔ Listed n (cols id w)
  unfolding change_columns
  change_columns-cols change has id n fs w u h =
      let (u1, e1, same1, h1) =
        >>=-ok (lift (validate_if_any provider cache id "changeColumnType" fs)) _ w h in
      let (us, e2, same2, h2) = >>=-ok (promise_all (λ f. on_store (change id f)) fs) _ w h1 in
      subst (λ x. Listed n (cols id x.1) ↔ Listed n (cols id w)) (sym (same1 ∙ same2))
        (keeps-all change has id n fs w us e2)

-- ===== src/Service/Schema/Columns.antt =====
-- The columns that an update of a collection leaves.
use velo_external_db.Base.{
  String, ◌≡◌, refl, sym, ap, ◌∙◌, subst, ◌↔◌, ◌⊎◌, inl, inr, Option, none, some, List, ok, err,
  Listed, includes, includes_iff, not-includes_iff, Bool-cases, ok-injective,
}
use velo_external_db.Commons.Errors.{Result}
use velo_external_db.Commons.Effects.{Exec, lift, >>=-ok}
use velo_external_db.Types.{ResponseField, InputField}
use velo_external_db.Schemas.Columns.{
  names_in_db, names_in_request, compare_columns_in_db_and_request,
}
use velo_external_db.Schemas.Columns.Names.{names_in_input, difference_names}
use velo_external_db.Service.Storage.{Table, SchemaProvider, NodeCache}
use velo_external_db.Service.SchemaInformation.{on_store, refresh}
use velo_external_db.Service.SchemaInformation.Coherence.{Describes, refresh-Coherent}
use velo_external_db.Service.Schema.{
  Collection, validate_operation, columns_of, add_columns, remove_columns, change_columns,
  update_with, update_by, update,
}
use velo_external_db.Service.Schema.Groups.{
  column_names, Alters, cols, add_columns-cols, remove_columns-cols, change_columns-cols,
}

module _ {S C : Type 0} (provider : SchemaProvider S) (cache : NodeCache C)
    (view : S → String → Option Table) (d : Describes provider view)
    (a : Alters provider view) where
  -- adding what is missing and removing what is not asked for
  settled :
      (n : String) (asked db added removed one two : List String)
      → Listed n added ↔ (Listed n asked × (¬ Listed n db))
      → Listed n removed ↔ (Listed n db × (¬ Listed n asked))
      → Listed n one ↔ (Listed n added ⊎ Listed n db)
      → Listed n two ↔ (Listed n one × (¬ Listed n removed))
      → Listed n two ↔ Listed n asked
  settled n asked db added removed one two (a0, a1) (r0, r1) (o0, o1) (t0, t1) = (to, from)
    where
      to : Listed n two → Listed n asked
      to l = elim (Bool-cases (includes asked n)) [
        | inl e ↦ (includes_iff asked n).0 e
        | inr e ↦
            let out : ¬ Listed n asked = (not-includes_iff asked n).0 e in
            elim (o0 (t0 l).0) [ inl k ↦ (a0 k).0 | inr k ↦ absurd ((t0 l).1 (r1 (k, out))) ]
      ]

      from : Listed n asked → Listed n two
      from l = elim (Bool-cases (includes db n)) [
        | inl e ↦ t1 (o1 (inr ((includes_iff db n).0 e)), λ k. (r0 k).1 l)
        | inr e ↦ t1 (o1 (inl (a1 (l, (not-includes_iff db n).0 e))), λ k. (r0 k).1 l)
      ]

  described_names :
      (described : Option Table) (db : List ResponseField)
      → columns_of provider cache described ≡ ok db
      → column_names described ≡ names_in_db db
  described_names none db h = cc
  described_names (some t) db h = ap names_in_db (ok-injective h)

  described-cols :
      (id : String) (w : S × C) (described : Option Table)
      → (on_store (provider.describe_collection id) w).0 ≡ ok described
      → (view w.0 id ≡ described) × ((on_store (provider.describe_collection id) w).1 ≡ w)
  described-cols id w described h = elim (d.describe id w.0) [
    | inl e ↦ (ok-injective (sym (ap (λ x. x.0) e) ∙ h), ap (λ x. (x.1, w.1)) e)
    | inr (x, e) ↦
        let bad : ◌≡◌ {A = Result (Option Table)} (err x) (ok described) =
          sym (ap (λ y. y.0) e) ∙ h in
        cc
  ]

  update_with-cols :
      (change : String → InputField → Exec S (Unit {0}))
      → provider.change_column_type ≡ some change
      → (c r : Collection) (w : S × C) (n : String)
      → (update_with provider cache change c w).0 ≡ ok r
      → Listed n (cols provider cache view a c.id (update_with provider cache change c w).1)
        ↔ Listed n (names_in_request c.fields)
  unfolding update_with
  update_with-cols change has c r w n h =
      let (described, e0, same0, h0) =
        >>=-ok (on_store (provider.describe_collection c.id)) _ w h in
      let (seen, still) = described-cols c.id w described e0 in
      let w0 : S × C = (on_store (provider.describe_collection c.id) w).1 in
      let (db, e1, same1, h1) = >>=-ok (lift (columns_of provider cache described)) _ w0 h0 in
      let (diff, e2, same2, h2) =
        >>=-ok (lift (compare_columns_in_db_and_request db c.fields)) _ w0 h1 in
      let (u3, e3, same3, h3) =
        >>=-ok (add_columns provider cache c.id diff.columns_to_add) _ w0 h2 in
      let w3 : S × C = (add_columns provider cache c.id diff.columns_to_add w0).1 in
      let (u4, e4, same4, h4) =
        >>=-ok (remove_columns provider cache c.id diff.columns_to_remove) _ w3 h3 in
      let w4 : S × C = (remove_columns provider cache c.id diff.columns_to_remove w3).1 in
      let (u5, e5, same5, h5) =
        >>=-ok (change_columns provider cache change c.id diff.columns_to_change_type) _ w4 h4 in
      let w5 : S × C =
        (change_columns provider cache change c.id diff.columns_to_change_type w4).1 in
      let (u6, e6, same6, h6) = >>=-ok (refresh provider cache) _ w5 h5 in
      let w6 : S × C = (refresh provider cache w5).1 in
      let all = same0 ∙ (same1 ∙ (same2 ∙ (same3 ∙ (same4 ∙ (same5 ∙ same6))))) in
      let known : cols provider cache view a c.id w0 ≡ names_in_db db =
        ap (cols provider cache view a c.id) still
        ∙ (ap column_names seen ∙ described_names described db e1) in
      let (to_add, to_remove) = difference_names db c.fields diff n e2 in
      let widened =
        subst
          (λ ns.
            Listed n (cols provider cache view a c.id w3)
            ↔ (Listed n (names_in_input diff.columns_to_add) ⊎ Listed n ns))
          known (add_columns-cols provider cache view a c.id n diff.columns_to_add w0 u3 e3) in
      let narrowed =
        remove_columns-cols provider cache view a c.id n diff.columns_to_remove w3 u4 e4 in
      let kept =
        change_columns-cols provider cache view a change has c.id n diff.columns_to_change_type w4
          u5 e5 in
      let there =
        settled n (names_in_request c.fields) (names_in_db db) (names_in_input diff.columns_to_add)
          diff.columns_to_remove (cols provider cache view a c.id w3)
          (cols provider cache view a c.id w4) to_add to_remove widened narrowed in
      let after : Listed n (cols provider cache view a c.id w5)
          ↔ Listed n (names_in_request c.fields) =
        (λ l. there.0 (kept.0 l), λ l. kept.1 (there.1 l)) in
      subst
        (λ x. Listed n (cols provider cache view a c.id x.1) ↔ Listed n (names_in_request c.fields))
        (sym all)
        (subst (λ s. Listed n (column_names (view s c.id)) ↔ Listed n (names_in_request c.fields))
          (sym (refresh-Coherent provider cache view d w5).1) after)

  update_by-cols :
      (change : Option (String → InputField → Exec S (Unit {0})))
      → provider.change_column_type ≡ change
      → (c r : Collection) (w : S × C) (n : String) → (update_by provider cache change c w).0 ≡ ok r
      → Listed n (cols provider cache view a c.id (update_by provider cache change c w).1)
        ↔ Listed n (names_in_request c.fields)
  update_by-cols none has c r w n h = cc
  update_by-cols (some change) has c r w n h = update_with-cols change has c r w n h

  -- If updating a collection returns, the collection has a column of a name exactly if the request
  -- has a field with that key, whatever columns it had before, for an adapter that describes its
  -- database, whose changes of columns add, remove and keep names, and whose calls each take effect at
  -- once, in the order in which they are started.
  pub update-columns :
      (c r : Collection) (w : S × C) (n : String)
      → (update provider cache c w).0 ≡ ok r
      → Listed n (column_names (view (update provider cache c w).1.0 c.id))
        ↔ Listed n (names_in_request c.fields)
  unfolding update
  update-columns c r w n h =
      let (u, e, same, h') =
        >>=-ok (lift (validate_operation provider cache c.id "createCollection")) _ w h in
      subst
        (λ x. Listed n (cols provider cache view a c.id x.1) ↔ Listed n (names_in_request c.fields))
        (sym same) (update_by-cols provider.change_column_type refl c r w n h')

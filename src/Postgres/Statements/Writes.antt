-- ===== src/Postgres/Statements/Writes.antt =====
-- The statements that write have exactly the parameters that their placeholders ask for.
use velo_external_db.Base.{
  ℕ, suc, ◌+◌, String, Bool, ◌≡◌, refl, sym, ap, ◌∙◌, Option, List, [], ◌∷◌, ◌++◌, length,
  length-append, length-map, flat_map, All, arith,
}
use velo_external_db.Commons.Values.{ℤ, Item, str}
use velo_external_db.Commons.Runtime.{Runtime}
use velo_external_db.Types.{ResponseField}
use velo_external_db.Postgres.Sql.{
  text, placeholder, join_sql, variables, prepare_statement_variables,
}
use velo_external_db.Postgres.Sql.Placeholders.{
  placeholders, range, placeholders-before_text, placeholders-join_sql, range-add,
  placeholders-variables, placeholders-prepare_statement_variables,
}
use velo_external_db.Postgres.Statements.{
  segment, segments, prepare_statement_variables_for_bulk_insert, as_params, insert, assignments,
  update_one, delete,
}
use velo_external_db.Postgres.Statements.Complete.{Numbered, append-Numbered, Complete}

segment-Numbered : (from n : ℕ) → Numbered (segment from n) from n
unfolding placeholders
segment-Numbered from n =
    placeholders-before_text (join_sql "," (variables from n)) ")"
    ∙ (placeholders-join_sql "," (variables from n) ∙ placeholders-variables n from)

module _ (r : Runtime) (moment : Option ℤ → String) where
  length-as_params : (item : Item) → length (as_params r moment item) ≡ length item
  unfolding as_params
  length-as_params item = length-map _ item

  -- the rows of an insert, if every item has a value for each field
  rows-Numbered :
      (items : List Item) (n from : ℕ)
      → All (λ i. length i ≡ n) items
      → flat_map placeholders (segments from (length items) n)
        ≡ range from (length (flat_map (as_params r moment) items))
  unfolding range
  rows-Numbered [] n from h = refl
  rows-Numbered (i ∷ items) n from (e, h) =
      let here = as_params r moment i in
      let rest = flat_map (as_params r moment) items in
      let width : length here ≡ n = length-as_params i ∙ e in
      let total : length (here ++ rest) ≡ n + length rest =
        length-append here rest ∙ ap (λ k. k + length rest) width in
      ap (λ x. x ++ flat_map placeholders (segments (from + n) (length items) n))
        (segment-Numbered from n)
      ∙ (ap (λ x. range from n ++ x) (rows-Numbered items n (from + n) h)
          ∙ (sym (range-add from n (length rest)) ∙ ap (range from) (sym total)))

  insert-Complete :
      (name : String) (items : List Item) (fields : List ResponseField) (upsert : Bool)
      → All (λ i. length i ≡ length fields) items
      → Complete (insert r moment name items fields upsert)
  unfolding insert prepare_statement_variables_for_bulk_insert placeholders
  insert-Complete name items fields upsert h =
      placeholders-before_text (join_sql "," (segments 1 (length items) (length fields))) _
      ∙ (placeholders-join_sql "," (segments 1 (length items) (length fields))
          ∙ rows-Numbered items (length fields) 1 h)

  assignments-Numbered :
      (fs : List String) (from : ℕ)
      → flat_map placeholders (assignments r moment from fs) ≡ range from (length fs)
  unfolding placeholders range
  assignments-Numbered [] from = refl
  assignments-Numbered (f ∷ fs) from =
      let next : from + 1 ≡ suc from = omega arith in
      ap (◌∷◌ from) (assignments-Numbered fs (from + 1) ∙ ap (λ k. range k (length fs)) next)

  update-Complete :
      (name : String) (fields : List String) (i : Item)
      → Complete (update_one r moment name fields i)
  unfolding update_one placeholders range
  update-Complete name fields i =
      let n = length fields in
      let next : n + 1 ≡ 1 + n = omega arith in
      let sets = join_sql ", " (assignments r moment 1 fields) in
      let where_id = text " WHERE _id = " ∷ placeholder (n + 1) ∷ [] in
      let numbered : Numbered sets 1 n =
        placeholders-join_sql ", " (assignments r moment 1 fields)
        ∙ assignments-Numbered fields 1 in
      append-Numbered sets where_id 1 n 1 numbered (ap (λ k. k ∷ []) next)
      ∙ ap (range 1) (sym (length-map _ (fields ++ "_id" ∷ []) ∙ length-append fields ("_id" ∷ [])))

  delete-Complete : (name : String) (ids : List String) → Complete (delete r moment name ids)
  unfolding delete placeholders
  delete-Complete name ids =
      placeholders-before_text (prepare_statement_variables (length ids) 1) ")"
      ∙ (placeholders-prepare_statement_variables (length ids) 1
          ∙ ap (range 1) (sym (length-map str ids)))

  -- An insert of items that have as many values as there are fields, an update of an item and a
  -- delete are complete with their parameters.
  pub writes_Complete :
      (name : String) (items : List Item) (fields : List ResponseField) (upsert : Bool)
      (updated : List String) (i : Item) (ids : List String)
      → All (λ j. length j ≡ length fields) items
      → Complete (insert r moment name items fields upsert)
        × Complete (update_one r moment name updated i)
        × Complete (delete r moment name ids)
  writes_Complete name items fields upsert updated i ids h = (
    insert-Complete name items fields upsert h,
    update-Complete name updated i,
    delete-Complete name ids,
  )

-- ===== src/MySql/Statements/Writes.antt =====
-- The statements that write have exactly the parameters that their question marks ask for.
use velo_external_db.Base.{
  suc, String, ◌≡◌, refl, ◌∙◌, Bool, true, false, Option, List, [], ◌∷◌, ◌++◌, map, ok, ◌&◌, All,
  length, length-append, length-map, flat_map, ap, arith,
}
use velo_external_db.Commons.Values.{ℤ, Item, get}
use velo_external_db.Commons.Runtime.{Runtime}
use velo_external_db.Types.{ResponseField}
use velo_external_db.Postgres.Statements.{update_fields_for}
use velo_external_db.MySql.Text.{
  question_marks, question_marks-append, question_marks-join, all_marks,
}
use velo_external_db.MySql.Operators.{escape_id}
use velo_external_db.MySql.Filter.Values.{escape_id-marks, wild_cards-marks}
use velo_external_db.MySql.Statements.{
  Statement, insert, insert_statement, update_statement, delete_statement, update, update_query,
  updatable, as_params, delete,
}
use velo_external_db.MySql.Statements.Names.{Unmarked, names-Unmarked}
use velo_external_db.MySql.Statements.Balance.{Filled, TableName, escape_table-eq}

map-compose :
    (quote : String → String) (fields : List ResponseField)
    → map (λ f. escape_id quote f.field) fields ≡ map (escape_id quote) (map (λ f. f.field) fields)
map-compose quote [] = refl
map-compose quote (f ∷ fs) = ap (◌∷◌ (escape_id quote f.field)) (map-compose quote fs)

module _ (r : Runtime) (quote : String → String) (moment : Option ℤ → String)
    (quoted : (f : String) → question_marks (quote f) ≡ question_marks f) where
  assignments-marks :
      (fields : List String)
      → All Unmarked fields
      → all_marks (map (λ f. escape_id quote f & " = ?") fields) ≡ length fields
  unfolding question_marks
  assignments-marks [] h = refl
  assignments-marks (f ∷ fs) (h, hs) =
      rw question_marks-append
        (omega (arith, escape_id-marks quote quoted f h, assignments-marks fs hs))

  update_query-marks :
      (table : String) (fields : List String)
      → Unmarked table
      → All Unmarked fields
      → question_marks (update_query r quote moment table fields) ≡ suc (length fields)
  unfolding update_query question_marks
  update_query-marks table fields t h =
      let set = map (λ f. escape_id quote f & " = ?") fields in
      simp (question_marks-append, t)
        (omega (arith, question_marks-join ", " set refl, assignments-marks fields h))

  length-updatable :
      (fields : List String) (item : Item)
      → length (updatable r quote moment fields item) ≡ suc (length fields)
  unfolding updatable as_params
  length-updatable fields item =
      length-map _ (map (λ k. (k, get k item)) (fields ++ "_id" ∷ []))
      ∙ (length-map _ (fields ++ "_id" ∷ []) ∙ omega (arith, length-append fields ("_id" ∷ [])))

  updates-marks :
      (table : String) (fields : List String) (items : List Item)
      → Unmarked table
      → All Unmarked fields
      → all_marks (map (λ i. update_query r quote moment table fields) items)
        ≡ length (flat_map (updatable r quote moment fields) items)
  updates-marks table fields [] t h = refl
  updates-marks table fields (i ∷ is) t h = omega (
    arith,
    update_query-marks table fields t h,
    length-updatable fields i,
    updates-marks table fields is t h,
    length-append (updatable r quote moment fields i)
        (flat_map (updatable r quote moment fields) is),
  )

  insert-Filled :
      (table : String) (items : List Item) (fields : List ResponseField) (upsert : Bool)
      → Unmarked table
      → All Unmarked (map (λ f. f.field) fields)
      → Filled (insert_statement r quote moment table items fields upsert)
  unfolding insert_statement question_marks
  insert-Filled table items fields true t h =
      rw (map-compose quote fields)
        (simp (question_marks-append, t, names-Unmarked quote quoted (map (λ f. f.field) fields) h))
  insert-Filled table items fields false t h =
      rw (map-compose quote fields)
        (simp (question_marks-append, t, names-Unmarked quote quoted (map (λ f. f.field) fields) h))

  update-Filled :
      (table : String) (fields : List String) (items : List Item)
      → Unmarked table
      → All Unmarked fields
      → Filled (update_statement r quote moment table fields items)
  unfolding update_statement question_marks
  update-Filled table fields items t h =
      question_marks-join ";" (map (λ i. update_query r quote moment table fields) items) refl
      ∙ updates-marks table fields items t h

  delete-Filled :
      (table : String) (ids : List String)
      → Unmarked table
      → Filled (delete_statement r quote moment table ids)
  unfolding delete_statement question_marks
  delete-Filled table ids t =
      simp (question_marks-append, t, length-map) (omega (arith, wild_cards-marks (length ids)))

  -- For names of the collection and of fields without a question mark, a collection's name without a
  -- dot, and a quotation of names that adds no question mark, an insert or upsert of any items, an
  -- update of at least one item and a delete are built, each with exactly as many question marks as
  -- parameters.
  pub writes_Filled :
      (name : String) (items : List Item) (fields : List ResponseField) (upsert : Bool)
      (item : Item) (ids : List String)
      → TableName name
      → All Unmarked (map (λ f. f.field) fields)
      → All Unmarked (update_fields_for item)
      → ((st : Statement) × (insert r quote moment name items fields upsert ≡ ok st) × Filled st)
        × ((st : Statement) × (update r quote moment name (item ∷ items) ≡ ok st) × Filled st)
        × ((st : Statement) × (delete r quote moment name ids ≡ ok st) × Filled st)
  unfolding insert update delete
  writes_Filled name items fields upsert item ids t h k =
      let named = escape_table-eq r quote moment quoted name t in
      let table : Unmarked (quote name) = quoted name ∙ t.1 in
      (
        (
          insert_statement r quote moment (quote name) items fields upsert,
          rw named refl,
          insert-Filled (quote name) items fields upsert table h,
        ),
        (
          update_statement r quote moment (quote name) (update_fields_for item) (item ∷ items),
          rw named refl,
          update-Filled (quote name) (update_fields_for item) (item ∷ items) table k,
        ),
        (
          delete_statement r quote moment (quote name) ids,
          rw named refl,
          delete-Filled (quote name) ids table,
        ),
      )

-- ===== src/Schemas/Columns/Names.antt =====
-- The names of the columns that compareColumnsInDbAndRequest tells apart.
use velo_external_db.Base.{
  String, ◌≡◌, sym, ap, ◌∙◌, subst, ◌↔◌, inl, inr, List, [], ◌∷◌, map, ok, traverse, includes,
  Listed, includes_iff, not-includes_iff, Bool-cases, >>=-eq-ok, ok-injective,
}
use velo_external_db.Types.{ResponseField, InputField}
use velo_external_db.Schemas.FieldTypes.{wix_data_enum_to_field_type, field_type_to_subtype}
use velo_external_db.Schemas.Columns.{
  WixField, Difference, names_in_db, names_in_request, encrypted_input_field,
  non_encrypted_input_field, wix_format_field_to_input_fields, wix_format_fields_to_input_fields,
  changed, added, removed, compare_columns_in_db_and_request,
}

abbrev pub names_in_input : List InputField → List String
names_in_input = map (λ f. f.name)

name-non_encrypted :
    (f : WixField) (i : InputField) → non_encrypted_input_field f ≡ ok i → i.name ≡ f.key
unfolding non_encrypted_input_field
name-non_encrypted f i h =
    let (t, e, h') = >>=-eq-ok (wix_data_enum_to_field_type f.type) _ h in
    let (u, e', h'') = >>=-eq-ok (field_type_to_subtype f.type) _ h' in
    ap (λ x. x.name) (sym (ok-injective h''))

name-input :
    (f : WixField) (i : InputField) → wix_format_field_to_input_fields f ≡ ok i → i.name ≡ f.key
unfolding wix_format_field_to_input_fields encrypted_input_field
name-input f i h = elim (Bool-cases f.encrypted) [
  | inl e ↦ ap (λ x. x.name) (sym (ok-injective (rw e at h)))
  | inr e ↦ name-non_encrypted f i (rw e at h)
]

names-inputs :
    (fs : List WixField) (is : List InputField)
    → wix_format_fields_to_input_fields fs ≡ ok is
    → names_in_input is ≡ names_in_request fs
unfolding wix_format_fields_to_input_fields
names-inputs [] is h = ap (map (λ f. f.name)) (sym (ok-injective h))
names-inputs (f ∷ fs) is h =
    let (i, e, h') = >>=-eq-ok (wix_format_field_to_input_fields f) _ h in
    let (rest, e', h'') = >>=-eq-ok (traverse wix_format_field_to_input_fields fs) _ h' in
    subst (λ x. map (λ g. g.name) x ≡ names_in_request (f ∷ fs)) (ok-injective h'')
      (ap (λ n. n ∷ names_in_input rest) (name-input f i e)
        ∙ ap (◌∷◌ f.key) (names-inputs fs rest e'))

names-added :
    (db : List ResponseField) (fs : List WixField) (n : String)
    → Listed n (names_in_request (added db fs))
      ↔ (Listed n (names_in_request fs) × (¬ Listed n (names_in_db db)))
unfolding added
names-added db [] n = (λ h. elim h [ ], λ h. h.0)
names-added db (f ∷ fs) n =
    let (to, from) = names-added db fs n in
    let (inside, _) = includes_iff (names_in_db db) f.key in
    let (outside, _) = not-includes_iff (names_in_db db) f.key in
    elim (Bool-cases (includes (names_in_db db) f.key)) [
      | inl e ↦ rw e (
        λ h. (inr (to h).0, (to h).1),
        λ (h, out). elim h [
          | inl k ↦ absurd (out (subst (λ x. Listed x (names_in_db db)) k (inside e)))
          | inr l ↦ from (l, out)
        ],
      )
      | inr e ↦ rw e (
        λ h. elim h [
          | inl k ↦ (inl k, subst (λ x. ¬ Listed x (names_in_db db)) k (outside e))
          | inr l ↦ (inr (to l).0, (to l).1)
        ],
        λ (h, out). elim h [ inl k ↦ inl k | inr l ↦ inr (from (l, out)) ],
      )
    ]

names-removed :
    (db : List ResponseField) (fs : List WixField) (n : String)
    → Listed n (removed db fs) ↔ (Listed n (names_in_db db) × (¬ Listed n (names_in_request fs)))
unfolding removed
names-removed [] fs n = (λ h. elim h [ ], λ h. h.0)
names-removed (c ∷ db) fs n =
    let (to, from) = names-removed db fs n in
    let (inside, _) = includes_iff (names_in_request fs) c.field in
    let (outside, _) = not-includes_iff (names_in_request fs) c.field in
    elim (Bool-cases (includes (names_in_request fs) c.field)) [
      | inl e ↦ rw e (
        λ h. (inr (to h).0, (to h).1),
        λ (h, out). elim h [
          | inl k ↦ absurd (out (subst (λ x. Listed x (names_in_request fs)) k (inside e)))
          | inr l ↦ from (l, out)
        ],
      )
      | inr e ↦ rw e (
        λ h. elim h [
          | inl k ↦ (inl k, subst (λ x. ¬ Listed x (names_in_request fs)) k (outside e))
          | inr l ↦ (inr (to l).0, (to l).1)
        ],
        λ (h, out). elim h [ inl k ↦ inl k | inr l ↦ inr (from (l, out)) ],
      )
    ]

-- What a comparison that succeeds says of the names to add and to remove.
pub difference_names :
    (db : List ResponseField) (fs : List WixField) (d : Difference) (n : String)
    → compare_columns_in_db_and_request db fs ≡ ok d
    → (Listed n (names_in_input d.columns_to_add)
        ↔ (Listed n (names_in_request fs) × (¬ Listed n (names_in_db db))))
      × (Listed n d.columns_to_remove
          ↔ (Listed n (names_in_db db) × (¬ Listed n (names_in_request fs))))
unfolding compare_columns_in_db_and_request
difference_names db fs d n h =
    let (add, e, h') = >>=-eq-ok (wix_format_fields_to_input_fields (added db fs)) _ h in
    let (differing, e', h'') = >>=-eq-ok (changed db fs) _ h' in
    let (change, e'', h''') = >>=-eq-ok (wix_format_fields_to_input_fields differing) _ h'' in
    let same = ok-injective h''' in
    (
      subst (λ x. Listed n x ↔ (Listed n (names_in_request fs) × (¬ Listed n (names_in_db db))))
          (sym (names-inputs (added db fs) add e) ∙ ap (λ x. names_in_input x.columns_to_add) same)
          (names-added db fs n),
      subst
          (λ x.
            Listed n x.columns_to_remove
            ↔ (Listed n (names_in_db db) × (¬ Listed n (names_in_request fs))))
          same (names-removed db fs n),
    )

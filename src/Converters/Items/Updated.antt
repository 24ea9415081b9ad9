-- ===== src/Converters/Items/Updated.antt =====
-- What `prepareForUpdate` makes of an item.
use velo_external_db.Base.{
  subst, ◌↔◌, String, ◌≡◌, refl, sym, ap, ◌∙◌, inl, inr, false, List, [], ◌∷◌, ◌++◌, eq_iff,
  eq_refl, filter, Listed, Distinct, All, append-nil, append_assoc, Bool-cases, arith,
  if◌then◌else◌,
}
use velo_external_db.Commons.Values.{Item, get, has_key, put, keys}
use velo_external_db.Commons.Values.Laws.{get-put, keys-put_new, get-missing}
use velo_external_db.Commons.Runtime.{Runtime}
use velo_external_db.Types.{ResponseField}
use velo_external_db.Converters.Items.{unpack_date, unpack_dates, update_fields, prepare_for_update}
use velo_external_db.Converters.Items.Inserted.{
  names, Fresh, Fresh-put, Fresh-nil, keys-unpack_dates, get-unpack_dates,
}

-- The names of the fields that the item has.
abbrev pub given : Item → List ResponseField → List String
given item fields = filter (λ n. has_key n item) (names fields)

module _ (r : Runtime) (item : Item) where
  keys-update_fields :
      (fs : List ResponseField) (built : Item)
      → Fresh (names fs) built
      → Distinct (names fs)
      → keys (update_fields r item fs built) ≡ keys built ++ given item fs
  unfolding update_fields
  keys-update_fields [] built h d = sym (append-nil _)
  keys-update_fields (f ∷ fs) built (p, h) (new, d) = elim (Bool-cases (has_key f.field item)) [
    | inl e ↦ rw e (
        keys-update_fields fs (put f.field (get f.field item) built)
          (Fresh-put (names fs) f.field (get f.field item) built h new) d
        ∙ (ap (λ ks. ks ++ given item fs) (keys-put_new f.field (get f.field item) built p)
            ∙ append_assoc (keys built) (f.field ∷ []) (given item fs)))
    | inr e ↦ rw e (keys-update_fields fs built h d)
  ]

  get-update_fields_other :
      (fs : List ResponseField) (built : Item) (k : String)
      → ¬ Listed k (names fs)
      → get k (update_fields r item fs built) ≡ get k built
  unfolding update_fields
  get-update_fields_other [] built k h = refl
  get-update_fields_other (f ∷ fs) built k h = elim (Bool-cases (has_key f.field item)) [
    | inl e ↦ rw e (
        get-update_fields_other fs (put f.field (get f.field item) built) k (λ l. h (inr l))
        ∙ (get-put f.field k (get f.field item) built ∙ ground (arith, eq_iff f.field k, h)))
    | inr e ↦ rw e (get-update_fields_other fs built k (λ l. h (inr l)))
  ]

  -- one round of the loop
  abbrev round : String → Item → Item
  round k built = if has_key k item then put k (get k item) built else built

  Fresh-round :
      (ns : List String) (k : String) (built : Item)
      → Fresh ns built
      → ¬ Listed k ns
      → Fresh ns (round k built)
  Fresh-round ns k built h new = elim (Bool-cases (has_key k item)) [
    | inl e ↦ rw e (Fresh-put ns k (get k item) built h new)
    | inr e ↦ rw e h
  ]

  get-round :
      (k : String) (built : Item) → has_key k built ≡ false → get k (round k built) ≡ get k item
  get-round k built fresh = elim (Bool-cases (has_key k item)) [
    | inl e ↦ rw e (get-put k k (get k item) built ∙ (rw (eq_refl k)))
    | inr e ↦ rw e (get-missing k built fresh ∙ sym (get-missing k item e))
  ]

  get-update_fields :
      (fs : List ResponseField) (built : Item)
      → Fresh (names fs) built
      → Distinct (names fs)
      → All (λ f. get f.field (update_fields r item fs built) ≡ get f.field item) fs
  unfolding update_fields
  get-update_fields [] built h d = tt
  get-update_fields (f ∷ fs) built (p, h) (new, d) = (
    get-update_fields_other fs (round f.field built) f.field new ∙ get-round f.field built p,
    get-update_fields fs (round f.field built) (Fresh-round (names fs) f.field built h new) d,
  )

  unpacked_each :
      (built : Item) (fs : List ResponseField)
      → All (λ f. get f.field built ≡ get f.field item) fs
      → All (λ f. get f.field (unpack_dates r built) ≡ unpack_date r (get f.field item)) fs
  unpacked_each built [] h = tt
  unpacked_each built (f ∷ fs) (e, h) =
      (get-unpack_dates r f.field built ∙ ap (unpack_date r) e, unpacked_each built fs h)

  -- For a schema whose names are distinct, the keys of the item prepared for an update are exactly
  -- the fields of the schema that the item has, and at every field of the schema it
  -- holds the item's value, a packed date unpacked. A falsy value is kept.
  pub prepare_for_update_lem :
      (fields : List ResponseField)
      → Distinct (names fields)
      → ((k : String)
          → Listed k (keys (prepare_for_update r item fields)) ↔ Listed k (given item fields))
        × All
            (λ f. get f.field (prepare_for_update r item fields) ≡ unpack_date r (get f.field item))
            fields
  unfolding prepare_for_update
  prepare_for_update_lem fields d =
      let fresh : Fresh (names fields) [] = Fresh-nil (names fields) in
      let same : keys (prepare_for_update r item fields) ≡ given item fields =
        keys-unpack_dates r (update_fields r item fields [])
        ∙ keys-update_fields fields [] fresh d in
      (
        λ k. (λ l. subst (Listed k) same l, λ l. subst (Listed k) (sym same) l),
        unpacked_each (update_fields r item fields []) fields (get-update_fields fields [] fresh d),
      )

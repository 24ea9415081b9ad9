-- ===== src/Converters/Items/Inserted.antt =====
-- What `prepareForInsert` and `prepareForUpdate` make of an item.
use velo_external_db.Base.{
  subst, ◌↔◌, ℕ, String, ◌≡◌, refl, sym, ap, ◌∙◌, inl, inr, false, List, [], ◌∷◌, ◌++◌, map, ◌==◌,
  eq_iff, eq_refl, Listed, Distinct, All, All-at, Among, append-nil, append_assoc, Bool-cases,
  arith, if◌then◌else◌,
}
use velo_external_db.Commons.Values.{Value, Item, get, has_key, put, keys, is_truthy, null}
use velo_external_db.Commons.Values.Laws.{get-put, has_key-put, keys-put_new}
use velo_external_db.Commons.Runtime.{Runtime}
use velo_external_db.Types.{ResponseField}
use velo_external_db.Converters.Items.{
  default_value_for, unpack_date, unpack_dates, value_or_default, insert_fields, prepare_for_insert,
}

abbrev pub names : List ResponseField → List String
names fields = map (λ f. f.field) fields

-- None of the names is a key of the item.
abbrev pub Fresh : List String → Item → Type 0
Fresh ns item = All (λ m. has_key m item ≡ false) ns

pub Fresh-put :
    (ns : List String) (k : String) (v : Value) (item : Item)
    → Fresh ns item
    → ¬ Listed k ns
    → Fresh ns (put k v item)
Fresh-put [] k v item h new = tt
Fresh-put (n ∷ ns) k v item (p, h) new =
    (rw has_key-put (ground (arith, eq_iff k n, new)), Fresh-put ns k v item h (λ l. new (inr l)))

pub Fresh-nil : (ns : List String) → Fresh ns []
unfolding has_key
Fresh-nil [] = tt
Fresh-nil (n ∷ ns) = (refl, Fresh-nil ns)

module _ (r : Runtime) where
  pub keys-unpack_dates : (item : Item) → keys (unpack_dates r item) ≡ keys item
  unfolding unpack_dates
  keys-unpack_dates [] = refl
  keys-unpack_dates ((k, v) ∷ item) = ap (◌∷◌ k) (keys-unpack_dates item)

  pub get-unpack_dates :
      (k : String) (item : Item) → get k (unpack_dates r item) ≡ unpack_date r (get k item)
  unfolding get unpack_dates unpack_date
  get-unpack_dates k [] = refl
  get-unpack_dates k ((i, v) ∷ item) = elim (Bool-cases (i == k)) [
    | inl e ↦ rw e
    | inr e ↦ rw e (get-unpack_dates k item)
  ]

  module _ (item : Item) where
    keys-insert_fields :
        (fs : List ResponseField) (built : Item) (n : ℕ)
        → Fresh (names fs) built
        → Distinct (names fs)
        → keys (insert_fields r item fs built n).0 ≡ keys built ++ names fs
    unfolding insert_fields
    keys-insert_fields [] built n h d = sym (append-nil _)
    keys-insert_fields (f ∷ fs) built n (p, h) (new, d) =
        let (v, n') = value_or_default r item f n in
        keys-insert_fields fs (put f.field v built) n' (Fresh-put (names fs) f.field v built h new)
          d
        ∙ (ap (λ ks. ks ++ names fs) (keys-put_new f.field v built p)
            ∙ append_assoc (keys built) (f.field ∷ []) (names fs))

    get-insert_fields_other :
        (fs : List ResponseField) (built : Item) (n : ℕ) (k : String)
        → ¬ Listed k (names fs)
        → get k (insert_fields r item fs built n).0 ≡ get k built
    unfolding insert_fields
    get-insert_fields_other [] built n k h = refl
    get-insert_fields_other (f ∷ fs) built n k h =
        let (v, n') = value_or_default r item f n in
        get-insert_fields_other fs (put f.field v built) n' k (λ l. h (inr l))
        ∙ (get-put f.field k v built ∙ ground (arith, eq_iff f.field k, h))

    get-insert_fields :
        (fs : List ResponseField) (built : Item) (n : ℕ)
        → Distinct (names fs)
        → All
            (λ f.
              (m : ℕ) × (get f.field (insert_fields r item fs built n).0
                ≡ (value_or_default r item f m).0))
            fs
    unfolding insert_fields
    get-insert_fields [] built n d = tt
    get-insert_fields (f ∷ fs) built n (new, d) =
        let (v, n') = value_or_default r item f n in
        (
          (
            n,
            get-insert_fields_other fs (put f.field v built) n' f.field new
                ∙ (get-put f.field f.field v built ∙ (rw (eq_refl f.field))),
          ),
          get-insert_fields fs (put f.field v built) n' d,
        )

    prepared_keys :
        (fields : List ResponseField) (n : ℕ)
        → Distinct (names fields)
        → keys (prepare_for_insert r item fields n).0 ≡ names fields
    unfolding prepare_for_insert
    prepared_keys fields n d =
        keys-unpack_dates (insert_fields r item fields [] n).0
        ∙ keys-insert_fields fields [] n (Fresh-nil (names fields)) d

    -- Whatever the item holds, the prepared item has exactly the fields of the schema for its keys,
    -- none of them twice, if no two fields have the same name.
    pub keys-prepare_for_insert :
        (fields : List ResponseField) (n : ℕ)
        → Distinct (names fields)
        → Distinct (keys (prepare_for_insert r item fields n).0)
          × ((k : String)
              → Listed k (keys (prepare_for_insert r item fields n).0) ↔ Listed k (names fields))
    keys-prepare_for_insert fields n d =
        let same = prepared_keys fields n d in
        (
          subst Distinct (sym same) d,
          λ k. (λ l. subst (Listed k) same l, λ l. subst (Listed k) (sym same) l),
        )

    -- What the prepared item holds at a field, given some number of earlier draws.
    abbrev pub InsertedAt : Item → ResponseField → Type 0
    InsertedAt prepared f =
        (m : ℕ) × (get f.field prepared
          ≡ unpack_date r (
              if is_truthy (get f.field item)
              then get f.field item
              else (default_value_for r f m).0))

    inserted_each :
        (built : Item) (fs : List ResponseField)
        → All (λ f. (m : ℕ) × (get f.field built ≡ (value_or_default r item f m).0)) fs
        → All (InsertedAt (unpack_dates r built)) fs
    unfolding value_or_default
    inserted_each built [] h = tt
    inserted_each built (f ∷ fs) ((m, e), h) = (
      (m, get-unpack_dates f.field built ∙ ap (unpack_date r) (e ∙ ground arith)),
      inserted_each built fs h,
    )

    -- At every field of the schema, whose names are distinct, the prepared item holds the item's
    -- value, a packed date unpacked, if that value is truthy; otherwise the field's default value at
    -- some draw.
    pub get-prepare_for_insert :
        (fields : List ResponseField) (n : ℕ)
        → Distinct (names fields)
        → All (InsertedAt (prepare_for_insert r item fields n).0) fields
    unfolding prepare_for_insert
    get-prepare_for_insert fields n d =
        inserted_each (insert_fields r item fields [] n).0 fields (get-insert_fields fields [] n d)

    falsy_at :
        (prepared : Item) (f : ResponseField)
        → InsertedAt prepared f
        → is_truthy (get f.field item) ≡ false
        → (f.type == "text") ≡ false
        → (f.type == "datetime") ≡ false
        → get f.field prepared ≡ null
    unfolding default_value_for unpack_date
    falsy_at prepared f (m, e) falsy text datetime = e ∙ (rw (falsy, text, datetime))

    -- At a field of the schema, whose names are distinct, that is neither text nor datetime, a falsy
    -- value of the item (`false`, 0, "") is inserted as null.
    pub falsy-prepare_for_insert :
        (fields : List ResponseField) (n : ℕ) (f : ResponseField)
        → Distinct (names fields)
        → Among f fields
        → is_truthy (get f.field item) ≡ false
        → (f.type == "text") ≡ false
        → (f.type == "datetime") ≡ false
        → get f.field (prepare_for_insert r item fields n).0 ≡ null
    falsy-prepare_for_insert fields n f d i =
        let prepared = (prepare_for_insert r item fields n).0 in
        falsy_at prepared f
          (All-at (InsertedAt prepared) fields f (get-prepare_for_insert fields n d) i)

-- ===== src/Converters/WixData/Idempotent.antt =====
-- Packing an item twice is packing it once.
use Prim.Native.Char.{code}
use text.Mathlib.TextLemmas.{cons-append, nil-append}
use velo_external_db.Base.{
  ◌&◌, String, ◌≡◌, refl, inl, inr, true, false, Option, none, some, [], ◌∷◌, ok, ◌==◌, any, codes,
  eqb, Bool-cases, >>=-eq-ok, ok-injective, arith, All, subst,
}
use velo_external_db.Commons.Values.{ℤ, Value, str, Item, put, has_key}
use velo_external_db.Commons.Values.Laws.{has_key-put}
use velo_external_db.Commons.Iso.{is_iso}
use velo_external_db.Commons.Iso.Colon.{is_iso-colon}
use velo_external_db.Commons.Dates.{is_date}
use velo_external_db.Commons.Runtime.{Runtime}
use velo_external_db.Converters.WixData.{
  is_alphanumeric, replace_non_alphanumeric, fields_concat, generate_ids_if_needed, packed_date,
  pack_date, pack_dates, as_wix_data,
}

-- No value is a date.
abbrev NoDate : Item → Type 0
NoDate item = All (λ e. is_date e.1 ≡ false) item

codes-dash : (s : String) → codes ("-" & s) ≡ b'-' ∷ codes s
codes-dash s = rw (cons-append, nil-append)

no_colon : (s : String) → any (eqb b':') (codes (replace_non_alphanumeric s)) ≡ false
unfolding replace_non_alphanumeric is_alphanumeric
no_colon String.[] = refl
no_colon (String.◌∷◌ c s) = elim (Bool-cases (is_alphanumeric (code c))) [
  | inl e ↦ rw e (ground (arith, no_colon s))
  | inr e ↦ rw e (rw codes-dash (no_colon s))
]

id_not_date : (s : String) → is_date (str (replace_non_alphanumeric s)) ≡ false
unfolding is_date
id_not_date s = elim (Bool-cases (is_iso (replace_non_alphanumeric s))) [
  | inl e ↦ cc (is_iso-colon (replace_non_alphanumeric s) e, no_colon s)
  | inr e ↦ e
]

NoDate-put :
    (k : String) (v : Value) (item : Item) → NoDate item → is_date v ≡ false → NoDate (put k v item)
unfolding put
NoDate-put k v [] h p = (p, tt)
NoDate-put k v ((j, w) ∷ item) (q, h) p = elim (Bool-cases (j == k)) [
  | inl e ↦ rw e (p, h)
  | inr e ↦ rw e (q, NoDate-put k v item h p)
]

module _ (r : Runtime) where
  pack_date-NoDate : (v w : Value) → pack_date r v ≡ ok w → is_date w ≡ false
  unfolding pack_date
  pack_date-NoDate v w h = elim (Bool-cases (is_date v)) [
    | inl e ↦ packed (r.calendar.of_value v) (rw (e, pack_date) at h)
    | inr e ↦ subst (λ x. is_date x ≡ false) (ok-injective (rw (e, pack_date) at h)) e
  ]
    where
      packed : (t : Option ℤ) → packed_date r t ≡ ok w → is_date w ≡ false
      packed none p = cc
      packed (some t) p = subst (λ x. is_date x ≡ false) (ok-injective p) (unfold is_date in refl)

  pack_dates-NoDate : (item w : Item) → pack_dates r item ≡ ok w → NoDate w
  unfolding pack_dates
  pack_dates-NoDate [] w h = subst NoDate (ok-injective h) tt
  pack_dates-NoDate ((k, v) ∷ item) w h =
      let (x, e, h') = >>=-eq-ok (pack_date r v) _ h in
      let (rest, e', h'') = >>=-eq-ok (pack_dates r item) _ h' in
      subst NoDate (ok-injective h'') (pack_date-NoDate v x e, pack_dates-NoDate item rest e')

  NoDate-pack_dates : (item : Item) → NoDate item → pack_dates r item ≡ ok item
  unfolding pack_dates pack_date
  NoDate-pack_dates [] h = refl
  NoDate-pack_dates ((k, v) ∷ item) (p, h) = rw (p, NoDate-pack_dates item h)

  NoDate-generate : (item : Item) → NoDate item → NoDate (generate_ids_if_needed r item)
  unfolding generate_ids_if_needed
  NoDate-generate item h = elim (Bool-cases (has_key "_id" item)) [
    | inl e ↦ rw e h
    | inr e ↦ rw e (NoDate-put "_id" _ item h (id_not_date (r.sha1_base64 (fields_concat r item))))
  ]

  has_id-generate : (item : Item) → has_key "_id" (generate_ids_if_needed r item) ≡ true
  unfolding generate_ids_if_needed
  has_id-generate item = elim (Bool-cases (has_key "_id" item)) [
    | inl e ↦ rw e e
    | inr e ↦ rw e (rw has_key-put refl)
  ]

  generate_again : (item : Item) → has_key "_id" item ≡ true → generate_ids_if_needed r item ≡ item
  unfolding generate_ids_if_needed
  generate_again item h = rw h

  -- If `asWixData` returns, its result has an `_id`, and `asWixData` leaves that result as it is:
  -- wrapping an item a second time, as `bulkDelete` does, changes nothing.
  pub as_wix_data_idempotent :
      (item w : Item)
      → as_wix_data r item ≡ ok w
      → (has_key "_id" w ≡ true) × (as_wix_data r w ≡ ok w)
  unfolding as_wix_data
  as_wix_data_idempotent item w h =
      let (packed, e, h') = >>=-eq-ok (pack_dates r item) _ h in
      let same : generate_ids_if_needed r packed ≡ w = ok-injective h' in
      let id : has_key "_id" w ≡ true =
        subst (λ x. has_key "_id" x ≡ true) same (has_id-generate packed) in
      let plain : NoDate w =
        subst NoDate same (NoDate-generate packed (pack_dates-NoDate item packed e)) in
      (id, rw (NoDate-pack_dates w plain, generate_again w id))

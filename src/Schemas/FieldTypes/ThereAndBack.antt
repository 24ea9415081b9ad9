-- ===== src/Schemas/FieldTypes/ThereAndBack.antt =====
-- Which adapter types survive the way out to a client and back.
use velo_external_db.Base.{String, ◌≡◌, ◌↔◌, inl, inr, List, [], ◌∷◌, ok, eq_iff, Listed, arith}
use velo_external_db.Schemas.FieldTypes.{
  field_type_to_wix_data_enum, wix_data_enum_to_field_type, there_and_back,
}

abbrev pub lasting : List String
lasting = "text" ∷ "number" ∷ "boolean" ∷ "object" ∷ "datetime" ∷ []

lasting_of : (t : String) → there_and_back t ≡ ok t → Listed t lasting
unfolding field_type_to_wix_data_enum wix_data_enum_to_field_type
lasting_of t h = ground (
  arith,
  eq_iff t "text",
  eq_iff t "longText",
  eq_iff t "number",
  eq_iff t "boolean",
  eq_iff t "object",
  eq_iff t "datetime",
  eq_iff t "singleReference",
  eq_iff t "multiReference",
  eq_iff t "time",
  eq_iff t "date",
)

of_lasting : (t : String) → Listed t lasting → there_and_back t ≡ ok t
unfolding field_type_to_wix_data_enum wix_data_enum_to_field_type
of_lasting t (inl e) = rw (← e)
of_lasting t (inr (inl e)) = rw (← e)
of_lasting t (inr (inr (inl e))) = rw (← e)
of_lasting t (inr (inr (inr (inl e)))) = rw (← e)
of_lasting t (inr (inr (inr (inr (inl e))))) = rw (← e)
of_lasting t (inr (inr (inr (inr (inr h))))) = elim h [ ]

-- The adapter types that a client's answer brings back unchanged are exactly text, number, boolean,
-- object and datetime.
pub there_and_back_iff : (t : String) → (there_and_back t ≡ ok t) ↔ Listed t lasting
there_and_back_iff t = (lasting_of t, of_lasting t)

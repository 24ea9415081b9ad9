-- ===== src/Commons/Iso/Colon.antt =====
-- A text in the form of ISO 8601 holds a colon.
use velo_external_db.Base.{
  ℕ, String, ◌≡◌, refl, Bool, true, List, [], ◌∷◌, any, codes, eqb, Bool-cases, inl, inr, arith,
}
use velo_external_db.Commons.Iso.{
  fits, matches_shape, shape, after_point, zone, is_iso_fraction, is_iso_seconds, is_iso,
}

-- A shape that asks for a colon is matched by texts with a colon only.
colon_of_matches :
    (ps cs : List ℕ) (rest : List ℕ → Bool)
    → any (eqb b':') ps ≡ true
    → matches_shape ps cs rest ≡ true
    → any (eqb b':') cs ≡ true
unfolding matches_shape fits
colon_of_matches [] cs rest h m = cc
colon_of_matches (p ∷ ps) [] rest h m = cc
colon_of_matches (p ∷ ps) (c ∷ cs) rest h m = ground (arith, colon_of_matches ps cs rest)

pub is_iso-colon : (s : String) → is_iso s ≡ true → any (eqb b':') (codes s) ≡ true
unfolding is_iso is_iso_fraction is_iso_seconds
is_iso-colon s h = elim (Bool-cases (is_iso_fraction s)) [
  | inl e ↦ colon_of_matches shape (codes s) after_point refl e
  | inr e ↦ colon_of_matches shape (codes s) zone refl (rw (e) at h)
]

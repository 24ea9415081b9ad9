-- ===== src/Commons/Iso.antt =====
-- The two regular expressions of `isDate` in data_commons.ts, as recognisers over code points:
-- \d{4}-\d{2}-\d{2}T\d{2}:\d{2}:\d{2}, for the first of them \.\d*, and (?:Z|(\+|-)([\d|:]*))?
pub mod Colon
use velo_external_db.Base.{
  ℕ, String, ◌≡◌, refl, Bool, true, false, ◌&&◌, ◌||◌, List, [], ◌∷◌, codes, eqb, leb,
  if◌then◌else◌,
}

is_digit : ℕ → Bool
is_digit c = leb b'0' c && leb c b'9'

-- The fixed part, as its shape: `d` stands for a digit.
abbrev shape : List ℕ
shape = codes "dddd-dd-ddTdd:dd:dd"

-- What follows the text that matches the shape; a text that does not match leaves one that no
-- ending matches.
fits : ℕ → ℕ → Bool
unfolding is_digit
fits p c = if eqb p b'd' then is_digit c else eqb p c

matches_shape : List ℕ → List ℕ → (List ℕ → Bool) → Bool
unfolding fits
matches_shape [] cs rest = rest cs
matches_shape (p ∷ ps) [] rest = false
matches_shape (p ∷ ps) (c ∷ cs) rest = fits p c && matches_shape ps cs rest

-- [\d|:]* up to the end
offset_digits : List ℕ → Bool
unfolding is_digit
offset_digits [] = true
offset_digits (c ∷ cs) = (is_digit c || eqb c b'|' || eqb c b':') && offset_digits cs

zone : List ℕ → Bool
unfolding offset_digits
zone [] = true
zone (c ∷ []) = eqb c b'Z' || eqb c b'+' || eqb c b'-'
zone (c ∷ cs) = (eqb c b'+' || eqb c b'-') && offset_digits cs

-- \d* and the zone
fraction : List ℕ → Bool
unfolding zone is_digit
fraction [] = true
fraction (c ∷ cs) = let longer = fraction cs in if is_digit c then longer else zone (c ∷ cs)

after_point : List ℕ → Bool
unfolding fraction
after_point [] = false
after_point (c ∷ cs) = eqb c b'.' && fraction cs

-- reISO
unfoldable pub is_iso_fraction : String → Bool
unfolding matches_shape after_point
is_iso_fraction s = matches_shape shape (codes s) after_point

-- reISO2
unfoldable pub is_iso_seconds : String → Bool
unfolding matches_shape zone
is_iso_seconds s = matches_shape shape (codes s) zone

unfoldable pub is_iso : String → Bool
unfolding is_iso_fraction is_iso_seconds
is_iso s = is_iso_fraction s || is_iso_seconds s

iso_tests :
    (is_iso "2022-01-02T03:04:05.678Z" ≡ true)
    × (is_iso "2022-01-02T03:04:05+01:00" ≡ true)
    × (is_iso_fraction "2022-01-02T03:04:05Z" ≡ false)
    × (is_iso "2022-01-02" ≡ false)
    × (is_iso "2022-01-02T03:04:05ZZ" ≡ false)
unfolding is_iso
iso_tests = (refl, refl, refl, refl, refl)

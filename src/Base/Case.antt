-- ===== src/Base/Case.antt =====
-- Letter case, for the Latin letters of ASCII; other characters are left as they are.
use Prim.Native.Char.{code}
use Prim.Native.String.{String}
use mathlib.Core.Path.{◌≡◌, refl}
use mathlib.Core.List.{List, [], ◌∷◌}
use Prim.Native.Nat.{ℕ, ◌-◌}
use velo_external_db.Base.Tests.{eqb, if◌then◌else◌}
use velo_external_db.Base.Text.{◌&◌}

abbrev letters : List (ℕ × String × String)
letters =
    (b'a', "a", "A")
    ∷ (b'b', "b", "B")
    ∷ (b'c', "c", "C")
    ∷ (b'd', "d", "D")
    ∷ (b'e', "e", "E")
    ∷ (b'f', "f", "F")
    ∷ (b'g', "g", "G")
    ∷ (b'h', "h", "H")
    ∷ (b'i', "i", "I")
    ∷ (b'j', "j", "J")
    ∷ (b'k', "k", "K")
    ∷ (b'l', "l", "L")
    ∷ (b'm', "m", "M")
    ∷ (b'n', "n", "N")
    ∷ (b'o', "o", "O")
    ∷ (b'p', "p", "P")
    ∷ (b'q', "q", "Q")
    ∷ (b'r', "r", "R")
    ∷ (b's', "s", "S")
    ∷ (b't', "t", "T")
    ∷ (b'u', "u", "U")
    ∷ (b'v', "v", "V")
    ∷ (b'w', "w", "W")
    ∷ (b'x', "x", "X")
    ∷ (b'y', "y", "Y")
    ∷ (b'z', "z", "Z")
    ∷ []

find_lower : List (ℕ × String × String) → ℕ → String → String
find_lower [] c other = other
find_lower ((k, l, u) ∷ ls) c other = if eqb (k - 32) c then l else find_lower ls c other

find_upper : List (ℕ × String × String) → ℕ → String → String
find_upper [] c other = other
find_upper ((k, l, u) ∷ ls) c other = if eqb k c then u else find_upper ls c other

-- `s.toLowerCase()`
unfoldable pub lower : String → String
unfolding find_lower
lower String.[] = ""
lower (String.◌∷◌ c s) = find_lower letters (code c) (String.◌∷◌ c String.[]) & lower s

-- `s.toUpperCase()`
unfoldable pub upper : String → String
unfolding find_upper
upper String.[] = ""
upper (String.◌∷◌ c s) = find_upper letters (code c) (String.◌∷◌ c String.[]) & upper s

case_tests : (lower "Desc_Z[" ≡ "desc_z[") × (upper "asc{9" ≡ "ASC{9")
unfolding lower upper
case_tests = (refl, refl)

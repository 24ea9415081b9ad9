-- ===== src/Base/Text.antt =====
-- Text: membership of names, the parts of a dotted path, and decimal numerals.
use Prim.Native.Nat.{ℕ, zero, suc, ◌/◌, ◌%◌}
use Prim.Native.Char.{code}
use Prim.Native.String
use Prim.Native.String.{String}
use mathlib.Core.Path.{◌≡◌, refl}
use mathlib.Core.Logic.{◌↔◌, ◌⊎◌, inl, inr}
use mathlib.Core.Bool.{Bool, true, false, ◌||◌}
use mathlib.Core.List.{List, [], ◌∷◌, ◌++◌}
use native.Mathlib.Omega.{arith}
use text.Mathlib.Text.{◌==◌}
use text.Mathlib.TextEquality.{eq_iff}
use velo_external_db.Base.Tests.{eqb, leb, if◌then◌else◌, Bool-cases}

-- Concatenation, as in a template literal.
infixr 64 ◌&◌
abbrev pub ◌&◌ : String → String → String
s & t = String.◌++◌ s t

-- `names.includes(name)`
abbrev pub includes : List String → String → Bool
includes [] name = false
includes (n ∷ ns) name = n == name || includes ns name

abbrev pub codes : String → List ℕ
codes String.[] = []
codes (String.◌∷◌ c s) = code c ∷ codes s

-- `s.includes(c)` for one character
abbrev pub has_char : ℕ → String → Bool
has_char k String.[] = false
has_char k (String.◌∷◌ c s) = eqb (code c) k || has_char k s

-- `s.split(c)[0]`: the text before the first `c`
abbrev pub before_char : ℕ → String → String
before_char k String.[] = String.[]
before_char k (String.◌∷◌ c s) =
    let rest = before_char k s in if eqb (code c) k then String.[] else String.◌∷◌ c rest

-- the rest of `s.split(c)`, joined by `c` again: the text after the first `c`
abbrev pub after_char : ℕ → String → String
after_char k String.[] = String.[]
after_char k (String.◌∷◌ c s) = if eqb (code c) k then s else after_char k s

-- `s.startsWith(c)` for one character
abbrev pub starts_with_char : ℕ → String → Bool
starts_with_char k String.[] = false
starts_with_char k (String.◌∷◌ c s) = eqb (code c) k

-- `texts.join(separator)`
abbrev pub join : String → List String → String
join sep [] = ""
join sep (s ∷ []) = s
join sep (s ∷ t ∷ ts) = s & sep & join sep (t ∷ ts)

abbrev digit : ℕ → String
digit n =
    if eqb n 0
    then "0"
    else if eqb n 1
    then "1"
    else if eqb n 2
    then "2"
    else if eqb n 3
    then "3"
    else if eqb n 4
    then "4"
    else if eqb n 5
    then "5"
    else if eqb n 6
    then "6"
    else if eqb n 7
    then "7"
    else if eqb n 8
    then "8"
    else "9"

-- The decimal text of a number; a number has fewer digits than it has units, so `n` is fuel enough.
decimal_from : ℕ → ℕ → String → String
decimal_from zero n rest = rest
decimal_from (suc f) n rest =
    let more = decimal_from f (n / 10) (digit (n % 10) & rest) in
    if leb n 9 then digit n & rest else more

unfoldable pub decimal : ℕ → String
unfolding decimal_from
decimal n = decimal_from (suc n) n ""

decimal_test : decimal 2048 ≡ "2048"
unfolding decimal
decimal_test = refl

-- A name stands in a list of names.
abbrev pub Listed : String → List String → Type 0
Listed name [] = ⊥
Listed name (n ∷ ns) = (n ≡ name) ⊎ Listed name ns

pub Listed-left : (k : String) (a b : List String) → Listed k a → Listed k (a ++ b)
Listed-left k [] b h = elim h [ ]
Listed-left k (x ∷ a) b (inl e) = inl e
Listed-left k (x ∷ a) b (inr h) = inr (Listed-left k a b h)

pub Listed-right : (k : String) (a b : List String) → Listed k b → Listed k (a ++ b)
Listed-right k [] b h = h
Listed-right k (x ∷ a) b h = inr (Listed-right k a b h)

pub includes_iff :
    (names : List String) (name : String) → (includes names name ≡ true) ↔ Listed name names
includes_iff [] name = (λ h. cc, λ h. elim h [ ])
includes_iff (n ∷ ns) name =
    let (to, from) = includes_iff ns name in
    (λ h. ground (arith, eq_iff n name, to), λ h. ground (arith, eq_iff n name, from))

pub not-includes_iff :
    (names : List String) (name : String) → (includes names name ≡ false) ↔ (¬ Listed name names)
not-includes_iff names name = (
  λ h k. ground (arith, (includes_iff names name).1 k),
  λ h. elim (Bool-cases (includes names name)) [
    | inl e ↦ absurd (h ((includes_iff names name).0 e))
    | inr e ↦ e
  ],
)

-- No name is repeated.
abbrev pub Distinct : List String → Type 0
Distinct [] = Unit
Distinct (n ∷ ns) = (¬ Listed n ns) × Distinct ns

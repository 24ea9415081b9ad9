-- ===== src/Base/Results.antt =====
-- Fallible and stateful code. `Outcome E A` is a value or a thrown error; an asynchronous function
-- over a store `S` is a state-passing function that keeps the store when it throws.
use mathlib.Core.Path.{◌≡◌, refl}
use mathlib.Core.Logic.{◌⊎◌, inl, inr}
use mathlib.Core.List.{List, [], ◌∷◌}
use mathlib.Core.Bool.{Bool, true, false}
use velo_external_db.Base.Tests.{if◌then◌else◌}

pub data Outcome {ℓ κ} (E : Type ℓ) (A : Type κ) : Type (ℓ ⊔ κ) where
  ok : A → Outcome E A
  err : E → Outcome E A

module _ {ℓ κ} {E : Type ℓ} {A : Type κ} where
  pub Outcome-cases : (r : Outcome E A) → ((a : A) × (r ≡ ok a)) ⊎ ((e : E) × (r ≡ err e))
  Outcome-cases (ok a) = inl (a, refl)
  Outcome-cases (err e) = inr (e, refl)

infixl 5 ◌>>=◌ ◌>>◌
abbrev pub ◌>>=◌ {ℓ κ λ'} :
    {E : Type ℓ} {A : Type κ} {B : Type λ'} → Outcome E A → (A → Outcome E B) → Outcome E B
err e >>= next = err e
ok a >>= next = next a

abbrev pub ◌>>◌ {ℓ κ} : {E : Type ℓ} {B : Type κ} → Outcome E (Unit {0}) → Outcome E B → Outcome E B
check >> next = check >>= λ u. next

pub >>=-eq-ok {ℓ κ λ'} :
    {E : Type ℓ} {A : Type κ} {B : Type λ'} (first : Outcome E A) (next : A → Outcome E B) {b : B}
    → (first >>= next) ≡ ok b
    → (a : A) × (first ≡ ok a) × (next a ≡ ok b)
>>=-eq-ok (err e) next h = cc
>>=-eq-ok (ok a) next h = (a, refl, h)

-- `xs.map(f)` where `f` may throw: the first error ends it.
abbrev pub traverse {ℓ κ λ'} :
    {E : Type ℓ} {A : Type κ} {B : Type λ'} → (A → Outcome E B) → List A → Outcome E (List B)
traverse f [] = ok []
traverse f (x ∷ xs) = do y ← f x; ys ← traverse f xs; ok (y ∷ ys)

pub ok-injective {ℓ κ} :
    {E : Type ℓ} {A : Type κ} {a b : A} → ◌≡◌ {A = Outcome E A} (ok a) (ok b) → a ≡ b
ok-injective h = cc

-- A guard that lets pass has its test true.
pub guard-eq-ok {ℓ} :
    {E : Type ℓ} (b : Bool) (e : E) → (if b then ok tt else err e) ≡ ok (tt {0}) → b ≡ true
guard-eq-ok true e h = refl
guard-eq-ok false e h = cc

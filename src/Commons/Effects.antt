-- ===== src/Commons/Effects.antt =====
-- Asynchronous code over a store: a function of the store that returns a value or throws, with the
-- store after it. What is awaited in turn runs in turn. The calls that `Promise.all` starts run in
-- the order in which they are started, one after the other, and all of them, also after an error: a
-- call takes effect at once. A call that reads what it writes later, between which others may write,
-- as `addColumn` of the Firestore adapter does, is not such a call.
use velo_external_db.Base.{sym, ap, ◌∙◌, ok, err, List, [], ◌∷◌, ◌≡◌, refl}
use velo_external_db.Commons.Errors.{Error, Result}

abbrev pub Exec : Type 0 → Type 0 → Type 0
Exec S A = S → Result A × S

abbrev pub pure : {S A : Type 0} → A → Exec S A
pure a s = (ok a, s)

abbrev pub throw : {S A : Type 0} → Error → Exec S A
throw e s = (err e, s)

abbrev pub lift : {S A : Type 0} → Result A → Exec S A
lift r s = (r, s)

-- the rest of the code, after a call
abbrev pub proceed : {S A B : Type 0} → Result A → S → (A → Exec S B) → Result B × S
proceed (ok a) s f = f a s
proceed (err e) s f = (err e, s)

infixl 5 ◌>>=◌ ◌>>◌
unfoldable pub ◌>>=◌ : {S A B : Type 0} → Exec S A → (A → Exec S B) → Exec S B
◌>>=◌ m f s = proceed (m s).0 (m s).1 f

abbrev pub ◌>>◌ : {S B : Type 0} → Exec S (Unit {0}) → Exec S B → Exec S B
m >> k = m >>= λ _. k

abbrev pub handled : {A : Type 0} → Result A → (Error → A) → A
handled (ok a) handler = a
handled (err e) handler = handler e

-- `promise.catch(handler)`
abbrev pub catch : {S A : Type 0} → Exec S A → (Error → A) → Exec S A
catch m handler s = (ok (handled (m s).0 handler), (m s).1)

abbrev both : {A : Type 0} → Result A → Result (List A) → Result (List A)
both (ok a) (ok rest) = ok (a ∷ rest)
both (ok a) (err e) = err e
both (err e) rest = err e

-- `Promise.all(xs.map(f))`: the first error of them all, or the results in the order of `xs`
unfoldable pub promise_all : {S A B : Type 0} → (A → Exec S B) → List A → Exec S (List B)
promise_all f [] s = (ok [], s)
promise_all f (x ∷ xs) s =
    let (r, s') = f x s in let (rest, s'') = promise_all f xs s' in (both r rest, s'')

-- A value that is returned, if one is, satisfies `P`.
abbrev pub Returns : {A : Type 0} → (A → Type 0) → Result A → Type 0
Returns P (ok a) = P a
Returns P (err e) = Unit

pub Returns-ok :
    {A : Type 0} (P : A → Type 0) (r : Result A) → ((a : A) → r ≡ ok a → P a) → Returns P r
Returns-ok P (ok a) h = h a refl
Returns-ok P (err e) h = tt

-- A block that returns has run its first call with success, and then the rest.
pub proceed-ok :
    {S A B : Type 0} (r : Result A) (s : S) (f : A → Exec S B) {b : B}
    → (proceed r s f).0 ≡ ok b
    → (a : A) × (r ≡ ok a) × (proceed r s f ≡ f a s)
proceed-ok (ok a) s f h = (a, refl, refl)
proceed-ok (err e) s f h = cc

pub >>=-ok :
    {S A B : Type 0} (m : Exec S A) (f : A → Exec S B) (s : S) {b : B}
    → (◌>>=◌ m f s).0 ≡ ok b
    → (a : A) × ((m s).0 ≡ ok a) × (◌>>=◌ m f s ≡ f a (m s).1) × ((f a (m s).1).0 ≡ ok b)
unfolding ◌>>=◌
>>=-ok m f s h =
    let (a, ran, same) = proceed-ok (m s).0 (m s).1 f h in
    (a, ran, same, sym (ap (λ x. x.0) same) ∙ h)

both-ok :
    {A : Type 0} (r : Result A) (rest : Result (List A)) (all : List A)
    → both r rest ≡ ok all
    → (a : A) × (as' : List A) × (r ≡ ok a) × (rest ≡ ok as')
both-ok (ok a) (ok as') all h = (a, as', refl, refl)
both-ok (ok a) (err e) all h = cc
both-ok (err e) rest all h = cc

-- If `Promise.all` returns, its first call has, and the others.
pub promise_all-ok :
    {S A B : Type 0} (f : A → Exec S B) (x : A) (xs : List A) (s : S) (bs : List B)
    → (promise_all f (x ∷ xs) s).0 ≡ ok bs
    → (b : B) × (bs' : List B) × ((f x s).0 ≡ ok b) × ((promise_all f xs (f x s).1).0 ≡ ok bs')
unfolding promise_all
promise_all-ok f x xs s bs h = both-ok (f x s).0 (promise_all f xs (f x s).1).0 bs h

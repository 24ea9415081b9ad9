-- ===== src/MsSql/Filter/Assigned.antt =====
-- Entries with distinct keys, put one after the other.
use velo_external_db.Base.{
  String, ◌≡◌, refl, sym, ap, ◌∙◌, inl, inr, subst, List, [], ◌∷◌, ◌++◌, append-nil, append_assoc,
  Listed, Listed-left, Distinct, ◌==◌, eq_iff, Bool-cases,
}
use velo_external_db.Commons.Values.{Value, Item, put, keys}
use velo_external_db.MsSql.Sql.{assign}

pub keys-append : (a b : Item) → keys (a ++ b) ≡ keys a ++ keys b
keys-append [] b = refl
keys-append ((k, v) ∷ a) b = ap (◌∷◌ k) (keys-append a b)

pub Distinct-left : (a b : List String) → Distinct (a ++ b) → Distinct a
Distinct-left [] b h = tt
Distinct-left (x ∷ a) b (n, h) = (λ k. n (Listed-left x a b k), Distinct-left a b h)

pub Distinct-right : (a b : List String) → Distinct (a ++ b) → Distinct b
Distinct-right [] b h = h
Distinct-right (x ∷ a) b (n, h) = Distinct-right a b h

put-new : (k : String) (v : Value) (o : Item) → (¬ Listed k (keys o)) → put k v o ≡ o ++ (k, v) ∷ []
unfolding put
put-new k v [] h = refl
put-new k v ((i, w) ∷ o) h = elim (Bool-cases (i == k)) [
  | inl e ↦ absurd (h (inl ((eq_iff i k).0 e)))
  | inr e ↦ rw e (ap (◌∷◌ (i, w)) (put-new k v o (λ l. h (inr l))))
]

Listed-middle : (k : String) (a b : List String) → Listed k (a ++ k ∷ b)
Listed-middle k [] b = inl refl
Listed-middle k (x ∷ a) b = inr (Listed-middle k a b)

-- A key before a key is another.
middle-new : (k : String) (a b : List String) → Distinct (a ++ k ∷ b) → ¬ Listed k a
middle-new k [] b h l = elim l [ ]
middle-new k (x ∷ a) b (n, h) (inl e) =
    n (subst (λ z. Listed z (a ++ k ∷ b)) (sym e) (Listed-middle k a b))
middle-new k (x ∷ a) b (n, h) (inr l) = middle-new k a b h l

pub assign-eq : (o b : Item) → Distinct (keys o ++ keys b) → assign o b ≡ o ++ b
assign-eq o [] h = sym (append-nil o)
assign-eq o ((k, v) ∷ b) h =
    let next = o ++ (k, v) ∷ [] in
    let same : keys next ++ keys b ≡ keys o ++ k ∷ keys b =
      ap (λ x. x ++ keys b) (keys-append o ((k, v) ∷ []))
      ∙ append_assoc (keys o) (k ∷ []) (keys b) in
    rw (put-new k v o (middle-new k (keys o) (keys b) h))
      (assign-eq next b (subst Distinct (sym same) h) ∙ append_assoc o ((k, v) ∷ []) b)

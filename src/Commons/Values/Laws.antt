-- ===== src/Commons/Values/Laws.antt =====
-- The laws of reading and writing an object's entries.
use velo_external_db.Base.{
  String, ◌≡◌, refl, true, false, [], ◌∷◌, ◌++◌, ◌==◌, eq_iff, arith, if◌then◌else◌, includes,
}
use velo_external_db.Commons.Values.{Value, undefined, Item, get, has_key, put, keys}

pub get-put :
    (k j : String) (v : Value) (item : Item)
    → get j (put k v item) ≡ (if k == j then v else get j item)
unfolding get put
get-put k j v [] = refl
get-put k j v ((i, w) ∷ item) =
    ground (arith, eq_iff k j, eq_iff i k, eq_iff i j, get-put k j v item)

pub has_key-put :
    (k j : String) (v : Value) (item : Item)
    → has_key j (put k v item) ≡ (if k == j then true else has_key j item)
unfolding has_key put
has_key-put k j v [] = refl
has_key-put k j v ((i, w) ∷ item) =
    ground (arith, eq_iff k j, eq_iff i k, eq_iff i j, has_key-put k j v item)

pub has_key-includes : (k : String) (item : Item) → has_key k item ≡ includes (keys item) k
unfolding has_key
has_key-includes k [] = refl
has_key-includes k ((i, w) ∷ item) = ground (arith, has_key-includes k item)

-- A new key goes to the end.
pub keys-put_new :
    (k : String) (v : Value) (item : Item)
    → has_key k item ≡ false
    → keys (put k v item) ≡ keys item ++ k ∷ []
unfolding has_key put
keys-put_new k v [] h = refl
keys-put_new k v ((i, w) ∷ item) h = ground (arith, keys-put_new k v item)

-- An old key keeps its place.
pub keys-put_old :
    (k : String) (v : Value) (item : Item) → has_key k item ≡ true → keys (put k v item) ≡ keys item
unfolding has_key put
keys-put_old k v [] h = cc
keys-put_old k v ((i, w) ∷ item) h = ground (arith, eq_iff i k, keys-put_old k v item)

pub get-missing : (k : String) (item : Item) → has_key k item ≡ false → get k item ≡ undefined
unfolding get has_key
get-missing k [] h = refl
get-missing k ((i, w) ∷ item) h = ground (arith, get-missing k item)

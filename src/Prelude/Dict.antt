-- ===== src/Prelude/Dict.antt =====
-- A Go map with string keys as an association list. Go iterates over a map in an unspecified
-- order; a loop over the list takes the entries in the list's order, and the theorems hold for
-- every list.
use raag.Prelude.{
  suc, ◌≤◌, ◌≡◌, refl, Str, ◌==◌, eq_iff, eq_refl, Bool, false, List, [], ◌∷◌, Option, none, some,
  is_some, length, arith, if◌then◌else◌,
}

abbrev pub Dict {ℓ} : Type ℓ → Type ℓ
Dict V = List (Str × V)

module _ {ℓ} {V : Type ℓ} where
  -- v, exists := m[k]
  unfoldable pub get : Str → Dict V → Option V
  get k [] = none
  get k ((j, v) ∷ m) = if j == k then some v else get k m

  -- m[k] = v
  unfoldable pub put : Str → V → Dict V → Dict V
  put k v [] = (k, v) ∷ []
  put k v ((j, w) ∷ m) = if j == k then (k, v) ∷ m else (j, w) ∷ put k v m

  -- delete(m, k)
  unfoldable pub remove : Str → Dict V → Dict V
  remove k [] = []
  remove k ((j, w) ∷ m) = let rest = remove k m in if j == k then rest else (j, w) ∷ rest

  abbrev pub has : Str → Dict V → Bool
  has k m = is_some (get k m)

  pub get-put :
      (k j : Str) (v : V) (m : Dict V) → get j (put k v m) ≡ (if k == j then some v else get j m)
  unfolding get put
  get-put k j v [] = refl
  get-put k j v ((i, w) ∷ m) = ground (arith, eq_iff k j, eq_iff i k, eq_iff i j, get-put k j v m)

  pub get-remove :
      (k j : Str) (m : Dict V) → get j (remove k m) ≡ (if k == j then none else get j m)
  unfolding get remove
  get-remove k j [] = ground arith
  get-remove k j ((i, w) ∷ m) = ground (arith, eq_iff k j, eq_iff i k, eq_iff i j, get-remove k j m)

  pub get-put_self : (k : Str) (v : V) (m : Dict V) → get k (put k v m) ≡ some v
  get-put_self k v m = ground (arith, get-put k k v m, eq_refl k)

  pub length-put :
      (k : Str) (v : V) (m : Dict V)
      → length (put k v m) ≡ (if has k m then length m else suc (length m))
  unfolding get put
  length-put k v [] = refl
  length-put k v ((i, w) ∷ m) = ground (arith, length-put k v m)

  pub length-remove-le : (k : Str) (m : Dict V) → length (remove k m) ≤ length m
  unfolding remove
  length-remove-le k [] = omega arith
  length-remove-le k ((i, w) ∷ m) = ground (arith, length-remove-le k m)

pub ruleset dict_laws = (get-put, get-remove)

module _ {ℓ} {V : Type ℓ} where
  abbrev pub keys : Dict V → List Str
  keys [] = []
  keys ((k, v) ∷ m) = k ∷ keys m

  -- No key stands twice, as in every Go map.
  abbrev pub Distinct : Dict V → Type 0
  Distinct [] = Unit
  Distinct ((k, v) ∷ m) = (has k m ≡ false) × Distinct m

  pub put-Distinct : (k : Str) (v : V) (m : Dict V) → Distinct m → Distinct (put k v m)
  unfolding put get
  put-Distinct k v [] d = (refl, tt)
  put-Distinct k v ((j, w) ∷ m) d =
      ground (arith, eq_iff j k, eq_iff k j, get-put k j v m, put-Distinct k v m d.1)

  pub remove-Distinct : (k : Str) (m : Dict V) → Distinct m → Distinct (remove k m)
  unfolding remove get
  remove-Distinct k [] d = tt
  remove-Distinct k ((j, w) ∷ m) d = ground (arith, get-remove k j m, remove-Distinct k m d.1)

  -- Deleting a key that is there makes a map without repeated keys smaller.
  pub length-remove :
      (k : Str) (m : Dict V)
      → Distinct m
      → length m ≡ (if has k m then suc (length (remove k m)) else length (remove k m))
  unfolding remove get
  length-remove k [] d = refl
  length-remove k ((j, w) ∷ m) d = ground (arith, eq_iff j k, length-remove k m d.1)

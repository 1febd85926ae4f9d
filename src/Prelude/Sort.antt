-- ===== src/Prelude/Sort.antt =====
-- slices.Sorted on strings: byte order, and insertion sort as one way to reach the sorted list.
use raag.Prelude.{
  ◌≡◌, refl, Str, ◌==◌, Bool, true, false, ◌&&◌, ◌||◌, List, [], ◌∷◌, arith, ltb, eqb,
  if◌then◌else◌,
}

unfoldable pub ltb_str : Str → Str → Bool
ltb_str [] [] = false
ltb_str [] (y ∷ ys) = true
ltb_str (x ∷ xs) [] = false
ltb_str (x ∷ xs) (y ∷ ys) = ltb x y || (eqb x y && ltb_str xs ys)

pub ltb_str_asymm : (s t : Str) → ltb_str s t ≡ true → ltb_str t s ≡ false
unfolding ltb_str
ltb_str_asymm [] [] h = cc
ltb_str_asymm [] (y ∷ ys) h = refl
ltb_str_asymm (x ∷ xs) [] h = cc
ltb_str_asymm (x ∷ xs) (y ∷ ys) h = ground (arith, ltb_str_asymm xs ys)

pub insert : Str → List Str → List Str
insert k [] = k ∷ []
insert k (j ∷ js) = if ltb_str j k then j ∷ insert k js else k ∷ j ∷ js

unfoldable pub sort : List Str → List Str
unfolding insert
sort [] = []
sort (k ∷ ks) = insert k (sort ks)

-- No text comes before the one in front of it.
abbrev pub IsSorted : List Str → Type 0
IsSorted [] = Unit
IsSorted (k ∷ []) = Unit
IsSorted (k ∷ j ∷ js) = (ltb_str j k ≡ false) × IsSorted (j ∷ js)

unfoldable pub elem : Str → List Str → Bool
elem k [] = false
elem k (j ∷ js) = j == k || elem k js

insert-IsSorted : (k : Str) (js : List Str) → IsSorted js → IsSorted (insert k js)
unfolding insert
insert-IsSorted k [] s = tt
insert-IsSorted k (j ∷ []) s = ground (arith, ltb_str_asymm j k)
insert-IsSorted k (j ∷ i ∷ is) s =
    ground (arith, ltb_str_asymm j k, ltb_str_asymm i k, insert-IsSorted k (i ∷ is) s.1)

pub sort-IsSorted : (ks : List Str) → IsSorted (sort ks)
unfolding sort
sort-IsSorted [] = tt
sort-IsSorted (k ∷ ks) = insert-IsSorted k (sort ks) (sort-IsSorted ks)

elem-insert : (i k : Str) (js : List Str) → elem i (insert k js) ≡ (k == i || elem i js)
unfolding elem insert
elem-insert i k [] = refl
elem-insert i k (j ∷ js) = ground (arith, elem-insert i k js)

pub elem-sort : (i : Str) (ks : List Str) → elem i (sort ks) ≡ elem i ks
unfolding elem sort
elem-sort i [] = refl
elem-sort i (k ∷ ks) = ground (arith, elem-insert i k (sort ks), elem-sort i ks)

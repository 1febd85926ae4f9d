-- ===== src/Discovery/Addresses/Selected.antt =====
-- What is known of the advertised addresses.
use mathlib.Core.Path.{subst}
use raag.Prelude.{
  ℕ, zero, suc, ◌≤◌, ◌<◌, ◌≡◌, refl, Str, eq_iff, true, false, ◌&&◌, ◌||◌, List, [], ◌∷◌, ◌++◌,
  length, All, All-append, arith, if◌then◌else◌, sym, ◌∙◌,
}
use raag.Prelude.Sort.{elem}
use raag.Discovery.{Multiaddrs}
use raag.Discovery.Addresses.{
  is_reachable_addr, filter_reachable_addresses, is_quic, is_tcp, split, prioritize_addresses,
  max_advertised_addrs, pick, advertise, select_advertised_addresses,
}

-- QUIC comes before TCP, and both before the rest.
unfoldable pub rank : Str → ℕ
rank addr = if is_quic addr then 0 else if is_tcp addr then 1 else 2

abbrev pub InOrder : List Str → Type 0
InOrder [] = Unit
InOrder (a ∷ as') = All (λ b. rank a ≤ rank b) as' × InOrder as'

abbrev pub IsDistinct : List Str → Type 0
IsDistinct [] = Unit
IsDistinct (a ∷ as') = (elem a as' ≡ false) × IsDistinct as'

elem-append : (a : Str) (xs ys : List Str) → elem a (xs ++ ys) ≡ (elem a xs || elem a ys)
unfolding elem
elem-append a [] ys = refl
elem-append a (x ∷ xs) ys = ground (arith, elem-append a xs ys)

elem-filter :
    (m : Multiaddrs) (a : Str) (as' : List Str)
    → elem a (filter_reachable_addresses m as') ≡ (elem a as' && is_reachable_addr m a)
unfolding elem filter_reachable_addresses
elem-filter m a [] = refl
elem-filter m a (b ∷ as') = ground (arith, elem-filter m a as', eq_iff b a)

elem-prioritize : (a : Str) (as' : List Str) → elem a (prioritize_addresses as') ≡ elem a as'
unfolding elem prioritize_addresses
elem-prioritize a [] = refl
elem-prioritize a (b ∷ as') =
    let s = split as' in
    ground (
      arith,
      elem-prioritize a as',
      elem-append a s.quic (s.tcp ++ s.other),
      elem-append a s.tcp s.other,
      elem-append a (b ∷ s.quic) (s.tcp ++ s.other),
      elem-append a s.quic ((b ∷ s.tcp) ++ s.other),
      elem-append a s.quic (s.tcp ++ (b ∷ s.other)),
      elem-append a (b ∷ s.tcp) s.other,
      elem-append a s.tcp (b ∷ s.other),
    )

Ranked : ℕ → List Str → Type 0
Ranked k = All (λ a. rank a ≡ k)

split-Ranked :
    (as' : List Str)
    → Ranked 0 (split as').quic × Ranked 1 (split as').tcp × Ranked 2 (split as').other
unfolding split rank Ranked
split-Ranked [] = (tt, tt, tt)
split-Ranked (a ∷ as') = ground (arith, split-Ranked as')

All-below :
    (j k : ℕ) (a : Str) (as' : List Str)
    → rank a ≡ j
    → j ≤ k
    → Ranked k as'
    → All (λ b. rank a ≤ rank b) as'
unfolding Ranked
All-below j k a [] e le r = tt
All-below j k a (b ∷ as') e le r = (omega (arith, e, le, r.0), All-below j k a as' e le r.1)

-- Texts of one rank in front of texts in order, none of a lower rank.
InOrder-append :
    (k l : ℕ) (xs ys : List Str)
    → Ranked k xs
    → InOrder ys
    → ((a : Str) → rank a ≡ k → All (λ b. rank a ≤ rank b) ys)
    → InOrder (xs ++ ys)
unfolding Ranked
InOrder-append k l [] ys r o below = o
InOrder-append k l (x ∷ xs) ys r o below = (
  All-append (λ b. rank x ≤ rank b) xs ys (All-below k k x xs r.0 (omega arith) r.1) (below x r.0),
  InOrder-append k l xs ys r.1 o below,
)

Ranked-InOrder : (k : ℕ) (xs : List Str) → Ranked k xs → InOrder xs
unfolding Ranked
Ranked-InOrder k [] r = tt
Ranked-InOrder k (x ∷ xs) r = (All-below k k x xs r.0 (omega arith) r.1, Ranked-InOrder k xs r.1)

prioritize-InOrder : (as' : List Str) → InOrder (prioritize_addresses as')
unfolding prioritize_addresses
prioritize-InOrder as' =
    let s = split as' in
    let ranked = split-Ranked as' in
    let tail =
      InOrder-append 1 2 s.tcp s.other ranked.1 (Ranked-InOrder 2 s.other ranked.2)
        (λ a e. All-below 1 2 a s.other e (omega arith) ranked.2) in
    InOrder-append 0 1 s.quic (s.tcp ++ s.other) ranked.0 tail (λ a e.
      All-append (λ b. rank a ≤ rank b) s.tcp s.other
        (All-below 0 1 a s.tcp e (omega arith) ranked.1)
        (All-below 0 2 a s.other e (omega arith) ranked.2))

-- The loop.
length-pick-le : (n : ℕ) (seen as' : List Str) → length (pick n seen as') ≤ n
unfolding pick
length-pick-le zero seen as' = omega arith
length-pick-le (suc n) seen [] = omega arith
length-pick-le (suc n) seen (a ∷ as') =
    ground (arith, length-pick-le (suc n) seen as', length-pick-le n (a ∷ seen) as')

elem-pick :
    (x : Str) (n : ℕ) (seen as' : List Str)
    → elem x (pick n seen as') ≡ true
    → (elem x as' ≡ true) × (elem x seen ≡ false)
unfolding pick elem
elem-pick x zero seen as' h = ground (arith, h)
elem-pick x (suc n) seen [] h = ground (arith, h)
elem-pick x (suc n) seen (a ∷ as') h =
    ground (arith, eq_iff a x, elem-pick x (suc n) seen as', elem-pick x n (a ∷ seen) as')

pick-IsDistinct : (n : ℕ) (seen as' : List Str) → IsDistinct (pick n seen as')
unfolding pick elem
pick-IsDistinct zero seen as' = tt
pick-IsDistinct (suc n) seen [] = tt
pick-IsDistinct (suc n) seen (a ∷ as') = ground (
  arith,
  eq_iff a a,
  elem-pick a n (a ∷ seen) as',
  pick-IsDistinct (suc n) seen as',
  pick-IsDistinct n (a ∷ seen) as',
)

pick-All : (P : Str → Type 0) (n : ℕ) (seen as' : List Str) → All P as' → All P (pick n seen as')
unfolding pick
pick-All P zero seen as' h = tt
pick-All P (suc n) seen [] h = tt
pick-All P (suc n) seen (a ∷ as') h =
    ground (arith, pick-All P (suc n) seen as' h.1, pick-All P n (a ∷ seen) as' h.1)

pick-InOrder : (n : ℕ) (seen as' : List Str) → InOrder as' → InOrder (pick n seen as')
unfolding pick
pick-InOrder zero seen as' o = tt
pick-InOrder (suc n) seen [] o = tt
pick-InOrder (suc n) seen (a ∷ as') o = ground (
  arith,
  pick-InOrder (suc n) seen as' o.1,
  pick-InOrder n (a ∷ seen) as' o.1,
  pick-All (λ b. rank a ≤ rank b) n (a ∷ seen) as' o.0,
)

pick_complete :
    (x : Str) (n : ℕ) (seen as' : List Str)
    → length (pick n seen as') < n
    → elem x as' ≡ true
    → (elem x (pick n seen as') || elem x seen) ≡ true
unfolding pick elem
pick_complete x zero seen as' short h = elim short [ ]
pick_complete x (suc n) seen [] short h = ground (arith, h)
pick_complete x (suc n) seen (a ∷ as') short h =
    ground (arith, eq_iff a x, pick_complete x (suc n) seen as', pick_complete x n (a ∷ seen) as')

-- A choice of at most six of some addresses, all different and reachable, QUIC first and then TCP,
-- with every reachable one unless there are six.
pub record IsSelected (m : Multiaddrs) (addrs selected : List Str) : Type 0 where
  pub bounded : length selected ≤ max_advertised_addrs
  pub distinct : IsDistinct selected
  pub in_order : InOrder selected
  pub chosen :
      (a : Str) → elem a selected ≡ true → (elem a addrs ≡ true) × (is_reachable_addr m a ≡ true)
  pub complete :
      (a : Str)
      → length selected < max_advertised_addrs
      → elem a addrs ≡ true
      → is_reachable_addr m a ≡ true
      → elem a selected ≡ true

pick-first :
    (addrs : List Str) (a : Str) (as' : List Str)
    → advertise addrs (a ∷ as') ≡ pick max_advertised_addrs [] (a ∷ as')
unfolding advertise pick elem
pick-first addrs a as' = refl

advertise-IsSelected :
    (m : Multiaddrs) (addrs found : List Str)
    → ((a : Str) → elem a found ≡ (elem a addrs && is_reachable_addr m a))
    → InOrder found
    → IsSelected m addrs (advertise addrs found)
unfolding advertise elem
advertise-IsSelected m addrs [] from o = record {
  bounded = omega arith;
  distinct = tt;
  in_order = tt;
  chosen = λ a h. ground (arith, h);
  complete = λ a short h r. ground (arith, from a, h, r);
}
advertise-IsSelected m addrs (b ∷ bs) from o =
    subst (IsSelected m addrs) (sym (pick-first addrs b bs)) (record {
      bounded = length-pick-le max_advertised_addrs [] (b ∷ bs);
      distinct = pick-IsDistinct max_advertised_addrs [] (b ∷ bs);
      in_order = pick-InOrder max_advertised_addrs [] (b ∷ bs) o;
      chosen = λ a h. ground (arith, elem-pick a max_advertised_addrs [] (b ∷ bs) h, from a);
      complete = λ a short h r.
          ground (arith, h, r, from a, pick_complete a max_advertised_addrs [] (b ∷ bs) short);
    })

-- Whatever the host's addresses, the code selects at most six of them, all distinct and reachable, in
-- the order of their ranks, and every reachable one if they are fewer than six.
pub select_advertised_addresses-IsSelected :
    (m : Multiaddrs) (addrs : List Str) → IsSelected m addrs (select_advertised_addresses m addrs)
unfolding select_advertised_addresses
select_advertised_addresses-IsSelected m addrs =
    advertise-IsSelected m addrs (prioritize_addresses (filter_reachable_addresses m addrs))
      (λ a. elem-prioritize a (filter_reachable_addresses m addrs) ∙ elem-filter m a addrs)
      (prioritize-InOrder (filter_reachable_addresses m addrs))

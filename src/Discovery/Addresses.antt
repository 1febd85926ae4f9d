-- ===== src/Discovery/Addresses.antt =====
-- internal/discovery/manager.go: which addresses a peer advertises and tries.
pub mod Selected
use raag.Prelude.{
  ℕ, zero, suc, Str, codes, Bool, true, false, not, ◌&&◌, List, [], ◌∷◌, ◌++◌, Option, none, some,
  retain, take, contains, to_lower, if◌then◌else◌,
}
use raag.Prelude.Sort.{elem}
use raag.Discovery.{Multiaddrs}

module _ (m : Multiaddrs) where
  open m use {
    p_ip4, value_for_protocol, parse_addr, is_private, is_loopback, is_link_local_unicast,
    is_multicast,
  }

  unfoldable pub is_reachable_addr : Str → Bool
  is_reachable_addr addr = elim (value_for_protocol p_ip4 addr) [
    | none ↦ true
    | some text ↦ elim (parse_addr text) [
      | none ↦ false
      | some ip ↦
          not (is_private ip)
          && not (is_loopback ip)
          && not (is_link_local_unicast ip)
          && not (is_multicast ip)
    ]
  ]

  unfoldable pub filter_reachable_addresses : List Str → List Str
  filter_reachable_addresses addrs = retain is_reachable_addr addrs

unfoldable pub is_quic : Str → Bool
is_quic addr = contains (to_lower addr) (codes "/quic-v1")

unfoldable pub is_tcp : Str → Bool
is_tcp addr = contains (to_lower addr) (codes "/tcp/")

-- The three slices that the loop fills.
pub record Split : Type 0 where
  pub quic : List Str
  pub tcp : List Str
  pub other : List Str

abbrev put_addr : Bool → Bool → Str → Split → Split
put_addr true _ addr s = record s { quic = addr ∷ s.quic }
put_addr false true addr s = record s { tcp = addr ∷ s.tcp }
put_addr false false addr s = record s { other = addr ∷ s.other }

split : List Str → Split
split [] = record { quic = []; tcp = []; other = [] }
split (addr ∷ addrs) = put_addr (is_quic addr) (is_tcp addr) addr (split addrs)

unfoldable pub prioritize_addresses : List Str → List Str
unfolding split
prioritize_addresses addrs = let s = split addrs in s.quic ++ (s.tcp ++ s.other)

abbrev pub max_advertised_addrs : ℕ
max_advertised_addrs = 6

-- The loop, which ends when `left` more addresses were taken; `seen` are those taken before.
pick : ℕ → List Str → List Str → List Str
pick zero seen addrs = []
pick (suc left) seen [] = []
pick (suc left) seen (addr ∷ addrs) =
    let skipped = pick (suc left) seen addrs in
    let taken = pick left (addr ∷ seen) addrs in if elem addr seen then skipped else addr ∷ taken

abbrev or_first : List Str → List Str → List Str
or_first addrs [] = take 1 addrs
or_first addrs (a ∷ as') = a ∷ as'

-- `addrs` are the addresses before the choice.
advertise : List Str → List Str → List Str
unfolding pick
advertise addrs [] = []
advertise addrs (best ∷ rest) = or_first addrs (pick max_advertised_addrs [] (best ∷ rest))

unfoldable pub select_advertised_addresses : Multiaddrs → List Str → List Str
unfolding advertise
select_advertised_addresses m addrs =
    advertise addrs (prioritize_addresses (filter_reachable_addresses m addrs))

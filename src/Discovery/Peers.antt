-- ===== src/Discovery/Peers.antt =====
-- internal/discovery/manager.go and persistence.go: the peers that a Manager keeps, and how it
-- connects to them.
pub mod Throttle
pub mod Cap
pub mod RoundTrip
use raag.Prelude.{
  ℕ, zero, suc, ◌+◌, ◌-◌, ◌<◌, Str, codes, ◌==◌, Bool, true, false, not, ◌&&◌, ◌||◌, List, [], ◌∷◌,
  ◌++◌, Option, none, some, map, Result, ok, err, length, leb, ltb, is_empty, if◌then◌else◌,
}
use raag.Prelude.Sort.{elem}
use raag.Prelude.Dict.{get}
use raag.Clock.{second}
use raag.Auth.{Crypto}
use raag.Storage.{write_json_atomic}
use raag.Discovery.{AddrInfo, Multiaddrs}
use raag.Discovery.World.{World, Urls}
use raag.Discovery.Addresses.{filter_reachable_addresses, prioritize_addresses}
use raag.Discovery.Client.{ClientError, fetch_peers, no_addrs}
use raag.Discovery.State.{
  Manager, Effect, bootstrapped, connecting, notified, peers_saved, dht_bootstrap_peer_threshold,
}

module _ {w : World} {k : Crypto} where
  abbrev pub note : Effect → Manager w k → Manager w k
  note e m = record m { effects = e ∷ m.effects }

  abbrev pub now : Manager w k → ℕ
  now m = w.now m.host

  -- Peerstore().AddAddrs
  abbrev pub add_addrs : AddrInfo → ℕ → Manager w k → Manager w k
  add_addrs p ttl m = record m { host = w.add_addrs p.id p.addrs ttl m.host }

  -- throttledBootstrap. It stands still while less than the throttle has passed since the last one
  -- and fewer peers than the threshold have come.
  bootstrap_due : Manager w k → Bool
  bootstrap_due m = not (
      ltb (now m) (m.last_bootstrap + m.bootstrap_throttle)
      && ltb m.peer_count_since_bootstrap dht_bootstrap_peer_threshold)

  bootstrap_if : Bool → Manager w k → Manager w k
  bootstrap_if false m = m
  bootstrap_if true m =
      note (bootstrapped (now m))
        (record m { last_bootstrap = now m; peer_count_since_bootstrap = 0 })

  unfoldable pub throttled_bootstrap : Manager w k → Manager w k
  unfolding bootstrap_due bootstrap_if
  throttled_bootstrap m =
      let counted = record m { peer_count_since_bootstrap = suc m.peer_count_since_bootstrap } in
      if m.dht then bootstrap_if (bootstrap_due counted) counted else m

  unfoldable pub add_as_bootstrap : Manager w k → Manager w k
  add_as_bootstrap m = if m.dht then throttled_bootstrap m else m

  -- The loop of GetAllPeers and persistPeers.
  listed : Manager w k → List Str → List AddrInfo
  listed m [] = []
  listed m (id ∷ ids) =
      let addrs = w.known_addrs m.host id in
      let rest = listed m ids in
      if id == w.host_id m.host || no_addrs addrs
      then rest
      else record { id = id; addrs = addrs } ∷ rest

  unfoldable pub get_all_peers : Manager w k → List AddrInfo
  unfolding listed
  get_all_peers m = listed m (w.known m.host)

-- AddrInfoStrings
full_addrs : (Str → Str → Str) → Str → List Str → List Str
full_addrs encapsulate id [] = []
full_addrs encapsulate id (addr ∷ addrs) =
    encapsulate addr (codes "/p2p/" ++ id) ∷ full_addrs encapsulate id addrs

unfoldable pub addr_info_strings : Multiaddrs → List AddrInfo → List Str
unfolding full_addrs
addr_info_strings a [] = []
addr_info_strings a (p ∷ ps) = full_addrs a.encapsulate p.id p.addrs ++ addr_info_strings a ps

put_info : Option AddrInfo → List AddrInfo → List AddrInfo
put_info none peers = peers
put_info (some p) peers = p ∷ peers

unfoldable pub infos_of : Multiaddrs → List Str → List AddrInfo
unfolding put_info
infos_of a [] = []
infos_of a (s ∷ ss) =
    put_info (elim (a.new_multiaddr s) [ none ↦ none | some ma ↦ a.addr_info_from_p2p_addr ma ])
      (infos_of a ss)

-- What Load reads of a file's contents, or none for its error.
unfoldable pub load : (Str → Option (List Str)) → Multiaddrs → Option Str → Option (List AddrInfo)
load from_json a none = some []
load from_json a (some text) = elim (from_json text) [
  | none ↦ none
  | some strings ↦ some (infos_of a strings)
]

module _ {w : World} {k : Crypto} (a : Multiaddrs) where
  -- Save
  unfoldable pub save : List AddrInfo → Manager w k → Manager w k
  save peers m =
      let text = w.strings_json (addr_info_strings a peers) in
      let (_, s) =
        write_json_atomic (w.faults m.host) (w.temp_name m.host) m.peers_file text
          (record { disk = m.disk; seen = [] }) in
      if w.mkdir_fails m.host then m else record m { disk = s.disk }

  unfoldable pub persist_peers : Manager w k → Manager w k
  persist_peers m = let peers = get_all_peers m in note (peers_saved peers) (save peers m)

  add_all : List AddrInfo → Manager w k → Manager w k
  add_all [] m = m
  add_all (p ∷ ps) m = add_all ps (add_addrs p w.permanent_addr_ttl m)

  unfoldable pub load_persisted_peers : Manager w k → Manager w k
  unfolding add_all
  load_persisted_peers m = elim (load w.json_strings a (get m.peers_file m.disk)) [
    | none ↦ m
    | some peers ↦ add_all peers m
  ]

  -- `go m.connectWithRetry(p)` is noted; its turn comes later.
  unfoldable pub try_connect_to_peer : AddrInfo → Manager w k → Manager w k
  try_connect_to_peer p m = if p.id == w.host_id m.host then m else note (connecting p) m

  unfoldable pub save_peer : AddrInfo → Bool → Manager w k → Manager w k
  save_peer p skip_auto_connect m =
      let ids = w.known m.host in
      let added = persist_peers (add_addrs p w.permanent_addr_ttl m) in
      if elem p.id ids
      then m
      else if leb m.max_peers (length ids)
      then m
      else if not skip_auto_connect && not (elem p.id (w.connected m.host))
      then try_connect_to_peer p added
      else added

-- ===== src/Discovery/Rounds.antt =====
-- internal/discovery/manager.go: the DHT, and the peers that it and mDNS find.
pub mod Within
use raag.Prelude.{
  ℕ, suc, ◌+◌, ◌*◌, ◌%◌, ◌^◌, Str, codes, ◌==◌, Bool, true, false, not, ◌&&◌, ◌||◌, List, [], ◌∷◌,
  ◌++◌, Option, none, some, Result, ok, err, ltb, is_empty, if◌then◌else◌,
}
use raag.Prelude.Sort.{elem}
use raag.Clock.{hour}
use raag.Auth.{Crypto}
use raag.Discovery.{AddrInfo, Multiaddrs}
use raag.Discovery.World.{World, Urls}
use raag.Discovery.Client.{fetch_peers, no_addrs}
use raag.Discovery.State.{Manager, bootstrapped, mdns_retry_initial_delay, mdns_retry_max_delay}
use raag.Discovery.Peers.{note, now, add_addrs, throttled_bootstrap, save_peer}
use raag.Discovery.Connect.{on_host}

pub data AddError : Type 0 where
  dht_disabled dht_not_initialized connect_failed : AddError

others : Str → List AddrInfo → List AddrInfo
others self [] = []
others self (p ∷ ps) = let rest = others self ps in if p.id == self then rest else p ∷ rest

any_other : Str → List Str → Bool
any_other self [] = false
any_other self (id ∷ ids) = not (id == self) || any_other self ids

module _ {w : World} {k : Crypto} where
  -- dht.Bootstrap, whose error is only logged.
  abbrev bootstrap : Manager w k → Manager w k
  bootstrap m = note (bootstrapped (now m)) m

  unfoldable pub add_bootstrap_peer :
      Multiaddrs → AddrInfo → Manager w k → Manager w k × Result AddError Unit
  add_bootstrap_peer a p m =
      let (h, done) = w.connect p m.host in
      if not m.dht_enabled
      then (m, err dht_disabled)
      else if not m.dht
      then (m, err dht_not_initialized)
      else if done
      then (save_peer a p false (bootstrap (on_host h m)), ok tt)
      else (on_host h m, err connect_failed)

  unfoldable pub fetch_tracker_peers_for_dht :
      Urls → Multiaddrs → Manager w k → Manager w k × List AddrInfo
  unfolding others
  fetch_tracker_peers_for_dht u a m =
      let (h, peers) = fetch_peers w u a m.client_url m.host in
      if is_empty m.tracker_url
      then (m, [])
      else (on_host h m, elim peers [ err e ↦ [] | ok found ↦ others (w.host_id m.host) found ])

  add_day : List AddrInfo → Manager w k → Manager w k
  add_day [] m = m
  add_day (p ∷ ps) m =
      add_day ps (if p.id == w.host_id m.host then m else add_addrs p (24 * hour) m)

  -- The peers of initDHT's loops: those of the list with an address, less this host and `left_out`.
  with_addrs : List Str → Manager w k → List Str → List AddrInfo
  with_addrs left_out m [] = []
  with_addrs left_out m (id ∷ ids) =
      let addrs = w.known_addrs m.host id in
      let rest = with_addrs left_out m ids in
      if id == w.host_id m.host || elem id left_out || no_addrs addrs
      then rest
      else record { id = id; addrs = addrs } ∷ rest

  -- What the DHT is made with, and the Manager once the tracker has been asked.
  unfoldable pub dht_seeds : Urls → Multiaddrs → Manager w k → Manager w k × List AddrInfo
  unfolding with_addrs add_day
  dht_seeds u a m =
      let conns = w.connected m.host in
      let (m', found) = fetch_tracker_peers_for_dht u a m in
      (add_day found m', with_addrs [] m conns ++ (with_addrs conns m (w.known m.host) ++ found))

  -- `false` is the error of dht.New.
  unfoldable pub init_dht : Urls → Multiaddrs → Manager w k → Manager w k × Bool
  init_dht u a m =
      let (m', seeds) = dht_seeds u a m in
      let (h, done) = w.new_dht seeds m'.host in
      if done then (bootstrap (record m' { host = h; dht = true }), true) else (on_host h m', false)

  unfoldable pub populate_dht_from_connected_peers : Manager w k → Manager w k
  unfolding any_other
  populate_dht_from_connected_peers m =
      if m.dht && any_other (w.host_id m.host) (w.connected m.host)
      then throttled_bootstrap m
      else m

  unfoldable pub refresh_dht_from_tracker : Urls → Multiaddrs → Manager w k → Manager w k
  unfolding add_day
  refresh_dht_from_tracker u a m =
      let (m', peers) = fetch_tracker_peers_for_dht u a m in
      if not m.dht then m else if no_addrs peers then m' else throttled_bootstrap (add_day peers m')

  -- One round of discoverViaDHT over the peers that FindPeers gives: those known when it began, and
  -- those discovered in it.
  round : Multiaddrs → List Str → List Str → List AddrInfo → Manager w k → Manager w k
  round a known_ids discovered [] m = m
  round a known_ids discovered (p ∷ ps) m =
      let skipped = round a known_ids discovered ps m in
      let taken = round a known_ids (p.id ∷ discovered) ps (save_peer a p false m) in
      if is_empty p.id || p.id == w.host_id m.host
      then skipped
      else if elem p.id known_ids
      then skipped
      else if elem p.id discovered
      then skipped
      else taken

  unfoldable pub discovery_round : Multiaddrs → List AddrInfo → Manager w k → Manager w k
  unfolding round
  discovery_round a ps m = round a (w.known m.host) [] ps m

  unfoldable pub handle_peer_found : Multiaddrs → AddrInfo → Manager w k → Manager w k
  handle_peer_found a p m =
      if p.id == w.host_id m.host
      then m
      else if elem p.id (w.known m.host)
      then m
      else save_peer a p false (record m { mdns_peer_count = suc m.mdns_peer_count % 2 ^ 64 })

-- ===== src/Discovery/Start.antt =====
-- internal/discovery/manager.go: how a Manager starts, and how it tries again to start mDNS.
use raag.Prelude.{
  ℕ, ◌*◌, ◌≡◌, ◌⊎◌, inl, Str, codes, Bool, true, false, List, [], ◌∷◌, All, ltb, arith, is_empty,
  if◌then◌else◌,
}
use raag.Clock.{second}
use raag.Auth.{Crypto}
use raag.Discovery.{Multiaddrs}
use raag.Discovery.World.{World, Urls}
use raag.Discovery.State.{Manager, mdns_retry_initial_delay, mdns_retry_max_delay}
use raag.Discovery.Peers.{load_persisted_peers}
use raag.Discovery.Connect.{discover_from_tracker, connect_bootstrap_peers}
use raag.Discovery.Rounds.{init_dht, populate_dht_from_connected_peers}

-- A turn of discoverViaMDNS: the context is done before it; the service does not start, and the
-- context is done or not while the loop waits; or the service runs until it is refreshed.
pub data Turn : Type 0 where
  done : Turn
  failed : Bool → Turn
  ran : Turn

module _ {w : World} {k : Crypto} where
  -- What Start does by itself, apart from the goroutines that it starts before the DHT.
  unfoldable pub start_up : Urls → Multiaddrs → Manager w k → Manager w k
  start_up u a m =
      let loaded = load_persisted_peers a m in
      let (found, _) = discover_from_tracker u a loaded in
      let connected = connect_bootstrap_peers a found in
      if connected.dht_enabled
      then populate_dht_from_connected_peers (init_dht u a connected).0
      else connected

  unfoldable pub get_mdns_service_name : Manager w k → Str
  get_mdns_service_name m =
      if is_empty m.mdns_service_name then codes "_p2p._udp" else m.mdns_service_name

  -- The delay is doubled after a failure while it is below the greatest.
  failed_once : Manager w k → Manager w k
  failed_once m =
      if ltb m.mdns_retry_delay mdns_retry_max_delay
      then record m { mdns_retry_delay = m.mdns_retry_delay * 2 }
      else m

  abbrev waits : ℕ → Manager w k × List ℕ → Manager w k × List ℕ
  waits delay (m, delays) = (m, delay ∷ delays)

  -- The Manager after some turns, and the delays that it waited for.
  unfoldable pub discover_via_mdns : List Turn → Manager w k → Manager w k × List ℕ
  unfolding failed_once
  discover_via_mdns [] m = (m, [])
  discover_via_mdns (done ∷ ts) m = (m, [])
  discover_via_mdns (failed true ∷ ts) m = (m, m.mdns_retry_delay ∷ [])
  discover_via_mdns (failed false ∷ ts) m =
      waits m.mdns_retry_delay (discover_via_mdns ts (failed_once m))
  discover_via_mdns (ran ∷ ts) m =
      discover_via_mdns ts (record m { mdns_retry_delay = mdns_retry_initial_delay })

-- 10, 20, 40 or 80 seconds.
abbrev pub IsMdnsDelay : ℕ → Type 0
IsMdnsDelay d = (d ≡ 10 * second) ⊎ ((d ≡ 20 * second) ⊎ ((d ≡ 40 * second) ⊎ (d ≡ 80 * second)))

module _ {w : World} {k : Crypto} where
  failed_once-IsMdnsDelay :
      (m : Manager w k)
      → IsMdnsDelay m.mdns_retry_delay
      → IsMdnsDelay (failed_once m).mdns_retry_delay
  unfolding failed_once
  failed_once-IsMdnsDelay m h = ground (arith, h)

  -- A Manager whose mDNS delay is 10, 20, 40 or 80 seconds, as it is 10 at the start, waits for 10, 20, 40 or 80 seconds, whatever
  -- fails and however often the service runs in between.
  pub mdns_delays :
      (ts : List Turn) (m : Manager w k)
      → IsMdnsDelay m.mdns_retry_delay
      → All IsMdnsDelay (discover_via_mdns ts m).1
  unfolding discover_via_mdns
  mdns_delays [] m h = tt
  mdns_delays (done ∷ ts) m h = tt
  mdns_delays (failed true ∷ ts) m h = (h, tt)
  mdns_delays (failed false ∷ ts) m h =
      (h, mdns_delays ts (failed_once m) (failed_once-IsMdnsDelay m h))
  mdns_delays (ran ∷ ts) m h =
      mdns_delays ts (record m { mdns_retry_delay = mdns_retry_initial_delay }) (inl (omega arith))

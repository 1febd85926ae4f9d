-- ===== src/Discovery/Connect.antt =====
-- internal/discovery/manager.go: how a Manager connects to the peers it has found.
use raag.Prelude.{
  ℕ, zero, suc, ◌*◌, Str, ◌==◌, true, not, List, [], ◌∷◌, Option, none, some, Result, ok, err,
  is_empty, if◌then◌else◌,
}
use raag.Clock.{second}
use raag.Auth.{Crypto}
use raag.Discovery.{AddrInfo, Multiaddrs}
use raag.Discovery.World.{World, Urls}
use raag.Discovery.Addresses.{filter_reachable_addresses, prioritize_addresses}
use raag.Discovery.Client.{ClientError, fetch_peers, no_addrs}
use raag.Discovery.State.{Manager, notified}
use raag.Discovery.Peers.{note, throttled_bootstrap, add_as_bootstrap, save_peer}
use raag.Discovery.Backoff.{Turn, Ended, retry, next_min}

abbrev pub max_retries : ℕ
max_retries = 3

abbrev pub retry_delays : List ℕ
retry_delays = 2 * second ∷ (5 * second ∷ (10 * second ∷ []))

abbrev pub first_or_empty : List Str → Str
first_or_empty [] = []
first_or_empty (addr ∷ _) = addr

unfoldable pub tried_addrs : Multiaddrs → List Str → List Str
tried_addrs a addrs = prioritize_addresses (filter_reachable_addresses a addrs)

module _ {w : World} {k : Crypto} where
  abbrev pub on_host : w.Host → Manager w k → Manager w k
  on_host h m = record m { host = h }

  notify : AddrInfo → Manager w k → Manager w k
  notify p m = if m.has_network_manager then note (notified p.id (first_or_empty p.addrs)) m else m

  -- What follows on a connection.
  abbrev connected_to : AddrInfo → Manager w k → Manager w k
  connected_to p m = notify p (throttled_bootstrap m)

  -- The attempts left with the delays left. `wait` is the host after a delay, or none where the
  -- context is done before.
  attempts : (ℕ → w.Host → Option w.Host) → ℕ → List ℕ → AddrInfo → Manager w k → Manager w k
  unfolding notify
  attempts wait zero delays p m = m
  attempts wait (suc zero) delays p m =
      let (h, done) = w.connect p m.host in
      if done then connected_to p (on_host h m) else on_host h m
  attempts wait (suc (suc left)) [] p m = m
  attempts wait (suc (suc left)) (delay ∷ delays) p m =
      let (h, done) = w.connect p m.host in
      let again : Manager w k = elim (wait delay h) [
        | none ↦ on_host h m
        | some h' ↦ attempts wait (suc left) delays p (on_host h' m)
      ] in
      if done then connected_to p (on_host h m) else again

  unfoldable pub connect_with_retry :
      Multiaddrs → (ℕ → w.Host → Option w.Host) → AddrInfo → Manager w k → Manager w k
  unfolding attempts
  connect_with_retry a wait p m =
      if not (no_addrs (w.conns m.host p.id))
      then m
      else attempts wait max_retries retry_delays (record p { addrs = tried_addrs a p.addrs }) m

  -- The loop of discoverFromTracker.
  connect_found : Multiaddrs → List AddrInfo → Manager w k → Manager w k
  connect_found a [] m = m
  connect_found a (p ∷ ps) m =
      let saved = save_peer a p true m in
      let (h, done) = w.connect p saved.host in
      let after = if done then add_as_bootstrap (on_host h saved) else on_host h saved in
      connect_found a ps (if p.id == w.host_id m.host then m else after)

  unfoldable pub discover_from_tracker :
      Urls → Multiaddrs → Manager w k → Manager w k × Result ClientError Unit
  unfolding connect_found
  discover_from_tracker u a m =
      let (h, peers) = fetch_peers w u a m.client_url m.host in
      if is_empty m.tracker_url then (m, ok tt) else elim peers [
        | err e ↦ (on_host h m, err e)
        | ok found ↦ (connect_found a found (on_host h m), ok tt)
      ]

  -- A turn of the loop is given by what happened to the host before it.
  abbrev pub discover_after :
      Urls → Multiaddrs → (w.Host → w.Host) → Manager w k → Manager w k × Result ClientError Unit
  discover_after u a change m = discover_from_tracker u a (on_host (change m.host) m)

  unfoldable pub discover_from_tracker_with_retry :
      Urls → Multiaddrs → List (Turn (w.Host → w.Host)) → Manager w k → Ended (Manager w k)
  discover_from_tracker_with_retry u a turns m =
      retry (discover_after u a) (next_min m.max_retry_delay) second turns m

  connect_bootstrap : Multiaddrs → List Str → Manager w k → Manager w k
  connect_bootstrap a [] m = m
  connect_bootstrap a (s ∷ ss) m = connect_bootstrap a ss (elim (a.addr_info_from_string s) [
    | none ↦ m
    | some p ↦
        let saved = save_peer a p true m in
        if p.id == w.host_id m.host then m else on_host (w.connect p saved.host).0 saved
  ])

  unfoldable pub connect_bootstrap_peers : Multiaddrs → Manager w k → Manager w k
  unfolding connect_bootstrap
  connect_bootstrap_peers a m = connect_bootstrap a m.bootstrap_peers m

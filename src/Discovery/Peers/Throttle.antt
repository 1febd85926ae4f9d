-- ===== src/Discovery/Peers/Throttle.antt =====
-- How often the DHT is bootstrapped.
use raag.Prelude.{ℕ, ◌+◌, ◌*◌, ◌≤◌, ◌≡◌, List, [], ◌∷◌, length, arith}
use raag.Auth.{Crypto}
use raag.Discovery.World.{World}
use raag.Discovery.State.{Manager, dht_bootstrap_throttle, dht_bootstrap_peer_threshold}
use raag.Discovery.Peers.{throttled_bootstrap}

-- Times in order, from one to another.
abbrev pub InTime : (w : World) → ℕ → ℕ → List w.Host → Type 0
InTime w from until [] = from ≤ until
InTime w from until (h ∷ hs) = (from ≤ w.now h) × InTime w (w.now h) until hs

module _ {w : World} {k : Crypto} where
  -- Peers that come one after the other, each given by the host at that time.
  abbrev pub peers_come : List w.Host → Manager w k → Manager w k
  peers_come [] m = m
  peers_come (h ∷ hs) m = peers_come hs (throttled_bootstrap (record m { host = h }))

  abbrev pub bootstraps : Manager w k → ℕ
  bootstraps m = length m.effects

  -- The DHT is bootstrapped at most once for every five peers that come and once for every thirty
  -- seconds that pass: 150 seconds times the number of effects noted grow by no more than 30 seconds
  -- for each peer counted and 5 times the time since the last bootstrap, if the throttle is the one
  -- that NewManager sets and the peers come in the order of time.
  pub bootstraps_bounded :
      (from until : ℕ) (hs : List w.Host) (m : Manager w k)
      → m.bootstrap_throttle ≡ dht_bootstrap_throttle
      → m.last_bootstrap ≤ from
      → InTime w from until hs
      → bootstraps (peers_come hs m) * (dht_bootstrap_peer_threshold * dht_bootstrap_throttle)
          + dht_bootstrap_peer_threshold * m.last_bootstrap
        ≤ bootstraps m * (dht_bootstrap_peer_threshold * dht_bootstrap_throttle)
          + dht_bootstrap_throttle * (m.peer_count_since_bootstrap + length hs)
          + dht_bootstrap_peer_threshold * until
  unfolding throttled_bootstrap
  bootstraps_bounded from until [] m thr le times = omega arith
  bootstraps_bounded from until (h ∷ hs) m thr le times =
      ground
        (arith, bootstraps_bounded (w.now h) until hs (throttled_bootstrap (record m { host = h })))

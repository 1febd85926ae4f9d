-- ===== src/Discovery/Rounds/Within.antt =====
-- How many peers a Manager knows after mDNS and the DHT have found some.
use raag.Prelude.{suc, ◌%◌, ◌^◌, ◌≤◌, Str, false, List, [], ◌∷◌, length, arith}
use raag.Auth.{Crypto}
use raag.Discovery.{AddrInfo, Multiaddrs}
use raag.Discovery.World.{World}
use raag.Discovery.State.{Manager}
use raag.Discovery.Peers.{save_peer}
use raag.Discovery.Peers.Cap.{
  IsPeerstore, IsWithin, IsWithin-refl, IsWithin-trans, save_peer-IsWithin,
}
use raag.Discovery.Rounds.{round, discovery_round, handle_peer_found}

-- What is found, and when.
pub data Finding : Type 0 where
  by_mdns : AddrInfo → Finding
  by_dht : List AddrInfo → Finding

module _ {w : World} {k : Crypto} (a : Multiaddrs) where
  abbrev pub find : Finding → Manager w k → Manager w k
  find (by_mdns p) m = handle_peer_found a p m
  find (by_dht ps) m = discovery_round a ps m

  -- Each finding comes to the host as it is then.
  abbrev pub find_all : List Finding → Manager w k → Manager w k
  find_all [] m = m
  find_all (f ∷ fs) m = find_all fs (find f m)

  module _ (s : IsPeerstore w) where
    handle_peer_found-IsWithin :
        (p : AddrInfo) (m : Manager w k) → IsWithin m (handle_peer_found a p m)
    unfolding handle_peer_found
    handle_peer_found-IsWithin p m =
        let counted : Manager w k = record m { mdns_peer_count = suc m.mdns_peer_count % 2 ^ 64 } in
        let saved = save_peer-IsWithin s a p false counted in
        record {
          bounded = ground (arith, saved.bounded);
          same_max = ground (arith, saved.same_max);
        }

    round-IsWithin :
        (ids seen : List Str) (ps : List AddrInfo) (m : Manager w k)
        → IsWithin m (round a ids seen ps m)
    unfolding round
    round-IsWithin ids seen [] m = IsWithin-refl m
    round-IsWithin ids seen (p ∷ ps) m =
        let saved = save_peer a p false m in
        ground (
          arith,
          round-IsWithin ids seen ps m,
          IsWithin-trans m saved (round a ids (p.id ∷ seen) ps saved)
              (save_peer-IsWithin s a p false m) (round-IsWithin ids (p.id ∷ seen) ps saved),
        )

    find-IsWithin : (f : Finding) (m : Manager w k) → IsWithin m (find f m)
    unfolding discovery_round
    find-IsWithin (by_mdns p) m = handle_peer_found-IsWithin p m
    find-IsWithin (by_dht ps) m = round-IsWithin (w.known m.host) [] ps m

    find_all-IsWithin : (fs : List Finding) (m : Manager w k) → IsWithin m (find_all fs m)
    find_all-IsWithin [] m = IsWithin-refl m
    find_all-IsWithin (f ∷ fs) m =
        IsWithin-trans m (find f m) (find_all fs (find f m)) (find-IsWithin f m)
          (find_all-IsWithin fs (find f m))

-- Whatever mDNS and the DHT find, and in whatever order, a Manager that knows no more peers than its
-- greatest number still does, if the peerstore adds one peer at a time.
pub find_all_capped :
    {w : World} {k : Crypto} (a : Multiaddrs) (fs : List Finding) (m : Manager w k)
    → IsPeerstore w
    → length (w.known m.host) ≤ m.max_peers
    → length (w.known (find_all a fs m).host) ≤ m.max_peers
find_all_capped a fs m s le = ground (arith, find_all-IsWithin a s fs m, le)

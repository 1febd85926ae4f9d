-- ===== src/Discovery/Peers/Cap.antt =====
-- How many peers a Manager saves.
use Prim.Native.Nat.{max}
use raag.Prelude.{ℕ, suc, ◌≤◌, ◌≡◌, refl, ◌∙◌, Str, Bool, List, length, arith}
use raag.Auth.{Crypto}
use raag.Discovery.{AddrInfo, Multiaddrs}
use raag.Discovery.World.{World}
use raag.Discovery.State.{Manager}
use raag.Discovery.Peers.{persist_peers, save, save_peer, try_connect_to_peer}

-- What the peerstore documents: an addition is one of one peer.
pub record IsPeerstore (w : World) : Type 0 where
  pub add_one :
      (id : Str) (addrs : List Str) (ttl : ℕ) (h : w.Host)
      → length (w.known (w.add_addrs id addrs ttl h)) ≤ suc (length (w.known h))

module _ {w : World} {k : Crypto} where
  -- The second Manager knows no more peers than the first, or than the greatest number.
  pub record IsWithin (m n : Manager w k) : Type 0 where
    pub bounded : length (w.known n.host) ≤ max (length (w.known m.host)) m.max_peers
    pub same_max : n.max_peers ≡ m.max_peers

  pub IsWithin-refl : (m : Manager w k) → IsWithin m m
  IsWithin-refl m = record { bounded = omega arith; same_max = refl }

  pub IsWithin-trans : (l m n : Manager w k) → IsWithin l m → IsWithin m n → IsWithin l n
  IsWithin-trans l m n v v' = record {
    bounded = ground (arith, v.bounded, v'.bounded, v.same_max);
    same_max = v'.same_max ∙ v.same_max;
  }

  pub save_peer-IsWithin :
      IsPeerstore w
      → (a : Multiaddrs) (p : AddrInfo) (skip : Bool) (m : Manager w k)
      → IsWithin m (save_peer a p skip m)
  unfolding save_peer persist_peers save try_connect_to_peer
  save_peer-IsWithin s a p skip m = record {
    bounded = ground (arith, s.add_one p.id p.addrs w.permanent_addr_ttl m.host);
    same_max = ground arith;
  }

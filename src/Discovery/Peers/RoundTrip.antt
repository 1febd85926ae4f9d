-- ===== src/Discovery/Peers/RoundTrip.antt =====
-- The saved peers are read back.
use raag.Prelude.{
  ◌≡◌, ◌≢◌, ◌⊎◌, inr, refl, Str, codes, List, [], ◌∷◌, ◌++◌, Option, some, ok, err, Result, arith,
}
use raag.Prelude.Dict.{get}
use raag.Auth.{Crypto}
use raag.Storage.{Error, Disk}
use raag.Storage.Atomic.{Holds, after, write-Holds}
use raag.Discovery.{AddrInfo, Multiaddrs}
use raag.Discovery.World.{World}
use raag.Discovery.State.{Manager}
use raag.Discovery.Peers.{addr_info_strings, full_addrs, infos_of, load, save}

-- What the libraries document: an address with a peer's id after it gives both back.
pub record IsP2p (a : Multiaddrs) : Type 0 where
  pub whole :
      (addr id : Str)
      → a.new_multiaddr (a.encapsulate addr (codes "/p2p/" ++ id))
        ≡ some (a.encapsulate addr (codes "/p2p/" ++ id))
  pub apart :
      (addr id : Str)
      → a.addr_info_from_p2p_addr (a.encapsulate addr (codes "/p2p/" ++ id))
        ≡ some (record { id = id; addrs = addr ∷ [] })

pub record IsJson (w : World) : Type 0 where
  pub back : (ss : List Str) → w.json_strings (w.strings_json ss) ≡ some ss

abbrev pub each : Str → List Str → List AddrInfo
each id [] = []
each id (addr ∷ addrs) = record { id = id; addrs = addr ∷ [] } ∷ each id addrs

-- An entry for each address of each peer.
abbrev pub one_each : List AddrInfo → List AddrInfo
one_each [] = []
one_each (p ∷ ps) = each p.id p.addrs ++ one_each ps

module _ (a : Multiaddrs) (s : IsP2p a) where
  infos_of-full_addrs :
      (id : Str) (addrs : List Str) (rest : List Str)
      → infos_of a (full_addrs a.encapsulate id addrs ++ rest) ≡ each id addrs ++ infos_of a rest
  unfolding infos_of full_addrs
  infos_of-full_addrs id [] rest = refl
  infos_of-full_addrs id (addr ∷ addrs) rest =
      ground (arith, infos_of-full_addrs id addrs rest, s.whole addr id, s.apart addr id)

  infos_of-addr_info_strings :
      (ps : List AddrInfo) → infos_of a (addr_info_strings a ps) ≡ one_each ps
  unfolding infos_of addr_info_strings
  infos_of-addr_info_strings [] = refl
  infos_of-addr_info_strings (p ∷ ps) = ground (
    arith,
    infos_of-full_addrs p.id p.addrs (addr_info_strings a ps),
    infos_of-addr_info_strings ps,
  )

  load-Holds :
      (w : World) (j : IsJson w) (ps : List AddrInfo) (path : Str) (old : Option Str) (m : Disk)
      (r : Result Error Unit)
      → Holds path (w.strings_json (addr_info_strings a ps)) old r m
      → (load w.json_strings a (get path m) ≡ some (one_each ps)) ⊎ (get path m ≡ old)
  unfolding load
  load-Holds w j ps path old m (ok _) h =
      ground (arith, h, j.back (addr_info_strings a ps), infos_of-addr_info_strings ps)
  load-Holds w j ps path old m (err e) h = inr h

-- What Save writes is read back by Load as an entry for each address of each peer; or, where a
-- system call fails, the file is as it was. The temporary file has another name than the file, the
-- texts of the addresses parse back, and JSON decodes what it encoded.
pub load-save_peers :
    {w : World} {k : Crypto} (a : Multiaddrs) (ps : List AddrInfo) (m : Manager w k)
    → IsP2p a
    → IsJson w
    → w.temp_name m.host ≢ m.peers_file
    → let file = get m.peers_file (save a ps m).disk in
      (load w.json_strings a file ≡ some (one_each ps)) ⊎ (file ≡ get m.peers_file m.disk)
unfolding save
load-save_peers {w} a ps m s j ne =
    let text = w.strings_json (addr_info_strings a ps) in
    let h = write-Holds (w.faults m.host) (w.temp_name m.host) m.peers_file text m.disk ne in
    ground (
      arith,
      load-Holds a s w j ps m.peers_file (get m.peers_file m.disk)
          (after (w.faults m.host) (w.temp_name m.host) m.peers_file text m.disk ne).disk _ h,
    )
